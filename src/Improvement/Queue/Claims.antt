-- ===== src/Improvement/Queue/Claims.antt =====
-- Tests that all candidates in the files of a name pass, and what `due` says about `next`.
use dinomem.Prelude.{
  ℕ, ◌≡◌, ◌⊎◌, refl, inl, inr, Bool, true, ◌||◌, not, Option, none, some, [], ◌∷◌, leb, filter, All,
  arith, Bool-cases,
}
use dinomem.Prelude.Text.{Text, codes, text_eq}
use dinomem.Improvement.Queue.{
  Candidate, QueueDir, Listed, add_readable, readable, insert_by_time, sort_by_time, candidates,
  is_claimable, save, first_claimable, op_due, op_next, run_op, due, next,
}

-- Every listed candidate at the path passes the test.
abbrev pub AllAt : Text → (Candidate → Bool) → Listed → Type 0
AllAt q p = All (λ e. (not (text_eq e.0 q) || p e.1) ≡ true)

abbrev pub passes : (Candidate → Bool) → Option Candidate → Bool
passes p none = true
passes p (some c) = p c

-- Every candidate in a file of that name passes the test.
abbrev pub AllFiles : Text → (Candidate → Bool) → QueueDir → Type 0
AllFiles q p = All (λ e. (not (text_eq e.0 q) || passes p e.1) ≡ true)

module _ (q : Text) (p : Candidate → Bool) where
  AllAt-insert :
      (x : Text × Candidate) (l : Listed)
      → (not (text_eq x.0 q) || p x.1) ≡ true
      → AllAt q p l
      → AllAt q p (insert_by_time x l)
  unfolding insert_by_time
  AllAt-insert x [] h a = (h, tt)
  AllAt-insert x (y ∷ l) h a = elim (Bool-cases (leb x.1.detected_at y.1.detected_at)) [
    | inl e ↦ rw e (h, a)
    | inr e ↦ rw e (a.0, AllAt-insert x l h a.1)
  ]

  AllAt-sort : (l : Listed) → AllAt q p l → AllAt q p (sort_by_time l)
  unfolding sort_by_time
  AllAt-sort [] a = tt
  AllAt-sort (x ∷ l) a = AllAt-insert x (sort_by_time l) a.0 (AllAt-sort l a.1)

  AllAt-readable : (dir : QueueDir) → AllFiles q p dir → AllAt q p (readable dir)
  unfolding readable
  AllAt-readable [] a = tt
  AllAt-readable ((r, d) ∷ dir) a = elim (Bool-cases (text_eq r (codes "skill_usage.json"))) [
    | inl side ↦ rw side (AllAt-readable dir a.1)
    | inr file ↦ rw file (go d (AllAt-readable dir a.1) a.0)
  ]
    where
      go :
          (d : Option Candidate)
          → AllAt q p (readable dir)
          → (not (text_eq r q) || passes p d) ≡ true
          → AllAt q p (add_readable r d (readable dir))
      go none rest h = rest
      go (some c) rest h = (h, rest)

  pub AllAt-candidates : (dir : QueueDir) → AllFiles q p dir → AllAt q p (candidates dir)
  unfolding candidates
  AllAt-candidates dir a = AllAt-sort (readable dir) (AllAt-readable dir a)

  pub AllFiles-save_self :
      (c : Candidate) (dir : QueueDir) → p c ≡ true → AllFiles q p (save q c dir)
  unfolding save
  AllFiles-save_self c [] h = tt
  AllFiles-save_self c ((r, d) ∷ dir) h = elim (Bool-cases (text_eq r q)) [
    | inl same ↦ rw same (ground (arith, h), AllFiles-save_self c dir h)
    | inr apart ↦ rw apart (ground (arith, apart), AllFiles-save_self c dir h)
  ]

  pub first_claimable-AllAt :
      (now : ℕ) (l : Listed) (path : Text) (c : Candidate)
      → first_claimable now l ≡ some (path, c)
      → AllAt q p l
      → (is_claimable now c ≡ true) × ((not (text_eq path q) || p c) ≡ true)
  unfolding first_claimable
  first_claimable-AllAt now [] path c h a = absurd (cc h)
  first_claimable-AllAt now ((r, d) ∷ l) path c h a = elim (Bool-cases (is_claimable now d)) [
    | inl y ↦ let e : some (r, d) ≡ some (path, c) = rw y at h in ground (arith, e, a.0)
    | inr n ↦ first_claimable-AllAt now l path c (rw n at h) a.1
  ]

none_due :
    (now : ℕ) (l : Listed)
    → (first_claimable now l ≡ none) × (filter (λ e. is_claimable now e.1) l ≡ [])
      ⊎ ((x : Text × Candidate) × (rest : Listed) × (first_claimable now l ≡ some x)
          × (filter (λ e. is_claimable now e.1) l ≡ x ∷ rest))
unfolding first_claimable
none_due now [] = inl (refl, refl)
none_due now ((p, c) ∷ l) = elim (Bool-cases (is_claimable now c)) [
  | inl y ↦ inr ((p, c), filter (λ e. is_claimable now e.1) l, rw y, rw y)
  | inr n ↦ rw n (none_due now l)
]

-- `due` exits with 0 exactly when `next` would claim something at that time, and it changes nothing.
pub due-next :
    (now : ℕ) (dir : QueueDir)
    → ((run_op now due dir).0 ≡ (run_op now next dir).0) × ((run_op now due dir).1 ≡ dir)
unfolding run_op op_due op_next
due-next now dir = elim (none_due now (candidates dir)) [
  | inl (f, g) ↦ (rw f (rw g), refl)
  | inr (x, rest, f, g) ↦ (rw f (rw g), refl)
]
