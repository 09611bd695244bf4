-- ===== src/Improvement/Queue/Order.antt =====
-- The order in which candidates are claimed.
use dinomem.Prelude.{
  ℕ, ◌≤◌, ◌≡◌, inl, inr, true, some, [], ◌∷◌, leb, filter, All, arith, Bool-cases,
}
use dinomem.Prelude.Text.{Text}
use dinomem.Improvement.Queue.{
  Candidate, QueueDir, Listed, readable, insert_by_time, sort_by_time, candidates, is_claimable,
  first_claimable, op_due,
}

-- `x` was detected no later than those of the list.
abbrev IsFirst : Text × Candidate → Listed → Type 0
IsFirst x = All (λ y. x.1.detected_at ≤ y.1.detected_at)

abbrev IsSorted : Listed → Type 0
IsSorted [] = Unit
IsSorted (x ∷ l) = IsFirst x l × IsSorted l

IsFirst-insert :
    (x y : Text × Candidate) (l : Listed)
    → x.1.detected_at ≤ y.1.detected_at
    → IsFirst x l
    → IsFirst x (insert_by_time y l)
unfolding insert_by_time
IsFirst-insert x y [] h a = (h, tt)
IsFirst-insert x y (z ∷ l) h a = ground (arith, IsFirst-insert x y l h a.1)

IsFirst-trans :
    (x y : Text × Candidate) (l : Listed)
    → x.1.detected_at ≤ y.1.detected_at
    → IsFirst y l
    → IsFirst x l
IsFirst-trans x y [] h a = tt
IsFirst-trans x y (z ∷ l) h a = (omega (arith, h, a.0), IsFirst-trans x y l h a.1)

insert_by_time-IsSorted :
    (x : Text × Candidate) (l : Listed) → IsSorted l → IsSorted (insert_by_time x l)
unfolding insert_by_time
insert_by_time-IsSorted x [] s = (tt, tt)
insert_by_time-IsSorted x (y ∷ l) s = elim (Bool-cases (leb x.1.detected_at y.1.detected_at)) [
  | inl e ↦ rw e (
      let h : x.1.detected_at ≤ y.1.detected_at = ground arith in
      ((h, IsFirst-trans x y l h s.0), s))
  | inr e ↦ rw e (IsFirst-insert y x l (ground arith) s.0, insert_by_time-IsSorted x l s.1)
]

sort_by_time-IsSorted : (l : Listed) → IsSorted (sort_by_time l)
unfolding sort_by_time
sort_by_time-IsSorted [] = tt
sort_by_time-IsSorted (x ∷ l) = insert_by_time-IsSorted x (sort_by_time l) (sort_by_time-IsSorted l)

-- the first claimable one is claimable and no later than the others that are
IsFirst-of_sorted :
    (now : ℕ) (l : Listed) (path : Text) (c : Candidate)
    → IsSorted l
    → first_claimable now l ≡ some (path, c)
    → (is_claimable now c ≡ true) × IsFirst (path, c) (filter (λ e. is_claimable now e.1) l)
unfolding first_claimable
IsFirst-of_sorted now [] path c s h = absurd (cc h)
IsFirst-of_sorted now ((p, d) ∷ l) path c s h = elim (Bool-cases (is_claimable now d)) [
  | inl y ↦
      let e : some (p, d) ≡ some (path, c) = rw y at h in
      ground (arith, IsFirst-filter now (p, d) l s.0, e)
  | inr n ↦
      let e : first_claimable now l ≡ some (path, c) = rw n at h in
      let (ok, first) = IsFirst-of_sorted now l path c s.1 e in (ok, rw n first)
]
  where
    IsFirst-filter :
        (now : ℕ) (x : Text × Candidate) (l : Listed)
        → IsFirst x l
        → IsFirst x (filter (λ e. is_claimable now e.1) l)
    IsFirst-filter now x [] a = tt
    IsFirst-filter now x (y ∷ l) a = elim (Bool-cases (is_claimable now y.1)) [
      | inl e ↦ rw e (a.0, IsFirst-filter now x l a.1)
      | inr e ↦ rw e (IsFirst-filter now x l a.1)
    ]

-- The candidate that `next` claims is one of those that are due, and no candidate that is due was
-- detected earlier.
pub first_claimable-oldest :
    (now : ℕ) (dir : QueueDir) (path : Text) (c : Candidate)
    → first_claimable now (candidates dir) ≡ some (path, c)
    → (is_claimable now c ≡ true) × All (λ e. c.detected_at ≤ e.1.detected_at) (op_due now dir)
unfolding candidates op_due
first_claimable-oldest now dir path c h =
    IsFirst-of_sorted now (sort_by_time (readable dir)) path c
      (sort_by_time-IsSorted (readable dir)) h
