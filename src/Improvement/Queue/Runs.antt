-- ===== src/Improvement/Queue/Runs.antt =====
-- Runs of the queue's operations, one after the other at any times.
use dinomem.Prelude.{
  ℕ, ◌≡◌, refl, ap, ◌∙◌, inl, inr, Bool, true, false, ◌&&◌, Option, none, some, [], ◌∷◌,
  if◌then◌else◌, arith, Bool-cases, Option-cases,
}
use dinomem.Prelude.Text.{Text, text_eq, text_eq_iff}
use dinomem.Improvement.Queue.{
  Status, new, claimed, proposed, dropped, other, Candidate, QueueDir, Listed, candidates,
  is_claimable, save, claim, first_claimable, find_id, op_next, set_status, Op, due, next, list,
  show, done, release, drop, run_op,
}
use dinomem.Improvement.Queue.Claims.{AllAt, AllFiles, AllAt-candidates, first_claimable-AllAt}

-- the id that an operation changes
unfoldable pub changes : Op → Text → Bool
changes due i = false
changes next i = false
changes list i = false
changes (show j) i = false
changes (done j) i = text_eq j i
changes (drop j why) i = text_eq j i
changes (release j) i = text_eq j i

-- One operation that does not change the id.
pub data Step (i : Text) (dir after : QueueDir) : Type 0 where
  ran :
      (now : ℕ) (op : Op) → changes op i ≡ false → after ≡ (run_op now op dir).1 → Step i dir after

pub data Reach (i : Text) (dir : QueueDir) : QueueDir → Type 0 where
  here : Reach i dir dir
  more : {mid after : QueueDir} → Reach i dir mid → Step i mid after → Reach i dir after

-- The first file of that name, and none where there is no such file.
unfoldable pub file_at : Text → QueueDir → Option (Option Candidate)
file_at q [] = none
file_at q ((p, c) ∷ dir) = if text_eq p q then some c else file_at q dir

abbrev pub is_terminal : Status → Bool
is_terminal proposed = true
is_terminal dropped = true
is_terminal (other s) = true
is_terminal new = false
is_terminal claimed = false

abbrev pub settled : Text → Candidate → Bool
settled i c = text_eq c.id i && is_terminal c.status

-- What is at the path has the id, and a status that no claim touches.
abbrev pub IsSettled : Text → Text → QueueDir → Type 0
IsSettled i q dir = AllFiles q (settled i) dir

not_claimable :
    (now : ℕ) (c : Candidate) (s : Status)
    → c.status ≡ s
    → is_terminal s ≡ true
    → is_claimable now c ≡ false
unfolding is_claimable
not_claimable now c new e h = absurd (cc h)
not_claimable now c claimed e h = absurd (cc h)
not_claimable now c proposed e h = rw e
not_claimable now c dropped e h = rw e
not_claimable now c (other t) e h = rw e

-- What holds for the candidate at a path, which has the id and cannot be claimed at the times in question, stays.
module _ (i q : Text) (p : Candidate → Bool) (ok : ℕ → Bool)
    (has_id : (c : Candidate) → p c ≡ true → text_eq c.id i ≡ true)
    (is_held : (now : ℕ) (c : Candidate)
      → ok now ≡ true
      → p c ≡ true
      → is_claimable now c ≡ false) where
  saved_elsewhere :
      (path : Text) (c : Candidate) (dir : QueueDir)
      → text_eq path q ≡ false
      → AllFiles q p dir
      → AllFiles q p (save path c dir) × (file_at q (save path c dir) ≡ file_at q dir)
  unfolding save file_at
  saved_elsewhere path c [] n s = (tt, refl)
  saved_elsewhere path c ((r, d) ∷ dir) n s =
      let (settled_rest, same) = saved_elsewhere path c dir n s.1 in
      elim (Bool-cases (text_eq r path)) [
        | inl e ↦
            let apart : text_eq r q ≡ false =
              ap (λ x. text_eq x q) ((text_eq_iff r path).0 e) ∙ n in
            rw e ((ground (arith, apart), settled_rest), ground (arith, apart, same))
        | inr e ↦ rw e ((s.0, settled_rest), ground (arith, same))
      ]

  claim_elsewhere :
      (now : ℕ) (dir : QueueDir) (path : Text) (c : Candidate)
      → ok now ≡ true
      → AllFiles q p dir
      → first_claimable now (candidates dir) ≡ some (path, c)
      → text_eq path q ≡ false
  claim_elsewhere now dir path c t s h =
      let (y, n) =
        first_claimable-AllAt q p now (candidates dir) path c h (AllAt-candidates q p dir s) in
      ground (arith, is_held now c t)

  find_elsewhere :
      (j : Text) (l : Listed) (path : Text) (c : Candidate)
      → text_eq j i ≡ false
      → AllAt q p l
      → find_id j l ≡ some (path, c)
      → text_eq path q ≡ false
  unfolding find_id
  find_elsewhere j [] path c n a h = absurd (cc h)
  find_elsewhere j ((r, d) ∷ l) path c n a h = elim (Bool-cases (text_eq d.id j)) [
    | inl y ↦
        let e : some (r, d) ≡ some (path, c) = rw y at h in
        ground (arith, e, a.0, has_id d, text_eq_iff d.id j, text_eq_iff d.id i, text_eq_iff j i)
    | inr skip ↦ find_elsewhere j l path c n a.1 (rw skip at h)
  ]

  set_elsewhere :
      (j : Text) (f : Candidate → Candidate) (dir : QueueDir)
      → text_eq j i ≡ false
      → AllFiles q p dir
      → AllFiles q p (set_status j f dir).1 × (file_at q (set_status j f dir).1 ≡ file_at q dir)
  unfolding set_status
  set_elsewhere j f dir n s = elim (Option-cases (find_id j (candidates dir))) [
    | inl e ↦ rw e (s, refl)
    | inr ((path, c), e) ↦ rw e (
        saved_elsewhere path (f c) dir
          (find_elsewhere j (candidates dir) path c n (AllAt-candidates q p dir s) e) s)
  ]

  next_elsewhere :
      (now : ℕ) (dir : QueueDir)
      → ok now ≡ true
      → AllFiles q p dir
      → AllFiles q p (op_next now dir).1 × (file_at q (op_next now dir).1 ≡ file_at q dir)
  unfolding op_next
  next_elsewhere now dir t s = elim (Option-cases (first_claimable now (candidates dir))) [
    | inl e ↦ rw e (s, refl)
    | inr ((path, c), e) ↦
        rw e (saved_elsewhere path (claim now c) dir (claim_elsewhere now dir path c t s e) s)
  ]

  pub run_elsewhere :
      (now : ℕ) (op : Op) (dir : QueueDir)
      → ok now ≡ true
      → changes op i ≡ false
      → AllFiles q p dir
      → AllFiles q p (run_op now op dir).1 × (file_at q (run_op now op dir).1 ≡ file_at q dir)
  unfolding run_op changes
  run_elsewhere now due dir t n s = (s, refl)
  run_elsewhere now next dir t n s = next_elsewhere now dir t s
  run_elsewhere now list dir t n s = (s, refl)
  run_elsewhere now (show j) dir t n s = (s, refl)
  run_elsewhere now (done j) dir t n s = set_elsewhere j _ dir n s
  run_elsewhere now (drop j why) dir t n s = set_elsewhere j _ dir n s
  run_elsewhere now (release j) dir t n s = set_elsewhere j _ dir n s

settled-has_id : (i : Text) (c : Candidate) → settled i c ≡ true → text_eq c.id i ≡ true
settled-has_id i c h = ground (arith)

settled_is_held :
    (i : Text) (now : ℕ) (c : Candidate)
    → ◌≡◌ {A = Bool} true true
    → settled i c ≡ true
    → is_claimable now c ≡ false
settled_is_held i now c t h = not_claimable now c c.status refl (ground (arith))

module _ (i q : Text) where
  Reach-IsSettled :
      {dir after : QueueDir}
      → IsSettled i q dir
      → Reach i dir after
      → IsSettled i q after × (file_at q after ≡ file_at q dir)
  Reach-IsSettled s here = (s, refl)
  Reach-IsSettled s (more r (ran now op n e)) =
      let (t, kept) = Reach-IsSettled s r in
      let (u, same) =
        run_elsewhere i q (settled i) (λ _. true) (settled-has_id i) (settled_is_held i) now op _
          refl n t in
      rw e (u, same ∙ kept)

-- A candidate that is proposed, dropped or of a status that the script does not know stays as it is in any
-- run of operations at any times, claims included, that does not mark or release its own id.
pub Reach-keeps_settled :
    (i q : Text) (dir after : QueueDir)
    → IsSettled i q dir
    → Reach i dir after
    → file_at q after ≡ file_at q dir
Reach-keeps_settled i q dir after s r = (Reach-IsSettled i q s r).1
