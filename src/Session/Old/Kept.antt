-- ===== src/Session/Old/Kept.antt =====
-- Which archives the clean-up leaves, and what it reports.
use dinomem.Prelude.{
  ℕ, ◌+◌, ◌≡◌, refl, Bool, not, Option, some, List, [], ◌∷◌, filter, length, arith,
}
use dinomem.Prelude.Text.{Text}
use dinomem.Session.Archive.{name_of}
use dinomem.Session.Filter.{Sessions}
use dinomem.Session.Old.{
  get_tracked_files, Candidate, fate_of, is_expired, Cleanup, count_fate, clean_candidates,
  no_cleanup, cutoff, cleanup_old_archives,
}

-- The candidate is referenced by sessions.json, or not older than the limit.
abbrev pub is_safe : Text → Text → Option Sessions → ℕ → Candidate → Bool
is_safe prefix dir sessions now c =
    not (is_expired (fate_of (get_tracked_files prefix dir sessions) (cutoff now) c))

module _ (unlink_fails : Text → Bool) (tracked : List Text) (cutoff_time : ℕ) where
  left_safe :
      (t : Cleanup) (cs : List Candidate)
      → filter
          (λ c. not (is_expired (fate_of tracked cutoff_time c)))
          (clean_candidates unlink_fails tracked cutoff_time t cs).1
        ≡ filter (λ c. not (is_expired (fate_of tracked cutoff_time c))) cs
  unfolding clean_candidates
  left_safe t [] = refl
  left_safe t (c ∷ cs) =
      ground (arith, left_safe (count_fate (fate_of tracked cutoff_time c) (name_of c.path) t) cs)

  left_all :
      (t u : Cleanup) (cs : List Candidate)
      → (clean_candidates unlink_fails tracked cutoff_time t cs).0 ≡ some u
      → ((clean_candidates unlink_fails tracked cutoff_time t cs).1
          ≡ filter (λ c. not (is_expired (fate_of tracked cutoff_time c))) cs)
        × (u.deleted_count + length (clean_candidates unlink_fails tracked cutoff_time t cs).1
            ≡ t.deleted_count + length cs)
        × (u.kept_count
            ≡ t.kept_count + length (clean_candidates unlink_fails tracked cutoff_time t cs).1)
  unfolding clean_candidates count_fate
  left_all t u [] h = ground arith
  left_all t u (c ∷ cs) h =
      ground (arith, left_all (count_fate (fate_of tracked cutoff_time c) (name_of c.path) t) u cs)

-- The clean-up removes no archive that sessions.json references or that is not older than the limit, also
-- where a removal raises in the midst of it.
pub cleanup_old_archives-keeps :
    (unlink_fails : Text → Bool) (prefix dir : Text) (sessions : Option Sessions) (now : ℕ)
    (cs : List Candidate)
    → filter
        (is_safe prefix dir sessions now)
        (cleanup_old_archives unlink_fails prefix dir sessions now cs).1
      ≡ filter (is_safe prefix dir sessions now) cs
unfolding cleanup_old_archives
cleanup_old_archives-keeps unlink_fails prefix dir sessions now cs =
    left_safe unlink_fails (get_tracked_files prefix dir sessions) (cutoff now) no_cleanup cs

-- A clean-up that ends leaves exactly those archives, and reports as deleted and as kept as many as it
-- has removed and left.
pub cleanup_old_archives-counts :
    (unlink_fails : Text → Bool) (prefix dir : Text) (sessions : Option Sessions) (now : ℕ)
    (cs : List Candidate) (u : Cleanup)
    → (cleanup_old_archives unlink_fails prefix dir sessions now cs).0 ≡ some u
    → let left = (cleanup_old_archives unlink_fails prefix dir sessions now cs).1 in
      (left ≡ filter (is_safe prefix dir sessions now) cs)
      × (u.deleted_count + length left ≡ length cs)
      × (u.kept_count ≡ length left)
unfolding cleanup_old_archives
cleanup_old_archives-counts unlink_fails prefix dir sessions now cs u h =
    let (rest, deleted, kept) =
      left_all unlink_fails (get_tracked_files prefix dir sessions) (cutoff now) no_cleanup u cs
        h in
    (rest, omega (arith, deleted), omega (arith, kept))
