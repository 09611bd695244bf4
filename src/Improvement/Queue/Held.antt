-- ===== src/Improvement/Queue/Held.antt =====
-- A claim holds its candidate back.
use dinomem.Prelude.{ℕ, ◌+◌, ◌≤◌, ◌≡◌, refl, Bool, true, false, ◌&&◌, some, leb, ◌==◌, arith}
use dinomem.Prelude.Text.{Text, text_eq, text_eq_refl}
use dinomem.Improvement.Queue.{
  Status, new, claimed, proposed, dropped, other, Candidate, QueueDir, candidates, is_claimable,
  claimable_status, claim, first_claimable, op_next, Op, run_op, claim_ttl_sec,
}
use dinomem.Improvement.Queue.Claims.{
  AllFiles, AllFiles-save_self, AllAt-candidates, first_claimable-AllAt,
}
use dinomem.Improvement.Queue.Runs.{changes, run_elsewhere}

-- Operations one after the other, each at a time up to the limit, that do not mark or release the id.
pub data Within (limit : ℕ) (i : Text) (dir : QueueDir) : QueueDir → Type 0 where
  start : Within limit i dir dir
  then_ran :
      {mid after : QueueDir} (now : ℕ) (op : Op)
      → Within limit i dir mid
      → now ≤ limit
      → changes op i ≡ false
      → after ≡ (run_op now op mid).1
      → Within limit i dir after

abbrev is_claimed : Status → Bool
is_claimed claimed = true
is_claimed new = false
is_claimed proposed = false
is_claimed dropped = false
is_claimed (other s) = false

-- claimed at the time, with the id
abbrev held : ℕ → Text → Candidate → Bool
held at i c = text_eq c.id i && (is_claimed c.status && c.claimed_at == at)

not_given_out :
    (at now claimed_at : ℕ) (s : Status)
    → leb now (at + claim_ttl_sec) ≡ true
    → is_claimed s ≡ true
    → (claimed_at == at) ≡ true
    → claimable_status now claimed_at s ≡ false
unfolding claimable_status
not_given_out at now t new l h e = absurd (cc)
not_given_out at now t claimed l h e = ground arith
not_given_out at now t proposed l h e = refl
not_given_out at now t dropped l h e = refl
not_given_out at now t (other s) l h e = refl

held_back :
    (at : ℕ) (i : Text) (now : ℕ) (c : Candidate)
    → leb now (at + claim_ttl_sec) ≡ true
    → held at i c ≡ true
    → is_claimable now c ≡ false
unfolding is_claimable
held_back at i now c l h =
    not_given_out at now c.claimed_at c.status l (ground (arith)) (ground (arith))

Within-AllFiles :
    (at : ℕ) (i q : Text) {dir after : QueueDir}
    → AllFiles q (held at i) dir
    → Within (at + claim_ttl_sec) i dir after
    → AllFiles q (held at i) after
Within-AllFiles at i q s start = s
Within-AllFiles at i q s (then_ran now op r l n e) =
    rw e
      (run_elsewhere i q (held at i) (λ t. leb t (at + claim_ttl_sec)) (λ c h. ground (arith))
        (held_back at i) now op _ (ground (arith)) n (Within-AllFiles at i q s r)).0

-- A claim is exclusive: for three hours, and after any operations at times up to then that do not mark or release
-- the id of the candidate, no `next` gives out the file that one has claimed.
pub op_next-exclusive :
    (now later : ℕ) (dir after : QueueDir) (path other_path : Text) (c d : Candidate)
    → first_claimable now (candidates dir) ≡ some (path, c)
    → Within (now + claim_ttl_sec) c.id (op_next now dir).1 after
    → later ≤ now + claim_ttl_sec
    → first_claimable later (candidates after) ≡ some (other_path, d)
    → text_eq other_path path ≡ false
unfolding op_next
op_next-exclusive now later dir after path other_path c d h r l k =
    let saved : AllFiles path (held now c.id) (op_next now dir).1 =
      rw (h, op_next)
        (AllFiles-save_self path (held now c.id) (claim now c) dir
          (rw (text_eq_refl c.id) (ground (arith)))) in
    let (y, n) =
      first_claimable-AllAt path (held now c.id) later (candidates after) other_path d k
        (AllAt-candidates path (held now c.id) after (Within-AllFiles now c.id path saved r)) in
    ground (arith, held_back now c.id later d)
