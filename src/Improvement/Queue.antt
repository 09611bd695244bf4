-- ===== src/Improvement/Queue.antt =====
-- The queue of candidates in procedures/improvement_propose.py: `_candidates`, the claims with their
-- time limit, and the operations of the command line. Times are in seconds; what the operations print
-- is the candidate or the list that they answer.
pub mod Order
pub mod Claims
pub mod Held
pub mod Runs
use dinomem.Prelude.{
  ℕ, ◌+◌, ◌*◌, Bool, true, false, ◌&&◌, not, Option, none, some, List, [], ◌∷◌, ltb, leb, filter,
  if◌then◌else◌,
}
use dinomem.Prelude.Text.{Text, codes, text_eq}

abbrev pub claim_ttl_sec : ℕ
claim_ttl_sec = 3 * 3600

-- The value of `status`; a missing one is `new`.
pub data Status : Type 0 where
  new claimed proposed dropped : Status
  other : Text → Status

-- What the script reads and writes of a candidate's dict.
pub record Candidate : Type 0 where
  pub id : Text
  pub status : Status
  pub detected_at : ℕ
  pub claimed_at : ℕ
  pub dropped_reason : Option Text

-- The files of kb/improvement_queue by name, in the order of `sorted`; none is a file that cannot be
-- read, or whose value is no dict or has no id.
abbrev pub QueueDir : Type 0
QueueDir = List (Text × Option Candidate)

abbrev pub Listed : Type 0
Listed = List (Text × Candidate)

abbrev pub add_readable : Text → Option Candidate → Listed → Listed
add_readable path none rest = rest
add_readable path (some c) rest = (path, c) ∷ rest

-- the loop of `_candidates`
unfoldable pub readable : QueueDir → Listed
readable [] = []
readable ((path, c) ∷ dir) =
    let rest = readable dir in
    if text_eq path (codes "skill_usage.json") then rest else add_readable path c rest

-- `list.sort` by `detected_at`, which is stable
unfoldable pub insert_by_time : Text × Candidate → Listed → Listed
insert_by_time x [] = x ∷ []
insert_by_time x (y ∷ l) =
    if leb x.1.detected_at y.1.detected_at then x ∷ y ∷ l else y ∷ insert_by_time x l

unfoldable pub sort_by_time : Listed → Listed
sort_by_time [] = []
sort_by_time (x ∷ l) = insert_by_time x (sort_by_time l)

-- `_candidates`
unfoldable pub candidates : QueueDir → Listed
candidates dir = sort_by_time (readable dir)

-- the tests of `_is_claimable` on the status
unfoldable pub claimable_status : ℕ → ℕ → Status → Bool
claimable_status now claimed_at new = true
claimable_status now claimed_at claimed = ltb (claimed_at + claim_ttl_sec) now
claimable_status now claimed_at proposed = false
claimable_status now claimed_at dropped = false
claimable_status now claimed_at (other s) = false

-- `_is_claimable`
unfoldable pub is_claimable : ℕ → Candidate → Bool
unfolding claimable_status
is_claimable now c = claimable_status now c.claimed_at c.status

-- `_save`
unfoldable pub save : Text → Candidate → QueueDir → QueueDir
save path c [] = []
save path c ((p, d) ∷ dir) = (if text_eq p path then (p, some c) else (p, d)) ∷ save path c dir

unfoldable pub first_claimable : ℕ → Listed → Option (Text × Candidate)
first_claimable now [] = none
first_claimable now ((path, c) ∷ l) =
    let rest = first_claimable now l in if is_claimable now c then some (path, c) else rest

abbrev pub claim : ℕ → Candidate → Candidate
claim now c = record c { status = claimed; claimed_at = now }

abbrev claim_found : ℕ → QueueDir → Option (Text × Candidate) → Option Candidate × QueueDir
claim_found now dir none = (none, dir)
claim_found now dir (some (path, c)) = (some (claim now c), save path (claim now c) dir)

-- `op_next`: the candidate that it claims and prints
unfoldable pub op_next : ℕ → QueueDir → Option Candidate × QueueDir
op_next now dir = claim_found now dir (first_claimable now (candidates dir))

-- `op_due`: the candidates that are ready
unfoldable pub op_due : ℕ → QueueDir → Listed
op_due now dir = filter (λ e. is_claimable now e.1) (candidates dir)

-- `_find`
unfoldable pub find_id : Text → Listed → Option (Text × Candidate)
find_id cand_id [] = none
find_id cand_id ((path, c) ∷ l) =
    let rest = find_id cand_id l in if text_eq c.id cand_id then some (path, c) else rest

abbrev save_found : (Candidate → Candidate) → QueueDir → Option (Text × Candidate) → Bool × QueueDir
save_found f dir none = (false, dir)
save_found f dir (some (path, c)) = (true, save path (f c) dir)

-- `_set_status`, by what it does to the dict
unfoldable pub set_status : Text → (Candidate → Candidate) → QueueDir → Bool × QueueDir
set_status cand_id f dir = save_found f dir (find_id cand_id (candidates dir))

-- The command line; the operations behind `due`, `list` and `show` change nothing.
pub data Op : Type 0 where
  due next list : Op
  show done release : Text → Op
  drop : Text → Text → Op

abbrev pub mark_done : Candidate → Candidate
mark_done c = record c { status = proposed }

abbrev pub mark_dropped : Text → Candidate → Candidate
mark_dropped why c = record c { status = dropped; dropped_reason = some why }

abbrev pub mark_released : Candidate → Candidate
mark_released c = record c { status = new; claimed_at = 0 }

abbrev is_none {ℓ} : {A : Type ℓ} → Option A → Bool
is_none none = true
is_none (some a) = false

abbrev is_nil {ℓ} : {A : Type ℓ} → List A → Bool
is_nil [] = true
is_nil (x ∷ xs) = false

-- `main`: whether the exit code is 0, and the queue afterwards
unfoldable pub run_op : ℕ → Op → QueueDir → Bool × QueueDir
run_op now due dir = (not (is_nil (op_due now dir)), dir)
run_op now next dir = let (c, after) = op_next now dir in (not (is_none c), after)
run_op now list dir = (not (is_nil (candidates dir)), dir)
run_op now (show cand_id) dir = (not (is_none (find_id cand_id (candidates dir))), dir)
run_op now (done cand_id) dir = set_status cand_id mark_done dir
run_op now (drop cand_id why) dir = set_status cand_id (mark_dropped why) dir
run_op now (release cand_id) dir = set_status cand_id mark_released dir
