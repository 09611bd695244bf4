-- ===== src/Review/Batch.antt =====
-- The batch size and the cursor of `review` in procedures/memory_review.py.
pub mod Cycle
use dinomem.Prelude.{
  ℕ, suc, ◌+◌, ◌/◌, Bool, List, min, max, leb, ◌==◌, if◌then◌else◌, length, take, drop,
}

abbrev pub batch_min : ℕ
batch_min = 5

abbrev pub batch_max : ℕ
batch_max = 150

abbrev pub cycle_days : ℕ
cycle_days = 7

-- `get_batch_size`; `math.ceil(n / 7)` is the quotient rounded up
unfoldable pub get_batch_size : ℕ → ℕ
get_batch_size total_files =
    if total_files == 0
    then batch_min
    else max batch_min (min batch_max ((total_files + 6) / cycle_days))

-- .review_cursor.json
pub record Cursor : Type 0 where
  pub offset : ℕ
  pub total : ℕ
  pub cycle : ℕ

-- `load_cursor` with no file
abbrev pub new_cursor : Cursor
new_cursor = record { offset = 0; total = 0; cycle = 0 }

-- a changed number of files restarts the cycle
unfoldable pub reset_total : ℕ → Cursor → Cursor
reset_total total c = if c.total == total then c else record c { offset = 0; total = total }

-- an offset at the end wraps round
unfoldable pub wrap : ℕ → Cursor → Cursor
wrap total c = if leb total c.offset then record c { offset = 0; cycle = suc c.cycle } else c

-- the batch of one run, and the cursor that it saves
unfoldable pub next_batch {ℓ} : {A : Type ℓ} → List A → Cursor → List A × Cursor
next_batch all_md_files cursor =
    let total = length all_md_files in
    let c = wrap total (reset_total total cursor) in
    let md_files = take (get_batch_size total) (drop c.offset all_md_files) in
    (md_files, record c { offset = c.offset + length md_files })
