-- ===== src/Review/Bucket.antt =====
-- The age buckets of `review` in procedures/memory_review.py, and the tracker that dates a file's
-- last review by its bucket.
use dinomem.Prelude.{
  ℕ, ◌≡◌, refl, Bool, false, Option, none, some, List, [], ◌∷◌, leb, if◌then◌else◌, any, ◌==◌,
  count, arith,
}
use dinomem.Prelude.Text.{Text, text_eq, text_eq_iff}
use dinomem.Prelude.Int.{ℤ, pos, leb_ℤ}

-- AGE_BUCKETS; each has the action "review"
abbrev pub age_buckets : List ℕ
age_buckets = 7 ∷ 14 ∷ 30 ∷ 60 ∷ 120 ∷ []

abbrev pub terminal_bucket : ℕ
terminal_bucket = 120

-- the loop that keeps the last bucket that applies
unfoldable pub find_bucket : ℤ → Option ℕ → List ℕ → Option ℕ
find_bucket age found [] = found
find_bucket age found (days ∷ buckets) =
    find_bucket age (if leb_ℤ (pos days) age then some days else found) buckets

unfoldable pub applicable_bucket : ℤ → Option ℕ
unfolding find_bucket
applicable_bucket age = find_bucket age none age_buckets

-- .review_tracker.json
abbrev pub Tracker : Type 0
Tracker = List (Text × ℕ)

unfoldable pub last_reviewed : Text → Tracker → Option ℕ
last_reviewed key [] = none
last_reviewed key ((k, b) ∷ rest) = if text_eq k key then some b else last_reviewed key rest

-- `tracker[file_key] = bucket`
unfoldable pub record_review : Text → ℕ → Tracker → Tracker
record_review key bucket [] = (key, bucket) ∷ []
record_review key bucket ((k, b) ∷ rest) =
    if text_eq k key then (key, bucket) ∷ rest else (k, b) ∷ record_review key bucket rest

-- `del tracker[file_key]`, where it is there
unfoldable pub forget_review : Text → Tracker → Tracker
forget_review key [] = []
forget_review key ((k, b) ∷ rest) = if text_eq k key then rest else (k, b) ∷ forget_review key rest

-- the deduplication test: reviewed at this bucket or higher
unfoldable pub is_reviewed : Text → ℕ → Tracker → Bool
is_reviewed key bucket tracker = elim (last_reviewed key tracker) [
  | none ↦ false
  | some b ↦ leb bucket b
]

pub last_reviewed-record_review :
    (j k : Text) (b : ℕ) (t : Tracker)
    → last_reviewed j (record_review k b t) ≡ (if text_eq k j then some b else last_reviewed j t)
unfolding last_reviewed record_review
last_reviewed-record_review j k b [] = refl
last_reviewed-record_review j k b ((i, v) ∷ t) =
    ground (
      arith,
      text_eq_iff i k,
      text_eq_iff i j,
      text_eq_iff k j,
      last_reviewed-record_review j k b t,
    )

-- how many buckets a review has passed
abbrev pub stage : Option ℕ → ℕ
stage none = 0
stage (some b) = count (λ days. leb days b) age_buckets

-- a bucket of the list, not none
abbrev pub is_listed : Option ℕ → Bool
is_listed none = false
is_listed (some b) = any (λ days. days == b) age_buckets

-- The bucket is one of the list and the highest that the age has reached: as many buckets are up to it as
-- are up to the age, and with none reached there is no bucket.
pub applicable_bucket_lem :
    (age : ℤ)
    → (stage (applicable_bucket age) ≡ count (λ days. leb_ℤ (pos days) age) age_buckets)
      × (is_listed (applicable_bucket age) ≡ leb_ℤ (pos 7) age)
unfolding applicable_bucket
applicable_bucket_lem age = ground arith
