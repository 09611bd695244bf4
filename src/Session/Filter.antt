-- ===== src/Session/Filter.antt =====
-- `filter_sessions_to_reset` of procedures/session_reset.py. Times are in microseconds.
pub mod Decision
use dinomem.Prelude.{
  ℕ, suc, ◌+◌, ◌*◌, ◌/◌, Bool, true, false, ◌&&◌, ◌||◌, not, Option, none, some, List, [], ◌∷◌,
  ◌++◌, ltb, leb, max, if◌then◌else◌,
}
use dinomem.Prelude.Text.{Text, codes, contains}
use dinomem.Prelude.Int.{ℤ, pos, negsuc, ltb_ℤ}
use dinomem.Session.Chain.{
  Files, read_file, get_active_compaction_count, get_lineage_compaction_count,
}

abbrev pub max_session_age_days : ℕ
max_session_age_days = 7

abbrev pub max_session_age_days_cron : ℕ
max_session_age_days_cron = 1

abbrev pub compaction_threshold : ℕ
compaction_threshold = 2

abbrev pub force_compaction_threshold : ℕ
force_compaction_threshold = 5

abbrev pub day : ℕ
day = 86_400_000_000

-- GRACE_PERIOD_MINUTES
abbrev pub grace_period : ℕ
grace_period = 10 * 60_000_000

-- The value of a session key in sessions.json. `elapsed` is the time since updatedAt; it is none where
-- that is missing or no time.
pub record SessionData : Type 0 where
  pub elapsed : Option ℤ
  pub session_id : Option Text
  pub session_file : Option Text
  pub compaction_count : Option ℕ

abbrev pub Sessions : Type 0
Sessions = List (Text × SessionData)

-- `timedelta.days`, rounded down
unfoldable pub days : ℤ → ℤ
days (pos n) = pos (n / day)
days (negsuc n) = negsuc (n / day)

unfoldable pub max_age : Text → ℕ
max_age session_key =
    if contains (codes "cron:") session_key then max_session_age_days_cron else max_session_age_days

-- `age_days`, 0 where nothing is known
unfoldable pub age_days : SessionData → ℤ
age_days d = elim d.elapsed [ none ↦ pos 0 | some t ↦ days t ]

-- `age_trigger`
unfoldable pub age_trigger : Text → SessionData → Bool
age_trigger key d = elim d.elapsed [ none ↦ false | some t ↦ ltb_ℤ (pos (max_age key)) (days t) ]

-- the test of the grace period
unfoldable pub in_grace : SessionData → Bool
in_grace d = elim d.elapsed [ none ↦ false | some t ↦ ltb_ℤ t (pos grace_period) ]

-- The path of the transcript: the sessionFile, or by the sessionId, or none.
unfoldable pub by_id : Text → Option Text → Option Text
by_id sessions_dir none = none
by_id sessions_dir (some []) = none
by_id sessions_dir (some (c ∷ s)) =
    some (sessions_dir ++ (codes "/" ++ ((c ∷ s) ++ codes ".jsonl")))

unfoldable pub transcript : Text → SessionData → Option Text
transcript sessions_dir d = elim d.session_file [
  | none ↦ by_id sessions_dir d.session_id
  | some p ↦ elim p [ [] ↦ by_id sessions_dir d.session_id | c ∷ s ↦ some (c ∷ s) ]
]

abbrev pub or_zero : Option ℕ → ℕ
or_zero none = 0
or_zero (some n) = n

abbrev pub is_some {ℓ} : {A : Type ℓ} → Option A → Bool
is_some none = false
is_some (some a) = true

-- the counts of the transcript, where it exists
unfoldable pub file_counts : Files → Option Text → ℕ × ℕ
file_counts files none = (0, 0)
file_counts files (some path) =
    if is_some (read_file path files)
    then (or_zero (get_active_compaction_count files path), get_lineage_compaction_count files path)
    else (0, 0)

-- `compaction_count`, the largest of the sources
unfoldable pub compaction_count : Text → Files → SessionData → ℕ
compaction_count sessions_dir files d =
    let (jsonl, lineage) = file_counts files (transcript sessions_dir d) in
    max (max jsonl (or_zero d.compaction_count)) lineage

-- `should_reset` at the end of the round, from the three tests and the count
unfoldable pub should_reset : Bool → Bool → Bool → ℕ → Bool
should_reset force_mode aged graced count =
    let compaction_trigger = leb compaction_threshold count in
    let should = aged || compaction_trigger in
    let force_override = force_mode && leb force_compaction_threshold count in
    let storm_breaker = not force_mode && leb force_compaction_threshold count in
    let override = force_override || storm_breaker in
    if should && not override && graced then false else if override then true else should

unfoldable pub is_reset : Text → Bool → Files → Text → SessionData → Bool
is_reset sessions_dir force_mode files key d =
    should_reset force_mode (age_trigger key d) (in_grace d) (compaction_count sessions_dir files d)

pub record Skipped : Type 0 where
  pub key : Text
  pub age : ℤ
  pub since_update : Option ℤ
  pub compactions : ℕ

unfoldable pub skipped_of : Text → Files → Text → SessionData → Skipped
skipped_of sessions_dir files key d = record {
  key = key;
  age = age_days d;
  since_update = d.elapsed;
  compactions = compaction_count sessions_dir files d;
}

-- `filter_sessions_to_reset`: the sessions to reset, and the others
unfoldable pub filter_sessions_to_reset : Text → Bool → Files → Sessions → Sessions × List Skipped
filter_sessions_to_reset dir force_mode files [] = ([], [])
filter_sessions_to_reset dir force_mode files ((key, d) ∷ sessions) =
    let (resets, skips) = filter_sessions_to_reset dir force_mode files sessions in
    if is_reset dir force_mode files key d
    then ((key, d) ∷ resets, skips)
    else (resets, skipped_of dir files key d ∷ skips)
