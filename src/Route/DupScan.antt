-- ===== src/Route/DupScan.antt =====
-- `_dup_scan` of tools/route.py, on the lines that `readlines` gives for a file that can be read: the search for a
-- block of lines that stands there twice.
pub mod Exact
use dinomem.Prelude.{
  ℕ, zero, suc, ◌+◌, ◌-◌, Bool, true, false, ◌&&◌, ◌||◌, Option, none, some, List, [], ◌∷◌, ◌++◌,
  leb, ltb, map, any, take, drop, length, if◌then◌else◌,
}
use dinomem.Prelude.Text.{Text, codes, text_eq, strip, starts_with, join}

abbrev trivial : List Text
trivial =
    codes "{"
    ∷ codes "}"
    ∷ codes "fi"
    ∷ codes "done"
    ∷ codes "esac"
    ∷ codes "end"
    ∷ codes "else"
    ∷ codes ")"
    ∷ codes "do"
    ∷ codes "then"
    ∷ []

-- A stripped line, or none for one that is blank, a comment or trivial.
unfoldable pub norm_line : Text → Option Text
norm_line ln =
    let s = strip ln in
    if text_eq s []
      || starts_with (codes "#") s
      || starts_with (codes "//") s
      || any (text_eq s) trivial
    then none
    else some s

unfoldable pub all_some : List (Option Text) → Option (List Text)
all_some [] = some []
all_some (none ∷ w) = none
all_some (some s ∷ w) = elim (all_some w) [ none ↦ none | some l ↦ some (s ∷ l) ]

abbrev joined : Option (List Text) → Option Text
joined none = none
joined (some l) = some (join (codes "\n") l)

-- The key of the window at a line, if it holds no line that is none.
unfoldable pub window_key : ℕ → List (Option Text) → ℕ → Option Text
window_key min_run norm i = joined (all_some (take min_run (drop i norm)))

-- `seen[key]`
unfoldable pub first_seen : Text → List (Text × ℕ) → Option ℕ
first_seen key [] = none
first_seen key ((k, i) ∷ seen) = if text_eq k key then some i else first_seen key seen

-- The loop over the windows: the keys seen so far with their first line, the next line, and how many are left.
unfoldable pub scan : (ℕ → Option Text) → ℕ → List (Text × ℕ) → ℕ → ℕ → Option (ℕ × ℕ)
scan key min_run seen i zero = none
scan key min_run seen i (suc left) = elim (key i) [
  | none ↦ scan key min_run seen (suc i) left
  | some k ↦ elim (first_seen k seen) [
    | none ↦ scan key min_run ((k, i) ∷ seen) (suc i) left
    | some a ↦ elim (leb min_run (i - a)) [
      | true ↦ some (a, i)
      | false ↦ scan key min_run seen (suc i) left
    ]
  ]
]

-- `dup_at`
unfoldable pub dup_at : ℕ → List Text → Option (ℕ × ℕ)
dup_at min_run raw =
    let norm = map norm_line raw in
    scan (window_key min_run norm) min_run [] 0 (length norm + 1 - min_run)

-- `_dup_scan`: whether no block stands there twice
unfoldable pub dup_scan : ℕ → List Text → Bool
dup_scan min_run raw = elim (dup_at min_run raw) [ none ↦ true | some d ↦ false ]
