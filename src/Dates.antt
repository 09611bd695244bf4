-- ===== src/Dates.antt =====
-- The age of a memory file from its name: `get_file_age` of procedures/memory_retention.py and
-- procedures/memory_review.py, with the part of Python's `strptime` and `toordinal` that it calls.
-- Digits are the ASCII ones.
use dinomem.Prelude.{
  ℕ, zero, suc, ◌+◌, ◌-◌, ◌*◌, ◌/◌, ◌%◌, Bool, ◌&&◌, ◌||◌, not, Option, none, some, [], ◌∷◌, leb,
  ◌==◌, if◌then◌else◌, take, length,
}
use dinomem.Prelude.Text.{Text, codes, text_eq}
use dinomem.Prelude.Int.{ℤ, sub_ℕ}
use mathlib.Core.Option

pub record Date : Type 0 where
  pub year : ℕ
  pub month : ℕ
  pub day : ℕ

-- A digit between two bounds, `[lo-hi]` in a pattern.
digit : ℕ → ℕ → ℕ → Option ℕ
digit lo hi c = if leb (48 + lo) c && leb c (48 + hi) then some (c - 48) else none

abbrev combine : ℕ → Option ℕ → Option ℕ → Option ℕ
combine base (some a) (some b) = some (a * base + b)
combine base _ _ = none

-- `%m`: `1[0-2]|0[1-9]|[1-9]`
month_of : Text → Option ℕ
unfolding digit
month_of (a ∷ []) = digit 1 9 a
month_of (a ∷ b ∷ []) =
    if a == b'1' then combine 10 (some 1) (digit 0 2 b) else if a == b'0' then digit 1 9 b else none
month_of _ = none

-- `%d`: `3[0-1]|[1-2]\d|0[1-9]|[1-9]| [1-9]`
day_of : Text → Option ℕ
unfolding digit
day_of (a ∷ []) = digit 1 9 a
day_of (a ∷ b ∷ []) =
    if a == b'3'
    then combine 10 (some 3) (digit 0 1 b)
    else if a == b'1' || a == b'2'
    then combine 10 (digit 1 2 a) (digit 0 9 b)
    else if a == b'0' || a == b' '
    then digit 1 9 b
    else none
day_of _ = none

-- `%Y`: four digits
year_of : ℕ → ℕ → ℕ → ℕ → Option ℕ
unfolding digit
year_of a b c d =
    combine 100 (combine 10 (digit 0 9 a) (digit 0 9 b)) (combine 10 (digit 0 9 c) (digit 0 9 d))

is_leap : ℕ → Bool
is_leap y = y % 4 == 0 && (not (y % 100 == 0) || y % 400 == 0)

days_in_month : ℕ → ℕ → ℕ
unfolding is_leap
days_in_month y m =
    if m == 2
    then (if is_leap y then 29 else 28)
    else if m == 4 || m == 6 || m == 9 || m == 11
    then 30
    else 31

-- `datetime` raises a ValueError on year 0 and on a day that the month does not have.
abbrev checked : Option ℕ → Option ℕ → Option ℕ → Option Date
checked (some y) (some m) (some d) =
    if leb 1 y && leb d (days_in_month y m)
    then some (record { year = y; month = m; day = d })
    else none
checked _ _ _ = none

-- `%Y-%m-%d` behind the year: the month has one digit or two.
month_day : Option ℕ → Text → Option Date
unfolding month_of day_of days_in_month
month_day y (a ∷ b ∷ c ∷ rest) =
    if b == b'-'
    then checked y (month_of (a ∷ [])) (day_of (c ∷ rest))
    else if c == b'-'
    then checked y (month_of (a ∷ b ∷ [])) (day_of rest)
    else none
month_day y _ = none

-- `datetime.strptime(s, "%Y-%m-%d")`, `none` for its ValueError
unfoldable pub strptime : Text → Option Date
unfolding year_of month_day
strptime (a ∷ b ∷ c ∷ d ∷ sep ∷ rest) =
    if sep == b'-' then month_day (year_of a b c d) rest else none
strptime _ = none

days_before_month : ℕ → ℕ → ℕ
days_before_month y zero = 0
days_before_month y (suc m) = if m == 0 then 0 else days_before_month y m + days_in_month y m

-- `date.toordinal()`
unfoldable pub toordinal : Date → ℕ
unfolding days_before_month days_in_month
toordinal t =
    let y = t.year - 1 in
    y * 365 + y / 4 - y / 100 + y / 400 + days_before_month t.year t.month + t.day

-- `Path.stem` of a name that `glob("*.md")` lists
unfoldable pub stem : Text → Text
unfolding text_eq
stem name = if text_eq name (codes ".md") then name else take (length name - 3) name

-- `get_file_age`, in days; `today` is the ordinal of the present day
unfoldable pub get_file_age : ℕ → Text → Option ℤ
unfolding stem strptime toordinal
get_file_age today name =
    Option.map (λ t. sub_ℕ today (toordinal t)) (strptime (take 10 (stem name)))
