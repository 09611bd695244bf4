-- ===== src/Curator/Harmless.antt =====
-- What the curator's proposals can do when they are approved.
use dinomem.Prelude.{ℕ, ◌≤◌, ◌≡◌, ◌⊎◌, Bool, true, false, Option, none, some, any, ◌&&◌, ◌==◌}
use dinomem.Prelude.Text.{Text, text_eq, contains, strip}
use dinomem.Route.Gate.{Plan, archive_plan}
use dinomem.Curator.{Installed, Row, is_managed}

-- A skill of that name and age in days is installed.
abbrev pub is_installed : Installed → Text → ℕ → Bool
is_installed s name age = any (λ (e : Text × ℕ). text_eq e.0 name && e.1 == age) s.entries

-- A skill that is installed, without recorded use, neither shipped nor pinned, and that the schedules, which can
-- be read, do not name. The age is in tenths of a day.
pub record IsUnused (s : Installed) (name : Text) (age : ℕ) : Type 0 where
  pub installed : is_installed s name age ≡ true
  pub unused : s.counts name ≡ 0
  pub own : s.in_repo name ≡ false
  pub unpinned : s.is_pinned name ≡ false
  pub readable : s.cron_readable ≡ true
  pub unscheduled : contains name s.cron_blob ≡ false
  pub old : 300 ≤ age

abbrev Unused : Installed → Row → Type 0
Unused s r = IsUnused s r.name r.age_days

module _ (s : Installed) where
  -- The row tells what is installed.
  abbrev IsTrue : Row → Type 0
  IsTrue r =
      (r.uses ≡ s.counts r.name)
      × (r.managed ≡ is_managed s r.name)
      × (is_installed s r.name r.age_days ≡ true)

  -- A proposal is refused, or archives, by its name without spaces around it, a skill that is unused and old enough.
  abbrev pub IsHarmless : Option Plan → Type 0
  IsHarmless o =
      (o ≡ none)
      ⊎ ((name : Text) × (age : ℕ) × (o ≡ some (archive_plan (strip name))) × IsUnused s name age)
