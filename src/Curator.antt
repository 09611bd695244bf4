-- ===== src/Curator.antt =====
-- procedures/skill_curator.py: which skills it proposes to archive. What the directories, the usage file and
-- the schedules say is the survey's input; ages are in tenths of a day, as the survey rounds them.
pub mod Harmless
mod Tests
use dinomem.Prelude.{
  ℕ, suc, Bool, true, false, ◌&&◌, ◌||◌, not, Option, none, some, List, [], ◌∷◌, ◌++◌, leb, ltb,
  length, any, filter, map, take, if◌then◌else◌,
}
use dinomem.Prelude.Text.{Text, codes, text_eq, contains}
use dinomem.Route.Proposal.{Proposal, pending, PendingDir}

-- The skills in the order of their names with their ages, the counts of the usage file (0 where a name is
-- missing), and the reasons for which a skill is left alone.
pub record Installed : Type 0 where
  pub entries : List (Text × ℕ)
  pub usage_present : Bool
  pub counts : Text → ℕ
  pub in_repo : Text → Bool
  pub is_pinned : Text → Bool
  pub cron_readable : Bool
  pub cron_blob : Text

pub record Row : Type 0 where
  pub name : Text
  pub uses : ℕ
  pub age_days : ℕ
  pub managed : Bool

-- `bool(reasons)`
unfoldable pub is_managed : Installed → Text → Bool
is_managed s name =
    s.in_repo name || (s.is_pinned name || s.cron_readable && contains name s.cron_blob)

-- `survey`, by its rows
unfoldable pub survey : Installed → List Row
survey s =
    map
      (λ (e : Text × ℕ). record {
        name = e.0;
        uses = s.counts e.0;
        age_days = e.1;
        managed = is_managed s e.0;
      })
      s.entries

abbrev pub archive_after : ℕ
archive_after = 300

abbrev pub grace : ℕ
grace = 140

-- the tests of the loop of `archive_candidates`
unfoldable pub is_disposable : Row → Bool
is_disposable r =
    not (r.managed || ltb 0 r.uses)
    && (not (ltb r.age_days grace) && not (ltb r.age_days archive_after))

-- `out.sort(key=lambda r: -r["age_days"])`, which is stable
unfoldable pub insert_row : Row → List Row → List Row
insert_row r [] = r ∷ []
insert_row r (q ∷ rows) = if leb q.age_days r.age_days then r ∷ q ∷ rows else q ∷ insert_row r rows

unfoldable pub sort_rows : List Row → List Row
sort_rows [] = []
sort_rows (r ∷ rows) = insert_row r (sort_rows rows)

abbrev pub max_proposals_per_run : ℕ
max_proposals_per_run = 3

-- `archive_candidates`
unfoldable pub archive_candidates : Installed → List Row → List Row
archive_candidates s rows =
    if not s.usage_present
    then []
    else if not s.cron_readable
    then []
    else take max_proposals_per_run (sort_rows (filter is_disposable rows))

unfoldable pub proposal_of : ℕ → Row → Proposal
proposal_of now r = record {
  id = codes "curator-archive-" ++ r.name;
  status = pending;
  surface = codes "skill";
  created_at = now;
  action = record { path = []; content = []; archive = r.name; argv = none };
  rejected_reason = none;
}

-- `build_proposals`, on what the survey finds
unfoldable pub build_proposals : ℕ → Installed → List Proposal
build_proposals now s = map (proposal_of now) (archive_candidates s (survey s))

unfoldable pub is_filed : Text → PendingDir → Bool
is_filed file [] = false
is_filed file ((f, d) ∷ dir) = text_eq f file || is_filed file dir

-- `emit`, with new files behind the others
unfoldable pub emit : List Proposal → PendingDir → ℕ × PendingDir
emit [] dir = (0, dir)
emit (d ∷ ds) dir =
    let file = d.id ++ codes ".json" in
    if is_filed file dir
    then emit ds dir
    else (let (n, after) = emit ds (dir ++ ((file, some d) ∷ [])) in (suc n, after))
