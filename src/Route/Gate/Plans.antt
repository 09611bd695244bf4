-- ===== src/Route/Gate/Plans.antt =====
-- What the gate lets through.
use dinomem.Prelude.{
  ◌≡◌, refl, sym, Bool, true, false, ◌||◌, not, Option, none, some, List, ◌++◌, any, if◌then◌else◌,
}
use dinomem.Prelude.Text.{Text, codes, strip, starts_with, contains}
use dinomem.Route.Proposal.{Proposal}
use dinomem.Route.Gate.{
  Workspace, Surface, cron, hook, memory, skill, root, surface_of, leaf_tool, Plan, memory_plan,
  archive_plan, leaf_plan, basename, is_empty, mem_name_ok, memory_check, archive_check,
  forbidden_write_targets, holds, check_argv, leaf_check, surface_check, validate_action,
}

-- A plan that the gate may let through: a pin or a note of the memory, a skill's name, or a leaf writer with
-- arguments that do not confirm themselves and name no forbidden file.
pub data Allowed (w : Workspace) (d : Proposal) : Plan → Type 0 where
  pin_or_note :
      (rel : Text)
      → starts_with (codes "memory/") rel ≡ true
      → contains (codes "..") rel ≡ false
      → mem_name_ok (basename rel) ≡ true
      → Allowed w d (memory_plan rel d.action.content)
  named_skill :
      (name : Text)
      → contains (codes "/") name ≡ false
      → w.is_skill name ≡ true
      → Allowed w d (archive_plan name)
  leaf_writer :
      (s : Surface) (tool : Text) (argv flag : List Text)
      → leaf_tool s ≡ some (tool, flag)
      → d.action.argv ≡ some argv
      → holds argv (codes "--confirmed") ≡ false
      → any (holds argv) forbidden_write_targets ≡ false
      → Allowed w d (leaf_plan tool (argv ++ flag))

some_inj : (a b : Plan) → some a ≡ some b → a ≡ b
some_inj a b e = cc

past :
    (b : Bool) (r : Option Plan) (plan : Plan)
    → (if b then none else r) ≡ some plan
    → (b ≡ false) × (r ≡ some plan)
past true r plan h = absurd (cc h)
past false r plan h = (refl, h)

through :
    (b : Bool) (r : Option Plan) (plan : Plan)
    → (if b then r else none) ≡ some plan
    → (b ≡ true) × (r ≡ some plan)
through true r plan h = (refl, h)
through false r plan h = absurd (cc h)

neither : (a b : Bool) → (a || b) ≡ false → (a ≡ false) × (b ≡ false)
neither true b h = absurd (cc h)
neither false b h = (refl, h)

not-false : (b : Bool) → not b ≡ false → b ≡ true
not-false true h = refl
not-false false h = absurd (cc h)

module _ (w : Workspace) (d : Proposal) where
  memory-Allowed : (plan : Plan) → memory_check d.action ≡ some plan → Allowed w d plan
  unfolding memory_check
  memory-Allowed plan h =
      let (a, r) = past _ _ plan h in
      let (b, q) = past _ _ plan r in
      let (c, e) = past _ _ plan q in
      let (inside, flat) = neither _ _ a in
      rw (sym (some_inj (memory_plan (strip d.action.path) d.action.content) plan e))
        (pin_or_note (strip d.action.path) (not-false _ inside) flat (not-false _ b))

  archive-Allowed : (plan : Plan) → archive_check w d.action ≡ some plan → Allowed w d plan
  unfolding archive_check
  archive-Allowed plan h =
      let name = strip d.action.archive in
      let (a, r) = past _ _ plan h in
      let (there, e) = through (w.is_skill name) (some (archive_plan name)) plan r in
      let no_slash = (neither _ _ (neither _ _ (neither _ _ a).0).0).1 in
      rw (sym (some_inj (archive_plan name) plan e)) (named_skill name no_slash there)

  argv-Allowed :
      (s : Surface) (tool : Option (Text × List Text)) (argv : Option (List Text)) (plan : Plan)
      → leaf_tool s ≡ tool
      → d.action.argv ≡ argv
      → check_argv w tool argv ≡ some plan
      → Allowed w d plan
  argv-Allowed s none argv plan a b h = absurd (cc h)
  argv-Allowed s (some t) none plan a b h = absurd (cc h)
  argv-Allowed s (some (tool, flag)) (some argv) plan a b h =
      let (c, r) = past _ _ plan h in
      let (f, q) = past _ _ plan r in
      let (there, e) = through (w.is_tool tool) (some (leaf_plan tool (argv ++ flag))) plan q in
      rw (sym (some_inj _ plan e)) (leaf_writer s tool argv flag a b c f)

  surface-Allowed :
      (s : Option Surface) (plan : Plan) → surface_check w d.action s ≡ some plan → Allowed w d plan
  surface-Allowed none plan h = absurd (cc h)
  surface-Allowed (some memory) plan h = memory-Allowed plan h
  surface-Allowed (some skill) plan h = by_archive (is_empty d.action.archive) h
    where
      by_archive :
          (b : Bool)
          → (if b then leaf_check w skill d.action else archive_check w d.action) ≡ some plan
          → Allowed w d plan
      by_archive true k =
          unfold leaf_check in argv-Allowed skill (leaf_tool skill) d.action.argv plan refl refl k
      by_archive false k = archive-Allowed plan k
  surface-Allowed (some cron) plan h =
      unfold leaf_check in argv-Allowed cron (leaf_tool cron) d.action.argv plan refl refl h
  surface-Allowed (some hook) plan h =
      unfold leaf_check in argv-Allowed hook (leaf_tool hook) d.action.argv plan refl refl h
  surface-Allowed (some root) plan h =
      unfold leaf_check in argv-Allowed root (leaf_tool root) d.action.argv plan refl refl h

  -- Whatever a proposal holds, the gate lets through only a pin or a note inside memory/, the archiving of a
  -- skill by a name without a slash, or one of the four leaf writers, with the proposal's own arguments, which
  -- neither confirm themselves nor name a forbidden file, and the writer's own flag behind them.
  pub validate_action-Allowed : (plan : Plan) → validate_action w d ≡ some plan → Allowed w d plan
  unfolding validate_action
  validate_action-Allowed plan h = surface-Allowed (surface_of (w.lower (strip d.surface))) plan h
