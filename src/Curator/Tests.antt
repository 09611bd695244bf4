-- ===== src/Curator/Tests.antt =====
-- A library of one old skill.
use dinomem.Prelude.{true, false, [], ◌∷◌}
use dinomem.Prelude.Text.{codes}
use dinomem.Route.Gate.{Workspace}
use dinomem.Curator.{Installed}

abbrev installed : Installed
installed = record {
  entries = (codes "old", 400) ∷ [];
  usage_present = true;
  counts = λ s. 0;
  in_repo = λ s. false;
  is_pinned = λ s. false;
  cron_readable = true;
  cron_blob = codes "0 1 * * * other";
}

abbrev workspace : Workspace
workspace = record { lower = λ s. s; is_skill = λ s. true; is_tool = λ s. true }
