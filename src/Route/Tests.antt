-- ===== src/Route/Tests.antt =====
-- A proposal for a note of the memory.
use dinomem.Prelude.{
  ◌≡◌, ◌↔◌, ◌+◌, ◌-◌, refl, true, false, none, some, List, [], ◌∷◌, map, length, arith,
}
use dinomem.Prelude.Text.{
  Text, join, codes, text_eq, strip, lstrip, rstrip, rstrip_cons, is_space, starts_with,
  strip_prefix, contains,
}
use dinomem.Route.Proposal.{Proposal, pending}
use dinomem.Route.Gate.{
  Workspace, archive_plan, memory_plan, surface_of, basename, named_md, mem_name_ok, memory_check,
  validate_action,
}
use dinomem.Route.Gate.Plans.{Allowed, validate_action-Allowed}
use dinomem.Route.Approve.{RouteState, LeafWriter, apply_plan, move_dir, archive_name}
use dinomem.Route.DupScan.{dup_scan, dup_at, scan, first_seen, window_key, all_some, norm_line}
use dinomem.Route.DupScan.Exact.{Repeated, dup_scan_iff}
use dinomem.Route.Verify.{Probe, verify, verify_root}

abbrev workspace : Workspace
workspace = record { lower = λ s. s; is_skill = λ s. false; is_tool = λ s. true }

abbrev note : Proposal
note = record {
  id = codes "n1";
  status = pending;
  surface = codes "memory";
  created_at = 5;
  action = record {
    path = codes "memory/_pin_a.md";
    content = codes "be brief";
    archive = [];
    argv = none;
  };
  rejected_reason = none;
}

note_passes :
    validate_action workspace note
    ≡ some (memory_plan (codes "memory/_pin_a.md") (codes "be brief"))
unfolding validate_action surface_of memory_check basename named_md mem_name_ok text_eq strip lstrip
    rstrip rstrip_cons is_space starts_with strip_prefix contains
note_passes = refl

validate_action-Allowed_example :
    Allowed workspace note (memory_plan (codes "memory/_pin_a.md") (codes "be brief"))
validate_action-Allowed_example =
    validate_action-Allowed workspace note
      (memory_plan (codes "memory/_pin_a.md") (codes "be brief")) note_passes

abbrev quiet : LeafWriter
quiet tool argv files = (true, files)

abbrev state : RouteState
state = record {
  proposals = (codes "a.json", some note) ∷ [];
  files = (codes "AGENTS.md", codes "x") ∷ [];
  skills = [];
  archived_skills = [];
  clock = [];
}

-- A skill goes to the archive, where one of its name is already.
one_is_moved :
    (apply_plan quiet (archive_plan (codes "a")) (record state {
      files = (codes "skills/a/SKILL.md", codes "x") ∷ (codes "skills/ab/SKILL.md", codes "y") ∷ [];
      skills = codes "a" ∷ codes "ab" ∷ [];
      archived_skills = codes "a" ∷ [];
      clock = codes "10";
    })).1.files
    ≡ (codes "skills/.archive/a.10/SKILL.md", codes "x")
      ∷ (codes "skills/ab/SKILL.md", codes "y")
      ∷ []
unfolding apply_plan move_dir archive_name text_eq strip_prefix
one_is_moved = refl

abbrev pasted : List Text
pasted = codes "a = 1\n" ∷ codes "b = 2\n" ∷ codes "}\n" ∷ codes "a = 1\n" ∷ codes "b = 2\n" ∷ []

pasted_is_found : dup_scan 2 pasted ≡ false
unfolding dup_scan dup_at scan first_seen window_key all_some norm_line join text_eq strip lstrip
    rstrip rstrip_cons is_space starts_with strip_prefix
pasted_is_found = refl

dup_scan_iff_example :
    (dup_scan 2 pasted ≡ false)
    ↔ Repeated (window_key 2 (map norm_line pasted)) 2 (length (map norm_line pasted) + 1 - 2)
dup_scan_iff_example = dup_scan_iff 2 pasted (omega arith)

abbrev probe : Probe
probe = record {
  lower = λ s. s;
  cron_list = none;
  hooks_list = none;
  is_hook_dir = λ s. false;
  is_skill_file = λ s. false;
  agents = none;
  read_path = λ path. some (codes "never push");
  memory_files = none;
}

rule_landed : verify probe (codes " root ") (codes "push") (codes "x/AGENTS.md") ≡ true
unfolding verify verify_root basename text_eq contains strip lstrip rstrip rstrip_cons is_space
    starts_with strip_prefix
rule_landed = refl
