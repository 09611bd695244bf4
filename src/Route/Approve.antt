-- ===== src/Route/Approve.antt =====
-- What the answers of the owner do: `_op_approve` and `_op_reject` of tools/route.py. A write that raises, and a
-- leaf writer that runs into its time limit, are left out.
pub mod Confined
use dinomem.Prelude.{
  ℕ, Bool, true, false, Option, none, some, List, [], ◌∷◌, ◌++◌, filter, any, not, if◌then◌else◌,
}
use dinomem.Prelude.Text.{Text, codes, text_eq, strip_prefix}
use dinomem.Retention.Run.{Directory}
use dinomem.ConfigTool.Write.{put_file}
use dinomem.Route.Proposal.{
  Proposal, Status, approved, failed, rejected, PendingDir, pending_find, save_proposal,
}
use dinomem.Route.Gate.{Workspace, Plan, memory_plan, archive_plan, leaf_plan, validate_action}

-- The proposals, the files of the workspace by their paths, the names of the skills and of the archived ones, and
-- the seconds of the clock, which number the second archive of a name.
pub record RouteState : Type 0 where
  pub proposals : PendingDir
  pub files : Directory
  pub skills : List Text
  pub archived_skills : List Text
  pub clock : Text

-- the directory of a skill
abbrev pub skill_dir : Text → Text
skill_dir name = codes "skills/" ++ (name ++ codes "/")

-- the place of an archived one
abbrev pub archive_dir : Text → Text
archive_dir name = codes "skills/.archive/" ++ (name ++ codes "/")

-- The name in the archive: an earlier archive of the name is not written over.
unfoldable pub archive_name : RouteState → Text → Text
archive_name st name =
    if any (text_eq name) st.archived_skills then name ++ (codes "." ++ st.clock) else name

abbrev pub moved_path : Text → Option Text → Text → Text
moved_path dest none path = path
moved_path dest (some rest) path = dest ++ rest

-- `shutil.move` of a directory to a place that is not there
unfoldable pub move_dir : Text → Text → Directory → Directory
move_dir src dest [] = []
move_dir src dest ((path, content) ∷ files) =
    (moved_path dest (strip_prefix src path) path, content) ∷ move_dir src dest files

-- A leaf writer: whether it returns 0, and the files afterwards.
abbrev pub LeafWriter : Type 0
LeafWriter = Text → List Text → Directory → Bool × Directory

-- the three ways of applying a plan
unfoldable pub apply_plan : LeafWriter → Plan → RouteState → Bool × RouteState
apply_plan leaf (memory_plan rel content) st =
    (true, record st { files = put_file rel content st.files })
apply_plan leaf (archive_plan name) st = (
  true,
  record st {
    files = move_dir (skill_dir name) (archive_dir (archive_name st name)) st.files;
    skills = filter (λ s. not (text_eq s name)) st.skills;
    archived_skills = archive_name st name ∷ st.archived_skills;
  },
)
apply_plan leaf (leaf_plan tool argv) st =
    let (ok, files) = leaf tool argv st.files in (ok, record st { files = files })

abbrev applied_status : Bool → Status
applied_status true = approved
applied_status false = failed

abbrev pub is_approved : Status → Bool
is_approved approved = true
is_approved _ = false

abbrev pub record_answer : Text → Proposal → Bool × RouteState → Bool × RouteState
record_answer path d (ok, st) = (
  ok,
  record st {
    proposals = save_proposal path (record d { status = applied_status ok }) st.proposals;
  },
)

abbrev pub apply_validated :
    LeafWriter → Text → Proposal → Option Plan → RouteState → Bool × RouteState
apply_validated leaf path d none st = (false, st)
apply_validated leaf path d (some plan) st = record_answer path d (apply_plan leaf plan st)

abbrev pub approve_found :
    Workspace → LeafWriter → Option (Text × Proposal) → RouteState → Bool × RouteState
approve_found w leaf none st = (false, st)
approve_found w leaf (some (path, d)) st =
    if is_approved d.status
    then (false, st)
    else apply_validated leaf path d (validate_action w d) st

-- `_op_approve`: whether the exit code is 0, and the state
unfoldable pub op_approve : Workspace → LeafWriter → Text → RouteState → Bool × RouteState
op_approve w leaf pid st = approve_found w leaf (pending_find pid st.proposals) st

abbrev reject_found : Text → Option (Text × Proposal) → RouteState → Bool × RouteState
reject_found why none st = (false, st)
reject_found why (some (path, d)) st = (
  true,
  record st {
    proposals =
        save_proposal path (record d { status = rejected; rejected_reason = some why })
          st.proposals;
  },
)

-- `_op_reject`
unfoldable pub op_reject : Text → Text → RouteState → Bool × RouteState
op_reject pid why st = reject_found why (pending_find pid st.proposals) st

-- The answers, one after the other.
pub data Answer : Type 0 where
  approve : Text → Answer
  reject : Text → Text → Answer

unfoldable pub run_answers : Workspace → LeafWriter → List Answer → RouteState → RouteState
run_answers w leaf [] st = st
run_answers w leaf (approve pid ∷ answers) st =
    run_answers w leaf answers (op_approve w leaf pid st).1
run_answers w leaf (reject pid why ∷ answers) st =
    run_answers w leaf answers (op_reject pid why st).1
