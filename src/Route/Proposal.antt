-- ===== src/Route/Proposal.antt =====
-- The proposals of tools/route.py: `_pending_items` and `_pending_find`.
use dinomem.Prelude.{ℕ, ◌||◌, Option, none, some, List, [], ◌∷◌, leb, if◌then◌else◌}
use dinomem.Prelude.Text.{Text, text_eq, starts_with}

pub data Status : Type 0 where
  pending approved failed rejected : Status
  other : Text → Status

-- The action of a proposal; a missing or empty text is empty, and `argv` is none unless it is a list of texts.
pub record Action : Type 0 where
  pub path : Text
  pub content : Text
  pub archive : Text
  pub argv : Option (List Text)

pub record Proposal : Type 0 where
  pub id : Text
  pub status : Status
  pub surface : Text
  pub created_at : ℕ
  pub action : Action
  pub rejected_reason : Option Text

-- The files of kb/improvement_pending in the order of their names; none is a file that cannot be read, or
-- that has no id.
abbrev pub PendingDir : Type 0
PendingDir = List (Text × Option Proposal)

abbrev pub Items : Type 0
Items = List (Text × Proposal)

abbrev add_item : Text → Option Proposal → Items → Items
add_item path none rest = rest
add_item path (some d) rest = (path, d) ∷ rest

unfoldable pub loaded : PendingDir → Items
loaded [] = []
loaded ((path, d) ∷ dir) = add_item path d (loaded dir)

-- `out.sort(...)`, which is stable
unfoldable pub insert_item : Text × Proposal → Items → Items
insert_item x [] = x ∷ []
insert_item x (y ∷ l) = if leb x.1.created_at y.1.created_at then x ∷ y ∷ l else y ∷ insert_item x l

unfoldable pub sort_items : Items → Items
sort_items [] = []
sort_items (x ∷ l) = insert_item x (sort_items l)

-- `_pending_items`
unfoldable pub pending_items : PendingDir → Items
pending_items dir = sort_items (loaded dir)

unfoldable pub find_item : Text → Items → Option (Text × Proposal)
find_item pid [] = none
find_item pid ((path, d) ∷ l) =
    let rest = find_item pid l in
    if text_eq d.id pid || starts_with pid d.id then some (path, d) else rest

-- `_pending_find`
unfoldable pub pending_find : Text → PendingDir → Option (Text × Proposal)
pending_find pid dir = find_item pid (pending_items dir)

-- the rewriting of a proposal's file
unfoldable pub save_proposal : Text → Proposal → PendingDir → PendingDir
save_proposal path d [] = []
save_proposal path d ((p, c) ∷ dir) =
    (if text_eq p path then (p, some d) else (p, c)) ∷ save_proposal path d dir
