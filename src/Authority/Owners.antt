-- ===== src/Authority/Owners.antt =====
-- Where the ids of the owners come from: `_ids_from_cache_file`, `_agent_specific_cache_ids`,
-- `_owner_ids` and `is_owner` of procedures/mem_authority.py. The ids are those of the first call, which the
-- program keeps.
use dinomem.Prelude.{Bool, true, false, Option, none, some, List, [], ◌∷◌, ◌++◌, any}
use dinomem.Prelude.Text.{Text, codes, text_eq, strip}
use dinomem.Authority.Config.{Python, parse_id_blob, or_ids, ids_from_dinotrust_config}

-- A path, after `expanduser`: no file, one whose reading raises, or one with a content.
pub data FileRead : Type 0 where
  missing unreadable : FileRead
  content : Text → FileRead

-- The environment: its variables (an unset one is empty), the files, and the texts of the readable files
-- among `_openclaw_config_paths`.
pub record Environment : Type 0 where
  pub python : Python
  pub dinomem_owner_ids : Text
  pub dinotrust_owner_ids : Text
  pub dinomem_owner_file : Text
  pub dinomem_agent_id : Text
  pub read_file : Text → FileRead
  pub config_blobs : List Text

-- `os.environ.get("DINOMEM_AGENT_ID", "").strip().lower()`
unfoldable pub agent_id : Environment → Text
agent_id e = e.python.lower (strip e.dinomem_agent_id)

-- The loop over the candidates; a file that cannot be read ends it with nothing.
unfoldable pub ids_of_candidates : Environment → List Text → List Text
ids_of_candidates e [] = []
ids_of_candidates e (path ∷ paths) = elim (e.read_file path) as (λ _. List Text) [
  | FileRead.missing ↦ ids_of_candidates e paths
  | FileRead.unreadable ↦ []
  | FileRead.content s ↦ or_ids (parse_id_blob s) (ids_of_candidates e paths)
]

abbrev agent_file : Text → List Text
agent_file [] = []
agent_file (c ∷ aid) = (codes "~/.dinomem/owner_ids." ++ (c ∷ aid)) ∷ []

abbrev candidates : Text → Text → List Text
candidates aid [] = agent_file aid ++ (codes "~/.dinomem/owner_ids" ∷ [])
candidates aid (c ∷ override) = (c ∷ override) ∷ []

-- `_ids_from_cache_file`
unfoldable pub ids_from_cache_file : Environment → List Text
ids_from_cache_file e = ids_of_candidates e (candidates (agent_id e) (strip e.dinomem_owner_file))

abbrev ids_of_file : FileRead → List Text
ids_of_file FileRead.missing = []
ids_of_file FileRead.unreadable = []
ids_of_file (FileRead.content s) = parse_id_blob s

abbrev specific_file : Text → Text → Option Text
specific_file [] [] = none
specific_file (c ∷ aid) [] = some (codes "~/.dinomem/owner_ids." ++ (c ∷ aid))
specific_file aid (c ∷ override) = some (c ∷ override)

-- `_agent_specific_cache_ids`
unfoldable pub agent_specific_cache_ids : Environment → List Text
agent_specific_cache_ids e =
    elim (specific_file (agent_id e) (strip e.dinomem_owner_file)) as (λ _. List Text) [
      | none ↦ []
      | some path ↦ ids_of_file (e.read_file path)
    ]

-- `_owner_ids`
unfoldable pub owner_ids_of : Environment → List Text
owner_ids_of e = or_ids (parse_id_blob e.dinomem_owner_ids) (
    or_ids (parse_id_blob e.dinotrust_owner_ids) (
      or_ids (agent_specific_cache_ids e) (
        or_ids (ids_from_dinotrust_config e.python (agent_id e) e.config_blobs)
          (ids_from_cache_file e))))

-- `owner_config_present`
unfoldable pub owner_config_present : Environment → Bool
owner_config_present e = elim (owner_ids_of e) [ [] ↦ false | x ∷ xs ↦ true ]

-- `str(platform_id).strip() in ids`, where there are ids
abbrev pub is_listed : List Text → Text → Bool
is_listed [] id = true
is_listed (x ∷ ids) id = any (text_eq (strip id)) (x ∷ ids)

-- `is_owner`; none is no platform id
unfoldable pub is_owner : Environment → Option Text → Bool
is_owner e none = true
is_owner e (some id) = is_listed (owner_ids_of e) id
