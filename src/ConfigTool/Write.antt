-- ===== src/ConfigTool/Write.antt =====
-- The four operations of tools/config_tool.py on the root files. The backup of a file goes to another
-- directory, and a failed backup stops nothing.
pub mod Guarded
pub mod Keeps
use dinomem.Prelude.{
  ℕ, Bool, true, false, ◌||◌, Option, none, some, List, [], ◌∷◌, ◌++◌, length, take, drop,
  if◌then◌else◌,
}
use dinomem.Prelude.Text.{Text, codes, text_eq, starts_with, join}
use dinomem.Prelude.Text.Lines.{splitlines_keep, join_all}
use dinomem.Retention.Run.{Directory}
use dinomem.ConfigTool.Guard.{
  Refusal, guard, normalize, is_duplicate, Caps, Warning, read_text, existing_text, check_size,
}
use dinomem.ConfigTool.Sections.{find_section}

pub data Answer : Type 0 where
  refused : Refusal → Answer
  file_missing section_missing skipped removed written : Answer
  appended patched : List Warning → Answer

-- `path.write_text`
unfoldable pub put_file : Text → Text → Directory → Directory
put_file filename content [] = (filename, content) ∷ []
put_file filename content ((f, c) ∷ root) =
    if text_eq f filename then (f, content) ∷ root else (f, c) ∷ put_file filename content root

-- `existing.endswith("\n\n")`
unfoldable pub ends_blank : Text → Bool
ends_blank [] = false
ends_blank (c ∷ s) = text_eq (c ∷ s) (codes "\n\n") || ends_blank s

-- `sep`
unfoldable pub separator : Text → Text
separator [] = []
separator (c ∷ s) = if ends_blank (c ∷ s) then [] else 10 ∷ []

-- the text that `append_to` writes
unfoldable pub appended_text : Text → Text → Text
appended_text existing content = existing ++ (separator existing ++ (normalize content ++ 10 ∷ []))

-- `append_to` behind the gate
unfoldable pub append_unguarded : Caps → Text → Text → Directory → Answer × Directory
append_unguarded caps filename content root =
    let existing = existing_text filename root in
    if is_duplicate content existing then (skipped, root) else (
      appended (check_size caps root filename content),
      put_file filename (appended_text existing content) root,
    )

-- `append_to`
unfoldable pub append_to : Caps → Text → Text → Directory → Answer × Directory
append_to caps filename content root = elim (guard filename (some content)) [
  | some r ↦ (refused r, root)
  | none ↦ append_unguarded caps filename content root
]

-- `"".join(lines[:start] + part + lines[end:])`
unfoldable pub splice : List Text → ℕ × ℕ → List Text → Text
splice lines (start, end) part = join_all (take start lines ++ (part ++ drop end lines))

-- `patch_section` behind the gate
unfoldable pub patch_found : Caps → (ℕ → Bool) → Text → Text → Text → Directory → Answer × Directory
patch_found caps is_alpha filename section_key content root = elim (read_text filename root) [
  | none ↦ append_to caps filename content root
  | some text ↦
      let lines = splitlines_keep text in
      elim (find_section is_alpha lines section_key) [
        | none ↦ append_to caps filename content root
        | some bounds ↦ (
          patched (check_size caps root filename content),
          put_file filename (splice lines bounds ((normalize content ++ 10 ∷ []) ∷ [])) root,
        )
      ]
]

-- `patch_section`
unfoldable pub patch_section :
    Caps → (ℕ → Bool) → Text → Text → Text → Directory → Answer × Directory
patch_section caps is_alpha filename section_key content root =
    elim (guard filename (some content)) [
      | some r ↦ (refused r, root)
      | none ↦ patch_found caps is_alpha filename section_key content root
    ]

-- `remove_section` behind the gate
unfoldable pub remove_found : (ℕ → Bool) → Text → Text → Directory → Answer × Directory
remove_found is_alpha filename section_key root = elim (read_text filename root) [
  | none ↦ (file_missing, root)
  | some text ↦
      let lines = splitlines_keep text in
      elim (find_section is_alpha lines section_key) [
        | none ↦ (section_missing, root)
        | some bounds ↦ (removed, put_file filename (splice lines bounds []) root)
      ]
]

-- `remove_section`
unfoldable pub remove_section : (ℕ → Bool) → Text → Text → Directory → Answer × Directory
remove_section is_alpha filename section_key root = elim (guard filename none) [
  | some r ↦ (refused r, root)
  | none ↦ remove_found is_alpha filename section_key root
]

-- `write_file`
unfoldable pub write_file : Text → Text → Directory → Answer × Directory
write_file filename content root = elim (guard filename (some content)) [
  | some r ↦ (refused r, root)
  | none ↦ (written, put_file filename (normalize content ++ 10 ∷ []) root)
]

pub data Request : Type 0 where
  append write : Text → Text → Request
  patch : Text → Text → Text → Request
  remove : Text → Text → Request

-- The commands of `main`.
unfoldable pub run_request : Caps → (ℕ → Bool) → Request → Directory → Answer × Directory
run_request caps is_alpha (append filename content) root = append_to caps filename content root
run_request caps is_alpha (write filename content) root = write_file filename content root
run_request caps is_alpha (patch filename section_key content) root =
    patch_section caps is_alpha filename section_key content root
run_request caps is_alpha (remove filename section_key) root =
    remove_section is_alpha filename section_key root
