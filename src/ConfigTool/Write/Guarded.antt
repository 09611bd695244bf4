-- ===== src/ConfigTool/Write/Guarded.antt =====
-- What the gate lets through, and the files that no request touches.
use dinomem.Prelude.{
  ℕ, ◌≡◌, ◌↔◌, refl, ap, ◌∙◌, inl, inr, Bool, true, false, ◌&&◌, ◌||◌, Option, none, some, List, [],
  ◌∷◌, any, not, leb, ◌==◌, length, arith, Bool-cases,
}
use dinomem.Prelude.Text.{Text, codes, text_eq, text_eq_iff, text_eq_refl, contains}
use dinomem.Retention.Run.{Directory}
use dinomem.Retention.Run.Files.{find_file}
use dinomem.ConfigTool.Guard.{
  is_allowed, user_managed_begin, user_managed_end, Refusal, validate, forbidden_target_error,
  guard, Caps,
}
use dinomem.ConfigTool.Write.{put_file, Request, append, write, patch, remove, run_request}

-- A write with content passes the gate exactly when the file is one of the five, the content is valid, and
-- it holds no marker of the managed block if the file is USER.md.
pub guard_iff :
    (filename content : Text)
    → (guard filename (some content) ≡ none) ↔ (
        (is_allowed filename ≡ true)
        × (validate content ≡ true)
        × ((text_eq filename (codes "USER.md")
              && (contains user_managed_begin content || contains user_managed_end content))
            ≡ false))
unfolding guard forbidden_target_error
guard_iff filename content = elim (Bool-cases (text_eq filename (codes "MEMORY.md"))) [
  | inl e ↦
      let n : is_allowed filename ≡ false =
        ap is_allowed ((text_eq_iff filename (codes "MEMORY.md")).0 e) ∙ memory_not_allowed in
      ground (arith, n)
  | inr n ↦ ground (arith, n)
]
  where
    memory_not_allowed : is_allowed (codes "MEMORY.md") ≡ false
    memory_not_allowed = unfold is_allowed in unfold text_eq in refl

pub find-put_ne :
    (f filename content : Text) (root : Directory)
    → text_eq filename f ≡ false
    → find_file f (put_file filename content root) ≡ find_file f root
unfolding find_file put_file
find-put_ne f filename content [] n = ground (arith, n)
find-put_ne f filename content ((g, c) ∷ root) n = ground (
  arith,
  text_eq_iff g filename,
  text_eq_iff g f,
  text_eq_iff filename f,
  find-put_ne f filename content root n,
)

pub find-put_self :
    (filename content : Text) (root : Directory)
    → find_file filename (put_file filename content root) ≡ some content
unfolding find_file put_file
find-put_self filename content [] = rw (text_eq_refl filename)
find-put_self filename content ((g, c) ∷ root) =
    ground (arith, text_eq_refl filename, find-put_self filename content root)

-- the file that a request names
abbrev pub target : Request → Text
target (append filename content) = filename
target (write filename content) = filename
target (patch filename section_key content) = filename
target (remove filename section_key) = filename

-- the content that the gate is asked about
abbrev pub body : Request → Option Text
body (append filename content) = some content
body (write filename content) = some content
body (patch filename section_key content) = some content
body (remove filename section_key) = none

abbrev passes : Option Refusal → Bool
passes none = true
passes (some r) = false

-- The gate lets the request pass, and it names the file.
abbrev let_through : Request → Text → Bool
let_through q f = text_eq (target q) f && passes (guard (target q) (body q))

-- whether there is a mark of the block in USER.md that is kept by a program
abbrev pub has_marker : Option Text → Bool
has_marker none = false
has_marker (some content) =
    contains (codes "<!-- BEGIN:dinomem-user-map -->") content
    || contains (codes "<!-- END:dinomem-user-map -->") content

-- at most 50000 characters, and none of them NUL
abbrev pub is_valid : Option Text → Bool
is_valid none = true
is_valid (some content) = not (any (λ c. c == 0) content) && leb (length content) 50000

abbrev pub root_files : List Text
root_files =
    codes "SOUL.md"
    ∷ codes "IDENTITY.md"
    ∷ codes "AGENTS.md"
    ∷ codes "TOOLS.md"
    ∷ codes "USER.md"
    ∷ []

-- A request may change the file that it names: one of the five, and USER.md only by a content without a mark.
abbrev pub may_change : Request → Text → Bool
may_change q f =
    text_eq (target q) f
    && (any (text_eq f) root_files
        && (is_valid (body q) && not (text_eq f (codes "USER.md") && has_marker (body q))))

-- One request after the other.
unfoldable pub run_requests : Caps → (ℕ → Bool) → List Request → Directory → Directory
run_requests caps is_alpha [] root = root
run_requests caps is_alpha (q ∷ qs) root =
    run_requests caps is_alpha qs (run_request caps is_alpha q root).1
