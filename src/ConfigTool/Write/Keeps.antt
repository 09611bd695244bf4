-- ===== src/ConfigTool/Write/Keeps.antt =====
-- What the operations keep of a file.
use mathlib.Core.List.{append_assoc}
use dinomem.Prelude.{
  ℕ, ◌≡◌, refl, ap, sym, ◌∙◌, inl, inr, Bool, true, false, none, some, List, [], ◌∷◌, ◌++◌, ◌==◌,
  take, drop, arith, Bool-cases, Option-cases, All-append,
}
use dinomem.Prelude.Text.{Text}
use dinomem.Prelude.Text.Lines.{
  splitlines_keep, join_all, join_all-splitlines_keep, translate, translate-Lacks,
  translate_of_Lacks, contains-append,
}
use dinomem.Prelude.Text.Split.{Lacks}
use dinomem.Retention.Run.{Directory}
use dinomem.Retention.Run.Files.{find_file}
use dinomem.ConfigTool.Guard.{
  guard, normalize, is_duplicate, Caps, Warning, check_size, read_text, existing_text,
}
use dinomem.ConfigTool.Sections.{find_section}
use dinomem.ConfigTool.Sections.Found.{Cut, find_section-Cut}
use dinomem.ConfigTool.Write.{
  skipped, removed, appended, patched, put_file, separator, appended_text, append_unguarded,
  append_to, splice, patch_found, patch_section, remove_found, remove_section, write_file,
}
use dinomem.ConfigTool.Write.Guarded.{find-put_self}

join_all-append : (xs ys : List Text) → join_all (xs ++ ys) ≡ join_all xs ++ join_all ys
unfolding join_all
join_all-append [] ys = refl
join_all-append (x ∷ xs) ys =
    ap (λ r. x ++ r) (join_all-append xs ys) ∙ sym (append_assoc x (join_all xs) (join_all ys))

-- A section of a text, and the text that has `part` in its place.
pub record Spliced (is_alpha : ℕ → Bool) (section_key text part after : Text) : Type 0 where
  pub start : ℕ
  pub end : ℕ
  pub cut : Cut is_alpha section_key (splitlines_keep text) start end
  pub old : text ≡ join_all cut.before ++ (join_all (cut.first ∷ cut.inner) ++ join_all cut.behind)
  pub new : after ≡ join_all cut.before ++ (part ++ join_all cut.behind)

splice-Spliced :
    (is_alpha : ℕ → Bool) (section_key text : Text) (start end : ℕ) (parts : List Text)
    → find_section is_alpha (splitlines_keep text) section_key ≡ some (start, end)
    → Spliced is_alpha section_key text
        (join_all parts)
        (splice (splitlines_keep text) (start, end) parts)
unfolding splice
splice-Spliced is_alpha section_key text start end parts h =
    let c = find_section-Cut is_alpha (splitlines_keep text) section_key start end h in
    record {
      start = start;
      end = end;
      cut = c;
      old =
          sym (join_all-splitlines_keep text)
          ∙ (ap join_all c.whole
              ∙ (join_all-append c.before (c.first ∷ (c.inner ++ c.behind))
                  ∙ ap (λ r. join_all c.before ++ r)
                      (join_all-append (c.first ∷ c.inner) c.behind)));
      new =
          join_all-append (take start (splitlines_keep text))
            (parts ++ drop end (splitlines_keep text))
          ∙ (ap (λ r. join_all r ++ join_all (parts ++ drop end (splitlines_keep text))) c.is_before
              ∙ ap (λ r. join_all c.before ++ r)
                  (join_all-append parts (drop end (splitlines_keep text))
                    ∙ ap (λ r. join_all parts ++ join_all r) c.is_behind));
    }

-- A removal takes out one section, from the first line that starts with the key to the next boundary, and
-- leaves the text before and behind it character for character.
pub remove_section-Spliced :
    (is_alpha : ℕ → Bool) (filename section_key text : Text) (root : Directory)
    → read_text filename root ≡ some text
    → (remove_section is_alpha filename section_key root).0 ≡ removed
    → (after : Text) × (find_file filename (remove_section is_alpha filename section_key root).1
        ≡ some after)
      × Spliced is_alpha section_key text [] after
unfolding remove_section remove_found
remove_section-Spliced is_alpha filename section_key text root r h =
    elim (Option-cases (guard filename none)) [
      | inr (x, e) ↦ absurd (cc (rw (e, remove_section) at h))
      | inl e ↦ elim (Option-cases (find_section is_alpha (splitlines_keep text) section_key)) [
        | inl m ↦ absurd (ground (arith, e, r, m, h))
        | inr ((start, end), there) ↦ (
          splice (splitlines_keep text) (start, end) [],
          rw (e, remove_section) (rw (r, remove_found) (rw there (find-put_self filename _ root))),
          unfold join_all in splice-Spliced is_alpha section_key text start end [] there,
        )
      ]
    ]

-- A patch that finds its section puts the content, with one newline, in the place of that section, and
-- leaves the text before and behind it character for character.
pub patch_section-Spliced :
    (caps : Caps) (is_alpha : ℕ → Bool) (filename section_key content text : Text)
    (root : Directory) (ws : List Warning)
    → read_text filename root ≡ some text
    → (patch_section caps is_alpha filename section_key content root).0 ≡ patched ws
    → (after : Text) × (find_file filename
          (patch_section caps is_alpha filename section_key content root).1
        ≡ some after)
      × Spliced is_alpha section_key text ((normalize content ++ 10 ∷ []) ++ []) after
unfolding patch_section patch_found append_to append_unguarded
patch_section-Spliced caps is_alpha filename section_key content text root ws r h =
    elim (Option-cases (guard filename (some content))) [
      | inr (x, e) ↦ absurd (cc (rw (e, patch_section) at h))
      | inl e ↦ elim (Option-cases (find_section is_alpha (splitlines_keep text) section_key)) [
        | inl m ↦ absurd (ground (arith, e, r, m, h))
        | inr ((start, end), there) ↦ (
          splice (splitlines_keep text) (start, end) ((normalize content ++ 10 ∷ []) ∷ []),
          rw (e, patch_section) (rw (r, patch_found) (rw there (find-put_self filename _ root))),
          unfold join_all in
              splice-Spliced is_alpha section_key text start end
                ((normalize content ++ 10 ∷ []) ∷ []) there,
        )
      ]
    ]

existing_text-none :
    (filename : Text) (root : Directory)
    → find_file filename root ≡ none
    → existing_text filename root ≡ []
unfolding existing_text read_text
existing_text-none filename root e = ground (arith, e)

existing_text-some :
    (filename s : Text) (root : Directory)
    → find_file filename root ≡ some s
    → existing_text filename root ≡ translate s
unfolding existing_text read_text
existing_text-some filename s root e = ground (arith, e)

existing-Lacks : (filename : Text) (root : Directory) → Lacks 13 (existing_text filename root)
existing-Lacks filename root = elim (Option-cases (find_file filename root)) [
  | inl e ↦ rw (existing_text-none filename root e) tt
  | inr (s, e) ↦ rw (existing_text-some filename s root e) (translate-Lacks s)
]

separator-Lacks : (s : Text) → Lacks 13 (separator s)
unfolding separator
separator-Lacks [] = tt
separator-Lacks (c ∷ s) = ground arith

appended-Lacks :
    (existing content : Text)
    → Lacks 13 existing
    → Lacks 13 (normalize content)
    → Lacks 13 (appended_text existing content)
unfolding appended_text
appended-Lacks existing content h k =
    All-append (λ c. (c == 13) ≡ false) existing
      (separator existing ++ (normalize content ++ 10 ∷ [])) h
      (All-append (λ c. (c == 13) ≡ false) (separator existing) (normalize content ++ 10 ∷ [])
        (separator-Lacks existing)
        (All-append (λ c. (c == 13) ≡ false) (normalize content) (10 ∷ []) k (refl, tt)))

appended_holds :
    (existing content : Text) → is_duplicate content (appended_text existing content) ≡ true
unfolding is_duplicate appended_text
appended_holds existing content =
    rw (sym (append_assoc existing (separator existing) (normalize content ++ 10 ∷ [])))
      (contains-append (normalize content) (existing ++ separator existing) (10 ∷ []))

append_skips :
    (caps : Caps) (filename content : Text) (root : Directory)
    → guard filename (some content) ≡ none
    → is_duplicate content (existing_text filename root) ≡ true
    → append_to caps filename content root ≡ (skipped, root)
unfolding append_to append_unguarded
append_skips caps filename content root g e = rw (g, append_to) (rw e)

append_adds :
    (caps : Caps) (filename content : Text) (root : Directory)
    → guard filename (some content) ≡ none
    → is_duplicate content (existing_text filename root) ≡ false
    → append_to caps filename content root ≡ (
      appended (check_size caps root filename content),
      put_file filename (appended_text (existing_text filename root) content) root,
    )
unfolding append_to append_unguarded
append_adds caps filename content root g e = rw (g, append_to) (rw e)

-- What has been appended, or was there, is not appended again: unless the normal form of the content holds
-- a carriage return, the second request skips and leaves the file as the first left it.
pub append_to_twice :
    (caps : Caps) (filename content : Text) (root : Directory)
    → guard filename (some content) ≡ none
    → Lacks 13 (normalize content)
    → append_to caps filename content (append_to caps filename content root).1
      ≡ (skipped, (append_to caps filename content root).1)
append_to_twice caps filename content root g k =
    elim (Bool-cases (is_duplicate content (existing_text filename root))) [
      | inl e ↦ let a = append_skips caps filename content root g e in rw a a
      | inr e ↦
          let new = appended_text (existing_text filename root) content in
          let there : existing_text filename (put_file filename new root) ≡ new =
            existing_text-some filename new (put_file filename new root)
              (find-put_self filename new root)
            ∙ translate_of_Lacks new (
                appended-Lacks (existing_text filename root) content (existing-Lacks filename root)
                  k) in
          rw (append_adds caps filename content root g e) (
            append_skips caps filename content (put_file filename new root) g (
              ap (is_duplicate content) there
              ∙ appended_holds (existing_text filename root) content))
    ]

-- What a write puts into a file past the gate is what the next read of that file gives: the normal form of the
-- content and a newline, unless the normal form holds a carriage return.
pub write_file-existing_text :
    (filename content : Text) (root : Directory)
    → guard filename (some content) ≡ none
    → Lacks 13 (normalize content)
    → existing_text filename (write_file filename content root).1 ≡ normalize content ++ 10 ∷ []
unfolding write_file
write_file-existing_text filename content root g k =
    let text = normalize content ++ 10 ∷ [] in
    rw (g, write_file)
      (existing_text-some filename text (put_file filename text root)
          (find-put_self filename text root)
        ∙ translate_of_Lacks text
            (All-append (λ c. (c == 13) ≡ false) (normalize content) (10 ∷ []) k (refl, tt)))
