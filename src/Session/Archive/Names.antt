-- ===== src/Session/Archive/Names.antt =====
-- The names of archives in procedures/session_reset.py.
use dinomem.Prelude.{
  ◌≡◌, refl, ◌∙◌, inl, inr, true, false, ◌||◌, some, [], ◌∷◌, ◌++◌, arith, Option-cases,
}
use dinomem.Prelude.Text.{Text, codes}
use dinomem.Prelude.Text.Lines.{contains-append}
use dinomem.Session.Archive.{
  slash, has_slash, name_of, before_dot, stem_of, Place, archive_path, is_archived,
}

has_slash-append : (s t : Text) → has_slash (s ++ t) ≡ (has_slash s || has_slash t)
has_slash-append [] t = refl
has_slash-append (c ∷ s) t = ground (arith, has_slash-append s t)

has_slash_behind : (x n : Text) → has_slash (x ++ slash ∷ n) ≡ true
has_slash_behind x n = has_slash-append x (slash ∷ n) ∙ ground arith

name_of-append : (x n : Text) → has_slash n ≡ false → name_of (x ++ slash ∷ n) ≡ n
unfolding name_of
name_of-append [] n h = rw h
name_of-append (c ∷ x) n h = rw (has_slash_behind x n) (name_of-append x n h)

name_of_lacks : (p : Text) → has_slash (name_of p) ≡ false
unfolding name_of
name_of_lacks [] = refl
name_of_lacks (c ∷ s) = ground (arith, name_of_lacks s)

before_dot_lacks : (s t : Text) → has_slash s ≡ false → before_dot s ≡ some t → has_slash t ≡ false
unfolding before_dot
before_dot_lacks [] t h e = absurd (cc e)
before_dot_lacks (c ∷ s) t h e = elim (Option-cases (before_dot s)) [
  | inl n ↦ ground arith
  | inr (u, k) ↦ ground (arith, before_dot_lacks s u)
]

stem_of_lacks : (s : Text) → has_slash s ≡ false → has_slash (stem_of s) ≡ false
unfolding stem_of
stem_of_lacks s h = elim (Option-cases (before_dot s)) [
  | inl n ↦ rw (n, stem_of) h
  | inr (t, k) ↦ ground (arith, before_dot_lacks s t h k)
]

-- A file counts as archived that is named by a transcript's stem and what stands behind `.archived.`.
pub archived_behind :
    (dir path rest : Text)
    → has_slash rest ≡ false
    → is_archived (dir ++ (slash ∷ (stem_of (name_of path) ++ (codes ".archived." ++ rest)))) ≡ true
unfolding is_archived
archived_behind dir path rest h =
    let name = stem_of (name_of path) ++ (codes ".archived." ++ rest) in
    let plain : has_slash name ≡ false =
      has_slash-append (stem_of (name_of path)) (codes ".archived." ++ rest)
      ∙ ground (arith, stem_of_lacks (name_of path) (name_of_lacks path), h) in
    rw (name_of-append dir name plain)
      (contains-append (codes ".archived.") (stem_of (name_of path)) rest)

-- The rest of an archive's name has no slash, if the timestamp has none.
pub stamped_lacks :
    (stamp : Text) → has_slash stamp ≡ false → has_slash (stamp ++ codes ".jsonl") ≡ false
stamped_lacks stamp h = has_slash-append stamp (codes ".jsonl") ∙ ground (arith, h)

-- The archive of any transcript counts as archived, if the timestamp has no slash.
pub archive_path_archived :
    (w : Place) (path : Text)
    → has_slash w.timestamp ≡ false
    → is_archived (archive_path w path) ≡ true
unfolding archive_path
archive_path_archived w path h =
    archived_behind w.dir path (codes "reset." ++ (w.timestamp ++ codes ".jsonl"))
      (ground (arith, stamped_lacks w.timestamp h))
