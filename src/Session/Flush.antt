-- ===== src/Session/Flush.antt =====
-- `_force_flush_archive` of procedures/session_reset.py, on what the run of extract_memory.py does and leaves.
use dinomem.Prelude.{
  ℕ, ◌≡◌, refl, ◌⊎◌, inl, inr, arith, Bool-cases, Bool, true, false, Option, none, some, List, [],
  ◌∷◌, any, ◌==◌, if◌then◌else◌,
}
use dinomem.Prelude.Text.{Text, contains}

-- How the run of the script ends: with an exit code, or by an error or after its time.
pub data Outcome : Type 0 where
  finished : ℕ → Outcome
  raised : Outcome

-- The script, how its run ends, and the keys of the log of processed archives afterwards, which are none where there
-- is no log or it cannot be read.
pub record Extraction : Type 0 where
  pub has_script : Bool
  pub outcome : Outcome
  pub processed : Option (List Text)

abbrev pub names_it : Text → Option (List Text) → Bool
names_it archive_filename none = false
names_it archive_filename (some keys) = any (contains archive_filename) keys

abbrev of_outcome : Text → Option (List Text) → Outcome → Bool
of_outcome archive_filename processed raised = false
of_outcome archive_filename processed (finished code) =
    if names_it archive_filename processed then true else code == 0

abbrev is_empty : Text → Bool
is_empty [] = true
is_empty (c ∷ s) = false

-- `_force_flush_archive`
unfoldable pub force_flush_archive : Text → Extraction → Bool
force_flush_archive archive_filename x =
    if is_empty archive_filename
    then false
    else if x.has_script
    then of_outcome archive_filename x.processed x.outcome
    else false

-- What a flush that is taken as done has: the run of the script came to its end, and the log names the archive or
-- the exit code is 0.
pub record IsFlushed (archive_filename : Text) (x : Extraction) : Type 0 where
  pub has_script : x.has_script ≡ true
  pub code : ℕ
  pub ended : x.outcome ≡ finished code
  pub confirmed :
      ((keys : List Text) × (x.processed ≡ some keys)
        × (any (contains archive_filename) keys ≡ true))
      ⊎ (code ≡ 0)

pub force_flush_archive-IsFlushed :
    (archive_filename : Text) (x : Extraction)
    → force_flush_archive archive_filename x ≡ true
    → IsFlushed archive_filename x
unfolding force_flush_archive
force_flush_archive-IsFlushed [] x h = absurd (cc)
force_flush_archive-IsFlushed (c ∷ s) x h = by_script x.has_script refl h
  where
    by_code :
        (code : ℕ) (o : Option (List Text))
        → x.processed ≡ o
        → (if names_it (c ∷ s) o then true else code == 0) ≡ true
        → ((keys : List Text) × (x.processed ≡ some keys) × (any (contains (c ∷ s)) keys ≡ true))
          ⊎ (code ≡ 0)
    by_code code none p h = inr (ground (arith))
    by_code code (some keys) p h = elim (Bool-cases (any (contains (c ∷ s)) keys)) [
      | inl e ↦ inl (keys, p, e)
      | inr n ↦ inr (ground (arith))
    ]

    by_outcome :
        (o : Outcome)
        → x.has_script ≡ true
        → x.outcome ≡ o
        → of_outcome (c ∷ s) x.processed o ≡ true
        → IsFlushed (c ∷ s) x
    by_outcome raised b e h = absurd (cc)
    by_outcome (finished code) b e h = record {
      has_script = b;
      code = code;
      ended = e;
      confirmed = by_code code x.processed refl h;
    }

    by_script :
        (b : Bool)
        → x.has_script ≡ b
        → (if b then of_outcome (c ∷ s) x.processed x.outcome else false) ≡ true
        → IsFlushed (c ∷ s) x
    by_script false e h = absurd (cc)
    by_script true e h = by_outcome x.outcome e refl h
