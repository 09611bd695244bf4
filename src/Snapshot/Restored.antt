-- ===== src/Snapshot/Restored.antt =====
-- The path that a snapshot and its restore give a file.
pub mod Kept
use dinomem.Prelude.{
  ◌≡◌, refl, sym, ap, ◌∙◌, Bool, true, false, ◌&&◌, ◌||◌, Option, none, some, List, [], ◌∷◌, ◌++◌,
  any, if◌then◌else◌,
}
use dinomem.Prelude.Text.{Text, text_eq, text_eq_iff}
use dinomem.Snapshot.{
  Tree, Entries, is_archived, add_entry, archived, config_name, config_entry, create_snapshot, put,
  extract_all, over, member, restore_all,
}

over_assoc : (a b c : Option Text) → over a (over b c) ≡ over (over a b) c
over_assoc (some x) b c = refl
over_assoc none b c = refl

over-none : (a : Option Text) → over a none ≡ a
over-none none = refl
over-none (some x) = refl

over_self : (a : Option Text) → over a a ≡ a
over_self none = refl
over_self (some x) = refl

-- The last member of a name is what the file has.
extract_all-member :
    (es : Entries) (tree : Tree) (p : Text) → extract_all es tree p ≡ over (member p es) (tree p)
unfolding extract_all member
extract_all-member [] tree p = refl
extract_all-member ((q, content) ∷ es) tree p =
    extract_all-member es (put q content tree) p ∙ step (text_eq p q)
  where
    step :
        (b : Bool)
        → over (member p es) (if b then some content else tree p)
          ≡ over (over (member p es) (if b then some content else none)) (tree p)
    step true = over_assoc (member p es) (some content) (tree p)
    step false = over_assoc (member p es) none (tree p)

member-append :
    (p : Text) (es fs : Entries) → member p (es ++ fs) ≡ over (member p fs) (member p es)
unfolding member
member-append p [] fs = sym (over-none (member p fs))
member-append p ((q, content) ∷ es) fs =
    ap (λ r. over r (if text_eq p q then some content else none)) (member-append p es fs)
    ∙ sym (over_assoc (member p fs) (member p es) _)

abbrev pub when : Bool → Option Text → Option Text
when true a = a
when false a = none

abbrev own : Bool → Option Text → Option Text
own same a = if same then a else none

member-add_entry :
    (b : Bool) (p q : Text) (content : Option Text) (es : Entries)
    → member p (add_entry b q content es) ≡ over (member p es) (own (text_eq p q) (when b content))
unfolding member
member-add_entry true p q (some c) es = refl
member-add_entry true p q none es = sym (step (text_eq p q))
  where
    step : (b : Bool) → over (member p es) (own b none) ≡ member p es
    step true = over-none (member p es)
    step false = over-none (member p es)
member-add_entry false p q content es = sym (step (text_eq p q))
  where
    step : (b : Bool) → over (member p es) (own b none) ≡ member p es
    step true = over-none (member p es)
    step false = over-none (member p es)

-- A path is a member if it is one of the paths and is archived.
member-archived :
    (p : Text) (tree : Tree) (paths : List Text)
    → member p (archived tree paths) ≡ when (any (text_eq p) paths && is_archived p) (tree p)
unfolding archived
member-archived p tree [] = unfold member in refl
member-archived p tree (q ∷ paths) =
    member-add_entry (is_archived q) p q (tree q) (archived tree paths)
    ∙ (ap (λ r. over r (own (text_eq p q) (when (is_archived q) (tree q))))
          (member-archived p tree paths)
        ∙ by_name (text_eq p q) refl)
  where
    again : (b c : Bool) (a : Option Text) → over (when (b && c) a) (when c a) ≡ when c a
    again b true a = twice b a
      where
        twice : (b : Bool) (a : Option Text) → over (when (b && true) a) a ≡ a
        twice true a = over_self a
        twice false a = refl
    again true false a = refl
    again false false a = refl

    by_name :
        (b : Bool)
        → text_eq p q ≡ b
        → over
            (when (any (text_eq p) paths && is_archived p) (tree p))
            (own b (when (is_archived q) (tree q)))
          ≡ when ((b || any (text_eq p) paths) && is_archived p) (tree p)
    by_name false e = over-none _
    by_name true e =
        ap
          (λ r.
            over (when (any (text_eq p) paths && is_archived p) (tree p))
              (when (is_archived r) (tree r)))
          (sym ((text_eq_iff p q).0 e))
        ∙ again (any (text_eq p) paths) (is_archived p) (tree p)

member-config_entry :
    (p : Text) (config : Option Text)
    → member p (config_entry config) ≡ own (text_eq p config_name) config
unfolding member
member-config_entry p none = sym (step (text_eq p config_name))
  where
    step : (b : Bool) → own b none ≡ none
    step true = refl
    step false = refl
member-config_entry p (some c) = refl

-- An archived path has what it had at the time of the snapshot, and any other one is left.
pub restored_path :
    (tree later : Tree) (paths : List Text) (config later_config : Option Text) (p : Text)
    → text_eq p config_name ≡ false
    → (restore_all (create_snapshot tree paths config) later later_config).0 p
      ≡ over (when (any (text_eq p) paths && is_archived p) (tree p)) (later p)
unfolding restore_all create_snapshot
restored_path tree later paths config later_config p h =
    extract_all-member (archived tree paths ++ config_entry config) later p
    ∙ ap (λ r. over r (later p))
        (member-append p (archived tree paths) (config_entry config)
          ∙ (ap (λ r. over r (member p (archived tree paths)))
                (member-config_entry p config ∙ ap (λ b. own b config) h)
              ∙ member-archived p tree paths))
