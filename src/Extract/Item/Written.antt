-- ===== src/Extract/Item/Written.antt =====
-- What a written item leaves in the directory.
use dinomem.Prelude.{
  ◌≡◌, refl, ap, ◌∙◌, inl, inr, Bool, true, false, List, [], ◌∷◌, ◌++◌, arith, Bool-cases, any,
}
use dinomem.Prelude.Text.{Text, codes, text_eq, text_eq_refl, contains}
use dinomem.Retention.Run.{Directory}
use dinomem.Retention.Run.Files.{find_file}
use dinomem.ConfigTool.Write.Guarded.{find-put_ne, find-put_self}
use dinomem.Cleanup.Passes.Lines.{contains-join}
use dinomem.Extract.Tags.{Python}
use dinomem.Extract.Item.{
  Stamp, frontmatter, item_file_text, item_file_name, is_stored, write_item_file,
}

any-append_right :
    {A : Type 0} (p : A → Bool) (xs ys : List A) → any p ys ≡ true → any p (xs ++ ys) ≡ true
any-append_right p [] ys h = h
any-append_right p (x ∷ xs) ys h = ground (arith, any-append_right p xs ys h)

item-in_text :
    (py : Python) (stamp : Stamp) (item_type item : Text)
    → contains item (item_file_text py stamp item_type item) ≡ true
unfolding item_file_text
item-in_text py stamp item_type item = contains-join (codes "\n") item _ (
    any-append_right (text_eq item) (frontmatter py stamp item_type item) _
      (any-append_right (text_eq item) (_ ∷ _ ∷ _) (item ∷ [] ∷ []) (rw (text_eq_refl item))))

module _ (py : Python) (stamp : Stamp) (item_type item : Text) (dir : Directory) where
  -- After an item is written its file has the item's text in it, whether it was there before or is new; the
  -- files of other names are as before.
  pub write_item_file-holds :
      (is_stored item (
          find_file
            (item_file_name py stamp.date item_type item)
            (write_item_file py stamp item_type item dir).2)
        ≡ true)
      × ((f : Text)
          → text_eq (item_file_name py stamp.date item_type item) f ≡ false
          → find_file f (write_item_file py stamp item_type item dir).2 ≡ find_file f dir)
  unfolding write_item_file
  write_item_file-holds =
      let name = item_file_name py stamp.date item_type item in
      elim (Bool-cases (is_stored item (find_file name dir))) [
        | inl e ↦ rw e (e, λ f n. refl)
        | inr o ↦ rw o (
          ap (is_stored item) (find-put_self name _ dir)
              ∙ unfold is_stored in item-in_text py stamp item_type item,
          λ f n. find-put_ne f name _ dir n,
        )
      ]

  -- Writing the item again writes nothing.
  pub write_item_file_twice :
      write_item_file py stamp item_type item (write_item_file py stamp item_type item dir).2 ≡ (
        false,
        item_file_name py stamp.date item_type item,
        (write_item_file py stamp item_type item dir).2,
      )
  write_item_file_twice =
      let once = (write_item_file py stamp item_type item dir).2 in
      again once write_item_file-holds.0
    where
      again :
          (d : Directory)
          → is_stored item (find_file (item_file_name py stamp.date item_type item) d) ≡ true
          → write_item_file py stamp item_type item d
            ≡ (false, item_file_name py stamp.date item_type item, d)
      again d h = unfold write_item_file in rw h

module _ (py : Python) (stamp : Stamp) (item_type first second : Text) (dir : Directory) where
  abbrev after_first : Directory
  after_first = (write_item_file py stamp item_type first dir).2

  abbrev shared_name : Text
  shared_name = item_file_name py stamp.date item_type second

  -- Two items of one type and day whose texts give the same slug share a file: if the file does not have the second
  -- in it, it is replaced by the file of the second, and the first is stored afterwards only if its text is a part of that.
  pub write_item_file-collides :
      item_file_name py stamp.date item_type first ≡ shared_name
      → is_stored second (find_file shared_name after_first) ≡ false
      → (is_stored first (find_file shared_name after_first) ≡ true)
        × (is_stored first
              (find_file shared_name (write_item_file py stamp item_type second after_first).2)
            ≡ contains first (item_file_text py stamp item_type second))
  write_item_file-collides same absent = (
    rw same at (write_item_file-holds py stamp item_type first dir).0,
    replaced after_first absent,
  )
    where
      replaced :
          (d : Directory)
          → is_stored second (find_file shared_name d) ≡ false
          → is_stored first (find_file shared_name (write_item_file py stamp item_type second d).2)
            ≡ contains first (item_file_text py stamp item_type second)
      replaced d n =
          unfold write_item_file in
          rw n (ap (is_stored first) (find-put_self shared_name _ d) ∙ unfold is_stored in refl)
