-- ===== src/UserMap/Tests.antt =====
-- A file with a managed block between two hand-written lines.
use dinomem.Prelude.{◌≡◌, refl, ◌++◌}
use dinomem.Prelude.Text.{Text, codes, strip, lstrip, rstrip, rstrip_cons, is_space, strip_prefix}
use dinomem.UserMap.Upsert.{
  begin_marker, end_marker, split_mark, lstrip_newlines, rstrip_newlines, rstrip_newline_cons,
  appended, refreshed, with_newline, upserted,
}
use dinomem.UserMap.Upsert.Kept.{solid, outside, upserted-outside}

abbrev user_md : Text
user_md =
    codes "above\n" ++ (begin_marker ++ (codes "\nold\n" ++ (end_marker ++ codes "\nbelow\n")))

abbrev block : Text
block = begin_marker ++ (codes "\nnew\n" ++ end_marker)

refreshed_between :
    upserted block user_md
    ≡ codes "above\n\n" ++ (begin_marker ++ (codes "\nnew\n" ++ (end_marker ++ codes "\nbelow\n")))
unfolding upserted refreshed with_newline split_mark lstrip_newlines rstrip_newlines
    rstrip_newline_cons strip_prefix strip lstrip rstrip rstrip_cons is_space
refreshed_between = refl

upserted-outside_example :
    solid (upserted block user_md)
    ≡ solid (outside user_md (split_mark begin_marker user_md) (split_mark end_marker user_md)).0
      ++ (solid block
          ++ solid
              (outside user_md (split_mark begin_marker user_md) (split_mark end_marker user_md)).1)
upserted-outside_example = upserted-outside block user_md

-- A beginning without an end: the second run drops what stands between it and the block.
abbrev orphan : Text
orphan = begin_marker ++ codes "\nmine\n"

orphan_is_lost : upserted block (upserted block orphan) ≡ block ++ codes "\n"
unfolding upserted appended refreshed with_newline split_mark lstrip_newlines rstrip_newlines
    rstrip_newline_cons strip_prefix strip lstrip rstrip rstrip_cons is_space
orphan_is_lost = refl
