-- ===== src/Profiles/Examples.antt =====
-- Tests of the labels, and their theorem at concrete tags. The case folding here leaves text as it is,
-- which is right for tags in lower case.
use mathlib.Core.Path.{◌≡◌, refl}
use mathlib.Core.Option.{some}
use mathlib.Core.List.{List, [], ◌∷◌}
use term_connect.Shared.Text.{Text, lit, trim_text, trim_start, split_on, strip_char, join_slash}
use term_connect.Profiles.Labels.{
  normalize_group, normalize_tags, parse_tags, clean_tag, has_tag, add_tags, Normal, Kept,
  normalize_tags_lem,
}

abbrev folded : Text → Text
folded s = s

normalize_group-words : normalize_group (lit " a // b c/") ≡ some (lit "a/b c")
unfolding normalize_group trim_text trim_start split_on join_slash
normalize_group-words = refl

parse_tags-twice : parse_tags folded (lit "#x, y ,x,") ≡ lit "x" ∷ lit "y" ∷ []
unfolding parse_tags normalize_tags add_tags has_tag clean_tag trim_text trim_start split_on
    strip_char
parse_tags-twice = refl

abbrev raw_tags : List Text
raw_tags = lit "#x" ∷ lit " y" ∷ lit "x" ∷ []

normalize_tags_lem_example :
    Normal folded (normalize_tags folded raw_tags)
    × Kept folded (normalize_tags folded raw_tags) raw_tags
normalize_tags_lem_example = normalize_tags_lem folded raw_tags
