-- ===== src/Listing/Examples.antt =====
-- Tests of a listing, and its theorems at a concrete directory. The case folding here leaves text as it
-- is, which is right for names in lower case.
use Prim.Native.Nat.{◌≤◌}
use mathlib.Core.Path.{◌≡◌, refl}
use mathlib.Core.Bool.{Bool, true, false}
use mathlib.Core.Option.{none}
use mathlib.Core.List.{List, [], ◌∷◌, Perm}
use term_connect.Shared.{length}
use term_connect.Shared.Text.{Text, lit, text_less}
use term_connect.Listing.Sort.{
  Entry, default_spec, sort_entries, insert_entry, compare_entries, compare_dirs, compare_by,
  compare_text,
}
use term_connect.Listing.SortLaws.{IsOrdered, sort_entries_lem, FoldersFirst}
use term_connect.Listing.Panel.{Listing, new, toggle_hidden, visible, row_entries, match_count}
use term_connect.Listing.PanelLaws.{toggled, Change-Fresh, Fresh-rows}

abbrev folded : Text → Text
folded s = s

abbrev item : Text → Bool → Entry
item name is_dir = record {
  name = name;
  path = name;
  is_dir = is_dir;
  size = 1;
  permissions = none;
}

abbrev here : List Entry
here = item (lit "b") false ∷ item (lit ".a") false ∷ item (lit "z") true ∷ []

names : List Entry → List Text
names [] = []
names (e ∷ es) = e.name ∷ names es

sort_entries-here :
    names (sort_entries folded default_spec here) ≡ lit "z" ∷ lit ".a" ∷ lit "b" ∷ []
unfolding names sort_entries insert_entry compare_entries compare_dirs compare_by compare_text
    text_less
sort_entries-here = refl

sort_entries_lem_example :
    Perm (sort_entries folded default_spec here) here
    × IsOrdered folded default_spec (sort_entries folded default_spec here)
sort_entries_lem_example = sort_entries_lem folded default_spec here

abbrev listing : Listing
listing = new folded (lit "/") here default_spec false

Fresh-rows_example :
    Perm
      (row_entries (toggle_hidden folded listing).rows)
      (visible folded (toggle_hidden folded listing))
    × FoldersFirst folded
        (toggle_hidden folded listing).sort_spec
        (row_entries (toggle_hidden folded listing).rows)
    × ((match_count (toggle_hidden folded listing)).0
        ≡ length (visible folded (toggle_hidden folded listing)))
    × ((match_count (toggle_hidden folded listing)).0
        ≤ (match_count (toggle_hidden folded listing)).1)
Fresh-rows_example =
    Fresh-rows folded (toggle_hidden folded listing) (Change-Fresh folded (toggled listing)).0
