-- ===== src/Listing/Panel.antt =====
-- porthmos-core/src/listing/mod.rs: the entries of a directory, and the rows that are shown of them. A
-- path is its text, and `lower` is `to_lowercase`.
use Prim.Native.Nat.{ℕ}
use mathlib.Core.Bool.{Bool, true, false, not, ◌||◌}
use mathlib.Core.Option.{Option, none, some}
use mathlib.Core.List.{List, [], ◌∷◌, ◌++◌, map}
use term_connect.Shared.{◌==◌, if◌then◌else◌, keep, length, any, is_empty}
use term_connect.Shared.Text.{Text, text_eq, has_char, starts_with, contains_text}
use term_connect.Glob.Matcher.{glob_match}
use term_connect.Listing.Sort.{Entry, SortSpec, cycled, sort_entries}

pub data Row : Type 0 where
  parent : Row
  entry : Entry → Row

pub record Listing : Type 0 where
  pub path : Text
  pub entries : List Entry
  pub rows : List Row
  pub sort_spec : SortSpec
  pub show_hidden : Bool
  pub filter : Option Text
  pub shown : ℕ

-- `path.parent().is_some()`: the path has a component besides the root.
unfoldable pub has_parent : Text → Bool
has_parent path = any (λ c. not (c == b'/')) path

-- Whether the matcher says yes; it always answers.
abbrev pub says_yes : Option Bool → Bool
says_yes none = false
says_yes (some b) = b

abbrev pub lowered : (Text → Text) → Option Text → Text
lowered lower none = []
lowered lower (some filter) = lower filter

-- `filter.filter(|text| !text.is_empty())`
abbrev pub not_empty : Option Text → Option Text
not_empty none = none
not_empty (some filter) = if is_empty filter then none else some filter

unfoldable pub is_shown : Bool → Entry → Bool
is_shown show_hidden e = show_hidden || not (starts_with (b'.' ∷ []) e.name)

module _ (lower : Text → Text) where
  unfoldable pub name_matches : Text → Text → Text → Bool
  name_matches filter low name =
      if has_char b'*' filter || has_char b'?' filter
      then says_yes (glob_match lower filter name)
      else contains_text (lower name) low

  unfoldable pub passes : Option Text → Entry → Bool
  passes none e = true
  passes (some filter) e = name_matches filter (lower filter) e.name

  unfoldable pub visible : Listing → List Entry
  visible l = keep (passes l.filter) (keep (is_shown l.show_hidden) l.entries)

  unfoldable pub recompute_rows : Listing → Listing
  unfolding has_parent visible
  recompute_rows l = record l {
    shown = length (keep (is_shown l.show_hidden) l.entries);
    rows =
        (if has_parent l.path then parent ∷ [] else [])
        ++ map entry (sort_entries lower l.sort_spec (visible l));
  }

  unfoldable pub new : Text → List Entry → SortSpec → Bool → Listing
  new path entries sort_spec show_hidden = recompute_rows (record {
    path = path;
    entries = entries;
    rows = [];
    sort_spec = sort_spec;
    show_hidden = show_hidden;
    filter = none;
    shown = 0;
  })

  unfoldable pub replace : Listing → Text → List Entry → Listing
  replace l path entries = recompute_rows (record l {
    path = path;
    entries = entries;
    filter = (if text_eq path l.path then l.filter else none);
  })

  unfoldable pub toggle_hidden : Listing → Listing
  toggle_hidden l = recompute_rows (record l { show_hidden = not l.show_hidden })

  unfoldable pub cycle_sort : Listing → Listing
  cycle_sort l = recompute_rows (record l { sort_spec = cycled l.sort_spec })

  unfoldable pub set_sort_spec : Listing → SortSpec → Listing
  set_sort_spec l spec = recompute_rows (record l { sort_spec = spec })

  unfoldable pub set_show_hidden : Listing → Bool → Listing
  set_show_hidden l show_hidden = recompute_rows (record l { show_hidden = show_hidden })

  unfoldable pub set_filter : Listing → Option Text → Listing
  set_filter l filter = recompute_rows (record l { filter = not_empty filter })

abbrev pub row_entries : List Row → List Entry
row_entries [] = []
row_entries (parent ∷ rows) = row_entries rows
row_entries (entry e ∷ rows) = e ∷ row_entries rows

unfoldable pub match_count : Listing → ℕ × ℕ
match_count l = (length (row_entries l.rows), l.shown)
