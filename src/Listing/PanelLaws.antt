-- ===== src/Listing/PanelLaws.antt =====
-- What the rows of a listing are after any operation, and what the counts of matches mean.
use Prim.Native.Nat.{ℕ, ◌+◌, ◌≤◌}
use mathlib.Core.Path.{◌≡◌, refl, ap}
use mathlib.Core.Bool.{Bool, true, false}
use mathlib.Core.Option.{Option}
use mathlib.Core.List.{List, [], ◌∷◌, map, Perm}
use mathlib.Core.Logic.{◌⊎◌, ◌≢◌, inl, inr}
use native.Mathlib.Omega.{arith}
use term_connect.Shared.{◌==◌, ==→eq, All, keep, length, length-keep-le, Bool-cases}
use term_connect.Shared.Text.{Text}
use term_connect.Listing.Sort.{Entry, SortSpec, insert_entry, sort_entries}
use term_connect.Listing.SortLaws.{sort_entries_lem, FoldersFirst, FoldersFirst-sort_entries}
use term_connect.Listing.Panel.{
  Row, parent, entry, Listing, is_shown, passes, visible, recompute_rows, row_entries, match_count,
  replace, toggle_hidden, cycle_sort, set_sort_spec, set_show_hidden, set_filter, has_parent,
}

row_entries-map : (es : List Entry) → row_entries (map entry es) ≡ es
row_entries-map [] = refl
row_entries-map (e ∷ es) = ap (λ r. e ∷ r) (row_entries-map es)

abbrev pub parent_rows : List Row → ℕ
parent_rows [] = 0
parent_rows (parent ∷ rows) = parent_rows rows + 1
parent_rows (entry e ∷ rows) = parent_rows rows

-- A path with a part that is no slash.
abbrev pub HasPart : Text → Type 0
HasPart [] = ⊥
HasPart (c ∷ path) = (c ≢ b'/') ⊎ HasPart path

-- The row of the parent is the first of a listing whose path has a part, and in no other listing.
abbrev pub ShowsParent : Listing → Type 0
ShowsParent l =
    (All (λ c. c ≡ b'/') l.path × (parent_rows l.rows ≡ 0))
    ⊎ (HasPart l.path × ((rest : List Row) × ((l.rows ≡ parent ∷ rest) × (parent_rows rest ≡ 0))))

path_cases :
    (path : Text)
    → ((has_parent path ≡ true) × HasPart path)
      ⊎ ((has_parent path ≡ false) × All (λ c. c ≡ b'/') path)
unfolding has_parent
path_cases [] = inr (refl, tt)
path_cases (c ∷ path) = elim (Bool-cases (c == b'/')) [
  | inr e ↦ inl (rw e refl, inl (λ h. ground (arith, e, h)))
  | inl e ↦ elim (path_cases path) [
    | inl (h, part) ↦ inl (rw e h, inr part)
    | inr (h, slashes) ↦ inr (rw e h, (==→eq c b'/' e, slashes))
  ]
]

module _ (lower : Text → Text) where
  length-insert_entry :
      (spec : SortSpec) (a : Entry) (bs : List Entry)
      → length (insert_entry lower spec a bs) ≡ length bs + 1
  unfolding insert_entry
  length-insert_entry spec a [] = omega arith
  length-insert_entry spec a (b ∷ bs) = ground (arith, length-insert_entry spec a bs)

  length-sort_entries :
      (spec : SortSpec) (es : List Entry) → length (sort_entries lower spec es) ≡ length es
  unfolding sort_entries
  length-sort_entries spec [] = refl
  length-sort_entries spec (a ∷ bs) =
      omega (
        arith,
        length-insert_entry spec a (sort_entries lower spec bs),
        length-sort_entries spec bs,
      )

  -- The rows show exactly the entries that are to be seen, sorted, and the count of what is shown
  -- leaves the filter out.
  pub record Fresh (l : Listing) : Type 0 where
    pub sorted : row_entries l.rows ≡ sort_entries lower l.sort_spec (visible lower l)
    pub counted : l.shown ≡ length (keep (is_shown l.show_hidden) l.entries)

  recompute_rows-Fresh : (l : Listing) → Fresh (recompute_rows lower l)
  unfolding recompute_rows
  recompute_rows-Fresh l = elim (Bool-cases (has_parent l.path)) [
    | inl e ↦ record { sorted = rw e (row_entries-map _); counted = refl }
    | inr e ↦ record { sorted = rw e (row_entries-map _); counted = refl }
  ]

  parent_rows-map : (es : List Entry) → parent_rows (map entry es) ≡ 0
  parent_rows-map [] = refl
  parent_rows-map (e ∷ es) = parent_rows-map es

  recompute_rows-ShowsParent : (l : Listing) → ShowsParent (recompute_rows lower l)
  unfolding recompute_rows has_parent
  recompute_rows-ShowsParent l = elim (path_cases l.path) [
    | inl (e, some_part) ↦ inr (
      some_part,
      rw e (
        map entry (sort_entries lower l.sort_spec (visible lower l)),
        (refl, parent_rows-map (sort_entries lower l.sort_spec (visible lower l))),
      ),
    )
    | inr (e, slashes) ↦
        inl (slashes, rw e (parent_rows-map (sort_entries lower l.sort_spec (visible lower l))))
  ]

  pub data Change : Listing → Listing → Type 0 where
    replaced : (l : Listing) (path : Text) (es : List Entry) → Change l (replace lower l path es)
    toggled : (l : Listing) → Change l (toggle_hidden lower l)
    resorted : (l : Listing) → Change l (cycle_sort lower l)
    sorted_by : (l : Listing) (spec : SortSpec) → Change l (set_sort_spec lower l spec)
    hidden : (l : Listing) (show : Bool) → Change l (set_show_hidden lower l show)
    filtered : (l : Listing) (text : Option Text) → Change l (set_filter lower l text)

  changed-Fresh : {l m : Listing} → Change l m → Fresh m
  unfolding replace toggle_hidden cycle_sort set_sort_spec set_show_hidden set_filter
  changed-Fresh (replaced l path es) = recompute_rows-Fresh _
  changed-Fresh (toggled l) = recompute_rows-Fresh _
  changed-Fresh (resorted l) = recompute_rows-Fresh _
  changed-Fresh (sorted_by l spec) = recompute_rows-Fresh _
  changed-Fresh (hidden l show) = recompute_rows-Fresh _
  changed-Fresh (filtered l text) = recompute_rows-Fresh _

  changed-ShowsParent : {l m : Listing} → Change l m → ShowsParent m
  unfolding replace toggle_hidden cycle_sort set_sort_spec set_show_hidden set_filter
  changed-ShowsParent (replaced l path es) = recompute_rows-ShowsParent _
  changed-ShowsParent (toggled l) = recompute_rows-ShowsParent _
  changed-ShowsParent (resorted l) = recompute_rows-ShowsParent _
  changed-ShowsParent (sorted_by l spec) = recompute_rows-ShowsParent _
  changed-ShowsParent (hidden l show) = recompute_rows-ShowsParent _
  changed-ShowsParent (filtered l text) = recompute_rows-ShowsParent _

  pub Change-Fresh : {l m : Listing} → Change l m → Fresh m × ShowsParent m
  Change-Fresh c = (changed-Fresh c, changed-ShowsParent c)

  -- Where the rows are fresh, they hold each visible entry as often as the directory does, folders
  -- first, and the matches are as many as these entries and no more than what is shown.
  pub Fresh-rows :
      (l : Listing)
      → Fresh l
      → Perm (row_entries l.rows) (visible lower l)
        × FoldersFirst lower l.sort_spec (row_entries l.rows)
        × ((match_count l).0 ≡ length (visible lower l))
        × ((match_count l).0 ≤ (match_count l).1)
  unfolding match_count visible
  Fresh-rows l f =
      rw (f.sorted, f.counted)
        (
          (sort_entries_lem lower l.sort_spec (visible lower l)).0,
          FoldersFirst-sort_entries lower l.sort_spec (visible lower l),
          length-sort_entries l.sort_spec (visible lower l),
          omega (
            arith,
            length-sort_entries l.sort_spec (visible lower l),
            length-keep-le (passes lower l.filter) (keep (is_shown l.show_hidden) l.entries),
          ),
        )
