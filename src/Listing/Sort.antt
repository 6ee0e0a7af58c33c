-- ===== src/Listing/Sort.antt =====
-- porthmos-core/src/listing/sort/mod.rs: the order of a listing. `lower` is `to_lowercase`, whose tables
-- belong to the Unicode data of the standard library; `sort_by` is a stable sort, here by insertion.
use Prim.Native.Nat.{ℕ}
use mathlib.Core.Bool.{Bool, true, false}
use mathlib.Core.Option.{Option}
use mathlib.Core.List.{List, [], ◌∷◌}
use term_connect.Shared.{ltb, ◌==◌, if◌then◌else◌}
use term_connect.Shared.Text.{Text, text_less}

-- porthmos-vfs/src/entry/mod.rs
pub record Entry : Type 0 where
  pub name : Text
  pub path : Text
  pub is_dir : Bool
  pub size : ℕ
  pub permissions : Option ℕ

pub data SortKey : Type 0 where
  by_name by_size : SortKey

pub data SortOrder : Type 0 where
  ascending descending : SortOrder

pub record SortSpec : Type 0 where
  pub key : SortKey
  pub order : SortOrder

abbrev pub default_spec : SortSpec
default_spec = record { key = by_name; order = ascending }

cycled_of : SortKey → SortOrder → SortSpec
cycled_of by_name ascending = record { key = by_name; order = descending }
cycled_of by_name descending = record { key = by_size; order = ascending }
cycled_of by_size ascending = record { key = by_size; order = descending }
cycled_of by_size descending = record { key = by_name; order = ascending }

unfoldable pub cycled : SortSpec → SortSpec
unfolding cycled_of
cycled spec = cycled_of spec.key spec.order

pub data Ordering : Type 0 where
  less equal greater : Ordering

abbrev pub turned : Ordering → Ordering
turned less = greater
turned equal = equal
turned greater = less

-- `then_with`
abbrev pub and_then : Ordering → Ordering → Ordering
and_then less o = less
and_then equal o = o
and_then greater o = greater

unfoldable pub compare_text : Text → Text → Ordering
compare_text s t = if text_less s t then less else if text_less t s then greater else equal

unfoldable pub compare_number : ℕ → ℕ → Ordering
compare_number a b = if ltb a b then less else if a == b then equal else greater

-- `b.is_dir.cmp(&a.is_dir)`
unfoldable pub compare_dirs : Bool → Bool → Ordering
compare_dirs true false = less
compare_dirs false true = greater
compare_dirs _ _ = equal

module _ (lower : Text → Text) where
  unfoldable pub by_key : SortKey → Entry → Entry → Ordering
  by_key by_name a b = compare_text (lower a.name) (lower b.name)
  by_key by_size a b = compare_number a.size b.size

  unfoldable pub in_order : SortOrder → Ordering → Ordering
  in_order ascending o = o
  in_order descending o = turned o

  unfoldable pub compare_by : Entry → Entry → SortSpec → Ordering
  unfolding by_key in_order
  compare_by a b spec =
      and_then (in_order spec.order (by_key spec.key a b))
        (compare_text (lower a.name) (lower b.name))

  unfoldable pub compare_entries : SortSpec → Entry → Entry → Ordering
  unfolding compare_dirs compare_by
  compare_entries spec a b = and_then (compare_dirs a.is_dir b.is_dir) (compare_by a b spec)

  unfoldable pub insert_entry : SortSpec → Entry → List Entry → List Entry
  insert_entry spec a [] = a ∷ []
  insert_entry spec a (b ∷ bs) = elim (compare_entries spec b a) [
    | less ↦ b ∷ insert_entry spec a bs
    | _ ↦ a ∷ b ∷ bs
  ]

  unfoldable pub sort_entries : SortSpec → List Entry → List Entry
  sort_entries spec [] = []
  sort_entries spec (a ∷ bs) = insert_entry spec a (sort_entries spec bs)
