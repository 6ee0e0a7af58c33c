-- ===== src/Listing/SortLaws.antt =====
-- A sorted listing has the same entries, in an order that the comparison allows, folders first.
use Prim.Native.Nat.{ℕ, ◌<◌}
use mathlib.Core.Path.{◌≡◌, refl, ap, sym, ◌∙◌}
use mathlib.Core.Bool.{Bool, true, false}
use mathlib.Core.List.{List, [], ◌∷◌, Perm}
use mathlib.Core.List.Perm
use mathlib.Core.Logic.{◌≢◌, ◌⊎◌, inl, inr}
use native.Mathlib.Omega.{arith}
use term_connect.Shared.{All, ◌==◌, ltb, Bool-cases, ltb→lt, ==→eq}
use term_connect.Shared.Text.{Text, text_less, text_less_asym}
use term_connect.Listing.Sort.{
  Entry, SortKey, by_name, by_size, SortOrder, ascending, descending, SortSpec, by_key, in_order,
  and_then, compare_by, compare_dirs, Ordering, less, equal, greater, turned, compare_text,
  compare_number, compare_entries, insert_entry, sort_entries, cycled,
}

-- Four presses come back to the order that one started from.
cycled_four : (spec : SortSpec) → cycled (cycled (cycled (cycled spec))) ≡ spec
unfolding cycled
cycled_four spec = ground arith

compare_text-turned : (s t : Text) → compare_text t s ≡ turned (compare_text s t)
unfolding compare_text
compare_text-turned s t = ground (arith, text_less_asym s t, text_less_asym t s)

module _ (lower : Text → Text) (spec : SortSpec) where
  -- The two ways to compare two entries agree.
  compare_entries-turned :
      (a b : Entry) → compare_entries lower spec b a ≡ turned (compare_entries lower spec a b)
  unfolding compare_entries compare_number
  compare_entries-turned a b = ground (arith, compare_text-turned (lower a.name) (lower b.name))

  -- The entry may stand before the first of the others.
  abbrev pub Before : Entry → List Entry → Type 0
  Before a [] = Unit {0}
  Before a (b ∷ bs) = compare_entries lower spec a b ≢ greater

  -- No entry is greater than the one behind it.
  abbrev pub IsSorted : List Entry → Type 0
  IsSorted [] = Unit {0}
  IsSorted (a ∷ bs) = Before a bs × IsSorted bs

  insert_entry-perm : (a : Entry) (bs : List Entry) → Perm (insert_entry lower spec a bs) (a ∷ bs)
  unfolding insert_entry
  insert_entry-perm a [] = Perm.refl (a ∷ [])
  insert_entry-perm a (b ∷ bs) = go (compare_entries lower spec b a) refl (insert_entry-perm a bs)
    where
      go :
          (o : Ordering)
          → compare_entries lower spec b a ≡ o
          → Perm (insert_entry lower spec a bs) (a ∷ bs)
          → Perm (insert_entry lower spec a (b ∷ bs)) (a ∷ b ∷ bs)
      go less e rec = rw (e, insert_entry) (Perm.trans (Perm.cons b rec) (Perm.swap a b bs))
      go equal e rec = rw (e, insert_entry) (Perm.refl (a ∷ b ∷ bs))
      go greater e rec = rw (e, insert_entry) (Perm.refl (a ∷ b ∷ bs))

  Before-insert_entry :
      (x a : Entry) (bs : List Entry)
      → compare_entries lower spec x a ≢ greater
      → Before x bs
      → Before x (insert_entry lower spec a bs)
  unfolding insert_entry
  Before-insert_entry x a [] h k = h
  Before-insert_entry x a (b ∷ bs) h k = go (compare_entries lower spec b a) refl
    where
      go :
          (o : Ordering)
          → compare_entries lower spec b a ≡ o
          → Before x (insert_entry lower spec a (b ∷ bs))
      go less e = rw (e, insert_entry) k
      go equal e = rw (e, insert_entry) h
      go greater e = rw (e, insert_entry) h

  insert_entry-IsSorted :
      (a : Entry) (bs : List Entry) → IsSorted bs → IsSorted (insert_entry lower spec a bs)
  unfolding insert_entry
  insert_entry-IsSorted a [] s = (tt, tt)
  insert_entry-IsSorted a (b ∷ bs) s =
      go (compare_entries lower spec b a) refl (insert_entry-IsSorted a bs s.1)
    where
      go :
          (o : Ordering)
          → compare_entries lower spec b a ≡ o
          → IsSorted (insert_entry lower spec a bs)
          → IsSorted (insert_entry lower spec a (b ∷ bs))
      go less e rec = rw (e, insert_entry) (Before-insert_entry b a bs (ground (arith, e)) s.0, rec)
      go equal e rec = rw (e, insert_entry) (ground (arith, compare_entries-turned b a, e), s)
      go greater e rec = rw (e, insert_entry) (ground (arith, compare_entries-turned b a, e), s)

  sort_entries-IsSorted :
      (entries : List Entry)
      → Perm (sort_entries lower spec entries) entries × IsSorted (sort_entries lower spec entries)
  unfolding sort_entries
  sort_entries-IsSorted [] = (Perm.refl [], tt)
  sort_entries-IsSorted (a ∷ bs) =
      let (p, s) = sort_entries-IsSorted bs in
      (
        Perm.trans (insert_entry-perm a (sort_entries lower spec bs)) (Perm.cons a p),
        insert_entry-IsSorted a (sort_entries lower spec bs) s,
      )

  -- Behind a file there is no folder.
  abbrev pub FoldersFirst : List Entry → Type 0
  FoldersFirst [] = Unit {0}
  FoldersFirst (a ∷ bs) =
      (a.is_dir ≡ false → All (λ (b : Entry). b.is_dir ≡ false) bs) × FoldersFirst bs

  sorted_folders : (bs : List Entry) → IsSorted bs → FoldersFirst bs
  unfolding compare_entries
  sorted_folders [] s = tt
  sorted_folders (a ∷ []) s = (λ h. tt, tt)
  sorted_folders (a ∷ b ∷ bs) s =
      let rest = sorted_folders (b ∷ bs) s.1 in
      (λ h. let file : b.is_dir ≡ false = ground (arith, s.0, h) in (file, rest.0 file), rest)

  -- In a sorted listing every folder stands before every file, in every order and direction.
  pub FoldersFirst-sort_entries :
      (entries : List Entry) → FoldersFirst (sort_entries lower spec entries)
  FoldersFirst-sort_entries entries = sorted_folders _ (sort_entries-IsSorted entries).1

  -- Whether the key of the one entry is before that of the other, in the direction asked for.
  abbrev pub KeyBefore : SortKey → SortOrder → Entry → Entry → Type 0
  KeyBefore by_name ascending a b = text_less (lower a.name) (lower b.name) ≡ true
  KeyBefore by_name descending a b = text_less (lower b.name) (lower a.name) ≡ true
  KeyBefore by_size ascending a b = a.size < b.size
  KeyBefore by_size descending a b = b.size < a.size

  abbrev pub SameKey : SortKey → Entry → Entry → Type 0
  SameKey by_name a b =
      (text_less (lower a.name) (lower b.name) ≡ false)
      × (text_less (lower b.name) (lower a.name) ≡ false)
  SameKey by_size a b = a.size ≡ b.size

  -- A folder stands before a file; among either, the entries stand by the key, and those of one key by
  -- their names, upwards in both directions.
  pub data MayPrecede (a b : Entry) : Type 0 where
    folder_first : a.is_dir ≡ true → b.is_dir ≡ false → MayPrecede a b
    key_before : a.is_dir ≡ b.is_dir → KeyBefore spec.key spec.order a b → MayPrecede a b
    name_before :
        a.is_dir ≡ b.is_dir
        → SameKey spec.key a b
        → text_less (lower b.name) (lower a.name) ≡ false
        → MayPrecede a b

  abbrev pub IsOrdered : List Entry → Type 0
  IsOrdered [] = Unit {0}
  IsOrdered (a ∷ []) = Unit {0}
  IsOrdered (a ∷ b ∷ bs) = MayPrecede a b × IsOrdered (b ∷ bs)

compare_text-cases :
    (s t : Text)
    → ((compare_text s t ≡ less) × (text_less s t ≡ true))
      ⊎ (((compare_text s t ≡ equal) × (text_less s t ≡ false) × (text_less t s ≡ false))
          ⊎ ((compare_text s t ≡ greater) × (text_less t s ≡ true)))
unfolding compare_text
compare_text-cases s t = elim (Bool-cases (text_less s t)) [
  | inl e ↦ inl (rw e refl, e)
  | inr e ↦ elim (Bool-cases (text_less t s)) [
    | inl f ↦ inr (inr (rw e (rw f refl), f))
    | inr f ↦ inr (inl (rw e (rw f refl), e, f))
  ]
]

compare_number-cases :
    (m n : ℕ)
    → ((compare_number m n ≡ less) × (m < n))
      ⊎ (((compare_number m n ≡ equal) × (m ≡ n)) ⊎ ((compare_number m n ≡ greater) × (n < m)))
unfolding compare_number
compare_number-cases m n = elim (Bool-cases (ltb m n)) [
  | inl e ↦ inl (rw e refl, ltb→lt m n e)
  | inr e ↦ elim (Bool-cases (m == n)) [
    | inl f ↦ inr (inl (rw e (rw f refl), ==→eq m n f))
    | inr f ↦ inr (inr (rw e (rw f refl), ground (arith, e, f)))
  ]
]

module _ (lower : Text → Text) (spec : SortSpec) where
  -- What the comparison by a key says.
  by_key-cases :
      (key : SortKey) (order : SortOrder) (a b : Entry)
      → ((in_order lower order (by_key lower key a b) ≡ less) × KeyBefore lower spec key order a b)
        ⊎ (((in_order lower order (by_key lower key a b) ≡ equal) × SameKey lower spec key a b)
            ⊎ (in_order lower order (by_key lower key a b) ≡ greater))
  unfolding by_key in_order
  by_key-cases by_name ascending a b = elim (compare_text-cases (lower a.name) (lower b.name)) [
    | inl (e, h) ↦ inl (e, h)
    | inr (inl (e, h, k)) ↦ inr (inl (e, (h, k)))
    | inr (inr (e, h)) ↦ inr (inr e)
  ]
  by_key-cases by_name descending a b = elim (compare_text-cases (lower a.name) (lower b.name)) [
    | inl (e, h) ↦ inr (inr (ap turned e))
    | inr (inl (e, h, k)) ↦ inr (inl (ap turned e, (h, k)))
    | inr (inr (e, h)) ↦ inl (ap turned e, h)
  ]
  by_key-cases by_size ascending a b = elim (compare_number-cases a.size b.size) [
    | inl (e, h) ↦ inl (e, h)
    | inr (inl (e, h)) ↦ inr (inl (e, h))
    | inr (inr (e, h)) ↦ inr (inr e)
  ]
  by_key-cases by_size descending a b = elim (compare_number-cases a.size b.size) [
    | inl (e, h) ↦ inr (inr (ap turned e))
    | inr (inl (e, h)) ↦ inr (inl (ap turned e, h))
    | inr (inr (e, h)) ↦ inl (ap turned e, h)
  ]

  compare_by-MayPrecede :
      (a b : Entry)
      → a.is_dir ≡ b.is_dir
      → compare_by lower a b spec ≢ greater
      → MayPrecede lower spec a b
  unfolding compare_by compare_text
  compare_by-MayPrecede a b d h = elim (by_key-cases spec.key spec.order a b) [
    | inl (e, before) ↦ key_before d before
    | inr (inl (e, same)) ↦ elim (Bool-cases (text_less (lower b.name) (lower a.name))) [
      | inl g ↦
          let not_less : text_less (lower a.name) (lower b.name) ≡ false =
            text_less_asym (lower b.name) (lower a.name) g in
          let greater_text : compare_text (lower a.name) (lower b.name) ≡ greater =
            rw not_less (rw g refl) in
          absurd
            (h (ap (λ o. and_then o (compare_text (lower a.name) (lower b.name))) e ∙ greater_text))
      | inr g ↦ name_before d same g
    ]
    | inr (inr e) ↦ absurd (h (ap (λ o. and_then o (compare_text (lower a.name) (lower b.name))) e))
  ]

  compare_entries-MayPrecede :
      (a b : Entry) → compare_entries lower spec a b ≢ greater → MayPrecede lower spec a b
  unfolding compare_entries compare_dirs
  compare_entries-MayPrecede a b h = go a.is_dir b.is_dir refl refl
    where
      compared :
          (x y : Bool)
          → a.is_dir ≡ x
          → b.is_dir ≡ y
          → compare_entries lower spec a b ≡ and_then (compare_dirs x y) (compare_by lower a b spec)
      compared x y d e =
          ap (λ z. and_then (compare_dirs z b.is_dir) (compare_by lower a b spec)) d
          ∙ ap (λ z. and_then (compare_dirs x z) (compare_by lower a b spec)) e

      go : (x y : Bool) → a.is_dir ≡ x → b.is_dir ≡ y → MayPrecede lower spec a b
      go true false d e = folder_first d e
      go true true d e = compare_by-MayPrecede a b (d ∙ sym e) (λ k. h (compared true true d e ∙ k))
      go false false d e =
          compare_by-MayPrecede a b (d ∙ sym e) (λ k. h (compared false false d e ∙ k))
      go false true d e = absurd (h (compared false true d e))

  IsOrdered-of : (bs : List Entry) → IsSorted lower spec bs → IsOrdered lower spec bs
  IsOrdered-of [] s = tt
  IsOrdered-of (a ∷ []) s = tt
  IsOrdered-of (a ∷ b ∷ bs) s = (compare_entries-MayPrecede a b s.0, IsOrdered-of (b ∷ bs) s.1)

  -- Sorting a listing keeps its entries, each as often, and puts them in order: folders before files,
  -- then by the name without its case or by the size, upwards or downwards as the spec says, and
  -- entries of one key by their names, upwards.
  pub sort_entries_lem :
      (entries : List Entry)
      → Perm (sort_entries lower spec entries) entries
        × IsOrdered lower spec (sort_entries lower spec entries)
  sort_entries_lem entries =
      let (p, s) = sort_entries-IsSorted lower spec entries in (p, IsOrdered-of _ s)
