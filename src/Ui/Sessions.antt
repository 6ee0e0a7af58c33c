-- ===== src/Ui/Sessions.antt =====
-- porthmos-tui/src/sessions/mod.rs: the open sessions and the active one. `Panel` is the type of a
-- session's panel, which is kept here and not looked into.
use Prim.Native.Nat.{ℕ, zero, suc, ◌+◌, ◌-◌, ◌%◌, min}
use mathlib.Core.Bool.{Bool, true, false}
use mathlib.Core.Option.{Option, none, some}
use mathlib.Core.List.{List, [], ◌∷◌, ◌++◌}
use term_connect.Shared.{◌==◌, ltb, if◌then◌else◌, length, get_elem?, is_empty}
use term_connect.Shared.Text.{Text, text_eq}

-- `iter().find(…)`, `iter().position(…)` and `Vec::remove`.
abbrev pub find {ℓ} : {A : Type ℓ} → (A → Bool) → List A → Option A
find p [] = none
find p (x ∷ xs) = if p x then some x else find p xs

abbrev pub position {ℓ} : {A : Type ℓ} → (A → Bool) → List A → Option ℕ
position p [] = none
position p (x ∷ xs) =
    let rest = position p xs in
    if p x then some 0 else (elim rest [ none ↦ none | some n ↦ some (suc n) ])

abbrev pub remove_at {ℓ} : {A : Type ℓ} → ℕ → List A → List A
remove_at i [] = []
remove_at zero (x ∷ xs) = xs
remove_at (suc i) (x ∷ xs) = x ∷ remove_at i xs

-- A change through `iter_mut().find(…)`.
abbrev pub change_first {ℓ} : {A : Type ℓ} → (A → Bool) → (A → A) → List A → List A
change_first p f [] = []
change_first p f (x ∷ xs) = if p x then f x ∷ xs else x ∷ change_first p f xs

-- `unwrap_or(0)`
abbrev pub index_or_zero : Option ℕ → ℕ
index_or_zero none = 0
index_or_zero (some i) = i

pub record Session (Panel : Type 0) : Type 0 where
  pub id : ℕ
  pub name : Text
  pub shell_available : Bool
  pub panel : Panel
  pub preserves_times : Bool
  pub listed : Bool

pub record Sessions (Panel : Type 0) : Type 0 where
  pub items : List (Session Panel)
  pub active_index : Option ℕ

module _ {Panel : Type 0} where
  abbrev pub new : Sessions Panel
  new = record { items = []; active_index = none }

  unfoldable pub active : Sessions Panel → Option (Session Panel)
  active s = elim s.active_index [ none ↦ none | some i ↦ get_elem? s.items i ]

  unfoldable pub active_id : Sessions Panel → Option ℕ
  active_id s = elim (active s) [ none ↦ none | some session ↦ some session.id ]

  abbrev pub has_id : ℕ → Session Panel → Bool
  has_id id session = session.id == id

  unfoldable pub by_id : Sessions Panel → ℕ → Option (Session Panel)
  by_id s id = find (has_id id) s.items

  unfoldable pub by_name : Sessions Panel → Text → Option (Session Panel)
  by_name s name = find (λ session. text_eq session.name name) s.items

  unfoldable pub insert : Sessions Panel → ℕ → Text → Bool → Panel → Sessions Panel × ℕ
  insert s id name shell_available panel =
      let items =
        s.items
        ++ record {
          id = id;
          name = name;
          shell_available = shell_available;
          panel = panel;
          preserves_times = false;
          listed = false;
        }
          ∷ [] in
      (record { items = items; active_index = some (length items - 1) }, id)

  unfoldable pub set_preserves_times : Sessions Panel → ℕ → Bool → Sessions Panel
  set_preserves_times s id preserves_times = record s {
    items = change_first (has_id id) (λ x. record x { preserves_times = preserves_times }) s.items;
  }

  -- The index of the active session once the one at `index` is gone from the items.
  active_without : List (Session Panel) → ℕ → Option ℕ → Option ℕ
  active_without left index none = none
  active_without left index (some a) =
      if a == index
      then (if is_empty left then none else some (min a (length left - 1)))
      else if ltb index a
      then some (a - 1)
      else some a

  unfoldable pub remove : Sessions Panel → ℕ → Sessions Panel × Option (Session Panel)
  unfolding active_without
  remove s id = elim (position (has_id id) s.items) [
    | none ↦ (s, none)
    | some index ↦
        let left = remove_at index s.items in
        (
          record { items = left; active_index = active_without left index s.active_index },
          get_elem? s.items index,
        )
  ]

  unfoldable pub cycle : Sessions Panel → Sessions Panel
  cycle s =
      if ltb (length s.items) 2
      then s
      else record s { active_index = some ((index_or_zero s.active_index + 1) % length s.items) }

  unfoldable pub activate : Sessions Panel → ℕ → Sessions Panel × Bool
  activate s id = elim (position (has_id id) s.items) [
    | none ↦ (s, false)
    | some index ↦ (record s { active_index = some index }, true)
  ]
