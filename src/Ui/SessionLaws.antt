-- ===== src/Ui/SessionLaws.antt =====
-- The active session is one of the sessions, and closing another session does not change it.
use Prim.Native.Nat.{ℕ, zero, suc, ◌+◌, ◌-◌, ◌≤◌, ◌<◌}
use native.Mathlib.Nat.{mod-lt}
use mathlib.Core.Path.{◌≡◌, refl}
use mathlib.Core.Bool.{Bool, false}
use mathlib.Core.Option.{none, some}
use mathlib.Core.List.{List, [], ◌∷◌}
use mathlib.Core.Logic.{◌≢◌, inl, inr}
use native.Mathlib.Omega.{arith}
use term_connect.Shared.{ltb, length, length-append, get_elem?, Option-cases, Bool-cases}
use term_connect.Shared.Text.{Text}
use term_connect.Ui.Sessions.{
  Sessions, position, remove_at, change_first, has_id, active, insert, set_preserves_times,
  index_or_zero, remove, cycle, activate,
}

module _ {A : Type 0} where
  position-lt : (p : A → Bool) (xs : List A) (i : ℕ) → position p xs ≡ some i → i < length xs
  position-lt p [] i e = cc
  position-lt p (x ∷ xs) zero e = omega arith
  position-lt p (x ∷ xs) (suc i) e = ground (arith, position-lt p xs i)

  length-remove_at : (i : ℕ) (xs : List A) → i < length xs → length (remove_at i xs) + 1 ≡ length xs
  length-remove_at i [] h = absurd (omega arith)
  length-remove_at zero (x ∷ xs) h = omega arith
  length-remove_at (suc i) (x ∷ xs) h = omega (arith, length-remove_at i xs (omega arith))

  get-remove_at_below :
      (i j : ℕ) (xs : List A) → j < i → get_elem? (remove_at i xs) j ≡ get_elem? xs j
  get-remove_at_below zero j xs h = absurd (omega arith)
  get-remove_at_below (suc i) j [] h = refl
  get-remove_at_below (suc i) zero (x ∷ xs) h = refl
  get-remove_at_below (suc i) (suc j) (x ∷ xs) h = get-remove_at_below i j xs (omega arith)

  get-remove_at_above :
      (i j : ℕ) (xs : List A) → i ≤ j → get_elem? (remove_at i xs) j ≡ get_elem? xs (suc j)
  get-remove_at_above i j [] h = refl
  get-remove_at_above zero j (x ∷ xs) h = refl
  get-remove_at_above (suc i) zero (x ∷ xs) h = absurd (omega arith)
  get-remove_at_above (suc i) (suc j) (x ∷ xs) h = get-remove_at_above i j xs (omega arith)

  length-change_first :
      (p : A → Bool) (f : A → A) (xs : List A) → length (change_first p f xs) ≡ length xs
  length-change_first p f [] = refl
  length-change_first p f (x ∷ xs) = ground (arith, length-change_first p f xs)

module _ {Panel : Type 0} where
  -- There is an active session exactly if there is a session, and its index is in range.
  pub record IsValid (s : Sessions Panel) : Type 0 where
    pub in_range : (i : ℕ) → s.active_index ≡ some i → i < length s.items
    pub present : s.active_index ≡ none → s.items ≡ []

  pub insert-IsValid :
      (s : Sessions Panel) (id : ℕ) (name : Text) (shell : Bool) (panel : Panel)
      → IsValid (insert s id name shell panel).0
  unfolding insert
  insert-IsValid s id name shell panel = record {
    in_range = λ i e. ground (
      arith,
      length-append s.items (
          record {
            id = id;
            name = name;
            shell_available = shell;
            panel = panel;
            preserves_times = false;
            listed = false;
          }
          ∷ []),
    );
    present = λ e. cc;
  }

  pub set_preserves_times-IsValid :
      (s : Sessions Panel) (id : ℕ) (keeps : Bool)
      → IsValid s
      → IsValid (set_preserves_times s id keeps)
  unfolding set_preserves_times
  set_preserves_times-IsValid s id keeps v = record {
    in_range = λ i e. omega (
      arith,
      length-change_first (has_id id) (λ x. record x { preserves_times = keeps }) s.items,
      v.in_range i e,
    );
    present = λ e. rw (v.present e);
  }

  -- Closing a session keeps the state valid.
  pub remove-IsValid : (s : Sessions Panel) (id : ℕ) → IsValid s → IsValid (remove s id).0
  unfolding remove
  remove-IsValid s id v = elim (Option-cases (position (has_id id) s.items)) [
    | inl e ↦ rw (e, remove) v
    | inr (index, e) ↦
        let there : index < length s.items = position-lt (has_id id) s.items index e in
        let less = length-remove_at index s.items there in
        rw (e, remove)
          (record {
            in_range =
                λ i f. ground (arith, v.in_range (i + 1), v.in_range i, v.in_range index, less);
            present = λ f. ground (arith, v.present, less);
          })
  ]

  pub cycle-IsValid : (s : Sessions Panel) → IsValid s → IsValid (cycle s)
  unfolding cycle
  cycle-IsValid s v = elim (Bool-cases (ltb (length s.items) 2)) [
    | inl e ↦ rw e v
    | inr e ↦ rw e (record {
      in_range =
          λ i f. ground (arith, mod-lt (index_or_zero s.active_index + 1) {m = length s.items});
      present = λ f. cc;
    })
  ]

  pub activate-IsValid : (s : Sessions Panel) (id : ℕ) → IsValid s → IsValid (activate s id).0
  unfolding activate
  activate-IsValid s id v = elim (Option-cases (position (has_id id) s.items)) [
    | inl e ↦ rw (e, activate) v
    | inr (index, e) ↦
        let there : index < length s.items = position-lt (has_id id) s.items index e in
        rw (e, activate) (record { in_range = λ i f. ground arith; present = λ f. cc })
  ]

  -- Closing a session that stands at another index leaves the active session as it is.
  pub active-remove :
      (s : Sessions Panel) (id i index : ℕ)
      → s.active_index ≡ some i
      → position (has_id id) s.items ≡ some index
      → i ≢ index
      → active (remove s id).0 ≡ active s
  unfolding remove active
  active-remove s id i index e f ne =
      rw (f, remove)
        (ground (
          arith,
          e,
          get-remove_at_below index i s.items,
          get-remove_at_above index (i - 1) s.items,
        ))
