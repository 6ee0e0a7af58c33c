-- ===== src/Ui/TextInputLaws.antt =====
-- The cursor stays within the text, no key panics, and backspace undoes a typed character.
use Prim.Native.Nat.{ℕ, zero, suc, ◌+◌, ◌-◌, ◌≤◌, ◌<◌}
use mathlib.Core.Path.{◌≡◌, refl}
use mathlib.Core.Option.{some}
use mathlib.Core.List.{[], ◌∷◌}
use mathlib.Core.Logic.{inl, inr}
use native.Mathlib.Omega.{arith}
use term_connect.Shared.{ltb, length, Bool-cases, ltb→lt}
use term_connect.Shared.Text.{Text}
use term_connect.Ui.TextInput.{
  KeyCode, enter, esc, left, right, home, end, backspace, delete, char, other, TextInputDialog,
  TextInputOutcome, pending, insert_char_at, remove_char_at, handle_key,
}

length-insert_char_at : (i c : ℕ) (s : Text) → length (insert_char_at i c s) ≡ length s + 1
length-insert_char_at i c [] = omega arith
length-insert_char_at zero c (x ∷ s) = omega arith
length-insert_char_at (suc i) c (x ∷ s) = omega (arith, length-insert_char_at i c s)

remove_char_at-total :
    (i : ℕ) (s : Text)
    → i < length s
    → (t : Text) × (remove_char_at i s ≡ some t) × (length t + 1 ≡ length s)
remove_char_at-total i [] h = absurd (omega arith)
remove_char_at-total zero (x ∷ s) h = (s, refl, omega arith)
remove_char_at-total (suc i) (x ∷ s) h =
    let (t, e, l) = remove_char_at-total i s (omega arith) in (x ∷ t, rw e, omega (arith, l))

remove_char_at-insert_char_at :
    (i c : ℕ) (s : Text) → i ≤ length s → remove_char_at i (insert_char_at i c s) ≡ some s
remove_char_at-insert_char_at zero c [] h = refl
remove_char_at-insert_char_at (suc i) c [] h = absurd (omega arith)
remove_char_at-insert_char_at zero c (x ∷ s) h = refl
remove_char_at-insert_char_at (suc i) c (x ∷ s) h =
    rw (remove_char_at-insert_char_at i c s (omega arith))

abbrev pub InText : TextInputDialog → Type 0
InText d = d.cursor ≤ length d.value

-- With the cursor within the text, every key is handled without a panic and leaves it there.
pub handle_key-InText :
    (d : TextInputDialog) (k : KeyCode)
    → InText d
    → (d' : TextInputDialog) × (outcome : TextInputOutcome) × (handle_key d k ≡ some (d', outcome))
      × InText d'
unfolding handle_key
handle_key-InText d enter h = (_, _, refl, h)
handle_key-InText d esc h = (_, _, refl, h)
handle_key-InText d left h = (_, _, refl, omega arith)
handle_key-InText d right h = (_, _, refl, omega arith)
handle_key-InText d home h = (_, _, refl, omega arith)
handle_key-InText d end h = (_, _, refl, omega arith)
handle_key-InText d backspace h = elim (Bool-cases (ltb 0 d.cursor)) [
  | inl e ↦
      let (t, f, l) =
        remove_char_at-total (d.cursor - 1) d.value (omega (arith, ltb→lt 0 d.cursor e)) in
      rw e (rw f (_, _, refl, omega (arith, l, ltb→lt 0 d.cursor e)))
  | inr e ↦ rw e (d, pending, refl, h)
]
handle_key-InText d delete h = elim (Bool-cases (ltb d.cursor (length d.value))) [
  | inl e ↦
      let (t, f, l) = remove_char_at-total d.cursor d.value (ltb→lt _ _ e) in
      rw e (rw f (_, _, refl, omega (arith, l, ltb→lt _ _ e)))
  | inr e ↦ rw e (d, pending, refl, h)
]
handle_key-InText d (char c) h =
    (_, _, refl, omega (arith, length-insert_char_at d.cursor c d.value))
handle_key-InText d other h = (_, _, refl, h)

-- Backspace after a typed character gives back the dialog as it was.
pub backspace-char :
    (d : TextInputDialog) (c : ℕ) (d' : TextInputDialog) (outcome : TextInputOutcome)
    → InText d
    → handle_key d (char c) ≡ some (d', outcome)
    → handle_key d' backspace ≡ some (d, pending)
unfolding handle_key
backspace-char d c d' outcome h e = ground (arith, remove_char_at-insert_char_at d.cursor c d.value)
