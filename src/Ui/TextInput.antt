-- ===== src/Ui/TextInput.antt =====
-- porthmos-tui/src/widgets/dialog/text_input/mod.rs: the one-line editor. A value is the list of its
-- characters, so the byte index that the code looks up is here the character's own.
use Prim.Native.Nat.{ℕ, zero, suc, ◌+◌, ◌-◌, min}
use mathlib.Core.Option.{Option, none, some}
use mathlib.Core.List.{[], ◌∷◌}
use term_connect.Shared.{ltb, if◌then◌else◌, length}
use term_connect.Shared.Text.{Text}

pub data KeyCode : Type 0 where
  enter esc left right home end backspace delete : KeyCode
  char : ℕ → KeyCode
  other : KeyCode

pub record TextInputDialog : Type 0 where
  pub title : Text
  pub value : Text
  pub cursor : ℕ

pub data TextInputOutcome : Type 0 where
  pending : TextInputOutcome
  submitted : Text → TextInputOutcome
  cancelled : TextInputOutcome

unfoldable pub new : Text → Text → TextInputDialog
new title value = record { title = title; value = value; cursor = length value }

-- `String::insert` at the byte of a character, or at the end if there is none.
abbrev pub insert_char_at : ℕ → ℕ → Text → Text
insert_char_at i c [] = c ∷ []
insert_char_at zero c (x ∷ xs) = c ∷ x ∷ xs
insert_char_at (suc i) c (x ∷ xs) = x ∷ insert_char_at i c xs

-- `String::remove`, which panics at the end: `none`.
abbrev pub remove_char_at : ℕ → Text → Option Text
remove_char_at i [] = none
remove_char_at zero (x ∷ xs) = some xs
remove_char_at (suc i) (x ∷ xs) = elim (remove_char_at i xs) [
  | none ↦ none
  | some ys ↦ some (x ∷ ys)
]

abbrev pub Step : Type 0
Step = Option (TextInputDialog × TextInputOutcome)

-- The dialog with a new value, or a panic.
edited : TextInputDialog → ℕ → Option Text → Step
edited d cursor none = none
edited d cursor (some value) = some (record d { value = value; cursor = cursor }, pending)

unfoldable pub handle_key : TextInputDialog → KeyCode → Step
unfolding edited
handle_key d enter = some (d, submitted d.value)
handle_key d esc = some (d, cancelled)
handle_key d left = some (record d { cursor = d.cursor - 1 }, pending)
handle_key d right = some (record d { cursor = min (d.cursor + 1) (length d.value) }, pending)
handle_key d home = some (record d { cursor = 0 }, pending)
handle_key d end = some (record d { cursor = length d.value }, pending)
handle_key d backspace =
    if ltb 0 d.cursor
    then edited d (d.cursor - 1) (remove_char_at (d.cursor - 1) d.value)
    else some (d, pending)
handle_key d delete =
    if ltb d.cursor (length d.value)
    then edited d d.cursor (remove_char_at d.cursor d.value)
    else some (d, pending)
handle_key d (char c) =
    some (record d { value = insert_char_at d.cursor c d.value; cursor = d.cursor + 1 }, pending)
handle_key d other = some (d, pending)
