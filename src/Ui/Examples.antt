-- ===== src/Ui/Examples.antt =====
-- The theorems of the user interface's state at concrete states.
use Prim.Native.Nat.{ℕ}
use mathlib.Core.Path.{◌≡◌}
use mathlib.Core.Bool.{true, false}
use mathlib.Core.Option.{none, some}
use mathlib.Core.List.{[], ◌∷◌}
use native.Mathlib.Omega.{arith}
use term_connect.Shared.Text.{lit}
use term_connect.Ui.Sessions.{Sessions, new, insert, remove}
use term_connect.Ui.SessionLaws.{IsValid, insert-IsValid, remove-IsValid}
use term_connect.Ui.Notifications.{Severity, error, Notifications}
use term_connect.Ui.TextInput.{backspace, TextInputDialog, TextInputOutcome, handle_key}
use term_connect.Ui.TextInputLaws.{InText, handle_key-InText}

abbrev two_sessions : Sessions ℕ
two_sessions = (insert (insert new 4 (lit "a") true 0).0 5 (lit "b") false 0).0

two_sessions-IsValid : IsValid two_sessions
two_sessions-IsValid = insert-IsValid (insert new 4 (lit "a") true 0).0 5 (lit "b") false 0

remove-IsValid_example : IsValid (remove two_sessions 4).0
remove-IsValid_example = remove-IsValid two_sessions 4 two_sessions-IsValid

abbrev shown : Notifications
shown =
    record { severity = Severity.info; message = lit "ok"; expires_at = some 4 }
    ∷ record { severity = error; message = lit "no"; expires_at = none }
    ∷ []

abbrev typing : TextInputDialog
typing = record { title = lit "Name"; value = lit "ab"; cursor = 1 }

handle_key-InText_example :
    (d : TextInputDialog) × (outcome : TextInputOutcome) × (handle_key typing backspace
      ≡ some (d, outcome))
    × InText d
handle_key-InText_example = handle_key-InText typing backspace (omega arith)
