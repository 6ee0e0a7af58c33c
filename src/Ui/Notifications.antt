-- ===== src/Ui/Notifications.antt =====
-- porthmos-tui/src/widgets/notifications/mod.rs: the queue of messages, the oldest shown. Times are in
-- seconds.
use Prim.Native.Nat.{ℕ, ◌+◌, ◌≤◌, ◌<◌}
use mathlib.Core.Path.{◌≡◌}
use mathlib.Core.Bool.{Bool, false}
use mathlib.Core.Option.{Option, none, some}
use mathlib.Core.List.{List, [], ◌∷◌, ◌++◌}
use mathlib.Core.Logic.{◌⊎◌}
use term_connect.Shared.{leb, if◌then◌else◌, All}
use term_connect.Shared.Text.{Text}

pub data Severity : Type 0 where
  info warning error : Severity

unfoldable pub ttl_for : Severity → Option ℕ
ttl_for info = some 4
ttl_for warning = some 8
ttl_for error = none

pub record Notification : Type 0 where
  pub severity : Severity
  pub message : Text
  pub expires_at : Option ℕ

abbrev pub Notifications : Type 0
Notifications = List Notification

expiry : Option ℕ → ℕ → Option ℕ
expiry none now = none
expiry (some ttl) now = some (now + ttl)

-- `now` is what `Instant::now()` returns.
unfoldable pub push : Notifications → ℕ → Severity → Text → Notifications
unfolding expiry ttl_for
push queue now severity message =
    queue
    ++ record { severity = severity; message = message; expires_at = expiry (ttl_for severity) now }
      ∷ []

unfoldable pub current : Notifications → Option Notification
current [] = none
current (n ∷ queue) = some n

unfoldable pub dismiss_current : Notifications → Notifications
dismiss_current [] = []
dismiss_current (n ∷ queue) = queue

unfoldable pub is_over : Option ℕ → ℕ → Bool
is_over none now = false
is_over (some at) now = leb at now

unfoldable pub expire : Notifications → ℕ → Notifications
unfolding is_over
expire [] now = []
expire (n ∷ queue) now =
    let rest = expire queue now in if is_over n.expires_at now then rest else n ∷ queue

unfoldable pub next_wake : Notifications → Option ℕ
next_wake [] = none
next_wake (n ∷ queue) = n.expires_at

-- A message has a time, and that time has come.
abbrev pub IsOver : ℕ → Notification → Type 0
IsOver now n = (at : ℕ) × (n.expires_at ≡ some at) × (at ≤ now)

-- A message has no time, or its time is still to come.
abbrev pub IsLasting : ℕ → Notification → Type 0
IsLasting now n = (n.expires_at ≡ none) ⊎ ((at : ℕ) × (n.expires_at ≡ some at) × (now < at))

abbrev pub AllOver : ℕ → Notifications → Type 0
AllOver now queue = All (IsOver now) queue

-- The first message, if there is one, is to be shown on.
abbrev pub FirstLasts : ℕ → Notifications → Type 0
FirstLasts now [] = Unit {0}
FirstLasts now (n ∷ queue) = IsLasting now n

-- An error is never dropped by time, so it stays in front until it is dismissed.
pub expire-error :
    (n : Notification) (queue : Notifications) (now : ℕ)
    → n.expires_at ≡ none
    → expire (n ∷ queue) now ≡ n ∷ queue
unfolding expire
expire-error n queue now e = rw (e, is_over)
