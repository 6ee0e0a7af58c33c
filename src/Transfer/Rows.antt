-- ===== src/Transfer/Rows.antt =====
-- porthmos-core/src/transfer/rows: a row of the queue as it is shown.
use Prim.Native.Nat.{ℕ}
use native.Mathlib.Decide.{ℕ_discrete}
use mathlib.Core.Bool.{Bool, true, false}
use term_connect.Shared.{◌==◌, if◌then◌else◌}
use term_connect.Shared.Text.{Text}
use term_connect.Transfer.Job.{Direction}

pub data RowKind : Type 0 where
  single batch scan : ℕ → RowKind

unfoldable pub RowKind-discrete : Discrete RowKind
RowKind-discrete = hlevel ℕ_discrete

pub data RowState : Type 0 where
  scanning awaiting_answer running queued done : RowState
  partly_failed : ℕ → RowState
  failed cancelled : RowState

pub record QueueRow : Type 0 where
  pub kind : RowKind
  pub label : Text
  pub direction : Direction
  pub files_done : ℕ
  pub files_total : ℕ
  pub bytes_done : ℕ
  pub bytes_total : ℕ
  pub state : RowState

unfoldable pub finished_state : RowState → Bool
finished_state done = true
finished_state (partly_failed n) = true
finished_state failed = true
finished_state cancelled = true
finished_state _ = false

unfoldable pub is_finished : QueueRow → Bool
unfolding finished_state
is_finished row = finished_state row.state

pub record ScanInfo : Type 0 where
  pub batch_id : ℕ
  pub label : Text
  pub direction : Direction
  pub state : RowState

unfoldable pub scan_row : ScanInfo → QueueRow
scan_row s = record {
  kind = scan s.batch_id;
  label = s.label;
  direction = s.direction;
  files_done = 0;
  files_total = 0;
  bytes_done = 0;
  bytes_total = 0;
  state = s.state;
}

-- `float_percent` as in `Job.progress_percent`.
unfoldable pub percent_of : (ℕ → ℕ → ℕ) → ℕ → ℕ → ℕ
percent_of float_percent part total = if total == 0 then 100 else float_percent part total
