-- ===== src/Transfer/Queue/State.antt =====
-- The state of the transfer queue: its jobs, the rows that count them and the indices over them.
-- Counters of type usize count entries of a collection in memory and do not overflow; the byte
-- counts and ids are u64 and wrap.
use Prim.Native.Nat.{ℕ, ◌+◌}
use native.Mathlib.Decide.{ℕ_discrete}
use mathlib.Core.Bool.{Bool, ◌&&◌}
use mathlib.Core.List.{List, []}
use term_connect.Shared.{◌==◌, ltb, if◌then◌else◌}
use term_connect.Shared.Text.{Text}
use term_connect.Shared.Map.{Map}
use term_connect.Transfer.Job.{
  Direction, Direction-discrete, JobStatus, in_progress, completed, TransferJob,
}
use term_connect.Transfer.Rows.{RowKind, RowState, QueueRow}

abbrev pub max_attempts : ℕ
max_attempts = 3

pub record BatchProgress : Type 0 where
  pub total_files : ℕ
  pub completed_files : ℕ
  pub total_bytes : ℕ
  pub transferred_bytes : ℕ

pub data RowChange : Type 0 where
  finished_row reopened_row removed_row : RowKind → RowChange

pub record RowCounters : Type 0 where
  pub kind : RowKind
  pub label : Text
  pub direction : Direction
  pub order : List ℕ
  pub queued : ℕ
  pub running : ℕ
  pub completed : ℕ
  pub failed : ℕ
  pub cancelled : ℕ
  pub bytes_done : ℕ
  pub bytes_total : ℕ

unfoldable pub new_counters : RowKind → Text → Direction → RowCounters
new_counters kind label direction = record {
  kind = kind;
  label = label;
  direction = direction;
  order = [];
  queued = 0;
  running = 0;
  completed = 0;
  failed = 0;
  cancelled = 0;
  bytes_done = 0;
  bytes_total = 0;
}

unfoldable pub total_files : RowCounters → ℕ
total_files c = c.queued + c.running + c.completed + c.failed + c.cancelled

unfoldable pub finished : RowCounters → Bool
unfolding total_files
finished c = ltb 0 (total_files c) && (c.queued == 0 && c.running == 0)

unfoldable pub row_state : RowCounters → RowState
unfolding total_files
row_state c =
    if ltb 0 c.running
    then RowState.running
    else if ltb 0 c.queued
    then RowState.queued
    else if c.completed == total_files c
    then RowState.done
    else if c.failed == 0
    then RowState.cancelled
    else if ltb 0 c.completed
    then RowState.partly_failed c.failed
    else RowState.failed

unfoldable pub to_row : RowCounters → QueueRow
unfolding total_files row_state
to_row c = record {
  kind = c.kind;
  label = c.label;
  direction = c.direction;
  files_done = c.completed;
  files_total = total_files c;
  bytes_done = c.bytes_done;
  bytes_total = c.bytes_total;
  state = row_state c;
}

-- `slot` gives a reference: here, the change made through it.
unfoldable pub change_slot : JobStatus → (ℕ → ℕ) → RowCounters → RowCounters
change_slot JobStatus.queued f c = record c { queued = f c.queued }
change_slot in_progress f c = record c { running = f c.running }
change_slot completed f c = record c { completed = f c.completed }
change_slot (JobStatus.failed reason) f c = record c { failed = f c.failed }
change_slot JobStatus.cancelled f c = record c { cancelled = f c.cancelled }

pub record Shape : Type 0 where
  pub status : JobStatus
  pub transferred : ℕ
  pub session_id : ℕ
  pub direction : Direction

unfoldable pub Shape-discrete : Discrete Shape
Shape-discrete = hlevel ℕ_discrete

unfoldable pub shape_of : TransferJob → Shape
shape_of job = record {
  status = job.status;
  transferred = job.transferred_bytes;
  session_id = job.session_id;
  direction = job.direction;
}

abbrev pub PendingKey : Type 0
PendingKey = ℕ × Direction

unfoldable pub PendingKey-discrete : Discrete PendingKey
unfolding Direction-discrete
PendingKey-discrete = hlevel (ℕ_discrete, Direction-discrete)

pub record TransferQueue : Type 0 where
  pub jobs : Map TransferJob
  pub batch_labels : Map Text
  pub unkept_times_flagged : List ℕ
  pub next_id : ℕ
  pub next_batch_id : ℕ
  pub rows : Map RowCounters
  pub row_of : Map ℕ
  pub batch_row : Map ℕ
  pub running : List ℕ
  pub queued : List ℕ
  pub queued_by_session : Map (List ℕ)
  pub pending : List (PendingKey × ℕ)
  pub changes : List RowChange

unfoldable pub new : TransferQueue
new = record {
  jobs = [];
  batch_labels = [];
  unkept_times_flagged = [];
  next_id = 0;
  next_batch_id = 0;
  rows = [];
  row_of = [];
  batch_row = [];
  running = [];
  queued = [];
  queued_by_session = [];
  pending = [];
  changes = [];
}
