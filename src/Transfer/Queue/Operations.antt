-- ===== src/Transfer/Queue/Operations.antt =====
-- The operations of the queue that add jobs, change their status, and read the rows.
use Prim.Native.Nat.{ℕ, ◌+◌, ◌%◌}
use mathlib.Core.Bool.{Bool, true, false, not, ◌&&◌}
use mathlib.Core.Option.{Option, none, some}
use mathlib.Core.Logic.{ite}
use mathlib.Core.List.{List, [], ◌∷◌, ◌++◌, map}
use term_connect.Shared.{ltb, if◌then◌else◌, u64_mod, length, choose}
use term_connect.Shared.Map
use term_connect.Shared.Set
use term_connect.Shared.HashMap
use term_connect.Shared.Text.{Text}
use term_connect.Transfer.Job.{Direction, JobStatus, TransferJob}
use term_connect.Transfer.Rows.{RowKind, RowKind-discrete, single, batch, scan, QueueRow}
use term_connect.Transfer.Queue.State.{
  max_attempts, BatchProgress, RowCounters, RowChange, reopened_row, new_counters, total_files,
  to_row, shape_of, PendingKey-discrete, TransferQueue,
}
use term_connect.Transfer.Queue.Account.{account, row_finished, update}

abbrev text_or : Option Text → Text → Text
text_or none text = text
text_or (some label) text = label

label_of : TransferQueue → Option ℕ → Text → Text
label_of q none display_name = display_name
label_of q (some b) display_name = text_or (Map.get q.batch_labels b) display_name

-- The row of a new job, and `batch_row` with the entry that `or_insert` makes.
unfoldable pub row_entry : Map.Map ℕ → Option ℕ → ℕ → ℕ × Map.Map ℕ
row_entry batch_row none id = (id, batch_row)
row_entry batch_row (some b) id = elim (Map.get batch_row b) [
  | none ↦ (id, Map.insert b id batch_row)
  | some key ↦ (key, batch_row)
]

kind_of : Option ℕ → ℕ → RowKind
kind_of none id = single id
kind_of (some b) id = batch b

counters_or : Option RowCounters → RowCounters → RowCounters
counters_or none c = c
counters_or (some c) fresh = c

-- The queue with the new job in its row, before it is accounted for.
unfoldable pub place_job : TransferQueue → TransferJob → TransferQueue
unfolding label_of row_entry kind_of counters_or
place_job q job =
    let id = job.id in
    let (key, batch_row) = row_entry q.batch_row job.batch_id id in
    let label = label_of q job.batch_id job.display_name in
    let fresh = new_counters (kind_of job.batch_id id) label job.direction in
    let c = counters_or (Map.get q.rows key) fresh in
    record q {
      jobs = Map.insert id job q.jobs;
      next_id = (id + 1) % u64_mod;
      batch_row = batch_row;
      rows =
          Map.insert key
            (record c {
              order = c.order ++ id ∷ [];
              bytes_total = (c.bytes_total + job.total_bytes) % u64_mod;
            })
            q.rows;
      row_of = Map.insert id key q.row_of;
    }

unfoldable pub new_job : ℕ → ℕ → Direction → Text → Text → Text → ℕ → Option ℕ → TransferJob
new_job id session_id direction local_path remote_path display_name total_bytes batch_id = record {
  id = id;
  session_id = session_id;
  direction = direction;
  local_path = local_path;
  remote_path = remote_path;
  display_name = display_name;
  total_bytes = total_bytes;
  transferred_bytes = 0;
  status = JobStatus.queued;
  attempts = 0;
  batch_id = batch_id;
  resume = false;
  modified = none;
}

unfoldable pub enqueue_job : TransferQueue → TransferJob → TransferQueue
unfolding row_entry kind_of
enqueue_job q job =
    let (key, _) = row_entry q.batch_row job.batch_id job.id in
    let was_finished = row_finished q.rows key in
    let q' = account (place_job q job) job.id (shape_of job) true in
    record q' {
      changes =
          (if was_finished && not (row_finished q'.rows key)
            then q'.changes ++ reopened_row (kind_of job.batch_id job.id) ∷ []
            else q'.changes);
    }

unfoldable pub enqueue :
    TransferQueue → ℕ → Direction → Text → Text → Text → ℕ → Option ℕ → TransferQueue × ℕ
unfolding enqueue_job new_job
enqueue q session_id direction local_path remote_path display_name total_bytes batch_id = (
  enqueue_job q (
      new_job q.next_id session_id direction local_path remote_path display_name total_bytes
        batch_id),
  q.next_id,
)

unfoldable pub start_batch : TransferQueue → Text → TransferQueue × ℕ
start_batch q label = (
  record q {
    next_batch_id = (q.next_batch_id + 1) % u64_mod;
    batch_labels = Map.insert q.next_batch_id label q.batch_labels;
  },
  q.next_batch_id,
)

unfoldable pub batch_label : TransferQueue → ℕ → Option Text
batch_label q batch_id = Map.get q.batch_labels batch_id

unfoldable pub forget_batch_if_empty : TransferQueue → ℕ → TransferQueue
forget_batch_if_empty q batch_id =
    if Map.is_some (Map.get q.batch_row batch_id) then q else record q {
      batch_labels = Map.remove batch_id q.batch_labels;
      unkept_times_flagged = Set.remove batch_id q.unkept_times_flagged;
    }

-- `HashSet::insert` says whether the value was new.
unfoldable pub flag_unkept_times : TransferQueue → ℕ → TransferQueue × Bool
flag_unkept_times q batch_id = (
  record q { unkept_times_flagged = Set.insert batch_id q.unkept_times_flagged },
  not (Set.contains batch_id q.unkept_times_flagged),
)

unfoldable pub has_unkept_times_flag : TransferQueue → ℕ → Bool
has_unkept_times_flag q batch_id = Set.contains batch_id q.unkept_times_flagged

unfoldable pub jobs : TransferQueue → List TransferJob
jobs q = Map.values q.jobs

unfoldable pub rows : TransferQueue → List QueueRow
rows q = map to_row (Map.values q.rows)

key_candidate : TransferQueue → RowKind → Option ℕ
key_candidate q (single id) = if Map.is_some (Map.get q.rows id) then some id else none
key_candidate q (batch b) = Map.get q.batch_row b
key_candidate q (scan b) = none

unfoldable pub row_key : TransferQueue → RowKind → Option ℕ
unfolding key_candidate
row_key q kind = elim (key_candidate q kind) [
  | none ↦ none
  | some key ↦ elim (Map.get q.rows key) [
    | none ↦ none
    | some c ↦ ite (RowKind-discrete c.kind kind) (some key) none
  ]
]

-- `self.row_key(kind).and_then(|key| self.rows.get(&key))`
unfoldable pub counters_of : TransferQueue → RowKind → Option RowCounters
counters_of q kind = elim (row_key q kind) [ none ↦ none | some key ↦ Map.get q.rows key ]

unfoldable pub row : TransferQueue → RowKind → Option QueueRow
row q kind = elim (counters_of q kind) [ none ↦ none | some c ↦ some (to_row c) ]

unfoldable pub jobs_of : TransferQueue → RowKind → List TransferJob
jobs_of q kind = elim (counters_of q kind) [ none ↦ [] | some c ↦ choose (Map.get q.jobs) c.order ]

unfoldable pub take_changes : TransferQueue → TransferQueue × List RowChange
take_changes q = (record q { changes = [] }, q.changes)

unfoldable pub can_retry : JobStatus → Bool
can_retry (JobStatus.failed reason) = true
can_retry JobStatus.cancelled = true
can_retry _ = false

unfoldable pub retried : TransferJob → TransferJob
retried job = record job { resume = ltb 0 job.attempts; status = JobStatus.queued; attempts = 0 }

unfoldable pub can_retry_id : TransferQueue → ℕ → Bool
unfolding can_retry
can_retry_id q id = elim (Map.get q.jobs id) [ none ↦ false | some job ↦ can_retry job.status ]

unfoldable pub retry_jobs : TransferQueue → List ℕ → TransferQueue × ℕ
unfolding can_retry_id retried
retry_jobs q [] = (q, 0)
retry_jobs q (id ∷ ids) =
    let again = can_retry_id q id in
    let (q', count) = retry_jobs (if again then update q id retried else q) ids in
    (q', if again then count + 1 else count)

-- `for id in &ids { self.update(*id, |job| job.status = …) }`
unfoldable pub set_status_each : JobStatus → TransferQueue → List ℕ → TransferQueue
set_status_each status q [] = q
set_status_each status q (id ∷ ids) =
    set_status_each status (update q id (λ job. record job { status = status })) ids

unfoldable pub cancel_all_queued : TransferQueue → TransferQueue × ℕ
unfolding set_status_each
cancel_all_queued q = (set_status_each JobStatus.cancelled q q.queued, length q.queued)

unfoldable pub session_queued : TransferQueue → ℕ → List ℕ
session_queued q session_id = elim (Map.get q.queued_by_session session_id) [
  | none ↦ []
  | some ids ↦ ids
]

unfoldable pub fail_queued_for_session : TransferQueue → ℕ → Text → TransferQueue × ℕ
unfolding set_status_each session_queued
fail_queued_for_session q session_id reason =
    let ids = session_queued q session_id in
    (set_status_each (JobStatus.failed reason) q ids, length ids)

unfoldable pub retry_or_give_up : TransferQueue → ℕ → TransferQueue × Bool
retry_or_give_up q id = elim (Map.get q.jobs id) [
  | none ↦ (q, false)
  | some job ↦
      if ltb job.attempts max_attempts
      then (update q id (λ j. record j { status = JobStatus.queued; resume = true }), true)
      else (q, false)
]

unfoldable pub active_jobs : TransferQueue → List TransferJob
active_jobs q = choose (Map.get q.jobs) q.running

unfoldable pub queued_jobs : TransferQueue → List TransferJob
queued_jobs q = choose (Map.get q.jobs) q.queued

unfoldable pub active_count : TransferQueue → ℕ
active_count q = length q.running

unfoldable pub queued_count : TransferQueue → ℕ
queued_count q = length q.queued

unfoldable pub pending_count : TransferQueue → ℕ → Direction → ℕ
pending_count q session_id direction =
    elim (HashMap.get PendingKey-discrete q.pending (session_id, direction)) [
      | none ↦ 0
      | some count ↦ count
    ]

unfoldable pub has_pending : TransferQueue → ℕ → Direction → Bool
unfolding pending_count
has_pending q session_id direction = ltb 0 (pending_count q session_id direction)

batch_counters : TransferQueue → ℕ → Option RowCounters
batch_counters q batch_id = elim (Map.get q.batch_row batch_id) [
  | none ↦ none
  | some key ↦ Map.get q.rows key
]

unfoldable pub batch_progress : TransferQueue → ℕ → BatchProgress
unfolding batch_counters
batch_progress q batch_id = elim (batch_counters q batch_id) [
  | none ↦ record { total_files = 0; completed_files = 0; total_bytes = 0; transferred_bytes = 0 }
  | some c ↦ record {
    total_files = total_files c;
    completed_files = c.completed;
    total_bytes = c.bytes_total;
    transferred_bytes = c.bytes_done;
  }
]
