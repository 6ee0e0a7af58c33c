-- ===== src/Transfer/Queue/Remove.antt =====
-- `remove_jobs` and `rekey_row`. The two hash maps of the function are visited in an order that Rust
-- leaves open: here in ascending order, and in order of insertion.
use Prim.Native.Nat.{ℕ, ◌-◌}
use mathlib.Core.Bool.{Bool, true, false, not}
use mathlib.Core.Option.{Option, none, some}
use mathlib.Core.List.{List, [], ◌∷◌, ◌++◌}
use term_connect.Shared.{if◌then◌else◌, keep, is_empty}
use term_connect.Shared.Map
use term_connect.Shared.Map.{Map}
use term_connect.Shared.Set
use term_connect.Shared.HashMap
use term_connect.Shared.Text.{Text}
use term_connect.Transfer.Job.{TransferJob}
use term_connect.Transfer.Rows.{RowKind, RowKind-discrete, batch}
use term_connect.Transfer.Queue.State.{
  RowCounters, RowChange, finished_row, reopened_row, removed_row, finished, shape_of,
  TransferQueue,
}
use term_connect.Transfer.Queue.Account.{account}
use term_connect.Transfer.Queue.Operations.{counters_of, forget_batch_if_empty}

-- The variables of `remove_jobs`.
pub record Removal : Type 0 where
  pub queue : TransferQueue
  pub touched_batches : List ℕ
  pub removed_by_row : Map (List ℕ)
  pub was_finished : List (RowKind × Bool)

-- `was_finished.entry(kind).or_insert_with(…)`
unfoldable pub note_finished : Option RowCounters → List (RowKind × Bool) → List (RowKind × Bool)
note_finished none m = m
note_finished (some c) m = elim (HashMap.get RowKind-discrete m c.kind) [
  | none ↦ HashMap.insert RowKind-discrete c.kind (finished c) m
  | some before ↦ m
]

-- `removed_by_row.entry(key).or_default().insert(id)`
unfoldable pub note_removed : ℕ → ℕ → Map (List ℕ) → Map (List ℕ)
note_removed key id m = elim (Map.get m key) [
  | none ↦ Map.insert key (Set.insert id []) m
  | some ids ↦ Map.insert key (Set.insert id ids) m
]

unfoldable pub note_batch : Option ℕ → List ℕ → List ℕ
note_batch none batches = batches
note_batch (some b) batches = Set.insert b batches

unfoldable pub lower_total : ℕ → ℕ → Map RowCounters → Map RowCounters
lower_total key bytes rows = elim (Map.get rows key) [
  | none ↦ rows
  | some c ↦ Map.insert key (record c { bytes_total = c.bytes_total - bytes }) rows
]

-- The body of the first loop for a job that exists and has a row.
unfoldable pub take_job : Removal → ℕ → TransferJob → ℕ → Removal
unfolding note_finished note_removed note_batch lower_total
take_job r id job key =
    let q = account r.queue id (shape_of job) false in
    record {
      queue = record q {
        rows = lower_total key job.total_bytes q.rows;
        row_of = Map.remove id q.row_of;
        jobs = Map.remove id q.jobs;
      };
      touched_batches = note_batch job.batch_id r.touched_batches;
      removed_by_row = note_removed key id r.removed_by_row;
      was_finished = note_finished (Map.get r.queue.rows key) r.was_finished;
    }

unfoldable pub take_id : Removal → ℕ → Removal
take_id r id = elim (Map.get r.queue.jobs id) [
  | none ↦ r
  | some job ↦ elim (Map.get r.queue.row_of id) [ none ↦ r | some key ↦ take_job r id job key ]
]

unfoldable pub take_ids : Removal → List ℕ → Removal
take_ids r [] = r
take_ids r (id ∷ ids) = take_ids (take_id r id) ids

unfoldable pub relabelled : Map Text → TransferJob → RowCounters → RowKind → RowCounters
relabelled batch_labels first c (batch b) =
    if Map.is_some (Map.get batch_labels b)
    then record c { direction = first.direction }
    else record c { direction = first.direction; label = first.display_name }
relabelled batch_labels first c kind = record c { direction = first.direction }

unfoldable pub first_shown : TransferQueue → ℕ → RowCounters → RowCounters
first_shown q key c = elim (Map.get q.jobs key) [
  | none ↦ c
  | some first ↦ relabelled q.batch_labels first c c.kind
]

unfoldable pub point_to : ℕ → List ℕ → Map ℕ → Map ℕ
point_to key [] row_of = row_of
point_to key (id ∷ ids) row_of = point_to key ids (Map.insert id key row_of)

unfoldable pub batch_points : RowKind → ℕ → Map ℕ → Map ℕ
batch_points (batch b) key batch_row = Map.insert b key batch_row
batch_points kind key batch_row = batch_row

unfoldable pub move_row : TransferQueue → ℕ → RowCounters → ℕ → TransferQueue
move_row q old_key c new_key =
    let c' = first_shown q new_key c in
    record q {
      rows = Map.insert new_key c' (Map.remove old_key q.rows);
      row_of = point_to new_key c.order q.row_of;
      batch_row = batch_points c.kind new_key q.batch_row;
    }

unfoldable pub rekey_by_order : TransferQueue → ℕ → RowCounters → List ℕ → TransferQueue
rekey_by_order q old_key c [] = record q { rows = Map.remove old_key q.rows }
rekey_by_order q old_key c (new_key ∷ rest) = move_row q old_key c new_key

unfoldable pub rekey_row : TransferQueue → ℕ → TransferQueue
unfolding rekey_by_order move_row first_shown relabelled point_to batch_points
rekey_row q old_key = elim (Map.get q.rows old_key) [
  | none ↦ q
  | some c ↦ rekey_by_order q old_key c c.order
]

unfoldable pub forget_row : RowKind → Map ℕ → Map ℕ
forget_row (batch b) batch_row = Map.remove b batch_row
forget_row kind batch_row = batch_row

-- The body of the second loop, for a row that exists.
unfoldable pub shrink_row : Removal → ℕ → List ℕ → RowCounters → Removal
unfolding forget_row
shrink_row r key removed c =
    let q = r.queue in
    let left = keep (λ id. not (Set.contains id removed)) c.order in
    let shrunk = record q { rows = Map.insert key (record c { order = left }) q.rows } in
    if is_empty left
    then record r {
      queue = record q {
        rows = Map.remove key q.rows;
        batch_row = forget_row c.kind q.batch_row;
        changes = q.changes ++ removed_row c.kind ∷ [];
      };
      was_finished = HashMap.remove RowKind-discrete c.kind r.was_finished;
    }
    else if Set.contains key removed
    then record r { queue = rekey_row shrunk key }
    else record r { queue = shrunk }

unfoldable pub shrink_rows : Removal → Map (List ℕ) → Removal
shrink_rows r [] = r
shrink_rows r ((key, removed) ∷ more) = elim (Map.get r.queue.rows key) [
  | none ↦ shrink_rows r more
  | some c ↦ shrink_rows (shrink_row r key removed c) more
]

unfoldable pub change_now : RowKind → Bool → Bool → List RowChange
change_now kind true false = finished_row kind ∷ []
change_now kind false true = reopened_row kind ∷ []
change_now kind _ _ = []

unfoldable pub finish_changes : TransferQueue → List (RowKind × Bool) → List RowChange
finish_changes q [] = []
finish_changes q ((kind, before) ∷ more) = elim (counters_of q kind) [
  | none ↦ finish_changes q more
  | some c ↦ change_now kind (finished c) before ++ finish_changes q more
]

unfoldable pub forget_batches : TransferQueue → List ℕ → TransferQueue
forget_batches q [] = q
forget_batches q (b ∷ bs) = forget_batches (forget_batch_if_empty q b) bs

unfoldable pub remove_jobs : TransferQueue → List ℕ → TransferQueue
unfolding finish_changes change_now forget_batches
remove_jobs q ids =
    let start : Removal = record {
      queue = q;
      touched_batches = [];
      removed_by_row = [];
      was_finished = [];
    } in
    let taken = take_ids start ids in
    let shrunk = shrink_rows taken taken.removed_by_row in
    let q' = shrunk.queue in
    forget_batches (record q' { changes = q'.changes ++ finish_changes q' shrunk.was_finished })
      shrunk.touched_batches
