-- ===== src/Transfer/Queue/Account.antt =====
-- `account`, `reconcile`, `update` and the job guard: how a change of one job reaches the row
-- counters and the indices.
use Prim.Native.Nat.{ℕ, ◌+◌, ◌-◌, ◌%◌}
use mathlib.Core.Bool.{Bool, true, false}
use mathlib.Core.Option.{Option, none, some}
use mathlib.Core.Logic.{ite}
use mathlib.Core.List.{List, [], ◌∷◌, ◌++◌}
use term_connect.Shared.{◌==◌, if◌then◌else◌, u64_mod, is_empty}
use term_connect.Shared.Map
use term_connect.Shared.Map.{Map}
use term_connect.Shared.Set
use term_connect.Shared.HashMap
use term_connect.Transfer.Job.{JobStatus, in_progress, TransferJob}
use term_connect.Transfer.Queue.State.{
  RowCounters, RowChange, finished_row, reopened_row, finished, change_slot, Shape, Shape-discrete,
  shape_of, PendingKey, PendingKey-discrete, TransferQueue,
}

-- `decrement`; `*count -= 1` wraps at 0 in a release build.
unfoldable pub decrement : List (PendingKey × ℕ) → PendingKey → List (PendingKey × ℕ)
decrement m key = elim (HashMap.get PendingKey-discrete m key) [
  | none ↦ m
  | some count ↦
      let less : ℕ = (if count == 0 then u64_mod - 1 else count - 1) in
      if less == 0
      then HashMap.remove PendingKey-discrete key m
      else HashMap.insert PendingKey-discrete key less m
]

-- `*map.entry(key).or_default() += 1`
unfoldable pub increment : List (PendingKey × ℕ) → PendingKey → List (PendingKey × ℕ)
increment m key = elim (HashMap.get PendingKey-discrete m key) [
  | none ↦ HashMap.insert PendingKey-discrete key 1 m
  | some count ↦ HashMap.insert PendingKey-discrete key (count + 1) m
]

-- The part of `account` that works on the counters of the job's row.
unfoldable pub account_counters : Shape → Bool → RowCounters → RowCounters
unfolding change_slot
account_counters shape true c =
    let c' = change_slot shape.status (λ n. n + 1) c in
    record c' { bytes_done = (c'.bytes_done + shape.transferred) % u64_mod }
account_counters shape false c =
    let c' = change_slot shape.status (λ n. n - 1) c in
    record c' { bytes_done = c'.bytes_done - shape.transferred }

unfoldable pub account_row : ℕ → Shape → Bool → Map RowCounters → Map RowCounters
account_row key shape add rows = elim (Map.get rows key) [
  | none ↦ rows
  | some c ↦ Map.insert key (account_counters shape add c) rows
]

-- `queued_by_session`: an id enters or leaves its session's set, and an empty set is dropped.
unfoldable pub add_to_session : ℕ → ℕ → Map (List ℕ) → Map (List ℕ)
add_to_session id session m = elim (Map.get m session) [
  | none ↦ Map.insert session (Set.insert id []) m
  | some ids ↦ Map.insert session (Set.insert id ids) m
]

unfoldable pub remove_from_session : ℕ → ℕ → Map (List ℕ) → Map (List ℕ)
remove_from_session id session m = elim (Map.get m session) [
  | none ↦ m
  | some ids ↦
      let left = Set.remove id ids in
      if is_empty left then Map.remove session m else Map.insert session left m
]

-- The part of `account` that works on the index sets.
unfoldable pub account_sets : JobStatus → ℕ → ℕ → Bool → TransferQueue → TransferQueue
unfolding add_to_session remove_from_session
account_sets in_progress session id true q = record q { running = Set.insert id q.running }
account_sets in_progress session id false q = record q { running = Set.remove id q.running }
account_sets JobStatus.queued session id true q = record q {
  queued = Set.insert id q.queued;
  queued_by_session = add_to_session id session q.queued_by_session;
}
account_sets JobStatus.queued session id false q = record q {
  queued = Set.remove id q.queued;
  queued_by_session = remove_from_session id session q.queued_by_session;
}
account_sets _ session id add q = q

unfoldable pub is_pending : JobStatus → Bool
is_pending JobStatus.queued = true
is_pending in_progress = true
is_pending _ = false

-- The part of `account` that works on the pending counts.
unfoldable pub account_pending : Shape → Bool → List (PendingKey × ℕ) → List (PendingKey × ℕ)
unfolding is_pending increment decrement
account_pending shape add m =
    if is_pending shape.status
    then (if add
        then increment m (shape.session_id, shape.direction)
        else decrement m (shape.session_id, shape.direction))
    else m

unfoldable pub account : TransferQueue → ℕ → Shape → Bool → TransferQueue
account q id shape add = elim (Map.get q.row_of id) [
  | none ↦ q
  | some key ↦
      let q' = account_sets shape.status shape.session_id id add q in
      record q' {
        rows = account_row key shape add q.rows;
        pending = account_pending shape add q.pending;
      }
]

unfoldable pub row_finished : Map RowCounters → ℕ → Bool
unfolding finished
row_finished rows key = elim (Map.get rows key) [ none ↦ false | some c ↦ finished c ]

unfoldable pub finish_change : Bool → Bool → RowChange → RowChange → List RowChange
finish_change false true now_finished now_reopened = now_finished ∷ []
finish_change true false now_finished now_reopened = now_reopened ∷ []
finish_change _ _ now_finished now_reopened = []

-- The changes that `reconcile` reports of a row.
unfoldable pub row_changes : Map RowCounters → ℕ → Bool → List RowChange
unfolding finish_change
row_changes rows key was_finished = elim (Map.get rows key) [
  | none ↦ []
  | some c ↦ finish_change was_finished (finished c) (finished_row c.kind) (reopened_row c.kind)
]

unfoldable pub reaccount : TransferQueue → ℕ → ℕ → Shape → Shape → TransferQueue
unfolding row_changes row_finished
reaccount q id key before after =
    let was_finished = row_finished q.rows key in
    let q' = account (account q id before false) id after true in
    record q' { changes = q'.changes ++ row_changes q'.rows key was_finished }

-- The changed job is in `q.jobs`; `before` is its shape before the change.
unfoldable pub reconcile : TransferQueue → ℕ → Shape → TransferQueue
reconcile q id before = elim (Map.get q.jobs id) [
  | none ↦ q
  | some job ↦ ite (Shape-discrete (shape_of job) before) q (elim (Map.get q.row_of id) [
    | none ↦ q
    | some key ↦ reaccount q id key before (shape_of job)
  ])
]

unfoldable pub update : TransferQueue → ℕ → (TransferJob → TransferJob) → TransferQueue
update q id change = elim (Map.get q.jobs id) [
  | none ↦ q
  | some job ↦ reconcile (record q { jobs = Map.insert id (change job) q.jobs }) id (shape_of job)
]

-- `JobGuard`, with `Deref`, `DerefMut` and `Drop`. A missing job is a panic: `none`.
pub record JobGuard : Type 0 where
  pub queue : TransferQueue
  pub id : ℕ
  pub before : Shape

unfoldable pub deref : JobGuard → Option TransferJob
deref g = Map.get g.queue.jobs g.id

unfoldable pub deref_mut : JobGuard → (TransferJob → TransferJob) → Option JobGuard
deref_mut g change = elim (Map.get g.queue.jobs g.id) [
  | none ↦ none
  | some job ↦
      some
        (record g { queue = record g.queue { jobs = Map.insert g.id (change job) g.queue.jobs } })
]

unfoldable pub drop_guard : JobGuard → TransferQueue
drop_guard g = reconcile g.queue g.id g.before

unfoldable pub get_mut : TransferQueue → ℕ → Option JobGuard
get_mut q id = elim (Map.get q.jobs id) [
  | none ↦ none
  | some job ↦ some (record { queue = q; id = id; before = shape_of job })
]
