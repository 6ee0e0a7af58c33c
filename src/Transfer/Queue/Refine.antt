-- ===== src/Transfer/Queue/Refine.antt =====
-- The queue seen from outside: which jobs it holds. Each operation refines a move on that view, whatever
-- it does to rows, indices and counters.
use Prim.Native.Nat.{ℕ}
use mathlib.Core.Path.{◌≡◌, refl, ◌∙◌}
use mathlib.Core.Bool.{true, false}
use mathlib.Core.Option.{Option, none, some}
use mathlib.Core.List.{List, [], ◌∷◌}
use mathlib.Core.Logic.{inl, inr}
use native.Mathlib.Omega.{arith}
use term_connect.Shared.{◌==◌, ltb, if◌then◌else◌, Option-cases, Bool-cases}
use term_connect.Shared.Map
use term_connect.Shared.Map.{Map}
use term_connect.Shared.Set
use term_connect.Shared.Text.{Text}
use term_connect.Transfer.Job.{Direction, JobStatus, TransferJob}
use term_connect.Transfer.Queue.State.{max_attempts, RowCounters, TransferQueue}
use term_connect.Transfer.Queue.Effects.{jobs-account}
use term_connect.Transfer.Queue.Operations.{
  place_job, new_job, enqueue_job, enqueue, start_batch, flag_unkept_times, forget_batch_if_empty,
  take_changes, retry_or_give_up,
}
use term_connect.Transfer.Queue.Remove.{
  Removal, take_job, take_id, take_ids, rekey_row, rekey_by_order, move_row, shrink_row,
  shrink_rows, forget_batches, remove_jobs,
}
use term_connect.Transfer.Queue.Index.{IsIndexed, row_of_job, waits, waits_in}
use term_connect.Transfer.Queue.StatusChanges.{
  changed, with_status, again_if, jobs-update, retry_jobs_lem, cancel_all_queued_lem,
  fail_queued_for_session_lem,
}
use term_connect.Transfer.Queue.Removal.{take_id-IsIndexed}
use term_connect.Transfer.Queue.Reach.{Step, Reach, Reach-IsConsistent}

-- The jobs by their ids.
abbrev pub View : Type 0
View = ℕ → Option TransferJob

abbrev pub view : TransferQueue → View
view q id = Map.get q.jobs id

-- The job that comes in, queued and not yet attempted.
abbrev incoming : ℕ → ℕ → Direction → Text → Text → Text → ℕ → Option ℕ → TransferJob
incoming id session direction local_path remote_path name bytes batch_id = record {
  id = id;
  session_id = session;
  direction = direction;
  local_path = local_path;
  remote_path = remote_path;
  display_name = name;
  total_bytes = bytes;
  transferred_bytes = 0;
  status = JobStatus.queued;
  attempts = 0;
  batch_id = batch_id;
  resume = false;
  modified = none;
}

-- A job that failed its attempt: it waits for another one, the third at most.
abbrev tried : TransferJob → TransferJob
tried job =
    if ltb job.attempts 3 then record job { status = JobStatus.queued; resume = true } else job

-- What each call of the engine makes of the jobs `f`.
abbrev pub Move : {q q' : TransferQueue} → Step q q' → View → View → Type 0
Move {q} (Step.enqueued session direction l r name bytes batch_id room) f g =
    (f q.next_id ≡ none)
    × ((j : ℕ)
        → g j ≡ (
            if q.next_id == j
            then some (incoming q.next_id session direction l r name bytes batch_id)
            else f j))
Move (Step.changed id change keeps) f g =
    (j : ℕ) → g j ≡ (if id == j then changed change (f j) else f j)
Move (Step.retried ids) f g = (j : ℕ) → g j ≡ changed (again_if (Set.contains j ids)) (f j)
Move Step.cancelled f g =
    (j : ℕ) → g j ≡ (if waits (f j) then changed (with_status JobStatus.cancelled) (f j) else f j)
Move (Step.failed_session session reason) f g =
    (j : ℕ)
    → g j ≡ (
        if waits_in session (f j)
        then changed (with_status (JobStatus.failed reason)) (f j)
        else f j)
Move (Step.tried_again id) f g = (j : ℕ) → g j ≡ (if id == j then changed tried (f j) else f j)
Move (Step.removed ids) f g = (j : ℕ) → g j ≡ (if Set.contains j ids then none else f j)
Move (Step.batch_started label) f g = (j : ℕ) → g j ≡ f j
Move (Step.batch_forgotten batch_id) f g = (j : ℕ) → g j ≡ f j
Move (Step.times_flagged batch_id) f g = (j : ℕ) → g j ≡ f j
Move Step.changes_taken f g = (j : ℕ) → g j ≡ f j

jobs-shrink_row :
    (r : Removal) (key : ℕ) (removed : List ℕ) (c : RowCounters)
    → (shrink_row r key removed c).queue.jobs ≡ r.queue.jobs
unfolding shrink_row rekey_row rekey_by_order move_row
jobs-shrink_row r key removed c = ground arith

jobs-shrink_rows :
    (r : Removal) (removed : Map (List ℕ)) → (shrink_rows r removed).queue.jobs ≡ r.queue.jobs
unfolding shrink_rows
jobs-shrink_rows r [] = refl
jobs-shrink_rows r ((key, removed) ∷ more) = elim (Option-cases (Map.get r.queue.rows key)) [
  | inl e ↦ rw (e, shrink_rows) (jobs-shrink_rows r more)
  | inr (c, e) ↦
      rw (e, shrink_rows)
        (jobs-shrink_rows (shrink_row r key removed c) more ∙ jobs-shrink_row r key removed c)
]

jobs-forget_batch_if_empty : (q : TransferQueue) (b : ℕ) → (forget_batch_if_empty q b).jobs ≡ q.jobs
unfolding forget_batch_if_empty
jobs-forget_batch_if_empty q b = ground arith

jobs-forget_batches : (q : TransferQueue) (bs : List ℕ) → (forget_batches q bs).jobs ≡ q.jobs
unfolding forget_batches
jobs-forget_batches q [] = refl
jobs-forget_batches q (b ∷ bs) =
    jobs-forget_batches (forget_batch_if_empty q b) bs ∙ jobs-forget_batch_if_empty q b

jobs-take_id :
    (r : Removal) (id j : ℕ)
    → IsIndexed r.queue
    → Map.get (take_id r id).queue.jobs j ≡ (if id == j then none else Map.get r.queue.jobs j)
unfolding take_id take_job
jobs-take_id r id j v = elim (Option-cases (Map.get r.queue.jobs id)) [
  | inl e ↦ rw (e, take_id) (ground (arith, e))
  | inr (job, e) ↦
      let (key, at) = row_of_job r.queue id job v e in
      rw (e, take_id) (rw (at, take_id) (rw (jobs-account, Map.get-remove) refl))
]

jobs-take_ids :
    (r : Removal) (ids : List ℕ) (j : ℕ)
    → IsIndexed r.queue
    → Map.get (take_ids r ids).queue.jobs j
      ≡ (if Set.contains j ids then none else Map.get r.queue.jobs j)
unfolding take_ids
jobs-take_ids r [] j v = refl
jobs-take_ids r (id ∷ ids) j v =
    rw (jobs-take_ids (take_id r id) ids j (take_id-IsIndexed r id v), jobs-take_id r id j v)
      (ground arith)

-- `remove_jobs` takes out exactly the jobs that are listed, whatever their status; no other job is
-- changed, and an id that no job has is ignored.
pub remove_jobs_lem :
    (q : TransferQueue) (ids : List ℕ) (j : ℕ)
    → IsIndexed q
    → Map.get (remove_jobs q ids).jobs j ≡ (if Set.contains j ids then none else Map.get q.jobs j)
unfolding remove_jobs
remove_jobs_lem q ids j v = rw (jobs-forget_batches, jobs-shrink_rows) (jobs-take_ids _ ids j v)

jobs-enqueue :
    (q : TransferQueue) (session : ℕ) (direction : Direction) (local_path remote_path name : Text)
    (bytes : ℕ) (batch_id : Option ℕ) (j : ℕ)
    → Map.get (enqueue q session direction local_path remote_path name bytes batch_id).0.jobs j ≡ (
        if q.next_id == j
        then some (new_job q.next_id session direction local_path remote_path name bytes batch_id)
        else Map.get q.jobs j)
unfolding enqueue enqueue_job place_job new_job
jobs-enqueue q session direction l r name bytes batch_id j = rw (jobs-account, Map.get-insert) refl

jobs-retry_or_give_up :
    (q : TransferQueue) (id j : ℕ)
    → Map.get (retry_or_give_up q id).0.jobs j
      ≡ (if id == j then changed tried (Map.get q.jobs j) else Map.get q.jobs j)
unfolding retry_or_give_up
jobs-retry_or_give_up q id j = elim (Option-cases (Map.get q.jobs id)) [
  | inl e ↦ rw (e, retry_or_give_up) (ground (arith, e))
  | inr (job, e) ↦
      rw (e, retry_or_give_up)
        (elim (Bool-cases (ltb job.attempts max_attempts)) [
          | inl f ↦ rw f (rw jobs-update (ground (arith, e, f)))
          | inr f ↦ rw f (ground (arith, e, f))
        ])
]

-- In a queue that the engine can reach, `enqueue` adds under a free id the queued job with the fields
-- given; `update` changes its job alone; `retry_jobs` queues the listed jobs that failed or were
-- cancelled, `cancel_all_queued` cancels the queued jobs and `fail_queued_for_session` fails those of
-- the session; `retry_or_give_up` queues its job, to resume, if it was attempted less than three times;
-- `remove_jobs` takes out the listed jobs; and no call does anything else to the jobs.
pub Step-Move : {q q' : TransferQueue} → Reach q → (s : Step q q') → Move s (view q) (view q')
unfolding start_batch flag_unkept_times take_changes new_job
Step-Move {q} r (Step.enqueued session direction l m name bytes batch_id room) = (
  (Reach-IsConsistent r).indexed.fresh q.next_id (omega arith),
  jobs-enqueue q session direction l m name bytes batch_id,
)
Step-Move {q} r (Step.changed id change keeps) = λ j. jobs-update q id j change
Step-Move {q} r (Step.retried ids) = retry_jobs_lem q ids
Step-Move {q} r Step.cancelled = (cancel_all_queued_lem q (Reach-IsConsistent r).indexed).0
Step-Move {q} r (Step.failed_session session reason) =
    (fail_queued_for_session_lem q session reason (Reach-IsConsistent r).indexed).0
Step-Move {q} r (Step.tried_again id) = jobs-retry_or_give_up q id
Step-Move {q} r (Step.removed ids) = λ j. remove_jobs_lem q ids j (Reach-IsConsistent r).indexed
Step-Move {q} r (Step.batch_started label) = λ j. refl
Step-Move {q} r (Step.batch_forgotten batch_id) = λ j. rw jobs-forget_batch_if_empty refl
Step-Move {q} r (Step.times_flagged batch_id) = λ j. refl
Step-Move {q} r Step.changes_taken = λ j. refl
