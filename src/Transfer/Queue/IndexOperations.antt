-- ===== src/Transfer/Queue/IndexOperations.antt =====
-- Every operation that adds jobs or changes their status keeps the indices of the queue right.
use Prim.Native.Nat.{ℕ, ◌+◌, ◌<◌}
use mathlib.Core.Path.{◌≡◌, refl}
use mathlib.Core.Bool.{true}
use mathlib.Core.Option.{Option, none, some}
use mathlib.Core.List.{List, [], ◌∷◌}
use mathlib.Core.Logic.{inl, inr}
use native.Mathlib.Omega.{arith}
use term_connect.Shared.{Bool-cases, u64_mod}
use term_connect.Shared.Map
use term_connect.Shared.Text.{Text}
use term_connect.Transfer.Job.{Direction, JobStatus, TransferJob}
use term_connect.Transfer.Queue.State.{shape_of, TransferQueue, new}
use term_connect.Transfer.Queue.Account.{account, update, JobGuard, deref_mut, drop_guard, get_mut}
use term_connect.Transfer.Queue.Operations.{
  place_job, new_job, enqueue_job, enqueue, can_retry_id, retried, session_queued, retry_jobs,
  set_status_each, cancel_all_queued, fail_queued_for_session, retry_or_give_up,
}
use term_connect.Transfer.Queue.Effects.{
  running-account-true, queued-account-true, session-account-true, jobs-account, row_of-account,
  next_id-account, account-IsSorted,
}
use term_connect.Transfer.Queue.Index.{IsIndexed, update-IsIndexed}

pub new-IsIndexed : IsIndexed new
unfolding new Map.get
new-IsIndexed = record {
  keyed = λ id job h. cc;
  fresh = λ id h. refl;
  covered = λ id. refl;
  running = λ id. refl;
  queued = λ id. refl;
  by_session = λ s id. refl;
  jobs_sorted = tt;
  sessions_sorted = tt;
}

-- The key of the row that `place_job` gives a new job.
row_of-place_job :
    (q : TransferQueue) (job : TransferJob)
    → (key : ℕ) × ((place_job q job).row_of ≡ Map.insert job.id key q.row_of)
unfolding place_job
row_of-place_job q job = (_, refl)

module _ (q : TransferQueue) (job : TransferJob) (v : IsIndexed q) (id : job.id ≡ q.next_id)
    (starts : job.status ≡ JobStatus.queued) (room : q.next_id + 1 < u64_mod) where
  abbrev placed : TransferQueue
  placed = place_job q job

  jobs-place_job : placed.jobs ≡ Map.insert job.id job q.jobs
  unfolding place_job
  jobs-place_job = refl

  next_id-place_job : placed.next_id ≡ job.id + 1
  unfolding place_job
  next_id-place_job = omega arith

  sets-place_job :
      (placed.running ≡ q.running)
      × (placed.queued ≡ q.queued)
      × (placed.queued_by_session ≡ q.queued_by_session)
  unfolding place_job
  sets-place_job = (refl, refl, refl)

  abbrev placed_key : ℕ
  placed_key = (row_of-place_job q job).0

  at_placed : Map.get placed.row_of job.id ≡ some placed_key
  at_placed = rw ((row_of-place_job q job).1, Map.get-insert) (ground arith)

  absent : Map.get q.jobs job.id ≡ none
  absent = v.fresh job.id (omega arith)

  accounted-IsIndexed : IsIndexed (account placed job.id (shape_of job) true)
  unfolding shape_of
  accounted-IsIndexed = record {
    keyed = λ j k. rw (jobs-account, jobs-place_job, Map.get-insert) (ground (arith, v.keyed j k));
    fresh = λ j.
        rw (jobs-account, next_id-account, jobs-place_job, next_id-place_job, Map.get-insert)
          (ground (arith, v.fresh j));
    covered = λ j.
        rw
          (
            jobs-account,
            row_of-account,
            jobs-place_job,
            (row_of-place_job q job).1,
            Map.get-insert,
            Map.get-insert,
          )
          (ground (arith, v.covered j));
    running = λ j.
        rw
          (
            jobs-account,
            running-account-true placed job.id placed_key (shape_of job) at_placed j,
            sets-place_job.0,
            v.running j,
            jobs-place_job,
            Map.get-insert,
          )
          (ground (arith, absent));
    queued = λ j.
        rw
          (
            jobs-account,
            queued-account-true placed job.id placed_key (shape_of job) at_placed j,
            sets-place_job.1,
            v.queued j,
            jobs-place_job,
            Map.get-insert,
          )
          (ground (arith, absent));
    by_session = λ s j.
        rw
          (
            jobs-account,
            session-account-true placed job.id placed_key (shape_of job) at_placed s j,
            sets-place_job.2,
            v.by_session s j,
            jobs-place_job,
            Map.get-insert,
          )
          (ground (arith, absent));
    jobs_sorted =
        rw (jobs-account, jobs-place_job) (Map.insert-IsSorted job.id job q.jobs v.jobs_sorted);
    sessions_sorted =
        account-IsSorted placed job.id (shape_of job) true (rw sets-place_job.2 v.sessions_sorted);
  }

  pub enqueue_job-IsIndexed : IsIndexed (enqueue_job q job)
  unfolding enqueue_job
  enqueue_job-IsIndexed =
      let w = accounted-IsIndexed in
      record {
        keyed = w.keyed;
        fresh = w.fresh;
        covered = w.covered;
        running = w.running;
        queued = w.queued;
        by_session = w.by_session;
        jobs_sorted = w.jobs_sorted;
        sessions_sorted = w.sessions_sorted;
      }

-- Where the indices are right and ids are left below 2 ^ 64, they are right with the new job as well:
-- it stands under the next id, in every index that should hold it.
pub enqueue-IsIndexed :
    (q : TransferQueue) (session : ℕ) (direction : Direction) (local_path remote_path name : Text)
    (bytes : ℕ) (batch_id : Option ℕ)
    → IsIndexed q
    → q.next_id + 1 < u64_mod
    → IsIndexed (enqueue q session direction local_path remote_path name bytes batch_id).0
unfolding enqueue
enqueue-IsIndexed q session direction local_path remote_path name bytes batch_id v room =
    enqueue_job-IsIndexed q
      (new_job q.next_id session direction local_path remote_path name bytes batch_id) v refl refl
      room

pub set_status_each-IsIndexed :
    (status : JobStatus) (q : TransferQueue) (ids : List ℕ)
    → IsIndexed q
    → IsIndexed (set_status_each status q ids)
unfolding set_status_each
set_status_each-IsIndexed status q [] v = v
set_status_each-IsIndexed status q (id ∷ ids) v =
    set_status_each-IsIndexed status (update q id (λ job. record job { status = status })) ids
      (update-IsIndexed q id (λ job. record job { status = status }) (λ job. refl) v)

pub retry_jobs-IsIndexed :
    (q : TransferQueue) (ids : List ℕ) → IsIndexed q → IsIndexed (retry_jobs q ids).0
unfolding retry_jobs retried
retry_jobs-IsIndexed q [] v = v
retry_jobs-IsIndexed q (id ∷ ids) v = elim (Bool-cases (can_retry_id q id)) [
  | inl e ↦ rw e (
      retry_jobs-IsIndexed (update q id retried) ids
        (update-IsIndexed q id retried (λ job. refl) v))
  | inr e ↦ rw e (retry_jobs-IsIndexed q ids v)
]

pub cancel_all_queued-IsIndexed :
    (q : TransferQueue) → IsIndexed q → IsIndexed (cancel_all_queued q).0
unfolding cancel_all_queued
cancel_all_queued-IsIndexed q = set_status_each-IsIndexed JobStatus.cancelled q q.queued

pub fail_queued_for_session-IsIndexed :
    (q : TransferQueue) (session : ℕ) (reason : Text)
    → IsIndexed q
    → IsIndexed (fail_queued_for_session q session reason).0
unfolding fail_queued_for_session
fail_queued_for_session-IsIndexed q session reason =
    set_status_each-IsIndexed (JobStatus.failed reason) q (session_queued q session)

pub retry_or_give_up-IsIndexed :
    (q : TransferQueue) (id : ℕ) → IsIndexed q → IsIndexed (retry_or_give_up q id).0
unfolding retry_or_give_up
retry_or_give_up-IsIndexed q id v = ground (
  arith,
  v,
  update-IsIndexed q id (λ j. record j { status = JobStatus.queued; resume = true }) (λ job. refl)
      v,
)

-- A change through a guard, which reconciles when it is dropped, is an `update`.
pub drop_guard-deref_mut :
    (q : TransferQueue) (id : ℕ) (change : TransferJob → TransferJob) (g g' : JobGuard)
    → get_mut q id ≡ some g
    → deref_mut g change ≡ some g'
    → drop_guard g' ≡ update q id change
unfolding get_mut deref_mut drop_guard update
drop_guard-deref_mut q id change g g' e f = ground arith
