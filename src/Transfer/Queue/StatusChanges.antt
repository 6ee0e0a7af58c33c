-- ===== src/Transfer/Queue/StatusChanges.antt =====
-- What the operations that change a status do to the jobs, and which they leave alone.
use Prim.Native.Nat.{ℕ}
use mathlib.Core.Path.{◌≡◌, refl, ◌∙◌}
use mathlib.Core.Bool.{Bool, true, false, ◌&&◌}
use mathlib.Core.Option.{Option, none, some}
use mathlib.Core.List.{List, [], ◌∷◌}
use mathlib.Core.Logic.{inl, inr, ite}
use native.Mathlib.Omega.{arith}
use term_connect.Shared.{ltb, ◌==◌, if◌then◌else◌, Option-cases, Bool-cases}
use term_connect.Shared.Map
use term_connect.Shared.Set
use term_connect.Shared.Text.{Text}
use term_connect.Transfer.Job.{JobStatus, TransferJob}
use term_connect.Transfer.Queue.State.{Shape, Shape-discrete, shape_of, TransferQueue}
use term_connect.Transfer.Queue.Account.{reaccount, reconcile, update}
use term_connect.Transfer.Queue.Operations.{
  can_retry, can_retry_id, retried, retry_jobs, set_status_each, cancel_all_queued, session_queued,
  fail_queued_for_session,
}
use term_connect.Transfer.Queue.Effects.{members, jobs-account}
use term_connect.Transfer.Queue.Index.{IsIndexed, waits, waits_in}
use term_connect.Transfer.Queue.IndexOperations.{
  cancel_all_queued-IsIndexed, fail_queued_for_session-IsIndexed,
}

-- A change of the job that may be there.
abbrev pub changed : (TransferJob → TransferJob) → Option TransferJob → Option TransferJob
changed change none = none
changed change (some job) = some (change job)

jobs-ite {ℓ} :
    {P : Type ℓ} (d : Dec P) (q q' : TransferQueue) {m : Map.Map TransferJob}
    → q.jobs ≡ m
    → q'.jobs ≡ m
    → (ite d q q').jobs ≡ m
jobs-ite (yes p) q q' e f = e
jobs-ite (no p) q q' e f = f

jobs-reconcile :
    (q : TransferQueue) (id : ℕ) (before : Shape) → (reconcile q id before).jobs ≡ q.jobs
unfolding reconcile reaccount
jobs-reconcile q id before = elim (Option-cases (Map.get q.jobs id)) [
  | inl e ↦ rw (e, reconcile)
  | inr (job, e) ↦
      rw (e, reconcile)
        (jobs-ite (Shape-discrete (shape_of job) before) q _ refl
          (elim (Option-cases (Map.get q.row_of id)) [
            | inl r ↦ rw (r, reconcile)
            | inr (key, r) ↦ rw (r, reconcile) (jobs-account _ _ _ _ ∙ jobs-account _ _ _ _)
          ]))
]

-- `update` changes its job and no other.
pub jobs-update :
    (q : TransferQueue) (id j : ℕ) (change : TransferJob → TransferJob)
    → Map.get (update q id change).jobs j
      ≡ (if id == j then changed change (Map.get q.jobs j) else Map.get q.jobs j)
unfolding update
jobs-update q id j change = elim (Option-cases (Map.get q.jobs id)) [
  | inl e ↦ rw (e, update) (ground arith)
  | inr (job, e) ↦ rw (e, update) (rw (jobs-reconcile, Map.get-insert) (ground arith))
]

abbrev pub with_status : JobStatus → TransferJob → TransferJob
with_status status job = record job { status = status }

pub jobs-set_status_each :
    (status : JobStatus) (q : TransferQueue) (ids : List ℕ) (j : ℕ)
    → Map.get (set_status_each status q ids).jobs j ≡ (
        if Set.contains j ids
        then changed (with_status status) (Map.get q.jobs j)
        else Map.get q.jobs j)
unfolding set_status_each
jobs-set_status_each status q [] j = refl
jobs-set_status_each status q (id ∷ ids) j =
    rw (jobs-set_status_each status (update q id (with_status status)) ids j, jobs-update)
      (ground arith)

empty_of_none : (s : List ℕ) → ((j : ℕ) → Set.contains j s ≡ false) → s ≡ []
empty_of_none [] h = refl
empty_of_none (i ∷ s) h = ground (arith, h i)

-- `cancel_all_queued` turns every queued job into a cancelled one, leaves every other job as it is,
-- and empties the set of queued jobs.
pub cancel_all_queued_lem :
    (q : TransferQueue)
    → IsIndexed q
    → ((j : ℕ)
        → Map.get (cancel_all_queued q).0.jobs j ≡ (
            if waits (Map.get q.jobs j)
            then changed (with_status JobStatus.cancelled) (Map.get q.jobs j)
            else Map.get q.jobs j))
      × ((cancel_all_queued q).0.queued ≡ [])
unfolding cancel_all_queued
cancel_all_queued_lem q v = (jobs_after, empty_of_none _ none_left)
  where
    jobs_after :
        (j : ℕ)
        → Map.get (set_status_each JobStatus.cancelled q q.queued).jobs j ≡ (
            if waits (Map.get q.jobs j)
            then changed (with_status JobStatus.cancelled) (Map.get q.jobs j)
            else Map.get q.jobs j)
    jobs_after j = rw (jobs-set_status_each, v.queued j)

    none_left : (j : ℕ) → Set.contains j (cancel_all_queued q).0.queued ≡ false
    none_left j = rw ((cancel_all_queued-IsIndexed q v).queued j, jobs_after j) (ground arith)

session_queued-contains :
    (q : TransferQueue) (session j : ℕ)
    → Set.contains j (session_queued q session)
      ≡ Set.contains j (members (Map.get q.queued_by_session session))
unfolding session_queued
session_queued-contains q session j = ground arith

-- `fail_queued_for_session` fails every queued job of the session with the reason given, leaves every
-- other job as it is, and no job of the session is queued after it.
pub fail_queued_for_session_lem :
    (q : TransferQueue) (session : ℕ) (reason : Text)
    → IsIndexed q
    → ((j : ℕ)
        → Map.get (fail_queued_for_session q session reason).0.jobs j ≡ (
            if waits_in session (Map.get q.jobs j)
            then changed (with_status (JobStatus.failed reason)) (Map.get q.jobs j)
            else Map.get q.jobs j))
      × (session_queued (fail_queued_for_session q session reason).0 session ≡ [])
unfolding fail_queued_for_session
fail_queued_for_session_lem q session reason v = (jobs_after, empty_of_none _ none_left)
  where
    jobs_after :
        (j : ℕ)
        → Map.get (set_status_each (JobStatus.failed reason) q (session_queued q session)).jobs j
          ≡ (if waits_in session (Map.get q.jobs j)
              then changed (with_status (JobStatus.failed reason)) (Map.get q.jobs j)
              else Map.get q.jobs j)
    jobs_after j =
        rw (jobs-set_status_each, session_queued-contains q session j, v.by_session session j)

    none_left :
        (j : ℕ)
        → Set.contains j (session_queued (fail_queued_for_session q session reason).0 session)
          ≡ false
    none_left j =
        rw
          (
            session_queued-contains (fail_queued_for_session q session reason).0 session j,
            (fail_queued_for_session-IsIndexed q session reason v).by_session session j,
            jobs_after j,
          )
          (ground arith)

abbrev queued_again : TransferJob → TransferJob
queued_again job = record job {
  status = JobStatus.queued;
  resume = ltb 0 job.attempts;
  attempts = 0;
}

-- What becomes of a listed job, by its status.
abbrev again_from : JobStatus → TransferJob → TransferJob
again_from JobStatus.queued job = job
again_from JobStatus.in_progress job = job
again_from JobStatus.completed job = job
again_from (JobStatus.failed reason) job = queued_again job
again_from JobStatus.cancelled job = queued_again job

abbrev pub again_if : Bool → TransferJob → TransferJob
again_if true job = again_from job.status job
again_if false job = job

changed-again :
    (listed : Bool) (job : TransferJob)
    → again_if listed job ≡ (if listed && can_retry job.status then retried job else job)
unfolding can_retry retried
changed-again false job = refl
changed-again true job = go job.status
  where
    go :
        (status : JobStatus)
        → again_from status job ≡ (if can_retry status then retried job else job)
    go JobStatus.queued = refl
    go JobStatus.in_progress = refl
    go JobStatus.completed = refl
    go (JobStatus.failed reason) = refl
    go JobStatus.cancelled = refl

abbrev retried_if : Bool → Option TransferJob → Option TransferJob
retried_if listed none = none
retried_if listed (some job) =
    if listed && can_retry job.status then some (retried job) else some job

jobs-retry_jobs :
    (q : TransferQueue) (ids : List ℕ) (j : ℕ)
    → Map.get (retry_jobs q ids).0.jobs j ≡ retried_if (Set.contains j ids) (Map.get q.jobs j)
unfolding retry_jobs
jobs-retry_jobs q [] j = ground arith
jobs-retry_jobs q (id ∷ ids) j = elim (Bool-cases (can_retry_id q id)) [
  | inl e ↦ rw e (
      rw (jobs-retry_jobs (update q id retried) ids j, jobs-update)
        (unfold can_retry retried in ground (arith, e)))
  | inr e ↦ rw e (rw (jobs-retry_jobs q ids j) (unfold can_retry in ground (arith, e)))
]

retried_if-again :
    (listed : Bool) (o : Option TransferJob) → retried_if listed o ≡ changed (again_if listed) o
retried_if-again listed none = refl
retried_if-again listed (some job) = rw (changed-again listed job) (ground arith)

-- After `retry_jobs` each listed job that failed or was cancelled is queued, to resume if it had been
-- attempted, with no attempts counted and nothing else changed; every other job is as it was: one not
-- listed, and a listed one that is queued, in progress or completed.
pub retry_jobs_lem :
    (q : TransferQueue) (ids : List ℕ) (j : ℕ)
    → Map.get (retry_jobs q ids).0.jobs j
      ≡ changed (again_if (Set.contains j ids)) (Map.get q.jobs j)
retry_jobs_lem q ids j =
    jobs-retry_jobs q ids j ∙ retried_if-again (Set.contains j ids) (Map.get q.jobs j)
