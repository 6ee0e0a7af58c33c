-- ===== src/Transfer/Queue/Index.antt =====
-- The indices of the queue agree with the status of its jobs (`assert_consistent`, the sets), and
-- the status changes keep it so.
use Prim.Native.Nat.{ℕ, ◌≤◌}
use mathlib.Core.Path.{◌≡◌, ap}
use mathlib.Core.Bool.{Bool, true, false, ◌&&◌}
use mathlib.Core.Option.{Option, none, some}
use mathlib.Core.Logic.{inl, inr, if_pos, if_neg}
use native.Mathlib.Omega.{arith}
use term_connect.Shared.{◌==◌, Option-cases}
use term_connect.Shared.Map
use term_connect.Shared.Set
use term_connect.Transfer.Job.{TransferJob}
use term_connect.Transfer.Queue.State.{Shape, Shape-discrete, shape_of, TransferQueue}
use term_connect.Transfer.Queue.Account.{account, reaccount, reconcile, update}
use term_connect.Transfer.Queue.Effects.{
  is_queued, is_running, members, running-account-true, running-account-false, queued-account-true,
  queued-account-false, session-account-true, session-account-false, jobs-account, row_of-account,
  next_id-account, account-IsSorted,
}

-- The same tests of a job that may be missing.
abbrev pub runs : Option TransferJob → Bool
runs none = false
runs (some job) = is_running job.status

abbrev pub waits : Option TransferJob → Bool
waits none = false
waits (some job) = is_queued job.status

abbrev pub waits_in : ℕ → Option TransferJob → Bool
waits_in s none = false
waits_in s (some job) = is_queued job.status && job.session_id == s

-- Each index holds exactly the jobs that its name says.
pub record IsIndexed (q : TransferQueue) : Type 0 where
  pub keyed : (id : ℕ) (job : TransferJob) → Map.get q.jobs id ≡ some job → job.id ≡ id
  pub fresh : (id : ℕ) → q.next_id ≤ id → Map.get q.jobs id ≡ none
  pub covered : (id : ℕ) → Map.is_some (Map.get q.row_of id) ≡ Map.is_some (Map.get q.jobs id)
  pub running : (id : ℕ) → Set.contains id q.running ≡ runs (Map.get q.jobs id)
  pub queued : (id : ℕ) → Set.contains id q.queued ≡ waits (Map.get q.jobs id)
  pub by_session :
      (s id : ℕ)
      → Set.contains id (members (Map.get q.queued_by_session s)) ≡ waits_in s (Map.get q.jobs id)
  pub jobs_sorted : Map.IsSorted q.jobs
  pub sessions_sorted : Map.IsSorted q.queued_by_session

-- The queue with one job replaced, accounted for under its old and its new shape.
module _ (q : TransferQueue) (id key : ℕ) (old job : TransferJob) (v : IsIndexed q)
    (was : Map.get q.jobs id ≡ some old) (at : Map.get q.row_of id ≡ some key)
    (same : job.id ≡ old.id) where
  abbrev stored : TransferQueue
  stored = record q { jobs = Map.insert id job q.jobs }

  abbrev between : TransferQueue
  between = account stored id (shape_of old) false

  at_between : Map.get between.row_of id ≡ some key
  at_between = rw row_of-account at

  jobs-reaccount : (reaccount stored id key (shape_of old) (shape_of job)).jobs ≡ stored.jobs
  unfolding reaccount
  jobs-reaccount = rw (jobs-account, jobs-account)

  row_of-reaccount : (reaccount stored id key (shape_of old) (shape_of job)).row_of ≡ q.row_of
  unfolding reaccount
  row_of-reaccount = rw (row_of-account, row_of-account)

  next_id-reaccount : (reaccount stored id key (shape_of old) (shape_of job)).next_id ≡ q.next_id
  unfolding reaccount
  next_id-reaccount = rw (next_id-account, next_id-account)

  running-reaccount :
      (j : ℕ)
      → Set.contains j (reaccount stored id key (shape_of old) (shape_of job)).running
        ≡ runs (Map.get stored.jobs j)
  unfolding reaccount shape_of
  running-reaccount j =
      rw
        (
          running-account-true between id key (shape_of job) at_between j,
          running-account-false stored id key (shape_of old) at j,
          v.running j,
        )
        (rw Map.get-insert (ground arith))

  queued-reaccount :
      (j : ℕ)
      → Set.contains j (reaccount stored id key (shape_of old) (shape_of job)).queued
        ≡ waits (Map.get stored.jobs j)
  unfolding reaccount shape_of
  queued-reaccount j =
      rw
        (
          queued-account-true between id key (shape_of job) at_between j,
          queued-account-false stored id key (shape_of old) at j,
          v.queued j,
        )
        (rw Map.get-insert (ground arith))

  session-reaccount :
      (s j : ℕ)
      → Set.contains j (
          members
            (Map.get (reaccount stored id key (shape_of old) (shape_of job)).queued_by_session s))
        ≡ waits_in s (Map.get stored.jobs j)
  unfolding reaccount shape_of
  session-reaccount s j =
      rw
        (
          session-account-true between id key (shape_of job) at_between s j,
          session-account-false stored id key (shape_of old) at s j,
          v.by_session s j,
        )
        (rw Map.get-insert (ground arith))

  sessions-reaccount :
      Map.IsSorted (reaccount stored id key (shape_of old) (shape_of job)).queued_by_session
  unfolding reaccount
  sessions-reaccount =
      account-IsSorted between id (shape_of job) true
        (account-IsSorted stored id (shape_of old) false v.sessions_sorted)

  reaccount-IsIndexed : IsIndexed (reaccount stored id key (shape_of old) (shape_of job))
  reaccount-IsIndexed = record {
    keyed = λ j k.
        rw jobs-reaccount (rw Map.get-insert (ground (arith, v.keyed j k, v.keyed id old was)));
    fresh = λ j.
        rw (jobs-reaccount, next_id-reaccount)
          (rw Map.get-insert (ground (arith, v.fresh j, v.fresh id)));
    covered = λ j.
        rw (jobs-reaccount, row_of-reaccount) (rw Map.get-insert (ground (arith, v.covered j)));
    running = λ j. rw jobs-reaccount (running-reaccount j);
    queued = λ j. rw jobs-reaccount (queued-reaccount j);
    by_session = λ s j. rw jobs-reaccount (session-reaccount s j);
    jobs_sorted = rw jobs-reaccount (Map.insert-IsSorted id job q.jobs v.jobs_sorted);
    sessions_sorted = sessions-reaccount;
  }

  -- A change that keeps the shape needs no accounting.
  stored-IsIndexed : shape_of job ≡ shape_of old → IsIndexed stored
  unfolding shape_of
  stored-IsIndexed e =
      let status : job.status ≡ old.status = ap (λ (s : Shape). s.status) e in
      let session : job.session_id ≡ old.session_id = ap (λ (s : Shape). s.session_id) e in
      record {
        keyed = λ j k. rw Map.get-insert (ground (arith, v.keyed j k, v.keyed id old was));
        fresh = λ j. rw Map.get-insert (ground (arith, v.fresh j, v.fresh id));
        covered = λ j. rw Map.get-insert (ground (arith, v.covered j));
        running = λ j. rw (Map.get-insert, v.running j) (ground arith);
        queued = λ j. rw (Map.get-insert, v.queued j) (ground arith);
        by_session = λ s j. rw (Map.get-insert, v.by_session s j) (ground arith);
        jobs_sorted = Map.insert-IsSorted id job q.jobs v.jobs_sorted;
        sessions_sorted = v.sessions_sorted;
      }

get-insert_self {ℓ} :
    {V : Type ℓ} (m : Map.Map V) (k : ℕ) (w : V) → Map.get (Map.insert k w m) k ≡ some w
get-insert_self m k w = rw Map.get-insert (ground arith)

-- A job that is there has a row.
pub row_of_job :
    (q : TransferQueue) (id : ℕ) (job : TransferJob)
    → IsIndexed q
    → Map.get q.jobs id ≡ some job
    → (key : ℕ) × (Map.get q.row_of id ≡ some key)
row_of_job q id job v e = elim (Option-cases (Map.get q.row_of id)) [
  | inl no_row ↦ cc (v.covered id, no_row, e)
  | inr found ↦ found
]

-- Where the indices are right, `update` with a change that keeps the job's id leaves them right,
-- whatever else the change does and whether the job exists or not.
pub update-IsIndexed :
    (q : TransferQueue) (id : ℕ) (change : TransferJob → TransferJob)
    → ((job : TransferJob) → (change job).id ≡ job.id)
    → IsIndexed q
    → IsIndexed (update q id change)
unfolding update reconcile
update-IsIndexed q id change keeps v = elim (Option-cases (Map.get q.jobs id)) [
  | inl missing ↦ rw (missing, update) v
  | inr (old, was) ↦
      let (key, at) = row_of_job q id old v was in
      rw (was, update)
        (rw (get-insert_self q.jobs id (change old), reconcile)
          (elim (Shape-discrete (shape_of (change old)) (shape_of old)) [
            | yes e ↦
                rw (if_pos _ e) (stored-IsIndexed q id key old (change old) v was at (keeps old) e)
            | no e ↦ rw (if_neg _ e) (
                rw (at, reconcile)
                  (reaccount-IsIndexed q id key old (change old) v was at (keeps old)))
          ]))
]
