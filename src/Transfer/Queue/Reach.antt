-- ===== src/Transfer/Queue/Reach.antt =====
-- The queue as the engine drives it: any operations in any order. Whatever they are, the indices and
-- the rows are right.
use Prim.Native.Nat.{ℕ, ◌+◌, ◌<◌}
use mathlib.Core.Path.{◌≡◌, refl}
use mathlib.Core.Option.{Option}
use mathlib.Core.List.{List}
use term_connect.Shared.{u64_mod}
use term_connect.Shared.Map
use term_connect.Shared.Text.{Text}
use term_connect.Transfer.Job.{Direction, JobStatus, TransferJob}
use term_connect.Transfer.Queue.State.{TransferQueue, new}
use term_connect.Transfer.Queue.Account.{update}
use term_connect.Transfer.Queue.Operations.{
  enqueue, start_batch, flag_unkept_times, forget_batch_if_empty, take_changes, retry_jobs,
  cancel_all_queued, fail_queued_for_session, retry_or_give_up, session_queued,
}
use term_connect.Transfer.Queue.Remove.{remove_jobs}
use term_connect.Transfer.Queue.Index.{IsIndexed, update-IsIndexed}
use term_connect.Transfer.Queue.IndexOperations.{
  new-IsIndexed, enqueue-IsIndexed, retry_jobs-IsIndexed, cancel_all_queued-IsIndexed,
  fail_queued_for_session-IsIndexed, retry_or_give_up-IsIndexed,
}
use term_connect.Transfer.Queue.Orders.{
  IsListed, update-IsListed, enqueue-IsListed, set_status_each-IsListed, retry_jobs-IsListed,
  retry_or_give_up-IsListed,
}
use term_connect.Transfer.Queue.RowKeys.{
  IsRowed, carried-IsRowed, new-IsRowed, update-IsRowed, enqueue-IsRowed, set_status_each-IsRowed,
  retry_jobs-IsRowed, retry_or_give_up-IsRowed,
}
use term_connect.Transfer.Queue.RowRemoval.{remove_jobs-IsRowed, forget_batch_if_empty-IsRowed}
use term_connect.Transfer.Queue.Rekey.{
  carried-IsIndexed, remove_jobs-Keeps, forget_batch_if_empty-Keeps,
}

-- One call of the engine. `changed` is a change of one job, through `update` or a guard.
pub data Step (q : TransferQueue) : TransferQueue → Type 0 where
  enqueued :
      (session : ℕ) (direction : Direction) (local_path remote_path name : Text) (bytes : ℕ)
      (batch_id : Option ℕ)
      → q.next_id + 1 < u64_mod
      → Step q (enqueue q session direction local_path remote_path name bytes batch_id).0
  changed :
      (id : ℕ) (change : TransferJob → TransferJob)
      → ((job : TransferJob) → (change job).id ≡ job.id)
      → Step q (update q id change)
  retried : (ids : List ℕ) → Step q (retry_jobs q ids).0
  cancelled : Step q (cancel_all_queued q).0
  failed_session :
      (session : ℕ) (reason : Text) → Step q (fail_queued_for_session q session reason).0
  tried_again : (id : ℕ) → Step q (retry_or_give_up q id).0
  removed : (ids : List ℕ) → Step q (remove_jobs q ids)
  batch_started : (label : Text) → Step q (start_batch q label).0
  batch_forgotten : (batch_id : ℕ) → Step q (forget_batch_if_empty q batch_id)
  times_flagged : (batch_id : ℕ) → Step q (flag_unkept_times q batch_id).0
  changes_taken : Step q (take_changes q).0

pub data Reach : TransferQueue → Type 0 where
  start : Reach new
  next : {q q' : TransferQueue} → Reach q → Step q q' → Reach q'

pub record IsConsistent (q : TransferQueue) : Type 0 where
  pub indexed : IsIndexed q
  pub listed : IsListed q
  pub rowed : IsRowed q

new-IsConsistent : IsConsistent new
unfolding new Map.get
new-IsConsistent = record { indexed = new-IsIndexed; listed = λ key id h. cc; rowed = new-IsRowed }

-- A queue that differs in what neither the indices nor the rows are about.
module _ (q : TransferQueue) (v : IsConsistent q) where
  Step-IsConsistent : {q' : TransferQueue} → Step q q' → IsConsistent q'
  unfolding cancel_all_queued fail_queued_for_session start_batch flag_unkept_times take_changes
  Step-IsConsistent (enqueued session direction l r name bytes batch_id room) = record {
    indexed = enqueue-IsIndexed q session direction l r name bytes batch_id v.indexed room;
    listed = enqueue-IsListed q session direction l r name bytes batch_id v.indexed v.listed;
    rowed = enqueue-IsRowed q session direction l r name bytes batch_id v.indexed v.rowed room;
  }
  Step-IsConsistent (changed id change keeps) = record {
    indexed = update-IsIndexed q id change keeps v.indexed;
    listed = update-IsListed q id change v.listed;
    rowed = update-IsRowed q id change v.rowed;
  }
  Step-IsConsistent (retried ids) = record {
    indexed = retry_jobs-IsIndexed q ids v.indexed;
    listed = retry_jobs-IsListed q ids v.listed;
    rowed = retry_jobs-IsRowed q ids v.rowed;
  }
  Step-IsConsistent cancelled = record {
    indexed = cancel_all_queued-IsIndexed q v.indexed;
    listed = set_status_each-IsListed JobStatus.cancelled q q.queued v.listed;
    rowed = set_status_each-IsRowed JobStatus.cancelled q q.queued v.rowed;
  }
  Step-IsConsistent (failed_session session reason) = record {
    indexed = fail_queued_for_session-IsIndexed q session reason v.indexed;
    listed =
        set_status_each-IsListed (JobStatus.failed reason) q (session_queued q session) v.listed;
    rowed = set_status_each-IsRowed (JobStatus.failed reason) q (session_queued q session) v.rowed;
  }
  Step-IsConsistent (tried_again id) = record {
    indexed = retry_or_give_up-IsIndexed q id v.indexed;
    listed = retry_or_give_up-IsListed q id v.listed;
    rowed = retry_or_give_up-IsRowed q id v.rowed;
  }
  Step-IsConsistent (removed ids) =
      let (indexed, listed) = remove_jobs-Keeps q ids v.indexed v.listed in
      record {
        indexed = indexed;
        listed = listed;
        rowed = remove_jobs-IsRowed q ids v.indexed v.listed v.rowed;
      }
  Step-IsConsistent (batch_forgotten batch_id) =
      let (indexed, listed) = forget_batch_if_empty-Keeps q batch_id v.indexed v.listed in
      record {
        indexed = indexed;
        listed = listed;
        rowed = forget_batch_if_empty-IsRowed q batch_id v.rowed;
      }
  Step-IsConsistent (batch_started label) = record {
    indexed = carried-IsIndexed q _ v.indexed refl refl refl refl refl (λ j. refl);
    listed = v.listed;
    rowed = carried-IsRowed q _ refl (λ k j h before. before) (λ j k h. h) (λ b k h. h) v.rowed;
  }
  Step-IsConsistent (times_flagged batch_id) = record {
    indexed = carried-IsIndexed q _ v.indexed refl refl refl refl refl (λ j. refl);
    listed = v.listed;
    rowed = carried-IsRowed q _ refl (λ k j h before. before) (λ j k h. h) (λ b k h. h) v.rowed;
  }
  Step-IsConsistent changes_taken = record {
    indexed = carried-IsIndexed q _ v.indexed refl refl refl refl refl (λ j. refl);
    listed = v.listed;
    rowed = carried-IsRowed q _ refl (λ k j h before. before) (λ j k h. h) (λ b k h. h) v.rowed;
  }

-- Whatever operations the engine calls, and in whatever order, as long as ids are left: each index of
-- the jobs by their status holds exactly the jobs that its name says; every job has a row, the order of
-- the row lists the job, and lists no id that is not a job of the row; and a row's key is the id of no
-- job of another row.
pub Reach-IsConsistent : {q : TransferQueue} → Reach q → IsConsistent q
Reach-IsConsistent start = new-IsConsistent
Reach-IsConsistent (next {q} r s) = Step-IsConsistent q (Reach-IsConsistent r) s
