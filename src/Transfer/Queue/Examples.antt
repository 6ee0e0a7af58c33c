-- ===== src/Transfer/Queue/Examples.antt =====
-- Tests of the transfer queue, and its theorems at concrete queues.
use Prim.Native.Nat.{ℕ, ◌-◌, ◌≤◌}
use mathlib.Core.Path.{◌≡◌, refl}
use mathlib.Core.Bool.{true}
use mathlib.Core.Option.{none, some}
use mathlib.Core.List.{List, [], ◌∷◌, map}
use native.Mathlib.Omega.{arith}
use term_connect.Shared.{ℕ_discrete, length, if◌then◌else◌, All}
use term_connect.Shared.Map
use term_connect.Shared.Set
use term_connect.Shared.Text.{lit}
use term_connect.Transfer.Job.{
  upload, download, JobStatus, TransferJob, destination, Destination-discrete,
}
use term_connect.Transfer.Queue.State.{TransferQueue, new, shape_of}
use term_connect.Transfer.Queue.Account.{account, account_sets, add_to_session}
use term_connect.Transfer.Queue.Operations.{
  enqueue, enqueue_job, place_job, new_job, cancel_all_queued, fail_queued_for_session,
  session_queued, retry_jobs, active_jobs,
}
use term_connect.Transfer.Queue.Start.{
  startable_limited, finished, initial, start_loop, round, advance, start_job, capped, push_head,
  fill_heads, contains_destination, sessions_of,
}
use term_connect.Transfer.Queue.Index.{IsIndexed, waits, waits_in}
use term_connect.Transfer.Queue.IndexOperations.{new-IsIndexed, enqueue-IsIndexed}
use term_connect.Transfer.Queue.StatusChanges.{
  changed, with_status, cancel_all_queued_lem, fail_queued_for_session_lem, again_if,
  retry_jobs_lem,
}
use term_connect.Transfer.Queue.StartBounds.{
  length-startable_limited, StartsApart, StartsApart-startable_limited,
}
use term_connect.Transfer.Queue.StartSessions.{KeepsLimit, KeepsLimit-startable_limited}

-- One upload of session 7, and a download of session 8 behind it.
abbrev one_job : TransferQueue
one_job = (enqueue new 7 upload (lit "a") (lit "/a") (lit "a") 10 none).0

abbrev two_jobs : TransferQueue
two_jobs = (enqueue one_job 8 download (lit "b") (lit "/b") (lit "b") 20 none).0

abbrev start : TransferJob → TransferJob
start job = record job { status = JobStatus.in_progress }

start_both : startable_limited two_jobs 2 (λ _. none) ≡ finished (0 ∷ 1 ∷ [])
unfolding startable_limited initial start_loop round advance start_job capped push_head fill_heads
    contains_destination sessions_of Destination-discrete destination ℕ_discrete enqueue enqueue_job
    place_job active_jobs account account_sets add_to_session shape_of Map.get Map.insert Set.insert
    Map.remove new
start_both = refl

one_job-IsIndexed : IsIndexed one_job
unfolding new
one_job-IsIndexed =
    enqueue-IsIndexed new 7 upload (lit "a") (lit "/a") (lit "a") 10 none new-IsIndexed
      (omega arith)

next_id-one_job : one_job.next_id ≡ 1
unfolding enqueue enqueue_job account account_sets place_job new_job new Map.get Map.insert shape_of
next_id-one_job = refl

-- The queued upload is cancelled.
cancel_all_queued_lem_example :
    ((j : ℕ)
      → Map.get (cancel_all_queued one_job).0.jobs j ≡ (
          if waits (Map.get one_job.jobs j)
          then changed (with_status JobStatus.cancelled) (Map.get one_job.jobs j)
          else Map.get one_job.jobs j))
    × ((cancel_all_queued one_job).0.queued ≡ [])
cancel_all_queued_lem_example = cancel_all_queued_lem one_job one_job-IsIndexed

fail_queued_for_session_lem_example :
    ((j : ℕ)
      → Map.get (fail_queued_for_session one_job 7 (lit "lost")).0.jobs j ≡ (
          if waits_in 7 (Map.get one_job.jobs j)
          then changed (with_status (JobStatus.failed (lit "lost"))) (Map.get one_job.jobs j)
          else Map.get one_job.jobs j))
    × (session_queued (fail_queued_for_session one_job 7 (lit "lost")).0 7 ≡ [])
fail_queued_for_session_lem_example =
    fail_queued_for_session_lem one_job 7 (lit "lost") one_job-IsIndexed

abbrev cancelled_job : TransferQueue
cancelled_job = (cancel_all_queued one_job).0

retry_jobs_lem_example :
    Map.get (retry_jobs cancelled_job (0 ∷ 3 ∷ [])).0.jobs 0
    ≡ changed (again_if true) (Map.get cancelled_job.jobs 0)
retry_jobs_lem_example = retry_jobs_lem cancelled_job (0 ∷ 3 ∷ []) 0

length-startable_limited_example :
    (r : List ℕ) × (startable_limited two_jobs 2 (λ _. none) ≡ finished r)
    × (length r ≤ 2 - length two_jobs.running)
length-startable_limited_example = length-startable_limited two_jobs 2 (λ _. none)

StartsApart-startable_limited_example :
    (r : List ℕ) × (startable_limited one_job 2 (λ _. some 1) ≡ finished r)
    × StartsApart one_job.jobs (map destination (active_jobs one_job)) r
StartsApart-startable_limited_example =
    StartsApart-startable_limited one_job 2 (λ _. some 1) one_job-IsIndexed

KeepsLimit-startable_limited_example :
    (r : List ℕ) × (startable_limited one_job 2 (λ _. some 1) ≡ finished r)
    × All (λ id. waits (Map.get one_job.jobs id) ≡ true) r
    × ((x : ℕ) → KeepsLimit (λ _. some 1) one_job x r)
KeepsLimit-startable_limited_example =
    KeepsLimit-startable_limited one_job 2 (λ _. some 1) one_job-IsIndexed
