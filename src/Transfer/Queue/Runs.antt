-- ===== src/Transfer/Queue/Runs.antt =====
-- A run of the queue: two jobs come, one is taken out again.
use Prim.Native.Nat.{ℕ}
use mathlib.Core.Path.{◌≡◌, refl}
use mathlib.Core.Bool.{true, false}
use mathlib.Core.Option.{none, some}
use mathlib.Core.List.{List, [], ◌∷◌}
use native.Mathlib.Omega.{arith}
use term_connect.Shared.{is_empty, if◌then◌else◌}
use term_connect.Shared.Map
use term_connect.Shared.Set
use term_connect.Shared.Text.{lit}
use term_connect.Transfer.Job.{upload}
use term_connect.Transfer.Queue.State.{TransferQueue, new, shape_of}
use term_connect.Transfer.Queue.Account.{account, account_sets}
use term_connect.Transfer.Queue.Operations.{enqueue, enqueue_job, place_job, new_job}
use term_connect.Transfer.Queue.Start.{startable_limited, finished}
use term_connect.Transfer.Queue.Remove.{remove_jobs}
use term_connect.Transfer.Queue.Reach.{
  Step, Reach, start, next, enqueued, removed, IsConsistent, Reach-IsConsistent,
}
use term_connect.Transfer.Queue.Refine.{Move, view, Step-Move, remove_jobs_lem}
use term_connect.Transfer.Queue.StartProgress.{progress-startable_limited}

abbrev first : TransferQueue
first = (enqueue new 7 upload (lit "a") (lit "/a") (lit "a") 10 (some 0)).0

abbrev both : TransferQueue
both = (enqueue first 7 upload (lit "b") (lit "/b") (lit "b") 20 (some 0)).0

Reach-first : Reach first
unfolding new
Reach-first =
    next start (enqueued 7 upload (lit "a") (lit "/a") (lit "a") 10 (some 0) (omega arith))

next_id-first : first.next_id ≡ 1
unfolding enqueue enqueue_job account account_sets place_job new_job new Map.get Map.insert shape_of
next_id-first = refl

Reach-both : Reach both
Reach-both =
    next Reach-first
      (enqueued 7 upload (lit "b") (lit "/b") (lit "b") 20 (some 0) (omega (arith, next_id-first)))

Reach-IsConsistent_example : IsConsistent (remove_jobs both (0 ∷ []))
Reach-IsConsistent_example = Reach-IsConsistent (next Reach-both (removed (0 ∷ [])))

-- The first job is taken out.
abbrev one_out : Step both (remove_jobs both (0 ∷ []))
one_out = removed (0 ∷ [])

Step-Move_example : Move one_out (view both) (view (remove_jobs both (0 ∷ [])))
Step-Move_example = Step-Move Reach-both one_out

remove_jobs_lem_example :
    Map.get (remove_jobs both (0 ∷ 5 ∷ [])).jobs 1
    ≡ (if Set.contains 1 (0 ∷ 5 ∷ []) then none else Map.get both.jobs 1)
remove_jobs_lem_example =
    remove_jobs_lem both (0 ∷ 5 ∷ []) 1 (Reach-IsConsistent Reach-both).indexed

sets-both : (both.running ≡ []) × (Set.contains 0 both.queued ≡ true)
unfolding enqueue enqueue_job account account_sets place_job new_job new Map.get Map.insert shape_of
    Set.insert
sets-both = (refl, refl)

progress-startable_limited_example :
    (ids : List ℕ) × (startable_limited both 2 (λ _. none) ≡ finished ids) × (is_empty ids ≡ false)
progress-startable_limited_example =
    progress-startable_limited both 2 (λ _. none) 0 (Reach-IsConsistent Reach-both).indexed
      sets-both.0 sets-both.1 (omega arith) (λ session e. cc e)
