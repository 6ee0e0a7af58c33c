-- ===== src/Transfer/Queue/Orders.antt =====
-- What a row lists: every id in the order of a row is a job of that row, and every operation but
-- removal keeps it so.
use Prim.Native.Nat.{ℕ}
use mathlib.Core.Path.{◌≡◌, refl, ap, ◌∙◌}
use mathlib.Core.Bool.{Bool, true, false, ◌||◌}
use mathlib.Core.Option.{Option, none, some}
use mathlib.Core.List.{List, [], ◌∷◌, ◌++◌}
use mathlib.Core.Logic.{◌⊎◌, inl, inr, if_pos, if_neg}
use native.Mathlib.Omega.{arith}
use term_connect.Shared.{◌==◌, ltb, if◌then◌else◌, Bool-cases, Option-cases}
use term_connect.Shared.Map
use term_connect.Shared.Map.{Map}
use term_connect.Shared.Set
use term_connect.Shared.Text.{Text}
use term_connect.Transfer.Job.{Direction, JobStatus, TransferJob}
use term_connect.Transfer.Queue.State.{
  max_attempts, RowCounters, Shape, Shape-discrete, shape_of, new_counters, change_slot,
  TransferQueue, new,
}
use term_connect.Transfer.Queue.Account.{
  account, account_sets, account_row, account_counters, reaccount, reconcile, update,
}
use term_connect.Transfer.Queue.Effects.{row_of-account}
use term_connect.Transfer.Queue.Index.{IsIndexed}
use term_connect.Transfer.Queue.Operations.{
  place_job, new_job, enqueue_job, enqueue, can_retry_id, retried, retry_jobs, set_status_each,
  retry_or_give_up,
}

abbrev pub order_of : Option RowCounters → List ℕ
order_of none = []
order_of (some c) = c.order

abbrev pub lists : Map RowCounters → ℕ → ℕ → Bool
lists rows key id = Set.contains id (order_of (Map.get rows key))

-- Each id that a row lists is a job of that row.
abbrev pub IsListed : TransferQueue → Type 0
IsListed q = (key id : ℕ) → lists q.rows key id ≡ true → Map.get q.row_of id ≡ some key

pub lists-insert :
    (rows : Map RowCounters) (k key id : ℕ) (c : RowCounters)
    → lists (Map.insert k c rows) key id
      ≡ (if k == key then Set.contains id c.order else lists rows key id)
lists-insert rows k key id c = rw Map.get-insert (ground arith)

order-account_counters :
    (shape : Shape) (add : Bool) (c : RowCounters) → (account_counters shape add c).order ≡ c.order
unfolding account_counters change_slot
order-account_counters shape true c = ground arith
order-account_counters shape false c = ground arith

lists-account_row :
    (at : ℕ) (shape : Shape) (add : Bool) (rows : Map RowCounters) (key j : ℕ)
    → lists (account_row at shape add rows) key j ≡ lists rows key j
unfolding account_row
lists-account_row at shape add rows key j = elim (Option-cases (Map.get rows at)) [
  | inl e ↦ rw (e, account_row) refl
  | inr (c, e) ↦
      rw (e, account_row)
        (lists-insert rows at key j (account_counters shape add c)
          ∙ ground (arith, e, order-account_counters shape add c))
]

pub lists-account :
    (q : TransferQueue) (id : ℕ) (shape : Shape) (add : Bool) (key j : ℕ)
    → lists (account q id shape add).rows key j ≡ lists q.rows key j
unfolding account account_sets
lists-account q id shape add key j = elim (Option-cases (Map.get q.row_of id)) [
  | inl e ↦ rw (e, account) refl
  | inr (at, e) ↦ rw (e, account) (lists-account_row at shape add q.rows key j)
]

lists-reaccount :
    (q : TransferQueue) (id at : ℕ) (before after : Shape) (key j : ℕ)
    → lists (reaccount q id at before after).rows key j ≡ lists q.rows key j
unfolding reaccount
lists-reaccount q id at before after key j =
    lists-account (account q id before false) id after true key j
    ∙ lists-account q id before false key j

pub reconcile-cases :
    (q : TransferQueue) (id : ℕ) (before : Shape)
    → (reconcile q id before ≡ q)
      ⊎ ((at : ℕ) × (after : Shape) × (reconcile q id before ≡ reaccount q id at before after))
unfolding reconcile
reconcile-cases q id before = elim (Option-cases (Map.get q.jobs id)) [
  | inl e ↦ inl (ground (arith, e))
  | inr (job, e) ↦ elim (Shape-discrete (shape_of job) before) [
    | yes same ↦ inl (rw (e, reconcile) (rw (if_pos _ same) refl))
    | no other ↦ elim (Option-cases (Map.get q.row_of id)) [
      | inl f ↦ inl (rw (e, reconcile) (rw (if_neg _ other) (rw (f, reconcile) refl)))
      | inr (at, f) ↦
          inr (at, shape_of job, rw (e, reconcile) (rw (if_neg _ other) (rw (f, reconcile) refl)))
    ]
  ]
]

lists-reconcile :
    (q : TransferQueue) (id : ℕ) (before : Shape) (key j : ℕ)
    → lists (reconcile q id before).rows key j ≡ lists q.rows key j
lists-reconcile q id before key j = go (reconcile-cases q id before)
  where
    go :
        (reconcile q id before ≡ q)
          ⊎ ((at : ℕ) × (after : Shape) × (reconcile q id before ≡ reaccount q id at before after))
        → lists (reconcile q id before).rows key j ≡ lists q.rows key j
    go (inl e) = rw e refl
    go (inr (at, after, e)) = rw (e, lists-reaccount) refl

row_of-reconcile :
    (q : TransferQueue) (id : ℕ) (before : Shape) → (reconcile q id before).row_of ≡ q.row_of
row_of-reconcile q id before = go (reconcile-cases q id before)
  where
    go :
        (reconcile q id before ≡ q)
          ⊎ ((at : ℕ) × (after : Shape) × (reconcile q id before ≡ reaccount q id at before after))
        → (reconcile q id before).row_of ≡ q.row_of
    go (inl e) = rw e refl
    go (inr (at, after, e)) = rw e (unfold reaccount in rw (row_of-account, row_of-account) refl)

pub lists-update :
    (q : TransferQueue) (id : ℕ) (change : TransferJob → TransferJob) (key j : ℕ)
    → lists (update q id change).rows key j ≡ lists q.rows key j
unfolding update
lists-update q id change key j = elim (Option-cases (Map.get q.jobs id)) [
  | inl e ↦ rw (e, update) refl
  | inr (job, e) ↦ rw (e, update) (lists-reconcile _ id (shape_of job) key j)
]

pub row_of-update :
    (q : TransferQueue) (id : ℕ) (change : TransferJob → TransferJob)
    → (update q id change).row_of ≡ q.row_of
unfolding update
row_of-update q id change = elim (Option-cases (Map.get q.jobs id)) [
  | inl e ↦ rw (e, update) refl
  | inr (job, e) ↦ rw (e, update) (row_of-reconcile _ id (shape_of job))
]

pub update-IsListed :
    (q : TransferQueue) (id : ℕ) (change : TransferJob → TransferJob)
    → IsListed q
    → IsListed (update q id change)
update-IsListed q id change v key j h =
    rw (row_of-update q id change) (v key j (rw (lists-update q id change key j) at h))

pub contains-append :
    (xs : List ℕ) (id j : ℕ) → Set.contains j (xs ++ id ∷ []) ≡ (Set.contains j xs || id == j)
contains-append [] id j = ground arith
contains-append (x ∷ xs) id j = ground (arith, contains-append xs id j)

pub rows-place_job :
    (q : TransferQueue) (job : TransferJob)
    → (at : ℕ) × (c : RowCounters) × ((place_job q job).rows ≡ Map.insert at c q.rows)
      × (c.order ≡ order_of (Map.get q.rows at) ++ job.id ∷ [])
      × ((place_job q job).row_of ≡ Map.insert job.id at q.row_of)
unfolding place_job new_counters
rows-place_job q job = (_, _, refl, ground arith, refl)

enqueue_job-IsListed :
    (q : TransferQueue) (job : TransferJob)
    → Map.get q.row_of job.id ≡ none
    → IsListed q
    → IsListed (enqueue_job q job)
unfolding enqueue_job
enqueue_job-IsListed q job new v key j h =
    let (at, c, put, more, point) = rows-place_job q job in
    let added = contains-append (order_of (Map.get q.rows at)) job.id j in
    let listed : (if at == key then Set.contains j c.order else lists q.rows key j) ≡ true =
      rw (lists-account, put, lists-insert) at h in
    rw (row_of-account, point, Map.get-insert)
      (ground (arith, listed, ap (Set.contains j) more, added, v key j, new))

pub set_status_each-IsListed :
    (status : JobStatus) (q : TransferQueue) (ids : List ℕ)
    → IsListed q
    → IsListed (set_status_each status q ids)
unfolding set_status_each
set_status_each-IsListed status q [] v = v
set_status_each-IsListed status q (id ∷ ids) v =
    set_status_each-IsListed status (update q id (λ job. record job { status = status })) ids
      (update-IsListed q id (λ job. record job { status = status }) v)

pub retry_jobs-IsListed :
    (q : TransferQueue) (ids : List ℕ) → IsListed q → IsListed (retry_jobs q ids).0
unfolding retry_jobs
retry_jobs-IsListed q [] v = v
retry_jobs-IsListed q (id ∷ ids) v = elim (Bool-cases (can_retry_id q id)) [
  | inl e ↦
      let more = retry_jobs-IsListed (update q id retried) ids (update-IsListed q id retried v) in
      rw e more
  | inr e ↦ rw e (retry_jobs-IsListed q ids v)
]

pub retry_or_give_up-IsListed :
    (q : TransferQueue) (id : ℕ) → IsListed q → IsListed (retry_or_give_up q id).0
unfolding retry_or_give_up
retry_or_give_up-IsListed q id v = elim (Option-cases (Map.get q.jobs id)) [
  | inl e ↦ rw (e, retry_or_give_up) v
  | inr (job, e) ↦
      rw (e, retry_or_give_up)
        (elim (Bool-cases (ltb job.attempts max_attempts)) [
          | inl f ↦
              rw f (
                update-IsListed q id (λ j. record j { status = JobStatus.queued; resume = true }) v)
          | inr f ↦ rw f v
        ])
]

pub enqueue-IsListed :
    (q : TransferQueue) (session : ℕ) (direction : Direction) (local_path remote_path name : Text)
    (bytes : ℕ) (batch_id : Option ℕ)
    → IsIndexed q
    → IsListed q
    → IsListed (enqueue q session direction local_path remote_path name bytes batch_id).0
unfolding enqueue new_job
enqueue-IsListed q session direction local_path remote_path name bytes batch_id v =
    let empty : Map.get q.jobs q.next_id ≡ none = v.fresh q.next_id (omega arith) in
    enqueue_job-IsListed q
      (new_job q.next_id session direction local_path remote_path name bytes batch_id)
      (ground (arith, v.covered q.next_id, empty))
