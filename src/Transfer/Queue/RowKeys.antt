-- ===== src/Transfer/Queue/RowKeys.antt =====
-- Every job is listed by its row. A row has the id of one of its jobs as its key, so that no row is put
-- in the place of another; every operation but removal keeps it so.
use Prim.Native.Nat.{ℕ, ◌+◌, ◌<◌}
use mathlib.Core.Path.{◌≡◌, refl, ap, ◌∙◌, sym}
use mathlib.Core.Bool.{true, ◌||◌}
use mathlib.Core.Option.{Option, none, some, some-injective, none-ne-some}
use mathlib.Core.List.{List, [], ◌∷◌, ◌++◌}
use mathlib.Core.Logic.{◌⊎◌, inl, inr}
use native.Mathlib.Omega.{arith}
use term_connect.Shared.{◌==◌, ltb, if◌then◌else◌, u64_mod, Bool-cases, Option-cases}
use term_connect.Shared.Map
use term_connect.Shared.Map.{Map}
use term_connect.Shared.Set
use term_connect.Shared.Text.{Text}
use term_connect.Transfer.Job.{Direction, JobStatus, TransferJob}
use term_connect.Transfer.Queue.State.{
  max_attempts, RowCounters, new_counters, Shape, TransferQueue, shape_of, new,
}
use term_connect.Transfer.Queue.Account.{reaccount, reconcile, update}
use term_connect.Transfer.Queue.Effects.{row_of-account, next_id-account, batch_row-account}
use term_connect.Transfer.Queue.Index.{IsIndexed}
use term_connect.Transfer.Queue.Operations.{
  row_entry, place_job, new_job, enqueue_job, enqueue, can_retry_id, retried, retry_jobs,
  set_status_each, retry_or_give_up,
}
use term_connect.Transfer.Queue.Orders.{
  lists, order_of, lists-account, lists-insert, lists-update, row_of-update, reconcile-cases,
  contains-append,
}

-- Every job is in the order of its row. The key of the row of a job, and the row of a batch, are ids that
-- were given out, and if a job still has that id, it is in that row.
pub record IsRowed (q : TransferQueue) : Type 0 where
  pub covered : (k j : ℕ) → Map.get q.row_of j ≡ some k → lists q.rows k j ≡ true
  pub rooted : (j k r : ℕ) → Map.get q.row_of j ≡ some k → Map.get q.row_of k ≡ some r → k ≡ r
  pub bounded : (j k : ℕ) → Map.get q.row_of j ≡ some k → k < q.next_id
  pub batch_rooted :
      (b k r : ℕ) → Map.get q.batch_row b ≡ some k → Map.get q.row_of k ≡ some r → k ≡ r
  pub batch_bounded : (b k : ℕ) → Map.get q.batch_row b ≡ some k → k < q.next_id

-- A queue whose rows still list the jobs that they have left, with no more jobs and batches.
pub carried-IsRowed :
    (q q' : TransferQueue)
    → q'.next_id ≡ q.next_id
    → ((k j : ℕ)
        → Map.get q'.row_of j ≡ some k
        → lists q.rows k j ≡ true
        → lists q'.rows k j ≡ true)
    → ((j k : ℕ) → Map.get q'.row_of j ≡ some k → Map.get q.row_of j ≡ some k)
    → ((b k : ℕ) → Map.get q'.batch_row b ≡ some k → Map.get q.batch_row b ≡ some k)
    → IsRowed q
    → IsRowed q'
carried-IsRowed q q' next rows points batches v = record {
  covered = λ k j h. rows k j h (v.covered k j (points j k h));
  rooted = λ j k r h g. v.rooted j k r (points j k h) (points k r g);
  bounded = λ j k h. omega (arith, next, v.bounded j k (points j k h));
  batch_rooted = λ b k r h g. v.batch_rooted b k r (batches b k h) (points k r g);
  batch_bounded = λ b k h. omega (arith, next, v.batch_bounded b k (batches b k h));
}

pub new-IsRowed : IsRowed new
unfolding new Map.get
new-IsRowed = record {
  covered = λ k j h. cc;
  rooted = λ j k r h g. cc;
  bounded = λ j k h. cc;
  batch_rooted = λ b k r h g. cc;
  batch_bounded = λ b k h. cc;
}

reconcile_keeps :
    (q : TransferQueue) (id : ℕ) (before : Shape)
    → ((reconcile q id before).next_id ≡ q.next_id)
      × ((reconcile q id before).batch_row ≡ q.batch_row)
reconcile_keeps q id before = go (reconcile-cases q id before)
  where
    go :
        (reconcile q id before ≡ q)
          ⊎ ((at : ℕ) × (after : Shape) × (reconcile q id before ≡ reaccount q id at before after))
        → ((reconcile q id before).next_id ≡ q.next_id)
          × ((reconcile q id before).batch_row ≡ q.batch_row)
    go (inl e) = rw e (refl, refl)
    go (inr (at, after, e)) = rw e (
        unfold reaccount in
        (
          rw (next_id-account, next_id-account) refl,
          rw (batch_row-account, batch_row-account) refl,
        ))

update_keeps :
    (q : TransferQueue) (id : ℕ) (change : TransferJob → TransferJob)
    → ((update q id change).next_id ≡ q.next_id) × ((update q id change).batch_row ≡ q.batch_row)
unfolding update
update_keeps q id change = elim (Option-cases (Map.get q.jobs id)) [
  | inl e ↦ rw (e, update) (refl, refl)
  | inr (job, e) ↦ rw (e, update) (reconcile_keeps _ id (shape_of job))
]

pub update-IsRowed :
    (q : TransferQueue) (id : ℕ) (change : TransferJob → TransferJob)
    → IsRowed q
    → IsRowed (update q id change)
update-IsRowed q id change v =
    let (next, batches) = update_keeps q id change in
    carried-IsRowed q (update q id change) next (λ k j h g. lists-update q id change k j ∙ g)
      (λ j k h. rw (row_of-update q id change) at h) (λ b k h. rw batches at h) v

row_entry_lem :
    (m : Map ℕ) (o : Option ℕ) (id : ℕ)
    → (((row_entry m o id).0 ≡ id) ⊎ ((b : ℕ) × (Map.get m b ≡ some (row_entry m o id).0)))
      × ((b k : ℕ)
          → Map.get (row_entry m o id).1 b ≡ some k
          → (Map.get m b ≡ some k) ⊎ ((k ≡ id) × ((row_entry m o id).0 ≡ id)))
unfolding row_entry
row_entry_lem m none id = (inl refl, λ b k h. inl h)
row_entry_lem m (some b) id = elim (Option-cases (Map.get m b)) [
  | inl e ↦ rw (e, row_entry) (inl refl, λ c k h. entry c k (rw Map.get-insert at h))
  | inr (key, e) ↦ rw (e, row_entry) (inr (b, e), λ c k h. inl h)
]
  where
    entry :
        (c k : ℕ)
        → (if b == c then some id else Map.get m c) ≡ some k
        → (Map.get m c ≡ some k) ⊎ ((k ≡ id) × (id ≡ id))
    entry c k h = elim (Bool-cases (b == c)) [
      | inl f ↦ inr (sym (some-injective _ _ (rw f at h)), refl)
      | inr f ↦ inl (rw f at h)
    ]

-- A new job in a queue in which no job has its id.
module _ (q : TransferQueue) (job : TransferJob) (v : IsRowed q) (first : job.id ≡ q.next_id)
    (new : Map.get q.row_of job.id ≡ none) (room : q.next_id + 1 < u64_mod) where
  abbrev at : ℕ
  at = (row_entry q.batch_row job.batch_id job.id).0

  row_of-placed : (enqueue_job q job).row_of ≡ Map.insert job.id at q.row_of
  unfolding enqueue_job place_job
  row_of-placed = rw row_of-account refl

  rows_at :
      (c : RowCounters) × ((place_job q job).rows ≡ Map.insert at c q.rows)
      × (c.order ≡ order_of (Map.get q.rows at) ++ job.id ∷ [])
  unfolding place_job new_counters
  rows_at = (_, refl, ground arith)

  lists-placed :
      (k j : ℕ)
      → lists (enqueue_job q job).rows k j
        ≡ (if at == k then lists q.rows k j || job.id == j else lists q.rows k j)
  unfolding enqueue_job
  lists-placed k j =
      let (c, put, more) = rows_at in
      let added = contains-append (order_of (Map.get q.rows at)) job.id j in
      rw (lists-account, put, lists-insert) (ground (arith, ap (Set.contains j) more, added))

  batches-placed :
      (b k : ℕ)
      → Map.get (enqueue_job q job).batch_row b ≡ some k
      → (Map.get q.batch_row b ≡ some k) ⊎ ((k ≡ job.id) × (at ≡ job.id))
  unfolding enqueue_job place_job
  batches-placed b k h =
      (row_entry_lem q.batch_row job.batch_id job.id).1 b k (rw batch_row-account at h)

  next_id-placed : (enqueue_job q job).next_id ≡ q.next_id + 1
  unfolding enqueue_job place_job
  next_id-placed = rw (next_id-account, first) (ground arith)

  at-rooted : (r : ℕ) → Map.get q.row_of at ≡ some r → at ≡ r
  at-rooted r h = elim (row_entry_lem q.batch_row job.batch_id job.id).0 [
    | inl e ↦ absurd (none-ne-some r (sym new ∙ rw e at h))
    | inr (b, e) ↦ v.batch_rooted b at r e h
  ]

  at-bounded : at < q.next_id + 1
  at-bounded = elim (row_entry_lem q.batch_row job.batch_id job.id).0 [
    | inl e ↦ omega (arith, e, first)
    | inr (b, e) ↦ omega (arith, v.batch_bounded b at e)
  ]

  enqueue_job-IsRowed : IsRowed (enqueue_job q job)
  enqueue_job-IsRowed = record {
    covered = λ k j h.
        let point : (if job.id == j then some at else Map.get q.row_of j) ≡ some k =
          rw (row_of-placed, Map.get-insert) at h in
        rw lists-placed (ground (arith, point, v.covered k j));
    rooted = λ j k r h g.
        let point : (if job.id == j then some at else Map.get q.row_of j) ≡ some k =
          rw (row_of-placed, Map.get-insert) at h in
        let next : (if job.id == k then some at else Map.get q.row_of k) ≡ some r =
          rw (row_of-placed, Map.get-insert) at g in
        ground (arith, point, next, first, v.rooted j k r, v.bounded j k, at-rooted r);
    bounded = λ j k h.
        let point : (if job.id == j then some at else Map.get q.row_of j) ≡ some k =
          rw (row_of-placed, Map.get-insert) at h in
        rw next_id-placed (ground (arith, point, v.bounded j k, at-bounded));
    batch_rooted = λ b k r h g.
        let next : (if job.id == k then some at else Map.get q.row_of k) ≡ some r =
          rw (row_of-placed, Map.get-insert) at g in
        elim (batches-placed b k h) [
          | inl e ↦ ground (arith, next, first, v.batch_rooted b k r e, v.batch_bounded b k e)
          | inr (e, f) ↦ ground (arith, next, e, f)
        ];
    batch_bounded = λ b k h. rw next_id-placed (elim (batches-placed b k h) [
      | inl e ↦ omega (arith, v.batch_bounded b k e)
      | inr e ↦ omega (arith, e.0, first)
    ]);
  }

pub enqueue-IsRowed :
    (q : TransferQueue) (session : ℕ) (direction : Direction) (local_path remote_path name : Text)
    (bytes : ℕ) (batch_id : Option ℕ)
    → IsIndexed q
    → IsRowed q
    → q.next_id + 1 < u64_mod
    → IsRowed (enqueue q session direction local_path remote_path name bytes batch_id).0
unfolding enqueue new_job
enqueue-IsRowed q session direction local_path remote_path name bytes batch_id v u room =
    let empty : Map.get q.jobs q.next_id ≡ none = v.fresh q.next_id (omega arith) in
    enqueue_job-IsRowed q
      (new_job q.next_id session direction local_path remote_path name bytes batch_id) u refl
      (ground (arith, v.covered q.next_id, empty)) room

pub set_status_each-IsRowed :
    (status : JobStatus) (q : TransferQueue) (ids : List ℕ)
    → IsRowed q
    → IsRowed (set_status_each status q ids)
unfolding set_status_each
set_status_each-IsRowed status q [] v = v
set_status_each-IsRowed status q (id ∷ ids) v =
    set_status_each-IsRowed status (update q id (λ job. record job { status = status })) ids
      (update-IsRowed q id (λ job. record job { status = status }) v)

pub retry_jobs-IsRowed :
    (q : TransferQueue) (ids : List ℕ) → IsRowed q → IsRowed (retry_jobs q ids).0
unfolding retry_jobs
retry_jobs-IsRowed q [] v = v
retry_jobs-IsRowed q (id ∷ ids) v = elim (Bool-cases (can_retry_id q id)) [
  | inl e ↦
      let more = retry_jobs-IsRowed (update q id retried) ids (update-IsRowed q id retried v) in
      rw e more
  | inr e ↦ rw e (retry_jobs-IsRowed q ids v)
]

pub retry_or_give_up-IsRowed :
    (q : TransferQueue) (id : ℕ) → IsRowed q → IsRowed (retry_or_give_up q id).0
unfolding retry_or_give_up
retry_or_give_up-IsRowed q id v = elim (Option-cases (Map.get q.jobs id)) [
  | inl e ↦ rw (e, retry_or_give_up) v
  | inr (job, e) ↦
      rw (e, retry_or_give_up)
        (elim (Bool-cases (ltb job.attempts max_attempts)) [
          | inl f ↦
              rw f
                (update-IsRowed q id (λ j. record j { status = JobStatus.queued; resume = true }) v)
          | inr f ↦ rw f v
        ])
]
