-- ===== src/Transfer/Queue/RowRemoval.antt =====
-- `remove_jobs` leaves every job in its row: what the second loop takes out of a row is removed, and a
-- row that loses its key moves to the id of a job of its own.
use Prim.Native.Nat.{ℕ}
use mathlib.Core.Path.{◌≡◌, refl}
use mathlib.Core.Bool.{true, false, not}
use mathlib.Core.Option.{none, some}
use mathlib.Core.List.{List, [], ◌∷◌}
use mathlib.Core.Logic.{inl, inr}
use native.Mathlib.Omega.{arith}
use term_connect.Shared.{◌==◌, ltb, if◌then◌else◌, is_empty, All, Bool-cases, Option-cases}
use term_connect.Shared.Map
use term_connect.Shared.Map.{Map}
use term_connect.Shared.Set
use term_connect.Transfer.Job.{TransferJob}
use term_connect.Transfer.Rows.{RowKind, single, batch, scan}
use term_connect.Transfer.Queue.State.{RowCounters, TransferQueue}
use term_connect.Transfer.Queue.Effects.{
  row_of-account, next_id-account, batch_row-account, members,
}
use term_connect.Transfer.Queue.Index.{IsIndexed}
use term_connect.Transfer.Queue.Operations.{forget_batch_if_empty}
use term_connect.Transfer.Queue.Orders.{lists-account, lists-insert, IsListed}
use term_connect.Transfer.Queue.Removal.{IsPending, lists-lower_total, take_ids-Keeps}
use term_connect.Transfer.Queue.Remove.{
  Removal, note_removed, take_job, take_id, take_ids, forget_row, shrink_row, shrink_rows,
  forget_batches, remove_jobs,
}
use term_connect.Transfer.Queue.Rekey.{
  left, shrunk, left-mine, shrunk-IsIndexed, contains-keep, lists-remove, shrink_row-Keeps,
  skipped-IsPending,
}
use term_connect.Transfer.Queue.RowMoves.{rekey_row-IsRowed}
use term_connect.Transfer.Queue.RowKeys.{IsRowed, carried-IsRowed}

-- What is noted as removed from a row has no row.
abbrev AreGone : Map ℕ → Map (List ℕ) → Type 0
AreGone row_of removed =
    All (λ (row : ℕ × List ℕ). (j : ℕ) → Set.contains j row.1 ≡ true → Map.get row_of j ≡ none)
      removed

gone_later :
    (points points' : Map ℕ) (removed : Map (List ℕ))
    → ((j : ℕ) → Map.get points j ≡ none → Map.get points' j ≡ none)
    → AreGone points removed
    → AreGone points' removed
gone_later points points' [] none_stays h = tt
gone_later points points' (row ∷ removed) none_stays h =
    (λ j listed. none_stays j (h.0 j listed), gone_later points points' removed none_stays h.1)

AreGone-insert :
    (points : Map ℕ) (key : ℕ) (ids : List ℕ) (removed : Map (List ℕ))
    → ((j : ℕ) → Set.contains j ids ≡ true → Map.get points j ≡ none)
    → AreGone points removed
    → AreGone points (Map.insert key ids removed)
unfolding Map.insert
AreGone-insert points key ids [] h more = (h, tt)
AreGone-insert points key ids ((k, js) ∷ removed) h more = elim (Bool-cases (ltb key k)) [
  | inl f ↦ rw f (h, more)
  | inr f ↦ elim (Bool-cases (k == key)) [
    | inl g ↦ rw (f, g) (h, more.1)
    | inr g ↦ rw (f, g) (more.0, AreGone-insert points key ids removed h more.1)
  ]
]

AreGone-get :
    (points : Map ℕ) (key j : ℕ) (removed : Map (List ℕ))
    → AreGone points removed
    → Set.contains j (members (Map.get removed key)) ≡ true
    → Map.get points j ≡ none
unfolding Map.get
AreGone-get points key j [] h listed = cc
AreGone-get points key j ((k, js) ∷ removed) h listed = elim (Bool-cases (k == key)) [
  | inl e ↦ h.0 j (rw e at listed)
  | inr e ↦ AreGone-get points key j removed h.1 (rw e at listed)
]

AreGone-note_removed :
    (points : Map ℕ) (key id : ℕ) (removed : Map (List ℕ))
    → Map.get points id ≡ none
    → AreGone points removed
    → AreGone points (note_removed key id removed)
unfolding note_removed
AreGone-note_removed points key id removed out h = elim (Option-cases (Map.get removed key)) [
  | inl e ↦ rw (e, note_removed) (AreGone-insert points key (Set.insert id []) removed alone h)
  | inr (ids, e) ↦
      rw (e, note_removed) (AreGone-insert points key (Set.insert id ids) removed (beside ids e) h)
]
  where
    alone : (j : ℕ) → Set.contains j (Set.insert id []) ≡ true → Map.get points j ≡ none
    alone j g = ground (arith, g, Set.contains-insert id j [], out)

    beside :
        (ids : List ℕ)
        → Map.get removed key ≡ some ids
        → (j : ℕ) → Set.contains j (Set.insert id ids) ≡ true
        → Map.get points j ≡ none
    beside ids e j g =
        let old : Set.contains j ids ≡ true → Map.get points j ≡ none =
          λ i. AreGone-get points key j removed h (rw e i) in
        ground (arith, g, Set.contains-insert id j ids, out, old)

take_job-IsRowed :
    (r : Removal) (id key : ℕ) (job : TransferJob)
    → IsRowed r.queue
    → AreGone r.queue.row_of r.removed_by_row
    → IsRowed (take_job r id job key).queue
      × AreGone (take_job r id job key).queue.row_of (take_job r id job key).removed_by_row
unfolding take_job
take_job-IsRowed r id key job v g = (
  carried-IsRowed r.queue _ (rw next_id-account refl)
      (λ k j h before. rw (lists-lower_total, lists-account) before)
      (λ j k h. fewer j k (rw (row_of-account, Map.get-remove) at h))
      (λ b k h. rw batch_row-account at h) v,
  AreGone-note_removed _ key id r.removed_by_row
      (rw (row_of-account, Map.get-remove) (ground arith))
      (gone_later r.queue.row_of _ r.removed_by_row
        (λ j out. rw (row_of-account, Map.get-remove) (ground (arith, out))) g),
)
  where
    fewer :
        (j k : ℕ)
        → (if id == j then none else Map.get r.queue.row_of j) ≡ some k
        → Map.get r.queue.row_of j ≡ some k
    fewer j k h = ground (arith, h)

take_id-IsRowed :
    (r : Removal) (id : ℕ)
    → IsRowed r.queue
    → AreGone r.queue.row_of r.removed_by_row
    → IsRowed (take_id r id).queue
      × AreGone (take_id r id).queue.row_of (take_id r id).removed_by_row
unfolding take_id
take_id-IsRowed r id v g = elim (Option-cases (Map.get r.queue.jobs id)) [
  | inl e ↦ rw (e, take_id) (v, g)
  | inr (job, e) ↦ elim (Option-cases (Map.get r.queue.row_of id)) [
    | inl f ↦ rw (e, take_id) (rw (f, take_id) (v, g))
    | inr (key, f) ↦ rw (e, take_id) (rw (f, take_id) (take_job-IsRowed r id key job v g))
  ]
]

take_ids-IsRowed :
    (r : Removal) (ids : List ℕ)
    → IsRowed r.queue
    → AreGone r.queue.row_of r.removed_by_row
    → IsRowed (take_ids r ids).queue
      × AreGone (take_ids r ids).queue.row_of (take_ids r ids).removed_by_row
unfolding take_ids
take_ids-IsRowed r [] v g = (v, g)
take_ids-IsRowed r (id ∷ ids) v g =
    let (v', g') = take_id-IsRowed r id v g in take_ids-IsRowed (take_id r id) ids v' g'

get-forget_row :
    (kind : RowKind) (b k : ℕ) (m : Map ℕ)
    → Map.get (forget_row kind m) b ≡ some k
    → Map.get m b ≡ some k
unfolding forget_row
get-forget_row (single id) b k m h = h
get-forget_row (scan id) b k m h = h
get-forget_row (batch c) b k m h =
    let point : (if c == b then none else Map.get m b) ≡ some k = rw Map.get-remove at h in
    ground (arith, point)

contains-empty : (j : ℕ) (s : List ℕ) → is_empty s ≡ true → Set.contains j s ≡ false
contains-empty j [] h = refl
contains-empty j (i ∷ s) h = cc

-- One row of the second loop, which lists `c.order` and loses the ids of `removed`, none of which has a row.
module _ (r : Removal) (key : ℕ) (removed : List ℕ) (c : RowCounters) (more : Map (List ℕ))
    (at : Map.get r.queue.rows key ≡ some c) (v : IsIndexed r.queue)
    (w : IsPending r.queue ((key, removed) ∷ more)) (u : IsRowed r.queue)
    (g : AreGone r.queue.row_of ((key, removed) ∷ more)) where
  abbrev stay : List ℕ
  stay = left r.queue key removed c more at v w

  stay-all : (j : ℕ) → Map.get r.queue.row_of j ≡ some key → Set.contains j stay ≡ true
  stay-all j h =
      let kept = contains-keep (λ id. not (Set.contains id removed)) c.order j in
      let listed : Set.contains j c.order ≡ true = rw at at (u.covered key j h) in
      ground (arith, kept, listed, h, g.0 j)

  emptied-IsRowed :
      is_empty stay ≡ true
      → (q' : TransferQueue) → q'.next_id ≡ r.queue.next_id
      → q'.rows ≡ Map.remove key r.queue.rows
      → q'.row_of ≡ r.queue.row_of
      → q'.batch_row ≡ forget_row c.kind r.queue.batch_row
      → IsRowed q'
  emptied-IsRowed e q' next rows points batches =
      carried-IsRowed r.queue q' next
        (λ k j h before.
          let placed : Map.get r.queue.row_of j ≡ some k = rw points at h in
          rw (rows, lists-remove)
            (ground (arith, before, placed, stay-all j, contains-empty j stay e)))
        (λ j k h. rw points at h)
        (λ b k h. get-forget_row c.kind b k r.queue.batch_row (rw batches at h)) u

  shrunk-IsRowed : IsRowed (shrunk r.queue key removed c more at v w)
  shrunk-IsRowed =
      carried-IsRowed r.queue (shrunk r.queue key removed c more at v w) refl
        (λ k j h before. rw lists-insert (ground (arith, before, h, stay-all j))) (λ j k h. h)
        (λ b k h. h) u

  shrink_row-IsRowed :
      IsRowed (shrink_row r key removed c).queue
      × AreGone (shrink_row r key removed c).queue.row_of more
  unfolding shrink_row
  shrink_row-IsRowed = elim (Bool-cases (is_empty stay)) [
    | inl e ↦ rw e (emptied-IsRowed e _ refl refl refl refl, g.1)
    | inr e ↦ elim (Bool-cases (Set.contains key removed)) [
      | inl f ↦
          let (rowed, stays) =
            rekey_row-IsRowed (shrunk r.queue key removed c more at v w) key
              (record c { order = stay }) (rw Map.get-insert (ground arith))
              (left-mine r.queue key removed c more at v w) stay-all (g.0 key f)
              (shrunk-IsIndexed r.queue key removed c more at v w) shrunk-IsRowed in
          rw (e, f) (rowed, gone_later r.queue.row_of _ more stays g.1)
      | inr f ↦ rw (e, f) (shrunk-IsRowed, g.1)
    ]
  ]

shrink_rows-IsRowed :
    (r : Removal) (removed : Map (List ℕ))
    → IsIndexed r.queue
    → IsPending r.queue removed
    → IsRowed r.queue
    → AreGone r.queue.row_of removed
    → IsRowed (shrink_rows r removed).queue
unfolding shrink_rows
shrink_rows-IsRowed r [] v w u g = u
shrink_rows-IsRowed r ((key, removed) ∷ more) v w u g =
    elim (Option-cases (Map.get r.queue.rows key)) [
      | inl e ↦
          rw (e, shrink_rows)
            (shrink_rows-IsRowed r more v (skipped-IsPending r.queue key removed more e w) u g.1)
      | inr (c, e) ↦
          let (v', w') = shrink_row-Keeps r key removed c more e v w in
          let (u', g') = shrink_row-IsRowed r key removed c more e v w u g in
          rw (e, shrink_rows) (shrink_rows-IsRowed (shrink_row r key removed c) more v' w' u' g')
    ]

pub forget_batch_if_empty-IsRowed :
    (q : TransferQueue) (b : ℕ) → IsRowed q → IsRowed (forget_batch_if_empty q b)
unfolding forget_batch_if_empty
forget_batch_if_empty-IsRowed q b u = elim (Bool-cases (Map.is_some (Map.get q.batch_row b))) [
  | inl e ↦ rw e u
  | inr e ↦ rw e (carried-IsRowed q _ refl (λ k j h before. before) (λ j k h. h) (λ b k h. h) u)
]

forget_batches-IsRowed :
    (q : TransferQueue) (bs : List ℕ) → IsRowed q → IsRowed (forget_batches q bs)
unfolding forget_batches
forget_batches-IsRowed q [] u = u
forget_batches-IsRowed q (b ∷ bs) u =
    forget_batches-IsRowed (forget_batch_if_empty q b) bs (forget_batch_if_empty-IsRowed q b u)

pub remove_jobs-IsRowed :
    (q : TransferQueue) (ids : List ℕ)
    → IsIndexed q
    → IsListed q
    → IsRowed q
    → IsRowed (remove_jobs q ids)
unfolding remove_jobs
remove_jobs-IsRowed q ids v w u =
    let start : Removal = record {
      queue = q;
      touched_batches = [];
      removed_by_row = [];
      was_finished = [];
    } in
    let (v1, w1) = take_ids-Keeps start ids v (λ key j h. inl (w key j h)) in
    let (u1, g1) = take_ids-IsRowed start ids u tt in
    let taken = take_ids start ids in
    let u2 = shrink_rows-IsRowed taken taken.removed_by_row v1 w1 u1 g1 in
    forget_batches-IsRowed _ (shrink_rows taken taken.removed_by_row).touched_batches (
      carried-IsRowed (shrink_rows taken taken.removed_by_row).queue _ refl (λ k j h before. before)
        (λ j k h. h) (λ b k h. h) u2)
