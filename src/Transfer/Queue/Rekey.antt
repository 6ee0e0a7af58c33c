-- ===== src/Transfer/Queue/Rekey.antt =====
-- The second loop of `remove_jobs` leaves the indices and the rows right, and so does the whole.
use Prim.Native.Nat.{ℕ}
use mathlib.Core.Path.{◌≡◌, refl, sym}
use mathlib.Core.Bool.{Bool, true, false, ◌&&◌, not}
use mathlib.Core.Option.{none, some}
use mathlib.Core.List.{List, [], ◌∷◌}
use mathlib.Core.Logic.{◌⊎◌, inl, inr}
use native.Mathlib.Omega.{arith}
use term_connect.Shared.{◌==◌, if◌then◌else◌, keep, is_empty, Bool-cases, Option-cases}
use term_connect.Shared.Map
use term_connect.Shared.Map.{Map}
use term_connect.Shared.Set
use term_connect.Transfer.Queue.State.{RowCounters, TransferQueue}
use term_connect.Transfer.Queue.Operations.{forget_batch_if_empty}
use term_connect.Transfer.Queue.Effects.{members}
use term_connect.Transfer.Queue.Index.{IsIndexed}
use term_connect.Transfer.Queue.Orders.{lists, IsListed, lists-insert}
use term_connect.Transfer.Queue.Removal.{IsPending, take_ids-Keeps}
use term_connect.Transfer.Queue.Remove.{
  Removal, take_ids, point_to, move_row, rekey_by_order, rekey_row, shrink_row, shrink_rows,
  forget_batches, remove_jobs, first_shown, relabelled,
}

-- A queue with the same jobs and sets, in which the same jobs have rows, is as right.
module _ (q q' : TransferQueue) (v : IsIndexed q) (jobs : q'.jobs ≡ q.jobs)
    (next : q'.next_id ≡ q.next_id) (running : q'.running ≡ q.running)
    (queued : q'.queued ≡ q.queued) (sessions : q'.queued_by_session ≡ q.queued_by_session)
    (rows : (id : ℕ) → Map.is_some (Map.get q'.row_of id) ≡ Map.is_some (Map.get q.row_of id)) where
  pub carried-IsIndexed : IsIndexed q'
  carried-IsIndexed = record {
    keyed = λ id job. rw jobs (v.keyed id job);
    fresh = λ id. rw (jobs, next) (v.fresh id);
    covered = λ id. rw (rows id, jobs) (v.covered id);
    running = λ id. rw (running, jobs) (v.running id);
    queued = λ id. rw (queued, jobs) (v.queued id);
    by_session = λ s id. rw (sessions, jobs) (v.by_session s id);
    jobs_sorted = rw jobs v.jobs_sorted;
    sessions_sorted = rw sessions v.sessions_sorted;
  }

pub get-point_to :
    (key : ℕ) (ids : List ℕ) (m : Map ℕ) (j : ℕ)
    → Map.get (point_to key ids m) j ≡ (if Set.contains j ids then some key else Map.get m j)
unfolding point_to
get-point_to key [] m j = refl
get-point_to key (id ∷ ids) m j =
    rw (get-point_to key ids (Map.insert id key m) j, Map.get-insert) (ground arith)

pub contains-keep :
    (p : ℕ → Bool) (ids : List ℕ) (j : ℕ)
    → Set.contains j (keep p ids) ≡ (Set.contains j ids && p j)
contains-keep p [] j = refl
contains-keep p (id ∷ ids) j = elim (Bool-cases (id == j)) [
  | inl e ↦ let same : id ≡ j = ground (arith, e) in rw same (ground (arith, contains-keep p ids j))
  | inr e ↦ ground (arith, e, contains-keep p ids j)
]

pub order-first_shown :
    (q : TransferQueue) (key : ℕ) (c : RowCounters) → (first_shown q key c).order ≡ c.order
unfolding first_shown relabelled
order-first_shown q key c = ground arith

pub lists-remove :
    (rows : Map RowCounters) (k key j : ℕ)
    → lists (Map.remove k rows) key j ≡ (if k == key then false else lists rows key j)
lists-remove rows k key j = rw Map.get-remove (ground arith)

-- Moving a row to another key, where all that it lists are jobs of the row.
module _ (q : TransferQueue) (old_key new_key : ℕ) (c : RowCounters)
    (mine : (j : ℕ) → Set.contains j c.order ≡ true → Map.get q.row_of j ≡ some old_key) where
  move_row-IsIndexed : IsIndexed q → IsIndexed (move_row q old_key c new_key)
  unfolding move_row
  move_row-IsIndexed v =
      carried-IsIndexed q (move_row q old_key c new_key) v refl refl refl refl refl
        (λ j. rw get-point_to (ground (arith, mine j)))

  move_row-IsPending :
      (removed : Map (List ℕ))
      → ((key j : ℕ)
          → (key == old_key) ≡ false
          → lists q.rows key j ≡ true
          → (Map.get q.row_of j ≡ some key)
            ⊎ (Set.contains j (members (Map.get removed key)) ≡ true))
      → IsPending (move_row q old_key c new_key) removed
  unfolding move_row
  move_row-IsPending removed w key j h =
      let listed : (if new_key == key
            then Set.contains j c.order
            else if old_key == key
            then false
            else lists q.rows key j)
          ≡ true =
        rw (lists-insert, order-first_shown, lists-remove) at h in
      rw get-point_to (elim (Bool-cases (Set.contains j c.order)) [
        | inl e ↦ elim (Bool-cases (new_key == key)) [
          | inl f ↦ inl (ground (arith, e, f))
          | inr f ↦
              let other : (key == old_key) ≡ false = ground (arith, listed, f) in
              let there : lists q.rows key j ≡ true = ground (arith, listed, f) in
              elim (w key j other there) [
                | inl placed ↦ ground (arith, placed, mine j e, other)
                | inr gone ↦ inr gone
              ]
        ]
        | inr e ↦
            let away : (new_key == key) ≡ false = ground (arith, listed, e) in
            let other : (key == old_key) ≡ false = ground (arith, listed, away) in
            let there : lists q.rows key j ≡ true = ground (arith, listed, away) in
            rw e (w key j other there)
      ])

-- What the rows but one list.
abbrev OthersPending : TransferQueue → ℕ → Map (List ℕ) → Type 0
OthersPending q key removed =
    (k j : ℕ)
    → (k == key) ≡ false
    → lists q.rows k j ≡ true
    → (Map.get q.row_of j ≡ some k) ⊎ (Set.contains j (members (Map.get removed k)) ≡ true)

dropped-IsPending :
    (q : TransferQueue) (key : ℕ) (removed : Map (List ℕ))
    → OthersPending q key removed
    → IsPending (record q { rows = Map.remove key q.rows }) removed
dropped-IsPending q key removed w k j h =
    let listed : (if key == k then false else lists q.rows k j) ≡ true = rw lists-remove at h in
    let other : (k == key) ≡ false = ground (arith, listed) in
    let there : lists q.rows k j ≡ true = ground (arith, listed) in w k j other there

rekey_row-Keeps :
    (q : TransferQueue) (key : ℕ) (c : RowCounters) (removed : Map (List ℕ))
    → Map.get q.rows key ≡ some c
    → ((j : ℕ) → Set.contains j c.order ≡ true → Map.get q.row_of j ≡ some key)
    → IsIndexed q
    → OthersPending q key removed
    → IsIndexed (rekey_row q key) × IsPending (rekey_row q key) removed
unfolding rekey_row
rekey_row-Keeps q key c removed at mine v w = rw (at, rekey_row) (go c.order)
  where
    go :
        (ids : List ℕ)
        → IsIndexed (rekey_by_order q key c ids) × IsPending (rekey_by_order q key c ids) removed
    go [] = (
      carried-IsIndexed q (record q { rows = Map.remove key q.rows }) v refl refl refl refl refl
          (λ j. refl),
      dropped-IsPending q key removed w,
    )
    go (new_key ∷ ids) = (
      move_row-IsIndexed q key new_key c mine v,
      move_row-IsPending q key new_key c mine removed w,
    )

-- One row of the second loop, which lists `c.order` and loses the ids of `removed`.
module _ (q : TransferQueue) (key : ℕ) (removed : List ℕ) (c : RowCounters) (more : Map (List ℕ))
    (at : Map.get q.rows key ≡ some c) (v : IsIndexed q)
    (w : IsPending q ((key, removed) ∷ more)) where
  abbrev pub left : List ℕ
  left = keep (λ id. not (Set.contains id removed)) c.order

  abbrev pub shrunk : TransferQueue
  shrunk = record q { rows = Map.insert key (record c { order = left }) q.rows }

  pub left-mine : (j : ℕ) → Set.contains j left ≡ true → Map.get q.row_of j ≡ some key
  unfolding Map.get
  left-mine j h =
      let kept = contains-keep (λ id. not (Set.contains id removed)) c.order j in
      let listed : lists q.rows key j ≡ true = rw at (ground (arith, kept, h)) in
      elim (w key j listed) [ inl placed ↦ placed | inr gone ↦ ground (arith, gone, kept, h) ]

  others : OthersPending q key more
  unfolding Map.get
  others k j h listed = elim (w k j listed) [
    | inl placed ↦ inl placed
    | inr gone ↦ inr (ground (arith, gone, h))
  ]

  pub shrunk-IsIndexed : IsIndexed shrunk
  shrunk-IsIndexed = carried-IsIndexed q shrunk v refl refl refl refl refl (λ j. refl)

  shrunk-others : OthersPending shrunk key more
  shrunk-others k j h listed =
      let there : (if key == k then Set.contains j left else lists q.rows k j) ≡ true =
        rw lists-insert at listed in
      others k j h (ground (arith, there, h))

  shrunk-IsPending : IsPending shrunk more
  shrunk-IsPending k j listed =
      let there : (if key == k then Set.contains j left else lists q.rows k j) ≡ true =
        rw lists-insert at listed in
      elim (Bool-cases (key == k)) [
        | inl e ↦
            let same : key ≡ k = ground (arith, e) in
            inl (rw (sym same) (left-mine j (ground (arith, there, e))))
        | inr e ↦ others k j (ground (arith, e)) (ground (arith, there, e))
      ]

pub shrink_row-Keeps :
    (r : Removal) (key : ℕ) (removed : List ℕ) (c : RowCounters) (more : Map (List ℕ))
    → Map.get r.queue.rows key ≡ some c
    → IsIndexed r.queue
    → IsPending r.queue ((key, removed) ∷ more)
    → IsIndexed (shrink_row r key removed c).queue
      × IsPending (shrink_row r key removed c).queue more
unfolding shrink_row
shrink_row-Keeps r key removed c more at v w =
    let q = r.queue in
    elim (Bool-cases (is_empty (left q key removed c more at v w))) [
      | inl e ↦ rw e (
        carried-IsIndexed q _ v refl refl refl refl refl (λ j. refl),
        dropped-IsPending q key more (others q key removed c more at v w),
      )
      | inr e ↦ elim (Bool-cases (Set.contains key removed)) [
        | inl f ↦
            rw (e, f)
              (rekey_row-Keeps (shrunk q key removed c more at v w) key
                (record c { order = left q key removed c more at v w }) more
                (rw Map.get-insert (ground arith)) (left-mine q key removed c more at v w)
                (shrunk-IsIndexed q key removed c more at v w)
                (shrunk-others q key removed c more at v w))
        | inr f ↦
            rw (e, f)
              (
                shrunk-IsIndexed q key removed c more at v w,
                shrunk-IsPending q key removed c more at v w,
              )
      ]
    ]

pub skipped-IsPending :
    (q : TransferQueue) (key : ℕ) (removed : List ℕ) (more : Map (List ℕ))
    → Map.get q.rows key ≡ none
    → IsPending q ((key, removed) ∷ more)
    → IsPending q more
unfolding Map.get
skipped-IsPending q key removed more e w k j h = elim (w k j h) [
  | inl placed ↦ inl placed
  | inr gone ↦ inr (ground (arith, gone, e, h))
]

shrink_rows-Keeps :
    (r : Removal) (removed : Map (List ℕ))
    → IsIndexed r.queue
    → IsPending r.queue removed
    → IsIndexed (shrink_rows r removed).queue × IsPending (shrink_rows r removed).queue []
unfolding shrink_rows
shrink_rows-Keeps r [] v w = (v, w)
shrink_rows-Keeps r ((key, removed) ∷ more) v w = elim (Option-cases (Map.get r.queue.rows key)) [
  | inl e ↦
      rw (e, shrink_rows)
        (shrink_rows-Keeps r more v (skipped-IsPending r.queue key removed more e w))
  | inr (c, e) ↦
      let (v', w') = shrink_row-Keeps r key removed c more e v w in
      rw (e, shrink_rows) (shrink_rows-Keeps (shrink_row r key removed c) more v' w')
]

pub forget_batch_if_empty-Keeps :
    (q : TransferQueue) (b : ℕ)
    → IsIndexed q
    → IsListed q
    → IsIndexed (forget_batch_if_empty q b) × IsListed (forget_batch_if_empty q b)
unfolding forget_batch_if_empty
forget_batch_if_empty-Keeps q b v w =
    let points : (forget_batch_if_empty q b).row_of ≡ q.row_of = ground arith in
    let rows : (forget_batch_if_empty q b).rows ≡ q.rows = ground arith in
    (
      carried-IsIndexed q (forget_batch_if_empty q b) v (ground arith) (ground arith) (ground arith)
          (ground arith) (ground arith) (λ j. rw points refl),
      rw (rows, points) w,
    )

forget_batches-Keeps :
    (q : TransferQueue) (bs : List ℕ)
    → IsIndexed q
    → IsListed q
    → IsIndexed (forget_batches q bs) × IsListed (forget_batches q bs)
unfolding forget_batches
forget_batches-Keeps q [] v w = (v, w)
forget_batches-Keeps q (b ∷ bs) v w =
    let (v', w') = forget_batch_if_empty-Keeps q b v w in
    forget_batches-Keeps (forget_batch_if_empty q b) bs v' w'

-- When no removals are left, every id listed is placed.
all_placed : (q : TransferQueue) → IsPending q [] → IsListed q
unfolding Map.get
all_placed q w key j h = elim (w key j h) [ inl placed ↦ placed | inr gone ↦ cc ]

pub remove_jobs-Keeps :
    (q : TransferQueue) (ids : List ℕ)
    → IsIndexed q
    → IsListed q
    → IsIndexed (remove_jobs q ids) × IsListed (remove_jobs q ids)
unfolding remove_jobs
remove_jobs-Keeps q ids v w =
    let start : Removal = record {
      queue = q;
      touched_batches = [];
      removed_by_row = [];
      was_finished = [];
    } in
    let (v1, w1) = take_ids-Keeps start ids v (λ key j h. inl (w key j h)) in
    let taken = take_ids start ids in
    let (v2, w2) = shrink_rows-Keeps taken taken.removed_by_row v1 w1 in
    forget_batches-Keeps _ (shrink_rows taken taken.removed_by_row).touched_batches
      (carried-IsIndexed (shrink_rows taken taken.removed_by_row).queue _ v2 refl refl refl refl
        refl (λ j. refl))
      (all_placed (shrink_rows taken taken.removed_by_row).queue w2)
