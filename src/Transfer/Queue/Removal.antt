-- ===== src/Transfer/Queue/Removal.antt =====
-- `remove_jobs` leaves the indices and the rows right: the first loop takes the jobs out, the second
-- takes their ids out of the rows and moves a row that loses its key.
use Prim.Native.Nat.{ℕ}
use mathlib.Core.Path.{◌≡◌, refl, ◌∙◌}
use mathlib.Core.Bool.{true, false, ◌||◌, ◌&&◌}
use mathlib.Core.Option.{some}
use mathlib.Core.List.{List, [], ◌∷◌}
use mathlib.Core.Logic.{◌⊎◌, inl, inr}
use native.Mathlib.Omega.{arith}
use term_connect.Shared.{◌==◌, Option-cases}
use term_connect.Shared.Map
use term_connect.Shared.Map.{Map}
use term_connect.Shared.Set
use term_connect.Transfer.Job.{TransferJob}
use term_connect.Transfer.Queue.State.{RowCounters, shape_of, TransferQueue}
use term_connect.Transfer.Queue.Effects.{
  members, running-account-false, queued-account-false, session-account-false, jobs-account,
  row_of-account, next_id-account, account-IsSorted,
}
use term_connect.Transfer.Queue.Index.{IsIndexed, row_of_job}
use term_connect.Transfer.Queue.Orders.{lists, lists-insert, lists-account}
use term_connect.Transfer.Queue.Remove.{
  Removal, note_removed, lower_total, take_job, take_id, take_ids,
}

module _ (r : Removal) (id key : ℕ) (job : TransferJob) (v : IsIndexed r.queue)
    (was : Map.get r.queue.jobs id ≡ some job) (at : Map.get r.queue.row_of id ≡ some key) where
  take_job-IsIndexed : IsIndexed (take_job r id job key).queue
  unfolding take_job shape_of
  take_job-IsIndexed =
      let shape = shape_of job in
      record {
        keyed = λ j k. rw (jobs-account, Map.get-remove) (ground (arith, v.keyed j k));
        fresh = λ j. rw (jobs-account, next_id-account, Map.get-remove) (ground (arith, v.fresh j));
        covered = λ j.
            rw (jobs-account, row_of-account, Map.get-remove, Map.get-remove)
              (ground (arith, v.covered j));
        running = λ j.
            rw
              (
                running-account-false r.queue id key shape at j,
                v.running j,
                jobs-account,
                Map.get-remove,
              )
              (ground (arith, was));
        queued = λ j.
            rw
              (
                queued-account-false r.queue id key shape at j,
                v.queued j,
                jobs-account,
                Map.get-remove,
              )
              (ground (arith, was));
        by_session = λ s j.
            rw
              (
                session-account-false r.queue id key shape at s j,
                v.by_session s j,
                jobs-account,
                Map.get-remove,
              )
              (ground (arith, was));
        jobs_sorted = rw jobs-account (Map.remove-IsSorted id r.queue.jobs v.jobs_sorted);
        sessions_sorted = account-IsSorted r.queue id shape false v.sessions_sorted;
      }

-- Each id that a row lists is a job of that row, or is noted as removed from it.
abbrev pub IsPending : TransferQueue → Map (List ℕ) → Type 0
IsPending q removed =
    (key id : ℕ)
    → lists q.rows key id ≡ true
    → (Map.get q.row_of id ≡ some key) ⊎ (Set.contains id (members (Map.get removed key)) ≡ true)

pub lists-lower_total :
    (at bytes : ℕ) (rows : Map RowCounters) (key j : ℕ)
    → lists (lower_total at bytes rows) key j ≡ lists rows key j
unfolding lower_total
lists-lower_total at bytes rows key j = elim (Option-cases (Map.get rows at)) [
  | inl e ↦ rw (e, lower_total) refl
  | inr (c, e) ↦ rw (e, lower_total) (lists-insert rows at key j _ ∙ ground (arith, e))
]

contains-note_removed :
    (key id k j : ℕ) (m : Map (List ℕ))
    → Set.contains j (members (Map.get (note_removed key id m) k))
      ≡ (key == k && id == j || Set.contains j (members (Map.get m k)))
unfolding note_removed
contains-note_removed key id k j m = elim (Option-cases (Map.get m key)) [
  | inl e ↦
      rw (e, note_removed) (rw Map.get-insert (ground (arith, e, Set.contains-insert id j [])))
  | inr (ids, e) ↦
      rw (e, note_removed) (rw Map.get-insert (ground (arith, e, Set.contains-insert id j ids)))
]

pub take_job-IsPending :
    (r : Removal) (id key : ℕ) (job : TransferJob)
    → Map.get r.queue.row_of id ≡ some key
    → IsPending r.queue r.removed_by_row
    → IsPending (take_job r id job key).queue (take_job r id job key).removed_by_row
unfolding take_job
take_job-IsPending r id key job at v k j h =
    let q = r.queue in
    let before : lists q.rows k j ≡ true = rw (lists-lower_total, lists-account) at h in
    rw (row_of-account, Map.get-remove, contains-note_removed)
      (elim (v k j before) [
        | inl placed ↦ ground (arith, placed, at)
        | inr gone ↦ inr (ground (arith, gone))
      ])

pub take_id-IsIndexed : (r : Removal) (id : ℕ) → IsIndexed r.queue → IsIndexed (take_id r id).queue
unfolding take_id
take_id-IsIndexed r id v = elim (Option-cases (Map.get r.queue.jobs id)) [
  | inl e ↦ rw (e, take_id) v
  | inr (job, e) ↦
      let (key, at) = row_of_job r.queue id job v e in
      rw (e, take_id) (rw (at, take_id) (take_job-IsIndexed r id key job v e at))
]

take_id-IsPending :
    (r : Removal) (id : ℕ)
    → IsIndexed r.queue
    → IsPending r.queue r.removed_by_row
    → IsPending (take_id r id).queue (take_id r id).removed_by_row
unfolding take_id
take_id-IsPending r id v w = elim (Option-cases (Map.get r.queue.jobs id)) [
  | inl e ↦ rw (e, take_id) w
  | inr (job, e) ↦
      let (key, at) = row_of_job r.queue id job v e in
      rw (e, take_id) (rw (at, take_id) (take_job-IsPending r id key job at w))
]

pub take_ids-Keeps :
    (r : Removal) (ids : List ℕ)
    → IsIndexed r.queue
    → IsPending r.queue r.removed_by_row
    → IsIndexed (take_ids r ids).queue
      × IsPending (take_ids r ids).queue (take_ids r ids).removed_by_row
unfolding take_ids
take_ids-Keeps r [] v w = (v, w)
take_ids-Keeps r (id ∷ ids) v w =
    take_ids-Keeps (take_id r id) ids (take_id-IsIndexed r id v) (take_id-IsPending r id v w)
