-- ===== src/Transfer/Queue/Effects.antt =====
-- What `account` does to each index of the queue, as equations between lookups.
use Prim.Native.Nat.{ℕ}
use mathlib.Core.Path.{◌≡◌, refl}
use mathlib.Core.Bool.{Bool, true, false, not, ◌&&◌, ◌||◌}
use mathlib.Core.Option.{Option, none, some}
use mathlib.Core.List.{List, [], ◌∷◌}
use mathlib.Core.Logic.{inl, inr}
use native.Mathlib.Omega.{arith}
use term_connect.Shared.{◌==◌, is_empty, Option-cases}
use term_connect.Shared.Map
use term_connect.Shared.Map.{Map}
use term_connect.Shared.Set
use term_connect.Transfer.Job.{JobStatus, in_progress}
use term_connect.Transfer.Queue.State.{Shape, TransferQueue}
use term_connect.Transfer.Queue.Account.{account_sets, add_to_session, remove_from_session, account}

abbrev pub is_queued : JobStatus → Bool
is_queued JobStatus.queued = true
is_queued _ = false

abbrev pub is_running : JobStatus → Bool
is_running in_progress = true
is_running _ = false

-- The members of a session's set.
abbrev pub members : Option (List ℕ) → List ℕ
members none = []
members (some ids) = ids

add_to_session-members :
    (id session s j : ℕ) (m : Map (List ℕ))
    → Set.contains j (members (Map.get (add_to_session id session m) s))
      ≡ (session == s && id == j || Set.contains j (members (Map.get m s)))
unfolding add_to_session
add_to_session-members id session s j m = elim (Option-cases (Map.get m session)) [
  | inl e ↦ rw (e, add_to_session) (rw Map.get-insert (ground (arith, Set.contains-insert id j [])))
  | inr (ids, e) ↦
      rw (e, add_to_session) (rw Map.get-insert (ground (arith, Set.contains-insert id j ids)))
]

is_empty-contains : (j : ℕ) (s : List ℕ) → is_empty s ≡ true → Set.contains j s ≡ false
is_empty-contains j [] h = refl
is_empty-contains j (i ∷ s) h = cc

remove_from_session-members :
    (id session s j : ℕ) (m : Map (List ℕ))
    → Set.contains j (members (Map.get (remove_from_session id session m) s))
      ≡ (not (session == s && id == j) && Set.contains j (members (Map.get m s)))
unfolding remove_from_session
remove_from_session-members id session s j m = ground (
  arith,
  Map.get-remove m session s,
  Map.get-insert m session s (Set.remove id (members (Map.get m session))),
  Set.contains-remove id j (members (Map.get m session)),
  is_empty-contains j (Set.remove id (members (Map.get m session))),
)

-- A new entry of the sets of one job.
module _ (q : TransferQueue) (id key : ℕ) (shape : Shape)
    (at : Map.get q.row_of id ≡ some key) where
  pub running-account-true :
      (j : ℕ)
      → Set.contains j (account q id shape true).running
        ≡ (is_running shape.status && id == j || Set.contains j q.running)
  unfolding account account_sets
  running-account-true j = ground (arith, Set.contains-insert id j q.running)

  pub running-account-false :
      (j : ℕ)
      → Set.contains j (account q id shape false).running
        ≡ (not (is_running shape.status && id == j) && Set.contains j q.running)
  unfolding account account_sets
  running-account-false j = ground (arith, Set.contains-remove id j q.running)

  pub queued-account-true :
      (j : ℕ)
      → Set.contains j (account q id shape true).queued
        ≡ (is_queued shape.status && id == j || Set.contains j q.queued)
  unfolding account account_sets
  queued-account-true j = ground (arith, Set.contains-insert id j q.queued)

  pub queued-account-false :
      (j : ℕ)
      → Set.contains j (account q id shape false).queued
        ≡ (not (is_queued shape.status && id == j) && Set.contains j q.queued)
  unfolding account account_sets
  queued-account-false j = ground (arith, Set.contains-remove id j q.queued)

  pub session-account-true :
      (s j : ℕ)
      → Set.contains j (members (Map.get (account q id shape true).queued_by_session s)) ≡ (
          is_queued shape.status && (shape.session_id == s && id == j)
          || Set.contains j (members (Map.get q.queued_by_session s)))
  unfolding account account_sets
  session-account-true s j =
      ground (arith, add_to_session-members id shape.session_id s j q.queued_by_session)

  pub session-account-false :
      (s j : ℕ)
      → Set.contains j (members (Map.get (account q id shape false).queued_by_session s)) ≡ (
          not (is_queued shape.status && (shape.session_id == s && id == j))
          && Set.contains j (members (Map.get q.queued_by_session s)))
  unfolding account account_sets
  session-account-false s j =
      ground (arith, remove_from_session-members id shape.session_id s j q.queued_by_session)

module _ (q : TransferQueue) (id : ℕ) (shape : Shape) (add : Bool) where
  -- The maps that `account` leaves alone.
  pub jobs-account : (account q id shape add).jobs ≡ q.jobs
  unfolding account account_sets
  jobs-account = ground arith

  pub row_of-account : (account q id shape add).row_of ≡ q.row_of
  unfolding account account_sets
  row_of-account = ground arith

  pub next_id-account : (account q id shape add).next_id ≡ q.next_id
  unfolding account account_sets
  next_id-account = ground arith

  pub batch_row-account : (account q id shape add).batch_row ≡ q.batch_row
  unfolding account account_sets
  batch_row-account = ground arith

  -- The sets of the sessions stay in order.
  pub account-IsSorted :
      Map.IsSorted q.queued_by_session → Map.IsSorted (account q id shape add).queued_by_session
  unfolding account account_sets
  account-IsSorted sorted = ground (
    arith,
    sorted,
    Map.insert-IsSorted shape.session_id
        (Set.insert id (members (Map.get q.queued_by_session shape.session_id)))
        q.queued_by_session,
    Map.insert-IsSorted shape.session_id
        (Set.remove id (members (Map.get q.queued_by_session shape.session_id)))
        q.queued_by_session,
    Map.remove-IsSorted shape.session_id q.queued_by_session,
  )
