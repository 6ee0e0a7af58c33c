-- ===== src/Transfer/Queue/Start.antt =====
-- `startable` and `startable_limited`: which queued jobs may start now. The binary heap of the heads
-- of the sessions' queues is the ascending list of its pairs.
use Prim.Native.Nat.{ℕ, zero, suc, ◌+◌, ◌-◌}
use mathlib.Core.Bool.{Bool, true, false, ◌&&◌, ◌||◌}
use mathlib.Core.Option.{Option, none, some}
use mathlib.Core.Logic.{ite}
use mathlib.Core.List.{List, [], ◌∷◌, ◌++◌, map}
use term_connect.Shared.{◌==◌, ltb, leb, if◌then◌else◌, length, is_empty}
use term_connect.Shared.Map
use term_connect.Shared.Map.{Map}
use term_connect.Transfer.Job.{TransferJob, Destination, Destination-discrete, destination}
use term_connect.Transfer.Queue.State.{TransferQueue}
use term_connect.Transfer.Queue.Operations.{active_jobs}

unfoldable pub or_zero : Option ℕ → ℕ
or_zero none = 0
or_zero (some n) = n

-- `*per_session.entry(session).or_default() += 1`
unfoldable pub count_session : ℕ → Map ℕ → Map ℕ
unfolding or_zero
count_session session m = Map.insert session (or_zero (Map.get m session) + 1) m

unfoldable pub sessions_of : Map ℕ → List TransferJob → Map ℕ
unfolding count_session
sessions_of m [] = m
sessions_of m (job ∷ more) = sessions_of (count_session job.session_id m) more

unfoldable pub at_cap : Option ℕ → ℕ → Bool
at_cap none running = false
at_cap (some cap) running = leb cap running

unfoldable pub capped : (ℕ → Option ℕ) → Map ℕ → ℕ → Bool
unfolding at_cap or_zero
capped session_limit per_session session =
    at_cap (session_limit session) (or_zero (Map.get per_session session))

unfoldable pub pair_less : ℕ × ℕ → ℕ × ℕ → Bool
pair_less (a, b) (c, d) = ltb a c || (a == c && ltb b d)

-- `BinaryHeap<Reverse<(u64, u64)>>::push`; `pop` takes the head.
unfoldable pub push_head : ℕ × ℕ → List (ℕ × ℕ) → List (ℕ × ℕ)
unfolding pair_less
push_head p [] = p ∷ []
push_head p (r ∷ heads) = if pair_less p r then p ∷ r ∷ heads else r ∷ push_head p heads

unfoldable pub contains_destination : Destination → List Destination → Bool
contains_destination d [] = false
contains_destination d (e ∷ es) = ite (Destination-discrete e d) true (contains_destination d es)

-- The variables of the loop.
pub record Starting : Type 0 where
  pub per_session : Map ℕ
  pub iterators : Map (List ℕ)
  pub heads : List (ℕ × ℕ)
  pub busy_destinations : List Destination
  pub startable : List ℕ

-- The heads and the iterators of the sessions that are not capped.
unfoldable pub fill_heads : (ℕ → Bool) → Map (List ℕ) → List (ℕ × ℕ) × Map (List ℕ)
fill_heads skip [] = ([], [])
fill_heads skip ((session, []) ∷ more) = fill_heads skip more
fill_heads skip ((session, first ∷ rest) ∷ more) =
    let (heads, iterators) = fill_heads skip more in
    if skip session
    then (heads, iterators)
    else (push_head (first, session) heads, Map.insert session rest iterators)

-- `iterators.get_mut(&session).and_then(Iterator::next)`, and the push of what it gives.
advance_by : ℕ → List ℕ → Starting → Starting
advance_by session [] s = s
advance_by session (next ∷ rest) s = record s {
  heads = push_head (next, session) s.heads;
  iterators = Map.insert session rest s.iterators;
}

unfoldable pub advance : ℕ → Starting → Starting
unfolding advance_by
advance session s = elim (Map.get s.iterators session) [
  | none ↦ s
  | some ids ↦ advance_by session ids s
]

unfoldable pub start_job : ℕ → TransferJob → Starting → Starting
start_job session job s =
    if contains_destination (destination job) s.busy_destinations then s else record s {
      busy_destinations = destination job ∷ s.busy_destinations;
      per_session = count_session session s.per_session;
      startable = s.startable ++ job.id ∷ [];
    }

-- One round of the loop, with the head popped.
unfoldable pub round : TransferQueue → (ℕ → Option ℕ) → ℕ → ℕ → Starting → Starting
round q session_limit id session s =
    if capped session_limit s.per_session session
    then s
    else (let s' = advance session s in
        elim (Map.get q.jobs id) [ none ↦ s' | some job ↦ start_job session job s' ])

pub data Outcome : Type 0 where
  finished : List ℕ → Outcome
  out_of_fuel : Outcome

-- `while startable.len() < free_slots`, with fuel for the rounds.
unfoldable pub start_loop : ℕ → TransferQueue → (ℕ → Option ℕ) → ℕ → Starting → Outcome
start_loop zero q session_limit free_slots s = out_of_fuel
start_loop (suc fuel) q session_limit free_slots s = elim (ltb (length s.startable) free_slots) [
  | false ↦ finished s.startable
  | true ↦ elim s.heads [
    | [] ↦ finished s.startable
    | (id, session) ∷ heads ↦
        start_loop fuel q session_limit free_slots
          (round q session_limit id session (record s { heads = heads }))
  ]
]

unfoldable pub size_of : ℕ → List ℕ → ℕ
size_of session ids = length ids

unfoldable pub initial : TransferQueue → (ℕ → Option ℕ) → Starting
unfolding sessions_of fill_heads
initial q session_limit =
    let active = active_jobs q in
    let per_session = sessions_of [] active in
    let (heads, iterators) = fill_heads (capped session_limit per_session) q.queued_by_session in
    record {
      per_session = per_session;
      iterators = iterators;
      heads = heads;
      busy_destinations = map destination active;
      startable = [];
    }

-- One round for each queued id is enough.
unfoldable pub startable_limited : TransferQueue → ℕ → (ℕ → Option ℕ) → Outcome
unfolding start_loop size_of
startable_limited q limit session_limit =
    let free_slots = limit - length q.running in
    if free_slots == 0 || is_empty q.queued
    then finished []
    else start_loop (suc (Map.total size_of q.queued_by_session)) q session_limit free_slots
        (initial q session_limit)

unfoldable pub startable : TransferQueue → ℕ → Outcome
startable q limit = startable_limited q limit (λ _. none)
