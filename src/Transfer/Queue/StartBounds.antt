-- ===== src/Transfer/Queue/StartBounds.antt =====
-- What `startable_limited` returns: no more jobs than there are free slots, and no two that write to
-- one destination.
use Prim.Native.Nat.{ℕ, ◌-◌, ◌≤◌, ◌<◌}
use mathlib.Core.Path.{◌≡◌, refl, sym, subst}
use mathlib.Core.Bool.{false}
use mathlib.Core.Option.{Option, none, some}
use mathlib.Core.List.{List, [], ◌∷◌, ◌++◌, map}
use mathlib.Core.Logic.{◌⊎◌, inl, inr}
use native.Mathlib.Omega.{arith}
use term_connect.Shared.{Option-cases, Bool-cases, length, length-append}
use term_connect.Shared.Map
use term_connect.Transfer.Job.{TransferJob, Destination, destination}
use term_connect.Transfer.Queue.State.{TransferQueue}
use term_connect.Transfer.Queue.Operations.{active_jobs}
use term_connect.Transfer.Queue.Start.{
  Starting, finished, capped, advance, start_job, round, contains_destination, initial,
  startable_limited,
}
use term_connect.Transfer.Queue.Index.{IsIndexed}
use term_connect.Transfer.Queue.StartLoop.{startable_limited_rule}

pub startable-advance : (session : ℕ) (s : Starting) → (advance session s).startable ≡ s.startable
unfolding advance
startable-advance session s = ground arith

busy-advance :
    (session : ℕ) (s : Starting) → (advance session s).busy_destinations ≡ s.busy_destinations
unfolding advance
busy-advance session s = ground arith

-- A started job goes to the end of the list, if it starts at all.
pub started-cases :
    (session : ℕ) (job : TransferJob) (s : Starting)
    → (start_job session job s ≡ s)
      ⊎ ((contains_destination (destination job) s.busy_destinations ≡ false)
          × ((start_job session job s).startable ≡ s.startable ++ job.id ∷ [])
          × ((start_job session job s).busy_destinations ≡ destination job ∷ s.busy_destinations))
unfolding start_job
started-cases session job s =
    elim (Bool-cases (contains_destination (destination job) s.busy_destinations)) [
      | inl e ↦ inl (rw e)
      | inr e ↦ inr (e, rw e, rw e)
    ]

within-start_job :
    (session free : ℕ) (job : TransferJob) (s : Starting)
    → length s.startable < free
    → length (start_job session job s).startable ≤ free
within-start_job session free job s h = elim (started-cases session job s) [
  | inl e ↦ rw e (omega arith)
  | inr (_, e, _) ↦ rw e (omega (arith, length-append s.startable (job.id ∷ [])))
]

within-round :
    (q : TransferQueue) (session_limit : ℕ → Option ℕ) (id session free : ℕ) (s : Starting)
    → length s.startable < free
    → length (round q session_limit id session s).startable ≤ free
unfolding round
within-round q session_limit id session free s h =
    elim (Bool-cases (capped session_limit s.per_session session)) [
      | inl e ↦ rw e (omega arith)
      | inr e ↦ rw e (elim (Option-cases (Map.get q.jobs id)) [
        | inl m ↦ rw (m, round) (rw (startable-advance session s) (omega arith))
        | inr (job, m) ↦
            rw (m, round)
              (within-start_job session free job (advance session s)
                (rw (startable-advance session s) h))
      ])
    ]

-- `startable_limited` always returns, and never more jobs than the limit leaves free slots beside the
-- jobs that run.
pub length-startable_limited :
    (q : TransferQueue) (limit : ℕ) (session_limit : ℕ → Option ℕ)
    → (r : List ℕ) × (startable_limited q limit session_limit ≡ finished r)
      × (length r ≤ limit - length q.running)
unfolding initial
length-startable_limited q limit session_limit =
    elim (startable_limited_rule q limit session_limit
      (λ s. length s.startable ≤ limit - length q.running)
      (λ s id session heads e less _.
        within-round q session_limit id session (limit - length q.running)
          (record s { heads = heads }) less)
      (omega arith)) [
        | inl e ↦ ([], e, omega arith)
        | inr (s, e, within) ↦ (s.startable, e, within)
      ]

-- The destinations that are busy once the jobs of a list have started, the latest first.
abbrev pub busy_after : Map.Map TransferJob → List Destination → List ℕ → List Destination
busy_after jobs busy [] = busy
busy_after jobs busy (id ∷ ids) = elim (Map.get jobs id) [
  | none ↦ busy_after jobs busy ids
  | some job ↦ busy_after jobs (destination job ∷ busy) ids
]

-- Each job of the list is in the queue and, in turn, writes to a destination that is not busy.
abbrev pub StartsApart : Map.Map TransferJob → List Destination → List ℕ → Type 0
StartsApart jobs busy [] = Unit {0}
StartsApart jobs busy (id ∷ ids) =
    (job : TransferJob) × (Map.get jobs id ≡ some job)
    × (contains_destination (destination job) busy ≡ false)
    × StartsApart jobs (destination job ∷ busy) ids

module _ (jobs : Map.Map TransferJob) (id : ℕ) (job : TransferJob)
    (at : Map.get jobs id ≡ some job) where
  busy_after-append :
      (busy : List Destination) (ids : List ℕ)
      → StartsApart jobs busy ids
      → busy_after jobs busy (ids ++ id ∷ []) ≡ destination job ∷ busy_after jobs busy ids
  busy_after-append busy [] a = rw (at, busy_after)
  busy_after-append busy (i ∷ ids) (other, e, new, rest) =
      rw (e, busy_after) (busy_after-append (destination other ∷ busy) ids rest)

  StartsApart-append :
      (busy : List Destination) (ids : List ℕ)
      → StartsApart jobs busy ids
      → contains_destination (destination job) (busy_after jobs busy ids) ≡ false
      → StartsApart jobs busy (ids ++ id ∷ [])
  StartsApart-append busy [] a free = (job, at, free, tt)
  StartsApart-append busy (i ∷ ids) (other, e, new, rest) free = (
    other,
    e,
    new,
    StartsApart-append (destination other ∷ busy) ids rest (rw (e, busy_after) at free),
  )

record Apart (jobs : Map.Map TransferJob) (busy : List Destination) (s : Starting) : Type 0 where
  apart : StartsApart jobs busy s.startable
  tracked : s.busy_destinations ≡ busy_after jobs busy s.startable

module _ (q : TransferQueue) (v : IsIndexed q) (busy : List Destination) where
  Apart-start_job :
      (id session : ℕ) (job : TransferJob) (s : Starting)
      → Map.get q.jobs id ≡ some job
      → Apart q.jobs busy s
      → Apart q.jobs busy (start_job session job s)
  Apart-start_job id session job s at a = elim (started-cases session job s) [
    | inl e ↦ rw e a
    | inr (new, e, f) ↦
        let found : Map.get q.jobs job.id ≡ some job =
          subst (λ k. Map.get q.jobs k ≡ some job) (sym (v.keyed id job at)) at in
        let free : contains_destination (destination job) (busy_after q.jobs busy s.startable)
            ≡ false =
          rw a.tracked at new in
        record {
          apart = rw e (StartsApart-append q.jobs job.id job found busy s.startable a.apart free);
          tracked =
              rw (e, f)
                (rw
                  (busy_after-append q.jobs job.id job found busy s.startable a.apart, a.tracked));
        }
  ]

  Apart-round :
      (session_limit : ℕ → Option ℕ) (id session : ℕ) (s : Starting)
      → Apart q.jobs busy s
      → Apart q.jobs busy (round q session_limit id session s)
  unfolding round
  Apart-round session_limit id session s a =
      elim (Bool-cases (capped session_limit s.per_session session)) [
        | inl e ↦ rw e a
        | inr e ↦ rw e (elim (Option-cases (Map.get q.jobs id)) [
          | inl m ↦ rw (m, round) advanced
          | inr (job, m) ↦
              rw (m, round) (Apart-start_job id session job (advance session s) m advanced)
        ])
      ]
    where
      advanced : Apart q.jobs busy (advance session s)
      advanced = record {
        apart = rw (startable-advance session s) a.apart;
        tracked = rw (startable-advance session s, busy-advance session s) a.tracked;
      }

-- Where the indices are right, the jobs that `startable_limited` returns are in the queue, and no two
-- of them write to one destination, nor does one of them write where a running job writes.
pub StartsApart-startable_limited :
    (q : TransferQueue) (limit : ℕ) (session_limit : ℕ → Option ℕ)
    → IsIndexed q
    → (r : List ℕ) × (startable_limited q limit session_limit ≡ finished r)
      × StartsApart q.jobs (map destination (active_jobs q)) r
unfolding initial
StartsApart-startable_limited q limit session_limit v =
    elim (startable_limited_rule q limit session_limit
      (Apart q.jobs (map destination (active_jobs q)))
      (λ s id session heads e less a.
        Apart-round q v (map destination (active_jobs q)) session_limit id session
          (record s { heads = heads }) (record { apart = a.apart; tracked = a.tracked }))
      (record { apart = tt; tracked = refl })) [
        | inl e ↦ ([], e, tt)
        | inr (s, e, a) ↦ (s.startable, e, a.apart)
      ]
