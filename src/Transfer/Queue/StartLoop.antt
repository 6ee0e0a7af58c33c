-- ===== src/Transfer/Queue/StartLoop.antt =====
-- The loop of `startable_limited` ends within its fuel, with an invariant rule for what it returns.
use Prim.Native.Nat.{ℕ, zero, suc, ◌+◌, ◌-◌, ◌≤◌, ◌<◌}
use mathlib.Core.Path.{◌≡◌, refl, ap}
use mathlib.Core.Bool.{Bool, true, false, ◌||◌}
use mathlib.Core.Option.{Option}
use mathlib.Core.List.{List, [], ◌∷◌}
use mathlib.Core.Logic.{◌⊎◌, inl, inr}
use native.Mathlib.Omega.{arith}
use term_connect.Shared.{◌==◌, ltb, Option-cases, Bool-cases, ltb→lt, is_empty, length}
use term_connect.Shared.Map
use term_connect.Shared.Map.{Map, IsSorted, insert-IsSorted, total-insert}
use term_connect.Transfer.Queue.State.{TransferQueue}
use term_connect.Transfer.Queue.Start.{
  Starting, finished, push_head, advance, start_job, round, start_loop, size_of, fill_heads,
  initial, startable_limited,
}

-- The ids that the loop has still to look at.
abbrev pub measure : Starting → ℕ
measure s = length s.heads + Map.total size_of s.iterators

length-push_head :
    (p : ℕ × ℕ) (heads : List (ℕ × ℕ)) → length (push_head p heads) ≡ suc (length heads)
unfolding push_head
length-push_head p [] = refl
length-push_head p (r ∷ heads) = ground (arith, length-push_head p heads)

measure-advance :
    (session : ℕ) (s : Starting) → IsSorted s.iterators → measure (advance session s) ≤ measure s
unfolding advance size_of
measure-advance session s sorted = elim (Option-cases (Map.get s.iterators session)) [
  | inl e ↦ rw (e, advance) (omega arith)
  | inr ([], e) ↦ rw (e, advance) (omega arith)
  | inr (next ∷ rest, e) ↦
      rw (e, advance)
        (ground (
          arith,
          e,
          length-push_head (next, session) s.heads,
          total-insert size_of session rest s.iterators sorted,
        ))
]

advance-IsSorted :
    (session : ℕ) (s : Starting) → IsSorted s.iterators → IsSorted (advance session s).iterators
unfolding advance
advance-IsSorted session s sorted = elim (Option-cases (Map.get s.iterators session)) [
  | inl e ↦ rw (e, advance) sorted
  | inr ([], e) ↦ rw (e, advance) sorted
  | inr (next ∷ rest, e) ↦ rw (e, advance) (insert-IsSorted session rest s.iterators sorted)
]

module _ (q : TransferQueue) (session_limit : ℕ → Option ℕ) (id session : ℕ) (s : Starting)
    (sorted : IsSorted s.iterators) where
  pub measure-round : measure (round q session_limit id session s) ≤ measure s
  unfolding round start_job
  measure-round = ground (arith, measure-advance session s sorted)

  pub round-IsSorted : IsSorted (round q session_limit id session s).iterators
  unfolding round start_job
  round-IsSorted = ground (arith, sorted, advance-IsSorted session s sorted)

-- From enough fuel the loop returns, and an invariant of its rounds holds where it returns.
module _ (q : TransferQueue) (session_limit : ℕ → Option ℕ) (free_slots : ℕ) (P : Starting → Type 0)
    (step : (s : Starting) (id session : ℕ) (heads : List (ℕ × ℕ))
      → s.heads ≡ (id, session) ∷ heads
      → length s.startable < free_slots
      → P s
      → P (round q session_limit id session (record s { heads = heads }))) where
  -- What the loop returns, with the invariant.
  abbrev Returns : ℕ → Starting → Type 0
  Returns fuel s =
      (s' : Starting) × (start_loop fuel q session_limit free_slots s ≡ finished s'.startable)
      × P s'

  start_loop_step :
      (fuel : ℕ) (s : Starting)
      → ((t : Starting) → IsSorted t.iterators → measure t < fuel → P t → Returns fuel t)
      → IsSorted s.iterators
      → measure s < suc fuel
      → P s
      → (b : Bool) → ltb (length s.startable) free_slots ≡ b
      → (hs : List (ℕ × ℕ)) → s.heads ≡ hs
      → Returns (suc fuel) s
  unfolding start_loop
  start_loop_step fuel s rec sorted enough p false full hs e = (s, rw (full, start_loop), p)
  start_loop_step fuel s rec sorted enough p true free [] e =
      (s, rw (free, start_loop) (rw (e, start_loop)), p)
  start_loop_step fuel s rec sorted enough p true free ((id, session) ∷ heads) e =
      let t : Starting = record s { heads = heads } in
      let popped : measure t < measure s = omega (arith, ap length e) in
      let smaller : measure (round q session_limit id session t) < fuel =
        omega (arith, measure-round q session_limit id session t sorted) in
      let (s', e', p') =
        rec (round q session_limit id session t)
          (round-IsSorted q session_limit id session t sorted) smaller
          (step s id session heads e (ltb→lt _ _ free) p) in
      (s', rw (free, start_loop) (rw (e, start_loop) e'), p')

  pub start_loop_rule :
      (fuel : ℕ) (s : Starting) → IsSorted s.iterators → measure s < fuel → P s → Returns fuel s
  start_loop_rule zero s sorted enough p = absurd (omega arith)
  start_loop_rule (suc fuel) s sorted enough p =
      start_loop_step fuel s (start_loop_rule fuel) sorted enough p
        (ltb (length s.startable) free_slots) refl s.heads refl

-- The loop starts within its fuel.
fill_heads-IsSorted : (skip : ℕ → Bool) (m : Map (List ℕ)) → IsSorted (fill_heads skip m).1
unfolding fill_heads
fill_heads-IsSorted skip [] = tt
fill_heads-IsSorted skip ((session, []) ∷ more) = fill_heads-IsSorted skip more
fill_heads-IsSorted skip ((session, first ∷ rest) ∷ more) = ground (
  arith,
  fill_heads-IsSorted skip more,
  insert-IsSorted session rest (fill_heads skip more).1 (fill_heads-IsSorted skip more),
)

measure-fill_heads :
    (skip : ℕ → Bool) (m : Map (List ℕ))
    → length (fill_heads skip m).0 + Map.total size_of (fill_heads skip m).1 ≤ Map.total size_of m
unfolding fill_heads size_of
measure-fill_heads skip [] = omega arith
measure-fill_heads skip ((session, []) ∷ more) = omega (arith, measure-fill_heads skip more)
measure-fill_heads skip ((session, first ∷ rest) ∷ more) = ground (
  arith,
  measure-fill_heads skip more,
  length-push_head (first, session) (fill_heads skip more).0,
  total-insert size_of session rest (fill_heads skip more).1 (fill_heads-IsSorted skip more),
)

pub initial-IsSorted :
    (q : TransferQueue) (session_limit : ℕ → Option ℕ)
    → IsSorted (initial q session_limit).iterators
unfolding initial
initial-IsSorted q session_limit = fill_heads-IsSorted _ q.queued_by_session

pub measure-initial :
    (q : TransferQueue) (session_limit : ℕ → Option ℕ)
    → measure (initial q session_limit) ≤ Map.total size_of q.queued_by_session
unfolding initial
measure-initial q session_limit = measure-fill_heads _ q.queued_by_session

-- An invariant of the rounds holds of what `startable_limited` returns, and it does return.
module _ (q : TransferQueue) (limit : ℕ) (session_limit : ℕ → Option ℕ) (P : Starting → Type 0)
    (step : (s : Starting) (id session : ℕ) (heads : List (ℕ × ℕ))
      → s.heads ≡ (id, session) ∷ heads
      → length s.startable < limit - length q.running
      → P s
      → P (round q session_limit id session (record s { heads = heads })))
    (start : P (initial q session_limit)) where
  -- Either nothing may start, or the loop ran to an end.
  pub startable_limited_rule :
      (startable_limited q limit session_limit ≡ finished [])
      ⊎ ((s : Starting) × (startable_limited q limit session_limit ≡ finished s.startable) × P s)
  unfolding startable_limited
  startable_limited_rule = elim (Bool-cases (limit - length q.running == 0 || is_empty q.queued)) [
    | inl nothing ↦ inl (rw nothing)
    | inr something ↦ inr (
        rw something (
          start_loop_rule q session_limit (limit - length q.running) P step
            (suc (Map.total size_of q.queued_by_session)) (initial q session_limit)
            (initial-IsSorted q session_limit) (omega (arith, measure-initial q session_limit))
            start))
  ]
