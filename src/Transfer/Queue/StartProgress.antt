-- ===== src/Transfer/Queue/StartProgress.antt =====
-- The queue does not stall: where nothing runs and a job waits, something may start.
use Prim.Native.Nat.{ℕ, suc, ◌-◌, ◌<◌}
use mathlib.Core.Path.{◌≡◌, refl, ap, ◌∙◌}
use mathlib.Core.Bool.{Bool, true, false, ◌||◌}
use mathlib.Core.Option.{Option, some}
use mathlib.Core.List.{List, [], ◌∷◌, ◌++◌}
use mathlib.Core.Logic.{◌≢◌, inl, inr}
use native.Mathlib.Omega.{arith}
use term_connect.Shared.{◌==◌, ltb, length, is_empty, choose, Bool-cases, Option-cases, All}
use term_connect.Shared.Map
use term_connect.Shared.Map.{Map}
use term_connect.Shared.Set
use term_connect.Transfer.Job.{TransferJob, destination}
use term_connect.Transfer.Queue.State.{TransferQueue}
use term_connect.Transfer.Queue.Operations.{active_jobs}
use term_connect.Transfer.Queue.Index.{IsIndexed}
use term_connect.Transfer.Queue.Start.{
  Starting, finished, advance, start_job, round, push_head, fill_heads, capped, or_zero, at_cap,
  contains_destination, initial, start_loop, startable_limited, size_of, sessions_of,
}
use term_connect.Transfer.Queue.StartLoop.{
  start_loop_rule, initial-IsSorted, measure-initial, measure-round, round-IsSorted,
}
use term_connect.Transfer.Queue.StartBounds.{startable-advance}
use term_connect.Transfer.Queue.StartSessions.{In, From-fill_heads}

not_empty-push_head : (p : ℕ × ℕ) (heads : List (ℕ × ℕ)) → is_empty (push_head p heads) ≡ false
unfolding push_head
not_empty-push_head p [] = refl
not_empty-push_head p (r ∷ heads) = ground arith

-- A session with an id that is not skipped gives a head.
not_empty-fill_heads :
    (skip : ℕ → Bool) (m : Map (List ℕ)) (session id : ℕ)
    → ((s : ℕ) → skip s ≡ false)
    → In m (id, session)
    → is_empty (fill_heads skip m).0 ≡ false
unfolding fill_heads Map.get
not_empty-fill_heads skip [] session id free h = cc
not_empty-fill_heads skip ((s, []) ∷ more) session id free h =
    not_empty-fill_heads skip more session id free (ground (arith, h))
not_empty-fill_heads skip ((s, first ∷ rest) ∷ more) session id free h =
    rw (free s) (not_empty-push_head (first, s) (fill_heads skip more).0)

not_empty-contains : (id : ℕ) (ids : List ℕ) → Set.contains id ids ≡ true → is_empty ids ≡ false
not_empty-contains id [] h = ground arith
not_empty-contains id (x ∷ xs) h = refl

not_empty-append : (xs : List ℕ) (x : ℕ) → is_empty (xs ++ x ∷ []) ≡ false
not_empty-append [] x = refl
not_empty-append (y ∷ ys) x = refl

abbrev Some : Starting → Type 0
Some s = is_empty s.startable ≡ false

start_job-Some :
    (session : ℕ) (job : TransferJob) (s : Starting) → Some s → Some (start_job session job s)
unfolding start_job
start_job-Some session job s h = ground (arith, h, not_empty-append s.startable job.id)

round-Some :
    (q : TransferQueue) (session_limit : ℕ → Option ℕ) (id session : ℕ) (s : Starting)
    → Some s
    → Some (round q session_limit id session s)
unfolding round
round-Some q session_limit id session s h =
    let kept : Some (advance session s) = rw startable-advance h in
    elim (Bool-cases (capped session_limit s.per_session session)) [
      | inl e ↦ rw e h
      | inr e ↦ elim (Option-cases (Map.get q.jobs id)) [
        | inl f ↦ rw e (rw (f, round) kept)
        | inr (job, f) ↦ rw e (rw (f, round) (start_job-Some session job (advance session s) kept))
      ]
    ]

busy-advance :
    (session : ℕ) (s : Starting) → (advance session s).busy_destinations ≡ s.busy_destinations
unfolding advance
busy-advance session s = ground arith

-- The first round starts its job, where its session may run one and no destination is busy.
first_round-Some :
    (q : TransferQueue) (session_limit : ℕ → Option ℕ) (id session : ℕ) (s : Starting)
    (job : TransferJob)
    → Map.get q.jobs id ≡ some job
    → capped session_limit s.per_session session ≡ false
    → s.busy_destinations ≡ []
    → Some (round q session_limit id session s)
unfolding round start_job contains_destination
first_round-Some q session_limit id session s job was e idle =
    let quiet : contains_destination (destination job) (advance session s).busy_destinations
        ≡ false =
      ap (contains_destination (destination job)) (busy-advance session s ∙ idle) in
    rw e (rw (was, round) (rw quiet (not_empty-append (advance session s).startable job.id)))

module _ (q : TransferQueue) (limit : ℕ) (session_limit : ℕ → Option ℕ) (v : IsIndexed q)
    (idle : q.running ≡ []) (open_slots : 0 < limit)
    (room : (session : ℕ) → session_limit session ≢ some 0) where
  free_session : (s : ℕ) → capped session_limit [] s ≡ false
  unfolding capped Map.get or_zero at_cap
  free_session s = elim (Option-cases (session_limit s)) [
    | inl e ↦ rw e refl
    | inr (cap, e) ↦
        let positive : cap ≢ 0 = λ z. room s (rw e (rw z refl)) in rw e (ground (arith, positive))
  ]

  abbrev s0 : Starting
  s0 = initial q session_limit

  active-idle : active_jobs q ≡ []
  unfolding active_jobs
  active-idle = ap (choose (Map.get q.jobs)) idle

  idle-initial : (s0.per_session ≡ []) × (s0.busy_destinations ≡ []) × (s0.startable ≡ [])
  unfolding initial sessions_of
  idle-initial = rw active-idle (refl, refl, refl)

  -- A queued job stands in the set of its session.
  queued-In :
      (id : ℕ)
      → Set.contains id q.queued ≡ true
      → (session : ℕ) × In q.queued_by_session (id, session)
  queued-In id h = elim (Option-cases (Map.get q.jobs id)) [
    | inl e ↦ ground (arith, v.queued id, h, e)
    | inr (job, e) ↦
        (job.session_id, ground (arith, v.queued id, h, e, v.by_session job.session_id id))
  ]

  heads-initial : (id : ℕ) → Set.contains id q.queued ≡ true → is_empty s0.heads ≡ false
  unfolding initial sessions_of
  heads-initial id h =
      let (session, there) = queued-In id h in
      rw active-idle (
        not_empty-fill_heads (capped session_limit []) q.queued_by_session session id free_session
          there)

  heads-In-initial : All (In q.queued_by_session) s0.heads
  unfolding initial sessions_of
  heads-In-initial =
      (From-fill_heads (capped session_limit (sessions_of [] (active_jobs q))) q.queued_by_session
        v.sessions_sorted).heads_in

  job_at :
      (id session : ℕ)
      → In q.queued_by_session (id, session)
      → (job : TransferJob) × (Map.get q.jobs id ≡ some job)
  job_at id session h = elim (Option-cases (Map.get q.jobs id)) [
    | inl e ↦ ground (arith, v.by_session session id, h, e)
    | inr found ↦ found
  ]

  -- The loop, from its first head on.
  runs_on :
      (heads : List (ℕ × ℕ))
      → s0.heads ≡ heads
      → is_empty heads ≡ false
      → (s : Starting) × (start_loop
            (suc (Map.total size_of q.queued_by_session))
            q
            session_limit
            limit
            s0
          ≡ finished s.startable)
        × Some s
  unfolding start_loop
  runs_on [] e h = ground arith
  runs_on ((id, session) ∷ heads) e h =
      let t : Starting = record s0 { heads = heads } in
      let (none_counted, none_busy, none_started) = idle-initial in
      let here : All (In q.queued_by_session) ((id, session) ∷ heads) = rw e at heads-In-initial in
      let (job, was) = job_at id session here.0 in
      let uncapped : capped session_limit t.per_session session ≡ false =
        ap (λ (m : Map ℕ). capped session_limit m session) none_counted ∙ free_session session in
      let started : Some (round q session_limit id session t) =
        first_round-Some q session_limit id session t job was uncapped none_busy in
      let sorted = initial-IsSorted q session_limit in
      let shorter : length heads < length s0.heads = rw e (omega arith) in
      let fewer = measure-round q session_limit id session t sorted in
      let bound = measure-initial q session_limit in
      let (s, returned, filled) =
        start_loop_rule q session_limit limit Some
          (λ s i x hs f g h. round-Some q session_limit i x (record s { heads = hs }) h)
          (Map.total size_of q.queued_by_session) (round q session_limit id session t)
          (round-IsSorted q session_limit id session t sorted)
          (omega (arith, shorter, fewer, bound)) started in
      let free : ltb (length s0.startable) limit ≡ true =
        let nothing : length s0.startable ≡ 0 = ap length none_started in ground (arith, nothing) in
      (s, rw (free, start_loop) (rw (e, start_loop) returned), filled)

-- Where the indices are right, nothing runs and a job is queued, `startable_limited` returns a job at
-- least, as long as the limit is not 0 and no session has the limit 0.
pub progress-startable_limited :
    (q : TransferQueue) (limit : ℕ) (session_limit : ℕ → Option ℕ) (id : ℕ)
    → IsIndexed q
    → q.running ≡ []
    → Set.contains id q.queued ≡ true
    → 0 < limit
    → ((session : ℕ) → session_limit session ≢ some 0)
    → (ids : List ℕ) × (startable_limited q limit session_limit ≡ finished ids)
      × (is_empty ids ≡ false)
unfolding startable_limited
progress-startable_limited q limit session_limit id v idle waiting open_slots room =
    let filled = heads-initial q limit session_limit v idle open_slots room id waiting in
    let (s, returned, some_started) =
      runs_on q limit session_limit v idle open_slots room (initial q session_limit).heads refl
        filled in
    let slots : limit - length q.running ≡ limit =
      let none_run : length q.running ≡ 0 = ap length idle in omega (arith, none_run) in
    let nonempty : is_empty q.queued ≡ false = not_empty-contains id q.queued waiting in
    let blocked : (limit - length q.running == 0 || is_empty q.queued) ≡ false =
      ground (arith, slots, nonempty, open_slots) in
    (s.startable, rw blocked (rw slots returned), some_started)
