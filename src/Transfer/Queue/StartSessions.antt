-- ===== src/Transfer/Queue/StartSessions.antt =====
-- What `startable_limited` returns: jobs that are queued, and no more of one session than its limit.
use Prim.Native.Nat.{ℕ, ◌+◌, ◌≤◌, ◌<◌}
use mathlib.Core.Path.{◌≡◌, refl, sym, subst}
use mathlib.Core.Bool.{Bool, true, false}
use mathlib.Core.Option.{Option, none, some}
use mathlib.Core.List.{List, [], ◌∷◌, ◌++◌}
use mathlib.Core.Logic.{◌⊎◌, inl, inr}
use native.Mathlib.Omega.{arith}
use term_connect.Shared.{◌==◌, if◌then◌else◌, Option-cases, Bool-cases, ==→eq, All}
use term_connect.Shared.Map
use term_connect.Shared.Map.{Map}
use term_connect.Shared.Set
use term_connect.Transfer.Job.{TransferJob, destination}
use term_connect.Transfer.Queue.State.{TransferQueue}
use term_connect.Transfer.Queue.Operations.{active_jobs}
use term_connect.Transfer.Queue.Start.{
  Starting, finished, advance, start_job, round, push_head, fill_heads, capped, or_zero,
  count_session, sessions_of, at_cap, contains_destination, initial, startable_limited,
}
use term_connect.Transfer.Queue.Effects.{is_queued, members}
use term_connect.Transfer.Queue.Index.{IsIndexed, waits, waits_in}
use term_connect.Transfer.Queue.StartLoop.{startable_limited_rule}
use term_connect.Transfer.Queue.StartBounds.{startable-advance}

-- The id is in the set of the session.
abbrev pub In : Map (List ℕ) → ℕ × ℕ → Type 0
In m p = Set.contains p.0 (members (Map.get m p.1)) ≡ true

push_head-All :
    (m : Map (List ℕ)) (p : ℕ × ℕ) (heads : List (ℕ × ℕ))
    → In m p
    → All (In m) heads
    → All (In m) (push_head p heads)
unfolding push_head
push_head-All m p [] h a = (h, tt)
push_head-All m p (r ∷ heads) h a = ground (arith, push_head-All m p heads h a.1)

In-cons :
    (s : ℕ) (ids : List ℕ) (more : Map (List ℕ)) (p : ℕ × ℕ)
    → Map.Above s more
    → In more p
    → In ((s, ids) ∷ more) p
unfolding Map.get
In-cons s ids more p a h = ground (arith, Map.get-Above s p.1 more)

All-In-cons :
    (s : ℕ) (ids : List ℕ) (more : Map (List ℕ)) (ps : List (ℕ × ℕ))
    → Map.Above s more
    → All (In more) ps
    → All (In ((s, ids) ∷ more)) ps
All-In-cons s ids more [] a h = tt
All-In-cons s ids more (p ∷ ps) a h = (In-cons s ids more p a h.0, All-In-cons s ids more ps a h.1)

-- What the heads and the iterators hold comes from the sets of the sessions.
pub record From (m : Map (List ℕ)) (heads : List (ℕ × ℕ)) (iterators : Map (List ℕ)) : Type 0 where
  pub heads_in : All (In m) heads
  pub iterators_in : (p : ℕ × ℕ) → In iterators p → In m p

From-cons :
    (s : ℕ) (ids : List ℕ) (more : Map (List ℕ)) (heads : List (ℕ × ℕ)) (iterators : Map (List ℕ))
    → Map.Above s more
    → From more heads iterators
    → From ((s, ids) ∷ more) heads iterators
From-cons s ids more heads iterators a f = record {
  heads_in = All-In-cons s ids more heads a f.heads_in;
  iterators_in = λ p h. In-cons s ids more p a (f.iterators_in p h);
}

-- An entry of the map moves its first id to the heads and the others to the iterators.
From-first :
    (m : Map (List ℕ)) (s first : ℕ) (rest : List ℕ) (heads : List (ℕ × ℕ))
    (iterators : Map (List ℕ))
    → ((j : ℕ) → Set.contains j (first ∷ rest) ≡ true → In m (j, s))
    → From m heads iterators
    → From m (push_head (first, s) heads) (Map.insert s rest iterators)
From-first m s first rest heads iterators all f = record {
  heads_in = push_head-All m (first, s) heads (all first (ground arith)) f.heads_in;
  iterators_in = λ p. rw Map.get-insert (λ h. elim (Bool-cases (s == p.1)) [
    | inl e ↦ subst (λ t. In m (p.0, t)) (==→eq s p.1 e) (all p.0 (ground (arith, h, e)))
    | inr e ↦ f.iterators_in p (rw e at h)
  ]);
}

pub From-fill_heads :
    (skip : ℕ → Bool) (m : Map (List ℕ))
    → Map.IsSorted m
    → From m (fill_heads skip m).0 (fill_heads skip m).1
unfolding fill_heads Map.get
From-fill_heads skip [] sorted = record { heads_in = tt; iterators_in = λ p h. cc }
From-fill_heads skip ((s, []) ∷ more) sorted =
    From-cons s [] more _ _ sorted.0 (From-fill_heads skip more sorted.1)
From-fill_heads skip ((s, first ∷ rest) ∷ more) sorted =
    let kept =
      From-cons s (first ∷ rest) more (fill_heads skip more).0 (fill_heads skip more).1 sorted.0
        (From-fill_heads skip more sorted.1) in
    elim (Bool-cases (skip s)) [
      | inl e ↦ rw e kept
      | inr e ↦
          rw e
            (From-first ((s, first ∷ rest) ∷ more) s first rest _ _ (λ j h. ground (arith, h)) kept)
    ]

From-advance :
    (m : Map (List ℕ)) (session : ℕ) (s : Starting)
    → From m s.heads s.iterators
    → From m (advance session s).heads (advance session s).iterators
unfolding advance
From-advance m session s f = elim (Option-cases (Map.get s.iterators session)) [
  | inl e ↦ rw (e, advance) f
  | inr ([], e) ↦ rw (e, advance) f
  | inr (next ∷ rest, e) ↦
      rw (e, advance)
        (From-first m session next rest s.heads s.iterators
          (λ j h. f.iterators_in (j, session) (rw e h)) f)
]

-- How many jobs of a list are of the session.
abbrev pub running_in : ℕ → List TransferJob → ℕ
running_in x [] = 0
running_in x (job ∷ more) = (if job.session_id == x then 1 else 0) + running_in x more

abbrev of_session : ℕ → Option TransferJob → ℕ
of_session x none = 0
of_session x (some job) = if job.session_id == x then 1 else 0

-- The same count of the jobs with the ids of a list.
abbrev pub started_in : Map TransferJob → ℕ → List ℕ → ℕ
started_in jobs x [] = 0
started_in jobs x (id ∷ ids) = of_session x (Map.get jobs id) + started_in jobs x ids

started_in-append :
    (jobs : Map TransferJob) (x : ℕ) (ids : List ℕ) (id : ℕ)
    → started_in jobs x (ids ++ id ∷ []) ≡ started_in jobs x ids + of_session x (Map.get jobs id)
started_in-append jobs x [] id = omega arith
started_in-append jobs x (i ∷ ids) id = omega (arith, started_in-append jobs x ids id)

count-count_session :
    (session x : ℕ) (m : Map ℕ)
    → or_zero (Map.get (count_session session m) x)
      ≡ or_zero (Map.get m x) + (if session == x then 1 else 0)
unfolding count_session or_zero
count-count_session session x m = rw Map.get-insert (ground arith)

count-sessions_of :
    (x : ℕ) (m : Map ℕ) (js : List TransferJob)
    → or_zero (Map.get (sessions_of m js) x) ≡ or_zero (Map.get m x) + running_in x js
unfolding sessions_of
count-sessions_of x m [] = omega arith
count-sessions_of x m (job ∷ more) = omega (
  arith,
  count-sessions_of x (count_session job.session_id m) more,
  count-count_session job.session_id x m,
)

All-append_one {ℓ} :
    (P : ℕ → Type ℓ) (ids : List ℕ) (id : ℕ) → All P ids → P id → All P (ids ++ id ∷ [])
All-append_one P [] id a p = (p, tt)
All-append_one P (i ∷ ids) id a p = (a.0, All-append_one P ids id a.1 p)

-- The invariant of the loop.
record Sound (q : TransferQueue) (s : Starting) : Type 0 where
  from : From q.queued_by_session s.heads s.iterators
  waiting : All (λ id. waits (Map.get q.jobs id) ≡ true) s.startable
  counted :
      (x : ℕ)
      → or_zero (Map.get s.per_session x)
        ≡ running_in x (active_jobs q) + started_in q.jobs x s.startable

per_session-advance : (session : ℕ) (s : Starting) → (advance session s).per_session ≡ s.per_session
unfolding advance
per_session-advance session s = ground arith

advance-Sound :
    (q : TransferQueue) (session : ℕ) (s : Starting) → Sound q s → Sound q (advance session s)
advance-Sound q session s a = record {
  from = From-advance q.queued_by_session session s a.from;
  waiting = rw (startable-advance session s) a.waiting;
  counted = λ x. rw (startable-advance session s, per_session-advance session s) (a.counted x);
}

-- Either the job does not start, or it does and is counted.
start_job-cases :
    (session : ℕ) (job : TransferJob) (s : Starting)
    → (start_job session job s ≡ s)
      ⊎ ((start_job session job s).startable ≡ s.startable ++ job.id ∷ [])
        × ((start_job session job s).per_session ≡ count_session session s.per_session)
        × ((start_job session job s).heads ≡ s.heads)
        × ((start_job session job s).iterators ≡ s.iterators)
unfolding start_job
start_job-cases session job s =
    elim (Bool-cases (contains_destination (destination job) s.busy_destinations)) [
      | inl e ↦ inl (rw e)
      | inr e ↦ inr (rw e, rw e, rw e, rw e)
    ]

start_job-Sound :
    (q : TransferQueue) (id session : ℕ) (job : TransferJob) (s : Starting)
    → Map.get q.jobs job.id ≡ some job
    → job.session_id ≡ session
    → is_queued job.status ≡ true
    → Sound q s
    → Sound q (start_job session job s)
start_job-Sound q id session job s at of_it waiting a = elim (start_job-cases session job s) [
  | inl e ↦ rw e a
  | inr (e, f, g, h) ↦ record {
    from = rw (g, h) a.from;
    waiting = rw e (All-append_one _ s.startable job.id a.waiting (ground arith));
    counted = λ x.
        rw (e, f)
          (ground (
            arith,
            a.counted x,
            started_in-append q.jobs x s.startable job.id,
            count-count_session session x s.per_session,
          ));
  }
]

round-Sound :
    (q : TransferQueue) (session_limit : ℕ → Option ℕ) (id session : ℕ) (s : Starting)
    → IsIndexed q
    → In q.queued_by_session (id, session)
    → Sound q s
    → Sound q (round q session_limit id session s)
unfolding round
round-Sound q session_limit id session s v member a =
    elim (Bool-cases (capped session_limit s.per_session session)) [
      | inl e ↦ rw e a
      | inr e ↦ rw e (elim (Option-cases (Map.get q.jobs id)) [
        | inl m ↦ rw (m, round) (advance-Sound q session s a)
        | inr (job, m) ↦
            let queued_there : waits_in session (some job) ≡ true =
              rw (v.by_session session id, m) at member in
            rw (m, round)
              (start_job-Sound q id session job (advance session s)
                (subst (λ k. Map.get q.jobs k ≡ some job) (sym (v.keyed id job m)) m) (ground arith)
                (ground arith) (advance-Sound q session s a))
      ])
    ]

-- What a session with a limit has running and started: nothing started, or the limit is kept.
abbrev pub KeepsLimit : (ℕ → Option ℕ) → TransferQueue → ℕ → List ℕ → Type 0
KeepsLimit session_limit q x r =
    (cap : ℕ)
    → session_limit x ≡ some cap
    → (started_in q.jobs x r ≡ 0) ⊎ (running_in x (active_jobs q) + started_in q.jobs x r ≤ cap)

record Limited (q : TransferQueue) (session_limit : ℕ → Option ℕ) (s : Starting) : Type 0 where
  sound : Sound q s
  limits : (x : ℕ) → KeepsLimit session_limit q x s.startable

uncapped-lt :
    (session_limit : ℕ → Option ℕ) (m : Map ℕ) (x cap : ℕ)
    → session_limit x ≡ some cap
    → capped session_limit m x ≡ false
    → or_zero (Map.get m x) < cap
unfolding capped at_cap
uncapped-lt session_limit m x cap e f = ground arith

-- One round starts at most one job, and of a session that is below its limit.
started-round :
    (q : TransferQueue) (session_limit : ℕ → Option ℕ) (id session x : ℕ) (s : Starting)
    → IsIndexed q
    → In q.queued_by_session (id, session)
    → (started_in q.jobs x (round q session_limit id session s).startable
        ≡ started_in q.jobs x s.startable)
      ⊎ ((session ≡ x)
          × (capped session_limit s.per_session x ≡ false)
          × (started_in q.jobs x (round q session_limit id session s).startable
              ≡ started_in q.jobs x s.startable + 1))
unfolding round
started-round q session_limit id session x s v member =
    elim (Bool-cases (capped session_limit s.per_session session)) [
      | inl e ↦ inl (rw e)
      | inr e ↦ rw e (elim (Option-cases (Map.get q.jobs id)) [
        | inl m ↦ rw (m, round) (rw (startable-advance session s) (inl refl))
        | inr (job, m) ↦
            let queued_there : waits_in session (some job) ≡ true =
              rw (v.by_session session id, m) at member in
            let there : Map.get q.jobs job.id ≡ some job =
              subst (λ k. Map.get q.jobs k ≡ some job) (sym (v.keyed id job m)) m in
            rw (m, round)
              (elim (start_job-cases session job (advance session s)) [
                | inl f ↦ rw f (rw (startable-advance session s) (inl refl))
                | inr (f, _, _, _) ↦
                    rw (f, startable-advance session s)
                      (ground (arith, started_in-append q.jobs x s.startable job.id))
              ])
      ])
    ]

Limited-round :
    (q : TransferQueue) (session_limit : ℕ → Option ℕ) (id session : ℕ) (s : Starting)
    → IsIndexed q
    → In q.queued_by_session (id, session)
    → Limited q session_limit s
    → Limited q session_limit (round q session_limit id session s)
Limited-round q session_limit id session s v member a = record {
  sound = round-Sound q session_limit id session s v member a.sound;
  limits = λ x cap e. ground (
    arith,
    started-round q session_limit id session x s v member,
    a.limits x cap e,
    a.sound.counted x,
    uncapped-lt session_limit s.per_session x cap e,
  );
}

-- The start of the loop.
initial-Limited :
    (q : TransferQueue) (session_limit : ℕ → Option ℕ)
    → IsIndexed q
    → Limited q session_limit (initial q session_limit)
unfolding initial
initial-Limited q session_limit v = record {
  sound = record {
    from = From-fill_heads _ q.queued_by_session v.sessions_sorted;
    waiting = tt;
    counted = λ x. unfold or_zero Map.get in omega (arith, count-sessions_of x [] (active_jobs q));
  };
  limits = λ x cap e. inl refl;
}

-- Where the indices are right, every job that `startable_limited` returns is queued, and of a session
-- with a limit either none starts, or those that run and those that start are together within it.
pub KeepsLimit-startable_limited :
    (q : TransferQueue) (limit : ℕ) (session_limit : ℕ → Option ℕ)
    → IsIndexed q
    → (r : List ℕ) × (startable_limited q limit session_limit ≡ finished r)
      × All (λ id. waits (Map.get q.jobs id) ≡ true) r
      × ((x : ℕ) → KeepsLimit session_limit q x r)
KeepsLimit-startable_limited q limit session_limit v =
    elim (startable_limited_rule q limit session_limit (Limited q session_limit)
      (λ s id session heads e less a. popped s id session heads e a)
      (initial-Limited q session_limit v)) [
        | inl e ↦ ([], e, tt, λ x cap _. inl refl)
        | inr (s, e, a) ↦ (s.startable, e, a.sound.waiting, a.limits)
      ]
  where
    popped :
        (s : Starting) (id session : ℕ) (heads : List (ℕ × ℕ))
        → s.heads ≡ (id, session) ∷ heads
        → Limited q session_limit s
        → Limited q session_limit (round q session_limit id session (record s { heads = heads }))
    popped s id session heads e a =
        let all : All (In q.queued_by_session) ((id, session) ∷ heads) =
          rw e at a.sound.from.heads_in in
        Limited-round q session_limit id session (record s { heads = heads }) v all.0
          (record {
            sound = record {
              from = record { heads_in = all.1; iterators_in = a.sound.from.iterators_in };
              waiting = a.sound.waiting;
              counted = a.sound.counted;
            };
            limits = a.limits;
          })
