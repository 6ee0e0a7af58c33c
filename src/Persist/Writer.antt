-- ===== src/Persist/Writer.antt =====
-- porthmos-core/src/persist/writer/mod.rs, and `write_versioned` of persist/mod.rs. A path is a number,
-- since paths are only compared. What is done under one hold of a lock is one step; a version is taken
-- in a step of its own, before the lock, so that other calls may come between. What a step takes from
-- the pending jobs is in flight until it is executed, by whoever took it and in any order; what
-- `write_lazy` does not queue is executed by its caller. What a render gives stands in the job, and what
-- the file system answers is an argument.
use Prim.Native.Nat.{ℕ, ◌+◌, ◌%◌}
use mathlib.Core.Bool.{Bool, true, false, not, ◌&&◌, ◌||◌}
use mathlib.Core.Option.{Option, none, some}
use mathlib.Core.List.{List, [], ◌∷◌, ◌++◌}
use term_connect.Shared.{◌==◌, leb, u64_mod, if◌then◌else◌}
use term_connect.Shared.Map
use term_connect.Shared.Map.{Map}
use term_connect.Shared.Text.{Text}
use term_connect.Shared.Results.{Result, ok, err}

pub record Job : Type 0 where
  pub render : Result (List ℕ)
  pub mode : ℕ
  pub tag : ℕ
  pub version : ℕ

pub record WriteFailure : Type 0 where
  pub path : ℕ
  pub message : Text
  pub tag : ℕ

-- `State` and `Inner`, the statics of `persist`, the files, the jobs that were taken and those that their
-- callers have to execute, and the failures that were reported.
pub record System : Type 0 where
  pub pending : Map Job
  pub running : Bool
  pub flushing : ℕ
  pub closed : Bool
  pub writes : ℕ
  pub next_version : ℕ
  pub applied : ℕ → ℕ
  pub files : ℕ → Option (List ℕ)
  pub in_flight : List (ℕ × Job)
  pub called : List (ℕ × Job)
  pub failures : List WriteFailure

unfoldable pub new : System
new = record {
  pending = [];
  running = false;
  flushing = 0;
  closed = false;
  writes = 0;
  next_version = 1;
  applied = λ path. 0;
  files = λ path. none;
  in_flight = [];
  called = [];
  failures = [];
}

-- `NEXT_VERSION.fetch_add(1)`: the version given, and the one after it.
unfoldable pub next_version : System → ℕ × System
next_version s = (s.next_version, record s { next_version = (s.next_version + 1) % u64_mod })

-- `has_runtime` is whether the caller runs in a runtime; `version` was taken before.
unfoldable pub write_lazy : System → ℕ → ℕ → ℕ → Result (List ℕ) → ℕ → Bool → System
write_lazy s path mode tag render version has_runtime =
    let job : Job = record { render = render; mode = mode; tag = tag; version = version } in
    let queued = not s.closed && (s.running || has_runtime) in
    if queued
    then record s { running = true; pending = Map.insert path job s.pending }
    else record s { pending = Map.remove path s.pending; called = s.called ++ (path, job) ∷ [] }

-- `std::mem::take` of the pending jobs, by `write_pending_now` and `write_all`.
unfoldable pub take_all : System → System
take_all s = record s { pending = []; in_flight = s.in_flight ++ s.pending }

-- `write_due` takes the jobs that are due: any may be, since the clock is left open.
unfoldable pub take_due : System → List ℕ → System
take_due s [] = s
take_due s (path ∷ paths) = elim (Map.get s.pending path) [
  | none ↦ take_due s paths
  | some job ↦
      take_due
        (record s {
          pending = Map.remove path s.pending;
          in_flight = s.in_flight ++ (path, job) ∷ [];
        })
        paths
]

-- A failure is reported.
unfoldable pub report : System → ℕ → Job → Text → System
report s path job message = record s {
  failures = s.failures ++ (record { path = path; message = message; tag = job.tag }) ∷ [];
}

abbrev pub changed_at {ℓ} : {A : Type ℓ} → (ℕ → A) → ℕ → A → ℕ → A
changed_at f path a other = if path == other then a else f other

-- `write_file` and what follows it: `outcome` is what it gives. A write that fails leaves the file, since
-- the contents go to a temporary file first.
unfoldable pub write_file :
    System → ℕ → Job → List ℕ → Result (Unit {0}) → System × Result (Unit {0})
write_file s path job contents (ok u) = (
  record s {
    applied = changed_at s.applied path job.version;
    files = changed_at s.files path (some contents);
  },
  ok u,
)
write_file s path job contents (err message) = (s, err message)

-- `write_locked` with a version.
unfoldable pub write_versioned :
    System → ℕ → Job → List ℕ → Result (Unit {0}) → System × Result (Unit {0})
unfolding write_file
write_versioned s path job contents outcome =
    if leb job.version (s.applied path) then (s, ok tt) else write_file s path job contents outcome

-- What is done with the outcome of the render.
unfoldable pub write_rendered :
    System → ℕ → Job → Result (List ℕ) → Result (Unit {0}) → System × Result (Unit {0})
unfolding write_versioned
write_rendered s path job (ok contents) outcome = write_versioned s path job contents outcome
write_rendered s path job (err message) outcome = (s, err message)

-- `execute`. A render that panics is one that fails.
unfoldable pub execute : System → ℕ → Job → Result (Unit {0}) → System × Result (Unit {0})
unfolding write_rendered
execute s path job outcome = write_rendered s path job job.render outcome

-- The end of a `write_lazy` that does not queue: its caller gets the result.
unfoldable pub write_called : System → ℕ → Job → Result (Unit {0}) → System × Result (Unit {0})
unfolding execute
write_called s path job outcome = execute (record s { writes = s.writes + 1 }) path job outcome

unfoldable pub report_failure : System → ℕ → Job → Result (Unit {0}) → System
report_failure s path job (ok u) = s
report_failure s path job (err message) = report s path job message

-- The body of the loops over the jobs taken: a failure is reported.
unfoldable pub write_taken : System → ℕ → Job → Result (Unit {0}) → System
unfolding execute report_failure
write_taken s path job outcome =
    let (s', result) = execute (record s { writes = s.writes + 1 }) path job outcome in
    report_failure s' path job result

-- What `flush` does under the lock.
unfoldable pub ask_flush : System → System
ask_flush s = if s.running then record s { flushing = s.flushing + 1 } else s

unfoldable pub flush : System → System
unfolding ask_flush
flush s = if s.running then ask_flush s else take_all s

-- What `flush` does once its wait is over.
unfoldable pub flush_waited : System → System
unfolding take_all
flush_waited s = if s.running then s else take_all s

-- What `close` does under the lock.
unfoldable pub mark_closed : System → System
mark_closed s = record s { closed = true }

unfoldable pub close : System → System
unfolding take_all mark_closed
close s = take_all (mark_closed s)

-- The task ends: `RunningMark` is dropped, and clears the state under the lock.
unfoldable pub mark_ended : System → System
mark_ended s = record s { running = false; flushing = 0 }

unfoldable pub task_ends : System → System
unfolding take_all mark_ended
task_ends s = take_all (mark_ended s)

-- A round of `run` takes those who wait for a flush under the lock, and then all jobs, if it was asked to.
unfoldable pub take_flushing : System → System
take_flushing s = record s { flushing = 0 }

unfoldable pub round_all : System → System
unfolding take_all take_flushing
round_all s = take_all (take_flushing s)
