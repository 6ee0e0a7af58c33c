-- ===== src/Persist/Latest.antt =====
-- The order in which jobs are executed does not matter: a file ends with what its newest job rendered.
use Prim.Native.Nat.{ℕ, ◌+◌, ◌≤◌}
use mathlib.Core.Path.{◌≡◌, refl, sym, ap, ◌∙◌}
use mathlib.Core.Bool.{Bool, true, false}
use mathlib.Core.Option.{none, some}
use mathlib.Core.List.{List, [], ◌∷◌}
use mathlib.Core.Logic.{◌⊎◌, inl, inr}
use native.Mathlib.Omega.{arith}
use term_connect.Shared.{◌==◌, leb, Bool-cases, ==→eq, leb→le}
use term_connect.Shared.Results.{Result, ok, err, err_is_no_ok}
use term_connect.Persist.Writer.{
  Job, System, new, changed_at, write_file, write_versioned, write_rendered, execute, write_called,
  write_taken, report_failure, report,
}

-- A job that is executed for a path, by the caller of `write_lazy` or by who took it, and what the file
-- system answers if it is written.
pub record Execution : Type 0 where
  pub by_caller : Bool
  pub path : ℕ
  pub job : Job
  pub outcome : Result (Unit {0})

abbrev run_one : Bool → System → Execution → System
run_one true s x = (write_called s x.path x.job x.outcome).0
run_one false s x = write_taken s x.path x.job x.outcome

abbrev pub run_all : System → List Execution → System
run_all s [] = s
run_all s (x ∷ xs) = run_all (run_one x.by_caller s x) xs

-- The execution is of the job for the path, which renders these contents, and writing them succeeds.
abbrev Succeeds : ℕ → Job → List ℕ → Execution → Type 0
Succeeds p j contents x =
    (x.path ≡ p) × (x.job ≡ j) × (j.render ≡ ok contents) × (x.outcome ≡ ok tt)

abbrev pub OneSucceeds : ℕ → Job → List ℕ → List Execution → Type 0
OneSucceeds p j contents [] = ⊥
OneSucceeds p j contents (x ∷ xs) = Succeeds p j contents x ⊎ OneSucceeds p j contents xs

-- The file holds what a successful execution rendered, whose version is noted.
abbrev pub Holds : System → ℕ → List Execution → Type 0
Holds s p xs =
    (j : Job) × (contents : List ℕ) × (OneSucceeds p j contents xs)
    × (s.files p ≡ some contents)
    × (s.applied p ≡ j.version)

-- What the executions make of the file of a path.
pub record Grows (s s' : System) (p : ℕ) (xs : List Execution) : Type 0 where
  pub later : s.applied p ≤ s'.applied p
  pub newest :
      (j : Job) (contents : List ℕ) → OneSucceeds p j contents xs → j.version ≤ s'.applied p
  pub holds : ((s'.applied p ≡ s.applied p) × (s'.files p ≡ s.files p)) ⊎ Holds s' p xs

-- The file and its version are all that matters of a system.
same-Grows :
    (s s' t t' : System) (p : ℕ) (xs : List Execution)
    → t.applied p ≡ s.applied p
    → t.files p ≡ s.files p
    → t'.applied p ≡ s'.applied p
    → t'.files p ≡ s'.files p
    → Grows s s' p xs
    → Grows t t' p xs
same-Grows s s' t t' p xs a f a' f' g = record {
  later = omega (arith, a, a', g.later);
  newest = λ j c h. omega (arith, a', g.newest j c h);
  holds = elim g.holds [
    | inl (x, y) ↦ inl (a' ∙ x ∙ sym a, f' ∙ y ∙ sym f)
    | inr (j, c, h, y, x) ↦ inr (j, c, h, f' ∙ y, a' ∙ x)
  ];
}

module _ (s : System) (x : Execution) (p : ℕ) where
  -- The file stays, and no job that should be in it is newer.
  stays-Grows :
      (t : System)
      → t.applied p ≡ s.applied p
      → t.files p ≡ s.files p
      → ((j : Job) (contents : List ℕ) → Succeeds p j contents x → j.version ≤ s.applied p)
      → Grows s t p (x ∷ [])
  stays-Grows t a f old = record {
    later = omega (arith, a);
    newest = λ j c h. elim h [
      | inl one ↦ omega (arith, a, old j c one)
      | inr none_left ↦ absurd none_left
    ];
    holds = inl (a, f);
  }

  version_of : (j : Job) (contents : List ℕ) → Succeeds p j contents x → x.job.version ≡ j.version
  version_of j contents (at, same, r, o) = ap (λ (j : Job). j.version) same

  module _ (contents : List ℕ) (rendered : x.job.render ≡ ok contents) where
    -- The job is newer than the file, and writing it succeeds.
    abbrev written : System
    written = record s {
      applied = changed_at s.applied x.path x.job.version;
      files = changed_at s.files x.path (some contents);
    }

    written-Grows :
        x.outcome ≡ ok tt
        → leb x.job.version (s.applied x.path) ≡ false
        → Grows s written p (x ∷ [])
    written-Grows o newer = elim (Bool-cases (x.path == p)) [
      | inr e ↦
          stays-Grows written (rw e refl) (rw e refl) (λ j c h. absurd (ground (arith, e, h.0)))
      | inl e ↦
          let at : x.path ≡ p = ==→eq x.path p e in
          let below : s.applied x.path ≤ x.job.version = ground (arith, newer) in
          let noted : written.applied p ≡ x.job.version = rw e refl in
          record {
            later = omega (arith, noted, below, ap s.applied at);
            newest = λ j c h. elim h [
              | inl one ↦ omega (arith, noted, version_of j c one)
              | inr none_left ↦ absurd none_left
            ];
            holds = inr (x.job, contents, inl (at, refl, rendered, o), rw e refl, noted);
          }
    ]

    write_file-Grows :
        (outcome : Result (Unit {0}))
        → x.outcome ≡ outcome
        → leb x.job.version (s.applied x.path) ≡ false
        → Grows s (write_file s x.path x.job contents outcome).0 p (x ∷ [])
    unfolding write_file
    write_file-Grows (ok u) o newer = written-Grows o newer
    write_file-Grows (err message) o newer =
        stays-Grows s refl refl (λ j c h. absurd (err_is_no_ok (sym o ∙ h.3)))

    write_versioned-Grows : Grows s (write_versioned s x.path x.job contents x.outcome).0 p (x ∷ [])
    unfolding write_versioned
    write_versioned-Grows = elim (Bool-cases (leb x.job.version (s.applied x.path))) [
      | inl e ↦
          let old = leb→le x.job.version (s.applied x.path) e in
          rw e (
            stays-Grows s refl refl
              (λ j c h. omega (arith, old, version_of j c h, ap s.applied h.0)))
      | inr e ↦ rw e (write_file-Grows x.outcome refl e)
    ]

  write_rendered-Grows :
      (render : Result (List ℕ))
      → x.job.render ≡ render
      → Grows s (write_rendered s x.path x.job render x.outcome).0 p (x ∷ [])
  unfolding write_rendered
  write_rendered-Grows (ok contents) e = write_versioned-Grows contents e
  write_rendered-Grows (err message) e =
      stays-Grows s refl refl
        (λ j c h. absurd (err_is_no_ok (sym e ∙ ap (λ (j : Job). j.render) h.1 ∙ h.2)))

  execute-Grows : Grows s (execute s x.path x.job x.outcome).0 p (x ∷ [])
  unfolding execute
  execute-Grows = write_rendered-Grows x.job.render refl

reported_alike :
    (s : System) (path p : ℕ) (job : Job) (result : Result (Unit {0}))
    → ((report_failure s path job result).applied p ≡ s.applied p)
      × ((report_failure s path job result).files p ≡ s.files p)
unfolding report_failure report
reported_alike s path p job (ok u) = (refl, refl)
reported_alike s path p job (err message) = (refl, refl)

run_one-Grows :
    (by_caller : Bool) (s : System) (x : Execution) (p : ℕ)
    → Grows s (run_one by_caller s x) p (x ∷ [])
unfolding write_called write_taken
run_one-Grows true s x p =
    let counted : System = record s { writes = s.writes + 1 } in
    same-Grows counted _ s _ p (x ∷ []) refl refl refl refl (execute-Grows counted x p)
run_one-Grows false s x p =
    let counted : System = record s { writes = s.writes + 1 } in
    let (s', result) = execute counted x.path x.job x.outcome in
    let (a, f) = reported_alike s' x.path p x.job result in
    same-Grows counted _ s _ p (x ∷ []) refl refl a f (execute-Grows counted x p)

run_all-Grows : (s : System) (xs : List Execution) (p : ℕ) → Grows s (run_all s xs) p xs
run_all-Grows s [] p = record {
  later = omega arith;
  newest = λ j c h. absurd h;
  holds = inl (refl, refl);
}
run_all-Grows s (x ∷ xs) p =
    let one = run_one-Grows x.by_caller s x p in
    let more = run_all-Grows (run_one x.by_caller s x) xs p in
    record {
      later = omega (arith, one.later, more.later);
      newest = λ j c h. elim h [
        | inl now ↦ omega (arith, one.newest j c (inl now), more.later)
        | inr later ↦ more.newest j c later
      ];
      holds = elim more.holds [
        | inr (j, c, h, f, a) ↦ inr (j, c, inr h, f, a)
        | inl (a, f) ↦ elim one.holds [
          | inl (a', f') ↦ inl (a ∙ a', f ∙ f')
          | inr (j, c, h, f', a') ↦ elim h [
            | inl now ↦ inr (j, c, inl now, f ∙ f', a ∙ a')
            | inr none_left ↦ absurd none_left
          ]
        ]
      ];
    }

-- Whatever jobs are executed, in whatever order, by whom, and with whatever failures: if writing a job for
-- a path succeeds, the version noted for the path is at least that of the job; and either nothing was
-- written there, or the file holds what the job with the version noted rendered.
pub run_all-Holds :
    (xs : List Execution) (p : ℕ)
    → ((j : Job) (contents : List ℕ)
        → OneSucceeds p j contents xs
        → j.version ≤ (run_all new xs).applied p)
      × ((((run_all new xs).applied p ≡ 0) × ((run_all new xs).files p ≡ none))
          ⊎ Holds (run_all new xs) p xs)
unfolding new
run_all-Holds xs p = let g = run_all-Grows new xs p in (g.newest, g.holds)
