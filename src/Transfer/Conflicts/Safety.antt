-- ===== src/Transfer/Conflicts/Safety.antt =====
-- What a resolved plan promises: each file is accounted for, and nothing is written over a folder or
-- under a name that is taken.
use Prim.Native.Nat.{ℕ, suc, ◌+◌}
use mathlib.Core.Path.{◌≡◌, refl, sym}
use mathlib.Core.Bool.{true, false}
use mathlib.Core.Option.{Option, none, some}
use mathlib.Core.List.{List, [], ◌∷◌}
use mathlib.Core.Logic.{◌⊎◌, inl, inr, if_pos, if_neg}
use native.Mathlib.Omega.{arith}
use term_connect.Shared.{length, Bool-cases, All}
use term_connect.Shared.Text.{Text}
use term_connect.Shared.HashMap.{get, insert, get-insert}
use term_connect.Transfer.Plan.{
  normal, FilePath, FilePath-discrete, PlannedFile, is_some, is_conflict, Names, has_name,
  insert_name, TakenNames, DirectoryPlan, DestinationListing, destination_parent_and_name, or_empty,
  mark_at, mark_conflict, mark_conflicts,
}
use term_connect.Transfer.Conflicts.Marks.{AreMarksOf, mark_conflicts-AreMarksOf}
use term_connect.Transfer.Conflicts.UniqueName.{unique_name, unique_name_lem}
use term_connect.Transfer.Conflicts.Resolve.{
  Resolution, overwrite, skip, rename, resume, is_folder, Outcome, kept, skipped, skipped_partial,
  blocked, settle, add_outcome, rename_at, rename_destination, resolve_files, resolve, ResolvedPlan,
  next_answer, answers_left,
}

abbrev pub accounted : ResolvedPlan → ℕ
accounted r = length r.files + r.skipped + r.skipped_partials + r.blocked_by_folder

add_outcome-accounted :
    (o : Outcome) (rest : TakenNames → ResolvedPlan) (taken : TakenNames) (n : ℕ)
    → ((taken' : TakenNames) → accounted (rest taken') ≡ n)
    → accounted (add_outcome o rest taken) ≡ suc n
unfolding add_outcome
add_outcome-accounted (kept g taken') rest taken n h = omega (arith, h taken')
add_outcome-accounted skipped rest taken n h = omega (arith, h taken)
add_outcome-accounted skipped_partial rest taken n h = omega (arith, h taken)
add_outcome-accounted blocked rest taken n h = omega (arith, h taken)

resolve_files-accounted :
    (fs : List PlannedFile) (answers : List Resolution) (taken : TakenNames)
    → accounted (resolve_files fs answers taken) ≡ length fs
unfolding resolve_files
resolve_files-accounted [] answers taken = omega arith
resolve_files-accounted (f ∷ fs) answers taken = elim (Bool-cases (is_conflict f)) [
  | inr e ↦ rw e (omega (arith, resolve_files-accounted fs answers taken))
  | inl e ↦ rw e (
      add_outcome-accounted (settle (next_answer answers) f taken) _ taken (length fs)
        (λ taken'. resolve_files-accounted fs (answers_left answers) taken'))
]

-- Each file of the plan is kept in the result or counted once, as skipped, as a part skipped or as
-- blocked by a folder, however many answers there are.
pub resolve-accounted :
    (plan : DirectoryPlan) (answers : List Resolution)
    → accounted (resolve plan answers) ≡ length plan.files
unfolding resolve
resolve-accounted plan answers = resolve_files-accounted plan.files answers plan.taken_names

abbrev pub names_at : TakenNames → FilePath → Names
names_at taken p = or_empty (get FilePath-discrete taken p)

-- Where a file may go: to the planned place, if no folder stands there, or to a free name beside it.
abbrev pub GoesTo : TakenNames → PlannedFile → PlannedFile → Type 0
GoesTo taken f g =
    ((g.destination ≡ f.destination) × (is_folder f.existing ≡ false))
    ⊎ ((p : FilePath) × (n m : Text) × (destination_parent_and_name f ≡ some (p, n))
        × (g.destination ≡ normal m ∷ p)
        × (has_name m (names_at taken p) ≡ false))

-- A file whose path names nothing has nothing in its place.
abbrev pub Marked : PlannedFile → Type 0
Marked f = destination_parent_and_name f ≡ none → f.existing ≡ none

-- No name is given back.
abbrev pub Grown : TakenNames → TakenNames → Type 0
Grown old new =
    (p : FilePath) (n : Text)
    → has_name n (names_at new p) ≡ false
    → has_name n (names_at old p) ≡ false

insert_name-free :
    (n m : Text) (ns : Names) → has_name m (insert_name n ns) ≡ false → has_name m ns ≡ false
unfolding insert_name
insert_name-free n m ns h = ground (arith, h)

insert-Grown :
    (p : FilePath) (n : Text) (taken : TakenNames)
    → Grown taken (insert FilePath-discrete p (insert_name n (names_at taken p)) taken)
insert-Grown p n taken q m h =
    let read = get-insert FilePath-discrete taken p q (insert_name n (names_at taken p)) in
    elim (FilePath-discrete p q) [
      | yes e ↦
          let kept : has_name m (insert_name n (names_at taken p)) ≡ false =
            rw (read, if_pos _ e) at h in
          rw (sym e) (insert_name-free n m (names_at taken p) kept)
      | no e ↦ rw (read, if_neg _ e) at h
    ]

-- What a settled file is, where it is kept.
abbrev Settled : PlannedFile → TakenNames → Outcome → Type 0
Settled f taken (kept g taken') = GoesTo taken f g × Grown taken taken'
Settled f taken _ = Unit {0}

rename_at-Settled :
    (f : PlannedFile) (taken : TakenNames) (at : Option (FilePath × Text))
    → destination_parent_and_name f ≡ at
    → Marked f
    → is_some f.existing ≡ true
    → GoesTo taken f (rename_at f at taken).0 × Grown taken (rename_at f at taken).1
unfolding rename_at
rename_at-Settled f taken none e marked full =
    let empty : is_some f.existing ≡ false = rw (marked e) refl in ground (arith, empty, full)
rename_at-Settled f taken (some (p, name)) e marked full =
    let names = names_at taken p in
    let (k, small, found, (above, free, least)) = unique_name_lem name names in
    (
      inr (p, name, unique_name name names, e, refl, rw found free),
      insert-Grown p (unique_name name names) taken,
    )

settle-Settled :
    (a : Resolution) (f : PlannedFile) (taken : TakenNames)
    → Marked f
    → Settled f taken (settle a f taken)
unfolding settle rename_destination rename_at
settle-Settled overwrite f taken marked = elim (Bool-cases (is_folder f.existing)) [
  | inl e ↦ rw e tt
  | inr e ↦ rw e (inl (refl, e), λ p n h. h)
]
settle-Settled resume f taken marked = elim (Bool-cases (is_folder f.existing)) [
  | inl e ↦ rw e tt
  | inr e ↦ rw e (inl (refl, e), λ p n h. h)
]
settle-Settled skip f taken marked = elim (Bool-cases (is_some f.existing)) [
  | inl e ↦ rw e tt
  | inr e ↦ rw e tt
]
settle-Settled rename f taken marked = elim (Bool-cases (is_some f.existing)) [
  | inl e ↦ rw e (rename_at-Settled f taken _ refl marked e)
  | inr e ↦ rw e (inl (refl, ground (arith, e)), λ p n h. h)
]

module _ (taken : TakenNames) where
  -- The files of the plan, each left out or gone to its place, in their order.
  pub data Places : List PlannedFile → List PlannedFile → Type 0 where
    over : Places [] []
    left_out : {f : PlannedFile} {fs gs : List PlannedFile} → Places fs gs → Places (f ∷ fs) gs
    goes :
        {f g : PlannedFile} {fs gs : List PlannedFile}
        → GoesTo taken f g
        → Places fs gs
        → Places (f ∷ fs) (g ∷ gs)

-- A place that is free later was free before.
GoesTo-Grown :
    (old new : TakenNames) (f g : PlannedFile) → Grown old new → GoesTo new f g → GoesTo old f g
GoesTo-Grown old new f g grown (inl planned) = inl planned
GoesTo-Grown old new f g grown (inr (p, n, m, at, to, free)) = inr (p, n, m, at, to, grown p m free)

add_outcome-Places :
    (old taken : TakenNames) (f : PlannedFile) (fs : List PlannedFile) (o : Outcome)
    (rest : TakenNames → ResolvedPlan)
    → Grown old taken
    → Settled f taken o
    → ((taken' : TakenNames) → Grown old taken' → Places old fs (rest taken').files)
    → Places old (f ∷ fs) (add_outcome o rest taken).files
unfolding add_outcome
add_outcome-Places old taken f fs (kept g taken') rest grown (to, more) h =
    goes (GoesTo-Grown old taken f g grown to) (h taken' (λ p n e. grown p n (more p n e)))
add_outcome-Places old taken f fs skipped rest grown s h = left_out (h taken grown)
add_outcome-Places old taken f fs skipped_partial rest grown s h = left_out (h taken grown)
add_outcome-Places old taken f fs blocked rest grown s h = left_out (h taken grown)

resolve_files-Places :
    (old taken : TakenNames) (fs : List PlannedFile) (answers : List Resolution)
    → All Marked fs
    → Grown old taken
    → Places old fs (resolve_files fs answers taken).files
unfolding resolve_files
resolve_files-Places old taken [] answers marked grown = over
resolve_files-Places old taken (f ∷ fs) answers marked grown = elim (Bool-cases (is_conflict f)) [
  | inl e ↦ rw e (
      add_outcome-Places old taken f fs (settle (next_answer answers) f taken) _ grown
        (settle-Settled (next_answer answers) f taken marked.0)
        (λ taken' more. resolve_files-Places old taken' fs (answers_left answers) marked.1 more))
  | inr e ↦
      let free : is_folder f.existing ≡ false = unfold is_conflict in ground (arith, e) in
      rw e (goes (inl (refl, free)) (resolve_files-Places old taken fs answers marked.1 grown))
]

-- Whatever the answers are, a file of the plan is left out, or goes to its planned place, where no
-- folder stands, or goes to a name in the same folder that the plan does not list as taken. The plan's
-- files are marked: where a path names nothing, nothing stands.
pub resolve-Places :
    (plan : DirectoryPlan) (answers : List Resolution)
    → All Marked plan.files
    → Places plan.taken_names plan.files (resolve plan answers).files
unfolding resolve
resolve-Places plan answers marked =
    resolve_files-Places plan.taken_names plan.taken_names plan.files answers marked (λ p n h. h)

mark_conflict-Marked :
    (listings : List (FilePath × DestinationListing)) (f : PlannedFile)
    → f.existing ≡ none
    → Marked (mark_conflict listings f)
unfolding mark_conflict mark_at destination_parent_and_name
mark_conflict-Marked listings f empty = go (destination_parent_and_name f) refl
  where
    go :
        (at : Option (FilePath × Text))
        → destination_parent_and_name f ≡ at
        → Marked (mark_at listings f at)
    go none e = λ none_there. empty
    go (some a) e = λ none_there. absurd (ground (arith, e, none_there))

All-Marked :
    (listings : List (FilePath × DestinationListing)) (fs : List PlannedFile)
    → All (λ (f : PlannedFile). f.existing ≡ none) fs
    → All Marked (mark_conflicts listings fs)
unfolding mark_conflicts
All-Marked listings [] h = tt
All-Marked listings (f ∷ fs) h = (mark_conflict-Marked listings f h.0, All-Marked listings fs h.1)

-- Each file of a new plan is marked with what the listing of its folder has under its name, and with the
-- file, not a folder, that it has under the name with `.part`; nothing else of a file is changed, and
-- nothing at all of one whose path names nothing, in whose place nothing stands then.
pub mark_conflicts-Marked :
    (listings : List (FilePath × DestinationListing)) (fs : List PlannedFile)
    → All (λ (f : PlannedFile). f.existing ≡ none) fs
    → All Marked (mark_conflicts listings fs) × AreMarksOf listings fs (mark_conflicts listings fs)
mark_conflicts-Marked listings fs h =
    (All-Marked listings fs h, mark_conflicts-AreMarksOf listings fs)
