-- ===== src/Transfer/Conflicts/Resolve.antt =====
-- The answers to conflicts, and what a plan becomes with them.
use Prim.Native.Nat.{ℕ, suc}
use mathlib.Core.Bool.{Bool, true, false, not, ◌&&◌}
use mathlib.Core.Option.{Option, none, some}
use mathlib.Core.List.{List, [], ◌∷◌}
use term_connect.Shared.{leb, if◌then◌else◌}
use term_connect.Shared.Text.{Text}
use term_connect.Shared.HashMap.{get, insert}
use term_connect.Transfer.Plan.{
  normal, FilePath, FilePath-discrete, ExistingFile, PlannedFile, is_some, is_conflict, Names,
  insert_name, TakenNames, DirectoryPlan, destination_parent_and_name, or_empty,
}
use term_connect.Transfer.Conflicts.UniqueName.{unique_name}

pub data ConflictPolicy : Type 0 where
  ask overwrite skip rename : ConflictPolicy

pub data Resolution : Type 0 where
  overwrite skip rename resume : Resolution

-- `partial.is_some_and(|partial| partial.size >= size)`
whole_partial : Option ExistingFile → ℕ → Bool
whole_partial none size = false
whole_partial (some partial) size = leb size partial.size

answer_for : ConflictPolicy → Option ExistingFile → Option ExistingFile → ℕ → Option Resolution
unfolding whole_partial
answer_for ask existing partial size = none
answer_for _ none partial size = if whole_partial partial size then some overwrite else some resume
answer_for overwrite (some e) (some partial) size = some resume
answer_for overwrite (some e) none size = some overwrite
answer_for skip (some e) partial size = some skip
answer_for rename (some e) partial size = some rename

unfoldable pub resolution_for : ConflictPolicy → PlannedFile → Option Resolution
unfolding answer_for
resolution_for policy f = answer_for policy f.existing f.partial f.size

pub record ConflictInfo : Type 0 where
  pub display_name : FilePath
  pub existing : Option ExistingFile
  pub partial : Option ExistingFile
  pub new_size : ℕ
  pub new_modified : Option ℕ

unfoldable pub conflict_info : PlannedFile → ConflictInfo
conflict_info f = record {
  display_name = f.display_name;
  existing = f.existing;
  partial = f.partial;
  new_size = f.size;
  new_modified = f.source_modified;
}

-- The trait `ConflictSides`: what stands in the file's place, and what is there of it.
pub record Sides : Type 0 where
  pub existing : Option ExistingFile
  pub partial : Option ExistingFile

abbrev pub file_sides : PlannedFile → Sides
file_sides f = record { existing = f.existing; partial = f.partial }

abbrev pub info_sides : ConflictInfo → Sides
info_sides i = record { existing = i.existing; partial = i.partial }

abbrev pub is_folder : Option ExistingFile → Bool
is_folder none = false
is_folder (some e) = e.is_dir

same_bool : Bool → Bool → Bool
same_bool true b = b
same_bool false b = not b

unfoldable pub fits_the_rest : Resolution → Sides → Sides → Bool
unfolding same_bool
fits_the_rest resume answered later = is_some later.partial && not (is_folder later.existing)
fits_the_rest overwrite answered later =
    same_bool (is_some later.existing) (is_some answered.existing)
fits_the_rest rename answered later = is_some later.existing
fits_the_rest skip answered later = true

indices_from : ℕ → List PlannedFile → List ℕ
indices_from i [] = []
indices_from i (f ∷ fs) =
    let rest = indices_from (suc i) fs in if is_conflict f then i ∷ rest else rest

unfoldable pub conflict_indices : DirectoryPlan → List ℕ
unfolding indices_from
conflict_indices plan = indices_from 0 plan.files

-- `Path::with_file_name`
with_file_name : FilePath → Text → FilePath
with_file_name (normal m ∷ p) n = normal n ∷ p
with_file_name p n = normal n ∷ p

renamed_to : PlannedFile → FilePath → Text → Names → TakenNames → PlannedFile × TakenNames
unfolding with_file_name
renamed_to f p n names taken = (
  record f { destination = normal n ∷ p; display_name = with_file_name f.display_name n },
  insert FilePath-discrete p (insert_name n names) taken,
)

unfoldable pub rename_at :
    PlannedFile → Option (FilePath × Text) → TakenNames → PlannedFile × TakenNames
unfolding renamed_to
rename_at f none taken = (f, taken)
rename_at f (some (p, name)) taken =
    let names = or_empty (get FilePath-discrete taken p) in
    renamed_to f p (unique_name name names) names taken

unfoldable pub rename_destination : PlannedFile → TakenNames → PlannedFile × TakenNames
unfolding rename_at
rename_destination f taken = rename_at f (destination_parent_and_name f) taken

pub record ResolvedPlan : Type 0 where
  pub files : List PlannedFile
  pub skipped : ℕ
  pub skipped_partials : ℕ
  pub blocked_by_folder : ℕ

abbrev pub keep_file : PlannedFile → ResolvedPlan → ResolvedPlan
keep_file f r = record r { files = f ∷ r.files }

abbrev pub next_answer : List Resolution → Resolution
next_answer [] = skip
next_answer (a ∷ answers) = a

abbrev pub answers_left : List Resolution → List Resolution
answers_left [] = []
answers_left (a ∷ answers) = answers

-- What becomes of one file.
pub data Outcome : Type 0 where
  kept : PlannedFile → TakenNames → Outcome
  skipped skipped_partial blocked : Outcome

renamed_outcome : PlannedFile × TakenNames → Outcome
renamed_outcome (f, taken) = kept (record f { resume = false }) taken

unfoldable pub settle : Resolution → PlannedFile → TakenNames → Outcome
unfolding renamed_outcome
settle overwrite f taken =
    if is_folder f.existing then blocked else kept (record f { resume = false }) taken
settle resume f taken =
    if is_folder f.existing then blocked else kept (record f { resume = true }) taken
settle skip f taken = if is_some f.existing then skipped else skipped_partial
settle rename f taken =
    if is_some f.existing
    then renamed_outcome (rename_destination f taken)
    else kept (record f { resume = true }) taken

-- What is pushed or counted for a file, in front of what the rest of the loop gives.
unfoldable pub add_outcome : Outcome → (TakenNames → ResolvedPlan) → TakenNames → ResolvedPlan
add_outcome (kept g taken') rest taken = keep_file g (rest taken')
add_outcome skipped rest taken = let r = rest taken in record r { skipped = suc r.skipped }
add_outcome skipped_partial rest taken =
    let r = rest taken in record r { skipped_partials = suc r.skipped_partials }
add_outcome blocked rest taken =
    let r = rest taken in record r { blocked_by_folder = suc r.blocked_by_folder }

unfoldable pub resolve_files : List PlannedFile → List Resolution → TakenNames → ResolvedPlan
unfolding add_outcome
resolve_files [] answers taken = record {
  files = [];
  skipped = 0;
  skipped_partials = 0;
  blocked_by_folder = 0;
}
resolve_files (f ∷ fs) answers taken =
    if is_conflict f
    then add_outcome (settle (next_answer answers) f taken)
        (λ taken'. resolve_files fs (answers_left answers) taken') taken
    else keep_file f (resolve_files fs answers taken)

unfoldable pub resolve : DirectoryPlan → List Resolution → ResolvedPlan
unfolding resolve_files
resolve plan answers = resolve_files plan.files answers plan.taken_names
