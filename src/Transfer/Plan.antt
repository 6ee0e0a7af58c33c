-- ===== src/Transfer/Plan.antt =====
-- porthmos-core/src/transfer/plan/mod.rs: the files of a copy before it starts, and what stands where
-- they go. The walk of the source and the listing of the destination are messages to servers and are
-- not modelled. A path is its components, the last one first.
use Prim.Native.Nat.{ℕ}
use mathlib.Core.Bool.{Bool, true, false, ◌||◌}
use mathlib.Core.Option.{Option, none, some}
use mathlib.Core.List.{List, [], ◌∷◌, ◌++◌, map}
use native.Mathlib.Decide.{ℕ_discrete}
use term_connect.Shared.{if◌then◌else◌, any}
use term_connect.Shared.Text.{Text, Text-discrete, text_eq}
use term_connect.Shared.HashMap.{get, insert}
use term_connect.Transfer.Job.{part_suffix}

pub data Component : Type 0 where
  root current up : Component
  normal : Text → Component

abbrev pub FilePath : Type 0
FilePath = List Component

unfoldable pub FilePath-discrete : Discrete FilePath
FilePath-discrete = hlevel ℕ_discrete

-- `Path::parent`
unfoldable pub parent : FilePath → Option FilePath
parent [] = none
parent (root ∷ p) = none
parent (_ ∷ p) = some p

-- `Path::file_name`
unfoldable pub file_name : FilePath → Option Text
file_name (normal n ∷ p) = some n
file_name _ = none

-- `Path::join` with a relative path.
abbrev pub join : FilePath → FilePath → FilePath
join p q = q ++ p

pub record ExistingFile : Type 0 where
  pub size : ℕ
  pub modified : Option ℕ
  pub is_dir : Bool

abbrev pub DestinationListing : Type 0
DestinationListing = List (Text × ExistingFile)

-- The name that is shown is the path that it spells.
pub record PlannedFile : Type 0 where
  pub source : FilePath
  pub destination : FilePath
  pub display_name : FilePath
  pub size : ℕ
  pub existing : Option ExistingFile
  pub source_modified : Option ℕ
  pub partial : Option ExistingFile
  pub resume : Bool

abbrev pub is_some : {A : Type 0} → Option A → Bool
is_some none = false
is_some (some a) = true

unfoldable pub is_conflict : PlannedFile → Bool
is_conflict f = is_some f.existing || is_some f.partial

-- `HashSet<String>`
abbrev pub Names : Type 0
Names = List Text

abbrev pub has_name : Text → Names → Bool
has_name n ns = any (text_eq n) ns

unfoldable pub insert_name : Text → Names → Names
insert_name n ns = if has_name n ns then ns else n ∷ ns

abbrev pub TakenNames : Type 0
TakenNames = List (FilePath × Names)

pub record DirectoryPlan : Type 0 where
  pub files : List PlannedFile
  pub skipped_symlinks : ℕ
  pub taken_names : TakenNames

-- Paths are relative to the root of the walk.
pub record DiscoveredTree : Type 0 where
  pub directories : List FilePath
  pub files : List (FilePath × ℕ × Option ℕ)
  pub skipped_symlinks : ℕ
  pub symlinks : List FilePath

-- The entry's name, path and size are given one by one.
unfoldable pub planned_file_for_loose_entry : Text → FilePath → ℕ → FilePath → PlannedFile
planned_file_for_loose_entry name path size dest_dir = record {
  source = path;
  destination = join dest_dir (normal name ∷ []);
  display_name = normal name ∷ [];
  size = size;
  existing = none;
  source_modified = none;
  partial = none;
  resume = false;
}

tree_file : FilePath → FilePath → FilePath × ℕ × Option ℕ → PlannedFile
tree_file entry_path dest_root (relative, size, modified) = record {
  source = join entry_path relative;
  destination = join dest_root relative;
  display_name = relative;
  size = size;
  existing = none;
  source_modified = modified;
  partial = none;
  resume = false;
}

unfoldable pub planned_files_for_tree : FilePath → FilePath → DiscoveredTree → List PlannedFile
unfolding tree_file
planned_files_for_tree entry_path dest_root tree = map (tree_file entry_path dest_root) tree.files

both_of : Option FilePath → Option Text → Option (FilePath × Text)
both_of (some p) (some n) = some (p, n)
both_of _ _ = none

unfoldable pub parent_and_name : FilePath → Option (FilePath × Text)
unfolding both_of parent file_name
parent_and_name p = both_of (parent p) (file_name p)

unfoldable pub destination_parent_and_name : PlannedFile → Option (FilePath × Text)
destination_parent_and_name f = parent_and_name f.destination

abbrev pub or_empty : {A : Type 0} → Option (List A) → List A
or_empty none = []
or_empty (some xs) = xs

-- `entry(parent).or_default().push(name)`
add_name : List (FilePath × Names) → Option (FilePath × Text) → List (FilePath × Names)
add_name m none = m
add_name m (some (p, n)) =
    insert FilePath-discrete p (or_empty (get FilePath-discrete m p) ++ n ∷ []) m

names_from : List (FilePath × Names) → List PlannedFile → List (FilePath × Names)
unfolding add_name
names_from m [] = m
names_from m (f ∷ fs) = names_from (add_name m (destination_parent_and_name f)) fs

unfoldable pub names_by_parent : List PlannedFile → List (FilePath × Names)
unfolding names_from
names_by_parent files = names_from [] files

-- `.filter(|partial| !partial.is_dir)`
abbrev pub no_folder : Option ExistingFile → Option ExistingFile
no_folder none = none
no_folder (some e) = if e.is_dir then none else some e

unfoldable pub mark_at :
    List (FilePath × DestinationListing) → PlannedFile → Option (FilePath × Text) → PlannedFile
mark_at listings f none = f
mark_at listings f (some (p, n)) =
    let listing = or_empty (get FilePath-discrete listings p) in
    record f {
      existing = get Text-discrete listing n;
      partial = no_folder (get Text-discrete listing (n ++ part_suffix));
    }

unfoldable pub mark_conflict : List (FilePath × DestinationListing) → PlannedFile → PlannedFile
unfolding mark_at
mark_conflict listings f = mark_at listings f (destination_parent_and_name f)

unfoldable pub mark_conflicts :
    List (FilePath × DestinationListing) → List PlannedFile → List PlannedFile
mark_conflicts listings files = map (mark_conflict listings) files

-- `entry(parent).or_default().insert(name)`
unfoldable pub take_name : FilePath → Text → TakenNames → TakenNames
take_name p n taken =
    insert FilePath-discrete p (insert_name n (or_empty (get FilePath-discrete taken p))) taken

take_all : FilePath → DestinationListing → TakenNames → TakenNames
take_all p [] taken = taken
take_all p ((n, e) ∷ listing) taken = take_all p listing (take_name p n taken)

take_listings : List (FilePath × DestinationListing) → TakenNames → TakenNames
unfolding take_all
take_listings [] taken = taken
take_listings ((p, listing) ∷ rest) taken = take_listings rest (
    take_all p listing
      (insert FilePath-discrete p (or_empty (get FilePath-discrete taken p)) taken))

take_planned : Option (FilePath × Text) → TakenNames → TakenNames
take_planned none taken = taken
take_planned (some (p, n)) taken = take_name p n taken

take_files : List PlannedFile → TakenNames → TakenNames
unfolding take_planned
take_files [] taken = taken
take_files (f ∷ fs) taken = take_files fs (take_planned (destination_parent_and_name f) taken)

unfoldable pub taken_names : List PlannedFile → List (FilePath × DestinationListing) → TakenNames
unfolding take_listings take_files
taken_names files listings = take_files files (take_listings listings [])
