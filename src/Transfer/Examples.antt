-- ===== src/Transfer/Examples.antt =====
-- Tests of plans, conflicts and snapshots, and their theorems at concrete files.
use Prim.Native.Nat.{ℕ, ◌+◌, ◌≤◌}
use mathlib.Core.Path.{◌≡◌, refl}
use mathlib.Core.Bool.{true, false}
use mathlib.Core.Option.{none, some}
use mathlib.Core.List.{List, [], ◌∷◌}
use term_connect.Shared.{All, length}
use term_connect.Shared.Text.{Text, lit}
use term_connect.Transfer.Job.{upload}
use term_connect.Transfer.Plan.{
  root, normal, FilePath, PlannedFile, DirectoryPlan, DestinationListing, Names, mark_conflicts,
  taken_names, planned_file_for_loose_entry,
}
use term_connect.Transfer.Conflicts.Marks.{AreMarksOf}
use term_connect.Transfer.Conflicts.UniqueName.{unique_name, numbered, FirstFree, unique_name_lem}
use term_connect.Transfer.Conflicts.Resolve.{overwrite, rename, resolve}
use term_connect.Transfer.Conflicts.Safety.{
  accounted, resolve-accounted, Marked, Places, resolve-Places, mark_conflicts-Marked,
}
use term_connect.Transfer.Queue.State.{new, TransferQueue}
use term_connect.Transfer.Queue.Operations.{enqueue}

abbrev taken : Names
taken = lit "a.txt" ∷ lit "a (1).txt" ∷ []

unique_name-second : unique_name (lit "a.txt") taken ≡ lit "a (2).txt"
unfolding unique_name numbered term_connect.Transfer.Conflicts.UniqueName.split_extension
    term_connect.Transfer.Conflicts.UniqueName.decimal
unique_name-second = refl

unique_name_lem_example :
    (k : ℕ) × (k ≤ length taken + 1)
    × (unique_name (lit "a.txt") taken ≡ numbered (lit "a.txt") k)
    × FirstFree (lit "a.txt") taken 1 k
unique_name_lem_example = unique_name_lem (lit "a.txt") taken

abbrev there : FilePath
there = normal (lit "d") ∷ root ∷ []

abbrev planned : Text → PlannedFile
planned name = planned_file_for_loose_entry name (normal name ∷ root ∷ []) 5 there

abbrev listing : DestinationListing
listing =
    (lit "a.txt", record { size = 3; modified = none; is_dir = false })
    ∷ (lit "b", record { size = 0; modified = none; is_dir = true })
    ∷ []

abbrev listings : List (FilePath × DestinationListing)
listings = (there, listing) ∷ []

abbrev files : List PlannedFile
files = planned (lit "a.txt") ∷ planned (lit "b") ∷ planned (lit "c") ∷ []

abbrev plan : DirectoryPlan
plan = record {
  files = mark_conflicts listings files;
  skipped_symlinks = 0;
  taken_names = taken_names (mark_conflicts listings files) listings;
}

resolve-accounted_example : accounted (resolve plan (rename ∷ overwrite ∷ [])) ≡ length plan.files
resolve-accounted_example = resolve-accounted plan (rename ∷ overwrite ∷ [])

files_new : All (λ (f : PlannedFile). f.existing ≡ none) files
unfolding planned_file_for_loose_entry
files_new = (refl, (refl, (refl, tt)))

mark_conflicts-Marked_example :
    All Marked (mark_conflicts listings files)
    × AreMarksOf listings files (mark_conflicts listings files)
mark_conflicts-Marked_example = mark_conflicts-Marked listings files files_new

resolve-Places_example :
    Places plan.taken_names plan.files (resolve plan (rename ∷ overwrite ∷ [])).files
resolve-Places_example =
    resolve-Places plan (rename ∷ overwrite ∷ []) (mark_conflicts-Marked listings files files_new).0

abbrev queue : TransferQueue
queue = (enqueue new 7 upload (lit "a") (lit "/a") (lit "a") 10 (some 0)).0
