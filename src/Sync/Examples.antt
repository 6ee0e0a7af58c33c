-- ===== src/Sync/Examples.antt =====
-- Tests of the comparison, and its theorems at concrete trees.
use Prim.Native.Nat.{ℕ}
use mathlib.Core.Path.{◌≡◌, refl}
use mathlib.Core.Bool.{true, false}
use mathlib.Core.Option.{none, some}
use mathlib.Core.List.{List, [], ◌∷◌}
use native.Mathlib.Omega.{arith}
use term_connect.Shared.{All}
use term_connect.Shared.Text.{lit}
use term_connect.Sync.Paths.{path_set, insert_path, path_less, below_any, lookup_path}
use term_connect.Sync.Compare.{
  both, SyncOptions, by_times, SyncAction, upload, download, skip, SyncItem, TreeEntry, file, dir,
  Tree, verdict_for, item_of, push_item, compare_paths, compare, validate, keys_of, target_newer,
}
use term_connect.Sync.Actions.{
  allows, action_after, allows-action_after, Proposed, compare-Proposed,
}
use term_connect.Sync.Mirror.{mirror_options, mirror_verdict, verdict_for-mirror}

abbrev file_at : ℕ → ℕ → TreeEntry
file_at size time = record { kind = file; size = size; modified = some time }

abbrev folder : TreeEntry
folder = record { kind = dir; size = 0; modified = none }

abbrev both_ways : SyncOptions
both_ways = record { direction = both; by = by_times; subfolders = true }

-- `d` is a folder here and a file there, so `d/x` is not looked at.
abbrev here : Tree
here =
    ((lit "a" ∷ []), file_at 5 100)
    ∷ ((lit "d" ∷ []), folder)
    ∷ ((lit "d" ∷ lit "x" ∷ []), file_at 1 1)
    ∷ []

abbrev there : Tree
there =
    ((lit "a" ∷ []), file_at 6 50)
    ∷ ((lit "b" ∷ []), file_at 2 60)
    ∷ ((lit "d" ∷ []), file_at 9 9)
    ∷ []

actions : List SyncItem → List SyncAction
actions [] = []
actions (i ∷ items) = i.action ∷ actions items

compare-here : actions (compare here there both_ways 2 true) ≡ upload ∷ download ∷ skip ∷ []
unfolding actions compare compare_paths path_set insert_path path_less below_any lookup_path keys_of
    validate verdict_for push_item item_of
compare-here = refl

abbrev kept : SyncItem
kept = record {
  id = 0;
  path = lit "a" ∷ [];
  local = some (record { size = 5; modified = some 100 });
  remote = none;
  action = upload;
  reason = target_newer;
  ticked = true;
  flippable = false;
}

allows-action_after_example :
    (a : SyncAction) × (action_after kept upload both ≡ some a) × (allows kept a both ≡ true)
allows-action_after_example = allows-action_after kept upload both

compare-Proposed_example : All (Proposed both) (compare here there both_ways 2 true)
compare-Proposed_example = compare-Proposed here there both_ways 2 true

verdict_for-mirror_example :
    verdict_for (some (file_at 6 50)) (some (file_at 5 100)) (mirror_options both_ways) 2 true
    ≡ mirror_verdict (verdict_for (some (file_at 5 100)) (some (file_at 6 50)) both_ways 2 true)
verdict_for-mirror_example =
    verdict_for-mirror (some (file_at 5 100)) (some (file_at 6 50)) both_ways 2 true
      (λ t e. ground arith) (λ t e. ground arith)
