-- ===== src/Sync/Compare.antt =====
-- `compare` and the verdicts that it reaches for one path.
use Prim.Native.Nat.{ℕ, ◌+◌, ◌-◌, ◌%◌, min}
use mathlib.Core.Bool.{Bool, true, false, not, ◌&&◌}
use mathlib.Core.List.{List, [], ◌∷◌, ◌++◌}
use mathlib.Core.Option.{Option, none, some}
use term_connect.Shared.{◌==◌, ltb, if◌then◌else◌, length, u64_mod}
use term_connect.Sync.Paths.{FilePath, path_set, below_any, lookup_path}

pub data SyncDirection : Type 0 where
  local_to_remote remote_to_local both : SyncDirection

pub data SyncBy : Type 0 where
  by_times by_sizes : SyncBy

pub record SyncOptions : Type 0 where
  pub direction : SyncDirection
  pub by : SyncBy
  pub subfolders : Bool

-- `Err` carries a fixed message: here, `false`.
is_valid : SyncDirection → SyncBy → Bool
is_valid both by_sizes = false
is_valid _ _ = true

unfoldable pub validate : SyncOptions → Bool
unfolding is_valid
validate o = is_valid o.direction o.by

pub data SyncAction : Type 0 where
  upload download skip : SyncAction

pub data SyncReason : Type 0 where
  only_local only_remote local_newer remote_newer target_newer same_time_different_size : SyncReason
  size_differs size_differs_time_unknown kind_mismatch : SyncReason

pub record SyncFacts : Type 0 where
  pub size : ℕ
  pub modified : Option ℕ

pub record SyncItem : Type 0 where
  pub id : ℕ
  pub path : FilePath
  pub local : Option SyncFacts
  pub remote : Option SyncFacts
  pub action : SyncAction
  pub reason : SyncReason
  pub ticked : Bool
  pub flippable : Bool

pub data TreeKind : Type 0 where
  file dir symlink : TreeKind

pub record TreeEntry : Type 0 where
  pub kind : TreeKind
  pub size : ℕ
  pub modified : Option ℕ

unfoldable pub facts : TreeEntry → SyncFacts
facts e = record { size = e.size; modified = e.modified }

abbrev pub Tree : Type 0
Tree = List (FilePath × TreeEntry)

pub record Verdict : Type 0 where
  pub action : SyncAction
  pub reason : SyncReason
  pub ticked : Bool

unfoldable pub copy : SyncAction → SyncReason → Option Verdict
copy action reason = some (record { action = action; reason = reason; ticked = true })

unfoldable pub ask : SyncReason → Option Verdict
ask reason = some (record { action = skip; reason = reason; ticked = false })

unfoldable pub only_one_side : Bool → SyncDirection → Option Verdict
unfolding copy
only_one_side true local_to_remote = copy upload only_local
only_one_side true both = copy upload only_local
only_one_side false remote_to_local = copy download only_remote
only_one_side false both = copy download only_remote
only_one_side _ _ = none

unfoldable pub newer_side : Bool → SyncDirection → Option Verdict
unfolding copy ask
newer_side true local_to_remote = copy upload local_newer
newer_side true both = copy upload local_newer
newer_side false remote_to_local = copy download remote_newer
newer_side false both = copy download remote_newer
newer_side _ _ = ask target_newer

-- Which way to copy for a reason that does not name a side.
by_direction : SyncReason → SyncDirection → Option Verdict
by_direction reason local_to_remote = copy upload reason
by_direction reason remote_to_local = copy download reason
by_direction reason both = ask reason

unfoldable pub by_size : TreeEntry → TreeEntry → SyncDirection → Option Verdict
unfolding by_direction copy ask
by_size local remote direction =
    if local.size == remote.size then none else by_direction size_differs direction

unfoldable pub saturating_add : ℕ → ℕ → ℕ
saturating_add a b = min (a + b) (u64_mod - 1)

-- The last `match` of `by_time`.
forgive : Bool → Bool → Option Verdict → Option Verdict
forgive sizes_equal target_keeps_times none = none
forgive sizes_equal target_keeps_times (some v) = elim v.reason [
  | target_newer ↦ if sizes_equal && not target_keeps_times then none else some v
  | _ ↦ some v
]

by_known_times : ℕ → ℕ → Bool → SyncDirection → ℕ → Bool → Option Verdict
unfolding saturating_add
by_known_times local_time remote_time sizes_equal direction tolerance target_keeps_times =
    if ltb (saturating_add remote_time tolerance) local_time
    then forgive sizes_equal target_keeps_times (newer_side true direction)
    else if ltb (saturating_add local_time tolerance) remote_time
    then forgive sizes_equal target_keeps_times (newer_side false direction)
    else if sizes_equal
    then none
    else ask same_time_different_size

by_unknown_times : Bool → SyncDirection → Option Verdict
by_unknown_times sizes_equal direction =
    if sizes_equal then none else by_direction size_differs_time_unknown direction

by_times_of : Option ℕ → Option ℕ → Bool → SyncDirection → ℕ → Bool → Option Verdict
by_times_of (some local_time) (some remote_time) sizes_equal direction tolerance keeps =
    by_known_times local_time remote_time sizes_equal direction tolerance keeps
by_times_of _ _ sizes_equal direction tolerance keeps = by_unknown_times sizes_equal direction

unfoldable pub by_time : TreeEntry → TreeEntry → SyncDirection → ℕ → Bool → Option Verdict
unfolding by_times_of by_known_times by_unknown_times by_direction forgive copy ask newer_side
by_time local remote direction tolerance target_keeps_times =
    by_times_of local.modified remote.modified (local.size == remote.size) direction tolerance
      target_keeps_times

is_flippable : SyncAction → SyncReason → Bool
is_flippable skip target_newer = true
is_flippable skip same_time_different_size = true
is_flippable skip size_differs_time_unknown = true
is_flippable _ _ = false

unfoldable pub flippable : Verdict → Bool
unfolding is_flippable
flippable v = is_flippable v.action v.reason

unfoldable pub same_kind : TreeKind → TreeKind → Bool
same_kind file file = true
same_kind dir dir = true
same_kind symlink symlink = true
same_kind _ _ = false

unfoldable pub is_file : TreeKind → Bool
is_file file = true
is_file _ = false

-- The first arm of the `match`: both sides are there and differ in kind.
unfoldable pub is_mismatch : Option TreeEntry → Option TreeEntry → Bool
unfolding same_kind
is_mismatch (some local) (some remote) = not (same_kind local.kind remote.kind)
is_mismatch _ _ = false

by_option : SyncBy → TreeEntry → TreeEntry → SyncDirection → ℕ → Bool → Option Verdict
by_option by_sizes local remote direction tolerance keeps = by_size local remote direction
by_option by_times local remote direction tolerance keeps =
    by_time local remote direction tolerance keeps

unfoldable pub verdict_for :
    Option TreeEntry → Option TreeEntry → SyncOptions → ℕ → Bool → Option Verdict
unfolding is_mismatch is_file ask by_option by_size by_time only_one_side
verdict_for none none o tolerance keeps = none
verdict_for (some local) none o tolerance keeps =
    if is_file local.kind then only_one_side true o.direction else none
verdict_for none (some remote) o tolerance keeps =
    if is_file remote.kind then only_one_side false o.direction else none
verdict_for (some local) (some remote) o tolerance keeps =
    if is_mismatch (some local) (some remote)
    then ask kind_mismatch
    else if is_file local.kind
    then by_option o.by local remote o.direction tolerance keeps
    else none

facts_of : Option TreeEntry → Option SyncFacts
facts_of none = none
facts_of (some e) = some (facts e)

abbrev pub u32_mod : ℕ
u32_mod = 4294967296

unfoldable pub item_of : ℕ → FilePath → Option TreeEntry → Option TreeEntry → Verdict → SyncItem
unfolding facts_of facts flippable
item_of count path local remote v = record {
  id = count % u32_mod;
  path = path;
  local = facts_of local;
  remote = facts_of remote;
  action = v.action;
  reason = v.reason;
  ticked = v.ticked;
  flippable = flippable v;
}

-- The item that one path adds, if any.
unfoldable pub push_item :
    List SyncItem → FilePath → Option TreeEntry → Option TreeEntry → Option Verdict → List SyncItem
push_item items path local remote none = items
push_item items path local remote (some v) =
    items ++ item_of (length items) path local remote v ∷ []

unfoldable pub compare_paths :
    Tree
    → Tree
    → SyncOptions
    → ℕ
    → Bool
    → List FilePath
    → List SyncItem
    → List FilePath
    → List SyncItem
compare_paths local remote o tolerance keeps mismatched items [] = items
compare_paths local remote o tolerance keeps mismatched items (path ∷ paths) =
    let l = lookup_path local path in
    let r = lookup_path remote path in
    let below = below_any mismatched path in
    compare_paths local remote o tolerance keeps
      (if below then mismatched else if is_mismatch l r then path ∷ mismatched else mismatched)
      (if below then items else push_item items path l r (verdict_for l r o tolerance keeps)) paths

unfoldable pub keys_of : Tree → List FilePath
keys_of [] = []
keys_of ((path, e) ∷ tree) = path ∷ keys_of tree

unfoldable pub compare : Tree → Tree → SyncOptions → ℕ → Bool → List SyncItem
unfolding keys_of
compare local remote o tolerance target_keeps_times =
    if not (validate o)
    then []
    else compare_paths local remote o tolerance target_keeps_times [] []
        (path_set (keys_of local ++ keys_of remote))
