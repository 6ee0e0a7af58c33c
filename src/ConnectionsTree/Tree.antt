-- ===== src/ConnectionsTree/Tree.antt =====
-- The tree of groups and its rows. `lower` is `to_lowercase`.
use Prim.Native.Nat.{ℕ, suc}
use mathlib.Core.Bool.{Bool, true, false, ◌&&◌, ◌||◌}
use mathlib.Core.Option.{Option, none, some}
use mathlib.Core.List.{List, [], ◌∷◌, ◌++◌, map}
use term_connect.Shared.{◌==◌, if◌then◌else◌, length, keep, any, is_empty}
use term_connect.Shared.Text.{
  Text, text_eq, text_less, contains_text, trim_text, split_on, strip_char,
}

-- porthmos-core/src/profiles/profile/mod.rs, `ConnectionEntry`: the fields that the tree reads.
pub record ConnectionEntry : Type 0 where
  pub name : Text
  pub host : Text
  pub group : Option Text
  pub tags : List Text

pub data TreeRow : Type 0 where
  group : (path name : Text) (depth count : ℕ) (expanded : Bool) → TreeRow
  connection : (index depth : ℕ) → TreeRow

-- A node has its groups, its connections and its count; the groups are a map in the order of their
-- keys, the name in lower case and the name.
mutual
  pub data Node : Type 0 where
    node : Groups → List ℕ → ℕ → Node

  pub data Groups : Type 0 where
    no_groups : Groups
    with_group : Text × Text → Node → Groups → Groups

abbrev pub default_node : Node
default_node = node no_groups [] 0

unfoldable pub key_less : Text × Text → Text × Text → Bool
key_less (a, b) (c, d) = text_less a c || (text_eq a c && text_less b d)

unfoldable pub key_eq : Text × Text → Text × Text → Bool
key_eq (a, b) (c, d) = text_eq a c && text_eq b d

-- `node.groups.entry(key).or_default()`, changed.
unfoldable pub change_group : Text × Text → (Node → Node) → Groups → Groups
change_group k f no_groups = with_group k (f default_node) no_groups
change_group k f (with_group j child more) =
    let rest = change_group k f more in
    if key_less k j
    then with_group k (f default_node) (with_group j child more)
    else if key_eq k j
    then with_group j (f child) more
    else with_group j child rest

-- `trim_start_matches('#')`
strip_marks : Text → Text
strip_marks [] = []
strip_marks (c ∷ s) = let rest = strip_marks s in if c == b'#' then rest else c ∷ s

unfoldable pub active_filter : Option Text → Option Text
unfolding strip_marks
active_filter none = none
active_filter (some filter) =
    if is_empty (trim_text (strip_marks (trim_text filter))) then none else some filter

module _ (lower : Text → Text) where
  group_matches : Option Text → Text → Bool
  group_matches none needle = false
  group_matches (some g) needle = contains_text (lower g) needle

  text_matches : ConnectionEntry → Text → Bool
  unfolding group_matches
  text_matches e needle =
      contains_text (lower e.name) needle
      || contains_text (lower e.host) needle
      || group_matches e.group needle
      || any (λ t. contains_text (lower t) needle) e.tags

  tag_matches : ConnectionEntry → Text → Bool
  tag_matches e tag = is_empty tag || any (λ t. text_eq (lower t) (lower tag)) e.tags

  unfoldable pub matches : ConnectionEntry → Text → Bool
  unfolding text_matches tag_matches
  matches e filter = elim (strip_char b'#' (trim_text filter)) [
    | some tag ↦ tag_matches e (trim_text tag)
    | none ↦ text_matches e (lower (trim_text filter))
  ]

  unfoldable pub passes : Option Text → ConnectionEntry → Bool
  passes none e = true
  passes (some filter) e = matches e filter

  unfoldable pub match_count : List ConnectionEntry → Option Text → ℕ
  match_count entries filter = length (keep (passes filter) entries)

  -- Down the segments from a node, counting at each one, to where the connection is put.
  unfoldable pub place : List Text → ℕ → Node → Node
  place [] index (node children connections count) =
      node children (connections ++ index ∷ []) (suc count)
  place (segment ∷ segments) index (node children connections count) =
      node (change_group (lower segment, segment) (place segments index) children) connections
        (suc count)

  segments_of : Option Text → List Text
  segments_of none = []
  segments_of (some g) = split_on b'/' g

  unfoldable pub grow : Option Text → List ConnectionEntry → ℕ → Node → Node
  unfolding segments_of
  grow filter [] index root = root
  grow filter (e ∷ entries) index root =
      grow filter entries (suc index)
        (if passes filter e then place (segments_of e.group) index root else root)

unfoldable pub path_of : Text → Text → Text
path_of prefix name = if is_empty prefix then name else prefix ++ (b'/' ∷ name)

unfoldable pub count_of : Node → ℕ
count_of (node children connections count) = count

unfoldable mutual
  unfolding path_of count_of

  pub push_rows : Node → Text → ℕ → List Text → Bool → List TreeRow
  push_rows (node children connections count) prefix depth expanded open_all =
      push_groups children prefix depth expanded open_all
      ++ map (λ index. connection index depth) connections

  pub push_groups : Groups → Text → ℕ → List Text → Bool → List TreeRow
  push_groups no_groups prefix depth expanded open_all = []
  push_groups (with_group (key, name) child more) prefix depth expanded open_all =
      let path = path_of prefix name in
      let is_open = open_all || any (text_eq path) expanded in
      let inner = push_rows child path (suc depth) expanded open_all in
      let rest = push_groups more prefix depth expanded open_all in
      group path name depth (count_of child) is_open ∷ ((if is_open then inner else []) ++ rest)

abbrev is_some_text : Option Text → Bool
is_some_text none = false
is_some_text (some t) = true

unfoldable pub rows : (Text → Text) → List ConnectionEntry → List Text → Option Text → List TreeRow
rows lower entries expanded filter =
    let active = active_filter filter in
    push_rows (grow lower active entries 0 default_node) [] 0 expanded (is_some_text active)
