-- ===== src/ConnectionsTree/Counts.antt =====
-- The counts of the tree: each group counts the connections under it, and the rows show them.
use Prim.Native.Nat.{ℕ, suc, ◌+◌}
use mathlib.Core.Path.{◌≡◌, refl}
use mathlib.Core.Bool.{true}
use mathlib.Core.Option.{Option, some}
use mathlib.Core.List.{List, [], ◌∷◌, ◌++◌, map}
use mathlib.Core.Logic.{inl, inr}
use native.Mathlib.Omega.{arith}
use term_connect.Shared.{length, length-append, Bool-cases}
use term_connect.Shared.Text.{Text}
use term_connect.ConnectionsTree.Tree.{
  ConnectionEntry, TreeRow, group, connection, Node, node, Groups, no_groups, with_group,
  default_node, change_group, key_less, key_eq, active_filter, passes, match_count, place, grow,
  path_of, push_rows, push_groups, rows,
}

unfoldable mutual
  -- The connections under a node.
  pub size : Node → ℕ
  size (node children connections count) = size_groups children + length connections

  pub size_groups : Groups → ℕ
  size_groups no_groups = 0
  size_groups (with_group k child more) = size child + size_groups more

unfoldable mutual
  unfolding size

  pub IsCounted : Node → Type 0
  IsCounted (node children connections count) =
      (count ≡ size_groups children + length connections) × AreCounted children

  pub AreCounted : Groups → Type 0
  AreCounted no_groups = Unit {0}
  AreCounted (with_group k child more) = IsCounted child × AreCounted more

size-default : size default_node ≡ 0
unfolding size
size-default = refl

-- A change that adds one connection under a node.
abbrev AddsOne : (Node → Node) → Type 0
AddsOne f = (n : Node) → IsCounted n → IsCounted (f n) × (size (f n) ≡ suc (size n))

pub default-IsCounted : IsCounted default_node
unfolding IsCounted size
default-IsCounted = (refl, tt)

change_group-IsCounted :
    (k : Text × Text) (f : Node → Node) (gs : Groups)
    → AddsOne f
    → AreCounted gs
    → AreCounted (change_group k f gs) × (size_groups (change_group k f gs) ≡ suc (size_groups gs))
unfolding change_group IsCounted size
change_group-IsCounted k f no_groups adds v =
    let (c, one) = adds default_node default-IsCounted in ((c, tt), omega (arith, one))
change_group-IsCounted k f (with_group j child more) adds v =
    let (c, one) = adds default_node default-IsCounted in
    let (d, two) = adds child v.0 in
    let (e, three) = change_group-IsCounted k f more adds v.1 in
    elim (Bool-cases (key_less k j)) [
      | inl h ↦ rw h ((c, v), omega (arith, one))
      | inr h ↦ elim (Bool-cases (key_eq k j)) [
        | inl i ↦ rw (h, i) ((d, v.1), omega (arith, two))
        | inr i ↦ rw (h, i) ((v.0, e), omega (arith, three))
      ]
    ]

module _ (lower : Text → Text) where
  place-AddsOne : (segments : List Text) (index : ℕ) → AddsOne (place lower segments index)
  unfolding place IsCounted size
  place-AddsOne [] index (node children connections count) v =
      let more = length-append connections (index ∷ []) in
      ((omega (arith, more, v.0), v.1), omega (arith, more))
  place-AddsOne (segment ∷ segments) index (node children connections count) v =
      let (c, one) =
        change_group-IsCounted (lower segment, segment) (place lower segments index) children
          (place-AddsOne segments index) v.1 in
      ((omega (arith, one, v.0), c), omega (arith, one))

  -- Every count of the tree is the number of the connections under its node, and the root has all the
  -- connections that pass the filter.
  pub grow-IsCounted :
      (filter : Option Text) (entries : List ConnectionEntry) (index : ℕ) (root : Node)
      → IsCounted root
      → IsCounted (grow lower filter entries index root)
        × (size (grow lower filter entries index root)
            ≡ size root + match_count lower entries filter)
  unfolding grow match_count
  grow-IsCounted filter [] index root v = (v, omega arith)
  grow-IsCounted filter (e ∷ entries) index root v = elim (Bool-cases (passes lower filter e)) [
    | inl h ↦
        let (c, one) = place-AddsOne _ index root v in
        let (d, all) = grow-IsCounted filter entries (suc index) _ c in
        rw h (d, omega (arith, one, all))
    | inr h ↦ rw h (grow-IsCounted filter entries (suc index) root v)
  ]

abbrev pub connections_in : List TreeRow → ℕ
connections_in [] = 0
connections_in (group path name depth count expanded ∷ rs) = connections_in rs
connections_in (connection index depth ∷ rs) = suc (connections_in rs)

connections_in-append :
    (rs ss : List TreeRow) → connections_in (rs ++ ss) ≡ connections_in rs + connections_in ss
connections_in-append [] ss = omega arith
connections_in-append (group path name depth count expanded ∷ rs) ss = connections_in-append rs ss
connections_in-append (connection index depth ∷ rs) ss = omega (arith, connections_in-append rs ss)

connections_in-map :
    (cs : List ℕ) (depth : ℕ)
    → connections_in (map (λ index. connection index depth) cs) ≡ length cs
connections_in-map [] depth = refl
connections_in-map (c ∷ cs) depth = omega (arith, connections_in-map cs depth)

mutual
  unfolding push_rows size

  connections_in-push_rows :
      (n : Node) (prefix : Text) (depth : ℕ) (expanded : List Text)
      → connections_in (push_rows n prefix depth expanded true) ≡ size n
  connections_in-push_rows (node children connections count) prefix depth expanded = omega (
    arith,
    connections_in-append (push_groups children prefix depth expanded true)
        (map (λ index. connection index depth) connections),
    connections_in-map connections depth,
    connections_in-push_groups children prefix depth expanded,
  )

  connections_in-push_groups :
      (gs : Groups) (prefix : Text) (depth : ℕ) (expanded : List Text)
      → connections_in (push_groups gs prefix depth expanded true) ≡ size_groups gs
  connections_in-push_groups no_groups prefix depth expanded = refl
  connections_in-push_groups (with_group (key, name) child more) prefix depth expanded = omega (
    arith,
    connections_in-append (push_rows child (path_of prefix name) (suc depth) expanded true)
        (push_groups more prefix depth expanded true),
    connections_in-push_rows child (path_of prefix name) (suc depth) expanded,
    connections_in-push_groups more prefix depth expanded,
  )

-- With a filter that says something, all groups are open and the rows show a connection for each entry
-- that matches, as many as `match_count` says.
pub rows-connections :
    (lower : Text → Text) (entries : List ConnectionEntry) (expanded : List Text)
    (filter text : Text)
    → active_filter (some filter) ≡ some text
    → connections_in (rows lower entries expanded (some filter))
      ≡ match_count lower entries (some text)
unfolding rows
rows-connections lower entries expanded filter text e =
    let grown = grow-IsCounted lower (some text) entries 0 default_node default-IsCounted in
    rw e (
      omega (
        arith,
        connections_in-push_rows (grow lower (some text) entries 0 default_node) [] 0 expanded,
        grown.1,
        size-default,
      ))
