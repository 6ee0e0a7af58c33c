-- ===== src/ConnectionsTree/Examples.antt =====
-- Tests of the tree, and its theorems at concrete connections. The case folding here leaves text as it
-- is, which is right for names in lower case.
use Prim.Native.Nat.{◌+◌}
use mathlib.Core.Path.{◌≡◌, refl}
use mathlib.Core.Bool.{true}
use mathlib.Core.Option.{none, some}
use mathlib.Core.List.{List, [], ◌∷◌}
use term_connect.Shared.Text.{Text, lit, trim_text, trim_start, text_less, split_on, strip_char}
use term_connect.ConnectionsTree.Tree.{
  ConnectionEntry, group, connection, default_node, active_filter, match_count, matches, grow, rows,
  place, change_group, key_less, key_eq, push_rows, count_of, path_of, passes,
}
use term_connect.ConnectionsTree.Counts.{
  IsCounted, size, connections_in, rows-connections, grow-IsCounted, default-IsCounted,
}

abbrev folded : Text → Text
folded s = s

abbrev entries : List ConnectionEntry
entries =
    record { name = lit "web"; host = lit "h1"; group = some (lit "a/b"); tags = [] }
    ∷ record { name = lit "db"; host = lit "h2"; group = some (lit "a"); tags = lit "x" ∷ [] }
    ∷ record { name = lit "old"; host = lit "z"; group = none; tags = [] }
    ∷ []

rows-h :
    rows folded entries [] (some (lit " h"))
    ≡ group (lit "a") (lit "a") 0 2 true
      ∷ group (lit "a/b") (lit "b") 1 1 true
      ∷ connection 0 2
      ∷ connection 1 1
      ∷ []
unfolding rows active_filter trim_text trim_start grow place change_group key_less key_eq split_on
    strip_char push_rows count_of path_of passes matches text_less
rows-h = refl

active_filter-h : active_filter (some (lit "h")) ≡ some (lit "h")
unfolding active_filter trim_text trim_start
active_filter-h = refl

rows-connections_example :
    connections_in (rows folded entries [] (some (lit "h")))
    ≡ match_count folded entries (some (lit "h"))
rows-connections_example = rows-connections folded entries [] (lit "h") (lit "h") active_filter-h

grow-IsCounted_example :
    IsCounted (grow folded none entries 0 default_node)
    × (size (grow folded none entries 0 default_node)
        ≡ size default_node + match_count folded entries none)
grow-IsCounted_example = grow-IsCounted folded none entries 0 default_node default-IsCounted
