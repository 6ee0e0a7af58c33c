-- ===== src/Ssh/Config/Blocks.antt =====
-- The blocks of the file, and the names of hosts in them.
use mathlib.Core.Bool.{Bool, true, false, not, ◌&&◌, ◌||◌}
use mathlib.Core.Option.{none, some}
use mathlib.Core.List.{List, [], ◌∷◌, ◌++◌}
use term_connect.Shared.{if◌then◌else◌, is_empty, any}
use term_connect.Shared.Text.{Text, lit, text_eq, trim_text, strip_char}
use term_connect.Shared.Words.{ascii_lower, eq_ignore_case, split_whitespace, lines}
use term_connect.Glob.Matcher.{glob_match}
use term_connect.Ssh.Config.Values.{strip_comment, split_directive, is_pattern}

pub data Applies : Type 0 where
  everywhere nowhere : Applies
  to_hosts : List Text → Applies

pub record Block : Type 0 where
  pub applies : Applies
  pub directives : List (Text × Text)

-- `glob_match`, which always answers.
unfoldable pub fits : (Text → Text) → Text → Text → Bool
fits lower pattern name = elim (glob_match lower pattern name) [ none ↦ false | some b ↦ b ]

-- The loop of `Block::matches`, with what `matched` is.
unfoldable pub match_patterns : (Text → Text) → Text → Bool → List Text → Bool
match_patterns lower alias matched [] = matched
match_patterns lower alias matched (pattern ∷ patterns) =
    let rest = match_patterns lower alias matched patterns in
    let rest' = match_patterns lower alias (matched || fits lower pattern alias) patterns in
    elim (strip_char b'!' pattern) [
      | some negated ↦ if fits lower negated alias then false else rest
      | none ↦ rest'
    ]

unfoldable pub matches : (Text → Text) → Block → Text → Bool
matches lower block alias = elim block.applies [
  | everywhere ↦ true
  | nowhere ↦ false
  | to_hosts patterns ↦ match_patterns lower alias false patterns
]

unfoldable pub names : Block → Text → Bool
names block alias = elim block.applies [
  | to_hosts patterns ↦
      any (λ pattern. not (is_pattern pattern) && eq_ignore_case pattern alias) patterns
  | everywhere ↦ false
  | nowhere ↦ false
]

-- The last block gets one directive more.
push_directive : List Block → Text × Text → List Block
push_directive [] d = []
push_directive (b ∷ []) d = (record b { directives = b.directives ++ (d ∷ []) }) ∷ []
push_directive (b ∷ b' ∷ blocks) d = b ∷ push_directive (b' ∷ blocks) d

read_directive : List Block → Text × Text → List Block
read_directive blocks (keyword, value) =
    let word = ascii_lower keyword in
    if text_eq word (lit "host")
    then blocks ++ (record { applies = to_hosts (split_whitespace value); directives = [] }) ∷ []
    else if text_eq word (lit "match")
    then blocks ++ (record { applies = nowhere; directives = [] }) ∷ []
    else push_directive blocks (word, value)

unfoldable pub read_line : List Block → Text → List Block
unfolding read_directive push_directive
read_line blocks raw =
    let line = trim_text (strip_comment raw) in
    if is_empty line
    then blocks
    else elim (split_directive line) [ none ↦ blocks | some d ↦ read_directive blocks d ]

read_lines : List Block → List Text → List Block
read_lines blocks [] = blocks
read_lines blocks (line ∷ rest) = read_lines (read_line blocks line) rest

unfoldable pub split_into_blocks : Text → List Block
unfolding read_lines
split_into_blocks contents =
    read_lines ((record { applies = everywhere; directives = [] }) ∷ []) (lines contents)

unfoldable pub push_alias : List Text → Text → List Text
push_alias aliases pattern =
    if is_pattern pattern || any (λ alias. eq_ignore_case alias pattern) aliases
    then aliases
    else aliases ++ (pattern ∷ [])

unfoldable pub push_aliases : List Text → List Text → List Text
push_aliases aliases [] = aliases
push_aliases aliases (pattern ∷ patterns) = push_aliases (push_alias aliases pattern) patterns

unfoldable pub push_block : List Text → Applies → List Text
push_block aliases (to_hosts patterns) = push_aliases aliases patterns
push_block aliases everywhere = aliases
push_block aliases nowhere = aliases

unfoldable pub aliases_from : List Text → List Block → List Text
aliases_from aliases [] = aliases
aliases_from aliases (block ∷ blocks) = aliases_from (push_block aliases block.applies) blocks

unfoldable pub concrete_aliases : List Block → List Text
concrete_aliases blocks = aliases_from [] blocks
