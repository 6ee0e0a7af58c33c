-- ===== src/Ssh/Config/Values.antt =====
-- What a line of the file says, and the values in it.
use Prim.Native.Nat.{ℕ}
use mathlib.Core.Bool.{Bool, true, false, ◌||◌}
use mathlib.Core.Option.{Option, none, some}
use mathlib.Core.List.{[], ◌∷◌, ◌++◌}
use term_connect.Shared.{◌==◌, if◌then◌else◌, drop}
use term_connect.Shared.Text.{Text, lit, has_char, starts_with, trim_text}

-- The text up to the first `#`.
unfoldable pub strip_comment : Text → Text
strip_comment [] = []
strip_comment (c ∷ s) = let rest = strip_comment s in if c == b'#' then [] else c ∷ rest

is_separator : ℕ → Bool
is_separator c = c == b' ' || c == 9 || c == b'='

trim_separators : Text → Text
trim_separators [] = []
trim_separators (c ∷ s) = let rest = trim_separators s in if is_separator c then rest else c ∷ s

split_at_separator : Text → Option (Text × Text)
split_at_separator [] = none
split_at_separator (c ∷ s) =
    let found = split_at_separator s in
    if is_separator c
    then some ([], c ∷ s)
    else elim found [ none ↦ none | some (keyword, rest) ↦ some (c ∷ keyword, rest) ]

unfoldable pub split_directive : Text → Option (Text × Text)
unfolding split_at_separator trim_separators is_separator
split_directive line = elim (split_at_separator (trim_text line)) [
  | none ↦ none
  | some (keyword, rest) ↦ some (keyword, trim_text (trim_separators rest))
]

unfoldable pub is_pattern : Text → Bool
is_pattern alias = has_char b'*' alias || has_char b'?' alias || has_char b'!' alias

-- `behind`: the character before was a percent sign that is not read yet.
unfoldable pub expand : Bool → Text → Text → Text
expand false alias [] = []
expand true alias [] = b'%' ∷ []
expand false alias (c ∷ s) =
    let plain = expand false alias s in
    let token = expand true alias s in if c == b'%' then token else c ∷ plain
expand true alias (c ∷ s) =
    let rest = expand false alias s in
    if c == b'h' then alias ++ rest else if c == b'%' then b'%' ∷ rest else b'%' ∷ c ∷ rest

unfoldable pub expand_tokens : Text → Text → Text
unfolding expand
expand_tokens value alias = expand false alias value

-- `Path::join` on Unix: an absolute path replaces the path it is joined to.
needs_slash : Text → Bool
needs_slash [] = false
needs_slash (c ∷ []) = if c == b'/' then false else true
needs_slash (c ∷ d ∷ s) = needs_slash (d ∷ s)

unfoldable pub join_path : Text → Text → Text
unfolding needs_slash
join_path path rest =
    if starts_with (lit "/") rest
    then rest
    else path ++ (if needs_slash path then b'/' ∷ rest else rest)

unfoldable pub expand_home : Text → Option Text → Text
expand_home path none = path
expand_home path (some home) =
    if starts_with (lit "~/") path then join_path home (drop 2 path) else path
