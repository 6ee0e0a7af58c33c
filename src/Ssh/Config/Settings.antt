-- ===== src/Ssh/Config/Settings.antt =====
-- What `resolve` looks for: the directives that apply to a host, and the first with a keyword.
use Prim.Native.Nat.{ℕ}
use mathlib.Core.Bool.{Bool}
use mathlib.Core.Option.{Option, none, some}
use mathlib.Core.List.{List, [], ◌∷◌, ◌++◌, map}
use term_connect.Shared.{or_else, if◌then◌else◌}
use term_connect.Shared.Text.{Text, lit, text_eq}
use term_connect.Shared.Words.{parse_u16}
use term_connect.Ssh.Config.Blocks.{Block, matches, names}

-- A directive, and whether its block names the host.
abbrev pub Setting : Type 0
Setting = Bool × (Text × Text)

abbrev pub find_map {ℓ κ} : {A : Type ℓ} {B : Type κ} → (A → Option B) → List A → Option B
find_map f [] = none
find_map f (x ∷ xs) = or_else (f x) (find_map f xs)

-- The value of a directive with this keyword.
abbrev pub value_of : Text → Setting → Option Text
value_of word (n, (keyword, value)) = if text_eq keyword word then some value else none

abbrev pub port_of : Setting → Option ℕ
port_of (n, (keyword, value)) = if text_eq keyword (lit "port") then parse_u16 value else none

abbrev pub named_value_of : Text → Setting → Option Text
named_value_of word (n, (keyword, value)) = if n then value_of word (n, (keyword, value)) else none

abbrev pub change {ℓ} : {A : Type ℓ} → (A → A) → Option A → Option A
change f none = none
change f (some a) = some (f a)

-- The directives of the blocks that apply to a host, in the order of the file.
abbrev pub settings : (Text → Text) → Text → List Block → List Setting
settings lower alias [] = []
settings lower alias (block ∷ blocks) =
    if matches lower block alias
    then map (λ d. (names block alias, d)) block.directives ++ settings lower alias blocks
    else settings lower alias blocks
