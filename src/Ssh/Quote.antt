-- ===== src/Ssh/Quote.antt =====
-- porthmos-ssh/src/quote/mod.rs: a text as one word of a shell command.
use Prim.Native.Nat.{ℕ}
use mathlib.Core.Path.{◌≡◌, refl}
use mathlib.Core.Option.{Option, none, some}
use mathlib.Core.List.{[], ◌∷◌, ◌++◌, append_assoc}
use mathlib.Core.Logic.{inl, inr}
use native.Mathlib.Omega.{arith}
use term_connect.Shared.{◌==◌, if◌then◌else◌, Bool-cases}
use term_connect.Shared.Text.{Text, lit}

-- `value.replace('\'', r"'\''")`
escape : Text → Text
escape [] = []
escape (c ∷ s) = let rest = escape s in if c == b'\'' then lit "'\\''" ++ rest else c ∷ rest

unfoldable pub shell_quote : Text → Text
unfolding escape
shell_quote value = lit "'" ++ (escape value ++ lit "'")

-- A reader of one word of a POSIX shell: a quote opens a part that ends at the next quote and means
-- itself, a backslash outside means the next character, and any other character outside is refused,
-- since the shell may read it as more than itself.
pub data Place : Type 0 where
  outside inside behind_backslash : Place

abbrev pub prepend : Text → Option Text → Option Text
prepend p none = none
prepend p (some s) = some (p ++ s)

unfoldable pub read_word : Place → Text → Option Text
read_word outside [] = some []
read_word inside [] = none
read_word behind_backslash [] = none
read_word outside (c ∷ s) =
    let quoted = read_word inside s in
    let escaped = read_word behind_backslash s in
    if c == b'\'' then quoted else if c == b'\\' then escaped else none
read_word inside (c ∷ s) =
    let after = read_word outside s in
    let more = read_word inside s in if c == b'\'' then after else prepend (c ∷ []) more
read_word behind_backslash (c ∷ s) = prepend (c ∷ []) (read_word outside s)

prepend-prepend :
    (c : ℕ) (p : Text) (o : Option Text) → prepend (c ∷ []) (prepend p o) ≡ prepend (c ∷ p) o
prepend-prepend c p none = refl
prepend-prepend c p (some s) = refl

prepend-empty : (o : Option Text) → o ≡ prepend [] o
prepend-empty none = refl
prepend-empty (some s) = refl

read_word-escape :
    (value s : Text)
    → read_word inside (escape value ++ (b'\'' ∷ s)) ≡ prepend value (read_word outside s)
unfolding read_word escape
read_word-escape [] s = prepend-empty (read_word outside s)
read_word-escape (c ∷ value) s = elim (Bool-cases (c == b'\'')) [
  | inl e ↦
      let same : c ≡ b'\'' = ground (arith, e) in
      rw e (rw (read_word-escape value s) (rw same (prepend-prepend _ value (read_word outside s))))
  | inr e ↦
      rw e (rw e (rw (read_word-escape value s) (prepend-prepend c value (read_word outside s))))
]

-- A shell reads a quoted text as that text, whatever its characters are, and goes on behind it as it
-- would without it.
pub read_word-shell_quote :
    (value s : Text)
    → read_word outside (shell_quote value ++ s) ≡ prepend value (read_word outside s)
unfolding read_word shell_quote escape
read_word-shell_quote value s =
    rw (append_assoc (escape value) (b'\'' ∷ []) s) (read_word-escape value s)
