-- ===== src/Ssh/Config/Tokens.antt =====
-- `expand_tokens` against a writer of its input: text and places for the host's name.
use Prim.Native.Nat.{ℕ}
use mathlib.Core.Path.{◌≡◌, refl, ap}
use mathlib.Core.List.{List, [], ◌∷◌, ◌++◌}
use mathlib.Core.Logic.{inl, inr}
use term_connect.Shared.{◌==◌, if◌then◌else◌, Bool-cases, ==→eq}
use term_connect.Shared.Text.{Text}
use term_connect.Ssh.Config.Values.{expand, expand_tokens}

-- A piece of a template: a character that stands for itself, or the place of the host.
pub data Piece : Type 0 where
  plain : ℕ → Piece
  host : Piece

abbrev pub written : List Piece → Text
written [] = []
written (plain c ∷ ps) = if c == b'%' then b'%' ∷ b'%' ∷ written ps else c ∷ written ps
written (host ∷ ps) = b'%' ∷ b'h' ∷ written ps

abbrev pub meant : Text → List Piece → Text
meant alias [] = []
meant alias (plain c ∷ ps) = c ∷ meant alias ps
meant alias (host ∷ ps) = alias ++ meant alias ps

-- A template is written with `%h` for the host and `%%` for a percent sign, and `expand_tokens` reads it
-- back: every character of it stands for itself, and the host is in its places.
pub expand_tokens-written :
    (alias : Text) (ps : List Piece) → expand_tokens (written ps) alias ≡ meant alias ps
unfolding expand_tokens expand
expand_tokens-written alias [] = refl
expand_tokens-written alias (plain c ∷ ps) = elim (Bool-cases (c == b'%')) [
  | inl e ↦
      rw e (rw (==→eq c b'%' e) (ap (λ (t : Text). b'%' ∷ t) (expand_tokens-written alias ps)))
  | inr e ↦ rw e (rw e (ap (λ (t : Text). c ∷ t) (expand_tokens-written alias ps)))
]
expand_tokens-written alias (host ∷ ps) =
    ap (λ (t : Text). alias ++ t) (expand_tokens-written alias ps)
