-- ===== src/Shared/Text.antt =====
-- Text as the list of its Unicode scalar values.
use Prim.Native.Char.{code}
use Prim.Native.String.{String}
use mathlib.Core.Path.{◌≡◌, refl, ap}
use native.Mathlib.Omega.{arith}
use term_connect.Shared.Tests.{◌==◌, ltb, leb, if◌then◌else◌, Bool-cases, ==→eq}
use mathlib.Core.Logic.{inl, inr}
use Prim.Native.Nat.{ℕ}
use native.Mathlib.Decide.{ℕ_discrete}
use mathlib.Core.Bool.{Bool, true, false, ◌&&◌, ◌||◌}
use mathlib.Core.Option.{Option, none, some}
use mathlib.Core.List.{List, [], ◌∷◌, ◌++◌, reverse}

abbrev pub Text : Type 0
Text = List ℕ

-- A text literal of the source.
abbrev pub lit : String → Text
lit String.[] = []
lit (String.◌∷◌ c s) = code c ∷ lit s

unfoldable pub Text-discrete : Discrete Text
Text-discrete = hlevel ℕ_discrete

abbrev pub text_eq : Text → Text → Bool
text_eq [] [] = true
text_eq (a ∷ s) (b ∷ t) = a == b && text_eq s t
text_eq _ _ = false

-- `str`'s order is that of the bytes, which is that of the code points.
unfoldable pub text_less : Text → Text → Bool
text_less [] [] = false
text_less [] (b ∷ t) = true
text_less (a ∷ s) [] = false
text_less (a ∷ s) (b ∷ t) = ltb a b || (a == b && text_less s t)

-- The text without a character, `str::contains` and the like.
abbrev pub has_char : ℕ → Text → Bool
has_char c [] = false
has_char c (a ∷ s) = a == c || has_char c s

abbrev pub starts_with : Text → Text → Bool
starts_with [] s = true
starts_with (a ∷ p) [] = false
starts_with (a ∷ p) (b ∷ s) = a == b && starts_with p s

-- `haystack.contains(needle)`
abbrev pub contains_text : Text → Text → Bool
contains_text [] needle = starts_with needle []
contains_text (a ∷ s) needle = starts_with needle (a ∷ s) || contains_text s needle

pub text_less_asym : (s t : Text) → text_less s t ≡ true → text_less t s ≡ false
unfolding text_less
text_less_asym [] [] h = refl
text_less_asym [] (b ∷ t) h = refl
text_less_asym (a ∷ s) [] h = cc
text_less_asym (a ∷ s) (b ∷ t) h = ground (arith, text_less_asym s t)

-- `str::trim` takes white space off both ends.
unfoldable pub is_space : ℕ → Bool
is_space c =
    leb 9 c && leb c 13
    || c == 32
    || c == 0x85
    || c == 0xa0
    || c == 0x1680
    || leb 0x2000 c && leb c 0x200a
    || c == 0x2028
    || c == 0x2029
    || c == 0x202f
    || c == 0x205f
    || c == 0x3000

unfoldable pub trim_start : Text → Text
unfolding is_space
trim_start [] = []
trim_start (c ∷ s) = let rest = trim_start s in if is_space c then rest else c ∷ s

unfoldable pub trim_text : Text → Text
unfolding trim_start
trim_text s = reverse (trim_start (reverse (trim_start s)))

-- `str::split` at a character.
unfoldable pub split_on : ℕ → Text → List Text
split_on separator [] = [] ∷ []
split_on separator (c ∷ s) = elim (split_on separator s) [
  | [] ↦ (c ∷ []) ∷ []
  | word ∷ words ↦ if c == separator then [] ∷ word ∷ words else (c ∷ word) ∷ words
]

-- `segments.join("/")`
unfoldable pub join_slash : List Text → Text
join_slash [] = []
join_slash (s ∷ []) = s
join_slash (s ∷ t ∷ segments) = s ++ (b'/' ∷ join_slash (t ∷ segments))

-- `strip_prefix` with a character.
unfoldable pub strip_char : ℕ → Text → Option Text
strip_char mark [] = none
strip_char mark (c ∷ s) = if c == mark then some s else none

pub text_eq_refl : (s : Text) → text_eq s s ≡ true
text_eq_refl [] = refl
text_eq_refl (a ∷ s) = ground (arith, text_eq_refl s)

pub text_eq_sym : (s t : Text) → text_eq s t ≡ text_eq t s
text_eq_sym [] [] = refl
text_eq_sym [] (b ∷ t) = refl
text_eq_sym (a ∷ s) [] = refl
text_eq_sym (a ∷ s) (b ∷ t) = ground (arith, text_eq_sym s t)

pub text_eq→eq : (s t : Text) → text_eq s t ≡ true → s ≡ t
text_eq→eq [] [] e = refl
text_eq→eq [] (b ∷ t) e = absurd (ground (arith, e))
text_eq→eq (a ∷ s) [] e = absurd (ground (arith, e))
text_eq→eq (a ∷ s) (b ∷ t) e = elim (Bool-cases (a == b)) [
  | inl h ↦
      let tails : text_eq s t ≡ true = ground (arith, e, h) in
      rw (==→eq a b h) (ap (λ (r : Text). b ∷ r) (text_eq→eq s t tails))
  | inr h ↦ absurd (ground (arith, e, h))
]
