-- ===== src/Glob/Pattern.antt =====
-- What a pattern means: `*` stands for any text, `?` for one character, any other for itself.
use Prim.Native.Nat.{ℕ, zero, suc}
use mathlib.Core.Path.{◌≡◌, refl}
use mathlib.Core.Bool.{Bool, true, false, ◌||◌, ◌&&◌}
use mathlib.Core.List.{[], ◌∷◌}
use native.Mathlib.Omega.{arith}
use term_connect.Shared.{◌==◌, if◌then◌else◌, drop, inl, inr, Bool-cases}
use term_connect.Shared.Text.{Text}
use term_connect.Glob.Matcher.{only_stars}

-- The test holds of some end of the text, the whole of it included.
unfoldable pub some_suffix : (Text → Bool) → Text → Bool
some_suffix f [] = f []
some_suffix f (c ∷ n) = f (c ∷ n) || some_suffix f n

-- The same without the whole text.
unfoldable pub tail_suffix : (Text → Bool) → Text → Bool
unfolding some_suffix
tail_suffix f [] = false
tail_suffix f (c ∷ n) = some_suffix f n

unfoldable pub one : ℕ → (Text → Bool) → Text → Bool
one k f [] = false
one k f (c ∷ n) = (k == b'?' || k == c) && f n

unfoldable pub glob : Text → Text → Bool
unfolding one
glob [] [] = true
glob [] (c ∷ n) = false
glob (k ∷ p) n = if k == b'*' then some_suffix (glob p) n else one k (glob p) n

pub glob-empty : (p : Text) → glob p [] ≡ only_stars p
unfolding glob only_stars some_suffix
glob-empty [] = refl
glob-empty (k ∷ p) = ground (arith, glob-empty p)

pub some_suffix-drop :
    (f : Text → Bool) (k : ℕ) (n : Text) → some_suffix f (drop k n) ≡ true → some_suffix f n ≡ true
unfolding some_suffix
some_suffix-drop f zero n h = h
some_suffix-drop f (suc k) [] h = h
some_suffix-drop f (suc k) (c ∷ n) h = ground (arith, some_suffix-drop f k n h)

-- An end of the text that the test holds of, by what is dropped before it.
pub suffix_found :
    (f : Text → Bool) (n : Text) → some_suffix f n ≡ true → (k : ℕ) × (f (drop k n) ≡ true)
unfolding some_suffix
suffix_found f [] h = (0, h)
suffix_found f (c ∷ n) h = elim (Bool-cases (f (c ∷ n))) [
  | inl e ↦ (0, e)
  | inr e ↦ let (k, g) = suffix_found f n (rw e at h) in (suc k, g)
]

pub tail_found :
    (f : Text → Bool) (n : Text) → tail_suffix f n ≡ true → (k : ℕ) × (f (drop (suc k) n) ≡ true)
unfolding tail_suffix
tail_found f [] h = cc
tail_found f (c ∷ n) h = suffix_found f n h

pub some_suffix-tail : (f : Text → Bool) (n : Text) → some_suffix f n ≡ (f n || tail_suffix f n)
unfolding tail_suffix
some_suffix-tail f [] = ground arith
some_suffix-tail f (c ∷ n) = refl

-- A character of the pattern that suits after a drop leaves the rest of it after one more.
pub one-drop :
    (k c j : ℕ) (f : Text → Bool) (n : Text) → one k f (drop j (c ∷ n)) ≡ true → f (drop j n) ≡ true
unfolding one
one-drop k c zero f n h = ground arith
one-drop k c (suc zero) f [] h = cc
one-drop k c (suc (suc j)) f [] h = cc
one-drop k c (suc j) f (d ∷ n) h = one-drop k d j f n h

-- A star left of the pattern suits any earlier end too.
pub glob-star :
    (k : ℕ) (p : Text) → (k == b'*') ≡ true → (n : Text) → glob (k ∷ p) n ≡ some_suffix (glob p) n
unfolding glob
glob-star k p e n = rw e

pub glob-one :
    (k : ℕ) (p : Text) → (k == b'*') ≡ false → (n : Text) → glob (k ∷ p) n ≡ one k (glob p) n
unfolding glob
glob-one k p e n = rw e
