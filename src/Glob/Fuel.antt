-- ===== src/Glob/Fuel.antt =====
-- The loop of the matcher ends within its fuel: it goes back to a star at most once for each character.
use Prim.Native.Nat.{ℕ, zero, suc, ◌+◌, ◌*◌, ◌≤◌, ◌<◌}
use mathlib.Core.Path.{◌≡◌, refl}
use mathlib.Core.Bool.{Bool, false, ◌||◌}
use mathlib.Core.Option.{Option, none, some}
use mathlib.Core.List.{[], ◌∷◌}
use mathlib.Core.Logic.{inl, inr}
use native.Mathlib.Omega.{arith}
use term_connect.Shared.{◌==◌, length, Bool-cases}
use term_connect.Shared.Text.{Text}
use term_connect.Glob.Matcher.{
  Star, Move, go, fail, back, round, match_loop, fuel_for, match_from, only_stars,
}

-- The characters that the star may still take.
abbrev pub star_rest : ℕ → Star → ℕ
star_rest size none = size
star_rest size (some (p, n)) = length n

-- The star's pattern and name are no longer than the whole.
abbrev pub StarFits : ℕ → Star → Type 0
StarFits long none = Unit {0}
StarFits long (some (p, n)) = length p ≤ long

-- `long` bounds the pattern and `size` the name; `step` is what one way back may cost.
pub record Fits (long size : ℕ) (p n : Text) (star : Star) : Type 0 where
  pub pattern_fits : length p ≤ long
  pub name_fits : length n ≤ star_rest size star
  pub rest_fits : star_rest size star ≤ size
  pub star_fits : StarFits long star

abbrev pub cost : ℕ → ℕ → Text → Text → Star → ℕ
cost long size p n star = star_rest size star * (long + size + 2) + length p + length n

-- A round leaves a state that fits and costs less.
abbrev pub Falls : ℕ → ℕ → ℕ → Move → Type 0
Falls long size bound fail = Unit {0}
Falls long size bound (go p n star) = Fits long size p n star × (cost long size p n star < bound)

back-Falls :
    (long size : ℕ) (p : Text) (c : ℕ) (n : Text) (star : Star)
    → Fits long size p (c ∷ n) star
    → Falls long size (cost long size p (c ∷ n) star) (back star)
unfolding back
back-Falls long size p c n none f = tt
back-Falls long size p c n (some (q, [])) f = absurd (omega (arith, f.name_fits))
back-Falls long size p c n (some (q, d ∷ m)) f = (
  record {
    pattern_fits = f.star_fits;
    name_fits = omega arith;
    rest_fits = omega (arith, f.rest_fits);
    star_fits = f.star_fits;
  },
  omega (arith, f.rest_fits, f.star_fits),
)

mul_mono : (a b c : ℕ) → a ≤ b → a * c ≤ b * c
mul_mono a b c h = grind arith

pub round-Falls :
    (long size : ℕ) (p : Text) (c : ℕ) (n : Text) (star : Star)
    → Fits long size p (c ∷ n) star
    → Falls long size (cost long size p (c ∷ n) star) (round p c n star)
unfolding round
round-Falls long size [] c n star f = back-Falls long size [] c n star f
round-Falls long size (k ∷ p) c n star f = elim (Bool-cases (k == b'?' || k == c)) [
  | inl e ↦ rw e (
    record {
      pattern_fits = omega (arith, f.pattern_fits);
      name_fits = omega (arith, f.name_fits);
      rest_fits = f.rest_fits;
      star_fits = f.star_fits;
    },
    omega arith,
  )
  | inr e ↦ rw e (elim (Bool-cases (k == b'*')) [
    | inl s ↦ rw s (
      record {
        pattern_fits = omega (arith, f.pattern_fits);
        name_fits = omega arith;
        rest_fits = omega (arith, f.name_fits, f.rest_fits);
        star_fits = omega (arith, f.pattern_fits);
      },
      omega (arith, mul_mono (length (c ∷ n)) (star_rest size star) (long + size + 2) f.name_fits),
    )
    | inr s ↦ rw s (back-Falls long size (k ∷ p) c n star f)
  ])
]

-- The value of the loop after one round.
next-total :
    (fuel long size bound : ℕ) (move : Move)
    → ((p n : Text) (star : Star)
        → Fits long size p n star
        → cost long size p n star < fuel
        → (b : Bool) × (match_loop fuel p n star ≡ some b))
    → bound ≤ fuel
    → Falls long size bound move
    → (b : Bool) × ((elim move as (λ _. Option Bool) [
      | fail ↦ some false
      | go p n star ↦ match_loop fuel p n star
    ])
        ≡ some b)
next-total fuel long size bound fail rec less falls = (false, refl)
next-total fuel long size bound (go p n star) rec less falls =
    rec p n star falls.0 (omega (arith, falls.1))

match_loop-total :
    (fuel long size : ℕ) (p n : Text) (star : Star)
    → Fits long size p n star
    → cost long size p n star < fuel
    → (b : Bool) × (match_loop fuel p n star ≡ some b)
unfolding match_loop
match_loop-total zero long size p n star fits less = absurd (omega arith)
match_loop-total (suc fuel) long size p [] star fits less = (only_stars p, refl)
match_loop-total (suc fuel) long size p (c ∷ n) star fits less =
    next-total fuel long size (cost long size p (c ∷ n) star) (round p c n star)
      (match_loop-total fuel long size) (omega arith) (round-Falls long size p c n star fits)

pub start-Fits : (p n : Text) → Fits (length p) (length n) p n none
start-Fits p n = record {
  pattern_fits = omega arith;
  name_fits = omega arith;
  rest_fits = omega arith;
  star_fits = tt;
}

pub cost-start : (p n : Text) → cost (length p) (length n) p n none < fuel_for p n
unfolding fuel_for
cost-start p n = omega arith

-- The matcher ends on every pattern and every name.
pub match_from-total : (p n : Text) → (b : Bool) × (match_from p n ≡ some b)
unfolding match_from
match_from-total p n =
    match_loop-total (fuel_for p n) (length p) (length n) p n none (start-Fits p n) (cost-start p n)
