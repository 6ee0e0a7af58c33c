-- ===== src/Glob/Correct.antt =====
-- On names without `*` the matcher decides what the pattern means. On others it may not, since it lets
-- a star of the pattern match a star of the name as a character, and forgets that it is a star.
use Prim.Native.Nat.{ℕ, zero, suc, ◌≤◌, ◌<◌}
use mathlib.Core.Path.{◌≡◌, refl, sym, ◌∙◌}
use mathlib.Core.Bool.{Bool, true, false, ◌||◌}
use mathlib.Core.Option.{Option, none, some}
use mathlib.Core.List.{[], ◌∷◌}
use mathlib.Core.Logic.{◌≢◌, inl, inr}
use native.Mathlib.Omega.{arith}
use term_connect.Shared.{◌==◌, drop, length, Bool-cases}
use term_connect.Shared.Text.{Text, has_char}
use term_connect.Glob.Matcher.{
  Star, Move, go, fail, back, round, match_loop, fuel_for, match_from, only_stars,
}
use term_connect.Glob.Pattern.{
  some_suffix, tail_suffix, one, glob, glob-empty, some_suffix-drop, tail_found, some_suffix-tail,
  one-drop, glob-star, glob-one,
}
use term_connect.Glob.Fuel.{Fits, cost, Falls, round-Falls, start-Fits, cost-start}

-- What the star can still contribute.
abbrev star_value : Star → Bool
star_value none = false
star_value (some (p, n)) = tail_suffix (glob p) n

abbrev value : Text → Text → Star → Bool
value p n star = glob p n || star_value star

abbrev StarIsPlain : Star → Type 0
StarIsPlain none = Unit {0}
StarIsPlain (some (p, n)) = has_char b'*' n ≡ false

-- An end of the name that suits the pattern behind the star would suit the pattern left, as far on.
abbrev Covers : Text → Text → Star → Type 0
Covers p n none = Unit {0}
Covers p n (some (q, m)) = (k : ℕ) → glob q (drop k m) ≡ true → glob p (drop k n) ≡ true

record Sound (p n : Text) (star : Star) : Type 0 where
  plain : has_char b'*' n ≡ false
  star_plain : StarIsPlain star
  covers : Covers p n star

-- A round keeps the value.
abbrev Keeps : Bool → Move → Type 0
Keeps b fail = b ≡ false
Keeps b (go p n star) = Sound p n star × (value p n star ≡ b)

module _ (long size : ℕ) (c : ℕ) (n : Text) where
  back-Keeps :
      (p : Text) (star : Star)
      → Fits long size p (c ∷ n) star
      → Sound p (c ∷ n) star
      → glob p (c ∷ n) ≡ false
      → Keeps (value p (c ∷ n) star) (back star)
  unfolding back
  back-Keeps p none f s e = rw e
  back-Keeps p (some (q, [])) f s e = absurd (omega (arith, f.name_fits))
  back-Keeps p (some (q, d ∷ m)) f s e = (
    record {
      plain = ground (arith, s.star_plain);
      star_plain = ground (arith, s.star_plain);
      covers = λ k h. h;
    },
    rw e (unfold tail_suffix in ground (arith, some_suffix-tail (glob q) m)),
  )

  -- A character of the pattern that suits the name's.
  match-Keeps :
      (k : ℕ) (p : Text) (star : Star)
      → Sound (k ∷ p) (c ∷ n) star
      → (k == b'?' || k == c) ≡ true
      → Keeps (value (k ∷ p) (c ∷ n) star) (go p n star)
  match-Keeps k p star s e =
      let plain_c : (c == b'*') ≡ false = ground (arith, s.plain) in
      let no_star : (k == b'*') ≡ false = ground (arith, plain_c, e) in
      (
        record {
          plain = ground (arith, s.plain);
          star_plain = s.star_plain;
          covers = covers_next star s.covers no_star;
        },
        rw (glob-one k p no_star (c ∷ n)) (unfold one in rw e),
      )
    where
      covers_next : (st : Star) → Covers (k ∷ p) (c ∷ n) st → (k == b'*') ≡ false → Covers p n st
      covers_next none h no_star = tt
      covers_next (some (q, m)) h no_star =
          λ j g. one-drop k c j (glob p) n (rw (glob-one k p no_star) at (h j g))

  -- A star of the pattern takes over from the star before it.
  star-Keeps :
      (k : ℕ) (p : Text) (star : Star)
      → Sound (k ∷ p) (c ∷ n) star
      → (k == b'*') ≡ true
      → Keeps (value (k ∷ p) (c ∷ n) star) (go p (c ∷ n) (some (p, c ∷ n)))
  star-Keeps k p star s e = (
    record { plain = s.plain; star_plain = s.plain; covers = λ j h. h },
    sym (some_suffix-tail (glob p) (c ∷ n)) ∙ taken star s.covers,
  )
    where
      taken :
          (st : Star)
          → Covers (k ∷ p) (c ∷ n) st
          → some_suffix (glob p) (c ∷ n) ≡ value (k ∷ p) (c ∷ n) st
      taken none h = rw (glob-star k p e (c ∷ n)) (ground arith)
      taken (some (q, m)) h = elim (Bool-cases (tail_suffix (glob q) m)) [
        | inr f ↦ rw (f, glob-star k p e (c ∷ n)) (ground arith)
        | inl f ↦
            let (j, g) = tail_found (glob q) m f in
            let found : some_suffix (glob p) (c ∷ n) ≡ true =
              some_suffix-drop (glob p) (suc j) (c ∷ n) (rw (glob-star k p e) at (h (suc j) g)) in
            rw (f, glob-star k p e (c ∷ n), found) (ground arith)
      ]

  round-Keeps :
      (p : Text) (star : Star)
      → Fits long size p (c ∷ n) star
      → Sound p (c ∷ n) star
      → Keeps (value p (c ∷ n) star) (round p c n star)
  unfolding round
  round-Keeps [] star f s = back-Keeps [] star f s (unfold glob in refl)
  round-Keeps (k ∷ p) star f s = elim (Bool-cases (k == b'?' || k == c)) [
    | inl e ↦ rw e (match-Keeps k p star s e)
    | inr e ↦ rw e (elim (Bool-cases (k == b'*')) [
      | inl t ↦ rw t (star-Keeps k p star s t)
      | inr t ↦
          rw t (back-Keeps (k ∷ p) star f s (rw (glob-one k p t (c ∷ n)) (unfold one in rw e)))
    ])
  ]

-- At the end of the name the star contributes nothing that the pattern left does not.
end_value : (p : Text) (star : Star) → Covers p [] star → only_stars p ≡ value p [] star
end_value p none h = sym (glob-empty p) ∙ ground arith
end_value p (some (q, m)) h = elim (Bool-cases (tail_suffix (glob q) m)) [
  | inr f ↦ rw (f, ← glob-empty p) (ground arith)
  | inl f ↦
      let (j, g) = tail_found (glob q) m f in
      let full : glob p [] ≡ true = h (suc j) g in rw (f, ← glob-empty p, full) (ground arith)
]

next-value :
    (fuel long size bound : ℕ) (b : Bool) (move : Move)
    → ((p n : Text) (star : Star)
        → Fits long size p n star
        → cost long size p n star < fuel
        → Sound p n star
        → match_loop fuel p n star ≡ some (value p n star))
    → bound ≤ fuel
    → Falls long size bound move
    → Keeps b move
    → (elim move as (λ _. Option Bool) [
      | fail ↦ some false
      | go p n star ↦ match_loop fuel p n star
    ])
      ≡ some b
next-value fuel long size bound b fail rec less falls keeps = rw keeps
next-value fuel long size bound b (go p n star) rec less falls keeps =
    rw (rec p n star falls.0 (omega (arith, falls.1)) keeps.0, keeps.1)

match_loop-value :
    (fuel long size : ℕ) (p n : Text) (star : Star)
    → Fits long size p n star
    → cost long size p n star < fuel
    → Sound p n star
    → match_loop fuel p n star ≡ some (value p n star)
unfolding match_loop
match_loop-value zero long size p n star fits less s = absurd (omega arith)
match_loop-value (suc fuel) long size p [] star fits less s = rw (end_value p star s.covers)
match_loop-value (suc fuel) long size p (c ∷ n) star fits less s =
    next-value fuel long size (cost long size p (c ∷ n) star) (value p (c ∷ n) star)
      (round p c n star) (match_loop-value fuel long size) (omega arith)
      (round-Falls long size p c n star fits) (round-Keeps long size c n p star fits s)

-- On a name without `*` the matcher ends and says exactly whether the name is one that the pattern
-- means.
pub match_from-glob : (p n : Text) → has_char b'*' n ≡ false → match_from p n ≡ some (glob p n)
unfolding match_from
match_from-glob p n plain =
    match_loop-value (fuel_for p n) (length p) (length n) p n none (start-Fits p n) (cost-start p n)
      (record { plain = plain; star_plain = tt; covers = tt })
    ∙ ground arith

-- The pattern `*d` means every name that ends in `d`, but the matcher refuses every name `*cd` with
-- another character `c`, since it spends the pattern's star on the name's.
pub match_from-literal_star :
    (c d : ℕ)
    → c ≢ d
    → d ≢ b'*'
    → d ≢ b'?'
    → (match_from (b'*' ∷ d ∷ []) (b'*' ∷ c ∷ d ∷ []) ≡ some false)
      × (glob (b'*' ∷ d ∷ []) (b'*' ∷ c ∷ d ∷ []) ≡ true)
unfolding match_from match_loop round back fuel_for glob some_suffix one
match_from-literal_star c d differs star mark = (ground arith, ground arith)
