-- ===== src/Glob/Matcher.antt =====
-- The matcher as the code runs it: two positions, held here as what is left of the pattern and of the
-- name, and the last star with the name where it was met.
use Prim.Native.Nat.{ℕ, zero, suc, ◌+◌, ◌*◌}
use mathlib.Core.Bool.{Bool, true, false, ◌||◌}
use mathlib.Core.Option.{Option, none, some}
use mathlib.Core.List.{[], ◌∷◌}
use term_connect.Shared.{◌==◌, if◌then◌else◌, length}
use term_connect.Shared.Text.{Text}

-- What is left of the pattern behind a star, and of the name where the star was met.
abbrev pub Star : Type 0
Star = Option (Text × Text)

-- `while pattern.get(p) == Some(&'*') { p += 1 }` and `p == pattern.len()`
unfoldable pub only_stars : Text → Bool
only_stars [] = true
only_stars (k ∷ p) = let rest = only_stars p in if k == b'*' then rest else false

pub data Move : Type 0 where
  go : Text → Text → Star → Move
  fail : Move

-- The third branch: back to the star, with one character more taken by it.
unfoldable pub back : Star → Move
back none = fail
back (some (p, [])) = go p [] (some (p, []))
back (some (p, c ∷ n)) = go p n (some (p, n))

-- One round of the loop, at a name that is not at its end.
unfoldable pub round : Text → ℕ → Text → Star → Move
unfolding back
round [] c n star = back star
round (k ∷ p) c n star =
    if k == b'?' || k == c
    then go p n star
    else if k == b'*'
    then go p (c ∷ n) (some (p, c ∷ n))
    else back star

-- The loop, with fuel for its rounds; `none` if the fuel runs out.
unfoldable pub match_loop : ℕ → Text → Text → Star → Option Bool
match_loop zero p n star = none
match_loop (suc fuel) p [] star = some (only_stars p)
match_loop (suc fuel) p (c ∷ n) star = elim (round p c n star) [
  | fail ↦ some false
  | go p' n' star' ↦ match_loop fuel p' n' star'
]

unfoldable pub fuel_for : Text → Text → ℕ
fuel_for p n = suc ((length n + 1) * (length p + length n + 2))

unfoldable pub match_from : Text → Text → Option Bool
unfolding match_loop fuel_for
match_from p n = match_loop (fuel_for p n) p n none

-- `lower` is `to_lowercase`, whose tables belong to the Unicode data of the standard library.
unfoldable pub glob_match : (Text → Text) → Text → Text → Option Bool
unfolding match_from
glob_match lower pattern name = match_from (lower pattern) (lower name)
