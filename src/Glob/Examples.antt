-- ===== src/Glob/Examples.antt =====
-- Tests of the matcher, and its theorems at concrete patterns.
use mathlib.Core.Path.{◌≡◌, refl}
use mathlib.Core.Bool.{true, false}
use mathlib.Core.Option.{some}
use mathlib.Core.List.{[], ◌∷◌}
use native.Mathlib.Omega.{arith}
use term_connect.Shared.Text.{lit}
use term_connect.Glob.Matcher.{match_from, match_loop, round, back, fuel_for, only_stars}
use term_connect.Glob.Pattern.{glob}
use term_connect.Glob.Correct.{match_from-glob, match_from-literal_star}

match_from-log : match_from (lit "a*.l?g") (lit "abc.log") ≡ some true
unfolding match_from match_loop round back fuel_for only_stars
match_from-log = refl

match_from-glob_example :
    match_from (lit "a*.l?g") (lit "abc.log") ≡ some (glob (lit "a*.l?g") (lit "abc.log"))
match_from-glob_example = match_from-glob (lit "a*.l?g") (lit "abc.log") refl

-- The pattern is `*y`, and the name `*xy`.
match_from-literal_star_example :
    (match_from (b'*' ∷ b'y' ∷ []) (b'*' ∷ b'x' ∷ b'y' ∷ []) ≡ some false)
    × (glob (b'*' ∷ b'y' ∷ []) (b'*' ∷ b'x' ∷ b'y' ∷ []) ≡ true)
match_from-literal_star_example =
    match_from-literal_star b'x' b'y' (λ e. omega (arith, e)) (λ e. omega (arith, e))
      (λ e. omega (arith, e))
