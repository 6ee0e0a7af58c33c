-- ===== src/Shared/Words.antt =====
-- What Rust's `str` does with lines, words, ASCII letters and decimal numbers.
use Prim.Native.Nat.{ℕ, ◌+◌, ◌-◌, ◌*◌}
use mathlib.Core.Bool.{Bool, not, ◌&&◌}
use mathlib.Core.Option.{Option, none, some}
use mathlib.Core.List.{List, [], ◌∷◌}
use term_connect.Shared.Tests.{◌==◌, ltb, leb, if◌then◌else◌}
use term_connect.Shared.Lists.{keep, is_empty}
use term_connect.Shared.Text.{Text, text_eq, is_space, split_on}

-- `str::to_ascii_lowercase`
unfoldable pub ascii_lower : Text → Text
ascii_lower [] = []
ascii_lower (c ∷ s) =
    let rest = ascii_lower s in (if leb b'A' c && leb c b'Z' then c + 32 else c) ∷ rest

-- `str::eq_ignore_ascii_case`
unfoldable pub eq_ignore_case : Text → Text → Bool
eq_ignore_case s t = text_eq (ascii_lower s) (ascii_lower t)

-- `str::split_whitespace`
spread : Text → List Text
spread [] = [] ∷ []
spread (c ∷ s) = elim (spread s) [
  | [] ↦ (c ∷ []) ∷ []
  | word ∷ words ↦ if is_space c then [] ∷ word ∷ words else (c ∷ word) ∷ words
]

unfoldable pub split_whitespace : Text → List Text
unfolding spread
split_whitespace s = keep (λ word. not (is_empty word)) (spread s)

-- `str::lines`: an end of line is a line feed, with the carriage return before it, if there is one; the
-- text behind the last one is a line when it is not empty.
without_return : Text → Text
without_return [] = []
without_return (c ∷ []) = if c == 13 then [] else c ∷ []
without_return (c ∷ d ∷ s) = c ∷ without_return (d ∷ s)

ended : List Text → List Text
ended [] = []
ended (last ∷ []) = if is_empty last then [] else last ∷ []
ended (line ∷ next ∷ rest) = without_return line ∷ ended (next ∷ rest)

unfoldable pub lines : Text → List Text
unfolding ended without_return
lines s = ended (split_on 10 s)

-- The value of digits read so far, `u16::from_str`: a plus sign may stand before the digits, of which
-- there is at least one, and the number fits in 16 bits.
unfoldable pub digits_value : ℕ → Text → Option ℕ
digits_value n [] = if ltb n 65536 then some n else none
digits_value n (c ∷ s) =
    let rest = digits_value (10 * n + (c - b'0')) s in
    if leb b'0' c && leb c b'9' then rest else none

unfoldable pub number : Text → Option ℕ
number [] = none
number (c ∷ s) = digits_value 0 (c ∷ s)

unfoldable pub parse_u16 : Text → Option ℕ
unfolding number digits_value
parse_u16 [] = none
parse_u16 (c ∷ s) = if c == b'+' then number s else number (c ∷ s)
