-- ===== src/Webdav/Examples.antt =====
-- Tests of the locator, and its round trip. The coder here is none of the crate's: it writes each
-- character as so many `b` and an `a`, which meets what is asked of one.
use Prim.Native.Nat.{ℕ, zero, suc, ◌+◌}
use mathlib.Core.Path.{◌≡◌, refl, ◌∙◌}
use mathlib.Core.Bool.{true, false}
use mathlib.Core.Option.{some}
use mathlib.Core.List.{[], ◌∷◌}
use native.Mathlib.Omega.{arith}
use term_connect.Shared.{◌==◌, if◌then◌else◌, is_empty}
use term_connect.Shared.Text.{Text, lit, has_char, split_on}
use term_connect.Transfer.Plan.{root, up, normal, FilePath}
use term_connect.Webdav.Locator.{
  new, href, path_of_href, normalize, to_path, segments, names, push, push_word,
}
use term_connect.Webdav.RoundTrip.{IsPlain, IsCoder, path_of_href-href}

spell : ℕ → Text → Text
spell zero t = b'a' ∷ t
spell (suc n) t = b'b' ∷ spell n t

encode : Text → Text
unfolding spell
encode [] = []
encode (c ∷ s) = spell c (encode s)

count : ℕ → Text → Text
count zero [] = []
count (suc n) [] = suc n ∷ []
count n (x ∷ t) =
    let more = count (suc n) t in let rest = count 0 t in if x == b'b' then more else n ∷ rest

decode : Text → Text
unfolding count
decode t = count 0 t

no_char-spell :
    (c n : ℕ) (t : Text)
    → (b'a' == c) ≡ false
    → (b'b' == c) ≡ false
    → has_char c (spell n t) ≡ has_char c t
unfolding spell
no_char-spell c zero t a b = ground (arith, a)
no_char-spell c (suc n) t a b = ground (arith, b, no_char-spell c n t a b)

no_char-encode :
    (c : ℕ) (s : Text) → (b'a' == c) ≡ false → (b'b' == c) ≡ false → has_char c (encode s) ≡ false
unfolding encode
no_char-encode c [] a b = refl
no_char-encode c (k ∷ s) a b = no_char-spell c k (encode s) a b ∙ no_char-encode c s a b

filled-spell : (n : ℕ) (t : Text) → is_empty (spell n t) ≡ false
unfolding spell
filled-spell zero t = refl
filled-spell (suc n) t = refl

encode-IsPlain : (s : Text) → is_empty s ≡ false → IsPlain (encode s)
unfolding encode
encode-IsPlain [] h = ground arith
encode-IsPlain (c ∷ s) h = record {
  filled = filled-spell c (encode s);
  no_slash = no_char-encode b'/' (c ∷ s) refl refl;
  no_colon = no_char-encode b':' (c ∷ s) refl refl;
  no_question = no_char-encode b'?' (c ∷ s) refl refl;
  no_hash = no_char-encode b'#' (c ∷ s) refl refl;
}

count-spell : (k n : ℕ) (t : Text) → count k (spell n t) ≡ (k + n) ∷ count 0 t
unfolding count spell
count-spell zero zero t = refl
count-spell (suc k) zero t = ground arith
count-spell zero (suc n) t = count-spell 1 n t ∙ ground arith
count-spell (suc k) (suc n) t = count-spell (suc (suc k)) n t ∙ ground arith

decode-encode : (s : Text) → decode (encode s) ≡ s
unfolding decode encode
decode-encode [] = refl
decode-encode (c ∷ s) = count-spell 0 c (encode s) ∙ ground (arith, decode-encode s)

filled-count : (n : ℕ) (t : Text) → is_empty (count (suc n) t) ≡ false
unfolding count
filled-count n [] = refl
filled-count n (x ∷ t) = ground (arith, filled-count (suc n) t)

filled-decode : (s : Text) → is_empty s ≡ false → is_empty (decode s) ≡ false
unfolding decode
filled-decode [] h = ground arith
filled-decode (x ∷ t) h = ground (arith, filled-count 0 t)

coder : IsCoder encode decode
coder = record { plain = encode-IsPlain; back = decode-encode; kept = filled-decode }

-- `/a/../b`
abbrev there : FilePath
there = normal (lit "b") ∷ up ∷ normal (lit "a") ∷ root ∷ []

normalize-there : normalize there ≡ normal (lit "b") ∷ root ∷ []
unfolding normalize to_path segments names push push_word split_on
normalize-there = refl

path_of_href-href_example :
    path_of_href encode decode
      (new encode decode (lit "http://h") (lit "/dav"))
      (href encode decode (new encode decode (lit "http://h") (lit "/dav")) there true)
    ≡ some (normalize there)
path_of_href-href_example =
    path_of_href-href encode decode (lit "http://h") (lit "/dav") there true coder
      ((refl, (refl, tt)))
