-- ===== src/Webdav/RoundTrip.antt =====
-- An address made of a path leads back to that path.
use Prim.Native.Nat.{ℕ}
use mathlib.Core.Path.{◌≡◌, refl, ap, sym, ◌∙◌}
use mathlib.Core.Bool.{Bool, true, false, not, ◌&&◌, ◌||◌}
use mathlib.Core.Option.{none, some}
use mathlib.Core.List.{List, [], ◌∷◌, ◌++◌, map, reverse, append-nil, append_assoc, reverse-cons}
use mathlib.Core.Logic.{inl, inr}
use native.Mathlib.Omega.{arith}
use term_connect.Shared.{◌==◌, keep, is_empty, Bool-cases, All}
use term_connect.Shared.Text.{Text, lit, has_char, split_on, join_slash, text_eq_refl}
use term_connect.Transfer.Plan.{root, current, up, normal, FilePath}
use term_connect.Webdav.Locator.{
  Locator, words, names, segments, normalize, behind_scheme, without_query, strip_words,
  ends_with_slash, new, href, path_of_href,
}

-- A word that an address keeps as it is: not empty, and without the marks of an address.
pub record IsPlain (w : Text) : Type 0 where
  pub filled : is_empty w ≡ false
  pub no_slash : has_char b'/' w ≡ false
  pub no_colon : has_char b':' w ≡ false
  pub no_question : has_char b'?' w ≡ false
  pub no_hash : has_char b'#' w ≡ false

split_on-cases : (sep : ℕ) (t : Text) → (w : Text) × (ws : List Text) × (split_on sep t ≡ w ∷ ws)
unfolding split_on
split_on-cases sep [] = ([], [], refl)
split_on-cases sep (c ∷ t) =
    let (w, ws, e) = split_on-cases sep t in
    elim (Bool-cases (c == sep)) [
      | inl h ↦ ([], w ∷ ws, rw (e, split_on) (rw h refl))
      | inr h ↦ (c ∷ w, ws, rw (e, split_on) (rw h refl))
    ]

split_on-slash : (t : Text) → split_on b'/' (b'/' ∷ t) ≡ [] ∷ split_on b'/' t
unfolding split_on
split_on-slash t = let (w, ws, e) = split_on-cases b'/' t in rw (e, split_on) refl

split_on-word :
    (w t : Text) → has_char b'/' w ≡ false → split_on b'/' (w ++ (b'/' ∷ t)) ≡ w ∷ split_on b'/' t
unfolding split_on
split_on-word [] t h = split_on-slash t
split_on-word (c ∷ w) t h =
    let other : (c == b'/') ≡ false = ground (arith, h) in
    rw (split_on-word w t (ground (arith, h)), split_on) (rw other refl)

split_on-last : (w : Text) → has_char b'/' w ≡ false → split_on b'/' w ≡ w ∷ []
unfolding split_on
split_on-last [] h = refl
split_on-last (c ∷ w) h =
    let other : (c == b'/') ≡ false = ground (arith, h) in
    rw (split_on-last w (ground (arith, h)), split_on) (rw other refl)

words-slash : (t : Text) → words (b'/' ∷ t) ≡ words t
unfolding words
words-slash t = rw split_on-slash refl

words-word : (w t : Text) → IsPlain w → words (w ++ (b'/' ∷ t)) ≡ w ∷ words t
unfolding words
words-word w t h = rw (split_on-word w t h.no_slash) (rw h.filled refl)

words_empty : words [] ≡ []
unfolding words split_on
words_empty = refl

-- What follows the words of an address: nothing, or a slash.
abbrev tail_of : Bool → Text
tail_of true = lit "/"
tail_of false = []

words-join_slash :
    (ws : List Text) (b : Bool) → All IsPlain ws → words (join_slash ws ++ tail_of b) ≡ ws
unfolding join_slash
words-join_slash [] true h = words-slash [] ∙ words_empty
words-join_slash [] false h = words_empty
words-join_slash (x ∷ []) true h = words-word x [] h.0 ∙ ap (λ (ws : List Text). x ∷ ws) words_empty
words-join_slash (x ∷ []) false h =
    ap words (append-nil x) ∙ unfold words in rw (split_on-last x h.0.no_slash) (rw h.0.filled refl)
words-join_slash (x ∷ y ∷ ws) b h =
    ap words (append_assoc x (b'/' ∷ join_slash (y ∷ ws)) (tail_of b))
    ∙ words-word x (join_slash (y ∷ ws) ++ tail_of b) h.0
    ∙ ap (λ (vs : List Text). x ∷ vs) (words-join_slash (y ∷ ws) b h.1)

has_char-append : (c : ℕ) (s t : Text) → has_char c (s ++ t) ≡ (has_char c s || has_char c t)
has_char-append c [] t = refl
has_char-append c (a ∷ s) t = ground (arith, has_char-append c s t)

-- A character that no word has and that is no slash does not stand in an address.
no_char-join_slash :
    (c : ℕ) (ws : List Text) (b : Bool)
    → (b'/' == c) ≡ false
    → All (λ (w : Text). has_char c w ≡ false) ws
    → has_char c (join_slash ws ++ tail_of b) ≡ false
unfolding join_slash
no_char-join_slash c [] true h a = ground (arith, h)
no_char-join_slash c [] false h a = refl
no_char-join_slash c (x ∷ []) true h a = ground (arith, has_char-append c x (lit "/"), h, a.0)
no_char-join_slash c (x ∷ []) false h a = ground (arith, has_char-append c x [], a.0)
no_char-join_slash c (x ∷ y ∷ ws) b h a =
    ap (has_char c) (append_assoc x (b'/' ∷ join_slash (y ∷ ws)) (tail_of b))
    ∙ ground (
      arith,
      has_char-append c x (b'/' ∷ (join_slash (y ∷ ws) ++ tail_of b)),
      h,
      a.0,
      no_char-join_slash c (y ∷ ws) b h a.1,
    )

behind_scheme-none : (t : Text) → has_char b':' t ≡ false → behind_scheme t ≡ none
unfolding behind_scheme
behind_scheme-none [] h = refl
behind_scheme-none (c ∷ t) h = ground (arith, behind_scheme-none t, h)

without_query-plain :
    (t : Text) → has_char b'?' t ≡ false → has_char b'#' t ≡ false → without_query t ≡ t
unfolding without_query
without_query-plain [] h k = refl
without_query-plain (c ∷ t) h k =
    let more = without_query-plain t (ground (arith, h)) (ground (arith, k)) in
    ground (arith, h, k, more)

strip_words-append : (rs ws : List Text) → strip_words rs (rs ++ ws) ≡ some ws
unfolding strip_words
strip_words-append [] ws = refl
strip_words-append (r ∷ rs) ws = rw (text_eq_refl r) (strip_words-append rs ws)

abbrev pub Filled : List Text → Type 0
Filled ws = All (λ (w : Text). is_empty w ≡ false) ws

-- The names in a path are not empty.
abbrev pub IsNamed : FilePath → Type 0
IsNamed [] = Unit {0}
IsNamed (normal n ∷ p) = (is_empty n ≡ false) × IsNamed p
IsNamed (_ ∷ p) = IsNamed p

Filled-append : (vs ws : List Text) → Filled vs → Filled ws → Filled (vs ++ ws)
Filled-append [] ws a b = b
Filled-append (v ∷ vs) ws a b = (a.0, Filled-append vs ws a.1 b)

Filled-reverse : (ws : List Text) → Filled ws → Filled (reverse ws)
Filled-reverse [] a = tt
Filled-reverse (w ∷ ws) a =
    rw (reverse-cons w ws) (Filled-append (reverse ws) (w ∷ []) (Filled-reverse ws a.1) (a.0, tt))

Filled-names : (p : FilePath) → IsNamed p → Filled (names p)
unfolding names
Filled-names [] h = tt
Filled-names (normal n ∷ p) h = (h.0, Filled-names p h.1)
Filled-names (root ∷ p) h = Filled-names p h
Filled-names (current ∷ p) h = Filled-names p h
Filled-names (up ∷ p) h = go (names p) (Filled-names p h)
  where
    go : (ns : List Text) → Filled ns → Filled (elim ns [ [] ↦ [] | m ∷ ms ↦ ms ])
    go [] f = tt
    go (m ∷ ms) f = f.1

Filled-words : (t : Text) → Filled (words t)
unfolding words
Filled-words t = go (split_on b'/' t)
  where
    go : (ws : List Text) → Filled (keep (λ w. not (is_empty w)) ws)
    go [] = tt
    go (w ∷ ws) = ground (arith, go ws)

-- What `percent_encoding` promises: a name that is not empty is encoded with letters, digits and the
-- marks `-._~%` only, and is decoded to itself.
pub record IsCoder (encode decode : Text → Text) : Type 0 where
  pub plain : (s : Text) → is_empty s ≡ false → IsPlain (encode s)
  pub back : (s : Text) → decode (encode s) ≡ s
  pub kept : (s : Text) → is_empty s ≡ false → is_empty (decode s) ≡ false

module _ (encode decode : Text → Text) (coder : IsCoder encode decode) where
  Plain-map : (ws : List Text) → Filled ws → All IsPlain (map encode ws)
  Plain-map [] f = tt
  Plain-map (w ∷ ws) f = (coder.plain w f.0, Plain-map ws f.1)

  map-back : (ws : List Text) → map decode (map encode ws) ≡ ws
  map-back [] = refl
  map-back (w ∷ ws) = rw (coder.back w, map-back ws) refl

  no_char-Plain :
      (ws : List Text)
      → All IsPlain ws
      → All (λ (w : Text). has_char b':' w ≡ false) ws
        × All (λ (w : Text). has_char b'?' w ≡ false) ws
        × All (λ (w : Text). has_char b'#' w ≡ false) ws
  no_char-Plain [] a = (tt, tt, tt)
  no_char-Plain (w ∷ ws) a =
      let (c, q, h) = no_char-Plain ws a.1 in
      ((a.0.no_colon, c), (a.0.no_question, q), (a.0.no_hash, h))

  -- The words of an address without its marks.
  words-address :
      (ws : List Text) (b : Bool)
      → All IsPlain ws
      → let address = b'/' ∷ (join_slash ws ++ tail_of b) in
        (behind_scheme address ≡ none) × (words (without_query address) ≡ ws)
  words-address ws b a =
      let t = join_slash ws ++ tail_of b in
      let (colon, question, hash) = no_char-Plain ws a in
      let no_colon = no_char-join_slash b':' ws b refl colon in
      let no_question = no_char-join_slash b'?' ws b refl question in
      let no_hash = no_char-join_slash b'#' ws b refl hash in
      (
        behind_scheme-none (b'/' ∷ t) (ground (arith, no_colon)),
        ap words (
              without_query-plain (b'/' ∷ t) (ground (arith, no_question))
                (ground (arith, no_hash)))
            ∙ words-slash t
            ∙ words-join_slash ws b a,
      )

  -- An address is a slash, the words, and a slash at most.
  href-tail :
      (l : Locator) (path : FilePath) (collection : Bool)
      → (b : Bool) × (href encode decode l path collection
          ≡ b'/' ∷ (join_slash (map encode (l.root ++ segments path)) ++ tail_of b))
  unfolding href
  href-tail l path collection =
      let joined = join_slash (map encode (l.root ++ segments path)) in
      elim (Bool-cases (collection && not (ends_with_slash (b'/' ∷ joined)))) [
        | inl e ↦ (true, rw e refl)
        | inr e ↦ (false, rw e (ap (λ (t : Text). b'/' ∷ t) (sym (append-nil joined))))
      ]

-- For the locator of any server, the address of a path, as a collection or not, leads back to the path
-- in its normal form: below the locator's root, without `.` and with each `..` taken.
pub path_of_href-href :
    (encode decode : Text → Text) (origin base : Text) (path : FilePath) (collection : Bool)
    → IsCoder encode decode
    → IsNamed path
    → path_of_href encode decode
        (new encode decode origin base)
        (href encode decode (new encode decode origin base) path collection)
      ≡ some (normalize path)
unfolding path_of_href normalize new
path_of_href-href encode decode origin base path collection coder named =
    let l = new encode decode origin base in
    let ws = l.root ++ segments path in
    let filled : Filled ws =
      Filled-append l.root (segments path) (Filled-map (words base) (Filled-words base))
        (unfold segments in Filled-reverse (names path) (Filled-names path named)) in
    let (b, e) = href-tail encode decode coder l path collection in
    let (none_there, back) =
      words-address encode decode coder (map encode ws) b
        (Plain-map encode decode coder ws filled) in
    rw e (
      rw (none_there, path_of_href)
        (rw back (rw (map-back encode decode coder ws) (rw strip_words-append refl))))
  where
    Filled-map : (vs : List Text) → Filled vs → Filled (map decode vs)
    Filled-map [] f = tt
    Filled-map (v ∷ vs) f = (coder.kept v f.0, Filled-map vs f.1)
