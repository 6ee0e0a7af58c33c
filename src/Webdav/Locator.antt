-- ===== src/Webdav/Locator.antt =====
-- protocols/webdav/src/paths/mod.rs: between paths and the addresses of a server. The crate
-- `percent_encoding` is a pair of parameters: `encode` is `utf8_percent_encode` with the set `SEGMENT`,
-- `decode` is `percent_decode_str` read as UTF-8 with replacement characters.
use mathlib.Core.Bool.{Bool, false, not, ◌&&◌, ◌||◌}
use mathlib.Core.Option.{Option, none, some}
use mathlib.Core.List.{List, [], ◌∷◌, ◌++◌, map, reverse}
use term_connect.Shared.{◌==◌, if◌then◌else◌, keep, is_empty}
use term_connect.Shared.Text.{Text, lit, text_eq, split_on, join_slash, starts_with}
use term_connect.Transfer.Plan.{root, up, normal, FilePath}

pub record Locator : Type 0 where
  pub origin : Text
  pub root : List Text

-- `split('/').filter(|segment| !segment.is_empty())`
unfoldable pub words : Text → List Text
words t = keep (λ w. not (is_empty w)) (split_on b'/' t)

-- The names of a path, the last one first; a step up takes the last name back, if there is one.
unfoldable pub names : FilePath → List Text
names [] = []
names (normal n ∷ p) = n ∷ names p
names (up ∷ p) = elim (names p) [ [] ↦ [] | n ∷ ns ↦ ns ]
names (_ ∷ p) = names p

unfoldable pub segments : FilePath → List Text
unfolding names
segments path = reverse (names path)

-- `PathBuf::push`: the components of the text are appended, and an absolute text starts over.
unfoldable pub push_word : FilePath → Text → FilePath
push_word p w =
    if is_empty w || text_eq w (lit ".")
    then p
    else if text_eq w (lit "..")
    then up ∷ p
    else normal w ∷ p

push_words : FilePath → List Text → FilePath
push_words p [] = p
push_words p (w ∷ ws) = push_words (push_word p w) ws

unfoldable pub push : FilePath → Text → FilePath
unfolding push_words push_word
push p t = push_words (if starts_with (lit "/") t then root ∷ [] else p) (split_on b'/' t)

extend : FilePath → List Text → FilePath
extend p [] = p
extend p (t ∷ ts) = extend (push p t) ts

unfoldable pub to_path : List Text → FilePath
unfolding extend
to_path segs = extend (root ∷ []) segs

unfoldable pub normalize : FilePath → FilePath
normalize path = to_path (segments path)

-- `&href[scheme_end + 3..]`, from the slashes on.
abbrev pub behind_slashes : Text → Text
behind_slashes (a ∷ b ∷ s) = s
behind_slashes _ = []

-- The text behind the first `://`.
unfoldable pub behind_scheme : Text → Option Text
behind_scheme [] = none
behind_scheme (c ∷ t) =
    let rest = behind_scheme t in
    if c == b':' && starts_with (lit "//") t then some (behind_slashes t) else rest

-- From the first slash on, or `/`.
unfoldable pub from_slash : Text → Text
from_slash [] = lit "/"
from_slash (c ∷ t) = let rest = from_slash t in if c == b'/' then c ∷ t else rest

unfoldable pub without_query : Text → Text
without_query [] = []
without_query (c ∷ t) =
    let rest = without_query t in if c == b'?' || c == b'#' then [] else c ∷ rest

absolute_of : Text → Option Text → Text
absolute_of href none = href
absolute_of href (some rest) = from_slash rest

-- `slice.strip_prefix`
unfoldable pub strip_words : List Text → List Text → Option (List Text)
strip_words [] ws = some ws
strip_words (r ∷ rs) [] = none
strip_words (r ∷ rs) (w ∷ ws) = let rest = strip_words rs ws in if text_eq r w then rest else none

unfoldable pub ends_with_slash : Text → Bool
ends_with_slash [] = false
ends_with_slash (c ∷ []) = c == b'/'
ends_with_slash (c ∷ d ∷ t) = ends_with_slash (d ∷ t)

path_of : Option (List Text) → Option FilePath
path_of none = none
path_of (some ws) = some (to_path ws)

module _ (encode decode : Text → Text) where
  unfoldable pub new : Text → Text → Locator
  new origin base = record { origin = origin; root = map decode (words base) }

  unfoldable pub href : Locator → FilePath → Bool → Text
  href l path collection =
      let address = b'/' ∷ join_slash (map encode (l.root ++ segments path)) in
      if collection && not (ends_with_slash address) then address ++ lit "/" else address

  unfoldable pub path_of_href : Locator → Text → Option FilePath
  unfolding path_of absolute_of
  path_of_href l address = path_of (
      strip_words l.root
        (map decode (words (without_query (absolute_of address (behind_scheme address))))))

unfoldable pub root_path : Locator → Text
root_path l = if is_empty l.root then lit "/" else lit "/" ++ (join_slash l.root ++ lit "/")

unfoldable pub url : Locator → Text → Text
url l address = l.origin ++ address
