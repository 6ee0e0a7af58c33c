-- ===== src/Sync/Paths.antt =====
-- Relative paths as the list of their components, ordered as `Path` is: by components, and each
-- component by its bytes, which order as the code points do.
use mathlib.Core.Bool.{Bool, true, false, ◌&&◌, ◌||◌}
use mathlib.Core.List.{List, [], ◌∷◌}
use mathlib.Core.Option.{Option, none, some}
use term_connect.Shared.{if◌then◌else◌, any}
use term_connect.Shared.Text.{Text, text_eq, text_less}

abbrev pub FilePath : Type 0
FilePath = List Text

unfoldable pub path_less : FilePath → FilePath → Bool
unfolding text_less
path_less [] [] = false
path_less [] (b ∷ t) = true
path_less (a ∷ s) [] = false
path_less (a ∷ s) (b ∷ t) = text_less a b || (text_eq a b && path_less s t)

abbrev pub path_eq : FilePath → FilePath → Bool
path_eq [] [] = true
path_eq (a ∷ s) (b ∷ t) = text_eq a b && path_eq s t
path_eq _ _ = false

-- `BTreeSet<PathBuf>::insert`
unfoldable pub insert_path : FilePath → List FilePath → List FilePath
insert_path p [] = p ∷ []
insert_path p (r ∷ ps) =
    let rest = insert_path p ps in
    if path_less p r then p ∷ r ∷ ps else if path_eq p r then r ∷ ps else r ∷ rest

unfoldable pub path_set : List FilePath → List FilePath
path_set [] = []
path_set (p ∷ ps) = insert_path p (path_set ps)

-- `a` is an ancestor of `p`, and not `p` itself.
unfoldable pub is_proper_ancestor : FilePath → FilePath → Bool
is_proper_ancestor [] [] = false
is_proper_ancestor [] (b ∷ p) = true
is_proper_ancestor (a ∷ as') [] = false
is_proper_ancestor (a ∷ as') (b ∷ p) = text_eq a b && is_proper_ancestor as' p

-- `path.ancestors().skip(1).any(|ancestor| mismatched.contains(ancestor))`
unfoldable pub below_any : List FilePath → FilePath → Bool
unfolding is_proper_ancestor
below_any mismatched path = any (λ a. is_proper_ancestor a path) mismatched

unfoldable pub lookup_path {ℓ} : {V : Type ℓ} → List (FilePath × V) → FilePath → Option V
lookup_path [] p = none
lookup_path ((r, v) ∷ m) p = if path_eq r p then some v else lookup_path m p
