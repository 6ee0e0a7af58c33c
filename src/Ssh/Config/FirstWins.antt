-- ===== src/Ssh/Config/FirstWins.antt =====
-- `resolve` against a description of it: of each setting, the first value in the blocks that apply.
use mathlib.Core.Path.{◌≡◌, refl, ap, sym, ◌∙◌}
use mathlib.Core.Bool.{Bool}
use mathlib.Core.Option.{Option, none, some, some-ne-none}
use mathlib.Core.List.{List, [], ◌∷◌, ◌++◌, map}
use mathlib.Core.Logic.{inl, inr}
use term_connect.Shared.{or_else, keep, Bool-cases}
use term_connect.Shared.Text.{Text, lit}
use term_connect.Ssh.Config.Blocks.{Block, matches, names}
use term_connect.Ssh.Config.Resolve.{
  SshConfigHost, Found, set_directive, set_directives, set_blocks, unset, resolve,
}
use term_connect.Ssh.Config.Settings.{
  Setting, find_map, value_of, port_of, named_value_of, change, settings,
}
use term_connect.Ssh.Config.Step.{AfterAll, or_none, set_directive-AfterOne, tokens, at_home}

module _ (alias : Text) (home : Option Text) where
  or_else_assoc :
      {A : Type 0} (a b c : Option A) → or_else (or_else a b) c ≡ or_else a (or_else b c)
  or_else_assoc none b c = refl
  or_else_assoc (some x) b c = refl

  or_else-change :
      {A : Type 0} (g : A → A) (a b : Option A)
      → or_else (change g a) (change g b) ≡ change g (or_else a b)
  or_else-change g none b = refl
  or_else-change g (some x) b = refl

  -- `set_directives` over settings whose blocks differ.
  abbrev set_all : Found → List Setting → Found
  set_all f [] = f
  set_all f ((n, d) ∷ ss) = set_all (set_directive alias home n f d) ss

  first_none : {A : Type 0} (a b : Option A) → or_else a b ≡ none → a ≡ none
  first_none none b e = refl
  first_none (some x) b e = absurd (some-ne-none _ e)

  join :
      {A : Type 0} (x x' x'' : Option A) (a b : Option A)
      → x' ≡ or_else x a
      → x'' ≡ or_else x' b
      → x'' ≡ or_else x (or_else a b)
  join {A} x x' x'' a b e e' = e' ∙ ap (λ (o : Option A). or_else o b) e ∙ or_else_assoc x a b

  join_changed :
      {A : Type 0} (x x' x'' : Option A) (g : A → A) (a b : Option A)
      → x' ≡ or_else x (change g a)
      → x'' ≡ or_else x' (change g b)
      → x'' ≡ or_else x (change g (or_else a b))
  join_changed {A} x x' x'' g a b e e' =
      join x x' x'' (change g a) (change g b) e e'
      ∙ ap (λ (o : Option A). or_else x o) (or_else-change g a b)

  set_all-AfterAll : (f : Found) (ss : List Setting) → AfterAll alias home f (set_all f ss) ss
  set_all-AfterAll f [] = record {
    same_name = refl;
    host_name_after = or_none _;
    user_after = or_none _;
    port_after = or_none _;
    named_after = or_none _;
    wildcard_after = λ e. or_none _;
  }
  set_all-AfterAll f ((n, (keyword, value)) ∷ ss) =
      let f1 : Found = set_directive alias home n f (keyword, value) in
      let a = set_directive-AfterOne alias home n f keyword value in
      let b = set_all-AfterAll f1 ss in
      record {
        same_name = b.same_name ∙ a.same_name;
        host_name_after = join_changed _ _ _ _ _ _ a.host_name_after b.host_name_after;
        user_after = join _ _ _ _ _ a.user_after b.user_after;
        port_after = join _ _ _ _ _ a.port_after b.port_after;
        named_after = join_changed _ _ _ _ _ _ a.named_after b.named_after;
        wildcard_after = λ e.
            join_changed _ _ _ _ _ _ (a.wildcard_after (first_none _ _ (sym b.named_after ∙ e)))
              (b.wildcard_after e);
      }

  set_all-append :
      (f : Found) (ss ts : List Setting) → set_all f (ss ++ ts) ≡ set_all (set_all f ss) ts
  set_all-append f [] ts = refl
  set_all-append f ((n, d) ∷ ss) ts = set_all-append (set_directive alias home n f d) ss ts

  set_directives-set_all :
      (n : Bool) (f : Found) (ds : List (Text × Text))
      → set_directives alias home n f ds ≡ set_all f (map (λ d. (n, d)) ds)
  unfolding set_directives
  set_directives-set_all n f [] = refl
  set_directives-set_all n f (d ∷ ds) = set_directives-set_all n (set_directive alias home n f d) ds

  set_blocks-set_all :
      (lower : Text → Text) (f : Found) (blocks : List Block)
      → set_blocks alias home f (keep (λ block. matches lower block alias) blocks)
        ≡ set_all f (settings lower alias blocks)
  unfolding set_blocks
  set_blocks-set_all lower f [] = refl
  set_blocks-set_all lower f (block ∷ blocks) = elim (Bool-cases (matches lower block alias)) [
    | inl e ↦ rw e (
        set_blocks-set_all lower (set_directives alias home (names block alias) f block.directives)
          blocks
        ∙ ap (λ (g : Found). set_all g (settings lower alias blocks))
            (set_directives-set_all (names block alias) f block.directives)
        ∙ sym (
            set_all-append f (map (λ d. (names block alias, d)) block.directives)
              (settings lower alias blocks)))
    | inr e ↦ rw e (set_blocks-set_all lower f blocks)
  ]

settled :
    {A : Type 0} (x y : Option A) (g : A → A) (a b : Option A)
    → x ≡ change g a
    → (x ≡ none → y ≡ change g b)
    → or_else x y ≡ change g (or_else a b)
settled none y g none b e f = f refl
settled none y g (some v) b e f = absurd (some-ne-none _ (sym e))
settled (some u) y g none b e f = absurd (some-ne-none _ e)
settled (some u) y g (some v) b e f = e

-- The name it is asked for; the host name, with its tokens expanded, and the user are the first of the
-- settings; the port is the first that is a port; the identity file is the first in the blocks that name
-- the host, or else the first of all.
abbrev pub TakesFirst : Text → Option Text → List Setting → SshConfigHost → Type 0
TakesFirst alias home ss host =
    (host.name ≡ alias)
    × (host.host_name ≡ change (tokens alias home) (find_map (value_of (lit "hostname")) ss))
    × (host.user ≡ find_map (value_of (lit "user")) ss)
    × (host.port ≡ find_map port_of ss)
    × (host.identity_file
        ≡ change (at_home alias home) (
            or_else (find_map (named_value_of (lit "identityfile")) ss)
              (find_map (value_of (lit "identityfile")) ss)))

-- `resolve` takes of each setting the first value that the blocks which apply to the host give: the
-- identity file from a block that names the host before one that only matches it, the port from the
-- first text that is a port, the host name with its tokens expanded.
pub resolve-TakesFirst :
    (lower : Text → Text) (alias : Text) (blocks : List Block) (home : Option Text)
    → TakesFirst alias home (settings lower alias blocks) (resolve lower alias blocks home)
unfolding resolve
resolve-TakesFirst lower alias blocks home =
    let a = set_all-AfterAll alias home (unset alias, none) (settings lower alias blocks) in
    rw (set_blocks-set_all alias home lower (unset alias, none) blocks) (
      a.same_name,
      a.host_name_after,
      a.user_after,
      a.port_after,
      settled _ _ (at_home alias home) _ _ a.named_after a.wildcard_after,
    )
