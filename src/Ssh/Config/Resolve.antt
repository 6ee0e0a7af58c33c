-- ===== src/Ssh/Config/Resolve.antt =====
-- The settings of a host: the first value the file gives for each.
use Prim.Native.Nat.{ℕ}
use mathlib.Core.Bool.{Bool, true, false, ◌&&◌}
use mathlib.Core.Option.{Option, none, some}
use mathlib.Core.List.{List, [], ◌∷◌, map}
use term_connect.Shared.{if◌then◌else◌, keep, or_else}
use term_connect.Shared.Text.{Text, lit, text_eq}
use term_connect.Shared.Words.{parse_u16}
use term_connect.Ssh.Config.Values.{expand_tokens, expand_home}
use term_connect.Ssh.Config.Blocks.{Block, matches, names, split_into_blocks, concrete_aliases}

pub record SshConfigHost : Type 0 where
  pub name : Text
  pub host_name : Option Text
  pub user : Option Text
  pub port : Option ℕ
  pub identity_file : Option Text

unfoldable pub is_none {ℓ} : {A : Type ℓ} → Option A → Bool
is_none none = true
is_none (some a) = false

-- The host and `wildcard_identity_file`.
abbrev pub Found : Type 0
Found = SshConfigHost × Option Text

module _ (alias : Text) (home : Option Text) where
  -- The arms of `resolve`, in their order.
  unfoldable pub set_directive : Bool → Found → Text × Text → Found
  set_directive names_alias (host, wildcard) (keyword, value) =
      if text_eq keyword (lit "hostname") && is_none host.host_name
      then (record host { host_name = some (expand_tokens value alias) }, wildcard)
      else if text_eq keyword (lit "user") && is_none host.user
      then (record host { user = some value }, wildcard)
      else if text_eq keyword (lit "port") && is_none host.port
      then (record host { port = parse_u16 value }, wildcard)
      else if text_eq keyword (lit "identityfile") && (names_alias && is_none host.identity_file)
      then (record host { identity_file = some (expand_home value home) }, wildcard)
      else if text_eq keyword (lit "identityfile") && is_none wildcard
      then (host, some (expand_home value home))
      else (host, wildcard)

  unfoldable pub set_directives : Bool → Found → List (Text × Text) → Found
  set_directives names_alias found [] = found
  set_directives names_alias found (d ∷ ds) =
      set_directives names_alias (set_directive names_alias found d) ds

  unfoldable pub set_blocks : Found → List Block → Found
  set_blocks found [] = found
  set_blocks found (block ∷ blocks) =
      set_blocks (set_directives (names block alias) found block.directives) blocks

abbrev pub unset : Text → SshConfigHost
unset alias = record {
  name = alias;
  host_name = none;
  user = none;
  port = none;
  identity_file = none;
}

abbrev pub settle : Found → SshConfigHost
settle (host, wildcard) = record host { identity_file = or_else host.identity_file wildcard }

unfoldable pub resolve : (Text → Text) → Text → List Block → Option Text → SshConfigHost
resolve lower alias blocks home =
    settle
      (set_blocks alias home (unset alias, none) (keep (λ block. matches lower block alias) blocks))

unfoldable pub parse : (Text → Text) → Text → Option Text → List SshConfigHost
parse lower contents home =
    let blocks = split_into_blocks contents in
    map (λ alias. resolve lower alias blocks home) (concrete_aliases blocks)
