-- ===== src/Profiles/Form.antt =====
-- porthmos-vfs/src/form/mod.rs: what a protocol asks of a connection.
use Prim.Native.Nat.{ℕ}
use mathlib.Core.Bool.{Bool, true, false}
use mathlib.Core.Option.{Option, none, some}
use mathlib.Core.List.{List, [], ◌∷◌, map}
use term_connect.Shared.{if◌then◌else◌, any, keep}
use term_connect.Shared.Text.{Text, lit, text_eq}

abbrev pub reserved_keys : List Text
reserved_keys =
    lit "protocol"
    ∷ lit "name"
    ∷ lit "group"
    ∷ lit "tags"
    ∷ lit "host"
    ∷ lit "port"
    ∷ lit "username"
    ∷ lit "password"
    ∷ lit "in_keyring"
    ∷ lit "remote_path"
    ∷ []

pub record CommonField : Type 0 where
  pub label : Text
  pub required : Bool

pub record PortField : Type 0 where
  pub label : Text
  pub default : ℕ

pub record Choice : Type 0 where
  pub value : Text
  pub label : Text

pub data OptionKind : Type 0 where
  text : Text → OptionKind
  secret : OptionKind
  choice : List Choice → Text → OptionKind
  toggle : Bool → OptionKind

pub record OptionField : Type 0 where
  pub key : Text
  pub label : Text
  pub required : Bool
  pub kind : OptionKind

pub record ConnectionForm : Type 0 where
  pub host : CommonField
  pub port : PortField
  pub username : CommonField
  pub password : CommonField
  pub options : List OptionField

unfoldable pub standard : ℕ → ConnectionForm
standard default_port = record {
  host = record { label = lit "Host"; required = true };
  port = record { label = lit "Port"; default = default_port };
  username = record { label = lit "Username"; required = true };
  password = record { label = lit "Password"; required = false };
  options = [];
}

unfoldable pub find_field : List OptionField → Text → Option OptionField
find_field [] key = none
find_field (field ∷ fields) key =
    let rest = find_field fields key in if text_eq field.key key then some field else rest

unfoldable pub option : ConnectionForm → Text → Option OptionField
unfolding find_field
option form key = find_field form.options key

unfoldable pub reserved_key_collisions : ConnectionForm → List Text
reserved_key_collisions form =
    keep (λ key. any (λ reserved. text_eq reserved key) reserved_keys)
      (map (λ field. field.key) form.options)
