-- ===== src/Profiles/Entry.antt =====
-- porthmos-core/src/profiles/profile/mod.rs: a stored connection, and one as it is listed. Passwords are
-- texts here; a `BTreeMap` is a list of keys and values that is read by its keys.
use Prim.Native.Nat.{ℕ}
use mathlib.Core.Bool.{Bool, true, false}
use mathlib.Core.Option.{Option, none, some}
use mathlib.Core.List.{List, []}
use term_connect.Shared.{if◌then◌else◌, any, is_empty}
use term_connect.Shared.HashMap.{get}
use term_connect.Shared.Text.{Text, lit, text_eq, trim_text, Text-discrete}
use term_connect.Profiles.Labels.{Labels}

abbrev pub default_protocol : Text
default_protocol = lit "sftp"

abbrev pub password_marker : Text
password_marker = lit "password"

abbrev pub Options : Type 0
Options = List (Text × Text)

pub record ConnectionProfile : Type 0 where
  pub name : Text
  pub protocol : Text
  pub host : Text
  pub port : Option ℕ
  pub username : Text
  pub group : Option Text
  pub tags : List Text
  pub in_keyring : List Text
  pub options : Options

pub data ConnectionSource : Type 0 where
  profile ssh_config missing_ssh_host shadowed_ssh_host : ConnectionSource

unfoldable pub is_orphan_labels : ConnectionSource → Bool
is_orphan_labels missing_ssh_host = true
is_orphan_labels shadowed_ssh_host = true
is_orphan_labels _ = false

pub record ConnectionEntry : Type 0 where
  pub name : Text
  pub protocol : Text
  pub host : Text
  pub port : ℕ
  pub username : Text
  pub password : Option Text
  pub options : Options
  pub group : Option Text
  pub tags : List Text
  pub saved_password : Bool
  pub in_keyring : List Text
  pub source : ConnectionSource

-- `porthmos_vfs::Target`
pub record Target : Type 0 where
  pub name : Text
  pub host : Text
  pub port : ℕ
  pub username : Text
  pub password : Option Text
  pub options : Options

unfoldable pub has_password_marker : List Text → Bool
has_password_marker in_keyring = any (λ marker. text_eq marker password_marker) in_keyring

abbrev pub unwrap_or : ℕ → Option ℕ → ℕ
unwrap_or n none = n
unwrap_or n (some m) = m

unfoldable pub from_profile : ConnectionProfile → ℕ → ConnectionEntry
from_profile p default_port = record {
  name = p.name;
  protocol = p.protocol;
  host = p.host;
  port = unwrap_or default_port p.port;
  username = p.username;
  password = none;
  options = p.options;
  group = p.group;
  tags = p.tags;
  saved_password = has_password_marker p.in_keyring;
  in_keyring = p.in_keyring;
  source = profile;
}

unfoldable pub discovered : Text → Target → ConnectionEntry
discovered protocol t = record {
  name = t.name;
  protocol = protocol;
  host = t.host;
  port = t.port;
  username = t.username;
  password = t.password;
  options = t.options;
  group = none;
  tags = [];
  saved_password = false;
  in_keyring = [];
  source = ssh_config;
}

unfoldable pub orphan_labels : Text → Labels → ConnectionSource → ConnectionEntry
orphan_labels name labels source = record {
  name = name;
  protocol = default_protocol;
  host = [];
  port = 0;
  username = [];
  password = none;
  options = [];
  group = labels.group;
  tags = labels.tags;
  saved_password = false;
  in_keyring = [];
  source = source;
}

unfoldable pub option_of : ConnectionEntry → Text → Option Text
option_of entry key = get Text-discrete entry.options key

unfoldable pub start_path : ConnectionEntry → Option Text
start_path entry = elim (option_of entry (lit "remote_path")) [
  | none ↦ none
  | some path ↦ if is_empty (trim_text path) then none else some (trim_text path)
]

unfoldable pub target : ConnectionEntry → Target
target entry = record {
  name = entry.name;
  host = entry.host;
  port = entry.port;
  username = entry.username;
  password = entry.password;
  options = entry.options;
}
