-- ===== src/Profiles/Draft/Examples.antt =====
-- A draft of a bucket whose secret is in the keyring, and the theorems at it.
use mathlib.Core.Path.{◌≡◌, refl}
use mathlib.Core.Bool.{true, false}
use mathlib.Core.Option.{none, some}
use mathlib.Core.List.{[], ◌∷◌}
use term_connect.Shared.Text.{
  Text, lit, trim_text, Text-discrete, is_space, join_slash, split_on, strip_char, trim_start,
}
use term_connect.Shared.Results.{ok, bind}
use term_connect.Profiles.Form.{text, secret, toggle, ConnectionForm, option, find_field}
use term_connect.Profiles.Entry.{ConnectionEntry, ConnectionProfile, profile}
use term_connect.Profiles.Draft.{
  ProfileDraft, keep, same_protocol, validate, port, required, required_secret, has_marker,
  read_fields, is_secret, read_plain, raw_value, or_empty, add_remote_path, check_kind, check_value,
  copied, copy_unknown, is_keep, or_keep, profile_of, read_secret,
}
use term_connect.Profiles.Labels.{
  add_tags, clean_tag, has_tag, normalize_group, normalize_tags, parse_tags,
}
use term_connect.Shared.{ℕ_discrete}
use term_connect.Shared.HashMap.{get, insert}
use term_connect.Shared.Words.{parse_u16, digits_value, number}
use term_connect.Profiles.Draft.Copied.{value_at}
use term_connect.Profiles.Draft.Stored.{stored_at, validate-stored_at}
use term_connect.Profiles.Draft.Accepted.{IsValid, validate-IsValid}

abbrev form : ConnectionForm
form = record {
  host = record { label = lit "Host"; required = true };
  port = record { label = lit "Port"; default = 443 };
  username = record { label = lit "Key"; required = true };
  password = record { label = lit "Secret"; required = false };
  options =
      (record { key = lit "b"; label = lit "Bucket"; required = true; kind = text [] })
      ∷ (record { key = lit "t"; label = lit "Token"; required = false; kind = secret })
      ∷ (record { key = lit "y"; label = lit "Style"; required = false; kind = toggle false })
      ∷ [];
}

abbrev draft : ProfileDraft
draft = record {
  protocol = lit "s3";
  name = lit " p";
  host = lit "h";
  port = lit "22";
  username = lit "u";
  password = keep;
  remote_path = lit "/";
  group = [];
  tags = [];
  options = (lit "b", lit "m ") ∷ (lit "y", lit "true") ∷ [];
  secret_options = [];
}

abbrev before : ConnectionEntry
before = record {
  name = lit "p";
  protocol = lit "s3";
  host = lit "o";
  port = 443;
  username = lit "u";
  password = none;
  options = (lit "x", lit "1") ∷ (lit "b", lit "o") ∷ [];
  group = none;
  tags = [];
  saved_password = false;
  in_keyring = lit "t" ∷ [];
  source = profile;
}

abbrev same : Text → Text
same t = t

abbrev made : ConnectionProfile
made = record {
  name = lit "p";
  protocol = lit "s3";
  host = lit "h";
  port = some 22;
  username = lit "u";
  group = none;
  tags = [];
  in_keyring = lit "t" ∷ [];
  options =
      (lit "x", lit "1")
      ∷ (lit "b", lit "m")
      ∷ (lit "y", lit "true")
      ∷ (lit "remote_path", lit "/")
      ∷ [];
}

accepted : validate same draft form (some before) ≡ ok made
unfolding validate bind required trim_text required_secret has_marker same_protocol port parse_u16
    read_fields is_secret read_plain raw_value or_empty get Text-discrete ℕ_discrete add_remote_path
    check_kind check_value copied copy_unknown is_keep or_keep profile_of read_secret option
    find_field add_tags clean_tag has_tag normalize_group normalize_tags parse_tags insert is_space
    join_slash split_on strip_char trim_start digits_value number
accepted = refl

validate-IsValid_example : IsValid draft form (same_protocol draft (some before)) made
validate-IsValid_example = validate-IsValid same draft form (some before) made accepted

validate-stored_at_example :
    value_at made.options (lit "b")
    ≡ stored_at draft form (same_protocol draft (some before)) (lit "b")
unfolding same_protocol
validate-stored_at_example =
    validate-stored_at same draft form (some before) made (lit "b") ((refl, tt), (tt, tt)) accepted
