-- ===== src/Profiles/Draft.antt =====
-- porthmos-core/src/profiles/draft/mod.rs: a form that was filled in, checked and made a profile. `lower`
-- is `to_lowercase`, which the tags are compared by.
mod Copied
mod Steps
mod Stored
mod Accepted
mod Examples
use Prim.Native.Nat.{ℕ}
use mathlib.Core.Bool.{Bool, true, false, not, ◌&&◌, ◌||◌}
use mathlib.Core.Option.{Option, none, some}
use mathlib.Core.List.{List, [], ◌∷◌, ◌++◌}
use term_connect.Shared.{◌==◌, if◌then◌else◌, any, is_empty}
use term_connect.Shared.HashMap.{get, insert}
use term_connect.Shared.Text.{Text, lit, text_eq, trim_text, Text-discrete}
use term_connect.Shared.Words.{parse_u16}
use term_connect.Shared.Results.{Result, ok, err, bind}
use term_connect.Profiles.Labels.{normalize_group, parse_tags}
use term_connect.Profiles.Form.{
  Choice, OptionKind, text, secret, choice, toggle, OptionField, ConnectionForm, option,
}
use term_connect.Profiles.Entry.{ConnectionEntry, ConnectionProfile, Options, password_marker}

abbrev pub remote_path_key : Text
remote_path_key = lit "remote_path"

pub data SecretEdit : Type 0 where
  keep clear : SecretEdit
  replace : Text → SecretEdit

pub record ProfileDraft : Type 0 where
  pub protocol : Text
  pub name : Text
  pub host : Text
  pub port : Text
  pub username : Text
  pub password : SecretEdit
  pub remote_path : Text
  pub group : Text
  pub tags : Text
  pub options : Options
  pub secret_options : List (Text × SecretEdit)

unfoldable pub required : Text → Text → Bool → Result (Unit {0})
required value label is_required =
    if is_required && is_empty value then err (label ++ lit " can't be empty") else ok tt

unfoldable pub has_marker : Option ConnectionEntry → Text → Bool
has_marker none marker = false
has_marker (some entry) marker = any (λ saved. text_eq saved marker) entry.in_keyring

unfoldable pub required_secret : SecretEdit → Text → Bool → Bool → Bool → Result (Unit {0})
required_secret (replace value) label is_required saved trim =
    required (if trim then trim_text value else value) label is_required
required_secret keep label is_required saved trim =
    if saved then ok tt else required [] label is_required
required_secret clear label is_required saved trim = required [] label is_required

unfoldable pub is_keep : SecretEdit → Bool
is_keep keep = true
is_keep clear = false
is_keep (replace value) = false

-- `preserve_from.filter(|entry| entry.protocol == self.protocol)`
unfoldable pub same_protocol : ProfileDraft → Option ConnectionEntry → Option ConnectionEntry
same_protocol draft none = none
same_protocol draft (some entry) =
    if text_eq entry.protocol draft.protocol then some entry else none

unfoldable pub or_empty : Option Text → Text
or_empty none = []
or_empty (some t) = t

unfoldable pub or_keep : Option SecretEdit → SecretEdit
or_keep none = keep
or_keep (some edit) = edit

abbrev pub is_some {ℓ} : {A : Type ℓ} → Option A → Bool
is_some none = false
is_some (some a) = true

-- The options that the form does not know are taken over.
unfoldable pub copy_unknown : ConnectionForm → Options → Options → Options
copy_unknown form options [] = options
copy_unknown form options ((key, value) ∷ more) =
    let with_key = copy_unknown form (insert Text-discrete key value options) more in
    let without = copy_unknown form options more in
    if not (text_eq key remote_path_key) && not (is_some (option form key))
    then with_key
    else without

unfoldable pub copied : ConnectionForm → Option ConnectionEntry → Options
copied form none = []
copied form (some entry) = copy_unknown form [] entry.options

join_labels : List Choice → Text
join_labels [] = []
join_labels (c ∷ []) = c.label
join_labels (c ∷ d ∷ choices) = c.label ++ (lit ", " ++ join_labels (d ∷ choices))

-- The `match` on the field's kind.
unfoldable pub check_value : Text → Text → OptionKind → Result (Unit {0})
unfolding join_labels
check_value label value (choice choices default) =
    if not (any (λ c. text_eq c.value value) choices)
    then err (label ++ (lit " must be one of: " ++ join_labels choices))
    else ok tt
check_value label value (toggle default) =
    if not (text_eq value (lit "true")) && not (text_eq value (lit "false"))
    then err (label ++ lit " must be on or off")
    else ok tt
check_value label value (text default) = ok tt
check_value label value secret = ok tt

unfoldable pub check_kind : OptionField → Text → Result (Unit {0})
check_kind field value = check_value field.label value field.kind

unfoldable pub is_secret : OptionKind → Bool
is_secret secret = true
is_secret _ = false

-- `in_keyring` and `options`.
abbrev pub Kept : Type 0
Kept = List Text × Options

unfoldable pub read_secret :
    ProfileDraft → Option ConnectionEntry → Kept → OptionField → Result Kept
read_secret draft original (in_keyring, options) field =
    let edit = or_keep (get Text-discrete draft.secret_options field.key) in
    let saved = has_marker original field.key in
    bind (required_secret edit field.label field.required saved true) (λ u.
      ok ((if saved && is_keep edit then in_keyring ++ (field.key ∷ []) else in_keyring), options))

unfoldable pub raw_value : ProfileDraft → Text → Text
raw_value draft key = or_empty (get Text-discrete draft.options key)

unfoldable pub read_plain : ProfileDraft → Kept → OptionField → Result Kept
read_plain draft (in_keyring, options) field =
    let value = trim_text (raw_value draft field.key) in
    bind (required value field.label field.required) (λ u.
      if is_empty value
      then ok (in_keyring, options)
      else bind (check_kind field value)
          (λ v. ok (in_keyring, insert Text-discrete field.key value options)))

unfoldable pub read_fields :
    ProfileDraft → Option ConnectionEntry → Kept → List OptionField → Result Kept
read_fields draft original kept [] = ok kept
read_fields draft original kept (field ∷ fields) =
    bind
      (if is_secret field.kind
        then read_secret draft original kept field
        else read_plain draft kept field)
      (λ kept'. read_fields draft original kept' fields)

unfoldable pub port : ProfileDraft → ConnectionForm → Result ℕ
port draft form =
    if is_empty (trim_text draft.port)
    then ok form.port.default
    else elim (parse_u16 (trim_text draft.port)) [
      | none ↦ err (form.port.label ++ lit " must be a number from 1-65535")
      | some n ↦
          if n == 0 then err (form.port.label ++ lit " must be a number from 1-65535") else ok n
    ]

unfoldable pub add_remote_path : ProfileDraft → Options → Options
add_remote_path draft options =
    if is_empty (trim_text draft.remote_path)
    then options
    else insert Text-discrete remote_path_key (trim_text draft.remote_path) options

-- The profile, once every field is read.
unfoldable pub profile_of : (Text → Text) → ProfileDraft → ℕ → Kept → ConnectionProfile
profile_of lower draft port (in_keyring, options) = record {
  name = trim_text draft.name;
  protocol = draft.protocol;
  host = trim_text draft.host;
  port = some port;
  username = trim_text draft.username;
  group = normalize_group draft.group;
  tags = parse_tags lower draft.tags;
  in_keyring = in_keyring;
  options = add_remote_path draft options;
}

unfoldable pub validate :
    (Text → Text)
    → ProfileDraft
    → ConnectionForm
    → Option ConnectionEntry
    → Result ConnectionProfile
validate lower draft form preserve_from =
    let original = same_protocol draft preserve_from in
    let saved = has_marker original password_marker in
    bind (required (trim_text draft.name) (lit "Name") true) (λ a.
      bind (required (trim_text draft.host) form.host.label form.host.required) (λ b.
        bind (required (trim_text draft.username) form.username.label form.username.required) (λ c.
          bind
            (required_secret draft.password form.password.label form.password.required saved false)
            (λ d. bind (port draft form) (λ port.
              bind
                (read_fields draft original
                  (
                    (if saved && is_keep draft.password then password_marker ∷ [] else []),
                    copied form original,
                  )
                  form.options)
                (λ kept. ok (profile_of lower draft port kept)))))))
