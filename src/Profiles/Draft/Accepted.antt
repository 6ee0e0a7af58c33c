-- ===== src/Profiles/Draft/Accepted.antt =====
-- What a draft that `validate` accepts is like.
use Prim.Native.Nat.{ℕ, ◌≤◌, ◌+◌, ◌-◌, ◌*◌}
use mathlib.Core.Path.{◌≡◌, refl, ap, sym, subst}
use mathlib.Core.Bool.{Bool, true, false, not, ◌&&◌, ◌||◌}
use mathlib.Core.Option.{Option, some, none-ne-some}
use mathlib.Core.List.{List, [], ◌∷◌, ◌++◌}
use mathlib.Core.Logic.{◌⊎◌, inl, inr}
use native.Mathlib.Omega.{arith}
use term_connect.Shared.{◌==◌, leb, if◌then◌else◌, any, is_empty, All, Bool-cases, Option-cases}
use term_connect.Shared.HashMap.{get}
use term_connect.Shared.Text.{Text, lit, text_eq, trim_text, Text-discrete}
use term_connect.Shared.Results.{ok, bind-ok, ok-injective, err_is_no_ok}
use term_connect.Profiles.Form.{
  OptionKind, text, secret, choice, toggle, OptionField, ConnectionForm,
}
use term_connect.Profiles.Entry.{ConnectionEntry, ConnectionProfile, Options, password_marker}
use term_connect.Profiles.Draft.{
  SecretEdit, keep, clear, replace, ProfileDraft, required, required_secret, same_protocol,
  check_value, check_kind, is_secret, is_keep, has_marker, or_keep, Kept, read_secret, raw_value,
  read_plain, read_fields, port, profile_of, validate,
}
use term_connect.Shared.Words.{parse_u16, number, digits_value}
use term_connect.Profiles.Draft.Steps.{validate-Passed}

-- The values a field takes.
abbrev pub is_allowed : OptionKind → Text → Bool
is_allowed (choice choices default) value = any (λ c. text_eq c.value value) choices
is_allowed (toggle default) value = text_eq value (lit "true") || text_eq value (lit "false")
is_allowed (text default) value = true
is_allowed secret value = true

-- Whether a secret is given: a new one that is not blank, or the saved one, which is kept. A password
-- may have spaces around it.
abbrev pub is_given : Bool → Bool → SecretEdit → Bool
is_given trim saved (replace value) = not (is_empty (if trim then trim_text value else value))
is_given trim saved keep = saved
is_given trim saved clear = false

-- Whether a field is filled in as it has to be.
abbrev pub is_accepted : ProfileDraft → Option ConnectionEntry → OptionField → Bool
is_accepted draft original field =
    let value = trim_text (raw_value draft field.key) in
    let edit = or_keep (get Text-discrete draft.secret_options field.key) in
    if is_secret field.kind
    then not field.required || is_given true (has_marker original field.key) edit
    else (if is_empty value then not field.required else is_allowed field.kind value)

-- The name is not blank, nor are the host and the user where the form requires them; a password that the
-- form requires is given; the port is that of the form or one from 1 to 65535; every field is accepted,
-- a secret one if it is given where it is required; and the keyring is asked only for secrets that were
-- saved in it.
abbrev pub IsValid :
    ProfileDraft → ConnectionForm → Option ConnectionEntry → ConnectionProfile → Type 0
IsValid draft form original p =
    (is_empty p.name ≡ false)
    × ((form.host.required && is_empty p.host) ≡ false)
    × ((form.username.required && is_empty p.username) ≡ false)
    × ((not form.password.required
          || is_given false (has_marker original password_marker) draft.password)
        ≡ true)
    × ((n : ℕ) × ((p.port ≡ some n) × ((n ≡ form.port.default) ⊎ ((1 ≤ n) × (n ≤ 65535)))))
    × All (λ field. is_accepted draft original field ≡ true) form.options
    × All (λ marker. has_marker original marker ≡ true) p.in_keyring

required-ok :
    (value label : Text) (b : Bool) (u : Unit {0})
    → required value label b ≡ ok u
    → (b && is_empty value) ≡ false
unfolding required
required-ok value label b u e = elim (Bool-cases (b && is_empty value)) [
  | inl f ↦ absurd (err_is_no_ok (rw f at e))
  | inr f ↦ f
]

required_secret-ok :
    (edit : SecretEdit) (label : Text) (b saved trim : Bool) (u : Unit {0})
    → required_secret edit label b saved trim ≡ ok u
    → (not b || is_given trim saved edit) ≡ true
unfolding required_secret
required_secret-ok (replace value) label b saved trim u e =
    let given = required-ok (if trim then trim_text value else value) label b u e in
    ground (arith, given)
required_secret-ok keep label b saved trim u e = elim (Bool-cases saved) [
  | inl f ↦ rw f (ground arith)
  | inr f ↦ let given = required-ok [] label b u (rw f at e) in rw f (ground (arith, given))
]
required_secret-ok clear label b saved trim u e =
    let given = required-ok [] label b u e in ground (arith, given)

digits_value-bounded : (acc : ℕ) (s : Text) (n : ℕ) → digits_value acc s ≡ some n → n ≤ 65535
unfolding digits_value
digits_value-bounded acc [] n e = ground (arith, e)
digits_value-bounded acc (c ∷ s) n e = elim (Bool-cases (leb b'0' c && leb c b'9')) [
  | inl f ↦ digits_value-bounded (10 * acc + (c - b'0')) s n (rw f at e)
  | inr f ↦ absurd (none-ne-some n (rw f at e))
]

number-bounded : (s : Text) (n : ℕ) → number s ≡ some n → n ≤ 65535
unfolding number
number-bounded [] n e = absurd (none-ne-some n e)
number-bounded (c ∷ s) n e = digits_value-bounded 0 (c ∷ s) n e

parse_u16-bounded : (s : Text) (n : ℕ) → parse_u16 s ≡ some n → n ≤ 65535
unfolding parse_u16
parse_u16-bounded [] n e = absurd (none-ne-some n e)
parse_u16-bounded (c ∷ s) n e = elim (Bool-cases (c == b'+')) [
  | inl f ↦ number-bounded s n (rw f at e)
  | inr f ↦ number-bounded (c ∷ s) n (rw f at e)
]

port-range :
    (draft : ProfileDraft) (form : ConnectionForm) (n : ℕ)
    → port draft form ≡ ok n
    → (n ≡ form.port.default) ⊎ ((1 ≤ n) × (n ≤ 65535))
unfolding port
port-range draft form n e = elim (Bool-cases (is_empty (trim_text draft.port))) [
  | inl f ↦ inl (sym (ok-injective (rw f at e)))
  | inr f ↦ elim (Option-cases (parse_u16 (trim_text draft.port))) [
    | inl g ↦ absurd (err_is_no_ok (rw g at (rw f at e)))
    | inr (m, g) ↦ elim (Bool-cases (m == 0)) [
      | inl z ↦ absurd (err_is_no_ok (rw z at (rw g at (rw f at e))))
      | inr z ↦
          let same : m ≡ n = ok-injective (rw z at (rw g at (rw f at e))) in
          inr (ground (arith, z, same), omega (arith, same, parse_u16-bounded _ m g))
    ]
  ]
]

check_value-allowed :
    (label value : Text) (kind : OptionKind) (u : Unit {0})
    → check_value label value kind ≡ ok u
    → is_allowed kind value ≡ true
unfolding check_value
check_value-allowed label value (choice choices default) u e =
    elim (Bool-cases (any (λ c. text_eq c.value value) choices)) [
      | inl f ↦ f
      | inr f ↦ absurd (err_is_no_ok (rw f at e))
    ]
check_value-allowed label value (toggle default) u e =
    elim (Bool-cases (not (text_eq value (lit "true")) && not (text_eq value (lit "false")))) [
      | inl f ↦ absurd (err_is_no_ok (rw f at e))
      | inr f ↦ ground (arith, f)
    ]
check_value-allowed label value (text default) u e = refl
check_value-allowed label value secret u e = refl

check_kind-allowed :
    (field : OptionField) (value : Text) (u : Unit {0})
    → check_kind field value ≡ ok u
    → is_allowed field.kind value ≡ true
unfolding check_kind
check_kind-allowed field value u e = check_value-allowed field.label value field.kind u e

read_plain-accepted :
    (draft : ProfileDraft) (original : Option ConnectionEntry) (in_keyring : List Text)
    (options : Options) (kept' : Kept) (field : OptionField)
    → read_plain draft (in_keyring, options) field ≡ ok kept'
    → is_secret field.kind ≡ false
    → (is_accepted draft original field ≡ true) × (kept'.0 ≡ in_keyring)
unfolding read_plain
read_plain-accepted draft original in_keyring options kept' field e plain =
    let value = trim_text (raw_value draft field.key) in
    let a = bind-ok _ _ kept' e in
    let given = required-ok value field.label field.required a.0 a.1.0 in
    elim (Bool-cases (is_empty value)) [
      | inl blank ↦ (
        rw (plain, blank) (ground (arith, blank, given)),
        ap (λ (k : Kept). k.0) (sym (ok-injective (rw blank at a.1.1))),
      )
      | inr filled ↦
          let b = bind-ok (check_kind field value) _ kept' (rw filled at a.1.1) in
          (
            rw (plain, filled) (check_kind-allowed field value b.0 b.1.0),
            ap (λ (k : Kept). k.0) (sym (ok-injective b.1.1)),
          )
    ]

IsSaved : Option ConnectionEntry → List Text → Type 0
IsSaved original in_keyring = All (λ marker. has_marker original marker ≡ true) in_keyring

IsSaved-append :
    (original : Option ConnectionEntry) (in_keyring : List Text) (key : Text)
    → IsSaved original in_keyring
    → has_marker original key ≡ true
    → IsSaved original (in_keyring ++ (key ∷ []))
unfolding IsSaved
IsSaved-append original [] key h k = (k, tt)
IsSaved-append original (m ∷ ms) key h k = (h.0, IsSaved-append original ms key h.1 k)

read_secret-IsSaved :
    (draft : ProfileDraft) (original : Option ConnectionEntry) (in_keyring : List Text)
    (options : Options) (kept' : Kept) (field : OptionField)
    → IsSaved original in_keyring
    → read_secret draft original (in_keyring, options) field ≡ ok kept'
    → is_secret field.kind ≡ true
    → (is_accepted draft original field ≡ true) × IsSaved original kept'.0
unfolding read_secret
read_secret-IsSaved draft original in_keyring options kept' field h e hidden =
    let edit = or_keep (get Text-discrete draft.secret_options field.key) in
    let saved = has_marker original field.key in
    let a = bind-ok _ _ kept' e in
    (
      rw hidden (required_secret-ok edit field.label field.required saved true a.0 a.1.0),
      subst (λ (k : Kept). IsSaved original k.0) (ok-injective a.1.1)
          (elim (Bool-cases (saved && is_keep edit)) [
            | inl f ↦ rw f (IsSaved-append original in_keyring field.key h (ground (arith, f)))
            | inr f ↦ rw f h
          ]),
    )

read_fields-accepted :
    (draft : ProfileDraft) (original : Option ConnectionEntry) (kept kept' : Kept)
    (fields : List OptionField)
    → IsSaved original kept.0
    → read_fields draft original kept fields ≡ ok kept'
    → All (λ field. is_accepted draft original field ≡ true) fields × IsSaved original kept'.0
unfolding read_fields
read_fields-accepted draft original kept kept' [] h e =
    (tt, subst (λ (k : Kept). IsSaved original k.0) (ok-injective e) h)
read_fields-accepted draft original (in_keyring, options) kept' (field ∷ fields) h e =
    let one = bind-ok _ _ kept' e in
    elim (Bool-cases (is_secret field.kind)) [
      | inl s ↦
          let saved =
            read_secret-IsSaved draft original in_keyring options one.0 field h (rw s at one.1.0)
              s in
          let rest = read_fields-accepted draft original one.0 kept' fields saved.1 one.1.1 in
          ((saved.0, rest.0), rest.1)
      | inr s ↦
          let plain =
            read_plain-accepted draft original in_keyring options one.0 field (rw s at one.1.0) s in
          let rest =
            read_fields-accepted draft original one.0 kept' fields
              (subst (IsSaved original) (sym plain.1) h) one.1.1 in
          ((plain.0, rest.0), rest.1)
    ]

start-IsSaved :
    (original : Option ConnectionEntry) (edit : SecretEdit)
    → IsSaved original
        (if has_marker original password_marker && is_keep edit then password_marker ∷ [] else [])
unfolding IsSaved
start-IsSaved original edit =
    elim (Bool-cases (has_marker original password_marker && is_keep edit)) [
      | inl f ↦ rw f (ground (arith, f), tt)
      | inr f ↦ rw f tt
    ]

-- Of a draft that `validate` accepts, the name is not blank, nor are the host, the user and the plain
-- options that the form requires; a required password and each required secret option is given, new or
-- kept as saved; the port is that of the form or one from 1 to 65535; the options hold values that the
-- form allows; and the keyring is asked only for secrets that were saved in it.
pub validate-IsValid :
    (lower : Text → Text) (draft : ProfileDraft) (form : ConnectionForm)
    (preserve_from : Option ConnectionEntry) (p : ConnectionProfile)
    → validate lower draft form preserve_from ≡ ok p
    → IsValid draft form (same_protocol draft preserve_from) p
unfolding profile_of IsSaved
validate-IsValid lower draft form preserve_from p e =
    let original = same_protocol draft preserve_from in
    let passed = validate-Passed lower draft form preserve_from p e in
    let fields =
      read_fields-accepted draft original _ passed.kept form.options
        (start-IsSaved original draft.password) passed.fields_read in
    subst (IsValid draft form original) passed.made (
      required-ok _ _ true tt passed.name_given,
      required-ok _ _ form.host.required tt passed.host_given,
      required-ok _ _ form.username.required tt passed.user_given,
      required_secret-ok draft.password form.password.label form.password.required _ false tt
          passed.password_given,
      (passed.port_read, (refl, port-range draft form passed.port_read passed.port_given)),
      fields.0,
      fields.1,
    )
