-- ===== src/Profiles/Draft/Stored.antt =====
-- What `validate` stores under each key of the options.
use mathlib.Core.Path.{◌≡◌, refl, ap, sym, ◌∙◌, subst}
use mathlib.Core.Bool.{Bool, true, false, not, ◌&&◌, ◌||◌}
use mathlib.Core.Option.{Option, none, some}
use mathlib.Core.List.{List, [], ◌∷◌}
use mathlib.Core.Logic.{inl, inr}
use term_connect.Shared.{if◌then◌else◌, any, is_empty, Bool-cases}
use term_connect.Shared.Text.{Text, text_eq, trim_text, text_eq→eq}
use term_connect.Shared.Results.{ok, bind-ok, ok-injective}
use term_connect.Profiles.Form.{OptionField, ConnectionForm}
use term_connect.Profiles.Entry.{ConnectionEntry, ConnectionProfile, Options}
use term_connect.Profiles.Draft.{
  ProfileDraft, same_protocol, check_kind, is_secret, Kept, read_secret, raw_value, read_plain,
  read_fields, add_remote_path, profile_of, validate, remote_path_key,
}
use term_connect.Profiles.Draft.Steps.{validate-Passed}
use term_connect.Profiles.Draft.Copied.{
  value_at, get-insert-text, is_unknown, options_of, HasDistinctOptions, copied_lem,
}

-- Whether the form has a field of this key that is no secret.
abbrev pub has_plain : List OptionField → Text → Bool
has_plain fields key = any (λ field. text_eq field.key key && not (is_secret field.kind)) fields

-- What the fields of the form give under a key.
abbrev pub given : ProfileDraft → List OptionField → Text → Bool
given draft fields key = has_plain fields key && not (is_empty (trim_text (raw_value draft key)))

read_plain_lem :
    (draft : ProfileDraft) (in_keyring : List Text) (options : Options) (kept' : Kept)
    (field : OptionField) (k : Text)
    → read_plain draft (in_keyring, options) field ≡ ok kept'
    → value_at kept'.1 k ≡ (
        if text_eq field.key k && not (is_empty (trim_text (raw_value draft k)))
        then some (trim_text (raw_value draft k))
        else value_at options k)
unfolding read_plain
read_plain_lem draft in_keyring options kept' field k e =
    let after_required = bind-ok _ _ kept' e in
    elim (Bool-cases (is_empty (trim_text (raw_value draft field.key)))) [
      | inl blank ↦
          let same : (in_keyring, options) ≡ kept' =
            ok-injective (rw blank at after_required.1.1) in
          rw (sym same) (elim (Bool-cases (text_eq field.key k)) [
            | inl f ↦
                let blank_k =
                  subst (λ (i : Text). is_empty (trim_text (raw_value draft i)) ≡ true)
                    (text_eq→eq field.key k f) blank in
                rw f (rw blank_k refl)
            | inr f ↦ rw f refl
          ])
      | inr filled ↦
          let after_check =
            bind-ok (check_kind field (trim_text (raw_value draft field.key))) _ kept'
              (rw filled at after_required.1.1) in
          let same = ok-injective after_check.1.1 in
          rw (sym same) (
            get-insert-text options field.key k _ ∙ (elim (Bool-cases (text_eq field.key k)) [
              | inl f ↦
                  let filled_k =
                    subst (λ (i : Text). is_empty (trim_text (raw_value draft i)) ≡ false)
                      (text_eq→eq field.key k f) filled in
                  rw f (
                    rw filled_k (
                      ap (λ (i : Text). some (trim_text (raw_value draft i)))
                        (text_eq→eq field.key k f)))
              | inr f ↦ rw f refl
            ]))
    ]

read_secret_lem :
    (draft : ProfileDraft) (original : Option ConnectionEntry) (in_keyring : List Text)
    (options : Options) (kept' : Kept) (field : OptionField)
    → read_secret draft original (in_keyring, options) field ≡ ok kept'
    → kept'.1 ≡ options
unfolding read_secret
read_secret_lem draft original in_keyring options kept' field e =
    ap (λ (kept : Kept). kept.1) (sym (ok-injective (bind-ok _ _ kept' e).1.1))

secret_gives_none :
    {A : Type 0} (here later filled : Bool) (x y : A)
    → (if later && filled then x else y) ≡ (if (here && false || later) && filled then x else y)
secret_gives_none true later filled x y = refl
secret_gives_none false later filled x y = refl

plain_gives :
    {A : Type 0} (here later filled : Bool) (x y : A)
    → (if later && filled then x else (if here && filled then x else y))
      ≡ (if (here && true || later) && filled then x else y)
plain_gives true true true x y = refl
plain_gives true true false x y = refl
plain_gives true false true x y = refl
plain_gives true false false x y = refl
plain_gives false later filled x y = refl

read_fields_lem :
    (draft : ProfileDraft) (original : Option ConnectionEntry) (kept kept' : Kept)
    (fields : List OptionField) (k : Text)
    → read_fields draft original kept fields ≡ ok kept'
    → value_at kept'.1 k
      ≡ (if given draft fields k then some (trim_text (raw_value draft k)) else value_at kept.1 k)
unfolding read_fields
read_fields_lem draft original kept kept' [] k e =
    ap (λ (kept : Kept). value_at kept.1 k) (sym (ok-injective e))
read_fields_lem draft original (in_keyring, options) kept' (field ∷ fields) k e =
    let one = bind-ok _ _ kept' e in
    let rest = read_fields_lem draft original one.0 kept' fields k one.1.1 in
    elim (Bool-cases (is_secret field.kind)) [
      | inl s ↦
          let kept_options =
            read_secret_lem draft original in_keyring options one.0 field (rw s at one.1.0) in
          rest
          ∙ ap
              (λ (o : Options).
                if given draft fields k then some (trim_text (raw_value draft k)) else value_at o k)
              kept_options
          ∙ rw s (secret_gives_none (text_eq field.key k) _ _ _ _)
      | inr s ↦
          let stored = read_plain_lem draft in_keyring options one.0 field k (rw s at one.1.0) in
          rest ∙ rw stored (rw s (plain_gives (text_eq field.key k) _ _ _ _))
    ]

-- What a profile stores under a key: where to start, when that is filled in; else what the form's field
-- of that key was given, white space taken off, unless it is a secret or blank; else what the profile had
-- before, when the form knows no such field.
abbrev pub stored_at : ProfileDraft → ConnectionForm → Option ConnectionEntry → Text → Option Text
stored_at draft form original k =
    if text_eq remote_path_key k && not (is_empty (trim_text draft.remote_path))
    then some (trim_text draft.remote_path)
    else if given draft form.options k
    then some (trim_text (raw_value draft k))
    else if is_unknown form k
    then options_of original k
    else none

add_remote_path_lem :
    (draft : ProfileDraft) (options : Options) (k : Text)
    → value_at (add_remote_path draft options) k ≡ (
        if text_eq remote_path_key k && not (is_empty (trim_text draft.remote_path))
        then some (trim_text draft.remote_path)
        else value_at options k)
unfolding add_remote_path
add_remote_path_lem draft options k = elim (Bool-cases (is_empty (trim_text draft.remote_path))) [
  | inl e ↦ rw e (unset (text_eq remote_path_key k) _)
  | inr e ↦
      rw e (get-insert-text options remote_path_key k _ ∙ given_path (text_eq remote_path_key k) _)
]
  where
    unset :
        (b : Bool) (x : Option Text)
        → value_at options k ≡ (if b && false then x else value_at options k)
    unset true x = refl
    unset false x = refl

    given_path :
        (b : Bool) (x : Option Text)
        → (if b then x else value_at options k) ≡ (if b && true then x else value_at options k)
    given_path true x = refl
    given_path false x = refl

-- When `validate` accepts a draft, what the profile stores under each key is as `stored_at` says, provided
-- that the options stored before have no key twice.
pub validate-stored_at :
    (lower : Text → Text) (draft : ProfileDraft) (form : ConnectionForm)
    (preserve_from : Option ConnectionEntry) (p : ConnectionProfile) (k : Text)
    → HasDistinctOptions (same_protocol draft preserve_from)
    → validate lower draft form preserve_from ≡ ok p
    → value_at p.options k ≡ stored_at draft form (same_protocol draft preserve_from) k
unfolding profile_of
validate-stored_at lower draft form preserve_from p k h e =
    let passed = validate-Passed lower draft form preserve_from p e in
    let fields = read_fields_lem draft _ _ passed.kept form.options k passed.fields_read in
    let before = copied_lem form (same_protocol draft preserve_from) k h in
    ap (λ (q : ConnectionProfile). value_at q.options k) (sym passed.made)
    ∙ add_remote_path_lem draft passed.kept.1 k
    ∙ ap
        (λ (o : Option Text).
          if text_eq remote_path_key k && not (is_empty (trim_text draft.remote_path))
          then some (trim_text draft.remote_path)
          else o)
        (fields
          ∙ ap
              (λ (o : Option Text).
                if given draft form.options k then some (trim_text (raw_value draft k)) else o)
              before)
