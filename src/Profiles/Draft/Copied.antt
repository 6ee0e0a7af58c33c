-- ===== src/Profiles/Draft/Copied.antt =====
-- The options that `validate` takes over from what was stored before.
use mathlib.Core.Path.{◌≡◌, refl, ap, sym, ◌∙◌}
use mathlib.Core.Bool.{Bool, true, false, not, ◌&&◌, true≢false}
use mathlib.Core.Option.{Option, none, some}
use mathlib.Core.List.{[], ◌∷◌}
use mathlib.Core.Logic.{inl, inr, ite, if_pos, if_neg}
use term_connect.Shared.{if◌then◌else◌, or_else, All, Bool-cases}
use term_connect.Shared.HashMap.{get, insert, get-insert}
use term_connect.Shared.Text.{Text, text_eq, Text-discrete, text_eq→eq, text_eq_refl, text_eq_sym}
use term_connect.Profiles.Form.{ConnectionForm, option}
use term_connect.Profiles.Entry.{ConnectionEntry, Options}
use term_connect.Profiles.Draft.{is_some, copy_unknown, copied, remote_path_key}

abbrev pub value_at : Options → Text → Option Text
value_at options key = get Text-discrete options key

ite-text :
    {A : Type 0} (k j : Text) (x y : A)
    → ite (Text-discrete k j) x y ≡ (if text_eq k j then x else y)
ite-text k j x y = elim (Bool-cases (text_eq k j)) [
  | inl e ↦ rw e (if_pos (Text-discrete k j) (text_eq→eq k j e) x y)
  | inr e ↦ rw e (
      if_neg (Text-discrete k j)
        (λ h. true≢false (sym (text_eq_refl j) ∙ ap (λ (i : Text). text_eq i j) (sym h) ∙ e)) x y)
]

pub get-insert-text :
    (m : Options) (k j v : Text)
    → value_at (insert Text-discrete k v m) j ≡ (if text_eq k j then some v else value_at m j)
get-insert-text m k j v = get-insert Text-discrete m k j v ∙ ite-text k j (some v) (value_at m j)

get-cons :
    (m : Options) (k j v : Text)
    → value_at ((k, v) ∷ m) j ≡ (if text_eq k j then some v else value_at m j)
unfolding get
get-cons m k j v = ite-text k j (some v) (value_at m j)

-- No key stands twice, as in a `BTreeMap`.
abbrev pub HasDistinctKeys : Options → Type 0
HasDistinctKeys [] = Unit {0}
HasDistinctKeys ((key, value) ∷ more) =
    All (λ (other : Text × Text). text_eq key other.0 ≡ false) more × HasDistinctKeys more

abbrev pub is_unknown : ConnectionForm → Text → Bool
is_unknown form key = not (text_eq key remote_path_key) && not (is_some (option form key))

absent :
    (key : Text) (m : Options)
    → All (λ (other : Text × Text). text_eq key other.0 ≡ false) m
    → value_at m key ≡ none
unfolding get
absent key [] h = refl
absent key ((k, v) ∷ m) h =
    get-cons m k key v ∙ rw (text_eq_sym k key) (rw (h.0) (absent key m h.1))

copy_unknown_lem :
    (form : ConnectionForm) (options m : Options) (k : Text)
    → HasDistinctKeys m
    → value_at (copy_unknown form options m) k ≡ (
        if is_unknown form k
        then or_else (value_at m k) (value_at options k)
        else value_at options k)
unfolding copy_unknown get
copy_unknown_lem form options [] k h = elim (Bool-cases (is_unknown form k)) [
  | inl e ↦ rw e (refl)
  | inr e ↦ rw e refl
]
copy_unknown_lem form options ((key, value) ∷ more) k h = elim (Bool-cases (is_unknown form key)) [
  | inl e ↦ elim (Bool-cases (text_eq key k)) [
    | inl f ↦ rw (sym (text_eq→eq key k f)) (
        rw e (
          rw (get-cons more key key value) (
            rw (text_eq_refl key) (
              copy_unknown_lem form (insert Text-discrete key value options) more key h.1
              ∙ rw e (
                  rw (absent key more h.0)
                    (rw (get-insert-text options key key value) (rw (text_eq_refl key) refl)))))))
    | inr f ↦ rw e (
        rw (get-cons more key k value) (
          rw f (
            copy_unknown_lem form (insert Text-discrete key value options) more k h.1
            ∙ rw (get-insert-text options key k value) (rw f refl))))
  ]
  | inr e ↦ elim (Bool-cases (text_eq key k)) [
    | inl f ↦
        rw (sym (text_eq→eq key k f))
          (rw e (copy_unknown_lem form options more key h.1 ∙ rw e refl))
    | inr f ↦
        rw e (rw (get-cons more key k value) (rw f (copy_unknown_lem form options more k h.1)))
  ]
]

abbrev pub options_of : Option ConnectionEntry → Text → Option Text
options_of none k = none
options_of (some entry) k = value_at entry.options k

abbrev pub HasDistinctOptions : Option ConnectionEntry → Type 0
HasDistinctOptions none = Unit {0}
HasDistinctOptions (some entry) = HasDistinctKeys entry.options

or_else-none : (o : Option Text) → or_else o none ≡ o
or_else-none none = refl
or_else-none (some t) = refl

if_none : (b : Bool) → ◌≡◌ {A = Option Text} none (if b then none else none)
if_none true = refl
if_none false = refl

pub copied_lem :
    (form : ConnectionForm) (original : Option ConnectionEntry) (k : Text)
    → HasDistinctOptions original
    → value_at (copied form original) k
      ≡ (if is_unknown form k then options_of original k else none)
unfolding copied get
copied_lem form none k h = if_none (is_unknown form k)
copied_lem form (some entry) k h =
    copy_unknown_lem form [] entry.options k h
    ∙ ap (λ (o : Option Text). if is_unknown form k then o else none)
        (or_else-none (value_at entry.options k))
