-- ===== src/Ssh/Config/Step.antt =====
-- One directive of `resolve`: it gives a setting that the host does not have yet.
use Prim.Native.Nat.{ℕ}
use mathlib.Core.Path.{◌≡◌, refl}
use mathlib.Core.Bool.{Bool, true, false}
use mathlib.Core.Option.{Option, none, some, some-ne-none}
use mathlib.Core.List.{List}
use mathlib.Core.Logic.{inl, inr}
use term_connect.Shared.{or_else, if◌then◌else◌, Bool-cases, Option-cases}
use term_connect.Shared.Text.{Text, lit, text_eq, text_eq→eq}
use term_connect.Ssh.Config.Values.{expand_tokens, expand_home}
use term_connect.Ssh.Config.Resolve.{SshConfigHost, is_none, Found, set_directive}
use term_connect.Ssh.Config.Settings.{Setting, find_map, value_of, port_of, named_value_of, change}

data Keyword (word : Text) : Type 0 where
  is_host_name : word ≡ lit "hostname" → Keyword word
  is_user : word ≡ lit "user" → Keyword word
  is_port : word ≡ lit "port" → Keyword word
  is_identity : word ≡ lit "identityfile" → Keyword word
  is_other :
      text_eq word (lit "hostname") ≡ false
      → text_eq word (lit "user") ≡ false
      → text_eq word (lit "port") ≡ false
      → text_eq word (lit "identityfile") ≡ false
      → Keyword word

Keyword-cases : (word : Text) → Keyword word
Keyword-cases word = elim (Bool-cases (text_eq word (lit "hostname"))) [
  | inl e ↦ is_host_name (text_eq→eq word _ e)
  | inr a ↦ elim (Bool-cases (text_eq word (lit "user"))) [
    | inl e ↦ is_user (text_eq→eq word _ e)
    | inr b ↦ elim (Bool-cases (text_eq word (lit "port"))) [
      | inl e ↦ is_port (text_eq→eq word _ e)
      | inr c ↦ elim (Bool-cases (text_eq word (lit "identityfile"))) [
        | inl e ↦ is_identity (text_eq→eq word _ e)
        | inr d ↦ is_other a b c d
      ]
    ]
  ]
]

pub or_none : {A : Type 0} (o : Option A) → o ≡ or_else o none
or_none none = refl
or_none (some a) = refl

none_if : (n : Bool) → ◌≡◌ {A = Option Text} (if n then none else none) none
none_if true = refl
none_if false = refl

module _ (alias : Text) (home : Option Text) where
  abbrev pub tokens : Text → Text
  tokens value = expand_tokens value alias

  abbrev pub at_home : Text → Text
  at_home value = expand_home value home

  -- A host that takes the first of what it has and what it is given.
  pub record After (f f' : Found) (host_name user : Option Text) (port : Option ℕ)
      (named any : Option Text) : Type 0 where
    pub same_name : f'.0.name ≡ f.0.name
    pub host_name_after : f'.0.host_name ≡ or_else f.0.host_name (change tokens host_name)
    pub user_after : f'.0.user ≡ or_else f.0.user user
    pub port_after : f'.0.port ≡ or_else f.0.port port
    pub named_after : f'.0.identity_file ≡ or_else f.0.identity_file (change at_home named)
    pub wildcard_after : f'.0.identity_file ≡ none → f'.1 ≡ or_else f.1 (change at_home any)

  abbrev pub AfterOne : Found → Found → Setting → Type 0
  AfterOne f f' s =
      After f f' (value_of (lit "hostname") s) (value_of (lit "user") s) (port_of s)
        (named_value_of (lit "identityfile") s) (value_of (lit "identityfile") s)

  abbrev pub AfterAll : Found → Found → List Setting → Type 0
  AfterAll f f' ss =
      After f f' (find_map (value_of (lit "hostname")) ss) (find_map (value_of (lit "user")) ss)
        (find_map port_of ss) (find_map (named_value_of (lit "identityfile")) ss)
        (find_map (value_of (lit "identityfile")) ss)

  after :
      {f f' : Found} {host_name user : Option Text} {port : Option ℕ} {named any : Option Text}
      → f'.0.name ≡ f.0.name
      → f'.0.host_name ≡ or_else f.0.host_name (change tokens host_name)
      → f'.0.user ≡ or_else f.0.user user
      → f'.0.port ≡ or_else f.0.port port
      → f'.0.identity_file ≡ or_else f.0.identity_file (change at_home named)
      → (f'.0.identity_file ≡ none → f'.1 ≡ or_else f.1 (change at_home any))
      → After f f' host_name user port named any
  after a b c d e g = record {
    same_name = a;
    host_name_after = b;
    user_after = c;
    port_after = d;
    named_after = e;
    wildcard_after = g;
  }

  identity_step :
      (n : Bool) (host : SshConfigHost) (wildcard : Option Text) (value : Text)
      → AfterOne
          (host, wildcard)
          (set_directive alias home n (host, wildcard) (lit "identityfile", value))
          (n, (lit "identityfile", value))
  unfolding set_directive is_none
  identity_step true host wildcard value = elim (Option-cases host.identity_file) [
    | inl h ↦
        rw h (after refl (or_none _) (or_none _) (or_none _) refl (λ k. absurd (some-ne-none _ k)))
    | inr (x, h) ↦ elim (Option-cases wildcard) [
      | inl g ↦ rw h (
          rw g
            (after refl (or_none _) (or_none _) (or_none _) refl (λ k. absurd (some-ne-none _ k))))
      | inr (y, g) ↦ rw h (
          rw g
            (after refl (or_none _) (or_none _) (or_none _) refl (λ k. absurd (some-ne-none _ k))))
    ]
  ]
  identity_step false host none value =
      (after refl (or_none _) (or_none _) (or_none _) (or_none _) (λ k. refl))
  identity_step false host (some y) value =
      (after refl (or_none _) (or_none _) (or_none _) (or_none _) (λ k. refl))

  pub set_directive-AfterOne :
      (n : Bool) (f : Found) (keyword value : Text)
      → AfterOne f (set_directive alias home n f (keyword, value)) (n, (keyword, value))
  unfolding set_directive is_none
  set_directive-AfterOne n (host, wildcard) keyword value = elim (Keyword-cases keyword) [
    | is_host_name e ↦ elim (Option-cases host.host_name) [
      | inl h ↦ rw e (
          rw h
            (rw (none_if n) (after refl refl (or_none _) (or_none _) (or_none _) (λ k. or_none _))))
      | inr (x, h) ↦ rw e (
          rw h
            (rw (none_if n) (after refl refl (or_none _) (or_none _) (or_none _) (λ k. or_none _))))
    ]
    | is_user e ↦ elim (Option-cases host.user) [
      | inl h ↦ rw e (
          rw h
            (rw (none_if n) (after refl (or_none _) refl (or_none _) (or_none _) (λ k. or_none _))))
      | inr (x, h) ↦ rw e (
          rw h
            (rw (none_if n) (after refl (or_none _) refl (or_none _) (or_none _) (λ k. or_none _))))
    ]
    | is_port e ↦ elim (Option-cases host.port) [
      | inl h ↦ rw e (
          rw h
            (rw (none_if n) (after refl (or_none _) (or_none _) refl (or_none _) (λ k. or_none _))))
      | inr (x, h) ↦ rw e (
          rw h
            (rw (none_if n) (after refl (or_none _) (or_none _) refl (or_none _) (λ k. or_none _))))
    ]
    | is_identity e ↦ rw e (identity_step n host wildcard value)
    | is_other a b c d ↦ rw a (
        rw b (
          rw c (
            rw d (
              rw (none_if n)
                (after refl (or_none _) (or_none _) (or_none _) (or_none _) (λ k. or_none _))))))
  ]
