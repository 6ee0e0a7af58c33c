-- ===== src/Profiles/Draft/Steps.antt =====
-- The steps of a `validate` that accepts.
use Prim.Native.Nat.{ℕ}
use mathlib.Core.Path.{◌≡◌}
use mathlib.Core.Bool.{true, false, ◌&&◌}
use mathlib.Core.Option.{Option}
use mathlib.Core.List.{[], ◌∷◌}
use term_connect.Shared.{if◌then◌else◌}
use term_connect.Shared.Text.{Text, lit, trim_text}
use term_connect.Shared.Results.{ok, bind-ok, ok-injective}
use term_connect.Profiles.Form.{ConnectionForm}
use term_connect.Profiles.Entry.{ConnectionEntry, ConnectionProfile, password_marker}
use term_connect.Profiles.Draft.{
  ProfileDraft, required, required_secret, same_protocol, copied, is_keep, has_marker, Kept,
  read_fields, port, profile_of, validate,
}

pub record Passed (lower : Text → Text) (draft : ProfileDraft) (form : ConnectionForm)
    (original : Option ConnectionEntry) (p : ConnectionProfile) : Type 0 where
  pub kept : Kept
  pub port_read : ℕ
  pub name_given : required (trim_text draft.name) (lit "Name") true ≡ ok tt
  pub host_given : required (trim_text draft.host) form.host.label form.host.required ≡ ok tt
  pub user_given :
      required (trim_text draft.username) form.username.label form.username.required ≡ ok tt
  pub password_given :
      required_secret draft.password form.password.label form.password.required
        (has_marker original password_marker)
        false
      ≡ ok tt
  pub port_given : port draft form ≡ ok port_read
  pub fields_read :
      read_fields draft original
        (
          if has_marker original password_marker && is_keep draft.password
              then password_marker ∷ []
              else [],
          copied form original,
        )
        form.options
      ≡ ok kept
  pub made : profile_of lower draft port_read kept ≡ p

pub validate-Passed :
    (lower : Text → Text) (draft : ProfileDraft) (form : ConnectionForm)
    (preserve_from : Option ConnectionEntry) (p : ConnectionProfile)
    → validate lower draft form preserve_from ≡ ok p
    → Passed lower draft form (same_protocol draft preserve_from) p
unfolding validate
validate-Passed lower draft form preserve_from p e =
    let a = bind-ok _ _ p e in
    let b = bind-ok _ _ p a.1.1 in
    let c = bind-ok _ _ p b.1.1 in
    let d = bind-ok _ _ p c.1.1 in
    let f = bind-ok _ _ p d.1.1 in
    let g = bind-ok _ _ p f.1.1 in
    record {
      kept = g.0;
      port_read = f.0;
      name_given = a.1.0;
      host_given = b.1.0;
      user_given = c.1.0;
      password_given = d.1.0;
      port_given = f.1.0;
      fields_read = g.1.0;
      made = ok-injective g.1.1;
    }
