-- ===== src/Profiles/Labels.antt =====
-- porthmos-core/src/profiles/labels/mod.rs: the group and the tags of a connection. `lower` is
-- `to_lowercase`.
use mathlib.Core.Path.{◌≡◌, refl, sym}
use mathlib.Core.Bool.{Bool, true, false, not, ◌&&◌, ◌||◌}
use mathlib.Core.Option.{Option, none, some}
use mathlib.Core.List.{List, [], ◌∷◌, ◌++◌, map}
use mathlib.Core.Logic.{inl, inr}
use native.Mathlib.Omega.{arith}
use term_connect.Shared.{if◌then◌else◌, is_empty, any, keep, Bool-cases, All}
use term_connect.Shared.Text.{
  Text, text_eq, trim_text, split_on, strip_char, join_slash, text_eq_refl, text_eq_sym,
}

pub record Labels : Type 0 where
  pub group : Option Text
  pub tags : List Text
  pub in_keyring : List Text

no_text : Option Text → Bool
no_text none = true
no_text (some t) = false

unfoldable pub has_no_labels : Labels → Bool
unfolding no_text
has_no_labels l = no_text l.group && is_empty l.tags && is_empty l.in_keyring

unfoldable pub normalize_group : Text → Option Text
normalize_group raw =
    let segments = keep (λ s. not (is_empty s)) (map trim_text (split_on b'/' raw)) in
    if is_empty segments then none else some (join_slash segments)

or_text : Text → Option Text → Text
or_text t none = t
or_text t (some s) = s

-- A tag without its mark and white space.
unfoldable pub clean_tag : Text → Text
unfolding or_text
clean_tag raw = let tag = trim_text raw in trim_text (or_text tag (strip_char b'#' tag))

module _ (lower : Text → Text) where
  unfoldable pub has_tag : List Text → Text → Bool
  has_tag kept tag = any (λ k. text_eq (lower k) (lower tag)) kept

  unfoldable pub add_tags : List Text → List Text → List Text
  add_tags kept [] = kept
  add_tags kept (raw ∷ more) =
      let tag = clean_tag raw in
      if not (is_empty tag) && not (has_tag kept tag)
      then add_tags (kept ++ tag ∷ []) more
      else add_tags kept more

  unfoldable pub normalize_tags : List Text → List Text
  normalize_tags raw = add_tags [] raw

  unfoldable pub parse_tags : Text → List Text
  parse_tags raw = normalize_tags (split_on b',' raw)

  -- No tag is empty, and none is another but for its case.
  abbrev pub Normal : List Text → Type 0
  Normal [] = Unit {0}
  Normal (t ∷ ts) = (is_empty t ≡ false) × (has_tag ts t ≡ false) × Normal ts

  has_tag-append :
      (kept : List Text) (t u : Text)
      → has_tag (kept ++ t ∷ []) u ≡ (has_tag kept u || text_eq (lower t) (lower u))
  unfolding has_tag
  has_tag-append [] t u = ground arith
  has_tag-append (k ∷ kept) t u = ground (arith, has_tag-append kept t u)

  append-Normal :
      (kept : List Text) (t : Text)
      → Normal kept
      → is_empty t ≡ false
      → has_tag kept t ≡ false
      → Normal (kept ++ t ∷ [])
  unfolding has_tag
  append-Normal [] t v filled new = (filled, refl, tt)
  append-Normal (k ∷ kept) t v filled new =
      let turned = text_eq_sym (lower t) (lower k) in
      let other = has_tag-append kept t k in
      (
        v.0,
        ground (arith, other, turned, new, v.1),
        append-Normal kept t v.2 filled (ground (arith, new)),
      )

  add_tags-Normal : (kept raw : List Text) → Normal kept → Normal (add_tags kept raw)
  unfolding add_tags
  add_tags-Normal kept [] v = v
  add_tags-Normal kept (raw ∷ more) v =
      let tag = clean_tag raw in
      elim (Bool-cases (not (is_empty tag) && not (has_tag kept tag))) [
        | inl e ↦ rw e (
            add_tags-Normal (kept ++ tag ∷ []) more
              (append-Normal kept tag v (ground (arith, e)) (ground (arith, e))))
        | inr e ↦ rw e (add_tags-Normal kept more v)
      ]

  add_tags-kept :
      (kept raw : List Text) (u : Text)
      → has_tag kept u ≡ true
      → has_tag (add_tags kept raw) u ≡ true
  unfolding add_tags
  add_tags-kept kept [] u h = h
  add_tags-kept kept (raw ∷ more) u h =
      let tag = clean_tag raw in
      elim (Bool-cases (not (is_empty tag) && not (has_tag kept tag))) [
        | inl e ↦
            rw e
              (add_tags-kept (kept ++ tag ∷ []) more u (rw (has_tag-append kept tag u) (rw h refl)))
        | inr e ↦ rw e (add_tags-kept kept more u h)
      ]

  -- Each tag that is not empty is kept, up to its case.
  abbrev pub Kept : List Text → List Text → Type 0
  Kept kept raw =
      All (λ (r : Text). is_empty (clean_tag r) ≡ false → has_tag kept (clean_tag r) ≡ true) raw

  add_tags-Kept : (kept raw final : List Text) → add_tags kept raw ≡ final → Kept final raw
  unfolding add_tags
  add_tags-Kept kept [] final e = tt
  add_tags-Kept kept (raw ∷ more) final e =
      let tag = clean_tag raw in
      elim (Bool-cases (not (is_empty tag) && not (has_tag kept tag))) [
        | inl c ↦
            let same : add_tags (kept ++ tag ∷ []) more ≡ final = rw c at e in
            let here : has_tag (kept ++ tag ∷ []) tag ≡ true =
              rw (has_tag-append kept tag tag) (ground (arith, text_eq_refl (lower tag))) in
            (
              λ h. rw (sym same) (add_tags-kept (kept ++ tag ∷ []) more tag here),
              add_tags-Kept (kept ++ tag ∷ []) more final same,
            )
        | inr c ↦
            let same : add_tags kept more ≡ final = rw c at e in
            (
              λ h. rw (sym same) (add_tags-kept kept more tag (ground (arith, c, h))),
              add_tags-Kept kept more final same,
            )
      ]

  -- The tags that are kept are not empty and differ in more than their case, and every tag given, less
  -- its mark and white space, is among them up to its case, if it is not empty.
  pub normalize_tags_lem :
      (raw : List Text) → Normal (normalize_tags raw) × Kept (normalize_tags raw) raw
  unfolding normalize_tags
  normalize_tags_lem raw = (add_tags-Normal [] raw tt, add_tags-Kept [] raw _ refl)
