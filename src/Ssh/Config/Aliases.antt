-- ===== src/Ssh/Config/Aliases.antt =====
-- The hosts offered: every name in the file that is no pattern, once, whatever its case.
use mathlib.Core.Path.{◌≡◌}
use mathlib.Core.Bool.{Bool, true, false, ◌||◌}
use mathlib.Core.List.{List, [], ◌∷◌, ◌++◌}
use mathlib.Core.Logic.{inl, inr}
use native.Mathlib.Omega.{arith}
use term_connect.Shared.{any, All, Bool-cases}
use term_connect.Shared.Text.{Text, text_eq_refl}
use term_connect.Shared.Words.{eq_ignore_case, ascii_lower}
use term_connect.Ssh.Config.AliasNames.{InBlocks, concrete_aliases-InBlocks}
use term_connect.Ssh.Config.Values.{is_pattern}
use term_connect.Ssh.Config.Blocks.{
  Applies, everywhere, nowhere, to_hosts, Block, push_alias, push_aliases, push_block, aliases_from,
  concrete_aliases,
}

-- No two are the same name, whatever their case, and none is a pattern.
abbrev pub AreNames : List Text → Type 0
AreNames [] = Unit {0}
AreNames (alias ∷ aliases) =
    (is_pattern alias ≡ false)
    × All (λ other. eq_ignore_case alias other ≡ false) aliases
    × AreNames aliases

abbrev pub has_alias : List Text → Text → Bool
has_alias aliases name = any (λ alias. eq_ignore_case alias name) aliases

-- Each name of the block that is no pattern is among the aliases.
abbrev pub Covers : List Text → List Text → Type 0
Covers aliases patterns = All (λ name. (is_pattern name || has_alias aliases name) ≡ true) patterns

abbrev pub CoversBlock : List Text → Applies → Type 0
CoversBlock aliases (to_hosts patterns) = Covers aliases patterns
CoversBlock aliases everywhere = Unit {0}
CoversBlock aliases nowhere = Unit {0}

AreNames-append :
    (aliases : List Text) (name : Text)
    → AreNames aliases
    → is_pattern name ≡ false
    → has_alias aliases name ≡ false
    → AreNames (aliases ++ (name ∷ []))
AreNames-append [] name h p n = (p, tt, tt)
AreNames-append (alias ∷ aliases) name h p n =
    (h.0, others aliases h.1 (first n), AreNames-append aliases name h.2 p (second n))
  where
    first : has_alias (alias ∷ aliases) name ≡ false → eq_ignore_case alias name ≡ false
    first n = ground (arith, n)

    second : has_alias (alias ∷ aliases) name ≡ false → has_alias aliases name ≡ false
    second n = ground (arith, n)

    others :
        (rest : List Text)
        → All (λ other. eq_ignore_case alias other ≡ false) rest
        → eq_ignore_case alias name ≡ false
        → All (λ other. eq_ignore_case alias other ≡ false) (rest ++ (name ∷ []))
    others [] u v = (v, tt)
    others (x ∷ rest) u v = (u.0, others rest u.1 v)

has_alias-append :
    (aliases more : List Text) (name : Text)
    → has_alias aliases name ≡ true
    → has_alias (aliases ++ more) name ≡ true
has_alias-append [] more name h = absurd (ground (arith, h))
has_alias-append (alias ∷ aliases) more name h =
    ground (arith, h, has_alias-append aliases more name)

has_alias-last :
    (aliases : List Text) (name : Text) → has_alias (aliases ++ (name ∷ [])) name ≡ true
unfolding eq_ignore_case
has_alias-last [] name = ground (arith, text_eq_refl (ascii_lower name))
has_alias-last (alias ∷ aliases) name = ground (arith, has_alias-last aliases name)

push_alias-AreNames :
    (aliases : List Text) (name : Text) → AreNames aliases → AreNames (push_alias aliases name)
unfolding push_alias
push_alias-AreNames aliases name h = elim (Bool-cases (is_pattern name)) [
  | inl p ↦ rw p h
  | inr p ↦ elim (Bool-cases (has_alias aliases name)) [
    | inl n ↦ rw p (rw n h)
    | inr n ↦ rw p (rw n (AreNames-append aliases name h p n))
  ]
]

push_alias-keeps :
    (aliases : List Text) (pattern name : Text)
    → has_alias aliases name ≡ true
    → has_alias (push_alias aliases pattern) name ≡ true
unfolding push_alias
push_alias-keeps aliases pattern name h =
    elim (Bool-cases (is_pattern pattern || has_alias aliases pattern)) [
      | inl e ↦ rw e h
      | inr e ↦ rw e (has_alias-append aliases (pattern ∷ []) name h)
    ]

push_alias-has_alias :
    (aliases : List Text) (name : Text)
    → is_pattern name ≡ false
    → has_alias (push_alias aliases name) name ≡ true
unfolding push_alias
push_alias-has_alias aliases name p = elim (Bool-cases (has_alias aliases name)) [
  | inl n ↦ rw p (rw n n)
  | inr n ↦ rw p (rw n (has_alias-last aliases name))
]

push_aliases-AreNames :
    (aliases patterns : List Text) → AreNames aliases → AreNames (push_aliases aliases patterns)
unfolding push_aliases
push_aliases-AreNames aliases [] h = h
push_aliases-AreNames aliases (p ∷ ps) h =
    push_aliases-AreNames (push_alias aliases p) ps (push_alias-AreNames aliases p h)

push_aliases-keeps :
    (aliases patterns : List Text) (name : Text)
    → has_alias aliases name ≡ true
    → has_alias (push_aliases aliases patterns) name ≡ true
unfolding push_aliases
push_aliases-keeps aliases [] name h = h
push_aliases-keeps aliases (p ∷ ps) name h =
    push_aliases-keeps (push_alias aliases p) ps name (push_alias-keeps aliases p name h)

push_aliases-Covers :
    (aliases patterns : List Text) → Covers (push_aliases aliases patterns) patterns
unfolding push_aliases
push_aliases-Covers aliases [] = tt
push_aliases-Covers aliases (p ∷ ps) = (
  elim (Bool-cases (is_pattern p)) [
    | inl e ↦ ground (arith, e)
    | inr e ↦ ground (
      arith,
      e,
      push_aliases-keeps (push_alias aliases p) ps p (push_alias-has_alias aliases p e),
    )
  ],
  push_aliases-Covers (push_alias aliases p) ps,
)

push_block-AreNames :
    (aliases : List Text) (applies : Applies)
    → AreNames aliases
    → AreNames (push_block aliases applies)
unfolding push_block
push_block-AreNames aliases everywhere h = h
push_block-AreNames aliases nowhere h = h
push_block-AreNames aliases (to_hosts ps) h = push_aliases-AreNames aliases ps h

push_block-keeps :
    (aliases : List Text) (applies : Applies) (name : Text)
    → has_alias aliases name ≡ true
    → has_alias (push_block aliases applies) name ≡ true
unfolding push_block
push_block-keeps aliases everywhere name h = h
push_block-keeps aliases nowhere name h = h
push_block-keeps aliases (to_hosts ps) name h = push_aliases-keeps aliases ps name h

push_block-CoversBlock :
    (aliases : List Text) (applies : Applies) → CoversBlock (push_block aliases applies) applies
unfolding push_block
push_block-CoversBlock aliases everywhere = tt
push_block-CoversBlock aliases nowhere = tt
push_block-CoversBlock aliases (to_hosts ps) = push_aliases-Covers aliases ps

aliases_from-AreNames :
    (aliases : List Text) (blocks : List Block)
    → AreNames aliases
    → AreNames (aliases_from aliases blocks)
unfolding aliases_from
aliases_from-AreNames aliases [] h = h
aliases_from-AreNames aliases (b ∷ bs) h =
    aliases_from-AreNames (push_block aliases b.applies) bs
      (push_block-AreNames aliases b.applies h)

aliases_from-keeps :
    (aliases : List Text) (blocks : List Block) (name : Text)
    → has_alias aliases name ≡ true
    → has_alias (aliases_from aliases blocks) name ≡ true
unfolding aliases_from
aliases_from-keeps aliases [] name h = h
aliases_from-keeps aliases (b ∷ bs) name h =
    aliases_from-keeps (push_block aliases b.applies) bs name
      (push_block-keeps aliases b.applies name h)

Covers_kept :
    (aliases : List Text) (blocks : List Block) (applies : Applies)
    → CoversBlock aliases applies
    → CoversBlock (aliases_from aliases blocks) applies
Covers_kept aliases blocks everywhere h = h
Covers_kept aliases blocks nowhere h = h
Covers_kept aliases blocks (to_hosts ps) h = go ps h
  where
    go : (ps : List Text) → Covers aliases ps → Covers (aliases_from aliases blocks) ps
    go [] h = tt
    go (p ∷ ps) h = (
      elim (Bool-cases (is_pattern p)) [
        | inl e ↦ ground (arith, e)
        | inr e ↦ ground (arith, e, aliases_from-keeps aliases blocks p (ground (arith, e, h.0)))
      ],
      go ps h.1,
    )

aliases_from-CoversBlock :
    (aliases : List Text) (blocks : List Block)
    → All (λ block. CoversBlock (aliases_from aliases blocks) block.applies) blocks
unfolding aliases_from
aliases_from-CoversBlock aliases [] = tt
aliases_from-CoversBlock aliases (b ∷ bs) = (
  Covers_kept (push_block aliases b.applies) bs b.applies
      (push_block-CoversBlock aliases b.applies),
  aliases_from-CoversBlock (push_block aliases b.applies) bs,
)

-- The aliases that `concrete_aliases` collects are the names of the `Host` lines that are no patterns:
-- each is written in a `Host` line and is no pattern, no two are the same name up to case, and every
-- name of a `Host` line that is no pattern is among them, up to case.
pub concrete_aliases_lem :
    (blocks : List Block)
    → AreNames (concrete_aliases blocks)
      × All (InBlocks blocks) (concrete_aliases blocks)
      × All (λ block. CoversBlock (concrete_aliases blocks) block.applies) blocks
unfolding concrete_aliases
concrete_aliases_lem blocks = (
  aliases_from-AreNames [] blocks tt,
  concrete_aliases-InBlocks blocks,
  aliases_from-CoversBlock [] blocks,
)
