-- ===== src/Ssh/Config/AliasNames.antt =====
-- Where the hosts offered come from: each is a name in the file.
use mathlib.Core.Path.{refl}
use mathlib.Core.Bool.{◌||◌}
use mathlib.Core.List.{List, [], ◌∷◌, ◌++◌}
use mathlib.Core.Logic.{◌⊎◌, inl, inr}
use term_connect.Shared.{any, All, In, Bool-cases}
use term_connect.Shared.Text.{Text}
use term_connect.Shared.Words.{eq_ignore_case}
use term_connect.Ssh.Config.Values.{is_pattern}
use term_connect.Ssh.Config.Blocks.{
  Applies, everywhere, nowhere, to_hosts, Block, push_alias, push_aliases, push_block, aliases_from,
  concrete_aliases,
}

-- The name is written in the `Host` line of the block.
abbrev pub InHosts : Text → Applies → Type 0
InHosts alias (to_hosts patterns) = In alias patterns
InHosts alias everywhere = ⊥
InHosts alias nowhere = ⊥

-- The name is written in the `Host` line of one of the blocks.
abbrev pub InBlocks : List Block → Text → Type 0
InBlocks [] alias = ⊥
InBlocks (block ∷ blocks) alias = InHosts alias block.applies ⊎ InBlocks blocks alias

module _ (P : Text → Type 0) where
  All-append :
      (aliases : List Text) (name : Text) → All P aliases → P name → All P (aliases ++ name ∷ [])
  All-append [] name h p = (p, tt)
  All-append (alias ∷ aliases) name h p = (h.0, All-append aliases name h.1 p)

  push_alias-All :
      (aliases : List Text) (name : Text) → All P aliases → P name → All P (push_alias aliases name)
  unfolding push_alias
  push_alias-All aliases name h p =
      elim (Bool-cases (is_pattern name || any (λ alias. eq_ignore_case alias name) aliases)) [
        | inl e ↦ rw e h
        | inr e ↦ rw e (All-append aliases name h p)
      ]

  push_aliases-All :
      (aliases names : List Text)
      → All P aliases
      → ((name : Text) → In name names → P name)
      → All P (push_aliases aliases names)
  unfolding push_aliases
  push_aliases-All aliases [] h p = h
  push_aliases-All aliases (name ∷ names) h p =
      push_aliases-All (push_alias aliases name) names
        (push_alias-All aliases name h (p name (inl refl))) (λ other at. p other (inr at))

  push_block-All :
      (aliases : List Text) (applies : Applies)
      → All P aliases
      → ((name : Text) → InHosts name applies → P name)
      → All P (push_block aliases applies)
  unfolding push_block
  push_block-All aliases (to_hosts names) h p = push_aliases-All aliases names h p
  push_block-All aliases everywhere h p = h
  push_block-All aliases nowhere h p = h

  aliases_from-All :
      (aliases : List Text) (blocks : List Block)
      → All P aliases
      → ((name : Text) → InBlocks blocks name → P name)
      → All P (aliases_from aliases blocks)
  unfolding aliases_from
  aliases_from-All aliases [] h p = h
  aliases_from-All aliases (block ∷ blocks) h p =
      aliases_from-All (push_block aliases block.applies) blocks
        (push_block-All aliases block.applies h (λ name at. p name (inl at)))
        (λ name at. p name (inr at))

pub concrete_aliases-InBlocks :
    (blocks : List Block) → All (InBlocks blocks) (concrete_aliases blocks)
unfolding concrete_aliases
concrete_aliases-InBlocks blocks = aliases_from-All (InBlocks blocks) [] blocks tt (λ name at. at)
