-- ===== src/Ssh/Config/Examples.antt =====
-- A file with a block for a host, one for all hosts, and a comment, and the theorems at it.
use mathlib.Core.Path.{◌≡◌, refl}
use mathlib.Core.Option.{some}
use mathlib.Core.List.{List, [], ◌∷◌}
use term_connect.Shared.{All}
use term_connect.Shared.Text.{Text, lit, trim_text}
use term_connect.Ssh.Config.Values.{expand_tokens, expand_home, join_path, split_directive}
use term_connect.Ssh.Config.Blocks.{Block, everywhere, to_hosts, concrete_aliases}
use term_connect.Ssh.Config.Resolve.{resolve}
use term_connect.Ssh.Config.Settings.{settings}
use term_connect.Ssh.Config.FirstWins.{TakesFirst, resolve-TakesFirst}
use term_connect.Ssh.Config.AliasNames.{InBlocks}
use term_connect.Ssh.Config.Aliases.{AreNames, CoversBlock, concrete_aliases_lem}
use term_connect.Ssh.Config.Tokens.{plain, host, written, meant, expand_tokens-written}

abbrev blocks : List Block
blocks =
    (record { applies = everywhere; directives = [] })
    ∷ (record {
      applies = to_hosts (lit "web" ∷ lit "*.lan" ∷ lit "Web" ∷ []);
      directives =
          (lit "hostname", lit "%h.example.com")
          ∷ (lit "port", lit "none")
          ∷ (lit "identityfile", lit "~/.ssh/web")
          ∷ [];
    })
    ∷ (record {
      applies = to_hosts (lit "*" ∷ lit "db" ∷ []);
      directives =
          (lit "user", lit "deploy") ∷ (lit "port", lit "2222") ∷ (lit "user", lit "root") ∷ [];
    })
    ∷ []

abbrev same : Text → Text
same t = t

split_directive-equals : split_directive (lit " Port =  2222") ≡ some (lit "Port", lit "2222")
unfolding split_directive trim_text
split_directive-equals = refl

expand_home-key : expand_home (lit "~/.ssh/web") (some (lit "/home/u")) ≡ lit "/home/u/.ssh/web"
unfolding expand_home join_path
expand_home-key = refl

resolve-TakesFirst_example :
    TakesFirst
      (lit "web")
      (some (lit "/home/u"))
      (settings same (lit "web") blocks)
      (resolve same (lit "web") blocks (some (lit "/home/u")))
resolve-TakesFirst_example = resolve-TakesFirst same (lit "web") blocks (some (lit "/home/u"))

concrete_aliases_lem_example :
    AreNames (concrete_aliases blocks)
    × All (InBlocks blocks) (concrete_aliases blocks)
    × All (λ block. CoversBlock (concrete_aliases blocks) block.applies) blocks
concrete_aliases_lem_example = concrete_aliases_lem blocks

expand_tokens-written_example :
    expand_tokens (written (host ∷ plain b'%' ∷ plain b'h' ∷ [])) (lit "web")
    ≡ meant (lit "web") (host ∷ plain b'%' ∷ plain b'h' ∷ [])
expand_tokens-written_example =
    expand_tokens-written (lit "web") (host ∷ plain b'%' ∷ plain b'h' ∷ [])
