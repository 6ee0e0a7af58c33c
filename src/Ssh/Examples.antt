-- ===== src/Ssh/Examples.antt =====
-- Tests of the quoting, and its theorem at a concrete text.
use mathlib.Core.Path.{◌≡◌, refl}
use mathlib.Core.List.{[], ◌++◌}
use term_connect.Shared.Text.{lit}
use term_connect.Ssh.Quote.{shell_quote, outside, prepend, read_word, read_word-shell_quote}

shell_quote-its : shell_quote (lit "it's") ≡ lit "'it'\\''s'"
unfolding shell_quote
shell_quote-its = refl

read_word-shell_quote_example :
    read_word outside (shell_quote (lit "it's; rm") ++ [])
    ≡ prepend (lit "it's; rm") (read_word outside [])
read_word-shell_quote_example = read_word-shell_quote (lit "it's; rm") []
