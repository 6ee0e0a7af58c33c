-- ===== src/History/Examples.antt =====
-- Tests of the history, and its theorems at a concrete entry.
use Prim.Native.Nat.{ℕ, ◌≤◌}
use mathlib.Core.Path.{◌≡◌, refl}
use mathlib.Core.Bool.{true}
use mathlib.Core.List.{[], ◌∷◌, ◌++◌}
use native.Mathlib.Omega.{arith}
use term_connect.Shared.{length, drop}
use term_connect.Shared.Text.{lit, trim_text, trim_start}
use term_connect.Transfer.Job.{upload}
use term_connect.History.Log.{HistoryEntry, done, History, ready, max_entries, load, push, matches}
use term_connect.History.Trim.{push_lem, Trimmed, load_lem}

abbrev sent : HistoryEntry
sent = record {
  finished_at = 100;
  connection = lit "web";
  direction = upload;
  label = lit "a.txt";
  local_path = lit "/tmp/a.txt";
  remote_path = lit "/a.txt";
  files_done = 1;
  files_total = 1;
  bytes = 5;
  result = done;
  failed_count = 0;
  failed_files = [];
}

abbrev old : History
old = record { path = lit "h"; entries = sent ∷ []; writable = true }

matches-label : matches (λ s. s) sent (lit " *.txt") ≡ true
unfolding matches trim_text trim_start term_connect.Glob.Matcher.glob_match
    term_connect.Glob.Matcher.round term_connect.Glob.Matcher.only_stars
matches-label = refl

push_lem_example :
    (k : ℕ) × ((push old sent).entries ≡ drop k old.entries ++ sent ∷ [])
    × (k ≤ 1)
    × (length (push old sent).entries ≤ max_entries)
    × ((push old sent).writable ≡ old.writable)
push_lem_example = push_lem old sent (omega arith)

load_lem_example : Trimmed (sent ∷ sent ∷ []) (load (lit "h") (ready (sent ∷ sent ∷ []))).0
load_lem_example = load_lem (lit "h") (sent ∷ sent ∷ [])
