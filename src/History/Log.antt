-- ===== src/History/Log.antt =====
-- The entries and the operations on them. Reading and writing the file are not modelled: `load` starts
-- from what `read_or_set_aside` gave. A time is a number, `lower` is `to_lowercase`.
use Prim.Native.Nat.{ℕ, ◌-◌}
use mathlib.Core.Bool.{Bool, true, not, ◌||◌}
use mathlib.Core.Option.{Option, none, some}
use mathlib.Core.List.{List, [], ◌∷◌, ◌++◌, reverse}
use term_connect.Shared.{ltb, if◌then◌else◌, any, drop, length, is_empty}
use term_connect.Shared.Text.{Text, lit, has_char, trim_text, contains_text}
use term_connect.Glob.Matcher.{glob_match}
use term_connect.Listing.Panel.{says_yes}
use term_connect.Transfer.Job.{Direction}

abbrev pub max_entries : ℕ
max_entries = 1000

abbrev pub max_failed_files : ℕ
max_failed_files = 100

pub data HistoryResult : Type 0 where
  done : HistoryResult
  partly_failed : ℕ → HistoryResult
  failed cancelled interrupted : HistoryResult

unfoldable pub text : HistoryResult → Text
text done = lit "done"
text (partly_failed n) = lit "partly failed"
text failed = lit "failed"
text cancelled = lit "cancelled"
text interrupted = lit "interrupted"

pub record HistoryEntry : Type 0 where
  pub finished_at : ℕ
  pub connection : Text
  pub direction : Direction
  pub label : Text
  pub local_path : Text
  pub remote_path : Text
  pub files_done : ℕ
  pub files_total : ℕ
  pub bytes : ℕ
  pub result : HistoryResult
  pub failed_count : ℕ
  pub failed_files : List Text

pub record History : Type 0 where
  pub path : Text
  pub entries : List HistoryEntry
  pub writable : Bool

-- porthmos-core/src/persist/mod.rs, `Loaded`
pub data Loaded : Type 0 where
  missing : Loaded
  ready : List HistoryEntry → Loaded
  set_aside : Text → Bool → Loaded

-- The oldest entries go, from the front.
unfoldable pub trim : History → History
trim h =
    let excess = length h.entries - max_entries in
    if ltb 0 excess then record h { entries = drop excess h.entries } else h

unfoldable pub load : Text → Loaded → History × Option Text
unfolding trim
load path missing = (record { path = path; entries = []; writable = true }, none)
load path (ready entries) =
    (trim (record { path = path; entries = entries; writable = true }), none)
load path (set_aside warning protected) =
    (record { path = path; entries = []; writable = not protected }, some warning)

unfoldable pub newest_first : History → List HistoryEntry
newest_first h = reverse h.entries

unfoldable pub push : History → HistoryEntry → History
unfolding trim
push h e = trim (record h { entries = h.entries ++ e ∷ [] })

unfoldable pub clear_memory : History → History
clear_memory h = record h { entries = [] }

module _ (lower : Text → Text) where
  field_matches : Text → Text → Bool
  field_matches filter field =
      if has_char b'*' filter || has_char b'?' filter
      then says_yes (glob_match lower filter field)
      else contains_text (lower field) (lower filter)

  unfoldable pub matches : HistoryEntry → Text → Bool
  unfolding field_matches trim_text text
  matches e filter =
      let f = trim_text filter in
      if is_empty f
      then true
      else any (field_matches f)
          (e.connection ∷ e.label ∷ e.local_path ∷ e.remote_path ∷ text e.result ∷ [])
