-- ===== src/Transfer/Job.antt =====
-- porthmos-core/src/transfer/job.rs: one file to transfer.
use Prim.Native.Nat.{ℕ}
use native.Mathlib.Decide.{ℕ_discrete}
use mathlib.Core.Bool.{Bool}
use mathlib.Core.Option.{Option}
use mathlib.Core.List.{◌++◌}
use term_connect.Shared.{◌==◌, if◌then◌else◌}
use term_connect.Shared.Text.{Text, lit}

pub data Direction : Type 0 where
  upload download : Direction

unfoldable pub Direction-discrete : Discrete Direction
Direction-discrete = hlevel

pub data JobStatus : Type 0 where
  queued in_progress completed : JobStatus
  failed : Text → JobStatus
  cancelled : JobStatus

unfoldable pub JobStatus-discrete : Discrete JobStatus
JobStatus-discrete = hlevel ℕ_discrete

pub data Destination : Type 0 where
  local : Text → Destination
  remote : ℕ → Text → Destination

unfoldable pub Destination-discrete : Discrete Destination
Destination-discrete = hlevel ℕ_discrete

pub record TransferJob : Type 0 where
  pub id : ℕ
  pub session_id : ℕ
  pub direction : Direction
  pub local_path : Text
  pub remote_path : Text
  pub display_name : Text
  pub total_bytes : ℕ
  pub transferred_bytes : ℕ
  pub status : JobStatus
  pub attempts : ℕ
  pub batch_id : Option ℕ
  pub resume : Bool
  pub modified : Option ℕ

abbrev pub part_suffix : Text
part_suffix = lit ".part"

-- A path is its text, and `OsString::push` appends.
destination_at : Direction → ℕ → Text → Text → Text → Destination
destination_at upload session local_path remote_path suffix = remote session (remote_path ++ suffix)
destination_at download session local_path remote_path suffix = local (local_path ++ suffix)

unfoldable pub part_destination : TransferJob → Destination
unfolding destination_at
part_destination job =
    destination_at job.direction job.session_id job.local_path job.remote_path part_suffix

direct_destination : Direction → ℕ → Text → Text → Destination
direct_destination upload session local_path remote_path = remote session remote_path
direct_destination download session local_path remote_path = local local_path

unfoldable pub destination : TransferJob → Destination
unfolding direct_destination
destination job = direct_destination job.direction job.session_id job.local_path job.remote_path

-- `float_percent done total` is `((done as f64 / total as f64) * 100.0) as u8`.
unfoldable pub progress_percent : (ℕ → ℕ → ℕ) → TransferJob → ℕ
progress_percent float_percent job =
    if job.total_bytes == 0 then 100 else float_percent job.transferred_bytes job.total_bytes
