-- ===== src/Transfer/Snapshot.antt =====
-- porthmos-core/src/transfer/snapshot/mod.rs: what the interface is shown of the queue.
use Prim.Native.Nat.{ℕ}
use mathlib.Core.Path.{◌≡◌, refl}
use mathlib.Core.Bool.{Bool, true, false, ◌||◌}
use mathlib.Core.Option.{Option, none, some}
use mathlib.Core.List.{List, [], ◌∷◌, ◌++◌, map}
use mathlib.Core.Logic.{inl, inr}
use native.Mathlib.Omega.{arith}
use term_connect.Shared.{◌==◌, if◌then◌else◌, length, keep, any, choose, Bool-cases}
use term_connect.Shared.Map
use term_connect.Shared.Text.{Text}
use term_connect.Transfer.Job.{Direction, TransferJob, progress_percent}
use term_connect.Transfer.Rows.{RowState, scanning, awaiting_answer, QueueRow, ScanInfo, scan_row}
use term_connect.Transfer.Queue.State.{TransferQueue, BatchProgress}
use term_connect.Transfer.Queue.Operations.{rows, active_jobs, queued_count, batch_progress}

pub record ActiveJob : Type 0 where
  pub id : ℕ
  pub display_name : Text
  pub direction : Direction
  pub batch_id : Option ℕ
  pub transferred_bytes : ℕ
  pub total_bytes : ℕ
  pub percent : ℕ

pub record TransferSnapshot : Type 0 where
  pub rows : List QueueRow
  pub active : List ActiveJob
  pub batches : Map.Map BatchProgress
  pub queued : ℕ
  pub scanning : List Text
  pub awaiting_answers : ℕ

-- porthmos-core/src/transfer/rows/mod.rs
unfoldable pub queue_rows : TransferQueue → List ScanInfo → List QueueRow
queue_rows q scans = rows q ++ map scan_row scans

unfoldable pub active_job : (ℕ → ℕ → ℕ) → TransferJob → ActiveJob
active_job float_percent job = record {
  id = job.id;
  display_name = job.display_name;
  direction = job.direction;
  batch_id = job.batch_id;
  transferred_bytes = job.transferred_bytes;
  total_bytes = job.total_bytes;
  percent = progress_percent float_percent job;
}

is_scanning : RowState → Bool
is_scanning scanning = true
is_scanning _ = false

is_awaiting : RowState → Bool
is_awaiting awaiting_answer = true
is_awaiting _ = false

-- Collecting into a `BTreeMap` inserts one pair after another.
unfoldable pub collect_batches :
    TransferQueue → List ℕ → Map.Map BatchProgress → Map.Map BatchProgress
collect_batches q [] m = m
collect_batches q (b ∷ bs) m = collect_batches q bs (Map.insert b (batch_progress q b) m)

unfoldable pub snapshot_of : (ℕ → ℕ → ℕ) → TransferQueue → List ScanInfo → TransferSnapshot
unfolding collect_batches is_scanning is_awaiting
snapshot_of float_percent q scans =
    let active = map (active_job float_percent) (active_jobs q) in
    record {
      rows = queue_rows q scans;
      active = active;
      batches = collect_batches q (choose (λ (j : ActiveJob). j.batch_id) active) [];
      queued = queued_count q;
      scanning =
          map (λ (s : ScanInfo). s.label) (keep (λ (s : ScanInfo). is_scanning s.state) scans);
      awaiting_answers = length (keep (λ (s : ScanInfo). is_awaiting s.state) scans);
    }

collect_batches-get :
    (q : TransferQueue) (bs : List ℕ) (m : Map.Map BatchProgress) (b : ℕ)
    → Map.get (collect_batches q bs m) b
      ≡ (if any (λ c. c == b) bs then some (batch_progress q b) else Map.get m b)
unfolding collect_batches
collect_batches-get q [] m b = refl
collect_batches-get q (c ∷ bs) m b =
    rw
      (
        collect_batches-get q bs (Map.insert c (batch_progress q c) m) b,
        Map.get-insert m c b (batch_progress q c),
      )
      (elim (Bool-cases (c == b)) [
        | inl e ↦ let same : c ≡ b = ground (arith, e) in ground (arith, e, same)
        | inr e ↦ rw e refl
      ])

-- Whether a job that is shown belongs to the batch.
abbrev pub shown_in : ℕ → List ActiveJob → Bool
shown_in b [] = false
shown_in b (j ∷ js) = elim j.batch_id [ none ↦ shown_in b js | some c ↦ c == b || shown_in b js ]

shown_in-choose :
    (b : ℕ) (js : List ActiveJob)
    → any (λ c. c == b) (choose (λ (j : ActiveJob). j.batch_id) js) ≡ shown_in b js
shown_in-choose b [] = refl
shown_in-choose b (j ∷ js) = ground (arith, shown_in-choose b js)

-- The snapshot holds the progress of exactly the batches that a shown job belongs to, as the queue
-- counts it.
pub snapshot_of-batches :
    (float_percent : ℕ → ℕ → ℕ) (q : TransferQueue) (scans : List ScanInfo) (b : ℕ)
    → Map.get (snapshot_of float_percent q scans).batches b ≡ (
        if shown_in b (snapshot_of float_percent q scans).active
        then some (batch_progress q b)
        else none)
unfolding snapshot_of Map.get
snapshot_of-batches float_percent q scans b =
    let active = map (active_job float_percent) (active_jobs q) in
    rw
      (
        collect_batches-get q (choose (λ (j : ActiveJob). j.batch_id) active) [] b,
        shown_in-choose b active,
      )
      refl
