-- ===== src/Sync/Mirror.antt =====
-- A comparison seen from the other side: exchanging the trees and the direction exchanges uploads and
-- downloads, and nothing else.
use Prim.Native.Nat.{ℕ, ◌+◌, ◌-◌, ◌<◌, min}
use mathlib.Core.Path.{◌≡◌, refl}
use mathlib.Core.Bool.{Bool, true, false}
use mathlib.Core.Option.{Option, none, some}
use native.Mathlib.Omega.{arith}
use mathlib.Core.Logic.{inl, inr}
use term_connect.Shared.{ltb, ltb→lt, Bool-cases, u64_mod}
use term_connect.Sync.Compare.{
  saturating_add, SyncDirection, local_to_remote, remote_to_local, both, SyncOptions, SyncAction,
  upload, download, skip, SyncReason, only_local, only_remote, local_newer, remote_newer, TreeEntry,
  Verdict, verdict_for,
}

abbrev pub mirror_direction : SyncDirection → SyncDirection
mirror_direction local_to_remote = remote_to_local
mirror_direction remote_to_local = local_to_remote
mirror_direction both = both

abbrev pub mirror_action : SyncAction → SyncAction
mirror_action upload = download
mirror_action download = upload
mirror_action skip = skip

abbrev pub mirror_reason : SyncReason → SyncReason
mirror_reason only_local = only_remote
mirror_reason only_remote = only_local
mirror_reason local_newer = remote_newer
mirror_reason remote_newer = local_newer
mirror_reason r = r

abbrev pub mirror_verdict : Option Verdict → Option Verdict
mirror_verdict none = none
mirror_verdict (some v) =
    some (record v { action = mirror_action v.action; reason = mirror_reason v.reason })

abbrev pub mirror_options : SyncOptions → SyncOptions
mirror_options o = record o { direction = mirror_direction o.direction }

-- A time fits an u64.
abbrev pub TimeFits : Option TreeEntry → Type 0
TimeFits none = Unit {0}
TimeFits (some e) = (t : ℕ) → e.modified ≡ some t → t < u64_mod

-- Of two times that fit, one at most is later than the other with the tolerance added.
not_both_later :
    (a b tolerance : ℕ)
    → a < u64_mod
    → b < u64_mod
    → ltb (saturating_add b tolerance) a ≡ true
    → ltb (saturating_add a tolerance) b ≡ false
unfolding saturating_add
not_both_later a b tolerance fa fb h =
    let first : min (b + tolerance) (u64_mod - 1) < a = ltb→lt _ _ h in
    elim (Bool-cases (ltb (min (a + tolerance) (u64_mod - 1)) b)) [
      | inl later ↦ absurd (omega (arith, ltb→lt _ _ later, first))
      | inr e ↦ e
    ]

-- The verdict on a path does not depend on which side is called local: with the sides and the direction
-- exchanged, and times that fit an u64, it is the same verdict with upload and download exchanged.
pub verdict_for-mirror :
    (l r : Option TreeEntry) (o : SyncOptions) (tolerance : ℕ) (keeps : Bool)
    → TimeFits l
    → TimeFits r
    → verdict_for r l (mirror_options o) tolerance keeps
      ≡ mirror_verdict (verdict_for l r o tolerance keeps)
unfolding verdict_for
verdict_for-mirror none none o tolerance keeps fl fr = refl
verdict_for-mirror (some l) none o tolerance keeps fl fr = ground arith
verdict_for-mirror none (some r) o tolerance keeps fl fr = ground arith
verdict_for-mirror (some l) (some r) o tolerance keeps fl fr =
    both_sides l.modified refl r.modified refl
  where
    both_sides :
        (lt : Option ℕ)
        → l.modified ≡ lt
        → (rt : Option ℕ) → r.modified ≡ rt
        → verdict_for (some r) (some l) (mirror_options o) tolerance keeps
          ≡ mirror_verdict (verdict_for (some l) (some r) o tolerance keeps)
    both_sides (some a) e (some b) f =
        ground (arith, not_both_later a b tolerance (fl a e) (fr b f))
    both_sides none e rt f = ground arith
    both_sides (some a) e none f = ground arith
