-- ===== src/S3/Examples.antt =====
-- An upload of three bytes: written, its closing asked for while the part is under way, then closed.
use mathlib.Core.Path.{◌≡◌, refl}
use mathlib.Core.Bool.{true}
use mathlib.Core.List.{List, [], ◌∷◌}
use Prim.Native.Nat.{ℕ}
use native.Mathlib.Omega.{arith}
use term_connect.S3.Upload.{
  new, accept, send_last, start_part, poll_pending, poll_answer, take_finish, poll_finishing,
  finish_answer, not_ready, good, waits, ok, MultipartWriter, poll_write, poll_shutdown,
}
use term_connect.S3.Runs.{opened, wrote, written, not_closed}
use term_connect.S3.Close.{IsComplete, poll_shutdown-IsComplete}

abbrev three : List ℕ
three = 10 ∷ 20 ∷ 30 ∷ []

abbrev w1 : MultipartWriter
w1 = (poll_write good three (new 1 true [])).0

abbrev w2 : MultipartWriter
w2 = (poll_shutdown good not_ready good w1).0

abbrev w3 : MultipartWriter
w3 = (poll_shutdown good good good w2).0

wrote_three : poll_write good three (new 1 true []) ≡ (w1, ok 3)
unfolding poll_write accept poll_pending new
wrote_three = refl

waited : poll_shutdown good not_ready good w1 ≡ (w2, waits)
unfolding poll_shutdown send_last start_part poll_pending poll_answer poll_write accept new
waited = refl

closed_ok : poll_shutdown good good good w2 ≡ (w3, ok tt)
unfolding poll_shutdown send_last start_part poll_pending poll_answer poll_write accept new
    take_finish poll_finishing finish_answer
closed_ok = refl

three_parts : w3.parts ≡ (1, three) ∷ []
unfolding poll_shutdown send_last start_part poll_pending poll_answer poll_write accept new
    take_finish poll_finishing finish_answer
three_parts = refl

poll_shutdown-IsComplete_example : IsComplete 1 w3 three
poll_shutdown-IsComplete_example =
    poll_shutdown-IsComplete 1 true [] w2 w3 three good good good
      (not_closed good not_ready good
        (written (wrote good three (opened (omega arith)) wrote_three)) waited)
      closed_ok
