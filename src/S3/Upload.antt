-- ===== src/S3/Upload.antt =====
-- protocols/s3/src/upload/mod.rs: a file sent in parts. The futures that send a part and that finish the
-- upload belong to the client: what a poll of one gives is an argument, and the calls that start them
-- are recorded, in `parts` and in `finish`, which is gone once it is called.
use Prim.Native.Nat.{ℕ, ◌+◌, ◌-◌, min}
use mathlib.Core.Bool.{Bool, true, false, not, ◌&&◌, ◌||◌}
use mathlib.Core.List.{List, [], ◌∷◌, ◌++◌}
use term_connect.Shared.{ltb, ◌==◌, if◌then◌else◌, length, take, is_empty}
use term_connect.Shared.Text.{Text}

abbrev pub max_parts : ℕ
max_parts = 10000

abbrev pub part_size : ℕ
part_size = 16777216

-- What the poll of a future gives.
pub data Answer : Type 0 where
  not_ready good : Answer
  bad : Text → Answer

-- `Poll<io::Result<A>>`
pub data Poll (A : Type 0) : Type 0 where
  waits : Poll A
  ok : A → Poll A
  err : Text → Poll A

pub record MultipartWriter : Type 0 where
  pub next : ℕ
  pub fresh : Bool
  pub sent : Bool
  pub buffer : List ℕ
  pub pending : Bool
  pub finish : Bool
  pub finishing : Bool
  pub too_large : Text
  pub parts : List (ℕ × List ℕ)

unfoldable pub new : ℕ → Bool → Text → MultipartWriter
new first_part finish too_large = record {
  next = first_part;
  fresh = first_part == 1;
  sent = false;
  buffer = [];
  pending = false;
  finish = finish;
  finishing = false;
  too_large = too_large;
  parts = [];
}

unfoldable pub start_part : MultipartWriter → MultipartWriter × Poll (Unit {0})
start_part w = if ltb max_parts w.next then (w, err w.too_large) else (
  record w {
    parts = w.parts ++ (w.next, w.buffer) ∷ [];
    buffer = [];
    pending = true;
    next = w.next + 1;
    sent = true;
  },
  ok tt,
)

unfoldable pub poll_answer : Answer → MultipartWriter → MultipartWriter × Poll (Unit {0})
poll_answer not_ready w = (w, waits)
poll_answer good w = (record w { pending = false }, ok tt)
poll_answer (bad e) w = (record w { pending = false }, err e)

unfoldable pub poll_pending : Answer → MultipartWriter → MultipartWriter × Poll (Unit {0})
unfolding poll_answer
poll_pending a w = if w.pending then poll_answer a w else (w, ok tt)

-- `ready!(…)?`
abbrev pub and_then :
    {A : Type 0}
    → MultipartWriter × Poll (Unit {0})
    → (MultipartWriter → MultipartWriter × Poll A)
    → MultipartWriter × Poll A
and_then (w, waits) f = (w, waits)
and_then (w, ok u) f = f w
and_then (w, err e) f = (w, err e)

unfoldable pub accept : List ℕ → MultipartWriter → MultipartWriter × Poll ℕ
accept buf w =
    let accepted = min (length buf) (part_size - length w.buffer) in
    let w' = record w { buffer = w.buffer ++ take accepted buf } in
    if length w'.buffer == part_size
    then and_then (start_part w') (λ w''. (w'', ok accepted))
    else (w', ok accepted)

unfoldable pub poll_write : Answer → List ℕ → MultipartWriter → MultipartWriter × Poll ℕ
unfolding accept
poll_write a buf w = and_then (poll_pending a w) (accept buf)

unfoldable pub poll_flush : Answer → MultipartWriter → MultipartWriter × Poll (Unit {0})
poll_flush a w = poll_pending a w

unfoldable pub finish_answer : Answer → MultipartWriter → MultipartWriter × Poll (Unit {0})
finish_answer not_ready w = (w, waits)
finish_answer good w = (record w { finishing = false }, ok tt)
finish_answer (bad e) w = (record w { finishing = false }, err e)

unfoldable pub poll_finishing : Answer → MultipartWriter → MultipartWriter × Poll (Unit {0})
unfolding finish_answer
poll_finishing c w = if w.finishing then finish_answer c w else (w, ok tt)

-- What is left in the buffer is the last part; an upload that has sent nothing sends one empty part.
unfoldable pub send_last : Answer → MultipartWriter → MultipartWriter × Poll (Unit {0})
send_last b w =
    if not (is_empty w.buffer) || (w.fresh && not w.sent)
    then and_then (start_part w) (λ w'. poll_pending b w')
    else (w, ok tt)

unfoldable pub take_finish : Answer → MultipartWriter → MultipartWriter × Poll (Unit {0})
take_finish c w =
    if w.finish
    then poll_finishing c (record w { finish = false; finishing = true })
    else (w, ok tt)

-- The answers are those of the part that is under way, of the last part, and of the finish.
unfoldable pub poll_shutdown :
    Answer → Answer → Answer → MultipartWriter → MultipartWriter × Poll (Unit {0})
unfolding send_last take_finish
poll_shutdown a b c w =
    if w.finishing
    then poll_finishing c w
    else and_then (poll_pending a w) (λ w1. and_then (send_last b w1) (take_finish c))
