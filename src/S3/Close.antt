-- ===== src/S3/Close.antt =====
-- The closing of an upload: when it succeeds, every byte is in a part, and every part was sent.
use Prim.Native.Nat.{ℕ, ◌+◌, ◌≤◌}
use mathlib.Core.Path.{◌≡◌, refl, ap, sym, ◌∙◌, subst}
use mathlib.Core.Bool.{Bool, true, false, not, ◌&&◌, ◌||◌, true≢false}
use mathlib.Core.List.{List, [], ◌∷◌, ◌++◌, append-nil}
use mathlib.Core.Logic.{◌⊎◌, inl, inr}
use native.Mathlib.Omega.{arith}
use term_connect.Shared.{if◌then◌else◌, length, is_empty, Bool-cases, All}
use term_connect.Shared.Text.{Text}
use term_connect.S3.Upload.{
  max_parts, Answer, not_ready, good, bad, Poll, waits, ok, err, MultipartWriter, finish_answer,
  poll_pending, and_then, poll_finishing, send_last, take_finish, poll_shutdown,
}
use term_connect.S3.Parts.{
  joined, Numbered, FullButLast, IsFull, Kept, Writing, begun, begun-Kept, start_part-cases,
}
use term_connect.S3.Runs.{
  Closing, written, not_closed, drained, poll_pending-cases, drained-Kept, Run-Writing,
}

-- A writer that is being closed. A part can follow those it has only when they are all full.
record IsClosing (first : ℕ) (w : MultipartWriter) (xs : List ℕ) : Type 0 where
  kept : Kept first w xs
  rest : All IsFull w.parts ⊎ ((w.buffer ≡ []) × (w.sent ≡ true))
  over : w.finishing ≡ true → (w.buffer ≡ []) × (w.pending ≡ false)

-- An upload that is complete: all it took is in its parts, and no part is under way.
abbrev pub IsComplete : ℕ → MultipartWriter → List ℕ → Type 0
IsComplete first w xs =
    (joined w.parts ≡ xs)
    × Numbered first w.parts
    × FullButLast w.parts
    × (first + length w.parts ≤ max_parts + 1)
    × (w.pending ≡ false)

abbrev AfterClose : ℕ → List ℕ → MultipartWriter × Poll (Unit {0}) → Type 0
AfterClose first xs (w, waits) = IsClosing first w xs
AfterClose first xs (w, ok u) = IsComplete first w xs
AfterClose first xs (w, err e) = Unit {0}

complete :
    (first : ℕ) (w : MultipartWriter) (xs : List ℕ)
    → Kept first w xs
    → w.buffer ≡ []
    → w.pending ≡ false
    → IsComplete first w xs
complete first w xs k b p = (
  sym (append-nil (joined w.parts)) ∙ ap (λ (t : List ℕ). joined w.parts ++ t) (sym b) ∙ k.whole,
  k.numbered,
  k.sizes,
  omega (arith, k.bounded, k.next_part),
  p,
)

empty_buffer : (xs : List ℕ) → is_empty xs ≡ true → xs ≡ []
empty_buffer [] e = refl
empty_buffer (x ∷ xs) e = absurd (ground (arith, e))

if_true : {A : Type 0} (x y : A) {b : Bool} → b ≡ true → x ≡ (if b then x else y)
if_true x y e = sym (ap (λ (b : Bool). if b then x else y) e)

if_false : {A : Type 0} (x y : A) {b : Bool} → b ≡ false → y ≡ (if b then x else y)
if_false x y e = sym (ap (λ (b : Bool). if b then x else y) e)

finishing_of-Kept :
    (f : Bool) (first : ℕ) (w : MultipartWriter) (xs : List ℕ)
    → Kept first w xs
    → Kept first (record w { finishing = f }) xs
finishing_of-Kept f first w xs k = record {
  whole = k.whole;
  numbered = k.numbered;
  next_part = k.next_part;
  bounded = k.bounded;
  sizes = k.sizes;
}

finish_of-Kept :
    (first : ℕ) (w : MultipartWriter) (xs : List ℕ)
    → Kept first w xs
    → Kept first (record w { finish = false; finishing = true }) xs
finish_of-Kept first w xs k = record {
  whole = k.whole;
  numbered = k.numbered;
  next_part = k.next_part;
  bounded = k.bounded;
  sizes = k.sizes;
}

-- `poll_finishing` while it is under way: nothing is in the buffer, and all parts were sent.
poll_finishing-AfterClose :
    (first : ℕ) (c : Answer) (w : MultipartWriter) (xs : List ℕ)
    → IsClosing first w xs
    → w.finishing ≡ true
    → AfterClose first xs (poll_finishing c w)
unfolding poll_finishing finish_answer
poll_finishing-AfterClose first not_ready w xs v e = subst (AfterClose first xs) (if_true _ _ e) v
poll_finishing-AfterClose first good w xs v e = subst (AfterClose first xs) (if_true _ _ e) (
    complete first (record w { finishing = false }) xs (finishing_of-Kept false first w xs v.kept)
      (v.over e).0 (v.over e).1)
poll_finishing-AfterClose first (bad t) w xs v e = subst (AfterClose first xs) (if_true _ _ e) tt

-- `take_finish`: the finish is called at most once, and only when nothing is left to send.
take_finish-AfterClose :
    (first : ℕ) (c : Answer) (w : MultipartWriter) (xs : List ℕ)
    → IsClosing first w xs
    → w.buffer ≡ []
    → w.pending ≡ false
    → AfterClose first xs (take_finish c w)
unfolding take_finish
take_finish-AfterClose first c w xs v b p = elim (Bool-cases w.finish) [
  | inl e ↦ subst (AfterClose first xs) (if_true _ _ e) (
      poll_finishing-AfterClose first c (record w { finish = false; finishing = true }) xs
        (record { kept = finish_of-Kept first w xs v.kept; rest = v.rest; over = λ f. (b, p) })
        refl)
  | inr e ↦ subst (AfterClose first xs) (if_false _ _ e) (complete first w xs v.kept b p)
]

drained-IsClosing :
    (first : ℕ) (w : MultipartWriter) (xs : List ℕ)
    → IsClosing first w xs
    → w.finishing ≡ false
    → IsClosing first (drained w) xs
drained-IsClosing first w xs v f = record {
  kept = drained-Kept first w xs v.kept;
  rest = v.rest;
  over = λ e. absurd (true≢false (sym e ∙ f));
}

-- A poll of the part under way, and what `go` does once the part is sent.
poll_pending-AfterClose :
    (first : ℕ) (a : Answer) (w : MultipartWriter) (xs : List ℕ)
    (go : MultipartWriter → MultipartWriter × Poll (Unit {0}))
    → IsClosing first w xs
    → w.finishing ≡ false
    → AfterClose first xs (go (drained w))
    → AfterClose first xs (and_then (poll_pending a w) go)
poll_pending-AfterClose first a w xs go v f h = elim (poll_pending-cases a w) [
  | inl e ↦ rw e v
  | inr (inl e) ↦ rw e h
  | inr (inr (t, e)) ↦ rw e tt
]

-- Whether `send_last` has a part to send.
abbrev has_last : MultipartWriter → Bool
has_last w = not (is_empty w.buffer) || (w.fresh && not w.sent)

and_false : (f : Bool) → (f && false) ≡ false
and_false true = refl
and_false false = refl

nothing_last : (w : MultipartWriter) → w.buffer ≡ [] → w.sent ≡ true → has_last w ≡ false
nothing_last w b s = rw b (rw s (and_false w.fresh))

has_last-IsFull :
    (first : ℕ) (w : MultipartWriter) (xs : List ℕ)
    → IsClosing first w xs
    → has_last w ≡ true
    → All IsFull w.parts
has_last-IsFull first w xs v e = elim v.rest [
  | inl full ↦ full
  | inr (b, s) ↦ absurd (true≢false (sym e ∙ nothing_last w b s))
]

left_true : (e f : Bool) → (not e || f) ≡ false → e ≡ true
left_true true f h = refl
left_true false f h = absurd (true≢false h)

none_left : (w : MultipartWriter) → has_last w ≡ false → w.buffer ≡ []
none_left w e = empty_buffer w.buffer (left_true (is_empty w.buffer) (w.fresh && not w.sent) e)

begun-IsClosing :
    (first : ℕ) (w : MultipartWriter) (xs : List ℕ)
    → IsClosing first w xs
    → w.finishing ≡ false
    → w.next ≤ max_parts
    → All IsFull w.parts
    → IsClosing first (begun w) xs
begun-IsClosing first w xs v f small full = record {
  kept = begun-Kept first w xs v.kept small full;
  rest = inr (refl, refl);
  over = λ e. absurd (true≢false (sym e ∙ f));
}

-- `send_last` on a writer that has no part under way, then the finish.
send_last-AfterClose :
    (first : ℕ) (b c : Answer) (w : MultipartWriter) (xs : List ℕ)
    → IsClosing first w xs
    → w.finishing ≡ false
    → w.pending ≡ false
    → AfterClose first xs (and_then (send_last b w) (take_finish c))
unfolding send_last
send_last-AfterClose first b c w xs v f p = elim (Bool-cases (has_last w)) [
  | inl e ↦
      subst
        (λ (r : MultipartWriter × Poll (Unit {0})).
          AfterClose first xs (and_then r (take_finish c)))
        (if_true _ _ e)
        (elim (start_part-cases w) [
          | inl g ↦ rw g tt
          | inr (small, g) ↦ rw g (
              poll_pending-AfterClose first b (begun w) xs (take_finish c)
                (begun-IsClosing first w xs v f small (has_last-IsFull first w xs v e)) f
                (take_finish-AfterClose first c (drained (begun w)) xs
                  (drained-IsClosing first (begun w) xs
                    (begun-IsClosing first w xs v f small (has_last-IsFull first w xs v e)) f)
                  refl refl))
        ])
  | inr e ↦
      subst
        (λ (r : MultipartWriter × Poll (Unit {0})).
          AfterClose first xs (and_then r (take_finish c)))
        (if_false _ _ e) (take_finish-AfterClose first c w xs v (none_left w e) p)
]

poll_shutdown-AfterClose :
    (first : ℕ) (a b c : Answer) (w : MultipartWriter) (xs : List ℕ)
    → IsClosing first w xs
    → AfterClose first xs (poll_shutdown a b c w)
unfolding poll_shutdown
poll_shutdown-AfterClose first a b c w xs v = elim (Bool-cases w.finishing) [
  | inl e ↦ subst (AfterClose first xs) (if_true _ _ e) (poll_finishing-AfterClose first c w xs v e)
  | inr f ↦ subst (AfterClose first xs) (if_false _ _ f) (
      poll_pending-AfterClose first a w xs (λ w1. and_then (send_last b w1) (take_finish c)) v f
        (send_last-AfterClose first b c (drained w) xs (drained-IsClosing first w xs v f) f refl))
]

Writing-IsClosing :
    (first : ℕ) (w : MultipartWriter) (xs : List ℕ) → Writing first w xs → IsClosing first w xs
Writing-IsClosing first w xs v = record {
  kept = v.kept;
  rest = inl v.full;
  over = λ e. absurd (true≢false (sym e ∙ v.not_finishing));
}

Closing-IsClosing :
    (first : ℕ) (finish : Bool) (note : Text) (w : MultipartWriter) (xs : List ℕ)
    → Closing first finish note w xs
    → IsClosing first w xs
Closing-IsClosing first finish note _ _ (written {w} {xs} r) =
    Writing-IsClosing first w xs (Run-Writing first finish note w xs r)
Closing-IsClosing first finish note _ _ (not_closed {w} {w'} {xs} a b c r e) =
    subst (AfterClose first xs) e
      (poll_shutdown-AfterClose first a b c w xs (Closing-IsClosing first finish note w xs r))

-- When the closing of an upload succeeds after calls none of which failed (those that had to wait
-- included), its parts are the bytes it took, in their order; they are numbered one after another from
-- the first, all but the last are of the full size, none has a number over 10,000, and the poll of none
-- of them is still to come.
pub poll_shutdown-IsComplete :
    (first : ℕ) (finish : Bool) (note : Text) (w w' : MultipartWriter) (xs : List ℕ)
    (a b c : Answer)
    → Closing first finish note w xs
    → poll_shutdown a b c w ≡ (w', ok tt)
    → IsComplete first w' xs
poll_shutdown-IsComplete first finish note w w' xs a b c r e =
    subst (AfterClose first xs) e
      (poll_shutdown-AfterClose first a b c w xs (Closing-IsClosing first finish note w xs r))
