-- ===== src/S3/Runs.antt =====
-- Runs of the calls on an upload, none of which failed, up to the one that closes it.
use Prim.Native.Nat.{ℕ, ◌+◌, ◌≤◌}
use mathlib.Core.Path.{◌≡◌, refl, ap, ◌∙◌, subst}
use mathlib.Core.Bool.{Bool, false}
use mathlib.Core.List.{List, [], ◌++◌}
use mathlib.Core.Logic.{◌⊎◌, inl, inr}
use native.Mathlib.Omega.{arith}
use term_connect.Shared.{if◌then◌else◌, take, Bool-cases}
use term_connect.Shared.Text.{Text}
use term_connect.S3.Upload.{
  max_parts, Answer, not_ready, good, bad, Poll, waits, ok, err, MultipartWriter, new, poll_answer,
  poll_pending, poll_write, poll_flush, poll_shutdown,
}
use term_connect.S3.Parts.{Kept, Writing, AfterWrite, accept-AfterWrite}

-- An upload from the part `first` on that has taken the bytes `xs`.
pub data Run (first : ℕ) (finish : Bool) (note : Text) : MultipartWriter → List ℕ → Type 0 where
  opened : first ≤ max_parts + 1 → Run first finish note (new first finish note) []
  wrote :
      {w w' : MultipartWriter} {xs : List ℕ} {n : ℕ}
      → (a : Answer) (buf : List ℕ) → Run first finish note w xs
      → poll_write a buf w ≡ (w', ok n)
      → Run first finish note w' (xs ++ take n buf)
  not_written :
      {w w' : MultipartWriter} {xs : List ℕ}
      → (a : Answer) (buf : List ℕ) → Run first finish note w xs
      → poll_write a buf w ≡ (w', waits)
      → Run first finish note w' xs
  flushed :
      {w w' : MultipartWriter} {xs : List ℕ}
      → (a : Answer) → Run first finish note w xs
      → poll_flush a w ≡ (w', ok tt)
      → Run first finish note w' xs
  not_flushed :
      {w w' : MultipartWriter} {xs : List ℕ}
      → (a : Answer) → Run first finish note w xs
      → poll_flush a w ≡ (w', waits)
      → Run first finish note w' xs

-- An upload whose closing was asked for any number of times, and is not over.
pub data Closing (first : ℕ) (finish : Bool) (note : Text) : MultipartWriter → List ℕ → Type 0 where
  written :
      {w : MultipartWriter} {xs : List ℕ}
      → Run first finish note w xs
      → Closing first finish note w xs
  not_closed :
      {w w' : MultipartWriter} {xs : List ℕ}
      → (a b c : Answer) → Closing first finish note w xs
      → poll_shutdown a b c w ≡ (w', waits)
      → Closing first finish note w' xs

abbrev pub drained : MultipartWriter → MultipartWriter
drained w = record w { pending = false }

poll_answer-cases :
    (a : Answer) (w : MultipartWriter)
    → (poll_answer a w ≡ (w, waits))
      ⊎ ((poll_answer a w ≡ (drained w, ok tt))
          ⊎ ((e : Text) × (poll_answer a w ≡ (drained w, err e))))
unfolding poll_answer
poll_answer-cases not_ready w = inl refl
poll_answer-cases good w = inr (inl refl)
poll_answer-cases (bad t) w = inr (inr (t, refl))

-- What the poll of the part under way gives.
pub poll_pending-cases :
    (a : Answer) (w : MultipartWriter)
    → (poll_pending a w ≡ (w, waits))
      ⊎ ((poll_pending a w ≡ (drained w, ok tt))
          ⊎ ((e : Text) × (poll_pending a w ≡ (drained w, err e))))
unfolding poll_pending
poll_pending-cases a w = elim (Bool-cases w.pending) [
  | inl e ↦
      let polled = ap (λ (p : Bool). if p then poll_answer a w else (w, ok tt)) e in
      elim (poll_answer-cases a w) [
        | inl f ↦ inl (polled ∙ f)
        | inr (inl f) ↦ inr (inl (polled ∙ f))
        | inr (inr (t, f)) ↦ inr (inr (t, polled ∙ f))
      ]
  | inr e ↦ inr (inl (rw e refl))
]

pub drained-Kept :
    (first : ℕ) (w : MultipartWriter) (xs : List ℕ) → Kept first w xs → Kept first (drained w) xs
drained-Kept first w xs k = record {
  whole = k.whole;
  numbered = k.numbered;
  next_part = k.next_part;
  bounded = k.bounded;
  sizes = k.sizes;
}

drained-Writing :
    (first : ℕ) (w : MultipartWriter) (xs : List ℕ)
    → Writing first w xs
    → Writing first (drained w) xs
drained-Writing first w xs v = record {
  kept = drained-Kept first w xs v.kept;
  room = v.room;
  full = v.full;
  not_finishing = v.not_finishing;
}

poll_write-AfterWrite :
    (first : ℕ) (a : Answer) (w : MultipartWriter) (xs buf : List ℕ)
    → Writing first w xs
    → AfterWrite first xs buf (poll_write a buf w)
unfolding poll_write
poll_write-AfterWrite first a w xs buf v = elim (poll_pending-cases a w) [
  | inl e ↦ rw e v
  | inr (inl e) ↦ rw e (accept-AfterWrite first (drained w) xs buf (drained-Writing first w xs v))
  | inr (inr (t, e)) ↦ rw e tt
]

abbrev AfterFlush : ℕ → List ℕ → MultipartWriter × Poll (Unit {0}) → Type 0
AfterFlush first xs (w, waits) = Writing first w xs
AfterFlush first xs (w, ok u) = Writing first w xs
AfterFlush first xs (w, err e) = Unit {0}

poll_flush-AfterFlush :
    (first : ℕ) (a : Answer) (w : MultipartWriter) (xs : List ℕ)
    → Writing first w xs
    → AfterFlush first xs (poll_flush a w)
unfolding poll_flush
poll_flush-AfterFlush first a w xs v = elim (poll_pending-cases a w) [
  | inl e ↦ rw e v
  | inr (inl e) ↦ rw e (drained-Writing first w xs v)
  | inr (inr (t, e)) ↦ rw e tt
]

new-Writing :
    (first : ℕ) (finish : Bool) (note : Text)
    → first ≤ max_parts + 1
    → Writing first (new first finish note) []
unfolding new
new-Writing first finish note h = record {
  kept = record { whole = refl; numbered = tt; next_part = omega arith; bounded = h; sizes = tt };
  room = omega arith;
  full = tt;
  not_finishing = refl;
}

pub Run-Writing :
    (first : ℕ) (finish : Bool) (note : Text) (w : MultipartWriter) (xs : List ℕ)
    → Run first finish note w xs
    → Writing first w xs
Run-Writing first finish note _ _ (opened h) = new-Writing first finish note h
Run-Writing first finish note _ _ (wrote {w} {w'} {xs} a buf r e) =
    subst (AfterWrite first xs buf) e
      (poll_write-AfterWrite first a w xs buf (Run-Writing first finish note w xs r))
Run-Writing first finish note _ _ (not_written {w} {w'} {xs} a buf r e) =
    subst (AfterWrite first xs buf) e
      (poll_write-AfterWrite first a w xs buf (Run-Writing first finish note w xs r))
Run-Writing first finish note _ _ (flushed {w} {w'} {xs} a r e) =
    subst (AfterFlush first xs) e
      (poll_flush-AfterFlush first a w xs (Run-Writing first finish note w xs r))
Run-Writing first finish note _ _ (not_flushed {w} {w'} {xs} a r e) =
    subst (AfterFlush first xs) e
      (poll_flush-AfterFlush first a w xs (Run-Writing first finish note w xs r))
