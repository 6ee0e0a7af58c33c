-- ===== src/S3/Parts.antt =====
-- What the parts of an upload are: the bytes written, in their order, numbered one after another, each
-- of the full size but the last.
use Prim.Native.Nat.{ℕ, zero, suc, ◌+◌, ◌-◌, ◌≤◌, ◌<◌, min}
use mathlib.Core.Path.{◌≡◌, refl, ap, sym, ◌∙◌}
use mathlib.Core.Bool.{true, false}
use mathlib.Core.List.{List, [], ◌∷◌, ◌++◌, append_assoc, append-nil}
use mathlib.Core.Logic.{◌⊎◌, inl, inr}
use native.Mathlib.Omega.{arith}
use term_connect.Shared.{ltb, ◌==◌, length, take, length-append, Bool-cases, All}
use term_connect.S3.Upload.{
  max_parts, part_size, Poll, waits, ok, err, MultipartWriter, start_part, accept,
}

abbrev pub joined : List (ℕ × List ℕ) → List ℕ
joined [] = []
joined ((n, bytes) ∷ ps) = bytes ++ joined ps

abbrev pub Numbered : ℕ → List (ℕ × List ℕ) → Type 0
Numbered n [] = Unit {0}
Numbered n ((k, bytes) ∷ ps) = (k ≡ n) × Numbered (n + 1) ps

abbrev pub IsFull : ℕ × List ℕ → Type 0
IsFull p = length p.1 ≡ part_size

-- Every part but the last has the full size.
abbrev pub FullButLast : List (ℕ × List ℕ) → Type 0
FullButLast [] = Unit {0}
FullButLast (p ∷ []) = Unit {0}
FullButLast (p ∷ q ∷ ps) = IsFull p × FullButLast (q ∷ ps)

-- Of a writer that took `xs` and began with the part `first`.
pub record Kept (first : ℕ) (w : MultipartWriter) (xs : List ℕ) : Type 0 where
  pub whole : joined w.parts ++ w.buffer ≡ xs
  pub numbered : Numbered first w.parts
  pub next_part : w.next ≡ first + length w.parts
  pub bounded : w.next ≤ max_parts + 1
  pub sizes : FullButLast w.parts

joined-append :
    (ps : List (ℕ × List ℕ)) (n : ℕ) (bytes : List ℕ)
    → joined (ps ++ (n, bytes) ∷ []) ≡ joined ps ++ bytes
joined-append [] n bytes = append-nil bytes
joined-append ((k, b) ∷ ps) n bytes =
    ap (λ (t : List ℕ). b ++ t) (joined-append ps n bytes) ∙ sym (append_assoc b (joined ps) bytes)

Numbered-append :
    (first : ℕ) (ps : List (ℕ × List ℕ)) (n : ℕ) (bytes : List ℕ)
    → Numbered first ps
    → n ≡ first + length ps
    → Numbered first (ps ++ (n, bytes) ∷ [])
Numbered-append first [] n bytes h e = (omega (arith, e), tt)
Numbered-append first ((k, b) ∷ ps) n bytes h e =
    (h.0, Numbered-append (first + 1) ps n bytes h.1 (omega (arith, e)))

FullButLast-append :
    (ps : List (ℕ × List ℕ)) (p : ℕ × List ℕ) → All IsFull ps → FullButLast (ps ++ p ∷ [])
FullButLast-append [] p h = tt
FullButLast-append (q ∷ []) p h = (h.0, tt)
FullButLast-append (q ∷ r ∷ ps) p h = (h.0, FullButLast-append (r ∷ ps) p h.1)

All-append :
    (ps : List (ℕ × List ℕ)) (p : ℕ × List ℕ) → All IsFull ps → IsFull p → All IsFull (ps ++ p ∷ [])
All-append [] p h k = (k, tt)
All-append (q ∷ ps) p h k = (h.0, All-append ps p h.1 k)

-- The writer after a part is started.
abbrev pub begun : MultipartWriter → MultipartWriter
begun w = record w {
  parts = w.parts ++ (w.next, w.buffer) ∷ [];
  buffer = [];
  pending = true;
  next = w.next + 1;
  sent = true;
}

pub start_part-cases :
    (w : MultipartWriter)
    → (start_part w ≡ (w, err w.too_large))
      ⊎ ((w.next ≤ max_parts) × (start_part w ≡ (begun w, ok tt)))
unfolding start_part
start_part-cases w = elim (Bool-cases (ltb max_parts w.next)) [
  | inl e ↦ inl (rw e refl)
  | inr e ↦ inr (ground (arith, e), rw e refl)
]

pub begun-Kept :
    (first : ℕ) (w : MultipartWriter) (xs : List ℕ)
    → Kept first w xs
    → w.next ≤ max_parts
    → All IsFull w.parts
    → Kept first (begun w) xs
begun-Kept first w xs k room full = record {
  whole = append-nil _ ∙ joined-append w.parts w.next w.buffer ∙ k.whole;
  numbered = Numbered-append first w.parts w.next w.buffer k.numbered k.next_part;
  next_part = omega (arith, k.next_part, length-append w.parts ((w.next, w.buffer) ∷ []));
  bounded = omega (arith, room);
  sizes = FullButLast-append w.parts (w.next, w.buffer) full;
}

-- Of a writer that still takes bytes: its buffer has room, and all its parts are full.
pub record Writing (first : ℕ) (w : MultipartWriter) (xs : List ℕ) : Type 0 where
  pub kept : Kept first w xs
  pub room : length w.buffer < part_size
  pub full : All IsFull w.parts
  pub not_finishing : w.finishing ≡ false

abbrev pub AfterWrite : ℕ → List ℕ → List ℕ → MultipartWriter × Poll ℕ → Type 0
AfterWrite first xs buf (w, waits) = Writing first w xs
AfterWrite first xs buf (w, ok n) = Writing first w (xs ++ take n buf)
AfterWrite first xs buf (w, err e) = Unit {0}

length-take : (n : ℕ) (xs : List ℕ) → n ≤ length xs → length (take n xs) ≡ n
length-take zero xs h = refl
length-take (suc n) [] h = absurd (omega arith)
length-take (suc n) (x ∷ xs) h = omega (arith, length-take n xs (omega arith))

module _ (first : ℕ) (w : MultipartWriter) (xs buf : List ℕ) (v : Writing first w xs) where
  abbrev accepted : ℕ
  accepted = min (length buf) (part_size - length w.buffer)

  abbrev filled : MultipartWriter
  filled = record w { buffer = w.buffer ++ take accepted buf }

  length-filled : length filled.buffer ≡ length w.buffer + accepted
  length-filled =
      omega
        (arith, length-append w.buffer (take accepted buf), length-take accepted buf (omega arith))

  filled-Kept : Kept first filled (xs ++ take accepted buf)
  filled-Kept = record {
    whole =
        sym (append_assoc (joined w.parts) w.buffer (take accepted buf))
        ∙ ap (λ (t : List ℕ). t ++ take accepted buf) v.kept.whole;
    numbered = v.kept.numbered;
    next_part = v.kept.next_part;
    bounded = v.kept.bounded;
    sizes = v.kept.sizes;
  }

  pub accept-AfterWrite : AfterWrite first xs buf (accept buf w)
  unfolding accept
  accept-AfterWrite = elim (Bool-cases (length filled.buffer == part_size)) [
    | inl e ↦ elim (start_part-cases filled) [
      | inl f ↦ rw e (rw f tt)
      | inr (small, f) ↦
          let whole_part : length filled.buffer ≡ part_size = ground (arith, e) in
          rw e (
            rw f (record {
              kept = begun-Kept first filled (xs ++ take accepted buf) filled-Kept small v.full;
              room = omega arith;
              full = All-append w.parts (w.next, filled.buffer) v.full whole_part;
              not_finishing = v.not_finishing;
            }))
    ]
    | inr e ↦
        let part_left : (length filled.buffer == part_size) ≡ false = e in
        rw e (record {
          kept = filled-Kept;
          room = ground (arith, part_left, length-filled, v.room);
          full = v.full;
          not_finishing = v.not_finishing;
        })
  ]
