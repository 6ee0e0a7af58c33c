-- ===== src/Transfer/Conflicts/UniqueName.antt =====
-- A name that is not taken: the name with a number before its extension. The code counts without end;
-- here a try for each taken name and one more are enough, as the theorem below shows.
use Prim.Native.Nat.{ℕ, zero, suc, ◌+◌, ◌*◌, ◌/◌, ◌%◌, ◌-◌, ◌≤◌, ◌<◌}
use mathlib.Core.Path.{◌≡◌, refl, sym, ap, ◌∙◌}
use mathlib.Core.Bool.{true, false}
use mathlib.Core.Option.{Option, none, some}
use mathlib.Core.List.{
  [], ◌∷◌, ◌++◌, reverse, reverse-reverse, append_cancel_left, append_cancel_right,
}
use mathlib.Core.Logic.{◌≢◌, inl, inr}
use native.Mathlib.Omega.{arith}
use term_connect.Shared.{◌==◌, ltb, if◌then◌else◌, length, Bool-cases, dec_lt}
use term_connect.Shared.Text.{Text, lit, text_eq}
use term_connect.Transfer.Plan.{Names, has_name}

-- The name in front of its last dot, and from that dot on.
at_last_dot : Text → Option (Text × Text)
at_last_dot [] = none
at_last_dot (c ∷ s) = elim (at_last_dot s) [
  | some (before, behind) ↦ some (c ∷ before, behind)
  | none ↦ if c == b'.' then some ([], c ∷ s) else none
]

split_at : Text → Option (Text × Text) → Text × Text
split_at name none = (name, [])
split_at name (some ([], behind)) = (name, [])
split_at name (some (c ∷ before, behind)) = (c ∷ before, behind)

unfoldable pub split_extension : Text → Text × Text
unfolding at_last_dot split_at
split_extension name = split_at name (at_last_dot name)

-- The digits of a number, the last one first.
digits : ℕ → ℕ → Text
digits zero n = []
digits (suc fuel) n =
    let rest = digits fuel (n / 10) in if ltb n 10 then (b'0' + n) ∷ [] else (b'0' + n % 10) ∷ rest

unfoldable pub decimal : ℕ → Text
unfolding digits
decimal n = reverse (digits (suc n) n)

unfoldable pub numbered : Text → ℕ → Text
numbered name counter =
    let (stem, extension) = split_extension name in
    stem ++ (lit " (" ++ (decimal counter ++ (lit ")" ++ extension)))

find_free : ℕ → Text → Names → ℕ → Option Text
find_free zero name taken counter = none
find_free (suc fuel) name taken counter =
    let rest = find_free fuel name taken (suc counter) in
    if has_name (numbered name counter) taken then rest else some (numbered name counter)

or_else : Text → Option Text → Text
or_else name none = name
or_else name (some found) = found

unfoldable pub unique_name : Text → Names → Text
unfolding find_free or_else
unique_name name taken = or_else name (find_free (suc (length taken)) name taken 1)

value : Text → ℕ
value [] = 0
value (d ∷ ds) = (d - b'0') + 10 * value ds

value-digits : (fuel n : ℕ) → n < fuel → value (digits fuel n) ≡ n
unfolding digits value
value-digits zero n h = absurd (omega arith)
value-digits (suc fuel) n h = elim (Bool-cases (ltb n 10)) [
  | inl e ↦ rw e (omega arith)
  | inr e ↦
      let big : 10 ≤ n = ground (arith, e) in
      let ih = value-digits fuel (n / 10) (omega arith) in rw e (omega (arith, ih))
]

decimal-inj : (m n : ℕ) → decimal m ≡ decimal n → m ≡ n
unfolding decimal
decimal-inj m n e =
    let same : digits (suc m) m ≡ digits (suc n) n =
      sym (reverse-reverse _) ∙ ap reverse e ∙ reverse-reverse _ in
    sym (value-digits (suc m) m (omega arith))
    ∙ ap value same
    ∙ value-digits (suc n) n (omega arith)

numbered-inj : (name : Text) (m n : ℕ) → numbered name m ≡ numbered name n → m ≡ n
unfolding numbered
numbered-inj name m n e =
    let (stem, extension) = split_extension name in
    decimal-inj m n (
      append_cancel_right _ _ (lit ")" ++ extension)
        (append_cancel_left (lit " (") _ _ (append_cancel_left stem _ _ e)))

text_eq→eq : (s t : Text) → text_eq s t ≡ true → s ≡ t
text_eq→eq [] [] h = refl
text_eq→eq [] (b ∷ t) h = ground arith
text_eq→eq (a ∷ s) [] h = ground arith
text_eq→eq (a ∷ s) (b ∷ t) h =
    let same : a ≡ b = ground (arith, h) in let rest = text_eq→eq s t (ground (arith, h)) in cc

remove_name : Text → Names → Names
remove_name n [] = []
remove_name n (x ∷ ts) = let rest = remove_name n ts in if text_eq n x then ts else x ∷ rest

length-remove_name :
    (n : Text) (ts : Names) → has_name n ts ≡ true → length (remove_name n ts) + 1 ≡ length ts
unfolding remove_name
length-remove_name n [] h = ground arith
length-remove_name n (x ∷ ts) h = ground (arith, length-remove_name n ts)

has_name-remove_name :
    (m n : Text) (ts : Names) → m ≢ n → has_name m ts ≡ true → has_name m (remove_name n ts) ≡ true
unfolding remove_name
has_name-remove_name m n [] d h = h
has_name-remove_name m n (x ∷ ts) d h = elim (Bool-cases (text_eq n x)) [
  | inl e ↦ elim (Bool-cases (text_eq m x)) [
    | inl f ↦ absurd (d (text_eq→eq m x f ∙ sym (text_eq→eq n x e)))
    | inr f ↦ ground (arith, e, f, h)
  ]
  | inr e ↦ elim (Bool-cases (text_eq m x)) [
    | inl f ↦ ground (arith, e, f)
    | inr f ↦
        let ih = has_name-remove_name m n ts d (ground (arith, f, h)) in ground (arith, e, f, ih)
  ]
]

-- The first number, from the given one on, whose name is not taken.
abbrev pub FirstFree : Text → Names → ℕ → ℕ → Type 0
FirstFree name taken counter k =
    (counter ≤ k)
    × (has_name (numbered name k) taken ≡ false)
    × ((j : ℕ) → counter ≤ j → j < k → has_name (numbered name j) taken ≡ true)

find_free-FirstFree :
    (name : Text) (taken ts : Names) (fuel counter : ℕ)
    → length ts < fuel
    → ((j : ℕ)
        → counter ≤ j
        → has_name (numbered name j) taken ≡ true
        → has_name (numbered name j) ts ≡ true)
    → (k : ℕ) × (k < counter + fuel)
      × (find_free fuel name taken counter ≡ some (numbered name k))
      × FirstFree name taken counter k
unfolding find_free
find_free-FirstFree name taken ts zero counter h covers = absurd (omega arith)
find_free-FirstFree name taken ts (suc fuel) counter h covers =
    elim (Bool-cases (has_name (numbered name counter) taken)) [
      | inr e ↦ (counter, omega arith, rw e refl, (omega arith, e, λ j a b. absurd (omega arith)))
      | inl e ↦
          let here = numbered name counter in
          let shorter = length-remove_name here ts (covers counter (omega arith) e) in
          let (k, below, found, (above, free, full)) =
            find_free-FirstFree name taken (remove_name here ts) fuel (suc counter) (omega arith)
              (λ j a b.
                has_name-remove_name _ here ts
                  (λ q. let same = numbered-inj name j counter q in omega (arith, same))
                  (covers j (omega arith) b)) in
          (
            k,
            omega (arith, below),
            rw e found,
            (
              omega (arith, above),
              free,
              λ j a b. elim (dec_lt counter j) [
                | yes c ↦ full j (omega arith) b
                | no c ↦ let same : j ≡ counter = omega arith in rw same e
              ],
            ),
          )
    ]

-- The name that is found is not taken, it is the old name with a number, and that number is the least
-- one from 1 on that gives a free name; it is at most one more than the number of taken names.
pub unique_name_lem :
    (name : Text) (taken : Names)
    → (k : ℕ) × (k ≤ length taken + 1)
      × (unique_name name taken ≡ numbered name k)
      × FirstFree name taken 1 k
unfolding unique_name or_else
unique_name_lem name taken =
    let (k, below, found, first) =
      find_free-FirstFree name taken taken (suc (length taken)) 1 (omega arith) (λ j a b. b) in
    (k, omega (arith, below), rw found refl, first)
