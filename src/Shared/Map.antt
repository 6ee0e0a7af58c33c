-- ===== src/Shared/Map.antt =====
-- `BTreeMap<u64, V>`, and `HashMap<u64, V>` where its order is not read: an association list in
-- ascending order of its keys.
use Prim.Native.Nat.{ℕ, ◌+◌, ◌<◌, ◌≤◌}
use mathlib.Core.Path.{◌≡◌, refl}
use mathlib.Core.Bool.{Bool, true, false}
use mathlib.Core.Option.{Option, none, some}
use mathlib.Core.List.{List, [], ◌∷◌}
use native.Mathlib.Omega.{arith}
use term_connect.Shared.Tests.{ltb, ◌==◌, if◌then◌else◌}

abbrev pub Map {ℓ} : Type ℓ → Type ℓ
Map V = List (ℕ × V)

module _ {ℓ} {V : Type ℓ} where
  unfoldable pub get : Map V → ℕ → Option V
  get [] k = none
  get ((j, v) ∷ m) k = if j == k then some v else get m k

  unfoldable pub insert : ℕ → V → Map V → Map V
  insert k v [] = (k, v) ∷ []
  insert k v ((j, w) ∷ m) =
      let rest = insert k v m in
      if ltb k j then (k, v) ∷ (j, w) ∷ m else if j == k then (k, v) ∷ m else (j, w) ∷ rest

  unfoldable pub remove : ℕ → Map V → Map V
  remove k [] = []
  remove k ((j, v) ∷ m) = let rest = remove k m in if j == k then rest else (j, v) ∷ rest

  abbrev pub keys : Map V → List ℕ
  keys [] = []
  keys ((j, v) ∷ m) = j ∷ keys m

  abbrev pub values : Map V → List V
  values [] = []
  values ((j, v) ∷ m) = v ∷ values m

  abbrev pub is_some : Option V → Bool
  is_some none = false
  is_some (some v) = true

  pub get-insert :
      (m : Map V) (k j : ℕ) (v : V) → get (insert k v m) j ≡ (if k == j then some v else get m j)
  unfolding get insert
  get-insert [] k j v = refl
  get-insert ((i, w) ∷ m) k j v = ground (arith, get-insert m k j v)

  pub get-remove : (m : Map V) (k j : ℕ) → get (remove k m) j ≡ (if k == j then none else get m j)
  unfolding get remove
  get-remove [] k j = ground arith
  get-remove ((i, w) ∷ m) k j = ground (arith, get-remove m k j)

  -- Every key lies above `k`.
  abbrev pub Above : ℕ → Map V → Type 0
  Above k [] = Unit {0}
  Above k ((j, v) ∷ m) = (k < j) × Above k m

  abbrev pub IsSorted : Map V → Type 0
  IsSorted [] = Unit {0}
  IsSorted ((j, v) ∷ m) = Above j m × IsSorted m

  -- The sum of a weight over the entries.
  abbrev pub total : (ℕ → V → ℕ) → Map V → ℕ
  total f [] = 0
  total f ((j, v) ∷ m) = f j v + total f m

  abbrev pub weight : (ℕ → V → ℕ) → ℕ → Option V → ℕ
  weight f k none = 0
  weight f k (some v) = f k v

  Above-trans : (k j : ℕ) (m : Map V) → k < j → Above j m → Above k m
  Above-trans k j [] h a = tt
  Above-trans k j ((i, v) ∷ m) h a = (omega arith, Above-trans k j m h a.1)

  pub get-Above : (k j : ℕ) (m : Map V) → j ≤ k → Above k m → get m j ≡ none
  unfolding get
  get-Above k j [] h a = refl
  get-Above k j ((i, v) ∷ m) h a = ground (arith, get-Above k j m h a.1)

  Above-insert : (i k : ℕ) (v : V) (m : Map V) → i < k → Above i m → Above i (insert k v m)
  unfolding insert
  Above-insert i k v [] h a = (h, tt)
  Above-insert i k v ((j, w) ∷ m) h a = ground (arith, Above-insert i k v m h a.1)

  pub insert-IsSorted : (k : ℕ) (v : V) (m : Map V) → IsSorted m → IsSorted (insert k v m)
  unfolding insert
  insert-IsSorted k v [] s = (tt, tt)
  insert-IsSorted k v ((j, w) ∷ m) s =
      ground (arith, insert-IsSorted k v m s.1, Above-insert j k v m, Above-trans k j m)

  Above-remove : (i k : ℕ) (m : Map V) → Above i m → Above i (remove k m)
  unfolding remove
  Above-remove i k [] a = tt
  Above-remove i k ((j, w) ∷ m) a = ground (arith, Above-remove i k m a.1)

  pub remove-IsSorted : (k : ℕ) (m : Map V) → IsSorted m → IsSorted (remove k m)
  unfolding remove
  remove-IsSorted k [] s = tt
  remove-IsSorted k ((j, w) ∷ m) s = ground (arith, remove-IsSorted k m s.1, Above-remove j k m s.0)

  -- A write changes a sum by the difference of the weights.
  pub total-insert :
      (f : ℕ → V → ℕ) (k : ℕ) (v : V) (m : Map V)
      → IsSorted m
      → total f (insert k v m) + weight f k (get m k) ≡ total f m + f k v
  unfolding insert get
  total-insert f k v [] s = omega arith
  total-insert f k v ((j, w) ∷ m) s = ground (arith, total-insert f k v m s.1, get-Above j k m)

  remove-Above : (k : ℕ) (m : Map V) → Above k m → remove k m ≡ m
  unfolding remove
  remove-Above k [] a = refl
  remove-Above k ((j, v) ∷ m) a = ground (arith, remove-Above k m a.1)

  pub total-remove :
      (f : ℕ → V → ℕ) (k : ℕ) (m : Map V)
      → IsSorted m
      → total f (remove k m) + weight f k (get m k) ≡ total f m
  unfolding remove get
  total-remove f k [] s = omega arith
  total-remove f k ((j, w) ∷ m) s =
      ground (arith, total-remove f k m s.1, remove-Above j m s.0, get-Above j j m)
