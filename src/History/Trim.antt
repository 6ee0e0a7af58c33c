-- ===== src/History/Trim.antt =====
-- The history never holds more than its limit, and what it forgets is the oldest.
use Prim.Native.Nat.{ℕ, zero, suc, ◌-◌, ◌≤◌}
use mathlib.Core.Path.{◌≡◌, refl}
use mathlib.Core.Bool.{true}
use mathlib.Core.List.{List, [], ◌∷◌, ◌++◌}
use mathlib.Core.Logic.{inl, inr}
use native.Mathlib.Omega.{arith}
use term_connect.Shared.{ltb, drop, length, length-append, Bool-cases}
use term_connect.Shared.Text.{Text}
use term_connect.History.Log.{HistoryEntry, History, ready, max_entries, trim, load, push}

module _ {A : Type 0} where
  length-drop : (n : ℕ) (xs : List A) → length (drop n xs) ≡ length xs - n
  length-drop zero xs = omega arith
  length-drop (suc n) [] = omega arith
  length-drop (suc n) (x ∷ xs) = omega (arith, length-drop n xs)

  drop-append : (n : ℕ) (xs ys : List A) → n ≤ length xs → drop n (xs ++ ys) ≡ drop n xs ++ ys
  drop-append zero xs ys h = refl
  drop-append (suc n) [] ys h = absurd (omega arith)
  drop-append (suc n) (x ∷ xs) ys h = drop-append n xs ys (omega arith)

-- What the history holds after a trim.
abbrev pub Trimmed : List HistoryEntry → History → Type 0
Trimmed all h = (h.entries ≡ drop (length all - max_entries) all) × (length h.entries ≤ max_entries)

trim-Trimmed : (h : History) → Trimmed h.entries (trim h)
unfolding trim
trim-Trimmed h = elim (Bool-cases (ltb 0 (length h.entries - max_entries))) [
  | inl e ↦ rw e (refl, omega (arith, length-drop (length h.entries - max_entries) h.entries))
  | inr e ↦
      let fits : length h.entries - max_entries ≡ 0 = ground (arith, e) in
      rw e (rw fits refl, omega (arith, fits))
]

-- After a push the history holds the newest entries of the old history with the new one behind it, as
-- many as the limit allows; the new one is among them, and one old entry is forgotten at most, the
-- oldest, where the history was within the limit.
pub push_lem :
    (h : History) (e : HistoryEntry)
    → length h.entries ≤ max_entries
    → (k : ℕ) × ((push h e).entries ≡ drop k h.entries ++ e ∷ [])
      × (k ≤ 1)
      × (length (push h e).entries ≤ max_entries)
      × ((push h e).writable ≡ h.writable)
unfolding push
push_lem h e fits =
    let all = h.entries ++ e ∷ [] in
    let grown = length-append h.entries (e ∷ []) in
    let (kept, bound) = trim-Trimmed (record h { entries = all }) in
    (
      length all - max_entries,
      rw kept (drop-append (length all - max_entries) h.entries (e ∷ []) (omega (arith, grown))),
      omega (arith, grown),
      bound,
      unfold trim in ground arith,
    )

-- What is loaded is within the limit, and is the newest part of the file, if the file could be read.
pub load_lem :
    (path : Text) (entries : List HistoryEntry) → Trimmed entries (load path (ready entries)).0
unfolding load
load_lem path entries = trim-Trimmed (record { path = path; entries = entries; writable = true })
