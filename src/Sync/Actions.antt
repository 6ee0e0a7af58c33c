-- ===== src/Sync/Actions.antt =====
-- `allowed_actions`, `allows`, `next_action` and `action_after`, and that `compare` proposes only what
-- is allowed.
use Prim.Native.Nat.{ℕ, zero, suc, ◌+◌, ◌%◌, ◌<◌}
use mathlib.Core.Path.{◌≡◌, refl}
use mathlib.Core.Bool.{Bool, true, false, not, ◌&&◌}
use mathlib.Core.List.{List, [], ◌∷◌, ◌++◌}
use mathlib.Core.Option.{Option, none, some}
use mathlib.Core.Logic.{inl, inr}
use native.Mathlib.Omega.{arith}
use native.Mathlib.Nat.{mod-lt}
use term_connect.Shared.{if◌then◌else◌, length, get_elem?, any, All, Bool-cases, Option-cases}
use term_connect.Shared.Map.{is_some}
use term_connect.Sync.Paths.{FilePath, below_any, lookup_path}
use term_connect.Sync.Compare.{
  SyncDirection, local_to_remote, remote_to_local, SyncOptions, SyncAction, upload, download, skip,
  SyncReason, kind_mismatch, SyncItem, TreeEntry, Tree, Verdict, verdict_for, is_mismatch,
  push_item, item_of, compare_paths, compare, validate, u32_mod,
}

unfoldable pub same_action : SyncAction → SyncAction → Bool
same_action upload upload = true
same_action download download = true
same_action skip skip = true
same_action _ _ = false

unfoldable pub takes_upload : SyncDirection → Bool
takes_upload remote_to_local = false
takes_upload _ = true

unfoldable pub takes_download : SyncDirection → Bool
takes_download local_to_remote = false
takes_download _ = true

two_actions : Bool → Bool → List SyncAction
two_actions up down =
    skip ∷ (if up then upload ∷ [] else []) ++ (if down then download ∷ [] else [])

allowed_for : SyncReason → Bool → Bool → SyncDirection → List SyncAction
allowed_for kind_mismatch on_local on_remote direction = skip ∷ []
allowed_for _ on_local on_remote direction =
    two_actions (on_local && takes_upload direction) (on_remote && takes_download direction)

unfoldable pub allowed_actions : SyncItem → SyncDirection → List SyncAction
unfolding allowed_for two_actions takes_upload takes_download
allowed_actions i direction = allowed_for i.reason (is_some i.local) (is_some i.remote) direction

unfoldable pub allows : SyncItem → SyncAction → SyncDirection → Bool
unfolding allowed_actions same_action
allows i action direction = any (λ a. same_action a action) (allowed_actions i direction)

-- `iter().position(…)`
unfoldable pub position : SyncAction → List SyncAction → Option ℕ
unfolding same_action
position action [] = none
position action (a ∷ as') =
    if same_action a action
    then some 0
    else (elim (position action as') [ none ↦ none | some n ↦ some (n + 1) ])

-- An index out of range is a panic: `none`.
unfoldable pub action_in : List SyncAction → SyncAction → Option SyncAction
unfolding position
action_in allowed current = elim (position current allowed) [
  | none ↦ some skip
  | some n ↦ get_elem? allowed ((n + 1) % length allowed)
]

unfoldable pub action_after : SyncItem → SyncAction → SyncDirection → Option SyncAction
unfolding action_in
action_after i current direction = action_in (allowed_actions i direction) current

unfoldable pub next_action : SyncItem → SyncDirection → Option SyncAction
unfolding action_after
next_action i direction = action_after i i.action direction

same_action_refl : (a : SyncAction) → same_action a a ≡ true
unfolding same_action
same_action_refl upload = refl
same_action_refl _ = refl

get_elem?-any :
    (as' : List SyncAction) (n : ℕ)
    → n < length as'
    → (a : SyncAction) × (get_elem? as' n ≡ some a) × (any (λ b. same_action b a) as' ≡ true)
get_elem?-any [] n h = absurd (omega arith)
get_elem?-any (a ∷ as') zero h = (a, refl, rw same_action_refl)
get_elem?-any (b ∷ as') (suc n) h =
    let (a, e, f) = get_elem?-any as' n (omega arith) in (a, e, ground (arith, f))

skip_first :
    (i : SyncItem) (direction : SyncDirection)
    → (as' : List SyncAction) × (allowed_actions i direction ≡ skip ∷ as')
unfolding allowed_actions
skip_first i direction = go i.reason
  where
    go :
        (reason : SyncReason)
        → (as' : List SyncAction) × (allowed_for reason
              (is_some i.local)
              (is_some i.remote)
              direction
            ≡ skip ∷ as')
    go kind_mismatch = ([], refl)
    go _ = (_, refl)

any-action_in :
    (as' : List SyncAction) (current : SyncAction)
    → (a : SyncAction) × (action_in (skip ∷ as') current ≡ some a)
      × (any (λ b. same_action b a) (skip ∷ as') ≡ true)
unfolding action_in
any-action_in as' current = elim (Option-cases (position current (skip ∷ as'))) [
  | inl p ↦ (skip, rw (p, action_in), unfold same_action in refl)
  | inr (n, p) ↦
      rw (p, action_in)
        (get_elem?-any (skip ∷ as') ((n + 1) % length (skip ∷ as')) (mod-lt (n + 1) (omega arith)))
]

-- Flipping an item never panics, and always gives an action that is allowed.
pub allows-action_after :
    (i : SyncItem) (current : SyncAction) (direction : SyncDirection)
    → (a : SyncAction) × (action_after i current direction ≡ some a) × (allows i a direction ≡ true)
unfolding action_after allows
allows-action_after i current direction =
    let (as', e) = skip_first i direction in rw e (any-action_in as' current)

-- What one path adds is allowed by the direction.
both_sides-allows :
    (count : ℕ) (path : FilePath) (l r : TreeEntry) (o : SyncOptions) (tolerance : ℕ) (keeps : Bool)
    (v : Verdict)
    → verdict_for (some l) (some r) o tolerance keeps ≡ some v
    → allows (item_of count path (some l) (some r) v) v.action o.direction ≡ true
unfolding verdict_for allows item_of
both_sides-allows count path l r o tolerance keeps v e = ground arith

item_of-allows :
    (count : ℕ) (path : FilePath) (l r : Option TreeEntry) (o : SyncOptions) (tolerance : ℕ)
    (keeps : Bool) (v : Verdict)
    → verdict_for l r o tolerance keeps ≡ some v
    → allows (item_of count path l r v) v.action o.direction ≡ true
unfolding verdict_for allows item_of
item_of-allows count path (some l) (some r) o tolerance keeps v e =
    both_sides-allows count path l r o tolerance keeps v e
item_of-allows count path (some l) none o tolerance keeps v e = ground arith
item_of-allows count path none (some r) o tolerance keeps v e = ground arith
item_of-allows count path none none o tolerance keeps v e = cc

-- A proposed item: its action is allowed, and it is ticked exactly if it copies something.
pub record Proposed (direction : SyncDirection) (i : SyncItem) : Type 0 where
  pub allowed : allows i i.action direction ≡ true
  pub ticked : i.ticked ≡ not (same_action i.action skip)

verdict_ticked :
    (l r : Option TreeEntry) (o : SyncOptions) (tolerance : ℕ) (keeps : Bool) (v : Verdict)
    → verdict_for l r o tolerance keeps ≡ some v
    → v.ticked ≡ not (same_action v.action skip)
unfolding verdict_for same_action
verdict_ticked (some l) (some r) o tolerance keeps v e = ground arith
verdict_ticked (some l) none o tolerance keeps v e = ground arith
verdict_ticked none (some r) o tolerance keeps v e = ground arith
verdict_ticked none none o tolerance keeps v e = cc

All-append_item :
    (P : SyncItem → Type 0) (items : List SyncItem) (i : SyncItem)
    → All P items
    → P i
    → All P (items ++ i ∷ [])
All-append_item P [] i a p = (p, tt)
All-append_item P (j ∷ items) i a p = (a.0, All-append_item P items i a.1 p)

push_item-Proposed :
    (items : List SyncItem) (path : FilePath) (l r : Option TreeEntry) (o : SyncOptions)
    (tolerance : ℕ) (keeps : Bool) (found : Option Verdict)
    → verdict_for l r o tolerance keeps ≡ found
    → All (Proposed o.direction) items
    → All (Proposed o.direction) (push_item items path l r found)
unfolding push_item
push_item-Proposed items path l r o tolerance keeps none e a = a
push_item-Proposed items path l r o tolerance keeps (some v) e a =
    All-append_item (Proposed o.direction) items (item_of (length items) path l r v) a (record {
      allowed = unfold item_of in item_of-allows (length items) path l r o tolerance keeps v e;
      ticked = unfold item_of in verdict_ticked l r o tolerance keeps v e;
    })

compare_paths-Proposed :
    (local remote : Tree) (o : SyncOptions) (tolerance : ℕ) (keeps : Bool)
    (mismatched : List FilePath) (items : List SyncItem) (paths : List FilePath)
    → All (Proposed o.direction) items
    → All
        (Proposed o.direction)
        (compare_paths local remote o tolerance keeps mismatched items paths)
unfolding compare_paths
compare_paths-Proposed local remote o tolerance keeps mismatched items [] a = a
compare_paths-Proposed local remote o tolerance keeps mismatched items (path ∷ paths) a =
    compare_paths-Proposed local remote o tolerance keeps
      (if below_any mismatched path
        then mismatched
        else if is_mismatch (lookup_path local path) (lookup_path remote path)
        then path ∷ mismatched
        else mismatched)
      (if below_any mismatched path
        then items
        else push_item items path (lookup_path local path) (lookup_path remote path)
            (verdict_for (lookup_path local path) (lookup_path remote path) o tolerance keeps))
      paths (pushed (below_any mismatched path))
  where
    pushed :
        (below : Bool)
        → All (Proposed o.direction) (
            if below
            then items
            else push_item items path
                (lookup_path local path)
                (lookup_path remote path)
                (verdict_for (lookup_path local path) (lookup_path remote path) o tolerance keeps))
    pushed true = a
    pushed false = push_item-Proposed items path _ _ o tolerance keeps _ refl a

-- Whatever the trees, every item of a comparison proposes an action that its direction allows, so that
-- nothing is sent to a side that is not a target nor from a side that lacks it; and an item is ticked
-- exactly if its action copies.
pub compare-Proposed :
    (local remote : Tree) (o : SyncOptions) (tolerance : ℕ) (keeps : Bool)
    → All (Proposed o.direction) (compare local remote o tolerance keeps)
unfolding compare
compare-Proposed local remote o tolerance keeps = elim (Bool-cases (not (validate o))) [
  | inl e ↦ rw e tt
  | inr e ↦ rw e (compare_paths-Proposed local remote o tolerance keeps [] [] _ tt)
]

-- The ids number the items.
abbrev pub Numbered : ℕ → List SyncItem → Type 0
Numbered n [] = Unit {0}
Numbered n (i ∷ items) = (i.id ≡ n % u32_mod) × Numbered (n + 1) items

Numbered-append :
    (n : ℕ) (items : List SyncItem) (i : SyncItem)
    → Numbered n items
    → i.id ≡ (n + length items) % u32_mod
    → Numbered n (items ++ i ∷ [])
Numbered-append n [] i a e = (omega arith, tt)
Numbered-append n (j ∷ items) i a e = (a.0, Numbered-append (n + 1) items i a.1 (omega arith))

compare_paths-Numbered :
    (local remote : Tree) (o : SyncOptions) (tolerance : ℕ) (keeps : Bool)
    (mismatched : List FilePath) (items : List SyncItem) (paths : List FilePath)
    → Numbered 0 items
    → Numbered 0 (compare_paths local remote o tolerance keeps mismatched items paths)
unfolding compare_paths
compare_paths-Numbered local remote o tolerance keeps mismatched items [] a = a
compare_paths-Numbered local remote o tolerance keeps mismatched items (path ∷ paths) a =
    compare_paths-Numbered local remote o tolerance keeps
      (if below_any mismatched path
        then mismatched
        else if is_mismatch (lookup_path local path) (lookup_path remote path)
        then path ∷ mismatched
        else mismatched)
      (if below_any mismatched path
        then items
        else push_item items path (lookup_path local path) (lookup_path remote path)
            (verdict_for (lookup_path local path) (lookup_path remote path) o tolerance keeps))
      paths
      (pushed (below_any mismatched path)
        (verdict_for (lookup_path local path) (lookup_path remote path) o tolerance keeps))
  where
    pushed :
        (below : Bool) (found : Option Verdict)
        → Numbered 0 (
            if below
            then items
            else push_item items path (lookup_path local path) (lookup_path remote path) found)
    pushed true found = a
    pushed false none = unfold push_item in a
    pushed false (some v) = unfold push_item item_of in Numbered-append 0 items _ a (omega arith)

-- The items of a comparison are numbered from 0 in their order, modulo 2^32.
pub compare-Numbered :
    (local remote : Tree) (o : SyncOptions) (tolerance : ℕ) (keeps : Bool)
    → Numbered 0 (compare local remote o tolerance keeps)
unfolding compare
compare-Numbered local remote o tolerance keeps = elim (Bool-cases (not (validate o))) [
  | inl e ↦ rw e tt
  | inr e ↦ rw e (compare_paths-Numbered local remote o tolerance keeps [] [] _ tt)
]
