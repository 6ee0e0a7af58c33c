-- ===== src/Transfer/Queue/RowMoves.antt =====
-- A row that moves to another key still lists its jobs, and no other row is put out of place.
use Prim.Native.Nat.{ℕ, ◌<◌}
use mathlib.Core.Path.{◌≡◌, refl, ap, sym}
use mathlib.Core.Bool.{true, false}
use mathlib.Core.Option.{none, some, some-injective}
use mathlib.Core.List.{List, [], ◌∷◌}
use mathlib.Core.Logic.{◌⊎◌, inl, inr}
use native.Mathlib.Omega.{arith}
use term_connect.Shared.{◌==◌, if◌then◌else◌, Bool-cases}
use term_connect.Shared.Map
use term_connect.Shared.Map.{Map}
use term_connect.Shared.Set
use term_connect.Transfer.Rows.{RowKind, single, batch, scan}
use term_connect.Transfer.Queue.State.{RowCounters, TransferQueue}
use term_connect.Transfer.Queue.Index.{IsIndexed}
use term_connect.Transfer.Queue.Orders.{lists, lists-insert}
use term_connect.Transfer.Queue.Remove.{batch_points, move_row, rekey_by_order, rekey_row}
use term_connect.Transfer.Queue.Rekey.{get-point_to, order-first_shown, lists-remove}
use term_connect.Transfer.Queue.RowKeys.{IsRowed, carried-IsRowed}

placed_below :
    (q : TransferQueue) (j k : ℕ) → IsIndexed q → Map.get q.row_of j ≡ some k → j < q.next_id
placed_below q j k v e = ground (arith, v.covered j, v.fresh j, e)

batch_points_lem :
    (kind : RowKind) (key b k : ℕ) (m : Map ℕ)
    → Map.get (batch_points kind key m) b ≡ some k
    → (Map.get m b ≡ some k) ⊎ (k ≡ key)
unfolding batch_points
batch_points_lem (single id) key b k m h = inl h
batch_points_lem (scan id) key b k m h = inl h
batch_points_lem (batch c) key b k m h =
    let point : (if c == b then some key else Map.get m b) ≡ some k = rw Map.get-insert at h in
    elim (Bool-cases (c == b)) [
      | inl f ↦ inr (sym (some-injective _ _ (rw f at point)))
      | inr f ↦ inl (rw f at point)
    ]

-- The row `key`, whose own id no job has any more, lists `c.order`, which are its jobs.
module _ (q : TransferQueue) (key : ℕ) (c : RowCounters) (at : Map.get q.rows key ≡ some c)
    (mine : (j : ℕ) → Set.contains j c.order ≡ true → Map.get q.row_of j ≡ some key)
    (all : (j : ℕ) → Map.get q.row_of j ≡ some key → Set.contains j c.order ≡ true)
    (left : Map.get q.row_of key ≡ none) (v : IsIndexed q) (u : IsRowed q) where
  module _ (new_key : ℕ) (has : Set.contains new_key c.order ≡ true) where
    row_of-move_row :
        (j : ℕ)
        → Map.get (move_row q key c new_key).row_of j
          ≡ (if Set.contains j c.order then some new_key else Map.get q.row_of j)
    unfolding move_row
    row_of-move_row j = get-point_to new_key c.order q.row_of j

    lists-move_row :
        (k j : ℕ)
        → lists (move_row q key c new_key).rows k j ≡ (
            if new_key == k
            then Set.contains j c.order
            else if key == k
            then false
            else lists q.rows k j)
    unfolding move_row
    lists-move_row k j = rw (lists-insert, order-first_shown, lists-remove) refl

    move_row-IsRowed : IsRowed (move_row q key c new_key)
    unfolding move_row
    move_row-IsRowed = record {
      covered = λ k j h.
          let point : (if Set.contains j c.order then some new_key else Map.get q.row_of j)
              ≡ some k =
            rw row_of-move_row at h in
          rw lists-move_row (
            ground (arith, point, has, mine new_key, all j, u.rooted j new_key key, u.covered k j));
      rooted = λ j k r h g.
          let point : (if Set.contains j c.order then some new_key else Map.get q.row_of j)
              ≡ some k =
            rw row_of-move_row at h in
          let next : (if Set.contains k c.order then some new_key else Map.get q.row_of k)
              ≡ some r =
            rw row_of-move_row at g in
          ground (arith, point, next, has, mine k, all j, u.rooted j k key, u.rooted j k r);
      bounded = λ j k h.
          let point : (if Set.contains j c.order then some new_key else Map.get q.row_of j)
              ≡ some k =
            rw row_of-move_row at h in
          ground (arith, point, placed_below q new_key key v (mine new_key has), u.bounded j k);
      batch_rooted = λ b k r h g.
          let next : (if Set.contains k c.order then some new_key else Map.get q.row_of k)
              ≡ some r =
            rw row_of-move_row at g in
          elim (batch_points_lem c.kind new_key b k q.batch_row h) [
            | inl e ↦
                ground
                  (arith, next, has, mine k, left, u.batch_rooted b k key e, u.batch_rooted b k r e)
            | inr e ↦ ground (arith, next, has, e)
          ];
      batch_bounded = λ b k h. elim (batch_points_lem c.kind new_key b k q.batch_row h) [
        | inl e ↦ u.batch_bounded b k e
        | inr e ↦ omega (arith, e, placed_below q new_key key v (mine new_key has))
      ];
    }

  first :
      (new_key : ℕ) (ids : List ℕ) → c.order ≡ new_key ∷ ids → Set.contains new_key c.order ≡ true
  first new_key ids e = ground (arith, ap (Set.contains new_key) e)

  rekey_by_order-IsRowed :
      (ids : List ℕ)
      → c.order ≡ ids
      → IsRowed (rekey_by_order q key c ids)
        × ((j : ℕ)
            → Map.get q.row_of j ≡ none
            → Map.get (rekey_by_order q key c ids).row_of j ≡ none)
  unfolding rekey_by_order
  rekey_by_order-IsRowed [] e = (
    carried-IsRowed q _ refl
        (λ k j h before. rw lists-remove (ground (arith, before, all j, h, ap (Set.contains j) e)))
        (λ j k h. h) (λ b k h. h) u,
    λ j h. h,
  )
  rekey_by_order-IsRowed (new_key ∷ ids) e = (
    move_row-IsRowed new_key (first new_key ids e),
    λ j h. rw (row_of-move_row new_key (first new_key ids e)) (ground (arith, h, mine j)),
  )

  pub rekey_row-IsRowed :
      IsRowed (rekey_row q key)
      × ((j : ℕ) → Map.get q.row_of j ≡ none → Map.get (rekey_row q key).row_of j ≡ none)
  unfolding rekey_row
  rekey_row-IsRowed = rw (at, rekey_row) (rekey_by_order-IsRowed c.order refl)
