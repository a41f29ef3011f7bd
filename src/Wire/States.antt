-- ===== src/Wire/States.antt =====
-- The monetary state as bytes in integration001/src/wire.rs: `put_state`, `take_state` and the
-- snapshots of cells.
pub mod RoundTrip
use avangard.Prelude.{
  ℕ, zero, suc, not, List, [], ◌∷◌, ◌++◌, bytes_eq, length, map, Result, ok, err, ◌>>=◌, ◌>>◌,
  reject_if, if◌then◌else◌,
}
use avangard.Prelude.Assoc.{Eq, Map, bytes_has_eq}
use avangard.Prelude.Tree.{Lt, contains, tree_insert, bytes_has_lt}
use avangard.Store.Types.{Digest}
use avangard.Model.Types.{
  CellRef, Cell, ApplyReceipt, State, cell_ref_eq, cell_ref_has_eq, cell_ref_has_lt,
}
use avangard.Wire.Codec.{
  WireError, Take, ◌then_take◌, pure_take, fail_take, put_bounded_count, put_all,
  take_bounded_count, finish_encoder, decode_exact, max_collection_len, live_key_mismatch,
  applied_key_mismatch, duplicate_live, duplicate_spent, duplicate_known_id, duplicate_applied,
  duplicate_snapshot_cell,
}
use avangard.Wire.Messages.{
  take_digest, put_cell_ref, take_cell_ref, put_cell, take_cell, put_apply_receipt,
  take_apply_receipt,
}

-- `Encoder::count` and a loop over a collection
unfoldable pub put_collection {ℓ} :
    {A : Type ℓ} → (A → Result WireError (List ℕ)) → List A → Result WireError (List ℕ)
put_collection put values = do
  count ← put_bounded_count (length values) max_collection_len
  bytes ← put_all put values
  ok (count ++ bytes)

-- A loop that inserts what it reads, and fails on a key that is there.
module _ {ℓ κ} {K : Type ℓ} {V : Type κ} ⦃e : Eq K⦄ ⦃o : Lt K⦄ where
  unfoldable pub take_entries : Take (K × V) → WireError → Map K V → ℕ → Take (Map K V)
  take_entries item duplicate m zero = pure_take m
  take_entries item duplicate m (suc count) = item then_take λ (k, v).
      if contains k m
      then fail_take duplicate
      else take_entries item duplicate (tree_insert k v m) count

  unfoldable pub take_collection : Take (K × V) → WireError → Take (Map K V)
  take_collection item duplicate =
      take_bounded_count max_collection_len then_take take_entries item duplicate []

unfoldable pub put_live_entry : CellRef × Cell → Result WireError (List ℕ)
put_live_entry (reference, cell) = do
  reject_if (not (cell_ref_eq reference cell.reference)) live_key_mismatch
  ok (put_cell cell)

unfoldable pub take_live_entry : Take (CellRef × Cell)
take_live_entry = take_cell then_take λ cell. pure_take (cell.reference, cell)

unfoldable pub put_spent_entry : CellRef × Digest → Result WireError (List ℕ)
put_spent_entry (reference, intent) = ok (put_cell_ref reference ++ intent)

unfoldable pub take_spent_entry : Take (CellRef × Digest)
take_spent_entry = take_cell_ref then_take λ reference.
    take_digest then_take λ intent. pure_take (reference, intent)

unfoldable pub put_known_entry : Digest × Unit {0} → Result WireError (List ℕ)
put_known_entry (id, _) = ok id

unfoldable pub take_known_entry : Take (Digest × Unit {0})
take_known_entry = take_digest then_take λ id. pure_take (id, tt)

unfoldable pub put_applied_entry : Digest × ApplyReceipt → Result WireError (List ℕ)
put_applied_entry (intent, receipt) = do
  reject_if (not (bytes_eq intent receipt.intent)) applied_key_mismatch
  put_apply_receipt receipt

unfoldable pub take_applied_entry : Take (Digest × ApplyReceipt)
take_applied_entry = take_apply_receipt then_take λ receipt. pure_take (receipt.intent, receipt)

unfoldable pub put_state : State → Result WireError (List ℕ)
put_state state = do
  live ← put_collection put_live_entry state.live
  spent ← put_collection put_spent_entry state.spent_by
  known ← put_collection put_known_entry state.known_ids
  entries ← put_collection put_applied_entry state.applied
  ok (live ++ (spent ++ (known ++ entries)))

unfoldable pub take_state : Take State
take_state = take_collection take_live_entry duplicate_live then_take λ live.
    take_collection take_spent_entry duplicate_spent then_take λ spent_by.
    take_collection take_known_entry duplicate_known_id then_take λ known_ids.
    take_collection take_applied_entry duplicate_applied then_take λ applied.
    pure_take
      (record { live = live; spent_by = spent_by; known_ids = known_ids; applied = applied })

unfoldable pub encode_state : State → Result WireError (List ℕ)
encode_state state = finish_encoder (put_state state)

unfoldable pub decode_state : List ℕ → Result WireError State
decode_state bytes = decode_exact take_state bytes

-- Snapshots: the references so far are kept to find a second cell with one of them.
unfoldable pub put_snapshot_cells : Map CellRef (Unit {0}) → List Cell → Result WireError (List ℕ)
put_snapshot_cells references [] = ok []
put_snapshot_cells references (cell ∷ cells) = do
  reject_if (contains cell.reference references) duplicate_snapshot_cell
  rest ← put_snapshot_cells (tree_insert cell.reference tt references) cells
  ok (put_cell cell ++ rest)

unfoldable pub encode_state_snapshot : List Cell → Result WireError (List ℕ)
encode_state_snapshot cells = finish_encoder (do
  count ← put_bounded_count (length cells) max_collection_len
  bytes ← put_snapshot_cells [] cells
  ok (count ++ bytes))

unfoldable pub take_snapshot_cells : Map CellRef (Unit {0}) → ℕ → Take (List Cell)
take_snapshot_cells references zero = pure_take []
take_snapshot_cells references (suc count) = take_cell then_take λ cell.
    if contains cell.reference references
    then fail_take duplicate_snapshot_cell
    else take_snapshot_cells (tree_insert cell.reference tt references) count then_take λ cells.
        pure_take (cell ∷ cells)

unfoldable pub decode_state_snapshot : List ℕ → Result WireError (List Cell)
decode_state_snapshot bytes =
    decode_exact (take_bounded_count max_collection_len then_take take_snapshot_cells []) bytes
