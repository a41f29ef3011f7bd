-- ===== src/Node/Shape.antt =====
-- The checks on states in integration001/src/node.rs: `validate_state_shape`, `validate_pure_genesis`,
-- `reconcile_state_with_wal`, and `genesis_activation_digest`.
use avangard.Prelude.{
  ℕ, ◌==◌, not, ◌&&◌, ◌||◌, Bool, true, false, List, [], ◌∷◌, ◌++◌, bytes_eq, length, Result, ok,
  err, ◌>>=◌, ◌>>◌, reject_if, ok_or,
}
use avangard.Prelude.Bytes.{le_bytes}
use avangard.Prelude.Assoc.{Map, bytes_has_eq}
use avangard.Prelude.Tree.{contains, tree_insert, bytes_has_lt}
use avangard.Store.Types.{Digest, Error, WalStore}
use avangard.Store.Queries.{applied_record, applied_count}
use avangard.Model.Types.{
  CellRef, Cell, ApplyReceipt, State, Keys, ModelError, cell_ref_eq, cell_ref_has_eq, zero_digest,
  hash_domain,
}
use avangard.Model.Transaction.{validate_cell}
use avangard.Model.Ledger.{validate}
use avangard.Wire.Codec.{WireError}

-- The messages that the file returns in `Err`, and those it passes on.
pub data NodeError : Type 0 where
  -- passed on
  model_error : ModelError → NodeError
  wire_error : WireError → NodeError
  store_error : Error → NodeError
  -- arguments
  argument_count not_an_integer zero_argument index_not_u8 index_not_member : NodeError
  empty_path equal_paths invalid_byzantine_marker : NodeError
  -- open
  missing_index key_slot_mismatch initial_unreadable initial_too_large wrapper_mismatch : NodeError
  -- states
  live_key_mismatch shared_identifier live_unknown live_and_spent spent_unknown : NodeError
  spent_without_receipt known_ids_differ receipt_key_mismatch zero_certificate : NodeError
  no_outputs repeated_output absent_output : NodeError
  not_pure_genesis genesis_count : NodeError
  applied_count_differs receipt_not_durable certificate_differs : NodeError

-- `?` on an error of another part
abbrev pub pass_on {ℓ} :
    {E : Type 0} {A : Type ℓ} → (E → NodeError) → Result E A → Result NodeError A
pass_on wrap (ok a) = ok a
pass_on wrap (err e) = err (wrap e)

-- Equality of two sets, as lists in key order.
abbrev pub same_ids : Map Digest (Unit {0}) → Map Digest (Unit {0}) → Bool
same_ids [] [] = true
same_ids ((a, _) ∷ m) ((b, _) ∷ m') = bytes_eq a b && same_ids m m'
same_ids _ _ = false

-- The three loops of `validate_state_shape`, with the identifiers so far.
unfoldable pub shape_spent :
    State → Map Digest (Unit {0}) → Map CellRef Digest → Result NodeError (Map Digest (Unit {0}))
shape_spent state ids [] = ok ids
shape_spent state ids ((reference, intent) ∷ spent_by) = do
  reject_if (contains reference.id ids) shared_identifier
  reject_if (not (contains reference.id state.known_ids)) spent_unknown
  reject_if (not (contains intent state.applied)) spent_without_receipt
  shape_spent state (tree_insert reference.id tt ids) spent_by

unfoldable pub shape_outputs :
    State → Map Digest (Unit {0}) → List CellRef → Result NodeError (Map Digest (Unit {0}))
shape_outputs state ids [] = ok ids
shape_outputs state ids (reference ∷ refs) = do
  reject_if (contains reference.id ids) repeated_output
  reject_if (not (contains reference state.live) && not (contains reference state.spent_by))
      absent_output
  shape_outputs state (tree_insert reference.id tt ids) refs

unfoldable pub shape_receipts :
    State → Map Digest (Unit {0}) → Map Digest ApplyReceipt → Result NodeError (Unit {0})
shape_receipts state ids [] = ok tt
shape_receipts state ids ((intent, receipt) ∷ entries) = do
  reject_if (not (bytes_eq intent receipt.intent)) receipt_key_mismatch
  reject_if (bytes_eq receipt.certificate_digest zero_digest) zero_certificate
  reject_if (length receipt.output_refs == 0) no_outputs
  next ← shape_outputs state ids receipt.output_refs
  shape_receipts state next entries

module _ (keys : Keys) where
  unfoldable pub shape_live :
      State → Map Digest (Unit {0}) → Map CellRef Cell → Result NodeError (Map Digest (Unit {0}))
  shape_live state ids [] = ok ids
  shape_live state ids ((reference, cell) ∷ live) = do
    reject_if (not (cell_ref_eq reference cell.reference)) live_key_mismatch
    pass_on model_error (validate_cell keys cell)
    reject_if (contains reference.id ids) shared_identifier
    reject_if (not (contains reference.id state.known_ids)) live_unknown
    reject_if (contains reference state.spent_by) live_and_spent
    shape_live state (tree_insert reference.id tt ids) live

  unfoldable pub validate_state_shape : State → Result NodeError (Unit {0})
  validate_state_shape state = do
    pass_on model_error (validate keys state)
    live_ids ← shape_live state [] state.live
    referenced_ids ← shape_spent state live_ids state.spent_by
    reject_if (not (same_ids referenced_ids state.known_ids)) known_ids_differ
    shape_receipts state [] state.applied

  unfoldable pub genesis_activation_digest : Digest → ℕ → Digest → Digest
  genesis_activation_digest committee_hash epoch state_root =
      hash_domain keys "CALIBRE_INTEGRATION001_GENESIS_ACTIVATION_V1"
        (committee_hash ++ (le_bytes 8 epoch ++ state_root))

unfoldable pub validate_pure_genesis : State → Result NodeError (Unit {0})
validate_pure_genesis state = do
  reject_if (not (length state.spent_by == 0) || not (length state.applied == 0)) not_pure_genesis
  reject_if (not (length state.known_ids == length state.live)) genesis_count

-- The loop over the receipts.
unfoldable pub reconcile_receipts : WalStore → Map Digest ApplyReceipt → Result NodeError (Unit {0})
reconcile_receipts store [] = ok tt
reconcile_receipts store ((intent, receipt) ∷ entries) = do
  durable ← ok_or (applied_record store intent) receipt_not_durable
  reject_if (not (bytes_eq durable.certificate_digest receipt.certificate_digest))
      certificate_differs
  reconcile_receipts store entries

unfoldable pub reconcile_state_with_wal : State → WalStore → Result NodeError (Unit {0})
reconcile_state_with_wal state store = do
  reject_if (not (length state.applied == applied_count store)) applied_count_differs
  reconcile_receipts store state.applied
