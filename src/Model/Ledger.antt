-- ===== src/Model/Ledger.antt =====
-- The monetary state of integration001/src/model.rs: `State` with its methods, `output_ref`,
-- `materialize_outputs` and `state_root`.
pub mod Value
pub mod Invariant
pub mod Genesis
pub mod Settles
pub mod Apply
use avangard.Prelude.{
  ℕ, ◌+◌, ◌==◌, not, Bool, true, false, Option, none, some, List, [], ◌∷◌, ◌++◌, ltb, bytes_eq,
  length, get_elem?, Result, ok, err, ◌>>=◌, ◌>>◌, reject_if, ok_or, map,
}
use avangard.Prelude.Assoc.{Map, lookup, bytes_has_eq}
use avangard.Prelude.Tree.{contains, remove, tree_insert, bytes_has_lt}
use avangard.Store.Types.{Digest, u32_max}
use avangard.Model.Types.{
  CommitteeManifest, CellRef, Cell, Output, Tx, UserAuth, Qc, ApplyReceipt, State, ApplyOutcome,
  applied, already_applied, Keys, ModelError, PublicKeyBytes, cell_ref_eq, cell_eq, cell_ref_has_eq,
  cell_ref_has_lt, protocol_version, phase_prevote, phase_precommit, put_u16, put_u32, put_u64,
  hash_domain, checked_add, value_overflow, generation_overflow, output_index_overflow,
  duplicate_genesis_reference, duplicate_genesis_id, live_key_mismatch, live_unknown,
  live_and_spent, spent_unknown, spent_live, receipt_key_mismatch, receipt_empty, empty_qc,
  round_mismatch, input_not_live, inexact_input, duplicate_output, output_collides,
}
use avangard.Model.Manifest.{lab_user_key}
use avangard.Model.Transaction.{
  compute_cell_digest, validate_cell, intent_hash, conflict_key, verify_user_auth, reference_bytes,
}
use avangard.Model.Certificate.{verify_qc, qc_digest}

abbrev pub empty_state : State
empty_state = record { live = []; spent_by = []; known_ids = []; applied = [] }

-- `try_fold` over the live cells
unfoldable pub fold_value : ℕ → Map CellRef Cell → Result ModelError ℕ
fold_value total [] = ok total
fold_value total ((reference, cell) ∷ live) = do
  next ← ok_or (checked_add total cell.amount) value_overflow
  fold_value next live

unfoldable pub total_value : State → Result ModelError ℕ
unfolding fold_value
total_value state = fold_value 0 state.live

unfoldable pub live_cell : CellRef → State → Option Cell
live_cell reference state = lookup reference state.live

-- The last loop of `apply_finalized`.
unfoldable pub add_outputs : List Cell → State → State
add_outputs [] state = state
add_outputs (cell ∷ cells) state = add_outputs cells (record state {
  known_ids = tree_insert cell.reference.id tt state.known_ids;
  live = tree_insert cell.reference cell state.live;
})

module _ (keys : Keys) where
  unfoldable pub output_ref : Tx → ℕ → Result ModelError CellRef
  output_ref tx output_index = do
    generation ← ok_or (checked_add tx.input.reference.generation 1) generation_overflow
    intent ← intent_hash keys tx
    reject_if (ltb u32_max output_index) output_index_overflow
    ok (record {
      asset_id = tx.input.reference.asset_id;
      id = hash_domain keys "CALIBRE_INTEGRATION001_OUTPUT_REF_V1" (intent ++ put_u32 output_index);
      generation = generation;
    })

  unfoldable pub fee_collector : PublicKeyBytes
  fee_collector = keys.verifying_key (lab_user_key keys 9999)

  unfoldable pub effects_of : Tx → List Output
  effects_of tx =
      tx.outputs
      ++ (record { asset_id = tx.input.reference.asset_id; amount = tx.fee; owner = fee_collector }
          ∷ [])

  abbrev pub output_cell : Tx → CellRef → Output → Cell
  output_cell tx reference output = record {
    reference = reference;
    amount = output.amount;
    owner = output.owner;
    predecessor = tx.input.state_digest;
    state_digest =
        compute_cell_digest keys reference output.amount output.owner tx.input.state_digest;
  }

  -- The loop of `materialize_outputs`, from `index` on.
  unfoldable pub output_cells : Tx → ℕ → List Output → Result ModelError (List Cell)
  output_cells tx index [] = ok []
  output_cells tx index (output ∷ outputs) = do
    reference ← output_ref tx index
    cells ← output_cells tx (index + 1) outputs
    ok (output_cell tx reference output ∷ cells)

  unfoldable pub materialize_outputs : Tx → Result ModelError (List Cell)
  unfolding effects_of
  materialize_outputs tx = output_cells tx 0 (effects_of tx)

  -- The loop over the new cells in `apply_finalized`, with the references so far.
  unfoldable pub check_outputs :
      Map Digest (Unit {0}) → Map CellRef (Unit {0}) → List Cell → Result ModelError (Unit {0})
  check_outputs known_ids refs [] = ok tt
  check_outputs known_ids refs (cell ∷ cells) = do
    validate_cell keys cell
    reject_if (contains cell.reference refs) duplicate_output
    reject_if (contains cell.reference.id known_ids) output_collides
    check_outputs known_ids (tree_insert cell.reference tt refs) cells

  unfoldable pub add_genesis : State → List Cell → Result ModelError State
  add_genesis state [] = ok state
  add_genesis state (cell ∷ cells) = do
    validate_cell keys cell
    reject_if (contains cell.reference state.live) duplicate_genesis_reference
    reject_if (contains cell.reference.id state.known_ids) duplicate_genesis_id
    add_genesis
        (record state {
          live = tree_insert cell.reference cell state.live;
          known_ids = tree_insert cell.reference.id tt state.known_ids;
        })
        cells

  unfoldable pub from_cells : List Cell → Result ModelError State
  from_cells cells = add_genesis empty_state cells

  -- The three loops of `validate`.
  unfoldable pub validate_live : State → Map CellRef Cell → Result ModelError (Unit {0})
  validate_live state [] = ok tt
  validate_live state ((reference, cell) ∷ live) = do
    reject_if (not (cell_ref_eq reference cell.reference)) live_key_mismatch
    validate_cell keys cell
    reject_if (not (contains reference.id state.known_ids)) live_unknown
    reject_if (contains reference state.spent_by) live_and_spent
    validate_live state live

  unfoldable pub validate_spent : State → Map CellRef Digest → Result ModelError (Unit {0})
  validate_spent state [] = ok tt
  validate_spent state ((reference, intent) ∷ spent_by) = do
    reject_if (not (contains reference.id state.known_ids)) spent_unknown
    reject_if (contains reference state.live) spent_live
    validate_spent state spent_by

  unfoldable pub validate_applied : Map Digest ApplyReceipt → Result ModelError (Unit {0})
  validate_applied [] = ok tt
  validate_applied ((intent, receipt) ∷ entries) = do
    reject_if (not (bytes_eq intent receipt.intent)) receipt_key_mismatch
    reject_if (length receipt.output_refs == 0) receipt_empty
    validate_applied entries

  unfoldable pub validate : State → Result ModelError (Unit {0})
  validate state = do
    validate_live state state.live
    validate_spent state state.spent_by
    validate_applied state.applied

  -- The checks of the two certificates, at the head of `apply_finalized`.
  unfoldable pub check_finality :
      Qc → Qc → CommitteeManifest → Digest → Digest → Result ModelError (Unit {0})
  check_finality prevote_qc precommit_qc manifest conflict intent = do
    prevote ← ok_or (get_elem? prevote_qc.votes 0) empty_qc
    verify_qc keys prevote_qc manifest phase_prevote prevote.round conflict intent none
    prevote_digest ← qc_digest keys prevote_qc manifest
    precommit ← ok_or (get_elem? precommit_qc.votes 0) empty_qc
    reject_if (not (precommit.round == prevote.round)) round_mismatch
    verify_qc keys precommit_qc manifest phase_precommit precommit.round conflict intent
        (some prevote_digest)

  -- The changes of `self`, behind all the checks.
  abbrev pub settled : State → Tx → Digest → List Cell → ApplyReceipt → State
  settled state tx intent outputs receipt =
      let spent : State = record state {
        live = remove tx.input.reference state.live;
        spent_by = tree_insert tx.input.reference intent state.spent_by;
      } in
      let added = add_outputs outputs spent in
      record added { applied = tree_insert intent receipt added.applied }

  unfoldable pub apply_new :
      Tx
      → UserAuth
      → Qc
      → CommitteeManifest
      → Digest
      → State
      → Result ModelError (ApplyOutcome × State)
  apply_new tx auth precommit_qc manifest intent state = do
    verify_user_auth keys tx auth manifest
    current ← ok_or (lookup tx.input.reference state.live) input_not_live
    reject_if (not (cell_eq current tx.input)) inexact_input
    certificate_digest ← qc_digest keys precommit_qc manifest
    outputs ← materialize_outputs tx
    check_outputs state.known_ids [] outputs
    let receipt : ApplyReceipt = record {
      intent = intent;
      certificate_digest = certificate_digest;
      output_refs = map (λ cell. cell.reference) outputs;
    }
    ok (applied receipt, settled state tx intent outputs receipt)

  unfoldable pub apply_by :
      Option ApplyReceipt
      → Tx
      → UserAuth
      → Qc
      → CommitteeManifest
      → Digest
      → State
      → Result ModelError (ApplyOutcome × State)
  unfolding apply_new
  apply_by (some receipt) tx auth precommit_qc manifest intent state = do
    verify_user_auth keys tx auth manifest
    ok (already_applied receipt, state)
  apply_by none tx auth precommit_qc manifest intent state =
      apply_new tx auth precommit_qc manifest intent state

  -- The code changes `self` behind its last `?` only, so an error comes without a new state.
  unfoldable pub apply_finalized :
      Tx → UserAuth → Qc → Qc → CommitteeManifest → State → Result ModelError (ApplyOutcome × State)
  unfolding apply_by check_finality
  apply_finalized tx auth prevote_qc precommit_qc manifest state = do
    intent ← intent_hash keys tx
    check_finality prevote_qc precommit_qc manifest (conflict_key keys tx.input.reference) intent
    apply_by (lookup intent state.applied) tx auth precommit_qc manifest intent state
