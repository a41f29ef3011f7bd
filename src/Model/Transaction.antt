-- ===== src/Model/Transaction.antt =====
-- Cells and transactions of integration001/src/model.rs: their digests, their validation, and the
-- authorization by the owner of the input.
use avangard.Prelude.{
  ℕ, ◌==◌, not, ◌||◌, List, [], ◌∷◌, ◌++◌, ltb, bytes_eq, length, Result, ok, ◌>>=◌, ◌>>◌,
  reject_if, ok_or,
}
use avangard.Store.Types.{Digest}
use avangard.Model.Types.{
  CellRef, Cell, Output, Tx, UserAuth, CommitteeManifest, Keys, ModelError, PublicKeyBytes,
  protocol_version, asset_calibre, zero_digest, put_u16, put_u32, put_u64, hash_domain, checked_add,
  zero_value_cell, unsupported_asset, cell_digest_mismatch, output_count, unsupported_version,
  network_mismatch, epoch_mismatch, committee_mismatch, zero_fee, output_asset, zero_value_output,
  value_overflow, not_conserved, not_owner, invalid_owner_key, invalid_owner_signature,
}
use avangard.Model.Manifest.{validate_manifest, committee_hash}

unfoldable pub reference_bytes : CellRef → List ℕ
reference_bytes reference =
    put_u32 reference.asset_id ++ (reference.id ++ put_u64 reference.generation)

unfoldable pub output_bytes : List Output → List ℕ
output_bytes [] = []
output_bytes (output ∷ outputs) =
    put_u32 output.asset_id ++ (put_u64 output.amount ++ (output.owner ++ output_bytes outputs))

unfoldable pub tx_bytes : Tx → Result ModelError (List ℕ)
tx_bytes tx = do
  reject_if (length tx.outputs == 0 || ltb 8 (length tx.outputs)) output_count
  ok (
      put_u16 tx.version
      ++ (put_u32 tx.network_id
          ++ (put_u64 tx.epoch
              ++ (tx.committee_hash
                  ++ (reference_bytes tx.input.reference
                      ++ (put_u64 tx.input.amount
                          ++ (tx.input.owner
                              ++ (tx.input.predecessor
                                  ++ (tx.input.state_digest
                                      ++ (put_u32 (length tx.outputs)
                                          ++ (output_bytes tx.outputs
                                              ++ (put_u64 tx.fee ++ tx.salt))))))))))))

-- The loop of `validate_tx`: the total so far goes through the outputs.
unfoldable pub sum_outputs : ℕ → ℕ → List Output → Result ModelError ℕ
sum_outputs asset total [] = ok total
sum_outputs asset total (output ∷ outputs) = do
  reject_if (not (output.asset_id == asset)) output_asset
  reject_if (output.amount == 0) zero_value_output
  next ← ok_or (checked_add total output.amount) value_overflow
  sum_outputs asset next outputs

module _ (keys : Keys) where
  unfoldable pub compute_cell_digest : CellRef → ℕ → PublicKeyBytes → Digest → Digest
  compute_cell_digest reference amount owner predecessor =
      hash_domain keys "CALIBRE_INTEGRATION001_CELL_V1"
        (reference_bytes reference ++ (put_u64 amount ++ (owner ++ predecessor)))

  unfoldable pub genesis_reference : ℕ → CellRef
  genesis_reference label = record {
    asset_id = asset_calibre;
    id = hash_domain keys "CALIBRE_INTEGRATION001_GENESIS_ID_V1" (put_u64 label);
    generation = 0;
  }

  unfoldable pub make_genesis_cell : ℕ → ℕ → PublicKeyBytes → Cell
  make_genesis_cell label amount owner = record {
    reference = genesis_reference label;
    amount = amount;
    owner = owner;
    predecessor = zero_digest;
    state_digest = compute_cell_digest (genesis_reference label) amount owner zero_digest;
  }

  unfoldable pub validate_cell : Cell → Result ModelError (Unit {0})
  validate_cell cell = do
    reject_if (cell.amount == 0) zero_value_cell
    reject_if (not (cell.reference.asset_id == asset_calibre)) unsupported_asset
    reject_if
        (not (
          bytes_eq cell.state_digest
            (compute_cell_digest cell.reference cell.amount cell.owner cell.predecessor)))
        cell_digest_mismatch

  unfoldable pub intent_hash : Tx → Result ModelError Digest
  intent_hash tx = do
    bytes ← tx_bytes tx
    ok (hash_domain keys "CALIBRE_INTEGRATION001_TX_INTENT_V1" bytes)

  unfoldable pub conflict_key : CellRef → Digest
  conflict_key reference =
      hash_domain keys "CALIBRE_INTEGRATION001_CONFLICT_KEY_V1" (reference_bytes reference)

  unfoldable pub validate_tx : Tx → CommitteeManifest → Result ModelError (Unit {0})
  validate_tx tx manifest = do
    validate_manifest keys manifest
    validate_cell tx.input
    reject_if (not (tx.version == protocol_version)) unsupported_version
    reject_if (not (tx.network_id == manifest.network_id)) network_mismatch
    reject_if (not (tx.epoch == manifest.epoch)) epoch_mismatch
    committee ← committee_hash keys manifest
    reject_if (not (bytes_eq tx.committee_hash committee)) committee_mismatch
    reject_if (tx.fee == 0) zero_fee
    total ← sum_outputs tx.input.reference.asset_id tx.fee tx.outputs
    reject_if (not (total == tx.input.amount)) not_conserved
    intent ← intent_hash tx
    ok tt

  -- The digest of the intent is the whole message.
  unfoldable pub user_message : Tx → Result ModelError (List ℕ)
  user_message tx = intent_hash tx

  unfoldable pub sign_user : Tx → List ℕ → Result ModelError UserAuth
  unfolding user_message
  sign_user tx key = do
    message ← user_message tx
    ok (record { signer = keys.verifying_key key; signature = keys.sign key message })

  unfoldable pub verify_user_auth : Tx → UserAuth → CommitteeManifest → Result ModelError (Unit {0})
  unfolding user_message
  verify_user_auth tx auth manifest = do
    validate_tx tx manifest
    reject_if (not (bytes_eq auth.signer tx.input.owner)) not_owner
    reject_if (not (keys.is_key auth.signer)) invalid_owner_key
    message ← user_message tx
    reject_if (not (keys.verify_strict auth.signer message auth.signature)) invalid_owner_signature

  unfoldable pub make_transfer :
      CommitteeManifest → Cell → List Output → ℕ → Digest → Result ModelError Tx
  make_transfer manifest input outputs fee salt = do
    committee ← committee_hash keys manifest
    let tx : Tx = record {
      version = protocol_version;
      network_id = manifest.network_id;
      epoch = manifest.epoch;
      committee_hash = committee;
      input = input;
      outputs = outputs;
      fee = fee;
      salt = salt;
    }
    validate_tx tx manifest
    ok tx
