-- ===== src/Node/Apply.antt =====
-- `NodeServer::apply` of integration001/src/node.rs.
use avangard.Prelude.{ℕ, Bool, true, false, Result, ok, err, ◌>>=◌, ◌>>◌}
use avangard.Store.Types.{
  Digest, Snapshot, Error, PersistOutcome, persisted, already_present, WalStore, Io,
}
use avangard.Store.Apply
use avangard.Model.Types.{
  Tx, UserAuth, Qc, State, ApplyReceipt, ApplyOutcome, applied, already_applied, Keys,
}
use avangard.Model.Ledger.{apply_finalized}
use avangard.Model.Root.{state_root}
use avangard.Wire.States.{encode_state}
use avangard.Node.{
  NodeServer, NodeRejection, map_err, reject_invalid_finality, verify_finality_chain,
}
use avangard.Node.Shape.{validate_state_shape}

abbrev pub reject_state_apply : ℕ
reject_state_apply = 21

abbrev pub reject_state_persist : ℕ
reject_state_persist = 22

module _ (keys : Keys) where
  -- The checks of the certificates and the application to a copy of the state.
  unfoldable pub finalize :
      NodeServer → Tx → UserAuth → Qc → Qc → Result NodeRejection (ApplyOutcome × State)
  finalize server tx auth prevote_qc finality_qc = do
    verify_finality_chain keys server tx prevote_qc finality_qc
    map_err (apply_finalized keys tx auth prevote_qc finality_qc server.manifest server.state)
        reject_invalid_finality

  -- The snapshot of a new state.
  unfoldable pub snapshot_of : NodeServer → State → Result NodeRejection Snapshot
  snapshot_of server next = do
    map_err (validate_state_shape keys next) reject_state_apply
    bytes ← map_err (encode_state next) reject_state_apply
    ok (record {
      committee_hash = server.committee_hash;
      epoch = server.manifest.epoch;
      state_root = state_root keys next;
      bytes = bytes;
    })

  -- `match self.store.apply_verified(..)`
  unfoldable pub after_apply :
      NodeServer
      → State
      → Result Error PersistOutcome × WalStore
      → Result NodeRejection (Digest × Bool) × NodeServer
  after_apply server next (err e, store) =
      (err reject_state_persist, record server { store = store })
  after_apply server next (ok persisted, store) =
      (ok (state_root keys next, false), record server { state = next; store = store })
  after_apply server next (ok already_present, store) =
      (ok (state_root keys next, true), record server { state = next; store = store })

  unfoldable pub persist_state :
      Io
      → NodeServer
      → State
      → ApplyReceipt
      → Result NodeRejection Snapshot
      → Result NodeRejection (Digest × Bool) × NodeServer
  unfolding after_apply
  persist_state io server next receipt (err rejection) = (err rejection, server)
  persist_state io server next receipt (ok snapshot) = after_apply server next (
      Apply.apply_verified keys.blake3 io receipt.intent receipt.certificate_digest snapshot
        server.store)

  -- `match next.apply_finalized(..)`
  unfoldable pub settle :
      Io
      → NodeServer
      → Result NodeRejection (ApplyOutcome × State)
      → Result NodeRejection (Digest × Bool) × NodeServer
  unfolding persist_state
  settle io server (err rejection) = (err rejection, server)
  settle io server (ok (already_applied receipt, next)) =
      (ok (state_root keys server.state, true), server)
  settle io server (ok (applied receipt, next)) =
      persist_state io server next receipt (snapshot_of server next)

  unfoldable pub apply :
      Io → Tx → UserAuth → Qc → Qc → NodeServer → Result NodeRejection (Digest × Bool) × NodeServer
  unfolding settle finalize
  apply io tx auth prevote_qc finality_qc server =
      settle io server (finalize server tx auth prevote_qc finality_qc)
