-- ===== src/Store/Activate.antt =====
-- `WalStore::activate` of integration001/src/store.rs.
use avangard.Prelude.{
  ℕ, not, ◌&&◌, Option, none, some, List, ◌++◌, bytes_eq, Result, ok, err, reject_if, if◌then◌else◌,
}
use avangard.Store.Types.{
  Digest, Snapshot, Lifecycle, initialized, active, retired, PersistOutcome, persisted,
  already_present, ActivationRecord, Io, Error, snapshot_eq, kind_activate, activation_differs,
  missing_activation, conflicting_activation, resurrection,
}
use avangard.Store.Codec.{encode_snapshot, validate_snapshot}
use avangard.Store.Method.{Method, pure, fail, lift, gets, modify, ◌>>=◌, ◌>>◌}
use avangard.Store.Append.{ensure_healthy, append}

abbrev pub activate_payload : Digest → List ℕ → List ℕ
activate_payload handoff_hash encoded = handoff_hash ++ encoded

unfoldable pub activate_again :
    Option ActivationRecord → Digest → Snapshot → Result Error PersistOutcome
activate_again none handoff_hash snapshot = err missing_activation
activate_again (some existing) handoff_hash snapshot =
    if bytes_eq existing.handoff_hash handoff_hash && snapshot_eq existing.snapshot snapshot
    then ok already_present
    else err conflicting_activation

module _ (blake3 : List ℕ → Digest) (io : Io) where
  -- `activate` behind the match on the lifecycle
  unfoldable pub activate_commit : Digest → Snapshot → Method PersistOutcome
  activate_commit handoff_hash snapshot = do
    encoded ← lift (encode_snapshot snapshot)
    append blake3 io kind_activate (activate_payload handoff_hash encoded)
    modify (λ s. record s {
      lifecycle = active;
      current_snapshot = snapshot;
      activation = some (record { handoff_hash = handoff_hash; snapshot = snapshot });
    })
    pure persisted

  unfoldable pub activate_by : Lifecycle → Digest → Snapshot → Method PersistOutcome
  unfolding activate_commit activate_again
  activate_by initialized handoff_hash snapshot = do
    current ← gets (λ s. s.current_snapshot)
    lift (reject_if (not (snapshot_eq snapshot current)) activation_differs)
    activate_commit handoff_hash snapshot
  activate_by active handoff_hash snapshot = do
    activation ← gets (λ s. s.activation)
    lift (activate_again activation handoff_hash snapshot)
  activate_by retired handoff_hash snapshot = fail resurrection

  unfoldable pub activate : Digest → Snapshot → Method PersistOutcome
  unfolding ensure_healthy activate_by
  activate handoff_hash snapshot = do
    ensure_healthy
    committee ← gets (λ s. s.committee_hash)
    epoch ← gets (λ s. s.epoch)
    lift (validate_snapshot snapshot committee epoch)
    lifecycle ← gets (λ s. s.lifecycle)
    activate_by lifecycle handoff_hash snapshot
