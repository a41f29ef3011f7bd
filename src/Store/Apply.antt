-- ===== src/Store/Apply.antt =====
-- `WalStore::apply_verified` of integration001/src/store.rs.
use avangard.Prelude.{
  ℕ, not, ◌&&◌, ◌||◌, Option, none, some, List, ◌++◌, bytes_eq, Result, ok, err, reject_if,
  if◌then◌else◌,
}
use avangard.Prelude.Assoc.{lookup, insert, bytes_has_eq}
use avangard.Store.Types.{
  Digest, Snapshot, active, PersistOutcome, persisted, already_present, AppliedRecord, Io, Error,
  snapshot_eq, kind_apply, zero_apply_digest, applied_differently, apply_while_inactive,
  root_not_advanced,
}
use avangard.Store.Codec.{encode_snapshot, validate_snapshot, is_zero}
use avangard.Store.Replay.{lifecycle_eq}
use avangard.Store.Method.{Method, pure, lift, gets, modify, ◌>>=◌, ◌>>◌}
use avangard.Store.Append.{ensure_healthy, append}

abbrev pub apply_payload : Digest → Digest → Digest → List ℕ → List ℕ
apply_payload tx_digest certificate_digest prior_state_root encoded =
    tx_digest ++ (certificate_digest ++ (prior_state_root ++ encoded))

unfoldable pub apply_again : AppliedRecord → Digest → Snapshot → Result Error PersistOutcome
apply_again existing certificate_digest next_snapshot =
    if bytes_eq existing.certificate_digest certificate_digest
      && snapshot_eq existing.next_snapshot next_snapshot
    then ok already_present
    else err applied_differently

module _ (blake3 : List ℕ → Digest) (io : Io) where
  -- `apply_verified` behind the lookup of an earlier application
  unfoldable pub apply_commit : Digest → Digest → Snapshot → Method PersistOutcome
  apply_commit tx_digest certificate_digest next_snapshot = do
    lifecycle ← gets (λ s. s.lifecycle)
    lift (reject_if (not (lifecycle_eq lifecycle active)) apply_while_inactive)
    prior_state_root ← gets (λ s. s.current_snapshot.state_root)
    lift (reject_if (bytes_eq next_snapshot.state_root prior_state_root) root_not_advanced)
    encoded ← lift (encode_snapshot next_snapshot)
    append blake3 io kind_apply
        (apply_payload tx_digest certificate_digest prior_state_root encoded)
    modify (λ s. record s {
      applied =
          insert tx_digest
            (record {
              tx_digest = tx_digest;
              certificate_digest = certificate_digest;
              prior_state_root = prior_state_root;
              next_snapshot = next_snapshot;
            })
            s.applied;
      current_snapshot = next_snapshot;
    })
    pure persisted

  unfoldable pub apply_by :
      Option AppliedRecord → Digest → Digest → Snapshot → Method PersistOutcome
  unfolding apply_commit apply_again
  apply_by (some existing) tx_digest certificate_digest next_snapshot =
      lift (apply_again existing certificate_digest next_snapshot)
  apply_by none tx_digest certificate_digest next_snapshot =
      apply_commit tx_digest certificate_digest next_snapshot

  unfoldable pub apply_verified : Digest → Digest → Snapshot → Method PersistOutcome
  unfolding ensure_healthy apply_by
  apply_verified tx_digest certificate_digest next_snapshot = do
    ensure_healthy
    committee ← gets (λ s. s.committee_hash)
    epoch ← gets (λ s. s.epoch)
    lift (validate_snapshot next_snapshot committee epoch)
    lift (reject_if (is_zero tx_digest || is_zero certificate_digest) zero_apply_digest)
    applied ← gets (λ s. s.applied)
    apply_by (lookup tx_digest applied) tx_digest certificate_digest next_snapshot
