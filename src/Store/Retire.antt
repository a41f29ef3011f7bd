-- ===== src/Store/Retire.antt =====
-- `WalStore::retire` of integration001/src/store.rs.
use avangard.Prelude.{
  ℕ, ◌+◌, ◌==◌, not, ◌&&◌, Option, none, some, List, ◌++◌, ltb, bytes_eq, Result, ok, err,
  reject_if, if◌then◌else◌,
}
use avangard.Store.Types.{
  Digest, Lifecycle, initialized, active, retired, PersistOutcome, persisted, already_present,
  RetirementRecord, Io, Error, u64_max, kind_retire, missing_retirement, conflicting_retirement,
  retire_while_inactive, epoch_overflow, skips_next_epoch, same_committee, root_mismatch,
  zero_handoff,
}
use avangard.Store.Codec.{put_u64, encode_snapshot, is_zero}
use avangard.Store.Method.{Method, pure, fail, lift, gets, modify, ◌>>=◌, ◌>>◌}
use avangard.Store.Append.{ensure_healthy, append}

abbrev pub retire_payload : Digest → Digest → ℕ → List ℕ → List ℕ
retire_payload handoff_hash next_committee next_epoch encoded =
    handoff_hash ++ (next_committee ++ (put_u64 next_epoch ++ encoded))

unfoldable pub retire_again :
    Option RetirementRecord → Digest → Digest → ℕ → Digest → Result Error PersistOutcome
retire_again none handoff_hash next_committee next_epoch state_root = err missing_retirement
retire_again (some existing) handoff_hash next_committee next_epoch state_root =
    if bytes_eq existing.handoff_hash handoff_hash
      && bytes_eq existing.next_committee next_committee
      && existing.next_epoch == next_epoch
      && bytes_eq existing.snapshot.state_root state_root
    then ok already_present
    else err conflicting_retirement

module _ (blake3 : List ℕ → Digest) (io : Io) where
  unfoldable pub retire_commit : Digest → Digest → ℕ → Method PersistOutcome
  retire_commit handoff_hash next_committee next_epoch = do
    snapshot ← gets (λ s. s.current_snapshot)
    encoded ← lift (encode_snapshot snapshot)
    append blake3 io kind_retire (retire_payload handoff_hash next_committee next_epoch encoded)
    modify (λ s. record s {
      lifecycle = retired;
      retirement = some (record {
        handoff_hash = handoff_hash;
        next_committee = next_committee;
        next_epoch = next_epoch;
        snapshot = snapshot;
      });
    })
    pure persisted

  unfoldable pub retire_active : Digest → Digest → ℕ → Digest → Method PersistOutcome
  unfolding retire_commit
  retire_active handoff_hash next_committee next_epoch state_root = do
    epoch ← gets (λ s. s.epoch)
    lift (reject_if (ltb u64_max (epoch + 1)) epoch_overflow)
    lift (reject_if (not (next_epoch == epoch + 1)) skips_next_epoch)
    committee ← gets (λ s. s.committee_hash)
    lift (reject_if (bytes_eq next_committee committee) same_committee)
    current_root ← gets (λ s. s.current_snapshot.state_root)
    lift (reject_if (not (bytes_eq state_root current_root)) root_mismatch)
    lift (reject_if (is_zero handoff_hash) zero_handoff)
    retire_commit handoff_hash next_committee next_epoch

  unfoldable pub retire_by : Lifecycle → Digest → Digest → ℕ → Digest → Method PersistOutcome
  unfolding retire_active retire_again
  retire_by retired handoff_hash next_committee next_epoch state_root = do
    retirement ← gets (λ s. s.retirement)
    lift (retire_again retirement handoff_hash next_committee next_epoch state_root)
  retire_by initialized handoff_hash next_committee next_epoch state_root =
      fail retire_while_inactive
  retire_by active handoff_hash next_committee next_epoch state_root =
      retire_active handoff_hash next_committee next_epoch state_root

  unfoldable pub retire : Digest → Digest → ℕ → Digest → Method PersistOutcome
  unfolding ensure_healthy retire_by
  retire handoff_hash next_committee next_epoch state_root = do
    ensure_healthy
    lifecycle ← gets (λ s. s.lifecycle)
    retire_by lifecycle handoff_hash next_committee next_epoch state_root
