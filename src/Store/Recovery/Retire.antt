-- ===== src/Store/Recovery/Retire.antt =====
-- `retire` keeps the log and the memory in agreement.
use avangard.Prelude.{
  ℕ, ◌+◌, ◌≤◌, ◌<◌, ◌≡◌, true, false, ◌⊎◌, inl, inr, some, List, ◌++◌, length, length-append, ok,
  arith, bytes_eq, ltb, ◌==◌,
}
use avangard.Store.Types.{
  Digest, Snapshot, active, retired, WalStore, ReplayState, u64_max, max_payload_bytes, done, Io,
  persisted, kind_retire, snapshot_eq_refl,
}
use avangard.Store.Codec.{finish, is_zero, put_u64}
use avangard.Store.Codec.RoundTrip.{
  IsDigest, IsWide, snapshot_bytes, encode_snapshot-IsWide, length-snapshot_bytes,
  decode_snapshot_all, take_digest-append, take_u64-append,
}
use avangard.Store.Record.Framing.{IsHash}
use avangard.Store.Record.{record_bytes}
use avangard.Store.Replay.{replay_frame, replay_record, replay_arm, replay_retire, retired_by}
use avangard.Store.Retire.{retire, retire_by, retire_active, retire_commit, retire_payload}
use avangard.Store.Recovery.{IsDurable, log_view, replay-append_record, append_done}

-- The record that `retire` writes replays to what `retire` does.
pub replay-retire :
    (committee : Digest) (epoch sequence : ℕ) (state : ReplayState)
    (handoff next_committee : Digest) (next_epoch : ℕ)
    → state.lifecycle ≡ active
    → IsDigest handoff
    → IsDigest next_committee
    → IsWide state.current_snapshot
    → ltb u64_max (epoch + 1) ≡ false
    → (next_epoch == epoch + 1) ≡ true
    → bytes_eq next_committee committee ≡ false
    → is_zero handoff ≡ false
    → replay_frame committee epoch sequence
        (some state)
        kind_retire
        (retire_payload handoff next_committee next_epoch (snapshot_bytes state.current_snapshot))
      ≡ ok (retired_by state handoff next_committee next_epoch state.current_snapshot)
unfolding replay_frame replay_record replay_arm replay_retire finish
replay-retire committee epoch sequence state handoff next_committee next_epoch hl hh hn hw ho he hc
      hz =
    let current = state.current_snapshot in
    rw
      (
        take_digest-append handoff
            (next_committee ++ (put_u64 next_epoch ++ snapshot_bytes current)) hh,
        take_digest-append next_committee (put_u64 next_epoch ++ snapshot_bytes current) hn,
        take_u64-append next_epoch (snapshot_bytes current) (ground arith),
        decode_snapshot_all current hw,
      )
      (ground (arith, snapshot_eq_refl current))

module _ (blake3 : List ℕ → Digest) (hash : IsHash blake3) where
  abbrev pub after_retire : WalStore → Digest → Digest → ℕ → WalStore
  after_retire s handoff next_committee next_epoch = record s {
    file =
        s.file
        ++ record_bytes blake3 s.next_sequence kind_retire
            (retire_payload handoff next_committee next_epoch (snapshot_bytes s.current_snapshot));
    next_sequence = s.next_sequence + 1;
    lifecycle = retired;
    retirement = some (record {
      handoff_hash = handoff;
      next_committee = next_committee;
      next_epoch = next_epoch;
      snapshot = s.current_snapshot;
    });
  }

  pub payload_fits :
      (handoff next_committee : Digest) (next_epoch : ℕ) (current : Snapshot)
      → IsDigest handoff
      → IsDigest next_committee
      → IsWide current
      → length (retire_payload handoff next_committee next_epoch (snapshot_bytes current))
        ≤ max_payload_bytes
  payload_fits handoff next_committee next_epoch current hh hn hw = omega (
    arith,
    length-append handoff (next_committee ++ (put_u64 next_epoch ++ snapshot_bytes current)),
    length-append next_committee (put_u64 next_epoch ++ snapshot_bytes current),
    length-snapshot_bytes current hw,
    hw.bytes,
  )

  pub retire_commit_done :
      (s : WalStore) (handoff next_committee : Digest) (next_epoch : ℕ)
      → IsDigest handoff
      → IsDigest next_committee
      → IsWide s.current_snapshot
      → s.next_sequence < u64_max
      → retire_commit blake3 done handoff next_committee next_epoch s
        ≡ (ok persisted, after_retire s handoff next_committee next_epoch)
  unfolding retire_commit
  retire_commit_done s handoff next_committee next_epoch hh hn hw hs = rw (
    encode_snapshot-IsWide s.current_snapshot hw,
    append_done blake3 hash kind_retire
        (retire_payload handoff next_committee next_epoch (snapshot_bytes s.current_snapshot)) s
        (payload_fits handoff next_committee next_epoch s.current_snapshot hh hn hw) hs,
  )

  after_retire-IsDurable :
      (s : WalStore) (handoff next_committee : Digest) (next_epoch : ℕ)
      → IsDurable blake3 s
      → IsDigest handoff
      → IsDigest next_committee
      → s.next_sequence < u64_max
      → s.lifecycle ≡ active
      → ltb u64_max (s.epoch + 1) ≡ false
      → (next_epoch == s.epoch + 1) ≡ true
      → bytes_eq next_committee s.committee_hash ≡ false
      → is_zero handoff ≡ false
      → IsDurable blake3 (after_retire s handoff next_committee next_epoch)
  after_retire-IsDurable s handoff next_committee next_epoch d hh hn hs hl ho he hc hz = record {
    replays =
        replay-append_record blake3 hash s.committee_hash s.epoch s.next_sequence (log_view s)
          (retired_by (log_view s) handoff next_committee next_epoch s.current_snapshot) s.file
          (some (log_view s)) kind_retire
          (retire_payload handoff next_committee next_epoch (snapshot_bytes s.current_snapshot))
          d.replays
          (replay-retire s.committee_hash s.epoch s.next_sequence (log_view s) handoff
            next_committee next_epoch hl hh hn d.wide ho he hc hz)
          (payload_fits handoff next_committee next_epoch s.current_snapshot hh hn d.wide) hs;
    sequence = omega arith;
    wide = d.wide;
    healthy = d.healthy;
    provisioned = d.provisioned;
    unactivated = λ e. absurd (cc);
  }

  -- `retire` changes nothing, or it passed its checks and commits.
  pub retire_cases :
      (io : Io) (s : WalStore) (handoff next_committee : Digest) (next_epoch : ℕ) (root : Digest)
      → ((retire blake3 io handoff next_committee next_epoch root s).1 ≡ s)
        ⊎ ((s.lifecycle ≡ active)
            × (ltb u64_max (s.epoch + 1) ≡ false)
            × ((next_epoch == s.epoch + 1) ≡ true)
            × (bytes_eq next_committee s.committee_hash ≡ false)
            × (bytes_eq root s.current_snapshot.state_root ≡ true)
            × (is_zero handoff ≡ false)
            × (retire blake3 io handoff next_committee next_epoch root s
                ≡ retire_commit blake3 io handoff next_committee next_epoch s))
  unfolding retire retire_by retire_active
  retire_cases io s handoff next_committee next_epoch root = ground arith

  pub retire-IsDurable :
      (s : WalStore) (handoff next_committee : Digest) (next_epoch : ℕ) (root : Digest)
      → IsDurable blake3 s
      → IsDigest handoff
      → IsDigest next_committee
      → s.next_sequence < u64_max
      → IsDurable blake3 (retire blake3 done handoff next_committee next_epoch root s).1
  retire-IsDurable s handoff next_committee next_epoch root d hh hn hs =
      elim (retire_cases done s handoff next_committee next_epoch root) [
        | inl same ↦ rw same d
        | inr (hl, ho, he, hc, hr, hz, e) ↦
            rw (e, retire_commit_done s handoff next_committee next_epoch hh hn d.wide hs)
              (after_retire-IsDurable s handoff next_committee next_epoch d hh hn hs hl ho he hc hz)
      ]
