-- ===== src/Store/Recovery/Activate.antt =====
-- `activate` keeps the log and the memory in agreement.
use avangard.Prelude.{
  ℕ, ◌+◌, ◌≤◌, ◌<◌, ◌≡◌, true, ◌⊎◌, inl, inr, none, some, List, ◌++◌, length, length-append, ok,
  arith,
}
use avangard.Store.Types.{
  Digest, Snapshot, initialized, active, WalStore, ReplayState, u64_max, max_payload_bytes, done,
  Io, snapshot_eq, persisted, kind_activate,
}
use avangard.Store.Codec.{validate_snapshot, finish}
use avangard.Store.Codec.RoundTrip.{
  IsDigest, IsWide, snapshot_bytes, encode_snapshot-IsWide, length-snapshot_bytes,
  decode_snapshot_all, take_digest-append,
}
use avangard.Store.Record.Framing.{IsHash}
use avangard.Store.Record.{record_bytes}
use avangard.Store.Replay.{replay_frame, replay_record, replay_arm, replay_activate, activated}
use avangard.Store.Activate.{activate, activate_by, activate_commit, activate_payload}
use avangard.Store.Append.{ensure_healthy}
use avangard.Store.Recovery.{
  HasWidths, validated-IsWide, IsDurable, log_view, replay-append_record, append_done,
}

-- The record that `activate` writes replays to what `activate` does.
pub replay-activate :
    (committee : Digest) (epoch sequence : ℕ) (state : ReplayState) (handoff_hash : Digest)
    (snapshot : Snapshot)
    → state.lifecycle ≡ initialized
    → state.activation ≡ none
    → IsDigest handoff_hash
    → IsWide snapshot
    → validate_snapshot snapshot committee epoch ≡ ok tt
    → snapshot_eq snapshot state.current_snapshot ≡ true
    → replay_frame committee epoch sequence
        (some state)
        kind_activate
        (activate_payload handoff_hash (snapshot_bytes snapshot))
      ≡ ok (activated state handoff_hash snapshot)
unfolding replay_frame replay_record replay_arm replay_activate finish
replay-activate committee epoch sequence state handoff_hash snapshot hl ha hd hw hv he =
    rw
      (
        take_digest-append handoff_hash (snapshot_bytes snapshot) hd,
        decode_snapshot_all snapshot hw,
      )
      (ground arith)

module _ (blake3 : List ℕ → Digest) (hash : IsHash blake3) where
  abbrev pub after_activate : WalStore → Digest → Snapshot → WalStore
  after_activate s handoff_hash snapshot = record s {
    file =
        s.file
        ++ record_bytes blake3 s.next_sequence kind_activate
            (activate_payload handoff_hash (snapshot_bytes snapshot));
    next_sequence = s.next_sequence + 1;
    lifecycle = active;
    current_snapshot = snapshot;
    activation = some (record { handoff_hash = handoff_hash; snapshot = snapshot });
  }

  pub payload_fits :
      (handoff_hash : Digest) (snapshot : Snapshot)
      → IsDigest handoff_hash
      → IsWide snapshot
      → length (activate_payload handoff_hash (snapshot_bytes snapshot)) ≤ max_payload_bytes
  payload_fits handoff_hash snapshot hd hw = omega (
    arith,
    length-append handoff_hash (snapshot_bytes snapshot),
    length-snapshot_bytes snapshot hw,
    hw.bytes,
  )

  pub activate_commit_done :
      (s : WalStore) (handoff_hash : Digest) (snapshot : Snapshot)
      → IsDigest handoff_hash
      → IsWide snapshot
      → s.next_sequence < u64_max
      → activate_commit blake3 done handoff_hash snapshot s
        ≡ (ok persisted, after_activate s handoff_hash snapshot)
  unfolding activate_commit
  activate_commit_done s handoff_hash snapshot hd hw hs = rw (
    encode_snapshot-IsWide snapshot hw,
    append_done blake3 hash kind_activate (activate_payload handoff_hash (snapshot_bytes snapshot))
        s (payload_fits handoff_hash snapshot hd hw) hs,
  )

  after_activate-IsDurable :
      (s : WalStore) (handoff_hash : Digest) (snapshot : Snapshot)
      → IsDurable blake3 s
      → IsDigest handoff_hash
      → IsWide snapshot
      → s.next_sequence < u64_max
      → s.lifecycle ≡ initialized
      → validate_snapshot snapshot s.committee_hash s.epoch ≡ ok tt
      → snapshot_eq snapshot s.current_snapshot ≡ true
      → IsDurable blake3 (after_activate s handoff_hash snapshot)
  after_activate-IsDurable s handoff_hash snapshot d hd hw hs hl hv he = record {
    replays =
        replay-append_record blake3 hash s.committee_hash s.epoch s.next_sequence (log_view s)
          (activated (log_view s) handoff_hash snapshot) s.file (some (log_view s)) kind_activate
          (activate_payload handoff_hash (snapshot_bytes snapshot)) d.replays
          (replay-activate s.committee_hash s.epoch s.next_sequence (log_view s) handoff_hash
            snapshot hl (d.unactivated hl) hd hw hv he)
          (payload_fits handoff_hash snapshot hd hw) hs;
    sequence = omega arith;
    wide = hw;
    healthy = d.healthy;
    provisioned = d.provisioned;
    unactivated = λ e. absurd (cc);
  }

  -- `activate` changes nothing, or it passed its checks and commits.
  pub activate_cases :
      (io : Io) (s : WalStore) (handoff_hash : Digest) (snapshot : Snapshot)
      → ((activate blake3 io handoff_hash snapshot s).1 ≡ s)
        ⊎ ((s.lifecycle ≡ initialized)
            × (validate_snapshot snapshot s.committee_hash s.epoch ≡ ok tt)
            × (snapshot_eq snapshot s.current_snapshot ≡ true)
            × (activate blake3 io handoff_hash snapshot s
                ≡ activate_commit blake3 io handoff_hash snapshot s))
  unfolding activate activate_by ensure_healthy
  activate_cases io s handoff_hash snapshot = ground arith

  pub activate-IsDurable :
      (s : WalStore) (handoff_hash : Digest) (snapshot : Snapshot)
      → IsDurable blake3 s
      → IsDigest handoff_hash
      → HasWidths snapshot
      → s.next_sequence < u64_max
      → IsDurable blake3 (activate blake3 done handoff_hash snapshot s).1
  activate-IsDurable s handoff_hash snapshot d hd hw hs =
      elim (activate_cases done s handoff_hash snapshot) [
        | inl same ↦ rw same d
        | inr (hl, hv, he, e) ↦
            let wide = validated-IsWide snapshot s.committee_hash s.epoch hw hv in
            rw (e, activate_commit_done s handoff_hash snapshot hd wide hs)
              (after_activate-IsDurable s handoff_hash snapshot d hd wide hs hl hv he)
      ]
