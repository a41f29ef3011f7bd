-- ===== src/Store/Recovery/Apply.antt =====
-- `apply_verified` keeps the log and the memory in agreement.
use avangard.Prelude.{
  ℕ, ◌+◌, ◌≤◌, ◌<◌, ◌≡◌, false, ◌⊎◌, inl, inr, none, some, List, ◌++◌, length, length-append, ok,
  arith, bytes_eq, ◌||◌, bytes_eq_refl,
}
use avangard.Prelude.Assoc.{lookup, insert, bytes_has_eq}
use avangard.Store.Types.{
  Digest, Snapshot, active, WalStore, ReplayState, u64_max, max_payload_bytes, done, Io, persisted,
  kind_apply, AppliedRecord,
}
use avangard.Store.Codec.{validate_snapshot, finish, is_zero}
use avangard.Store.Codec.RoundTrip.{
  IsDigest, IsWide, snapshot_bytes, encode_snapshot-IsWide, length-snapshot_bytes,
  decode_snapshot_all, take_digest-append,
}
use avangard.Store.Record.Framing.{IsHash}
use avangard.Store.Record.{record_bytes}
use avangard.Store.Replay.{replay_frame, replay_record, replay_arm, replay_apply, applied_by}
use avangard.Store.Apply.{apply_verified, apply_by, apply_commit, apply_payload}
use avangard.Store.Recovery.{
  HasWidths, validated-IsWide, IsDurable, log_view, replay-append_record, append_done,
}

abbrev pub entry : Digest → Digest → Digest → Snapshot → AppliedRecord
entry tx_digest certificate_digest prior_state_root next_snapshot = record {
  tx_digest = tx_digest;
  certificate_digest = certificate_digest;
  prior_state_root = prior_state_root;
  next_snapshot = next_snapshot;
}

-- The record that `apply_verified` writes replays to what `apply_verified` does.
pub replay-apply :
    (committee : Digest) (epoch sequence : ℕ) (state : ReplayState) (tx certificate : Digest)
    (next : Snapshot)
    → state.lifecycle ≡ active
    → IsDigest tx
    → IsDigest certificate
    → IsDigest state.current_snapshot.state_root
    → IsWide next
    → validate_snapshot next committee epoch ≡ ok tt
    → (is_zero tx || is_zero certificate) ≡ false
    → lookup tx state.applied ≡ none
    → bytes_eq next.state_root state.current_snapshot.state_root ≡ false
    → replay_frame committee epoch sequence
        (some state)
        kind_apply
        (apply_payload tx certificate state.current_snapshot.state_root (snapshot_bytes next))
      ≡ ok (applied_by state (entry tx certificate state.current_snapshot.state_root next))
unfolding replay_frame replay_record replay_arm replay_apply finish
replay-apply committee epoch sequence state tx certificate next hl ht hc hr hw hv hz hf ha =
    let root = state.current_snapshot.state_root in
    rw
      (
        take_digest-append tx (certificate ++ (root ++ snapshot_bytes next)) ht,
        take_digest-append certificate (root ++ snapshot_bytes next) hc,
        take_digest-append root (snapshot_bytes next) hr,
        decode_snapshot_all next hw,
      )
      (ground (arith, bytes_eq_refl root))

module _ (blake3 : List ℕ → Digest) (hash : IsHash blake3) where
  abbrev pub after_apply : WalStore → Digest → Digest → Snapshot → WalStore
  after_apply s tx certificate next = record s {
    file =
        s.file
        ++ record_bytes blake3 s.next_sequence kind_apply
            (apply_payload tx certificate s.current_snapshot.state_root (snapshot_bytes next));
    next_sequence = s.next_sequence + 1;
    applied = insert tx (entry tx certificate s.current_snapshot.state_root next) s.applied;
    current_snapshot = next;
  }

  pub payload_fits :
      (tx certificate root : Digest) (next : Snapshot)
      → IsDigest tx
      → IsDigest certificate
      → IsDigest root
      → IsWide next
      → length (apply_payload tx certificate root (snapshot_bytes next)) ≤ max_payload_bytes
  payload_fits tx certificate root next ht hc hr hw = omega (
    arith,
    length-append tx (certificate ++ (root ++ snapshot_bytes next)),
    length-append certificate (root ++ snapshot_bytes next),
    length-append root (snapshot_bytes next),
    length-snapshot_bytes next hw,
    hw.bytes,
  )

  pub apply_commit_done :
      (s : WalStore) (tx certificate : Digest) (next : Snapshot)
      → IsDigest tx
      → IsDigest certificate
      → IsDigest s.current_snapshot.state_root
      → IsWide next
      → s.next_sequence < u64_max
      → s.lifecycle ≡ active
      → bytes_eq next.state_root s.current_snapshot.state_root ≡ false
      → apply_commit blake3 done tx certificate next s
        ≡ (ok persisted, after_apply s tx certificate next)
  unfolding apply_commit
  apply_commit_done s tx certificate next ht hc hr hw hs hl ha = ground (
    arith,
    encode_snapshot-IsWide next hw,
    append_done blake3 hash kind_apply
        (apply_payload tx certificate s.current_snapshot.state_root (snapshot_bytes next)) s
        (payload_fits tx certificate s.current_snapshot.state_root next ht hc hr hw) hs,
  )

  after_apply-IsDurable :
      (s : WalStore) (tx certificate : Digest) (next : Snapshot)
      → IsDurable blake3 s
      → IsDigest tx
      → IsDigest certificate
      → IsWide next
      → s.next_sequence < u64_max
      → s.lifecycle ≡ active
      → validate_snapshot next s.committee_hash s.epoch ≡ ok tt
      → (is_zero tx || is_zero certificate) ≡ false
      → lookup tx s.applied ≡ none
      → bytes_eq next.state_root s.current_snapshot.state_root ≡ false
      → IsDurable blake3 (after_apply s tx certificate next)
  after_apply-IsDurable s tx certificate next d ht hc hw hs hl hv hz hf ha = record {
    replays =
        replay-append_record blake3 hash s.committee_hash s.epoch s.next_sequence (log_view s)
          (applied_by (log_view s) (entry tx certificate s.current_snapshot.state_root next)) s.file
          (some (log_view s)) kind_apply
          (apply_payload tx certificate s.current_snapshot.state_root (snapshot_bytes next))
          d.replays
          (replay-apply s.committee_hash s.epoch s.next_sequence (log_view s) tx certificate next hl
            ht hc d.wide.state_root hw hv hz hf ha)
          (payload_fits tx certificate s.current_snapshot.state_root next ht hc d.wide.state_root
            hw)
          hs;
    sequence = omega arith;
    wide = hw;
    healthy = d.healthy;
    provisioned = d.provisioned;
    unactivated = d.unactivated;
  }

  -- `apply_verified` changes nothing, or it passed its checks and commits.
  pub apply_cases :
      (io : Io) (s : WalStore) (tx certificate : Digest) (next : Snapshot)
      → ((apply_verified blake3 io tx certificate next s).1 ≡ s)
        ⊎ ((s.lifecycle ≡ active)
            × (validate_snapshot next s.committee_hash s.epoch ≡ ok tt)
            × ((is_zero tx || is_zero certificate) ≡ false)
            × (lookup tx s.applied ≡ none)
            × (bytes_eq next.state_root s.current_snapshot.state_root ≡ false)
            × (apply_verified blake3 io tx certificate next s
                ≡ apply_commit blake3 io tx certificate next s))
  unfolding apply_verified apply_by apply_commit
  apply_cases io s tx certificate next = ground arith

  pub apply_verified-IsDurable :
      (s : WalStore) (tx certificate : Digest) (next : Snapshot)
      → IsDurable blake3 s
      → IsDigest tx
      → IsDigest certificate
      → HasWidths next
      → s.next_sequence < u64_max
      → IsDurable blake3 (apply_verified blake3 done tx certificate next s).1
  apply_verified-IsDurable s tx certificate next d ht hc hw hs =
      elim (apply_cases done s tx certificate next) [
        | inl same ↦ rw same d
        | inr (hl, hv, hz, hf, ha, e) ↦
            let wide = validated-IsWide next s.committee_hash s.epoch hw hv in
            rw (e, apply_commit_done s tx certificate next ht hc d.wide.state_root wide hs hl ha)
              (after_apply-IsDurable s tx certificate next d ht hc wide hs hl hv hz hf ha)
      ]
