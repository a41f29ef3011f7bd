-- ===== src/Store/Recovery/Crash/Commits.antt =====
-- The commits of the four methods of `WalStore` when their write is cut short, or goes through.
use avangard.Prelude.{
  ℕ, ◌+◌, ◌≤◌, ◌≡◌, ◌≢◌, true, false, none, List, ◌++◌, ok, arith, take, err, bytes_eq, ltb, ◌==◌,
  ◌||◌, length,
}
use avangard.Prelude.Assoc.{lookup, bytes_has_eq}
use avangard.Store.Types.{
  Digest, Snapshot, WalStore, Io, append_failed, max_payload_bytes, u64_max, failed, persisted,
  initialized, active, snapshot_eq, kind_activate, kind_vote, kind_apply, kind_retire,
  vote_key_has_eq, below_lock_round, conflicts_with_lock,
}
use avangard.Store.Codec.{validate_snapshot, validate_phase, is_zero}
use avangard.Store.Codec.RoundTrip.{IsWide, encode_snapshot-IsWide, snapshot_bytes}
use avangard.Store.Record.{append_record, record_bytes}
use avangard.Store.Record.Framing.{IsHash}
use avangard.Store.Replay.{check_lock}
use avangard.Store.Append.{append, ensure_active}
use avangard.Store.Activate.{activate_commit, activate_by, activate_payload}
use avangard.Store.Votes.{vote_commit, vote_payload}
use avangard.Store.Apply.{apply_commit, apply_payload}
use avangard.Store.Retire.{retire_commit, retire_active, retire_payload}
use avangard.Store.Activate
use avangard.Store.Votes
use avangard.Store.Apply
use avangard.Store.Retire
use avangard.Store.Calls.{Call, activate, persist_vote, apply_verified, retire, call}
use avangard.Store.Recovery.Votes.{key}
use avangard.Store.Recovery.Torn.{append_cut}

module _ (blake3 : List ℕ → Digest) where
  -- No call whose write fails reports a decision as persisted.
  pub failed-ne-persisted :
      (n : ℕ) (c : Call) (s : WalStore) → (call blake3 (failed n) c s).0 ≢ ok persisted
  unfolding call Activate.activate activate_commit Votes.persist_vote vote_commit ensure_active
      Apply.apply_verified apply_commit Retire.retire retire_active retire_commit append
      append_record
  failed-ne-persisted n (activate handoff snapshot) s = ground arith
  failed-ne-persisted n (persist_vote conflict_key round phase digest) s = ground arith
  failed-ne-persisted n (apply_verified tx certificate next) s = ground arith
  failed-ne-persisted n (retire handoff next_committee next_epoch root) s = ground arith

module _ (blake3 : List ℕ → Digest) (hash : IsHash blake3) where
  -- What the commit behind the checks leaves when its write fails.
  abbrev pub cut_store : ℕ → WalStore → ℕ → List ℕ → WalStore
  cut_store n s kind payload = record s {
    file = s.file ++ take n (record_bytes blake3 s.next_sequence kind payload);
    poisoned = true;
  }

  pub activate_cut :
      (n : ℕ) (s : WalStore) (handoff : Digest) (snapshot : Snapshot)
      → IsWide snapshot
      → length (activate_payload handoff (snapshot_bytes snapshot)) ≤ max_payload_bytes
      → activate_commit blake3 (failed n) handoff snapshot s ≡ (
        err append_failed,
        cut_store n s kind_activate (activate_payload handoff (snapshot_bytes snapshot)),
      )
  unfolding activate_commit
  activate_cut n s handoff snapshot hw hp = ground (
    arith,
    encode_snapshot-IsWide snapshot hw,
    append_cut blake3 hash n kind_activate (activate_payload handoff (snapshot_bytes snapshot)) s
        hp,
  )

  pub activate_commits :
      (io : Io) (s : WalStore) (handoff : Digest) (snapshot : Snapshot)
      → s.poisoned ≡ false
      → s.lifecycle ≡ initialized
      → validate_snapshot snapshot s.committee_hash s.epoch ≡ ok tt
      → snapshot_eq snapshot s.current_snapshot ≡ true
      → Activate.activate blake3 io handoff snapshot s
        ≡ activate_commit blake3 io handoff snapshot s
  unfolding Activate.activate
  activate_commits io s handoff snapshot hp hl hv he = ground arith

  pub vote_cut :
      (n : ℕ) (s : WalStore) (conflict_key : Digest) (round phase : ℕ) (digest : Digest)
      → check_lock (lookup conflict_key s.locks) round digest below_lock_round conflicts_with_lock
        ≡ ok tt
      → length (vote_payload conflict_key round phase digest) ≤ max_payload_bytes
      → vote_commit blake3 (failed n) conflict_key round phase digest s ≡ (
        err append_failed,
        cut_store n s kind_vote (vote_payload conflict_key round phase digest),
      )
  unfolding vote_commit
  vote_cut n s conflict_key round phase digest hk hp = ground (
    arith,
    append_cut blake3 hash n kind_vote (vote_payload conflict_key round phase digest) s hp,
  )

  pub vote_commits :
      (io : Io) (s : WalStore) (conflict_key : Digest) (round phase : ℕ) (digest : Digest)
      → s.poisoned ≡ false
      → s.lifecycle ≡ active
      → validate_phase phase ≡ ok tt
      → lookup (key conflict_key round phase) s.votes ≡ none
      → Votes.persist_vote blake3 io conflict_key round phase digest s
        ≡ vote_commit blake3 io conflict_key round phase digest s
  unfolding Votes.persist_vote ensure_active
  vote_commits io s conflict_key round phase digest hp hl hv hn = ground arith

  pub apply_cut :
      (n : ℕ) (s : WalStore) (tx certificate : Digest) (next : Snapshot)
      → IsWide next
      → s.lifecycle ≡ active
      → bytes_eq next.state_root s.current_snapshot.state_root ≡ false
      → length (apply_payload tx certificate s.current_snapshot.state_root (snapshot_bytes next))
        ≤ max_payload_bytes
      → apply_commit blake3 (failed n) tx certificate next s ≡ (
        err append_failed,
        cut_store n s kind_apply
            (apply_payload tx certificate s.current_snapshot.state_root (snapshot_bytes next)),
      )
  unfolding apply_commit
  apply_cut n s tx certificate next hw hl ha hp = ground (
    arith,
    encode_snapshot-IsWide next hw,
    append_cut blake3 hash n kind_apply
        (apply_payload tx certificate s.current_snapshot.state_root (snapshot_bytes next)) s hp,
  )

  pub apply_commits :
      (io : Io) (s : WalStore) (tx certificate : Digest) (next : Snapshot)
      → s.poisoned ≡ false
      → validate_snapshot next s.committee_hash s.epoch ≡ ok tt
      → (is_zero tx || is_zero certificate) ≡ false
      → lookup tx s.applied ≡ none
      → Apply.apply_verified blake3 io tx certificate next s
        ≡ apply_commit blake3 io tx certificate next s
  unfolding Apply.apply_verified
  apply_commits io s tx certificate next hp hv hz hn = ground arith

  pub retire_cut :
      (n : ℕ) (s : WalStore) (handoff next_committee : Digest) (next_epoch : ℕ)
      → IsWide s.current_snapshot
      → length
          (retire_payload handoff next_committee next_epoch (snapshot_bytes s.current_snapshot))
        ≤ max_payload_bytes
      → retire_commit blake3 (failed n) handoff next_committee next_epoch s ≡ (
        err append_failed,
        cut_store n s kind_retire
            (retire_payload handoff next_committee next_epoch (snapshot_bytes s.current_snapshot)),
      )
  unfolding retire_commit
  retire_cut n s handoff next_committee next_epoch hw hp = ground (
    arith,
    encode_snapshot-IsWide s.current_snapshot hw,
    append_cut blake3 hash n kind_retire
        (retire_payload handoff next_committee next_epoch (snapshot_bytes s.current_snapshot)) s hp,
  )

  pub retire_commits :
      (io : Io) (s : WalStore) (handoff next_committee : Digest) (next_epoch : ℕ) (root : Digest)
      → s.poisoned ≡ false
      → s.lifecycle ≡ active
      → ltb u64_max (s.epoch + 1) ≡ false
      → (next_epoch == s.epoch + 1) ≡ true
      → bytes_eq next_committee s.committee_hash ≡ false
      → bytes_eq root s.current_snapshot.state_root ≡ true
      → is_zero handoff ≡ false
      → Retire.retire blake3 io handoff next_committee next_epoch root s
        ≡ retire_commit blake3 io handoff next_committee next_epoch s
  unfolding Retire.retire retire_active
  retire_commits io s handoff next_committee next_epoch root hp hl ho he hc hr hz = ground arith
