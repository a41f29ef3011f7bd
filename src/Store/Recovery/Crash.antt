-- ===== src/Store/Recovery/Crash.antt =====
-- A crash or a failing disk in the middle of any method, and the restart after it.
mod Commits
use avangard.Prelude.{
  ℕ, ◌+◌, ◌≤◌, ◌<◌, ◌≡◌, ◌≢◌, true, false, inl, inr, none, List, ◌++◌, ok, arith, take, err,
  bytes_eq, ltb, ◌==◌, ◌||◌, length,
}
use avangard.Prelude.Assoc.{lookup, bytes_has_eq}
use avangard.Store.Types.{
  Digest, Snapshot, WalStore, Io, append_failed, max_payload_bytes, u64_max, done, failed,
  persisted, initialized, active, snapshot_eq, kind_activate, kind_vote, kind_apply, kind_retire,
  vote_key_has_eq, below_lock_round, conflicts_with_lock,
}
use avangard.Store.Codec.{validate_snapshot, validate_phase, is_zero}
use avangard.Store.Codec.RoundTrip.{IsDigest, IsWide, encode_snapshot-IsWide, snapshot_bytes}
use avangard.Store.Record.{append_record, record_bytes}
use avangard.Store.Record.Framing.{IsHash}
use avangard.Store.Replay.{check_lock}
use avangard.Store.Append.{append, ensure_active}
use avangard.Store.Activate.{activate_commit, activate_by, activate_payload}
use avangard.Store.Votes.{vote_commit, vote_payload}
use avangard.Store.Apply.{apply_commit, apply_payload}
use avangard.Store.Retire.{retire_commit, retire_active, retire_payload}
use avangard.Store.Activate
use avangard.Store.Votes
use avangard.Store.Apply
use avangard.Store.Retire
use avangard.Store.Calls.{Call, activate, persist_vote, apply_verified, retire, call, IsTyped}
use avangard.Store.Recovery.{IsDurable, HasWidths, validated-IsWide}
use avangard.Store.Recovery.Activate.{activate_cases, activate_commit_done}
use avangard.Store.Recovery.Activate as RecoverActivate
use avangard.Store.Recovery.Votes.{vote_cases, vote_commit_done, length-vote_payload, key}
use avangard.Store.Recovery.Apply.{apply_cases, apply_commit_done}
use avangard.Store.Recovery.Apply as RecoverApply
use avangard.Store.Recovery.Retire.{retire_cases, retire_commit_done}
use avangard.Store.Recovery.Retire as RecoverRetire
use avangard.Store.Recovery.Torn.{Restart, append_cut, reopen_after_cut}
use avangard.Store.Recovery.Crash.Commits.{
  failed-ne-persisted, cut_store, activate_cut, activate_commits, vote_cut, vote_commits, apply_cut,
  apply_commits, retire_cut, retire_commits,
}

module _ (blake3 : List ℕ → Digest) (hash : IsHash blake3) (n : ℕ) (s : WalStore)
    (d : IsDurable blake3 s) (room : s.next_sequence < u64_max) where
  abbrev After : List ℕ → List ℕ → Type 0
  After after left = Restart blake3 s.committee_hash s.epoch s.file after left

  crash-activate :
      (handoff : Digest) (snapshot : Snapshot)
      → IsDigest handoff
      → HasWidths snapshot
      → After
          (Activate.activate blake3 done handoff snapshot s).1.file
          (Activate.activate blake3 (failed n) handoff snapshot s).1.file
  crash-activate handoff snapshot hh hw =
      elim (activate_cases blake3 hash (failed n) s handoff snapshot) [
        | inl same ↦ inl (rw same)
        | inr (hl, hv, he, e) ↦
            let wide = validated-IsWide snapshot s.committee_hash s.epoch hw hv in
            let fits = RecoverActivate.payload_fits blake3 hash handoff snapshot hh wide in
            rw
              (
                e,
                activate_commits blake3 hash done s handoff snapshot d.healthy hl hv he,
                activate_commit_done blake3 hash s handoff snapshot hh wide room,
                activate_cut blake3 hash n s handoff snapshot wide fits,
              )
              (reopen_after_cut blake3 hash n s kind_activate
                (activate_payload handoff (snapshot_bytes snapshot)) d room fits)
      ]

  crash-vote :
      (conflict_key : Digest) (round phase : ℕ) (digest : Digest)
      → IsDigest conflict_key
      → IsDigest digest
      → After
          (Votes.persist_vote blake3 done conflict_key round phase digest s).1.file
          (Votes.persist_vote blake3 (failed n) conflict_key round phase digest s).1.file
  crash-vote conflict_key round phase digest hc hd =
      elim (vote_cases blake3 hash (failed n) s conflict_key round phase digest) [
        | inl same ↦ inl (rw same)
        | inr (hl, hp, hv, hk, e) ↦
            let payload = vote_payload conflict_key round phase digest in
            let fits : length payload ≤ max_payload_bytes =
              omega
                (arith, length-vote_payload blake3 hash conflict_key round phase digest hc hd) in
            rw
              (
                e,
                vote_commits blake3 hash done s conflict_key round phase digest d.healthy hl hp hv,
                vote_commit_done blake3 hash s conflict_key round phase digest hc hd room hk,
                vote_cut blake3 hash n s conflict_key round phase digest hk fits,
              )
              (reopen_after_cut blake3 hash n s kind_vote payload d room fits)
      ]

  crash-apply :
      (tx certificate : Digest) (next : Snapshot)
      → IsDigest tx
      → IsDigest certificate
      → HasWidths next
      → After
          (Apply.apply_verified blake3 done tx certificate next s).1.file
          (Apply.apply_verified blake3 (failed n) tx certificate next s).1.file
  crash-apply tx certificate next ht hc hw =
      elim (apply_cases blake3 hash (failed n) s tx certificate next) [
        | inl same ↦ inl (rw same)
        | inr (hl, hv, hz, hf, ha, e) ↦
            let wide = validated-IsWide next s.committee_hash s.epoch hw hv in
            let root = s.current_snapshot.state_root in
            let fits =
              RecoverApply.payload_fits blake3 hash tx certificate root next ht hc d.wide.state_root
                wide in
            rw
              (
                e,
                apply_commits blake3 hash done s tx certificate next d.healthy hv hz hf,
                apply_commit_done blake3 hash s tx certificate next ht hc d.wide.state_root wide
                    room hl ha,
                apply_cut blake3 hash n s tx certificate next wide hl ha fits,
              )
              (reopen_after_cut blake3 hash n s kind_apply
                (apply_payload tx certificate root (snapshot_bytes next)) d room fits)
      ]

  crash-retire :
      (handoff next_committee : Digest) (next_epoch : ℕ) (root : Digest)
      → IsDigest handoff
      → IsDigest next_committee
      → After
          (Retire.retire blake3 done handoff next_committee next_epoch root s).1.file
          (Retire.retire blake3 (failed n) handoff next_committee next_epoch root s).1.file
  crash-retire handoff next_committee next_epoch root hh hn =
      elim (retire_cases blake3 hash (failed n) s handoff next_committee next_epoch root) [
        | inl same ↦ inl (rw same)
        | inr (hl, ho, he, hc, hr, hz, e) ↦
            let current = s.current_snapshot in
            let fits =
              RecoverRetire.payload_fits blake3 hash handoff next_committee next_epoch current hh hn
                d.wide in
            rw
              (
                e,
                retire_commits blake3 hash done s handoff next_committee next_epoch root d.healthy
                    hl ho he hc hr hz,
                retire_commit_done blake3 hash s handoff next_committee next_epoch hh hn d.wide
                    room,
                retire_cut blake3 hash n s handoff next_committee next_epoch d.wide fits,
              )
              (reopen_after_cut blake3 hash n s kind_retire
                (retire_payload handoff next_committee next_epoch (snapshot_bytes current)) d room
                fits)
      ]

  -- On a store whose file replays to it, with a sequence number below the largest, the write of any
  -- call, with arguments of their widths, may be cut short anywhere, or the sync behind it may fail.
  -- The call then does not report a decision as persisted, and a restart reads from the file the
  -- state before the call, or the state after it, or refuses the log as incomplete. The hash has 32
  -- bytes.
  pub crash_recovery :
      (c : Call)
      → IsTyped c
      → ((call blake3 (failed n) c s).0 ≢ ok persisted)
        × After (call blake3 done c s).1.file (call blake3 (failed n) c s).1.file
  unfolding call
  crash_recovery (activate handoff snapshot) t = (
    failed-ne-persisted blake3 n (activate handoff snapshot) s,
    crash-activate handoff snapshot t.0 t.1,
  )
  crash_recovery (persist_vote conflict_key round phase digest) t = (
    failed-ne-persisted blake3 n (persist_vote conflict_key round phase digest) s,
    crash-vote conflict_key round phase digest t.0 t.2,
  )
  crash_recovery (apply_verified tx certificate next) t = (
    failed-ne-persisted blake3 n (apply_verified tx certificate next) s,
    crash-apply tx certificate next t.0 t.1 t.2,
  )
  crash_recovery (retire handoff next_committee next_epoch root) t = (
    failed-ne-persisted blake3 n (retire handoff next_committee next_epoch root) s,
    crash-retire handoff next_committee next_epoch root t.0 t.1,
  )
