-- ===== src/Store/Recovery/Votes.antt =====
-- `persist_vote` keeps the log and the memory in agreement.
use avangard.Prelude.{
  ℕ, ◌+◌, ◌<◌, ◌≡◌, refl, ◌⊎◌, inl, inr, Option, none, some, List, ◌∷◌, ◌++◌, length, length-append,
  ok, arith, if◌then◌else◌, ◌==◌,
}
use avangard.Prelude.Assoc.{lookup, insert, bytes_has_eq}
use avangard.Store.Types.{
  Digest, active, WalStore, ReplayState, Error, u64_max, done, Io, persisted, kind_vote,
  vote_key_has_eq, phase_precommit, below_lock_round, conflicts_with_lock, durable_below_lock,
  durable_conflicts_lock, VoteKey, PrecommitLock,
}
use avangard.Store.Codec.{validate_phase, finish, put_u64}
use avangard.Store.Codec.RoundTrip.{
  IsDigest, IsU64, take_digest-append, take_digest_all, take_u64-append, take_u8-cons,
}
use avangard.Store.Record.Framing.{IsHash}
use avangard.Store.Record.{record_bytes}
use avangard.Store.Replay.{
  replay_frame, replay_record, replay_arm, replay_vote, voted, check_lock, check_fresh_vote,
}
use avangard.Store.Votes.{persist_vote, vote_by, vote_commit, vote_payload}
use avangard.Store.Append.{ensure_active}
use avangard.Store.Recovery.{IsDurable, log_view, replay-append_record, append_done}

abbrev pub key : Digest → ℕ → ℕ → VoteKey
key conflict_key round phase = record { conflict_key = conflict_key; round = round; phase = phase }

-- The lock test of the methods passes exactly when that of the replay does.
check_lock_errors :
    (lock : Option PrecommitLock) (round : ℕ) (digest : Digest) (a b c d : Error)
    → check_lock lock round digest a b ≡ ok tt
    → check_lock lock round digest c d ≡ ok tt
unfolding check_lock
check_lock_errors none round digest a b c d h = refl
check_lock_errors (some lock) round digest a b c d h = ground arith

-- The record that `persist_vote` writes replays to what `persist_vote` does.
pub replay-vote :
    (committee : Digest) (epoch sequence : ℕ) (state : ReplayState) (conflict_key : Digest)
    (round phase : ℕ) (digest : Digest)
    → state.lifecycle ≡ active
    → IsDigest conflict_key
    → IsU64 round
    → IsDigest digest
    → validate_phase phase ≡ ok tt
    → lookup (key conflict_key round phase) state.votes ≡ none
    → check_lock (lookup conflict_key state.locks) round digest below_lock_round conflicts_with_lock
      ≡ ok tt
    → replay_frame committee epoch sequence
        (some state)
        kind_vote
        (vote_payload conflict_key round phase digest)
      ≡ ok (voted state conflict_key round phase digest)
unfolding replay_frame replay_record replay_arm replay_vote finish check_fresh_vote
replay-vote committee epoch sequence state conflict_key round phase digest hl hc hr hd hp hv hk =
    rw
      (
        take_digest-append conflict_key (put_u64 round ++ (phase ∷ digest)) hc,
        take_u64-append round (phase ∷ digest) hr,
        take_u8-cons phase digest,
        take_digest_all digest hd,
        hv,
        hp,
      )
      (ground (
        arith,
        check_lock_errors (lookup conflict_key state.locks) round digest below_lock_round
            conflicts_with_lock durable_below_lock durable_conflicts_lock hk,
      ))

module _ (blake3 : List ℕ → Digest) (hash : IsHash blake3) where
  abbrev pub after_vote : WalStore → Digest → ℕ → ℕ → Digest → WalStore
  after_vote s conflict_key round phase digest = record s {
    file =
        s.file
        ++ record_bytes blake3 s.next_sequence kind_vote
            (vote_payload conflict_key round phase digest);
    next_sequence = s.next_sequence + 1;
    votes = insert (key conflict_key round phase) digest s.votes;
    locks =
        if phase == phase_precommit
        then insert conflict_key (record { round = round; digest = digest }) s.locks
        else s.locks;
  }

  pub length-vote_payload :
      (conflict_key : Digest) (round phase : ℕ) (digest : Digest)
      → IsDigest conflict_key
      → IsDigest digest
      → length (vote_payload conflict_key round phase digest) ≡ 73
  length-vote_payload conflict_key round phase digest hc hd =
      omega (arith, length-append conflict_key (put_u64 round ++ (phase ∷ digest)))

  pub vote_commit_done :
      (s : WalStore) (conflict_key : Digest) (round phase : ℕ) (digest : Digest)
      → IsDigest conflict_key
      → IsDigest digest
      → s.next_sequence < u64_max
      → check_lock (lookup conflict_key s.locks) round digest below_lock_round conflicts_with_lock
        ≡ ok tt
      → vote_commit blake3 done conflict_key round phase digest s
        ≡ (ok persisted, after_vote s conflict_key round phase digest)
  unfolding vote_commit
  vote_commit_done s conflict_key round phase digest hc hd hs hk = rw (
    hk,
    append_done blake3 hash kind_vote (vote_payload conflict_key round phase digest) s
        (omega (arith, length-vote_payload conflict_key round phase digest hc hd)) hs,
  )

  after_vote-IsDurable :
      (s : WalStore) (conflict_key : Digest) (round phase : ℕ) (digest : Digest)
      → IsDurable blake3 s
      → IsDigest conflict_key
      → IsU64 round
      → IsDigest digest
      → s.next_sequence < u64_max
      → s.lifecycle ≡ active
      → validate_phase phase ≡ ok tt
      → lookup (key conflict_key round phase) s.votes ≡ none
      → check_lock (lookup conflict_key s.locks) round digest below_lock_round conflicts_with_lock
        ≡ ok tt
      → IsDurable blake3 (after_vote s conflict_key round phase digest)
  after_vote-IsDurable s conflict_key round phase digest d hc hr hd hs hl hp hv hk = record {
    replays =
        replay-append_record blake3 hash s.committee_hash s.epoch s.next_sequence (log_view s)
          (voted (log_view s) conflict_key round phase digest) s.file (some (log_view s)) kind_vote
          (vote_payload conflict_key round phase digest) d.replays
          (replay-vote s.committee_hash s.epoch s.next_sequence (log_view s) conflict_key round
            phase digest hl hc hr hd hp hv hk)
          (omega (arith, length-vote_payload conflict_key round phase digest hc hd)) hs;
    sequence = omega arith;
    wide = d.wide;
    healthy = d.healthy;
    provisioned = d.provisioned;
    unactivated = d.unactivated;
  }

  -- `persist_vote` changes nothing, or it passed its checks and commits.
  pub vote_cases :
      (io : Io) (s : WalStore) (conflict_key : Digest) (round phase : ℕ) (digest : Digest)
      → ((persist_vote blake3 io conflict_key round phase digest s).1 ≡ s)
        ⊎ ((s.lifecycle ≡ active)
            × (validate_phase phase ≡ ok tt)
            × (lookup (key conflict_key round phase) s.votes ≡ none)
            × (check_lock
                  (lookup conflict_key s.locks)
                  round
                  digest
                  below_lock_round
                  conflicts_with_lock
                ≡ ok tt)
            × (persist_vote blake3 io conflict_key round phase digest s
                ≡ vote_commit blake3 io conflict_key round phase digest s))
  unfolding persist_vote vote_by vote_commit ensure_active
  vote_cases io s conflict_key round phase digest = ground arith

  pub persist_vote-IsDurable :
      (s : WalStore) (conflict_key : Digest) (round phase : ℕ) (digest : Digest)
      → IsDurable blake3 s
      → IsDigest conflict_key
      → IsU64 round
      → IsDigest digest
      → s.next_sequence < u64_max
      → IsDurable blake3 (persist_vote blake3 done conflict_key round phase digest s).1
  persist_vote-IsDurable s conflict_key round phase digest d hc hr hd hs =
      elim (vote_cases done s conflict_key round phase digest) [
        | inl same ↦ rw same d
        | inr (hl, hp, hv, hk, e) ↦
            rw (e, vote_commit_done s conflict_key round phase digest hc hd hs hk)
              (after_vote-IsDurable s conflict_key round phase digest d hc hr hd hs hl hp hv hk)
      ]
