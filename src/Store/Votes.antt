-- ===== src/Store/Votes.antt =====
-- `WalStore::persist_vote` of integration001/src/store.rs.
use avangard.Prelude.{ℕ, ◌==◌, Option, none, some, List, ◌∷◌, ◌++◌, bytes_eq, if◌then◌else◌}
use avangard.Prelude.Assoc.{lookup, insert, bytes_has_eq}
use avangard.Store.Types.{
  Digest, PersistOutcome, persisted, already_present, vote_key_has_eq, Io, phase_precommit,
  kind_vote, conflicting_vote, below_lock_round, conflicts_with_lock,
}
use avangard.Store.Codec.{put_u64, validate_phase}
use avangard.Store.Replay.{check_lock}
use avangard.Store.Method.{Method, pure, fail, lift, gets, modify, ◌>>=◌, ◌>>◌}
use avangard.Store.Append.{ensure_active, append}

abbrev pub vote_payload : Digest → ℕ → ℕ → Digest → List ℕ
vote_payload conflict_key round phase digest = conflict_key ++ (put_u64 round ++ (phase ∷ digest))

module _ (blake3 : List ℕ → Digest) (io : Io) where
  -- `persist_vote` behind the lookup of an earlier vote
  unfoldable pub vote_commit : Digest → ℕ → ℕ → Digest → Method PersistOutcome
  vote_commit conflict_key round phase digest = do
    locks ← gets (λ s. s.locks)
    lift (check_lock (lookup conflict_key locks) round digest below_lock_round conflicts_with_lock)
    append blake3 io kind_vote (vote_payload conflict_key round phase digest)
    modify (λ s. record s {
      votes =
          insert (record { conflict_key = conflict_key; round = round; phase = phase }) digest
            s.votes;
    })
    modify (λ s. record s {
      locks =
          if phase == phase_precommit
          then insert conflict_key (record { round = round; digest = digest }) s.locks
          else s.locks;
    })
    pure persisted

  unfoldable pub vote_by : Option Digest → Digest → ℕ → ℕ → Digest → Method PersistOutcome
  unfolding vote_commit
  vote_by (some existing) conflict_key round phase digest =
      if bytes_eq existing digest then pure already_present else fail conflicting_vote
  vote_by none conflict_key round phase digest = vote_commit conflict_key round phase digest

  unfoldable pub persist_vote : Digest → ℕ → ℕ → Digest → Method PersistOutcome
  unfolding ensure_active vote_by
  persist_vote conflict_key round phase digest = do
    ensure_active
    lift (validate_phase phase)
    votes ← gets (λ s. s.votes)
    vote_by (lookup (record { conflict_key = conflict_key; round = round; phase = phase }) votes)
        conflict_key round phase digest
