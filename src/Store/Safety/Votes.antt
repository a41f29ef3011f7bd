-- ===== src/Store/Safety/Votes.antt =====
-- A vote that is recorded stays, so a validator never gives two digests for one conflict, round and
-- phase.
use avangard.Prelude.{
  ℕ, ◌≡◌, List, [], ◌∷◌, arith, some, ok, eq_of_bytes_eq, Option-cases, inl, inr,
}
use avangard.Prelude.Assoc.{lookup, lookup-insert, lookup-insert_self, bytes_has_eq}
use avangard.Store.Types.{
  Digest, WalStore, Io, VoteKey, vote_key_has_eq, vote_key_eq_iff, PersistOutcome,
}
use avangard.Store.Append.{append, ensure_active}
use avangard.Store.Activate.{activate_commit}
use avangard.Store.Votes.{vote_commit}
use avangard.Store.Apply.{apply_commit}
use avangard.Store.Retire.{retire_commit, retire_active}
use avangard.Store.Activate
use avangard.Store.Votes
use avangard.Store.Apply
use avangard.Store.Retire
use avangard.Store.Calls.{Call, activate, persist_vote, apply_verified, retire, call, run}

abbrev pub key : Digest → ℕ → ℕ → VoteKey
key conflict_key round phase = record { conflict_key = conflict_key; round = round; phase = phase }

module _ (blake3 : List ℕ → Digest) where
  call-vote :
      (io : Io) (c : Call) (s : WalStore) (k : VoteKey) {d : Digest}
      → lookup k s.votes ≡ some d
      → lookup k (call blake3 io c s).1.votes ≡ some d
  unfolding call Activate.activate activate_commit Votes.persist_vote vote_commit ensure_active
      Apply.apply_verified apply_commit Retire.retire retire_active retire_commit append
  call-vote io (activate handoff snapshot) s k h = ground arith
  call-vote io (persist_vote conflict_key round phase digest) s k h = ground (
    arith,
    lookup-insert (key conflict_key round phase) k digest s.votes,
    vote_key_eq_iff (key conflict_key round phase) k,
  )
  call-vote io (apply_verified tx certificate next) s k h = ground arith
  call-vote io (retire handoff next_committee next_epoch root) s k h = ground arith

  pub run-vote :
      (calls : List (Io × Call)) (s : WalStore) (k : VoteKey) {d : Digest}
      → lookup k s.votes ≡ some d
      → lookup k (run blake3 calls s).votes ≡ some d
  unfolding run
  run-vote [] s k h = h
  run-vote ((io, c) ∷ rest) s k h = run-vote rest (call blake3 io c s).1 k (call-vote io c s k h)

  -- A vote that was accepted is recorded, whether it is new or a repetition.
  pub accepted_vote :
      (io : Io) (s : WalStore) (conflict_key : Digest) (round phase : ℕ) (digest : Digest)
      {outcome : PersistOutcome}
      → (Votes.persist_vote blake3 io conflict_key round phase digest s).0 ≡ ok outcome
      → lookup
          (key conflict_key round phase)
          (Votes.persist_vote blake3 io conflict_key round phase digest s).1.votes
        ≡ some digest
  unfolding Votes.persist_vote vote_commit ensure_active append
  accepted_vote io s conflict_key round phase digest h =
      elim (Option-cases (lookup (key conflict_key round phase) s.votes)) [
        | inl new ↦ ground (arith, lookup-insert_self (key conflict_key round phase) digest s.votes)
        | inr (old, e) ↦ ground (arith, eq_of_bytes_eq old digest)
      ]

  -- Once a vote for a conflict, round and phase was accepted, a later one for them is accepted only with
  -- the same digest: whatever is called in between, and however the writes of all these calls go.
  pub no_equivocation :
      (io io' : Io) (s : WalStore) (calls : List (Io × Call)) (conflict_key : Digest)
      (round phase : ℕ) (digest digest' : Digest) {outcome outcome' : PersistOutcome}
      → (Votes.persist_vote blake3 io conflict_key round phase digest s).0 ≡ ok outcome
      → (Votes.persist_vote blake3 io' conflict_key round phase digest'
          (run blake3 calls (Votes.persist_vote blake3 io conflict_key round phase digest s).1)).0
        ≡ ok outcome'
      → digest ≡ digest'
  no_equivocation io io' s calls conflict_key round phase digest digest' h h' =
      let k = key conflict_key round phase in
      let s₁ = (Votes.persist_vote blake3 io conflict_key round phase digest s).1 in
      let s₂ = run blake3 calls s₁ in
      let kept = run-vote calls s₁ k (accepted_vote io s conflict_key round phase digest h) in
      let first = call-vote io' (persist_vote conflict_key round phase digest') s₂ k kept in
      let second = accepted_vote io' s₂ conflict_key round phase digest' h' in unfold call in cc
