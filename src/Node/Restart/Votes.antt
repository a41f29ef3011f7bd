-- ===== src/Node/Restart/Votes.antt =====
-- A vote of integration001/src/node.rs keeps the log, the memory and the state of the server together.
use avangard.Prelude.{
  ℕ, ◌<◌, ◌≡◌, ap, sym, subst, ◌∙◌, List, Result, ok, err, arith, inl, inr, Bool-cases,
  Result-cases,
}
use avangard.Store.Types.{Digest, WalStore, Io, u64_max, done}
use avangard.Store.Codec.RoundTrip.{IsDigest, IsU64}
use avangard.Store.Append.{append, ensure_active}
use avangard.Store.Votes.{persist_vote, vote_commit}
use avangard.Store.Recovery.Votes.{persist_vote-IsDurable}
use avangard.Store.Calls.{call}
use avangard.Store.Calls
use avangard.Store.Calls.Unchanged.{call-SameStore}
use avangard.Model.Types.{Keys, Qc, Proposal, phase_prevote, phase_precommit, hash_domain}
use avangard.Model.Transaction.{conflict_key}
use avangard.Wire.Messages.Typed.{IsTypedProposal}
use avangard.Node.{
  NodeServer, NodeRejection, prevote, precommit, persist_and_sign, after_persist, check_prevote,
  check_precommit,
}
use avangard.Node.Open.{NodeConfig, Setup}
use avangard.Node.Voting.{prevote-honest, precommit-honest}
use avangard.Node.Restart.Typed.{IsKeyed}
use avangard.Node.Restart.Ready.{IsStored, IsReady}

-- What a vote leaves of a store.
record KeepsState (s t : WalStore) : Type 0 where
  lifecycle : t.lifecycle ≡ s.lifecycle
  current_snapshot : t.current_snapshot ≡ s.current_snapshot
  applied : t.applied ≡ s.applied

persist_vote-KeepsState :
    (blake3 : List ℕ → Digest) (io : Io) (conflict : Digest) (round phase : ℕ) (digest : Digest)
    (s : WalStore)
    → KeepsState s (persist_vote blake3 io conflict round phase digest s).1
unfolding persist_vote vote_commit ensure_active append
persist_vote-KeepsState blake3 io conflict round phase digest s = ground arith

module _ (keys : Keys) (keyed : IsKeyed keys) (config : NodeConfig) (setup : Setup) where
  persist_vote-IsReady :
      (server : NodeServer) (conflict : Digest) (round phase : ℕ) (digest : Digest)
      → IsDigest conflict
      → IsU64 round
      → IsDigest digest
      → server.store.next_sequence < u64_max
      → IsReady keys config setup server
      → IsReady keys config setup (record server {
        store = (persist_vote keys.blake3 done conflict round phase digest server.store).1;
      })
  unfolding call
  persist_vote-IsReady server conflict round phase digest hc hr hd fits r =
      let store = server.store in
      let next = (persist_vote keys.blake3 done conflict round phase digest store).1 in
      let kept = persist_vote-KeepsState keys.blake3 done conflict round phase digest store in
      let same =
        call-SameStore keys.blake3 done (Calls.persist_vote conflict round phase digest) store in
      record {
        made = ap {A = NodeServer} (λ s. record s { store = next }) r.made;
        durable =
            persist_vote-IsDurable keys.blake3 keyed.hash store conflict round phase digest
              r.durable hc hr hd fits;
        lifecycle = kept.lifecycle ∙ r.lifecycle;
        store_committee = same.committee_hash ∙ r.store_committee;
        store_epoch = same.epoch ∙ r.store_epoch;
        initial = same.initial_snapshot ∙ r.initial;
        stored =
            subst (λ t. IsStored keys config setup server.state t next.applied)
              (sym kept.current_snapshot)
              (subst (λ t. IsStored keys config setup server.state store.current_snapshot t)
                (sym kept.applied) r.stored);
      }

  persist_and_sign-IsReady :
      (server : NodeServer) (phase round : ℕ) (conflict intent : Digest)
      (checked : Result NodeRejection Digest)
      → IsDigest conflict
      → IsU64 round
      → IsDigest intent
      → server.store.next_sequence < u64_max
      → IsReady keys config setup server
      → IsReady keys config setup
          (persist_and_sign keys done server phase round conflict intent checked).1
  unfolding persist_and_sign after_persist
  persist_and_sign-IsReady server phase round conflict intent (err e) hc hr hi fits r = r
  persist_and_sign-IsReady server phase round conflict intent (ok justify) hc hr hi fits r =
      let next = persist_vote-IsReady server conflict round phase intent hc hr hi fits r in
      elim (Result-cases
        (persist_vote keys.blake3 done conflict round phase intent server.store).0) [
          | inl (outcome, e) ↦ subst (IsReady keys config setup) (ground arith) next
          | inr (x, e) ↦ subst (IsReady keys config setup) (ground arith) next
        ]

  pub prevote-IsReady :
      (proposal : Proposal) (server : NodeServer)
      → IsTypedProposal proposal
      → server.store.next_sequence < u64_max
      → IsReady keys config setup server
      → IsReady keys config setup (prevote keys done proposal server).1
  unfolding prevote conflict_key hash_domain
  prevote-IsReady proposal server t fits r = elim (Bool-cases server.byzantine) [
    | inl byzantine ↦ subst (IsReady keys config setup) (ground arith) r
    | inr honest ↦ rw (prevote-honest keys done proposal server honest) (
        persist_and_sign-IsReady server phase_prevote proposal.round
          (conflict_key keys proposal.tx.input.reference) proposal.intent
          (check_prevote keys server proposal) (keyed.hash _) t.round t.intent fits r)
  ]

  pub precommit-IsReady :
      (proposal : Proposal) (qc : Qc) (server : NodeServer)
      → IsTypedProposal proposal
      → server.store.next_sequence < u64_max
      → IsReady keys config setup server
      → IsReady keys config setup (precommit keys done proposal qc server).1
  unfolding precommit conflict_key hash_domain
  precommit-IsReady proposal qc server t fits r = elim (Bool-cases server.byzantine) [
    | inl byzantine ↦ subst (IsReady keys config setup) (ground arith) r
    | inr honest ↦ rw (precommit-honest keys done proposal qc server honest) (
        persist_and_sign-IsReady server phase_precommit proposal.round
          (conflict_key keys proposal.tx.input.reference) proposal.intent
          (check_precommit keys server proposal qc) (keyed.hash _) t.round t.intent fits r)
  ]
