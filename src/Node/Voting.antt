-- ===== src/Node/Voting.antt =====
-- Votes of integration001/src/node.rs and the store of the server: recorded before they are signed.
use avangard.Prelude.{
  ℕ, ◌≡◌, refl, false, some, List, Result, ok, err, arith, inl, inr, Result-cases,
}
use avangard.Prelude.Assoc.{lookup}
use avangard.Store.Types.{Digest, WalStore, Io, vote_key_has_eq}
use avangard.Store.Votes
use avangard.Store.Safety.Votes.{key, accepted_vote}
use avangard.Model.Types.{
  CommitteeManifest, Vote, Keys, Qc, Proposal, phase_prevote, phase_precommit,
}
use avangard.Model.Transaction.{conflict_key}
use avangard.Model.Vote.{sign_vote}
use avangard.Node.{
  NodeServer, NodeRejection, VoteRequest, prevote_request, precommit_request, handle_vote, prevote,
  precommit, persist_and_sign, after_persist, sign_own, check_prevote, check_precommit,
}

-- The store has the vote, under its conflict, round and phase.
abbrev pub Holds : WalStore → Vote → Type 0
Holds store vote =
    lookup (key vote.conflict_key vote.round vote.phase) store.votes ≡ some vote.intent

module _ (keys : Keys) where
  -- What a signed vote says.
  sign_vote_says :
      (manifest : CommitteeManifest) (phase round : ℕ) (conflict intent justify : Digest)
      (signer_index : ℕ) (seed : List ℕ) (vote : Vote)
      → sign_vote keys manifest phase round conflict intent justify signer_index seed ≡ ok vote
      → (vote.phase ≡ phase)
        × (vote.round ≡ round)
        × (vote.conflict_key ≡ conflict)
        × (vote.intent ≡ intent)
  unfolding sign_vote
  sign_vote_says manifest phase round conflict intent justify signer_index seed vote h =
      (ground arith, ground arith, ground arith, ground arith)

  pub sign_own_says :
      (server : NodeServer) (phase round : ℕ) (conflict intent justify : Digest) (vote : Vote)
      → sign_own keys server phase round conflict intent justify ≡ ok vote
      → (vote.phase ≡ phase)
        × (vote.round ≡ round)
        × (vote.conflict_key ≡ conflict)
        × (vote.intent ≡ intent)
  unfolding sign_own
  sign_own_says server phase round conflict intent justify vote h =
      sign_vote_says server.manifest phase round conflict intent justify server.index
        server.signing_key vote (ground arith)

  persist_and_sign-Holds :
      (io : Io) (server : NodeServer) (phase round : ℕ) (conflict intent : Digest)
      (checked : Result NodeRejection Digest) (vote : Vote)
      → (persist_and_sign keys io server phase round conflict intent checked).0 ≡ ok vote
      → Holds (persist_and_sign keys io server phase round conflict intent checked).1.store vote
  unfolding persist_and_sign after_persist
  persist_and_sign-Holds io server phase round conflict intent (err e) vote h =
      absurd (ground arith)
  persist_and_sign-Holds io server phase round conflict intent (ok justify) vote h =
      let persisted = Votes.persist_vote keys.blake3 io conflict round phase intent server.store in
      elim (Result-cases persisted.0) [
        | inr (e, refused) ↦ absurd (ground arith)
        | inl (outcome, accepted) ↦
            let (hp, hr, hc, hi) =
              sign_own_says server phase round conflict intent justify vote (ground arith) in
            let kept =
              accepted_vote keys.blake3 io server.store conflict round phase intent accepted in
            rw (hp, hr, hc, hi) (ground (arith, kept))
      ]

  pub prevote-honest :
      (io : Io) (proposal : Proposal) (server : NodeServer)
      → server.byzantine ≡ false
      → prevote keys io proposal server
        ≡ persist_and_sign keys io server phase_prevote proposal.round
            (conflict_key keys proposal.tx.input.reference)
            proposal.intent
            (check_prevote keys server proposal)
  unfolding prevote
  prevote-honest io proposal server h = rw h refl

  pub precommit-honest :
      (io : Io) (proposal : Proposal) (qc : Qc) (server : NodeServer)
      → server.byzantine ≡ false
      → precommit keys io proposal qc server
        ≡ persist_and_sign keys io server phase_precommit proposal.round
            (conflict_key keys proposal.tx.input.reference)
            proposal.intent
            (check_precommit keys server proposal qc)
  unfolding precommit
  precommit-honest io proposal qc server h = rw h refl

  -- When a server that is not byzantine answers a request with a vote, the vote is in its store,
  -- however the write to the log goes.
  pub handle_vote-Holds :
      (io : Io) (request : VoteRequest) (server : NodeServer) (vote : Vote)
      → server.byzantine ≡ false
      → (handle_vote keys io request server).0 ≡ ok vote
      → Holds (handle_vote keys io request server).1.store vote
  unfolding handle_vote
  handle_vote-Holds io (prevote_request proposal) server vote honest h =
      let same = prevote-honest io proposal server honest in
      rw same (
        persist_and_sign-Holds io server phase_prevote proposal.round
          (conflict_key keys proposal.tx.input.reference) proposal.intent
          (check_prevote keys server proposal) vote (rw same at h))
  handle_vote-Holds io (precommit_request proposal qc) server vote honest h =
      let same = precommit-honest io proposal qc server honest in
      rw same (
        persist_and_sign-Holds io server phase_precommit proposal.round
          (conflict_key keys proposal.tx.input.reference) proposal.intent
          (check_precommit keys server proposal qc) vote (rw same at h))
