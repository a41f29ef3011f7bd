-- ===== src/Node/Serving.antt =====
-- A run of vote requests against a server of integration001/src/node.rs.
use avangard.Prelude.{
  ℕ, ◌≡◌, refl, false, List, [], ◌∷◌, ◌++◌, Result, ok, err, All, inl, inr, Result-cases, arith,
  ◌∙◌, sym, ap,
}
use avangard.Store.Types.{Digest, WalStore, Io, vote_key_has_eq}
use avangard.Store.Votes
use avangard.Store.Calls.{Call, persist_vote, call, run}
use avangard.Store.Safety.Votes.{key, run-vote}
use avangard.Model.Types.{Vote, Keys}
use avangard.Node.{
  NodeServer, NodeRejection, VoteRequest, prevote_request, precommit_request, handle_vote,
  persist_and_sign, after_persist,
}
use avangard.Node.Voting.{Holds, handle_vote-Holds, prevote-honest, precommit-honest}

abbrev answers : Result NodeRejection Vote → List Vote → List Vote
answers (ok vote) votes = vote ∷ votes
answers (err rejection) votes = votes

module _ (keys : Keys) where
  -- The votes that a server answers with, and the server after all requests.
  abbrev pub serve : List (Io × VoteRequest) → NodeServer → List Vote × NodeServer
  serve [] server = ([], server)
  serve ((io, request) ∷ requests) server =
      let (reply, next) = handle_vote keys io request server in
      let (votes, last) = serve requests next in (answers reply votes, last)

  -- One request is at most one call of the store.
  abbrev IsRun : WalStore → WalStore → Type 0
  IsRun store store' = (calls : List (Io × Call)) × (store' ≡ run keys.blake3 calls store)

  abbrev Follows : NodeServer → NodeServer → Type 0
  Follows server next = (next.byzantine ≡ server.byzantine) × IsRun server.store next.store

  persist_and_sign-Follows :
      (io : Io) (server : NodeServer) (phase round : ℕ) (conflict intent : Digest)
      (checked : Result NodeRejection Digest)
      → Follows server (persist_and_sign keys io server phase round conflict intent checked).1
  unfolding persist_and_sign after_persist run call
  persist_and_sign-Follows io server phase round conflict intent (err e) = (refl, ([], refl))
  persist_and_sign-Follows io server phase round conflict intent (ok justify) =
      let request = persist_vote conflict round phase intent in
      elim (Result-cases
        (Votes.persist_vote keys.blake3 io conflict round phase intent server.store).0) [
          | inl (outcome, e) ↦ (ground arith, ((io, request) ∷ [], ground arith))
          | inr (x, e) ↦ (ground arith, ((io, request) ∷ [], ground arith))
        ]

  handle_vote-Follows :
      (io : Io) (request : VoteRequest) (server : NodeServer)
      → server.byzantine ≡ false
      → Follows server (handle_vote keys io request server).1
  unfolding handle_vote
  handle_vote-Follows io (prevote_request proposal) server h =
      rw (prevote-honest keys io proposal server h) (persist_and_sign-Follows io server _ _ _ _ _)
  handle_vote-Follows io (precommit_request proposal qc) server h =
      rw (precommit-honest keys io proposal qc server h)
        (persist_and_sign-Follows io server _ _ _ _ _)

  run-append :
      (calls calls' : List (Io × Call)) (s : WalStore)
      → run keys.blake3 (calls ++ calls') s ≡ run keys.blake3 calls' (run keys.blake3 calls s)
  unfolding run
  run-append [] calls' s = refl
  run-append ((io, c) ∷ calls) calls' s = run-append calls calls' (call keys.blake3 io c s).1

  -- A server that is not byzantine answers any requests, however its writes go, with votes that are all
  -- in the store it ends with; and that store comes from the first by calls of the methods of
  -- `WalStore`.
  pub serve_recorded :
      (requests : List (Io × VoteRequest)) (server : NodeServer)
      → server.byzantine ≡ false
      → All (Holds (serve requests server).1.store) (serve requests server).0
        × IsRun server.store (serve requests server).1.store
  serve_recorded [] server h = (tt, ([], unfold run in refl))
  serve_recorded ((io, request) ∷ requests) server h =
      let (same, (calls, e)) = handle_vote-Follows io request server h in
      let next = (handle_vote keys io request server).1 in
      let (rest, (calls', e')) = serve_recorded requests next (same ∙ h) in
      let last = (serve requests next).1 in
      (
        elim (Result-cases (handle_vote keys io request server).0) [
          | inr (x, refused) ↦ rw refused rest
          | inl (vote, voted) ↦ rw voted (
            rw (← e') at (
                run-vote keys.blake3 calls' next.store (key vote.conflict_key vote.round vote.phase)
                  (handle_vote-Holds keys io request server vote h voted)),
            rest,
          )
        ],
        (
          calls ++ calls',
          e' ∙ ap (run keys.blake3 calls') e ∙ sym (run-append calls calls' server.store),
        ),
      )
