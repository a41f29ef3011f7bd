-- ===== src/Node/Restart/Grows.antt =====
-- A request to a server of integration001/src/node.rs writes one record of the log at most.
use avangard.Prelude.{
  ℕ, ◌+◌, ◌≤◌, ◌≡◌, refl, Bool, Result, ok, err, arith, subst, sym, inl, inr, Bool-cases,
}
use avangard.Store.Types.{
  Digest, Error, PersistOutcome, persisted, already_present, WalStore, Io, Snapshot,
}
use avangard.Store.Calls.{call, persist_vote, apply_verified}
use avangard.Store.Calls.Unchanged.{call-SameStore}
use avangard.Model.Types.{
  Qc, Proposal, State, ApplyOutcome, ApplyReceipt, applied, already_applied, Vote, Keys,
}
use avangard.Wire.Requests.{Request, ping, query_state}
use avangard.Wire.Requests
use avangard.Node.{NodeServer, NodeRejection, prevote, precommit, persist_and_sign, after_persist}
use avangard.Node.Voting.{prevote-honest, precommit-honest}
use avangard.Node.Apply.{after_apply, persist_state, settle, apply}
use avangard.Node.Handle.{handle, vote_response, apply_response}

pub vote_response-server :
    (reply : Result NodeRejection Vote × NodeServer) → (vote_response reply).1 ≡ reply.1
vote_response-server (ok value, server) = refl
vote_response-server (err rejection, server) = refl

pub apply_response-server :
    (reply : Result NodeRejection (Digest × Bool) × NodeServer) → (apply_response reply).1 ≡ reply.1
apply_response-server (ok (root, idempotent), server) = refl
apply_response-server (err rejection, server) = refl

abbrev IsStep : NodeServer → NodeServer → Type 0
IsStep server next = next.store.next_sequence ≤ server.store.next_sequence + 1

module _ (keys : Keys) (io : Io) where
  after_persist-store :
      (server : NodeServer) (phase round : ℕ) (conflict intent justify : Digest)
      (reply : Result Error PersistOutcome × WalStore)
      → (after_persist keys server phase round conflict intent justify reply).1.store ≡ reply.1
  unfolding after_persist
  after_persist-store server phase round conflict intent justify (err e, store) = refl
  after_persist-store server phase round conflict intent justify (ok outcome, store) = refl

  persist_and_sign-IsStep :
      (server : NodeServer) (phase round : ℕ) (conflict intent : Digest)
      (checked : Result NodeRejection Digest)
      → IsStep server (persist_and_sign keys io server phase round conflict intent checked).1
  unfolding persist_and_sign call
  persist_and_sign-IsStep server phase round conflict intent (err e) = omega arith
  persist_and_sign-IsStep server phase round conflict intent (ok justify) =
      subst (λ s. s.next_sequence ≤ server.store.next_sequence + 1)
        (sym (after_persist-store server phase round conflict intent justify _))
        (call-SameStore keys.blake3 io (persist_vote conflict round phase intent)
          server.store).sequence

  prevote-IsStep :
      (proposal : Proposal) (server : NodeServer)
      → IsStep server (prevote keys io proposal server).1
  unfolding prevote
  prevote-IsStep proposal server = elim (Bool-cases server.byzantine) [
    | inl byzantine ↦ ground arith
    | inr honest ↦
        subst (λ t. IsStep server t.1) (sym (prevote-honest keys io proposal server honest))
          (persist_and_sign-IsStep server _ _ _ _ _)
  ]

  precommit-IsStep :
      (proposal : Proposal) (qc : Qc) (server : NodeServer)
      → IsStep server (precommit keys io proposal qc server).1
  unfolding precommit
  precommit-IsStep proposal qc server = elim (Bool-cases server.byzantine) [
    | inl byzantine ↦ ground arith
    | inr honest ↦
        subst (λ t. IsStep server t.1) (sym (precommit-honest keys io proposal qc server honest))
          (persist_and_sign-IsStep server _ _ _ _ _)
  ]

  after_apply-store :
      (server : NodeServer) (next : State) (reply : Result Error PersistOutcome × WalStore)
      → (after_apply keys server next reply).1.store ≡ reply.1
  unfolding after_apply
  after_apply-store server next (err e, store) = refl
  after_apply-store server next (ok persisted, store) = refl
  after_apply-store server next (ok already_present, store) = refl

  persist_state-IsStep :
      (server : NodeServer) (next : State) (receipt : ApplyReceipt)
      (made : Result NodeRejection Snapshot)
      → IsStep server (persist_state keys io server next receipt made).1
  unfolding persist_state call
  persist_state-IsStep server next receipt (err e) = omega arith
  persist_state-IsStep server next receipt (ok snapshot) =
      subst (λ s. s.next_sequence ≤ server.store.next_sequence + 1)
        (sym (after_apply-store server next _))
        (call-SameStore keys.blake3 io
          (apply_verified receipt.intent receipt.certificate_digest snapshot) server.store).sequence

  settle-IsStep :
      (server : NodeServer) (finalized : Result NodeRejection (ApplyOutcome × State))
      → IsStep server (settle keys io server finalized).1
  unfolding settle
  settle-IsStep server (err e) = omega arith
  settle-IsStep server (ok (already_applied receipt, next)) = omega arith
  settle-IsStep server (ok (applied receipt, next)) = persist_state-IsStep server next receipt _

  pub handle-IsStep :
      (metadata : Bool) (request : Request) (server : NodeServer)
      → IsStep server (handle keys io metadata request server).1
  unfolding handle apply
  handle-IsStep metadata ping server = omega arith
  handle-IsStep metadata (Requests.prevote proposal) server =
      subst (IsStep server) (sym (vote_response-server _)) (prevote-IsStep proposal server)
  handle-IsStep metadata (Requests.precommit proposal qc) server =
      subst (IsStep server) (sym (vote_response-server _)) (precommit-IsStep proposal qc server)
  handle-IsStep metadata (Requests.apply tx auth prevote_qc finality_qc) server =
      subst (IsStep server) (sym (apply_response-server _)) (settle-IsStep server _)
  handle-IsStep metadata query_state server = omega arith
