-- ===== src/Node/Ledger.antt =====
-- The state of a server of integration001/src/node.rs changes by `State::apply_finalized` only.
use avangard.Prelude.{
  ℕ, ◌≡◌, refl, sym, subst, ap, ◌∙◌, Bool, Bool-cases, ◌⊎◌, inl, inr, List, [], ◌∷◌, Result, ok,
  err, arith, Result-cases,
}
use avangard.Store.Types.{
  Digest, Error, Snapshot, PersistOutcome, persisted, already_present, WalStore, Io,
}
use avangard.Model.Types.{
  Tx, UserAuth, Qc, Proposal, State, ApplyReceipt, ApplyOutcome, applied, already_applied, Keys,
}
use avangard.Model.Ledger.{total_value}
use avangard.Model.Ledger.Invariant.{IsLedger}
use avangard.Model.Ledger.Apply.{apply_conserves, apply-IsLedger}
use avangard.Model.Ledger
use avangard.Wire.Requests.{Request, ping, query_state}
use avangard.Wire.Requests
use avangard.Node.{NodeServer, NodeRejection, prevote, precommit, persist_and_sign, after_persist}
use avangard.Node.Voting.{prevote-honest, precommit-honest}
use avangard.Node.Apply.{finalize, after_apply, persist_state, settle, apply}
use avangard.Node.Handle.{handle}
use avangard.Node.Restart.Grows.{vote_response-server, apply_response-server}

-- A run of requests; each says how its write to the log goes, and whether the metadata of the log can
-- be read.
abbrev pub serve_all : Keys → List (Io × Bool × Request) → NodeServer → NodeServer
serve_all keys [] server = server
serve_all keys ((io, metadata, request) ∷ requests) server =
    serve_all keys requests (handle keys io metadata request server).1

module _ (keys : Keys) (io : Io) where
  after_persist-state :
      (server : NodeServer) (phase round : ℕ) (conflict intent justify : Digest)
      (reply : Result Error PersistOutcome × WalStore)
      → (after_persist keys server phase round conflict intent justify reply).1.state ≡ server.state
  unfolding after_persist
  after_persist-state server phase round conflict intent justify (err e, store) = refl
  after_persist-state server phase round conflict intent justify (ok outcome, store) = refl

  persist_and_sign-state :
      (server : NodeServer) (phase round : ℕ) (conflict intent : Digest)
      (checked : Result NodeRejection Digest)
      → (persist_and_sign keys io server phase round conflict intent checked).1.state ≡ server.state
  unfolding persist_and_sign
  persist_and_sign-state server phase round conflict intent (err e) = refl
  persist_and_sign-state server phase round conflict intent (ok justify) =
      after_persist-state server phase round conflict intent justify _

  prevote-state :
      (proposal : Proposal) (server : NodeServer)
      → (prevote keys io proposal server).1.state ≡ server.state
  unfolding prevote
  prevote-state proposal server = elim (Bool-cases server.byzantine) [
    | inl byzantine ↦ ground arith
    | inr honest ↦
        subst (λ t. t.1.state ≡ server.state) (sym (prevote-honest keys io proposal server honest))
          (persist_and_sign-state server _ _ _ _ _)
  ]

  precommit-state :
      (proposal : Proposal) (qc : Qc) (server : NodeServer)
      → (precommit keys io proposal qc server).1.state ≡ server.state
  unfolding precommit
  precommit-state proposal qc server = elim (Bool-cases server.byzantine) [
    | inl byzantine ↦ ground arith
    | inr honest ↦
        subst (λ t. t.1.state ≡ server.state)
          (sym (precommit-honest keys io proposal qc server honest))
          (persist_and_sign-state server _ _ _ _ _)
  ]

  after_apply-state :
      (server : NodeServer) (next : State) (reply : Result Error PersistOutcome × WalStore)
      → ((after_apply keys server next reply).1.state ≡ server.state)
        ⊎ ((after_apply keys server next reply).1.state ≡ next)
  unfolding after_apply
  after_apply-state server next (err e, store) = inl refl
  after_apply-state server next (ok persisted, store) = inr refl
  after_apply-state server next (ok already_present, store) = inr refl

  persist_state-state :
      (server : NodeServer) (next : State) (receipt : ApplyReceipt)
      (made : Result NodeRejection Snapshot)
      → ((persist_state keys io server next receipt made).1.state ≡ server.state)
        ⊎ ((persist_state keys io server next receipt made).1.state ≡ next)
  unfolding persist_state
  persist_state-state server next receipt (err e) = inl refl
  persist_state-state server next receipt (ok snapshot) = after_apply-state server next _

  -- The state as it was, or one that `apply_finalized` made.
  abbrev IsStep : State → State → Type 0
  IsStep state next =
      (next ≡ state)
      ⊎ ((request : Ledger.Apply.Request) × (outcome : ApplyOutcome) × (Ledger.Apply.apply keys
              request state
            ≡ ok (outcome, next)))

  settle-IsStep :
      (server : NodeServer) (request : Ledger.Apply.Request) (outcome : ApplyOutcome) (next : State)
      → Ledger.Apply.apply keys request server.state ≡ ok (outcome, next)
      → IsStep server.state (settle keys io server (ok (outcome, next))).1.state
  unfolding settle
  settle-IsStep server request (already_applied receipt) next h = inl refl
  settle-IsStep server request (applied receipt) next h =
      elim (persist_state-state server next receipt _) [
        | inl same ↦ inl same
        | inr new ↦ inr (
          request,
          applied receipt,
          subst (λ t. Ledger.Apply.apply keys request server.state ≡ ok (applied receipt, t))
              (sym new) h,
        )
      ]

  apply-IsStep :
      (tx : Tx) (auth : UserAuth) (prevote_qc finality_qc : Qc) (server : NodeServer)
      → IsStep server.state (apply keys io tx auth prevote_qc finality_qc server).1.state
  unfolding apply finalize settle
  apply-IsStep tx auth prevote_qc finality_qc server =
      elim (Result-cases (finalize keys server tx auth prevote_qc finality_qc)) [
        | inr (x, e) ↦ inl (ground arith)
        | inl ((outcome, next), e) ↦
            let request : Ledger.Apply.Request = record {
              tx = tx;
              auth = auth;
              prevote_qc = prevote_qc;
              precommit_qc = finality_qc;
              manifest = server.manifest;
            } in
            subst (λ t. IsStep server.state (settle keys io server t).1.state) (sym e)
              (settle-IsStep server request outcome next (ground arith))
      ]

  handle-IsStep :
      (metadata : Bool) (request : Request) (server : NodeServer)
      → IsStep server.state (handle keys io metadata request server).1.state
  unfolding handle
  handle-IsStep metadata ping server = inl refl
  handle-IsStep metadata (Requests.prevote proposal) server =
      inl (ap (λ s. s.state) (vote_response-server _) ∙ prevote-state proposal server)
  handle-IsStep metadata (Requests.precommit proposal qc) server =
      inl (ap (λ s. s.state) (vote_response-server _) ∙ precommit-state proposal qc server)
  handle-IsStep metadata (Requests.apply tx auth prevote_qc finality_qc) server =
      subst (λ s. IsStep server.state s.state) (sym (apply_response-server _))
        (apply-IsStep tx auth prevote_qc finality_qc server)
  handle-IsStep metadata query_state server = inl refl

module _ (keys : Keys) where
  -- The value and the invariant of the ledger.
  abbrev IsWorth : ℕ → State → Type 0
  IsWorth value state = IsLedger state × (total_value state ≡ ok value)

  handle-IsWorth :
      (io : Io) (metadata : Bool) (request : Request) (server : NodeServer) (value : ℕ)
      → IsWorth value server.state
      → IsWorth value (handle keys io metadata request server).1.state
  handle-IsWorth io metadata request server value (d, v) =
      let next = (handle keys io metadata request server).1.state in
      elim (handle-IsStep keys io metadata request server) [
        | inl same ↦ subst (IsWorth value) (sym same) (d, v)
        | inr (r, outcome, h) ↦ (
          apply-IsLedger keys r server.state next outcome d h,
          apply_conserves keys r server.state next outcome value d v h,
        )
      ]

  -- Any requests, in any order, whatever is answered and however the writes to the log go, leave the
  -- invariant of the ledger and its total value, where the state has the invariant and a total value
  -- within 64 bits.
  pub serve_all-conserves :
      (requests : List (Io × Bool × Request)) (server : NodeServer) (value : ℕ)
      → IsLedger server.state
      → total_value server.state ≡ ok value
      → IsLedger (serve_all keys requests server).state
        × (total_value (serve_all keys requests server).state ≡ ok value)
  serve_all-conserves [] server value d v = (d, v)
  serve_all-conserves ((io, metadata, request) ∷ requests) server value d v =
      let (d', v') = handle-IsWorth io metadata request server value (d, v) in
      serve_all-conserves requests _ value d' v'
