-- ===== src/Node/Restart/Requests.antt =====
-- Runs of requests against a server of integration001/src/node.rs, and `open` on its log after them.
use avangard.Prelude.{
  ℕ, ◌+◌, ◌≤◌, ◌<◌, ◌≡◌, sym, subst, Bool, some, List, [], ◌∷◌, length, All, ok, arith, inl, inr,
  Result-cases,
}
use avangard.Store.Types.{Io, u64_max, done}
use avangard.Store.Open.{Disk, contents, not_found}
use avangard.Model.Types.{Tx, UserAuth, Qc, State, Keys}
use avangard.Model.Ledger.Apply.{apply_cases}
use avangard.Model.Ledger
use avangard.Wire.Messages.Typed.{IsTypedTx}
use avangard.Store.Codec.RoundTrip.{IsU64}
use avangard.Wire.States.{encode_state}
use avangard.Wire.States.RoundTrip.{IsTypedState, decode-encode_state}
use avangard.Wire.Requests.{Request, ping, query_state, Response}
use avangard.Wire.Requests
use avangard.Wire.Requests.RoundTrip.{IsTypedRequest}
use avangard.Node.{NodeServer}
use avangard.Node.Apply.{finalize, settle, apply}
use avangard.Node.Handle.{handle}
use avangard.Node.Open.{NodeConfig, Setup, set_up, open_set_up, open_node}
use avangard.Node.Restart.Typed.{IsKeyed, intent_hash-IsDigest}
use avangard.Node.Restart.Ready.{IsSetUp, IsReady, reopen-IsReady}
use avangard.Node.Restart.First.{set_up-IsSetUp, first-IsReady}
use avangard.Node.Restart.Votes.{prevote-IsReady, precommit-IsReady}
use avangard.Node.Restart.Apply.{settle-IsReady}
use avangard.Node.Restart.Grows.{vote_response-server, apply_response-server, handle-IsStep}

-- The server after all requests, whose writes all reach the disk; each says whether the metadata of the
-- log can be read.
abbrev pub handle_all : Keys → List (Bool × Request) → NodeServer → NodeServer
handle_all keys [] server = server
handle_all keys ((metadata, request) ∷ requests) server =
    handle_all keys requests (handle keys done metadata request server).1

module _ (keys : Keys) (keyed : IsKeyed keys) (config : NodeConfig) (setup : Setup) where
  apply-IsReady :
      (tx : Tx) (auth : UserAuth) (prevote_qc finality_qc : Qc) (server : NodeServer)
      → IsSetUp config setup
      → IsTypedTx tx
      → server.store.next_sequence < u64_max
      → IsReady keys config setup server
      → IsReady keys config setup (apply keys done tx auth prevote_qc finality_qc server).1
  unfolding apply settle finalize
  apply-IsReady tx auth prevote_qc finality_qc server set t fits r =
      elim (Result-cases (finalize keys server tx auth prevote_qc finality_qc)) [
        | inr (x, e) ↦ subst (IsReady keys config setup) (ground arith) r
        | inl ((outcome, next), e) ↦
            let request : Ledger.Apply.Request = record {
              tx = tx;
              auth = auth;
              prevote_qc = prevote_qc;
              precommit_qc = finality_qc;
              manifest = server.manifest;
            } in
            elim (apply_cases keys request server.state outcome next (ground arith)) [
              | inr (receipt, same, kept) ↦
                  subst (IsReady keys config setup) (ground (arith, e, same)) r
              | inl (intent, (hashed, new), c) ↦
                  subst (IsReady keys config setup) (ground (arith, e, c.outcome_is)) (
                    settle-IsReady keys keyed config setup server tx auth intent next outcome c set
                      t (intent_hash-IsDigest keys keyed tx intent hashed) new fits r)
            ]
      ]

  -- A typed request, whatever the server answers, leaves it ready.
  handle-IsReady :
      (metadata : Bool) (request : Request) (server : NodeServer)
      → IsSetUp config setup
      → IsTypedRequest request
      → server.store.next_sequence < u64_max
      → IsReady keys config setup server
      → IsReady keys config setup (handle keys done metadata request server).1
  unfolding handle
  handle-IsReady metadata ping server set t fits r = r
  handle-IsReady metadata (Requests.prevote proposal) server set t fits r =
      let next = prevote-IsReady keys keyed config setup proposal server t fits r in
      subst (IsReady keys config setup) (sym (vote_response-server _)) next
  handle-IsReady metadata (Requests.precommit proposal qc) server set t fits r =
      let next = precommit-IsReady keys keyed config setup proposal qc server t.0 fits r in
      subst (IsReady keys config setup) (sym (vote_response-server _)) next
  handle-IsReady metadata (Requests.apply tx auth prevote_qc finality_qc) server set t fits r =
      let next = apply-IsReady tx auth prevote_qc finality_qc server set t.0 fits r in
      subst (IsReady keys config setup) (sym (apply_response-server _)) next
  handle-IsReady metadata query_state server set t fits r = r

  handle_all-IsReady :
      (requests : List (Bool × Request)) (server : NodeServer)
      → IsSetUp config setup
      → All (λ (metadata, request). IsTypedRequest request) requests
      → server.store.next_sequence + length requests ≤ u64_max
      → IsReady keys config setup server
      → IsReady keys config setup (handle_all keys requests server)
  handle_all-IsReady [] server set typed fits r = r
  handle_all-IsReady ((metadata, request) ∷ requests) server set (t, typed) fits r =
      handle_all-IsReady requests _ set typed
        (omega (arith, handle-IsStep keys done metadata request server))
        (handle-IsReady metadata request server set t (omega arith) r)

module _ (keys : Keys) (keyed : IsKeyed keys) (config : NodeConfig) where
  -- Open a server where no log is, with the encoding of a genesis state, and send it fewer than
  -- 2^64 - 2 requests of any kind, in any order, with any answers, whose writes all reach the disk:
  -- opening a server on the file of the log, with the same arguments, gives the same server, field for
  -- field. The epoch, the genesis and the requests have the widths of their Rust types; hashes and
  -- public keys have 32 bytes.
  pub reopen_after_requests :
      (genesis : State) (file : List ℕ) (requests : List (Bool × Request)) (io io' : Io)
      {server : NodeServer} {disk : Disk}
      → IsU64 config.epoch
      → IsTypedState genesis
      → encode_state genesis ≡ ok file
      → All (λ (metadata, request). IsTypedRequest request) requests
      → length requests + 1 < u64_max
      → open_node keys config done done (some file) not_found ≡ (ok server, disk)
      → let last = handle_all keys requests server in
        open_node keys config io io' (some file) (contents last.store.file)
        ≡ (ok last, contents last.store.file)
  unfolding open_node open_set_up
  reopen_after_requests genesis file requests io io' {server} {disk} width t encoded typed fits h =
      elim (Result-cases (set_up keys config (some file))) [
        | inr (x, e) ↦ absurd (ground arith)
        | inl (setup, set) ↦
            let d = decode-encode_state genesis file t encoded in
            let (ready, start) =
              first-IsReady keys keyed config setup genesis file width t d set h in
            let last = handle_all keys requests server in
            reopen-IsReady keys config setup keyed.hash io io' (some file) last set (
              handle_all-IsReady keys keyed config setup requests server
                (set_up-IsSetUp keys config keyed genesis file setup width d set) typed
                (omega arith) ready)
      ]
