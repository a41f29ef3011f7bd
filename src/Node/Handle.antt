-- ===== src/Node/Handle.antt =====
-- `NodeServer::handle` and `serve_connection` of integration001/src/node.rs.
pub mod Connection
pub mod Outcome
use avangard.Prelude.{
  ℕ, Bool, true, false, not, List, [], ◌++◌, ltb, length, Result, ok, err, ◌>>=◌, ◌>>◌, reject_if,
}
use avangard.Store.Types.{Digest, Io, u64_max}
use avangard.Store.Queries.{wal_bytes}
use avangard.Model.Types.{Vote, Keys}
use avangard.Model.Root.{state_root}
use avangard.Wire.Codec.{WireError}
use avangard.Wire.Requests.{
  Request, ping, query_state, Response, pong, vote, applied, rejected, encode_response,
  decode_request,
}
use avangard.Wire.Requests
use avangard.Wire.Frames.{read_frame, write_frame}
use avangard.Node.{NodeServer, NodeRejection, prevote, precommit}
use avangard.Node.Apply.{apply}

abbrev pub reject_bad_frame : ℕ
reject_bad_frame = 1

abbrev pub reject_bad_request : ℕ
reject_bad_request = 2

abbrev pub reject_query : ℕ
reject_query = 30

-- The vote or the outcome of an application as a response; no request asks for the end.
abbrev pub vote_response :
    Result NodeRejection Vote × NodeServer → Result NodeRejection (Response × Bool) × NodeServer
vote_response (ok value, server) = (ok (vote value, false), server)
vote_response (err rejection, server) = (err rejection, server)

abbrev pub apply_response :
    Result NodeRejection (Digest × Bool) × NodeServer
    → Result NodeRejection (Response × Bool) × NodeServer
apply_response (ok (root, idempotent), server) = (ok (applied root idempotent, false), server)
apply_response (err rejection, server) = (err rejection, server)

module _ (keys : Keys) where
  -- `metadata` says whether the metadata of the log can be read.
  unfoldable pub query : Bool → NodeServer → Result NodeRejection (Response × Bool)
  query metadata server = do
    reject_if (ltb u64_max (length server.store.current_snapshot.bytes)) reject_query
    reject_if (not metadata) reject_query
    ok (
      Requests.state (state_root keys server.state) (length server.store.current_snapshot.bytes)
          (wal_bytes server.store) server.store.lifecycle,
      false,
    )

  unfoldable pub handle :
      Io → Bool → Request → NodeServer → Result NodeRejection (Response × Bool) × NodeServer
  unfolding query prevote precommit apply
  handle io metadata ping server =
      (ok (pong server.index server.manifest.epoch server.committee_hash, false), server)
  handle io metadata (Requests.prevote proposal) server =
      vote_response (prevote keys io proposal server)
  handle io metadata (Requests.precommit proposal prevote_qc) server =
      vote_response (precommit keys io proposal prevote_qc server)
  handle io metadata (Requests.apply tx auth prevote_qc finality_qc) server =
      apply_response (apply keys io tx auth prevote_qc finality_qc server)
  handle io metadata query_state server = (query metadata server, server)

  -- `send_response` on a stream that takes all of it; its own errors are dropped.
  unfoldable pub send_response : Io → List ℕ → Response → List ℕ
  send_response io stream response = elim (encode_response response) [
    | ok payload ↦ (write_frame io stream payload).1
    | err e ↦ stream
  ]

  -- The answer to a request, and whether the server stops.
  unfoldable pub answer :
      Io → List ℕ → Result NodeRejection (Response × Bool) × NodeServer → List ℕ × Bool × NodeServer
  unfolding send_response
  answer io stream (ok (response, shutdown), server) =
      (send_response io stream response, shutdown, server)
  answer io stream (err code, server) = (send_response io stream (rejected code), false, server)

  unfoldable pub serve_request :
      Io → Io → Bool → Result WireError Request → NodeServer → List ℕ × Bool × NodeServer
  unfolding answer handle
  serve_request log socket metadata (err e) server =
      (send_response socket [] (rejected reject_bad_request), false, server)
  serve_request log socket metadata (ok request) server =
      answer socket [] (handle log metadata request server)

  unfoldable pub serve_payload :
      Io → Io → Bool → Result WireError (List ℕ × List ℕ) → NodeServer → List ℕ × Bool × NodeServer
  unfolding serve_request
  serve_payload log socket metadata (err e) server =
      (send_response socket [] (rejected reject_bad_frame), false, server)
  serve_payload log socket metadata (ok (payload, rest)) server =
      serve_request log socket metadata (decode_request payload) server

  -- One connection: what comes in, and what is sent back. `configured` says whether the stream could
  -- be configured.
  unfoldable pub serve_connection :
      Io → Io → Bool → Bool → List ℕ → NodeServer → List ℕ × Bool × NodeServer
  unfolding serve_payload
  serve_connection log socket metadata false incoming server = ([], false, server)
  serve_connection log socket metadata true incoming server =
      serve_payload log socket metadata (read_frame incoming) server
