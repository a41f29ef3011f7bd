-- ===== src/Node/Handle/Connection.antt =====
-- A connection of integration001/src/node.rs, from the bytes of a request to the bytes of its response.
use avangard.Prelude.{
  ℕ, ◌^◌, ◌≤◌, ◌<◌, ◌≡◌, refl, subst, Bool, true, false, List, [], ◌++◌, length, Result, ok, err,
  arith,
}
use mathlib.Core.List.{append-nil}
use avangard.Store.Types.{Io, done}
use avangard.Model.Types.{Keys}
use avangard.Wire.Codec.{finish_encoder, max_frame_len}
use avangard.Wire.Requests.{
  Request, Response, rejected, encode_request, encode_response, decode_response, put_response,
}
use avangard.Wire.Requests.RoundTrip.{
  IsTypedRequest, IsTypedResponse, decode-encode_request, decode-encode_response,
  decode_request_trailing,
}
use avangard.Wire.Frames.{frame, write_bytes, write_frame, read_frame}
use avangard.Wire.Frames.Laws.{read_frame-write_frame}
use avangard.Node.{NodeServer, NodeRejection}
use avangard.Node.Handle.{
  handle, send_response, answer, serve_request, serve_payload, serve_connection, reject_bad_request,
}

-- The response is what a reader finds in the bytes, and nothing is behind it.
pub record Carries (bytes : List ℕ) (response : Response) : Type 0 where
  pub payload : List ℕ
  pub framed : read_frame bytes ≡ ok (payload, [])
  pub decoded : decode_response payload ≡ ok response

module _ (keys : Keys) where
  encode_response_fits :
      (response : Response) (payload : List ℕ)
      → encode_response response ≡ ok payload
      → length payload ≤ max_frame_len
  unfolding encode_response finish_encoder
  encode_response_fits response payload h = ground arith

  write_frame_fits :
      (payload : List ℕ)
      → length payload ≤ max_frame_len
      → write_frame done [] payload ≡ (ok tt, frame payload)
  unfolding write_frame write_bytes
  write_frame_fits payload h = ground arith

  sent-Carries :
      (response : Response) (payload : List ℕ)
      → IsTypedResponse response
      → encode_response response ≡ ok payload
      → Carries (send_response keys done [] response) response
  unfolding send_response
  sent-Carries response payload t h =
      let written = write_frame_fits payload (encode_response_fits response payload h) in
      subst (λ bytes. Carries bytes response) {x = frame payload ++ []}
        (ground (arith, h, written, append-nil (frame payload)))
        (record {
          payload = payload;
          framed = read_frame-write_frame payload [] (frame payload) written;
          decoded = decode-encode_response response payload t h;
        })

  -- What is sent for the answer of `handle`.
  abbrev pub response_of : Result NodeRejection (Response × Bool) → Response
  response_of (ok (response, shutdown)) = response
  response_of (err code) = rejected code

  answer-response :
      (reply : Result NodeRejection (Response × Bool)) (server : NodeServer) (payload : List ℕ)
      → IsTypedResponse (response_of reply)
      → encode_response (response_of reply) ≡ ok payload
      → Carries (answer keys done [] (reply, server)).0 (response_of reply)
        × ((answer keys done [] (reply, server)).2 ≡ server)
  unfolding answer
  answer-response (ok (response, shutdown)) server payload t h =
      (sent-Carries response payload t h, refl)
  answer-response (err code) server payload t h = (sent-Carries (rejected code) payload t h, refl)

  -- A client that sends the frame of a typed request, behind which anything may follow, on a
  -- connection that takes what is written, reads back a frame with the response of `handle`, or with
  -- the code of its rejection, where that response is typed and can be encoded; and the server is the
  -- one that `handle` leaves.
  pub serve_connection-handle :
      (log : Io) (metadata : Bool) (request : Request) (server : NodeServer)
      (payload sent rest reply : List ℕ)
      → IsTypedRequest request
      → encode_request request ≡ ok payload
      → write_frame done [] payload ≡ (ok tt, sent)
      → IsTypedResponse (response_of (handle keys log metadata request server).0)
      → encode_response (response_of (handle keys log metadata request server).0) ≡ ok reply
      → Carries
          (serve_connection keys log done metadata true (sent ++ rest) server).0
          (response_of (handle keys log metadata request server).0)
        × ((serve_connection keys log done metadata true (sent ++ rest) server).2
            ≡ (handle keys log metadata request server).1)
  unfolding serve_connection serve_payload serve_request
  serve_connection-handle log metadata request server payload sent rest reply t h w t' h' =
      rw (read_frame-write_frame payload rest sent w, decode-encode_request request payload t h)
        (answer-response (handle keys log metadata request server).0
          (handle keys log metadata request server).1 reply t' h')

  rejected-Carries :
      (code : ℕ)
      → code < 2 ^ 16
      → Carries (send_response keys done [] (rejected code)) (rejected code)
  unfolding encode_response put_response finish_encoder
  rejected-Carries code h = sent-Carries (rejected code) _ h refl

  -- What a client reads that is refused with a code, by a server that stays as it was.
  abbrev pub IsRefused : ℕ → NodeServer → List ℕ × Bool × NodeServer → Type 0
  IsRefused code server reply =
      Carries reply.0 (rejected code) × (reply.1 ≡ false) × (reply.2 ≡ server)

  -- A refusal that was sent.
  pub refused :
      (code : ℕ) (server : NodeServer)
      → code < 2 ^ 16
      → IsRefused code server (send_response keys done [] (rejected code), false, server)
  refused code server h = (rejected-Carries code h, refl, refl)

  -- A typed request that is framed with more bytes behind its encoding is not carried out: where what is
  -- written is taken, it is answered with a frame of the rejection 2, whatever follows the frame, and
  -- the server goes on as it was.
  pub serve_connection_trailing :
      (log : Io) (metadata : Bool) (request : Request) (payload extra sent rest : List ℕ)
      (server : NodeServer)
      → IsTypedRequest request
      → encode_request request ≡ ok payload
      → 0 < length extra
      → write_frame done [] (payload ++ extra) ≡ (ok tt, sent)
      → IsRefused reject_bad_request server
          (serve_connection keys log done metadata true (sent ++ rest) server)
  unfolding serve_connection serve_payload serve_request
  serve_connection_trailing log metadata request payload extra sent rest server t h more w =
      let fits : length (payload ++ extra) ≤ max_frame_len = unfold write_frame in ground arith in
      rw
        (
          read_frame-write_frame (payload ++ extra) rest sent w,
          decode_request_trailing request payload extra t h fits more,
        )
        (refused reject_bad_request server (omega arith))
