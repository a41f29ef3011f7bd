-- ===== src/Node/Handle/Outcome.antt =====
-- Every outcome of `serve_connection` of integration001/src/node.rs, for any bytes that come in.
use avangard.Prelude.{ℕ, ◌≤◌, ◌≡◌, Bool, List, [], ◌++◌, length, ok}
use avangard.Store.Types.{Io, done}
use avangard.Model.Types.{Keys}
use avangard.Wire.Codec.{max_frame_len}
use avangard.Wire.Requests.{Request, decode_request}
use avangard.Wire.Frames.{frame}
use avangard.Node.{NodeServer}
use avangard.Node.Handle.{handle, answer, reject_bad_frame, reject_bad_request}
use avangard.Node.Handle.Connection.{IsRefused}

-- The bytes begin with the whole frame of a payload that is not too long.
abbrev pub IsFramed : List ℕ → Type 0
IsFramed incoming =
    (payload : List ℕ) × (rest : List ℕ) × (length payload ≤ max_frame_len)
    × (incoming ≡ frame payload ++ rest)

abbrev pub IsRequest : List ℕ → Type 0
IsRequest payload = (request : Request) × (decode_request payload ≡ ok request)

module _ (keys : Keys) (log : Io) (metadata : Bool) (incoming : List ℕ) (server : NodeServer) where
  -- What a connection leaves: no frame came in, or none of a request, and the server stays as it was;
  -- or the request in the frame was handled.
  pub data Outcome (reply : List ℕ × Bool × NodeServer) : Type 0 where
    no_frame : ¬ IsFramed incoming → IsRefused keys reject_bad_frame server reply → Outcome reply
    no_request :
        (payload rest : List ℕ)
        → incoming ≡ frame payload ++ rest
        → ¬ IsRequest payload
        → IsRefused keys reject_bad_request server reply
        → Outcome reply
    handled :
        (payload rest : List ℕ) (request : Request)
        → incoming ≡ frame payload ++ rest
        → decode_request payload ≡ ok request
        → reply ≡ answer keys done [] (handle keys log metadata request server)
        → Outcome reply
