-- ===== src/Wire/Requests.antt =====
-- Requests and responses of integration001/src/wire.rs.
pub mod RoundTrip
use avangard.Prelude.{
  ℕ, ◌==◌, Bool, true, false, List, [], ◌∷◌, ◌++◌, Result, ok, err, ◌>>=◌, if◌then◌else◌,
}
use avangard.Store.Types.{Digest, Lifecycle, initialized, active, retired}
use avangard.Model.Types.{Tx, UserAuth, Vote, Qc, Proposal}
use avangard.Wire.Codec.{
  WireError, Take, ◌then_take◌, pure_take, fail_take, put_u8, put_bool, put_u16, put_u64, take_u8,
  take_bool, take_u16, take_u64, finish_encoder, decode_exact, invalid_request_tag,
  invalid_response_tag, invalid_lifecycle,
}
use avangard.Wire.Messages.{
  take_digest, put_tx, take_tx, put_user_auth, take_user_auth, put_vote, take_vote, put_qc, take_qc,
  put_proposal, take_proposal,
}

pub data Request : Type 0 where
  ping : Request
  prevote : Proposal → Request
  precommit : Proposal → Qc → Request
  apply : Tx → UserAuth → Qc → Qc → Request
  query_state : Request

pub data Response : Type 0 where
  pong : ℕ → ℕ → Digest → Response
  vote : Vote → Response
  applied : Digest → Bool → Response
  state : Digest → ℕ → ℕ → Lifecycle → Response
  rejected : ℕ → Response

abbrev pub request_ping : ℕ
request_ping = 1

abbrev pub request_prevote : ℕ
request_prevote = 2

abbrev pub request_precommit : ℕ
request_precommit = 3

abbrev pub request_apply : ℕ
request_apply = 4

abbrev pub request_query_state : ℕ
request_query_state = 5

abbrev pub response_pong : ℕ
response_pong = 1

abbrev pub response_vote : ℕ
response_vote = 2

abbrev pub response_applied : ℕ
response_applied = 3

abbrev pub response_state : ℕ
response_state = 4

abbrev pub response_rejected : ℕ
response_rejected = 6

unfoldable pub put_request : Request → Result WireError (List ℕ)
put_request ping = ok (put_u8 request_ping)
put_request (prevote proposal) = do
  bytes ← put_proposal proposal
  ok (put_u8 request_prevote ++ bytes)
put_request (precommit proposal prevote_qc) = do
  bytes ← put_proposal proposal
  qc ← put_qc prevote_qc
  ok (put_u8 request_precommit ++ (bytes ++ qc))
put_request (apply tx auth prevote_qc finality_qc) = do
  bytes ← put_tx tx
  prevotes ← put_qc prevote_qc
  precommits ← put_qc finality_qc
  ok (put_u8 request_apply ++ (bytes ++ (put_user_auth auth ++ (prevotes ++ precommits))))
put_request query_state = ok (put_u8 request_query_state)

unfoldable pub encode_request : Request → Result WireError (List ℕ)
encode_request request = finish_encoder (put_request request)

unfoldable pub take_prevote : Take Request
take_prevote = take_proposal then_take λ proposal. pure_take (prevote proposal)

unfoldable pub take_precommit : Take Request
take_precommit = take_proposal then_take λ proposal.
    take_qc then_take λ prevote_qc. pure_take (precommit proposal prevote_qc)

unfoldable pub take_apply : Take Request
take_apply = take_tx then_take λ tx. take_user_auth then_take λ auth.
    take_qc then_take λ prevote_qc.
    take_qc then_take λ finality_qc. pure_take (apply tx auth prevote_qc finality_qc)

-- `match decoder.u8("request tag")?`
unfoldable pub take_tagged_request : ℕ → Take Request
take_tagged_request tag =
    if tag == request_ping
    then pure_take ping
    else if tag == request_prevote
    then take_prevote
    else if tag == request_precommit
    then take_precommit
    else if tag == request_apply
    then take_apply
    else if tag == request_query_state
    then pure_take query_state
    else fail_take invalid_request_tag

unfoldable pub decode_request : List ℕ → Result WireError Request
decode_request bytes = decode_exact (take_u8 then_take take_tagged_request) bytes

unfoldable pub put_lifecycle : Lifecycle → List ℕ
put_lifecycle initialized = put_u8 1
put_lifecycle active = put_u8 2
put_lifecycle retired = put_u8 3

unfoldable pub lifecycle_of : ℕ → Take Lifecycle
lifecycle_of value =
    if value == 1
    then pure_take initialized
    else if value == 2
    then pure_take active
    else if value == 3
    then pure_take retired
    else fail_take invalid_lifecycle

unfoldable pub take_lifecycle : Take Lifecycle
take_lifecycle = take_u8 then_take lifecycle_of

unfoldable pub put_response : Response → Result WireError (List ℕ)
put_response (pong index epoch committee_hash) =
    ok (put_u8 response_pong ++ (put_u8 index ++ (put_u64 epoch ++ committee_hash)))
put_response (vote value) = do bytes ← put_vote value; ok (put_u8 response_vote ++ bytes)
put_response (applied state_root idempotent) =
    ok (put_u8 response_applied ++ (state_root ++ put_bool idempotent))
put_response (state state_root snapshot_bytes wal_bytes lifecycle) = ok (
    put_u8 response_state
    ++ (state_root ++ (put_u64 snapshot_bytes ++ (put_u64 wal_bytes ++ put_lifecycle lifecycle))))
put_response (rejected code) = ok (put_u8 response_rejected ++ put_u16 code)

unfoldable pub encode_response : Response → Result WireError (List ℕ)
encode_response response = finish_encoder (put_response response)

unfoldable pub take_pong : Take Response
take_pong = take_u8 then_take λ index. take_u64 then_take λ epoch.
    take_digest then_take λ committee_hash. pure_take (pong index epoch committee_hash)

unfoldable pub take_applied : Take Response
take_applied = take_digest then_take λ state_root.
    take_bool then_take λ idempotent. pure_take (applied state_root idempotent)

unfoldable pub take_state_response : Take Response
take_state_response = take_digest then_take λ state_root. take_u64 then_take λ snapshot_bytes.
    take_u64 then_take λ wal_bytes. take_lifecycle then_take λ lifecycle.
    pure_take (state state_root snapshot_bytes wal_bytes lifecycle)

unfoldable pub take_tagged_response : ℕ → Take Response
take_tagged_response tag =
    if tag == response_pong
    then take_pong
    else if tag == response_vote
    then (take_vote then_take λ value. pure_take (vote value))
    else if tag == response_applied
    then take_applied
    else if tag == response_state
    then take_state_response
    else if tag == response_rejected
    then (take_u16 then_take λ code. pure_take (rejected code))
    else fail_take invalid_response_tag

unfoldable pub decode_response : List ℕ → Result WireError Response
decode_response bytes = decode_exact (take_u8 then_take take_tagged_response) bytes
