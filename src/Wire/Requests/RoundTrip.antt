-- ===== src/Wire/Requests/RoundTrip.antt =====
-- Requests and responses of integration001/src/wire.rs come back from their encodings.
use avangard.Prelude.{
  ℕ, ◌≡◌, ◌≤◌, ◌<◌, ◌++◌, length, err, List, ok, arith, inl, inr, Result-cases, subst,
}
use avangard.Store.Types.{Lifecycle, initialized, active, retired}
use avangard.Store.Codec.RoundTrip.{IsDigest, IsU64}
use avangard.Wire.Codec.{◌then_take◌, take_u8, max_frame_len, finish_encoder, trailing_bytes}
use avangard.Wire.Reads.{
  Reads, Reads-then, Reads-last, Reads-pure, Reads-raw, Reads-u8, Reads-bool, Reads-u16, Reads-u64,
  decode_exact-Reads, decode_exact_trailing,
}
use avangard.Wire.Messages.{put_tx, put_vote, put_qc, put_proposal}
use avangard.Wire.Messages.Typed.{
  IsU16, IsTypedTx, IsTypedAuth, IsTypedVote, IsTypedQc, IsTypedProposal,
}
use avangard.Wire.Messages.RoundTrip.{
  Reads-tx, Reads-user_auth, Reads-vote, Reads-qc, Reads-proposal,
}
use avangard.Wire.Requests.{
  Request, ping, prevote, precommit, apply, query_state, Response, pong, vote, applied, state,
  rejected, put_request, encode_request, decode_request, take_tagged_request, take_prevote,
  take_precommit, take_apply, put_response, encode_response, decode_response, take_tagged_response,
  take_pong, take_applied, take_state_response, put_lifecycle, take_lifecycle, lifecycle_of,
}

-- What the Rust types say of requests and responses.
abbrev pub IsTypedRequest : Request → Type 0
IsTypedRequest ping = Unit
IsTypedRequest (prevote proposal) = IsTypedProposal proposal
IsTypedRequest (precommit proposal prevote_qc) = IsTypedProposal proposal × IsTypedQc prevote_qc
IsTypedRequest (apply tx auth prevote_qc finality_qc) =
    IsTypedTx tx × IsTypedAuth auth × IsTypedQc prevote_qc × IsTypedQc finality_qc
IsTypedRequest query_state = Unit

abbrev pub IsTypedResponse : Response → Type 0
IsTypedResponse (pong index epoch committee_hash) = IsU64 epoch × IsDigest committee_hash
IsTypedResponse (vote value) = IsTypedVote value
IsTypedResponse (applied state_root idempotent) = IsDigest state_root
IsTypedResponse (state state_root snapshot_bytes wal_bytes lifecycle) =
    IsDigest state_root × IsU64 snapshot_bytes × IsU64 wal_bytes
IsTypedResponse (rejected code) = IsU16 code

abbrev ReadsRequest : List ℕ → Request → Type 0
ReadsRequest bytes request = Reads (take_u8 then_take take_tagged_request) bytes request

abbrev ReadsResponse : List ℕ → Response → Type 0
ReadsResponse bytes response = Reads (take_u8 then_take take_tagged_response) bytes response

Reads-request :
    (request : Request) (bytes : List ℕ)
    → IsTypedRequest request
    → put_request request ≡ ok bytes
    → ReadsRequest bytes request
unfolding put_request take_tagged_request take_prevote take_precommit take_apply
Reads-request ping bytes t h =
    subst (λ t. ReadsRequest t ping) (ground arith) (Reads-last _ (Reads-u8 1) Reads-pure)
Reads-request query_state bytes t h =
    subst (λ t. ReadsRequest t query_state) (ground arith) (Reads-last _ (Reads-u8 5) Reads-pure)
Reads-request (prevote proposal) bytes t h = elim (Result-cases (put_proposal proposal)) [
  | inr (x, refused) ↦ absurd (ground arith)
  | inl (xs, put) ↦
      subst (λ t. ReadsRequest t (prevote proposal)) (ground arith)
        (Reads-then _ (Reads-u8 2) (Reads-last _ (Reads-proposal proposal xs t put) Reads-pure))
]
Reads-request (precommit proposal prevote_qc) bytes (t, t') h =
    elim (Result-cases (put_proposal proposal)) [
      | inr (x, refused) ↦ absurd (ground arith)
      | inl (xs, put) ↦ elim (Result-cases (put_qc prevote_qc)) [
        | inr (x, refused) ↦ absurd (ground arith)
        | inl (ys, put') ↦
            subst (λ t. ReadsRequest t (precommit proposal prevote_qc)) (ground arith)
              (Reads-then _ (Reads-u8 3) (
                Reads-then _ (Reads-proposal proposal xs t put)
                  (Reads-last _ (Reads-qc prevote_qc ys t' put') Reads-pure)))
      ]
    ]
Reads-request (apply tx auth prevote_qc finality_qc) bytes (t, a, p, f) h =
    elim (Result-cases (put_tx tx)) [
      | inr (x, refused) ↦ absurd (ground arith)
      | inl (xs, put) ↦ elim (Result-cases (put_qc prevote_qc)) [
        | inr (x, refused) ↦ absurd (ground arith)
        | inl (ys, put') ↦ elim (Result-cases (put_qc finality_qc)) [
          | inr (x, refused) ↦ absurd (ground arith)
          | inl (zs, put'') ↦
              subst (λ t. ReadsRequest t (apply tx auth prevote_qc finality_qc)) (ground arith)
                (Reads-then _ (Reads-u8 4) (
                  Reads-then _ (Reads-tx tx xs t put) (
                    Reads-then _ (Reads-user_auth auth a) (
                      Reads-then _ (Reads-qc prevote_qc ys p put')
                        (Reads-last _ (Reads-qc finality_qc zs f put'') Reads-pure)))))
        ]
      ]
    ]

-- A request of its Rust type that is encoded within the size of a frame is decoded as itself.
pub decode-encode_request :
    (request : Request) (bytes : List ℕ)
    → IsTypedRequest request
    → encode_request request ≡ ok bytes
    → decode_request bytes ≡ ok request
unfolding encode_request decode_request
decode-encode_request request bytes t h =
    decode_exact-Reads _ (put_request request) request (λ xs put. Reads-request request xs t put) h

-- Bytes behind an encoded request are refused.
pub decode_request_trailing :
    (request : Request) (bytes extra : List ℕ)
    → IsTypedRequest request
    → encode_request request ≡ ok bytes
    → length (bytes ++ extra) ≤ max_frame_len
    → 0 < length extra
    → decode_request (bytes ++ extra) ≡ err trailing_bytes
unfolding encode_request decode_request finish_encoder
decode_request_trailing request bytes extra t h fits more =
    decode_exact_trailing (take_u8 then_take take_tagged_request) bytes extra request
      (Reads-request request bytes t (ground arith)) fits more

Reads-lifecycle : (lifecycle : Lifecycle) → Reads take_lifecycle (put_lifecycle lifecycle) lifecycle
unfolding take_lifecycle put_lifecycle lifecycle_of
Reads-lifecycle initialized = Reads-last _ (Reads-u8 1) Reads-pure
Reads-lifecycle active = Reads-last _ (Reads-u8 2) Reads-pure
Reads-lifecycle retired = Reads-last _ (Reads-u8 3) Reads-pure

Reads-response :
    (response : Response) (bytes : List ℕ)
    → IsTypedResponse response
    → put_response response ≡ ok bytes
    → ReadsResponse bytes response
unfolding put_response take_tagged_response take_pong take_applied take_state_response
Reads-response (pong index epoch committee_hash) bytes (e, c) h =
    subst (λ t. ReadsResponse t (pong index epoch committee_hash)) (ground arith)
      (Reads-then _ (Reads-u8 1) (
        Reads-then _ (Reads-u8 index) (
          Reads-then _ (Reads-u64 epoch e)
            (Reads-last _ (Reads-raw 32 committee_hash c) Reads-pure))))
Reads-response (vote value) bytes t h = elim (Result-cases (put_vote value)) [
  | inr (x, refused) ↦ absurd (ground arith)
  | inl (xs, put) ↦
      subst (λ t. ReadsResponse t (vote value)) (ground arith)
        (Reads-then _ (Reads-u8 2) (Reads-last _ (Reads-vote value xs t put) Reads-pure))
]
Reads-response (applied state_root idempotent) bytes t h =
    subst (λ t. ReadsResponse t (applied state_root idempotent)) (ground arith)
      (Reads-then _ (Reads-u8 3) (
        Reads-then _ (Reads-raw 32 state_root t) (Reads-last _ (Reads-bool idempotent) Reads-pure)))
Reads-response (state state_root snapshot_bytes wal_bytes lifecycle) bytes (r, s, w) h =
    subst (λ t. ReadsResponse t (state state_root snapshot_bytes wal_bytes lifecycle))
      (ground arith)
      (Reads-then _ (Reads-u8 4) (
        Reads-then _ (Reads-raw 32 state_root r) (
          Reads-then _ (Reads-u64 snapshot_bytes s) (
            Reads-then _ (Reads-u64 wal_bytes w)
              (Reads-last _ (Reads-lifecycle lifecycle) Reads-pure)))))
Reads-response (rejected code) bytes t h =
    subst (λ t. ReadsResponse t (rejected code)) (ground arith)
      (Reads-then _ (Reads-u8 6) (Reads-last _ (Reads-u16 code t) Reads-pure))

-- A response of its Rust type that is encoded within the size of a frame is decoded as itself.
pub decode-encode_response :
    (response : Response) (bytes : List ℕ)
    → IsTypedResponse response
    → encode_response response ≡ ok bytes
    → decode_response bytes ≡ ok response
unfolding encode_response decode_response
decode-encode_response response bytes t h =
    decode_exact-Reads _ (put_response response) response
      (λ xs put. Reads-response response xs t put) h
