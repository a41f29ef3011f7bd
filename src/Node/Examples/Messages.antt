-- ===== src/Node/Examples/Messages.antt =====
-- Messages, states and frames at concrete inputs.
use avangard.Model.Manifest.{
  committee_hash, lab_committee, lab_members, lab_user_key, lab_validator_key, member_bytes,
  validate_manifest, validate_members,
}
use avangard.Model.Transaction.{
  compute_cell_digest, genesis_reference, intent_hash, make_genesis_cell, output_bytes,
  reference_bytes, sign_user, sum_outputs, tx_bytes, user_message, validate_cell, validate_tx,
  verify_user_auth,
}
use avangard.Prelude.Tree.{contains, place, tree_insert}
use avangard.Wire.Codec.{finish_encoder, put_all, put_bounded_count}
use avangard.Model.Proposal.{justify_digest_of, make_proposal, proposal_message}
use avangard.Model.Vote.{leader}
use avangard.Wire.States.{
  put_applied_entry, put_collection, put_known_entry, put_live_entry, put_spent_entry, put_state,
}
use avangard.Wire.Messages.{
  put_apply_receipt, put_cell, put_cell_ref, put_justify, put_output, put_proposal, put_tx,
  put_user_auth,
}
use avangard.Prelude.{
  ℕ, ◌≡◌, refl, true, List, [], ◌∷◌, ◌++◌, replicate, take, ok, err, bytes_eq, arith,
}
use avangard.Prelude.Assoc.{lookup, insert, bytes_has_eq}
use avangard.Store.Types.{done}
use avangard.Model.Types.{CellRef, State, hash_domain}
use avangard.Wire.Codec.{read_failed}
use avangard.Wire.Requests.{
  Request, Response, applied, encode_request, decode_request, encode_response, decode_response,
  put_request, put_response,
}
use avangard.Wire.Requests
use avangard.Wire.Requests.RoundTrip.{decode-encode_request, decode-encode_response}
use avangard.Wire.States.{encode_state, decode_state}
use avangard.Wire.States.RoundTrip.{IsTypedState, decode-encode_state}
use avangard.Wire.Frames.{frame, write_frame, write_bytes, read_frame}
use avangard.Wire.Frames.Laws.{read_frame-write_frame, read_frame-torn}
use avangard.Node.Examples.Restart.{value_or, proposal, proposal-IsTyped}

abbrev pub request : Request
request = Requests.prevote proposal

abbrev pub request_bytes : List ℕ
request_bytes = value_or [] (encode_request request)

pub request_encoded : encode_request request ≡ ok request_bytes
unfolding hash_domain lab_user_key lab_validator_key lab_members lab_committee validate_members
    validate_manifest member_bytes committee_hash reference_bytes compute_cell_digest
    genesis_reference make_genesis_cell validate_cell contains tree_insert place insert lookup
    bytes_eq output_bytes tx_bytes sum_outputs intent_hash validate_tx user_message sign_user
    verify_user_auth leader proposal_message justify_digest_of make_proposal encode_request
    put_request finish_encoder put_proposal put_tx put_cell put_cell_ref put_output put_user_auth
    put_justify put_bounded_count
request_encoded = refl

pub request_sent : write_frame done [] request_bytes ≡ (ok tt, frame request_bytes)
unfolding hash_domain lab_user_key lab_validator_key lab_members lab_committee validate_members
    validate_manifest member_bytes committee_hash reference_bytes compute_cell_digest
    genesis_reference make_genesis_cell validate_cell contains tree_insert place insert lookup
    bytes_eq output_bytes tx_bytes sum_outputs intent_hash validate_tx user_message sign_user
    verify_user_auth leader proposal_message justify_digest_of make_proposal encode_request
    put_request finish_encoder put_proposal put_tx put_cell put_cell_ref put_output put_user_auth
    put_justify put_bounded_count write_frame write_bytes
request_sent = refl

decode-encode_request_example : decode_request request_bytes ≡ ok request
decode-encode_request_example =
    decode-encode_request request request_bytes proposal-IsTyped request_encoded

abbrev response : Response
response = applied (replicate 32 7) true

decode-encode_response_example : decode_response (3 ∷ (replicate 32 7 ++ (1 ∷ []))) ≡ ok response
unfolding encode_response put_response finish_encoder
decode-encode_response_example =
    decode-encode_response response (3 ∷ (replicate 32 7 ++ (1 ∷ []))) refl refl

abbrev reference : ℕ → CellRef
reference b = record { asset_id = 1; id = replicate 32 b; generation = b }

abbrev state : State
state = record {
  live =
      (
        reference 2,
        record {
          reference = reference 2;
          amount = 100;
          owner = replicate 32 3;
          predecessor = replicate 32 4;
          state_digest = replicate 32 5;
        },
      )
      ∷ [];
  spent_by = (reference 1, replicate 32 6) ∷ [];
  known_ids = (replicate 32 1, tt) ∷ (replicate 32 2, tt) ∷ [];
  applied =
      (
        replicate 32 6,
        record {
          intent = replicate 32 6;
          certificate_digest = replicate 32 8;
          output_refs = reference 2 ∷ [];
        },
      )
      ∷ [];
}

state-IsTyped : IsTypedState state
unfolding bytes_eq
state-IsTyped = record {
  live = (
    record {
      reference = record { asset_id = omega arith; id = refl; generation = omega arith };
      amount = omega arith;
      owner = refl;
      predecessor = refl;
      state_digest = refl;
    },
    tt,
  );
  spent_by = ((record { asset_id = omega arith; id = refl; generation = omega arith }, refl), tt);
  known_ids = (refl, (refl, tt));
  applied = (
    record {
      intent = refl;
      certificate_digest = refl;
      output_refs = (record { asset_id = omega arith; id = refl; generation = omega arith }, tt);
    },
    tt,
  );
  live_order = (tt, tt);
  spent_order = (tt, tt);
  known_order = (((refl, refl), tt), (tt, tt));
  applied_order = (tt, tt);
}

abbrev state_bytes : List ℕ
state_bytes = value_or [] (encode_state state)

state_encoded : encode_state state ≡ ok state_bytes
unfolding encode_state put_state put_collection put_all put_live_entry put_spent_entry
    put_known_entry put_applied_entry put_apply_receipt put_cell put_cell_ref put_bounded_count
    finish_encoder bytes_eq
state_encoded = refl

decode-encode_state_example : decode_state state_bytes ≡ ok state
decode-encode_state_example = decode-encode_state state state_bytes state-IsTyped state_encoded

read_frame-write_frame_example :
    read_frame (frame (5 ∷ 6 ∷ []) ++ (7 ∷ [])) ≡ ok (5 ∷ 6 ∷ [], 7 ∷ [])
unfolding write_frame write_bytes
read_frame-write_frame_example =
    read_frame-write_frame (5 ∷ 6 ∷ []) (7 ∷ []) (frame (5 ∷ 6 ∷ [])) refl

read_frame-torn_example : read_frame (take 5 (frame (5 ∷ 6 ∷ []))) ≡ err read_failed
read_frame-torn_example = read_frame-torn (5 ∷ 6 ∷ []) 5 (omega arith) (omega arith)
