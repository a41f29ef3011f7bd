-- ===== src/Node/Examples/Connection.antt =====
-- Connections of a server at concrete inputs.
use avangard.Store.Activate.{activate, activate_by, activate_commit}
use avangard.Node.Open.{
  activate_if, durable_state, open_activated, open_node, open_set_up, open_stored,
  read_bounded_snapshot, set_up, start_server,
}
use avangard.Model.Ledger.{
  add_genesis, from_cells, live_cell, validate, validate_applied, validate_live, validate_spent,
}
use avangard.Store.Append.{after_append, append, ensure_active, ensure_healthy}
use avangard.Node.{
  after_persist, check_prevote, durable_vote_rejection, persist_and_sign, prevote, sign_own,
  validate_live_proposal,
}
use avangard.Store.Record.{
  append_record, checksum_domain, record_header, wal_checksum, write_record,
}
use avangard.Model.Root.{applied_bytes, id_bytes, live_bytes, spent_bytes, state_root}
use avangard.Store.Queries.{applied_count, precommit_lock, vote_digest}
use avangard.Wire.Codec.{
  check_count, finish_encoder, pure_take, put_all, put_bounded_count, take_bounded_count,
}
use avangard.Store.Replay.{check_lock}
use avangard.Model.Manifest.{
  committee_hash, lab_committee, lab_members, lab_user_key, lab_validator_key, member_bytes,
  validate_manifest, validate_members,
}
use avangard.Model.Transaction.{
  compute_cell_digest, conflict_key, genesis_reference, intent_hash, make_genesis_cell,
  output_bytes, reference_bytes, sign_user, sum_outputs, tx_bytes, user_message, validate_cell,
  validate_tx, verify_user_auth,
}
use avangard.Prelude.Tree.{contains, place, tree_insert}
use avangard.Store.Open.{
  created, initialize, open_bytes, open_empty, open_found, open_wal, read_disk,
}
use avangard.Wire.States.{
  decode_state, encode_state, put_applied_entry, put_collection, put_known_entry, put_live_entry,
  put_spent_entry, put_state, take_applied_entry, take_collection, take_entries, take_known_entry,
  take_live_entry, take_spent_entry, take_state,
}
use avangard.Store.Codec.{encode_snapshot, validate_phase, validate_snapshot}
use avangard.Node.Shape.{
  genesis_activation_digest, reconcile_receipts, reconcile_state_with_wal, shape_live,
  shape_receipts, shape_spent, validate_pure_genesis, validate_state_shape,
}
use avangard.Model.Types.{hash_domain}
use avangard.Model.Proposal.{justify_digest_of, make_proposal, proposal_message, verify_proposal}
use avangard.Model.Vote.{leader, sign_vote, verify_vote, vote_message}
use avangard.Store.Votes.{persist_vote, vote_by, vote_commit}
use avangard.Wire.Messages.{put_cell, put_cell_ref, put_phase, put_vote, take_cell, take_cell_ref}
use avangard.Wire.Requests.{put_response}
use avangard.Node.Handle.{query}
use avangard.Store.Types.{snapshot_eq}
use avangard.Prelude.{ℕ, ◌≡◌, refl, true, List, [], ◌∷◌, ◌++◌, ok, bytes_eq, arith}
use avangard.Prelude.Assoc.{lookup, insert, bytes_has_eq}
use avangard.Store.Types.{done}
use avangard.Wire.Codec.{decode_exact, ◌then_take◌, take_le, take_raw}
use avangard.Wire.Requests.{query_state, encode_request, put_request, encode_response}
use avangard.Wire.Requests.RoundTrip.{IsTypedResponse}
use avangard.Wire.Frames.{frame, write_frame, write_bytes}
use avangard.Node.Handle.{handle, serve_connection, reject_bad_request}
use avangard.Node.Handle.Outcome.{Outcome}
use avangard.Node.Handle.Connection.{
  Carries, response_of, serve_connection-handle, IsRefused, serve_connection_trailing,
}
use avangard.Node.Examples.Restart.{value_or, wide_keys, proposal-IsTyped, server}
use avangard.Node.Examples.Messages.{request, request_bytes, request_encoded, request_sent}

-- A query of the state, with a byte too much.
serve_connection_trailing_example :
    IsRefused wide_keys reject_bad_request server
      (serve_connection wide_keys done done true true (frame (5 ∷ 0 ∷ []) ++ (1 ∷ [])) server)
serve_connection_trailing_example =
    serve_connection_trailing wide_keys done true query_state (5 ∷ []) (0 ∷ []) (frame (5 ∷ 0 ∷ []))
      (1 ∷ []) server tt (unfold encode_request put_request finish_encoder in refl) (omega arith)
      (unfold write_frame write_bytes in refl)

abbrev reply : List ℕ
reply =
    value_or []
      (encode_response (response_of wide_keys (handle wide_keys done true request server).0))

replied :
    (encode_response (response_of wide_keys (handle wide_keys done true request server).0)
      ≡ ok reply)
    × IsTypedResponse (response_of wide_keys (handle wide_keys done true request server).0)
unfolding hash_domain lab_user_key lab_validator_key lab_members lab_committee validate_members
    validate_manifest member_bytes committee_hash reference_bytes compute_cell_digest
    genesis_reference make_genesis_cell validate_cell from_cells add_genesis contains tree_insert
    place insert lookup bytes_eq encode_state put_state put_collection put_all put_live_entry
    put_spent_entry put_known_entry put_applied_entry put_cell put_cell_ref put_bounded_count
    finish_encoder decode_state decode_exact take_state take_collection take_entries take_live_entry
    take_spent_entry take_known_entry take_applied_entry take_cell take_cell_ref take_bounded_count
    check_count take_le take_raw ◌then_take◌ pure_take open_node open_set_up set_up
    read_bounded_snapshot validate_state_shape validate validate_live validate_spent
    validate_applied shape_live shape_spent shape_receipts validate_pure_genesis state_root
    live_bytes spent_bytes id_bytes applied_bytes open_stored open_wal open_found read_disk
    open_bytes open_empty initialize validate_snapshot encode_snapshot append_record write_record
    record_header wal_checksum checksum_domain created activate_if activate activate_by
    activate_commit ensure_healthy append after_append snapshot_eq genesis_activation_digest
    open_activated start_server durable_state reconcile_state_with_wal reconcile_receipts
    applied_count output_bytes tx_bytes sum_outputs intent_hash validate_tx user_message sign_user
    verify_user_auth leader proposal_message justify_digest_of make_proposal handle prevote
    persist_and_sign after_persist sign_own check_prevote validate_live_proposal verify_proposal
    live_cell durable_vote_rejection vote_digest precommit_lock conflict_key sign_vote verify_vote
    vote_message persist_vote vote_by vote_commit ensure_active validate_phase check_lock query
    encode_response put_response put_vote put_phase
replied = (
  refl,
  record {
    network_id = omega arith;
    epoch = omega arith;
    committee_hash = refl;
    round = omega arith;
    conflict_key = refl;
    intent = refl;
    justify = refl;
    signature = refl;
  },
)

serve_connection-handle_example :
    Carries
      (serve_connection wide_keys done done true true (frame request_bytes ++ []) server).0
      (response_of wide_keys (handle wide_keys done true request server).0)
    × ((serve_connection wide_keys done done true true (frame request_bytes ++ []) server).2
        ≡ (handle wide_keys done true request server).1)
serve_connection-handle_example =
    serve_connection-handle wide_keys done true request server request_bytes (frame request_bytes)
      [] reply proposal-IsTyped request_encoded request_sent replied.1 replied.0
