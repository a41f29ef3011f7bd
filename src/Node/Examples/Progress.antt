-- ===== src/Node/Examples/Progress.antt =====
-- A ready server answers a proposal, at concrete inputs.
use avangard.Store.Activate.{activate, activate_by, activate_commit}
use avangard.Node.Open.{
  activate_if, durable_state, open_activated, open_node, open_set_up, open_stored,
  read_bounded_snapshot, start_server,
}
use avangard.Model.Ledger.{
  add_genesis, from_cells, live_cell, validate, validate_applied, validate_live, validate_spent,
}
use avangard.Store.Append.{after_append, append, ensure_active, ensure_healthy}
use avangard.Node.{
  after_persist, durable_vote_rejection, persist_and_sign, sign_own, validate_live_proposal,
}
use avangard.Store.Record.{
  append_record, checksum_domain, record_header, wal_checksum, write_record,
}
use avangard.Model.Root.{applied_bytes, id_bytes, live_bytes, spent_bytes, state_root}
use avangard.Store.Queries.{applied_count, precommit_lock, vote_digest}
use avangard.Wire.Codec.{
  ◌then_take◌, check_count, decode_exact, finish_encoder, pure_take, put_all, put_bounded_count,
  take_bounded_count, take_le, take_raw,
}
use avangard.Store.Replay.{check_lock}
use avangard.Model.Manifest.{
  committee_hash, lab_committee, lab_members, lab_user_key, lab_validator_key, member_bytes,
  validate_manifest, validate_members,
}
use avangard.Model.Transaction.{
  compute_cell_digest, conflict_key, genesis_reference, intent_hash, make_genesis_cell,
  output_bytes, reference_bytes, sign_user, sum_outputs, tx_bytes, user_message, validate_cell,
  validate_tx, verify_user_auth,
}
use avangard.Prelude.Tree.{contains, place, tree_insert}
use avangard.Store.Open.{
  created, initialize, open_bytes, open_empty, open_found, open_wal, read_disk,
}
use avangard.Wire.States.{
  decode_state, encode_state, put_applied_entry, put_collection, put_known_entry, put_live_entry,
  put_spent_entry, put_state, take_applied_entry, take_collection, take_entries, take_known_entry,
  take_live_entry, take_spent_entry, take_state,
}
use avangard.Store.Codec.{encode_snapshot, validate_phase, validate_snapshot}
use avangard.Node.Shape.{
  genesis_activation_digest, reconcile_receipts, reconcile_state_with_wal, shape_live,
  shape_receipts, shape_spent, validate_pure_genesis, validate_state_shape,
}
use avangard.Node.Handle.{handle, query}
use avangard.Model.Proposal.{justify_digest_of, make_proposal, proposal_message, verify_proposal}
use avangard.Model.Vote.{leader, sign_vote, verify_vote, vote_message}
use avangard.Store.Votes.{persist_vote, vote_by, vote_commit}
use avangard.Wire.Messages.{put_cell, put_cell_ref, take_cell, take_cell_ref}
use avangard.Store.Types.{snapshot_eq}
use avangard.Prelude.{◌≡◌, refl, false, some, [], ok, bytes_eq, arith, length}
use avangard.Prelude.Assoc.{lookup, insert, bytes_has_eq}
use avangard.Store.Types.{done}
use avangard.Model.Types.{Vote, zero_digest, hash_domain}
use avangard.Node.{check_prevote, prevote}
use avangard.Node.Open.{Setup, set_up}
use avangard.Node.Voting.{Holds}
use avangard.Node.Progress.{prevote_answered}
use avangard.Node.Restart.Ready.{IsReady}
use avangard.Node.Restart.First.{first-IsReady}
use avangard.Wire.States.RoundTrip.{decode-encode_state}
use avangard.Node.Examples.Restart.{
  value_or, wide_keys, wide_keys-IsKeyed, config, genesis, file, encoded, genesis-IsTypedState,
  server, opened, proposal,
}

abbrev no_setup : Setup
no_setup = record {
  committee_hash = [];
  manifest = server.manifest;
  signing_key = [];
  snapshot = server.store.initial_snapshot;
}

abbrev setup : Setup
setup = value_or no_setup (set_up wide_keys config (some file))

facts :
    (set_up wide_keys config (some file) ≡ ok setup)
    × (server.byzantine ≡ false)
    × (server.store.next_sequence ≡ 2)
    × (length proposal.intent ≡ 32)
    × (check_prevote wide_keys server proposal ≡ ok zero_digest)
unfolding hash_domain lab_user_key lab_validator_key lab_members lab_committee validate_members
    validate_manifest member_bytes committee_hash reference_bytes compute_cell_digest
    genesis_reference make_genesis_cell validate_cell from_cells add_genesis contains tree_insert
    place insert lookup bytes_eq encode_state put_state put_collection put_all put_live_entry
    put_spent_entry put_known_entry put_applied_entry put_cell put_cell_ref put_bounded_count
    finish_encoder decode_state decode_exact take_state take_collection take_entries take_live_entry
    take_spent_entry take_known_entry take_applied_entry take_cell take_cell_ref take_bounded_count
    check_count take_le take_raw ◌then_take◌ pure_take open_node open_set_up set_up
    read_bounded_snapshot validate_state_shape validate validate_live validate_spent
    validate_applied shape_live shape_spent shape_receipts validate_pure_genesis state_root
    live_bytes spent_bytes id_bytes applied_bytes open_stored open_wal open_found read_disk
    open_bytes open_empty initialize validate_snapshot encode_snapshot append_record write_record
    record_header wal_checksum checksum_domain created activate_if activate activate_by
    activate_commit ensure_healthy append after_append snapshot_eq genesis_activation_digest
    open_activated start_server durable_state reconcile_state_with_wal reconcile_receipts
    applied_count output_bytes tx_bytes sum_outputs intent_hash validate_tx user_message sign_user
    verify_user_auth leader proposal_message justify_digest_of make_proposal handle prevote
    persist_and_sign after_persist sign_own check_prevote validate_live_proposal verify_proposal
    live_cell durable_vote_rejection vote_digest precommit_lock conflict_key sign_vote verify_vote
    vote_message persist_vote vote_by vote_commit ensure_active validate_phase check_lock query
facts = (refl, refl, refl, refl, refl)

server-IsReady : IsReady wide_keys config setup server
server-IsReady =
    (first-IsReady wide_keys wide_keys-IsKeyed config setup genesis file (omega arith)
      genesis-IsTypedState (decode-encode_state genesis file genesis-IsTypedState encoded) facts.0
      opened).0

prevote_answered_example :
    (vote : Vote) × ((prevote wide_keys done proposal server).0 ≡ ok vote)
    × (vote.intent ≡ proposal.intent)
    × Holds (prevote wide_keys done proposal server).1.store vote
prevote_answered_example =
    prevote_answered wide_keys wide_keys-IsKeyed config setup (some file) server proposal
      zero_digest facts.0 server-IsReady facts.1 (omega (arith, facts.2)) facts.3 facts.4
