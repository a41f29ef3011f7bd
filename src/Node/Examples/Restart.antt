-- ===== src/Node/Examples/Restart.antt =====
-- A server that is opened, votes, and is opened again. The hash and the signatures are stand-ins of the
-- right widths.
use avangard.Node.{
  after_persist, check_prevote, durable_vote_rejection, persist_and_sign, prevote, sign_own,
  validate_live_proposal,
}
use avangard.Store.Replay.{check_lock}
use avangard.Store.Append.{ensure_active}
use avangard.Node.Handle.{handle, query}
use avangard.Model.Ledger.{live_cell}
use avangard.Store.Votes.{persist_vote, vote_by, vote_commit}
use avangard.Store.Queries.{precommit_lock, vote_digest}
use avangard.Model.Vote.{sign_vote, verify_vote, vote_message}
use avangard.Store.Codec.{validate_phase}
use avangard.Model.Proposal.{verify_proposal}
use avangard.Store.Activate.{activate, activate_by, activate_commit}
use avangard.Node.Open.{
  activate_if, durable_state, open_activated, open_set_up, open_stored, read_bounded_snapshot,
  set_up, start_server,
}
use avangard.Store.Append.{after_append, append, ensure_healthy}
use avangard.Store.Record.{
  append_record, checksum_domain, record_header, wal_checksum, write_record,
}
use avangard.Model.Root.{applied_bytes, id_bytes, live_bytes, spent_bytes, state_root}
use avangard.Store.Queries.{applied_count}
use avangard.Wire.Codec.{
  ◌then_take◌, pure_take, check_count, decode_exact, finish_encoder, put_all, put_bounded_count,
  take_bounded_count, take_le, take_raw,
}
use avangard.Store.Open.{
  created, initialize, open_bytes, open_empty, open_found, open_wal, read_disk,
}
use avangard.Wire.States.{
  decode_state, put_applied_entry, put_collection, put_known_entry, put_live_entry, put_spent_entry,
  put_state, take_applied_entry, take_collection, take_entries, take_known_entry, take_live_entry,
  take_spent_entry, take_state,
}
use avangard.Store.Codec.{encode_snapshot, validate_snapshot}
use avangard.Node.Shape.{
  genesis_activation_digest, reconcile_receipts, reconcile_state_with_wal, shape_live,
  shape_receipts, shape_spent, validate_pure_genesis, validate_state_shape,
}
use avangard.Wire.Messages.{put_cell, put_cell_ref, take_cell, take_cell_ref}
use avangard.Store.Types.{snapshot_eq}
use avangard.Model.Ledger.{validate, validate_applied, validate_live, validate_spent}
use avangard.Prelude.{
  ℕ, ◌≡◌, refl, true, false, Bool, none, some, List, [], ◌∷◌, ◌++◌, replicate, Result, ok, err,
  bytes_eq, arith,
}
use avangard.Prelude.Assoc.{lookup, insert, bytes_has_eq}
use avangard.Prelude.Bytes.{le_bytes}
use avangard.Prelude.Tree.{contains, place, tree_insert}
use avangard.Store.Types.{Digest, done, failed, WalStore}
use avangard.Store.Codec.RoundTrip.{IsDigest}
use avangard.Store.Open.{Disk, contents, not_found, fresh_store}
use avangard.Model.Types.{Cell, Tx, UserAuth, Proposal, State, Keys, hash_domain}
use avangard.Model.Manifest.{
  lab_user_key, lab_validator_key, lab_members, lab_committee, validate_members, validate_manifest,
  member_bytes, committee_hash,
}
use avangard.Model.Transaction.{
  reference_bytes, output_bytes, tx_bytes, sum_outputs, compute_cell_digest, genesis_reference,
  make_genesis_cell, validate_cell, intent_hash, conflict_key, validate_tx, user_message, sign_user,
  verify_user_auth,
}
use avangard.Model.Vote.{leader}
use avangard.Model.Proposal.{proposal_message, justify_digest_of, make_proposal}
use avangard.Model.Ledger.{from_cells, add_genesis, empty_state}
use avangard.Model.Examples.{mix}
use avangard.Wire.Messages.Typed.{IsTypedProposal}
use avangard.Wire.States.{encode_state}
use avangard.Wire.States.RoundTrip.{IsTypedState}
use avangard.Wire.Requests.{Request, ping, query_state}
use avangard.Wire.Requests
use avangard.Node.{NodeServer}
use avangard.Node.Shape.{NodeError}
use avangard.Node.Open.{NodeConfig, open_node}
use avangard.Node.Restart.Typed.{IsKeyed}
use avangard.Node.Restart.Requests.{handle_all, reopen_after_requests}

abbrev pub digest : List ℕ → Digest
digest bytes = le_bytes 4 (mix 7 bytes) ++ replicate 28 1

digest-IsDigest : (bytes : List ℕ) → IsDigest (digest bytes)
digest-IsDigest bytes = refl

abbrev signature_of : List ℕ → List ℕ → List ℕ
signature_of key message = digest (key ++ message) ++ digest message

abbrev pub wide_keys : Keys
wide_keys = record {
  blake3 = digest;
  verifying_key = digest;
  sign = λ seed message. signature_of (digest seed) message;
  is_key = λ key. true;
  verify_strict = λ key message signature. bytes_eq signature (signature_of key message);
}

pub wide_keys-IsKeyed : IsKeyed wide_keys
wide_keys-IsKeyed = record { hash = digest-IsDigest; key = digest-IsDigest }

abbrev pub config : NodeConfig
config = record {
  epoch = 100;
  index = 2;
  port = 9000;
  wal_path = 1 ∷ [];
  snapshot_path = 2 ∷ [];
  byzantine = false;
}

abbrev pub value_or {ℓ} : {E : Type 0} {A : Type ℓ} → A → Result E A → A
value_or a (ok b) = b
value_or a (err e) = a

abbrev input : Cell
input = make_genesis_cell wide_keys 1 100 (digest (lab_user_key wide_keys 1))

abbrev pub genesis : State
genesis = value_or empty_state (from_cells wide_keys (input ∷ []))

abbrev pub file : List ℕ
file = value_or [] (encode_state genesis)

abbrev pub tx : Tx
tx = record {
  version = 1;
  network_id = 1;
  epoch = 100;
  committee_hash = value_or [] (committee_hash wide_keys (lab_committee wide_keys 100));
  input = input;
  outputs = record { asset_id = 1; amount = 90; owner = replicate 32 4 } ∷ [];
  fee = 10;
  salt = replicate 32 5;
}

pub encoded : encode_state genesis ≡ ok file
unfolding hash_domain lab_user_key lab_validator_key lab_members lab_committee validate_members
    validate_manifest member_bytes committee_hash reference_bytes compute_cell_digest
    genesis_reference make_genesis_cell validate_cell from_cells add_genesis contains tree_insert
    place insert lookup bytes_eq encode_state put_state put_collection put_all put_live_entry
    put_spent_entry put_known_entry put_applied_entry put_cell put_cell_ref put_bounded_count
    finish_encoder
encoded = refl

pub genesis-IsTypedState : IsTypedState genesis
unfolding hash_domain lab_user_key lab_validator_key lab_members lab_committee validate_members
    validate_manifest member_bytes committee_hash reference_bytes compute_cell_digest
    genesis_reference make_genesis_cell validate_cell from_cells add_genesis contains tree_insert
    place insert lookup bytes_eq
genesis-IsTypedState = record {
  live = (
    record {
      reference = record { asset_id = omega arith; id = refl; generation = omega arith };
      amount = omega arith;
      owner = refl;
      predecessor = refl;
      state_digest = refl;
    },
    tt,
  );
  spent_by = tt;
  known_ids = (refl, tt);
  applied = tt;
  live_order = (tt, tt);
  spent_order = tt;
  known_order = (tt, tt);
  applied_order = tt;
}

abbrev no_store : WalStore
no_store =
    fresh_store [] [] 0 (record { committee_hash = []; epoch = 0; state_root = []; bytes = [] })

abbrev server_or : Result NodeError NodeServer → NodeServer
server_or (ok server) = server
server_or (err e) = record {
  index = 0;
  byzantine = false;
  committee_hash = [];
  manifest = lab_committee wide_keys 100;
  signing_key = [];
  state = genesis;
  store = no_store;
}

abbrev pub server : NodeServer
server = server_or (open_node wide_keys config done done (some file) not_found).0

abbrev pub disk : Disk
disk = (open_node wide_keys config done done (some file) not_found).1

pub opened : open_node wide_keys config done done (some file) not_found ≡ (ok server, disk)
unfolding hash_domain lab_user_key lab_validator_key lab_members lab_committee validate_members
    validate_manifest member_bytes committee_hash reference_bytes compute_cell_digest
    genesis_reference make_genesis_cell validate_cell from_cells add_genesis contains tree_insert
    place insert lookup bytes_eq encode_state put_state put_collection put_all put_live_entry
    put_spent_entry put_known_entry put_applied_entry put_cell put_cell_ref put_bounded_count
    finish_encoder decode_state decode_exact take_state take_collection take_entries take_live_entry
    take_spent_entry take_known_entry take_applied_entry take_cell take_cell_ref take_bounded_count
    check_count take_le take_raw ◌then_take◌ pure_take open_node open_set_up set_up
    read_bounded_snapshot validate_state_shape validate validate_live validate_spent
    validate_applied shape_live shape_spent shape_receipts validate_pure_genesis state_root
    live_bytes spent_bytes id_bytes applied_bytes open_stored open_wal open_found read_disk
    open_bytes open_empty initialize validate_snapshot encode_snapshot append_record write_record
    record_header wal_checksum checksum_domain created activate_if activate activate_by
    activate_commit ensure_healthy append after_append snapshot_eq genesis_activation_digest
    open_activated start_server durable_state reconcile_state_with_wal reconcile_receipts
    applied_count
opened = refl

abbrev no_auth : UserAuth
no_auth = record { signer = []; signature = [] }

abbrev auth : UserAuth
auth = value_or no_auth (sign_user wide_keys tx (lab_user_key wide_keys 1))

abbrev no_proposal : Proposal
no_proposal = record {
  round = 0;
  proposer_index = 0;
  tx = tx;
  auth = auth;
  intent = [];
  justify = none;
  signature = [];
}

abbrev pub proposal : Proposal
proposal =
    value_or no_proposal (make_proposal wide_keys (lab_committee wide_keys 100) 1 tx auth none)

pub proposal-IsTyped : IsTypedProposal proposal
unfolding hash_domain lab_user_key lab_validator_key lab_members lab_committee validate_members
    validate_manifest member_bytes committee_hash reference_bytes compute_cell_digest
    genesis_reference make_genesis_cell validate_cell contains tree_insert place insert lookup
    bytes_eq output_bytes tx_bytes sum_outputs intent_hash validate_tx user_message sign_user
    verify_user_auth leader proposal_message justify_digest_of make_proposal
proposal-IsTyped = record {
  round = omega arith;
  tx = record {
    version = omega arith;
    network_id = omega arith;
    epoch = omega arith;
    committee_hash = refl;
    input = record {
      reference = record { asset_id = omega arith; id = refl; generation = omega arith };
      amount = omega arith;
      owner = refl;
      predecessor = refl;
      state_digest = refl;
    };
    outputs = (record { asset_id = omega arith; amount = omega arith; owner = refl }, tt);
    fee = omega arith;
    salt = refl;
  };
  auth = record { signer = refl; signature = refl };
  intent = refl;
  justify = tt;
  signature = refl;
}

abbrev requests : List (Bool × Request)
requests = (true, ping) ∷ (true, Requests.prevote proposal) ∷ (false, query_state) ∷ []

reopen_after_requests_example :
    let last = handle_all wide_keys requests server in
    open_node wide_keys config (failed 3) (failed 9) (some file) (contents last.store.file)
    ≡ (ok last, contents last.store.file)
reopen_after_requests_example =
    reopen_after_requests wide_keys wide_keys-IsKeyed config genesis file requests (failed 3)
      (failed 9) (omega arith) genesis-IsTypedState encoded (tt, (proposal-IsTyped, (tt, tt)))
      (omega arith) opened

-- The vote is written, behind the two records of the first opening.
voted : (handle_all wide_keys requests server).store.next_sequence ≡ 3
unfolding hash_domain lab_user_key lab_validator_key lab_members lab_committee validate_members
    validate_manifest member_bytes committee_hash reference_bytes compute_cell_digest
    genesis_reference make_genesis_cell validate_cell from_cells add_genesis contains tree_insert
    place insert lookup bytes_eq encode_state put_state put_collection put_all put_live_entry
    put_spent_entry put_known_entry put_applied_entry put_cell put_cell_ref put_bounded_count
    finish_encoder decode_state decode_exact take_state take_collection take_entries take_live_entry
    take_spent_entry take_known_entry take_applied_entry take_cell take_cell_ref take_bounded_count
    check_count take_le take_raw ◌then_take◌ pure_take open_node open_set_up set_up
    read_bounded_snapshot validate_state_shape validate validate_live validate_spent
    validate_applied shape_live shape_spent shape_receipts validate_pure_genesis state_root
    live_bytes spent_bytes id_bytes applied_bytes open_stored open_wal open_found read_disk
    open_bytes open_empty initialize validate_snapshot encode_snapshot append_record write_record
    record_header wal_checksum checksum_domain created activate_if activate activate_by
    activate_commit ensure_healthy append after_append snapshot_eq genesis_activation_digest
    open_activated start_server durable_state reconcile_state_with_wal reconcile_receipts
    applied_count output_bytes tx_bytes sum_outputs intent_hash validate_tx user_message sign_user
    verify_user_auth leader proposal_message justify_digest_of make_proposal handle prevote
    persist_and_sign after_persist sign_own check_prevote validate_live_proposal verify_proposal
    live_cell durable_vote_rejection vote_digest precommit_lock conflict_key sign_vote verify_vote
    vote_message persist_vote vote_by vote_commit ensure_active validate_phase check_lock query
voted = refl
