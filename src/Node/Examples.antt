-- ===== src/Node/Examples.antt =====
-- A server that answers a prevote request. The hash and the signatures are stand-ins.
mod Restart
mod Progress
mod Ledger
mod Messages
mod Connection
use avangard.Prelude.{◌≡◌, refl, false, none, List, [], ◌∷◌, Result, ok, err, bytes_eq, All}
use avangard.Prelude.Assoc.{lookup, insert, bytes_has_eq}
use avangard.Prelude.Tree.{contains, place, tree_insert}
use avangard.Store.Types.{Io, done, failed, active}
use avangard.Store.Open.{fresh_store}
use avangard.Store.Calls.{Call, run, call}
use avangard.Store.Votes
use avangard.Store.Votes.{vote_commit}
use avangard.Store.Append.{append, ensure_active}
use avangard.Store.Record.{append_record}
use avangard.Store.Replay.{check_lock}
use avangard.Store.Codec.{validate_phase}
use avangard.Store.Queries.{vote_digest, precommit_lock}
use avangard.Model.Types.{UserAuth, Vote, Proposal, ModelError, hash_domain}
use avangard.Model.Manifest.{
  lab_user_key, lab_validator_key, lab_members, lab_committee, validate_members, validate_manifest,
  member_bytes, committee_hash,
}
use avangard.Model.Transaction.{
  reference_bytes, output_bytes, tx_bytes, sum_outputs, compute_cell_digest, genesis_reference,
  make_genesis_cell, validate_cell, intent_hash, conflict_key, validate_tx, user_message, sign_user,
  verify_user_auth, make_transfer,
}
use avangard.Model.Vote.{leader, vote_message, sign_vote, verify_vote}
use avangard.Model.Certificate.{verify_qc, qc_digest}
use avangard.Model.Proposal.{proposal_message, justify_digest_of, make_proposal, verify_proposal}
use avangard.Model.Ledger.{live_cell, from_cells, add_genesis}
use avangard.Model.Examples.{toy_keys, manifest, user, tx, start}
use avangard.Node.{
  NodeServer, NodeRejection, VoteRequest, prevote_request, handle_vote, prevote, persist_and_sign,
  after_persist, sign_own, check_prevote, validate_live_proposal, durable_vote_rejection,
}
use avangard.Node.Voting.{Holds, handle_vote-Holds}
use avangard.Node.Serving.{serve, serve_recorded}

abbrev auth_of : Result ModelError UserAuth → UserAuth
auth_of (ok auth) = auth
auth_of (err e) = record { signer = []; signature = [] }

abbrev pub auth : UserAuth
auth = auth_of (sign_user toy_keys tx user)

abbrev proposal_of : Result ModelError Proposal → Proposal
proposal_of (ok proposal) = proposal
proposal_of (err e) = record {
  round = 0;
  proposer_index = 0;
  tx = tx;
  auth = auth;
  intent = [];
  justify = none;
  signature = [];
}

abbrev pub proposal : Proposal
proposal = proposal_of (make_proposal toy_keys manifest 1 tx auth none)

abbrev pub server : NodeServer
server = record {
  index = 2;
  byzantine = false;
  committee_hash = [];
  manifest = manifest;
  signing_key = lab_validator_key toy_keys 100 2;
  state = start;
  store =
      record (fresh_store [] [] 100
        (record { committee_hash = []; epoch = 100; state_root = []; bytes = [] })) {
          lifecycle = active;
        };
}

abbrev vote_of : Result NodeRejection Vote → Vote
vote_of (ok vote) = vote
vote_of (err rejection) = record {
  network_id = 0;
  epoch = 0;
  committee_hash = [];
  phase = 0;
  round = 0;
  conflict_key = [];
  intent = [];
  justify = [];
  signer_index = 9;
  signature = [];
}

abbrev vote : Vote
vote = vote_of (handle_vote toy_keys done (prevote_request proposal) server).0

voted : (handle_vote toy_keys done (prevote_request proposal) server).0 ≡ ok vote
unfolding hash_domain lab_user_key lab_validator_key lab_members lab_committee validate_members
    validate_manifest member_bytes committee_hash reference_bytes output_bytes tx_bytes sum_outputs
    compute_cell_digest genesis_reference make_genesis_cell validate_cell intent_hash conflict_key
    validate_tx user_message sign_user verify_user_auth make_transfer leader vote_message sign_vote
    verify_vote verify_qc qc_digest contains tree_insert place insert lookup bytes_eq
    proposal_message justify_digest_of make_proposal verify_proposal from_cells add_genesis
    live_cell run call Votes.persist_vote vote_commit ensure_active append append_record check_lock
    validate_phase handle_vote prevote persist_and_sign after_persist sign_own check_prevote
    validate_live_proposal durable_vote_rejection vote_digest precommit_lock
voted = refl

abbrev requests : List (Io × VoteRequest)
requests = (done, prevote_request proposal) ∷ (failed 3, prevote_request proposal) ∷ []

serve_recorded_example :
    All (Holds (serve toy_keys requests server).1.store) (serve toy_keys requests server).0
    × ((calls : List (Io × Call)) × ((serve toy_keys requests server).1.store
          ≡ run toy_keys.blake3 calls server.store))
serve_recorded_example = serve_recorded toy_keys requests server refl
