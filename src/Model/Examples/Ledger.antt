-- ===== src/Model/Examples/Ledger.antt =====
-- The theorems on the state at concrete inputs.
use avangard.Prelude.{◌≡◌, ◌≢◌, refl, [], ◌∷◌, replicate, Result, ok, err, bytes_eq}
use avangard.Prelude.Assoc.{lookup, insert, bytes_has_eq}
use avangard.Prelude.Tree.{contains, place, tree_insert, remove}
use avangard.Model.Types.{
  UserAuth, State, ModelError, hash_domain, ApplyReceipt, ApplyOutcome, applied, already_applied,
}
use avangard.Model.Manifest.{
  lab_user_key, lab_validator_key, lab_members, lab_committee, validate_members, validate_manifest,
  member_bytes, committee_hash,
}
use avangard.Model.Transaction.{
  reference_bytes, output_bytes, tx_bytes, sum_outputs, compute_cell_digest, genesis_reference,
  make_genesis_cell, validate_cell, intent_hash, conflict_key, validate_tx, user_message, sign_user,
  verify_user_auth, make_transfer,
}
use avangard.Model.Vote.{vote_message, sign_vote, verify_vote}
use avangard.Model.Certificate.{
  collect_votes, verify_votes, check_justify, check_expected_justify, verify_qc, assemble_qc,
  qc_digest_of, qc_digest, qc_bytes, signature_bytes,
}
use avangard.Model.Ledger.{
  fold_value, total_value, add_outputs, output_ref, fee_collector, effects_of, output_cells,
  materialize_outputs, check_outputs, add_genesis, from_cells, check_finality, apply_new, apply_by,
  apply_finalized,
}
use avangard.Model.Ledger.Invariant.{IsLedger, from_cells-IsLedger}
use avangard.Model.Ledger.Genesis.{IsGenesis, from_cells-IsGenesis}
use avangard.Model.Ledger.Apply.{
  Request, apply, apply_all, apply_conserves, apply-IsLedger, apply_twice, no_double_spend,
}
use avangard.Model.Root.{state_root}
use avangard.Model.Root.Certificates.{recertify, state_root-recertify}
use avangard.Model.Examples.{toy_keys, manifest, user, input, tx, prevote_qc, precommit_qc, start}

tx_valid : validate_tx toy_keys tx manifest ≡ ok tt
unfolding hash_domain lab_user_key lab_validator_key lab_members lab_committee validate_members
    validate_manifest member_bytes committee_hash reference_bytes output_bytes tx_bytes sum_outputs
    compute_cell_digest genesis_reference make_genesis_cell validate_cell intent_hash conflict_key
    validate_tx user_message sign_user make_transfer vote_message sign_vote verify_vote
    collect_votes verify_votes check_justify check_expected_justify verify_qc assemble_qc
    qc_digest_of qc_digest qc_bytes signature_bytes contains tree_insert place insert lookup
    bytes_eq
tx_valid = refl

start_made : from_cells toy_keys (input ∷ []) ≡ ok start
unfolding hash_domain lab_user_key lab_validator_key lab_members lab_committee validate_members
    validate_manifest member_bytes committee_hash reference_bytes output_bytes tx_bytes sum_outputs
    compute_cell_digest genesis_reference make_genesis_cell validate_cell intent_hash conflict_key
    validate_tx user_message sign_user make_transfer vote_message sign_vote verify_vote
    collect_votes verify_votes check_justify check_expected_justify verify_qc assemble_qc
    qc_digest_of qc_digest qc_bytes signature_bytes contains tree_insert place insert lookup
    bytes_eq verify_user_auth fold_value total_value add_outputs output_ref fee_collector effects_of
    output_cells materialize_outputs check_outputs add_genesis from_cells check_finality apply_new
    apply_by apply_finalized remove
start_made = refl

from_cells-IsGenesis_example : IsGenesis toy_keys (input ∷ []) start
from_cells-IsGenesis_example = from_cells-IsGenesis toy_keys (input ∷ []) start_made

start-IsLedger : IsLedger start
start-IsLedger = from_cells-IsLedger toy_keys (input ∷ []) start_made

abbrev auth_of : Result ModelError UserAuth → UserAuth
auth_of (ok auth) = auth
auth_of (err e) = record { signer = []; signature = [] }

abbrev request : Request
request = record {
  tx = tx;
  auth = auth_of (sign_user toy_keys tx user);
  prevote_qc = prevote_qc;
  precommit_qc = precommit_qc;
  manifest = manifest;
}

abbrev receipt_of : Result ModelError (ApplyOutcome × State) → ApplyReceipt
receipt_of (ok (applied receipt, next)) = receipt
receipt_of (ok (already_applied receipt, next)) = receipt
receipt_of (err e) = record { intent = []; certificate_digest = []; output_refs = [] }

abbrev state_of : Result ModelError (ApplyOutcome × State) → State
state_of (ok (outcome, next)) = next
state_of (err e) = start

abbrev receipt : ApplyReceipt
receipt = receipt_of (apply toy_keys request start)

abbrev next : State
next = state_of (apply toy_keys request start)

applies : apply toy_keys request start ≡ ok (applied receipt, next)
unfolding hash_domain lab_user_key lab_validator_key lab_members lab_committee validate_members
    validate_manifest member_bytes committee_hash reference_bytes output_bytes tx_bytes sum_outputs
    compute_cell_digest genesis_reference make_genesis_cell validate_cell intent_hash conflict_key
    validate_tx user_message sign_user make_transfer vote_message sign_vote verify_vote
    collect_votes verify_votes check_justify check_expected_justify verify_qc assemble_qc
    qc_digest_of qc_digest qc_bytes signature_bytes contains tree_insert place insert lookup
    bytes_eq verify_user_auth fold_value total_value add_outputs output_ref fee_collector effects_of
    output_cells materialize_outputs check_outputs add_genesis from_cells check_finality apply_new
    apply_by apply_finalized remove
applies = refl

start_total : total_value start ≡ ok 100
unfolding hash_domain lab_user_key lab_validator_key lab_members lab_committee validate_members
    validate_manifest member_bytes committee_hash reference_bytes output_bytes tx_bytes sum_outputs
    compute_cell_digest genesis_reference make_genesis_cell validate_cell intent_hash conflict_key
    validate_tx user_message sign_user make_transfer vote_message sign_vote verify_vote
    collect_votes verify_votes check_justify check_expected_justify verify_qc assemble_qc
    qc_digest_of qc_digest qc_bytes signature_bytes contains tree_insert place insert lookup
    bytes_eq verify_user_auth fold_value total_value add_outputs output_ref fee_collector effects_of
    output_cells materialize_outputs check_outputs add_genesis from_cells check_finality apply_new
    apply_by apply_finalized remove
start_total = refl

apply_conserves_example : total_value next ≡ ok 100
apply_conserves_example =
    apply_conserves toy_keys request start next (applied receipt) 100 start-IsLedger start_total
      applies

apply-IsLedger_example : IsLedger next
apply-IsLedger_example =
    apply-IsLedger toy_keys request start next (applied receipt) start-IsLedger applies

apply_twice_example : apply toy_keys request next ≡ ok (already_applied receipt, next)
apply_twice_example = apply_twice toy_keys request start next receipt applies

no_double_spend_example :
    apply toy_keys request (apply_all toy_keys (request ∷ []) next) ≢ ok (applied receipt, next)
no_double_spend_example =
    no_double_spend toy_keys request request (request ∷ []) start next next receipt receipt
      start-IsLedger applies refl

state_root-recertify_example :
    state_root toy_keys
      (record next { applied = recertify (λ intent. replicate 32 9) next.applied })
    ≡ state_root toy_keys next
state_root-recertify_example = state_root-recertify toy_keys (λ intent. replicate 32 9) next
