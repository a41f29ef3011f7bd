-- ===== src/Controller/Examples.antt =====
-- The controller's certificates, votes and orders at concrete inputs.
use avangard.Model.Manifest.{
  lab_user_key, lab_validator_key, lab_members, lab_committee, validate_members, validate_manifest,
  member_bytes, committee_hash,
}
use avangard.Model.Transaction.{
  reference_bytes, output_bytes, tx_bytes, sum_outputs, compute_cell_digest, genesis_reference,
  make_genesis_cell, validate_cell, intent_hash, conflict_key, validate_tx, user_message, sign_user,
  make_transfer,
}
use avangard.Model.Types.{hash_domain, Tx, UserAuth, ModelError}
use avangard.Model.Vote.{vote_message, sign_vote, verify_vote}
use avangard.Model.Certificate.{
  collect_votes, verify_votes, check_justify, check_expected_justify, verify_qc, assemble_qc,
  qc_digest_of, qc_digest, qc_bytes, signature_bytes,
}
use avangard.Prelude.{
  Bool, true, false, Result, err, ℕ, ◌≡◌, refl, List, [], ◌∷◌, ok, replicate, ◌>>=◌, bytes_eq, All,
}
use avangard.Prelude.Assoc.{lookup, insert}
use avangard.Prelude.Tree.{contains, place, tree_insert, IsUnique, nat_has_eq}
use avangard.Model.Ledger.{check_finality, from_cells, add_genesis}
use avangard.Model.Examples.{toy_keys, manifest, tx, intent, conflict, prevote_qc, precommit_qc}
use avangard.Node.{verify_finality_chain}
use avangard.Node.Examples.{server}
use avangard.Controller.{
  labelled_digest, observe_votes, verify_observed_votes, deterministic_permutation, sign_votes,
  fixture_finality_chain,
}
use avangard.Controller.Conflicts.{
  exhaustive_conflict_safety_cases, run_choices, run_zeros, run_ones, is_dual,
}
use avangard.Controller.Fixture.{genesis_cells, build_fixture, make_main_transfer}
use avangard.Controller.Schedule.{occurrences, deterministic_permutation-occurrences}
use avangard.Controller.Observed.{IsObserved, signers_of, verify_observed_votes-IsObserved}
use avangard.Controller.Chain.{fixture_finality_chain-accepted}

deterministic_permutation-occurrences_example : occurrences 2 (deterministic_permutation 5 7) ≡ 1
deterministic_permutation-occurrences_example = deterministic_permutation-occurrences 2 5 7

votes_observed :
    verify_observed_votes toy_keys prevote_qc.votes manifest 1 1 conflict intent ≡ ok tt
unfolding verify_observed_votes observe_votes hash_domain lab_user_key lab_validator_key lab_members
    lab_committee validate_members validate_manifest member_bytes committee_hash reference_bytes
    output_bytes tx_bytes sum_outputs compute_cell_digest genesis_reference make_genesis_cell
    validate_cell intent_hash conflict_key validate_tx user_message sign_user make_transfer
    vote_message sign_vote verify_vote collect_votes verify_votes check_justify
    check_expected_justify verify_qc assemble_qc qc_digest_of qc_digest qc_bytes signature_bytes
    contains tree_insert place insert lookup bytes_eq
votes_observed = refl

verify_observed_votes-IsObserved_example :
    All (IsObserved toy_keys manifest 1 1 conflict intent) prevote_qc.votes
    × IsUnique (signers_of prevote_qc.votes)
verify_observed_votes-IsObserved_example =
    verify_observed_votes-IsObserved toy_keys manifest 1 1 conflict intent prevote_qc.votes
      votes_observed

abbrev indices : List ℕ
indices = 6 ∷ 0 ∷ 2 ∷ 1 ∷ 4 ∷ []

intent_made : intent_hash toy_keys tx ≡ ok intent
unfolding hash_domain lab_user_key lab_validator_key lab_members lab_committee validate_members
    validate_manifest member_bytes committee_hash reference_bytes output_bytes tx_bytes sum_outputs
    compute_cell_digest genesis_reference make_genesis_cell validate_cell intent_hash conflict_key
    validate_tx user_message sign_user make_transfer vote_message sign_vote verify_vote
    collect_votes verify_votes check_justify check_expected_justify verify_qc assemble_qc
    qc_digest_of qc_digest qc_bytes signature_bytes contains tree_insert place insert lookup
    bytes_eq
intent_made = refl

chain_made : fixture_finality_chain toy_keys manifest tx 1 indices ≡ ok (prevote_qc, precommit_qc)
unfolding fixture_finality_chain sign_votes hash_domain lab_user_key lab_validator_key lab_members
    lab_committee validate_members validate_manifest member_bytes committee_hash reference_bytes
    output_bytes tx_bytes sum_outputs compute_cell_digest genesis_reference make_genesis_cell
    validate_cell intent_hash conflict_key validate_tx user_message sign_user make_transfer
    vote_message sign_vote verify_vote collect_votes verify_votes check_justify
    check_expected_justify verify_qc assemble_qc qc_digest_of qc_digest qc_bytes signature_bytes
    contains tree_insert place insert lookup bytes_eq
chain_made = refl

fixture_finality_chain-accepted_example :
    (check_finality toy_keys prevote_qc precommit_qc manifest
        (conflict_key toy_keys tx.input.reference)
        intent
      ≡ ok tt)
    × (verify_finality_chain toy_keys server tx prevote_qc precommit_qc ≡ ok tt)
fixture_finality_chain-accepted_example =
    fixture_finality_chain-accepted toy_keys manifest tx 1 indices intent prevote_qc precommit_qc
      server refl intent_made chain_made

-- All cases are run and none has two quorums.
conflict_cases_pass : exhaustive_conflict_safety_cases ≡ ok 512
unfolding exhaustive_conflict_safety_cases run_choices run_zeros run_ones is_dual
conflict_cases_pass = refl

abbrev is_made {ℓ κ} : {A : Type ℓ} {E : Type κ} → Result E A → Bool
is_made (ok a) = true
is_made (err e) = false

abbrev main_transfer : Result ModelError (Tx × UserAuth)
main_transfer = do
  fixture ← build_fixture toy_keys 2
  make_main_transfer toy_keys fixture (replicate 32 7) 1

-- A fixture with two inputs for the benchmark is built, and so is its main transfer.
main_transfer_made : is_made main_transfer ≡ true
unfolding build_fixture make_main_transfer genesis_cells labelled_digest from_cells add_genesis
    hash_domain lab_user_key lab_validator_key lab_members lab_committee validate_members
    validate_manifest member_bytes committee_hash reference_bytes output_bytes tx_bytes sum_outputs
    compute_cell_digest genesis_reference make_genesis_cell validate_cell intent_hash conflict_key
    validate_tx user_message sign_user make_transfer contains tree_insert place insert lookup
    bytes_eq
main_transfer_made = refl
