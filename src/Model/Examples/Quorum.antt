-- ===== src/Model/Examples/Quorum.antt =====
-- The theorems on votes and certificates at concrete inputs.
use avangard.Prelude.{
  ℕ, ◌≤◌, ◌≡◌, ◌==◌, ◌||◌, refl, Bool, Option, none, some, List, [], ◌∷◌, ◌++◌, Result, ok, err,
  bytes_eq, arith,
}
use avangard.Prelude.Assoc.{lookup, insert, bytes_has_eq}
use avangard.Prelude.Tree.{contains, place, tree_insert}
use avangard.Prelude.Counting.{count}
use avangard.Store.Types.{Digest, WalStore, Io, active}
use avangard.Model.Types.{
  Vote, ModelError, phase_prevote, phase_precommit, zero_digest, hash_domain, n,
}
use avangard.Model.Manifest.{
  lab_user_key, lab_validator_key, lab_members, lab_committee, validate_members, validate_manifest,
  member_bytes, committee_hash,
}
use avangard.Model.Transaction.{
  reference_bytes, output_bytes, tx_bytes, sum_outputs, compute_cell_digest, genesis_reference,
  make_genesis_cell, validate_cell, intent_hash, conflict_key, validate_tx, user_message, sign_user,
  make_transfer,
}
use avangard.Model.Vote.{vote_message, sign_vote, verify_vote}
use avangard.Model.Certificate.{
  collect_votes, verify_votes, check_justify, check_expected_justify, verify_qc, assemble_qc,
  qc_digest_of, qc_digest, qc_bytes, signature_bytes,
}
use avangard.Model.Certificate.Signers.{IsCertified, verify_qc-IsCertified}
use avangard.Model.Certificate.Overlap.{signed_both, quorum_overlap}
use avangard.Model.Vote.Signing.{IsSigning, verify_vote-sign_vote}
use avangard.Model.Finality.{IsHonest, finality_agrees}
use avangard.Prelude.{bytes_eq_refl}
use avangard.Store.Calls.{Call, persist_vote, run, call}
use avangard.Store.Votes
use avangard.Store.Votes.{vote_commit}
use avangard.Store.Append.{append, ensure_active}
use avangard.Store.Record.{append_record}
use avangard.Store.Replay.{check_lock}
use avangard.Store.Codec.{validate_phase}
use avangard.Store.Types.{done, vote_key_has_eq}
use avangard.Store.Open.{fresh_store}
use avangard.Model.Examples.{
  toy_keys, manifest, intent, conflict, justify, prevote_qc, precommit_qc,
}

toy_keys-IsSigning : IsSigning toy_keys
toy_keys-IsSigning = record {
  is_key = λ seed. refl;
  verifies = λ seed message. bytes_eq_refl (seed ++ message);
}

abbrev first_vote : Option Vote → Vote
first_vote (some vote) = vote
first_vote none = record {
  network_id = 0;
  epoch = 0;
  committee_hash = [];
  phase = 0;
  round = 0;
  conflict_key = [];
  intent = [];
  justify = [];
  signer_index = 9;
  signature = [];
}

abbrev vote_of : Result ModelError Vote → Vote
vote_of (ok vote) = vote
vote_of (err e) = first_vote none

abbrev vote : Vote
vote = vote_of (
    sign_vote toy_keys manifest 1 4 conflict intent zero_digest 3
      (lab_validator_key toy_keys 100 3))

vote_signed :
    sign_vote toy_keys manifest 1 4 conflict intent zero_digest 3 (lab_validator_key toy_keys 100 3)
    ≡ ok vote
unfolding hash_domain lab_user_key lab_validator_key lab_members lab_committee validate_members
    validate_manifest member_bytes committee_hash reference_bytes output_bytes tx_bytes sum_outputs
    compute_cell_digest genesis_reference make_genesis_cell validate_cell intent_hash conflict_key
    validate_tx user_message sign_user make_transfer vote_message sign_vote verify_vote
    collect_votes verify_votes check_justify check_expected_justify verify_qc assemble_qc
    qc_digest_of qc_digest qc_bytes signature_bytes contains tree_insert place insert lookup
    bytes_eq
vote_signed = refl

verify_vote-sign_vote_example : verify_vote toy_keys vote manifest ≡ ok tt
verify_vote-sign_vote_example =
    verify_vote-sign_vote toy_keys toy_keys-IsSigning manifest 1 4 conflict intent zero_digest 3
      (lab_validator_key toy_keys 100 3) vote vote_signed

prevotes : verify_qc toy_keys prevote_qc manifest phase_prevote 1 conflict intent none ≡ ok tt
unfolding hash_domain lab_user_key lab_validator_key lab_members lab_committee validate_members
    validate_manifest member_bytes committee_hash reference_bytes output_bytes tx_bytes sum_outputs
    compute_cell_digest genesis_reference make_genesis_cell validate_cell intent_hash conflict_key
    validate_tx user_message sign_user make_transfer vote_message sign_vote verify_vote
    collect_votes verify_votes check_justify check_expected_justify verify_qc assemble_qc
    qc_digest_of qc_digest qc_bytes signature_bytes contains tree_insert place insert lookup
    bytes_eq
prevotes = refl

precommits :
    verify_qc toy_keys precommit_qc manifest phase_precommit 1 conflict intent (some justify)
    ≡ ok tt
unfolding hash_domain lab_user_key lab_validator_key lab_members lab_committee validate_members
    validate_manifest member_bytes committee_hash reference_bytes output_bytes tx_bytes sum_outputs
    compute_cell_digest genesis_reference make_genesis_cell validate_cell intent_hash conflict_key
    validate_tx user_message sign_user make_transfer vote_message sign_vote verify_vote
    collect_votes verify_votes check_justify check_expected_justify verify_qc assemble_qc
    qc_digest_of qc_digest qc_bytes signature_bytes contains tree_insert place insert lookup
    bytes_eq
precommits = refl

verify_qc-IsCertified_example :
    IsCertified toy_keys manifest phase_prevote 1 conflict intent none prevote_qc
verify_qc-IsCertified_example =
    verify_qc-IsCertified toy_keys manifest phase_prevote 1 conflict intent none prevote_qc prevotes

quorum_overlap_example : 3 ≤ count n (signed_both prevote_qc precommit_qc)
quorum_overlap_example =
    quorum_overlap toy_keys manifest prevote_qc precommit_qc phase_prevote phase_precommit 1 1
      conflict conflict intent intent none (some justify) prevotes precommits

-- A store that holds one precommit.
abbrev genesis_store : WalStore
genesis_store =
    record (fresh_store [] [] 100
      (record { committee_hash = []; epoch = 100; state_root = []; bytes = [] })) {
        lifecycle = active;
      }

abbrev precommit_call : List (Io × Call)
precommit_call = (done, persist_vote conflict 1 phase_precommit intent) ∷ []

recorded :
    lookup
      (record { conflict_key = conflict; round = 1; phase = phase_precommit })
      (run toy_keys.blake3 precommit_call genesis_store).votes
    ≡ some intent
unfolding hash_domain lab_user_key lab_validator_key lab_members lab_committee validate_members
    validate_manifest member_bytes committee_hash reference_bytes output_bytes tx_bytes sum_outputs
    compute_cell_digest genesis_reference make_genesis_cell validate_cell intent_hash conflict_key
    validate_tx user_message sign_user make_transfer vote_message sign_vote verify_vote
    collect_votes verify_votes check_justify check_expected_justify verify_qc assemble_qc
    qc_digest_of qc_digest qc_bytes signature_bytes contains tree_insert place insert lookup
    bytes_eq run call Votes.persist_vote vote_commit ensure_active append append_record check_lock
    validate_phase
recorded = refl

honest : (i : ℕ) → IsHonest toy_keys (precommit_qc.votes ++ precommit_qc.votes) i
unfolding hash_domain lab_user_key lab_validator_key lab_members lab_committee validate_members
    validate_manifest member_bytes committee_hash reference_bytes output_bytes tx_bytes sum_outputs
    compute_cell_digest genesis_reference make_genesis_cell validate_cell intent_hash conflict_key
    validate_tx user_message sign_user make_transfer vote_message sign_vote verify_vote
    collect_votes verify_votes check_justify check_expected_justify verify_qc assemble_qc
    qc_digest_of qc_digest qc_bytes signature_bytes contains tree_insert place insert lookup
    bytes_eq
honest i = record {
  start = genesis_store;
  calls = precommit_call;
  no_votes = refl;
  recorded = (
    (λ e. recorded),
    (
      (λ e. recorded),
      (
        (λ e. recorded),
        (
          (λ e. recorded),
          (
            (λ e. recorded),
            (
              (λ e. recorded),
              ((λ e. recorded), ((λ e. recorded), ((λ e. recorded), ((λ e. recorded), tt)))),
            ),
          ),
        ),
      ),
    ),
  );
}

-- Members 3 and 5, who did not sign, are faulty.
abbrev faulty : ℕ → Bool
faulty i = i == 3 || i == 5

few : count n faulty ≤ 2
unfolding count
few = omega arith

finality_agrees_example : ◌≡◌ {A = Digest} intent intent
finality_agrees_example =
    finality_agrees toy_keys manifest faulty precommit_qc precommit_qc 1 1 conflict intent intent
      (some justify) (some justify) few (λ i lt fine. honest i) precommits precommits
