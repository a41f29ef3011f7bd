-- ===== src/Model/Proposal.antt =====
-- Proposals of integration001/src/model.rs: `make_proposal` and `verify_proposal`.
use avangard.Prelude.{
  ℕ, ◌%◌, ◌==◌, not, Option, none, some, List, ◌∷◌, ◌++◌, leb, bytes_eq, get_elem?, Result, ok,
  ◌>>=◌, ◌>>◌, reject_if, ok_or,
}
use avangard.Store.Types.{Digest}
use avangard.Model.Types.{
  CommitteeManifest, Tx, UserAuth, Qc, Proposal, Keys, ModelError, protocol_version, phase_prevote,
  zero_digest, put_u16, put_u32, put_u64, hash_domain, not_a_member, empty_justify_qc,
  justify_not_lower, intent_mismatch, wrong_proposer, invalid_proposer_key,
  invalid_proposal_signature,
}
use avangard.Model.Manifest.{committee_hash, lab_validator_key}
use avangard.Model.Transaction.{intent_hash, conflict_key, verify_user_auth}
use avangard.Model.Vote.{leader}
use avangard.Model.Certificate.{verify_qc, qc_digest}

module _ (keys : Keys) where
  unfoldable pub proposal_message :
      CommitteeManifest → ℕ → ℕ → Digest → Digest → Result ModelError (List ℕ)
  proposal_message manifest round proposer_index intent justify_digest = do
    committee ← committee_hash keys manifest
    ok (
        hash_domain keys "CALIBRE_INTEGRATION001_PROPOSAL_V1" (
          put_u16 protocol_version
          ++ (put_u32 manifest.network_id
              ++ (put_u64 manifest.epoch
                  ++ (committee
                      ++ (put_u64 round ++ (proposer_index ∷ (intent ++ justify_digest))))))))

  -- `match justify`: the certificate of a lower round that a proposal carries, and its digest.
  unfoldable pub justify_digest_of :
      CommitteeManifest → ℕ → Digest → Digest → Option Qc → Result ModelError Digest
  justify_digest_of manifest round conflict intent none = ok zero_digest
  justify_digest_of manifest round conflict intent (some qc) = do
    first ← ok_or (get_elem? qc.votes 0) empty_justify_qc
    verify_qc keys qc manifest phase_prevote first.round conflict intent none
    reject_if (leb round first.round) justify_not_lower
    qc_digest keys qc manifest

  unfoldable pub make_proposal :
      CommitteeManifest → ℕ → Tx → UserAuth → Option Qc → Result ModelError Proposal
  make_proposal manifest round tx auth justify = do
    verify_user_auth keys tx auth manifest
    intent ← intent_hash keys tx
    let conflict = conflict_key keys tx.input.reference
    let proposer_index = leader conflict round % 256
    justify_digest ← justify_digest_of manifest round conflict intent justify
    message ← proposal_message manifest round proposer_index intent justify_digest
    ok (record {
      round = round;
      proposer_index = proposer_index;
      tx = tx;
      auth = auth;
      intent = intent;
      justify = justify;
      signature = keys.sign (lab_validator_key keys manifest.epoch proposer_index) message;
    })

  unfoldable pub verify_proposal : Proposal → CommitteeManifest → Result ModelError (Unit {0})
  verify_proposal proposal manifest = do
    verify_user_auth keys proposal.tx proposal.auth manifest
    intent ← intent_hash keys proposal.tx
    reject_if (not (bytes_eq proposal.intent intent)) intent_mismatch
    let conflict = conflict_key keys proposal.tx.input.reference
    reject_if (not (proposal.proposer_index == leader conflict proposal.round)) wrong_proposer
    justify_digest ←
        justify_digest_of manifest proposal.round conflict proposal.intent proposal.justify
    member ← ok_or (get_elem? manifest.members proposal.proposer_index) not_a_member
    reject_if (not (keys.is_key member.public_key)) invalid_proposer_key
    message ←
        proposal_message manifest proposal.round proposal.proposer_index proposal.intent
          justify_digest
    reject_if (not (keys.verify_strict member.public_key message proposal.signature))
        invalid_proposal_signature
