-- ===== src/Model/Vote.antt =====
-- Votes of integration001/src/model.rs: `leader`, `vote_message`, `sign_vote`, `verify_vote`.
pub mod Signing
use avangard.Prelude.{
  ℕ, ◌+◌, ◌%◌, ◌==◌, not, ◌&&◌, ◌||◌, List, [], ◌∷◌, ◌++◌, bytes_eq, take, get_elem?, Result, ok,
  ◌>>=◌, ◌>>◌, reject_if, ok_or,
}
use avangard.Prelude.Bytes.{le_value}
use avangard.Store.Types.{Digest}
use avangard.Model.Types.{
  CommitteeManifest, Vote, Keys, ModelError, n, protocol_version, phase_prevote, phase_precommit,
  zero_digest, put_u16, put_u32, put_u64, hash_domain, invalid_phase, not_a_member,
  key_slot_mismatch, prevote_justified, precommit_unjustified, vote_network_or_epoch,
  vote_committee, signer_index_mismatch, invalid_validator_key, invalid_vote_signature,
}
use avangard.Model.Manifest.{validate_manifest, committee_hash}

-- The first eight bytes of the conflict, and the round, name the proposer.
unfoldable pub leader : Digest → ℕ → ℕ
leader conflict round = (le_value (take 8 conflict) % n + round % n) % n

module _ (keys : Keys) where
  unfoldable pub vote_message :
      CommitteeManifest → ℕ → ℕ → Digest → Digest → Digest → ℕ → Result ModelError (List ℕ)
  vote_message manifest phase round conflict intent justify signer_index = do
    reject_if (not (phase == phase_prevote) && not (phase == phase_precommit)) invalid_phase
    committee ← committee_hash keys manifest
    ok (
        hash_domain keys "CALIBRE_INTEGRATION001_VOTE_STATEMENT_V1" (
          put_u16 protocol_version
          ++ (put_u32 manifest.network_id
              ++ (put_u64 manifest.epoch
                  ++ (committee
                      ++ (phase
                          ∷ (put_u64 round
                              ++ (conflict ++ (intent ++ (justify ++ (signer_index ∷ [])))))))))))

  unfoldable pub sign_vote :
      CommitteeManifest → ℕ → ℕ → Digest → Digest → Digest → ℕ → List ℕ → Result ModelError Vote
  sign_vote manifest phase round conflict intent justify signer_index key = do
    validate_manifest keys manifest
    member ← ok_or (get_elem? manifest.members signer_index) not_a_member
    reject_if
        (not (member.index == signer_index)
          || not (bytes_eq member.public_key (keys.verifying_key key)))
        key_slot_mismatch
    reject_if (phase == phase_prevote && not (bytes_eq justify zero_digest)) prevote_justified
    reject_if (phase == phase_precommit && bytes_eq justify zero_digest) precommit_unjustified
    message ← vote_message manifest phase round conflict intent justify signer_index
    committee ← committee_hash keys manifest
    ok (record {
      network_id = manifest.network_id;
      epoch = manifest.epoch;
      committee_hash = committee;
      phase = phase;
      round = round;
      conflict_key = conflict;
      intent = intent;
      justify = justify;
      signer_index = signer_index;
      signature = keys.sign key message;
    })

  unfoldable pub verify_vote : Vote → CommitteeManifest → Result ModelError (Unit {0})
  verify_vote vote manifest = do
    validate_manifest keys manifest
    reject_if (not (vote.network_id == manifest.network_id) || not (vote.epoch == manifest.epoch))
        vote_network_or_epoch
    committee ← committee_hash keys manifest
    reject_if (not (bytes_eq vote.committee_hash committee)) vote_committee
    reject_if (vote.phase == phase_prevote && not (bytes_eq vote.justify zero_digest))
        prevote_justified
    reject_if (vote.phase == phase_precommit && bytes_eq vote.justify zero_digest)
        precommit_unjustified
    member ← ok_or (get_elem? manifest.members vote.signer_index) not_a_member
    reject_if (not (member.index == vote.signer_index)) signer_index_mismatch
    reject_if (not (keys.is_key member.public_key)) invalid_validator_key
    message ←
        vote_message manifest vote.phase vote.round vote.conflict_key vote.intent vote.justify
          vote.signer_index
    reject_if (not (keys.verify_strict member.public_key message vote.signature))
        invalid_vote_signature
