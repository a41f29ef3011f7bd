-- ===== src/Model/Manifest.antt =====
-- Committees of integration001/src/model.rs: `lab_committee`, `validate_manifest`, `committee_hash`,
-- and the laboratory keys.
use avangard.Prelude.{
  ℕ, zero, suc, ◌+◌, ◌*◌, ◌%◌, ◌^◌, ◌==◌, not, List, [], ◌∷◌, ◌++◌, length, Result, ok, ◌>>◌,
  reject_if,
}
use avangard.Prelude.Bytes.{le_bytes}
use avangard.Prelude.Assoc.{Map, bytes_has_eq}
use avangard.Prelude.Tree.{contains, tree_insert, bytes_has_lt}
use avangard.Store.Types.{Digest}
use avangard.Model.Types.{
  CommitteeMember, CommitteeManifest, Keys, ModelError, n, q, protocol_version, put_u16, put_u32,
  put_u64, hash_domain, PublicKeyBytes, wrong_network, wrong_threshold, wrong_size,
  non_canonical_index, invalid_committee_key, duplicate_committee_key,
}
use avangard.Model.Types

module _ (keys : Keys) where
  -- `from_bytes` takes the digest as the seed.
  unfoldable pub lab_user_key : ℕ → List ℕ
  lab_user_key label = hash_domain keys "CALIBRE_INTEGRATION001_LAB_USER_KEY_V1" (le_bytes 8 label)

  unfoldable pub lab_validator_key : ℕ → ℕ → List ℕ
  lab_validator_key epoch index =
      hash_domain keys "CALIBRE_INTEGRATION001_LAB_VALIDATOR_KEY_V1"
        (le_bytes 8 ((epoch * 1000 % 2 ^ 64 + index) % 2 ^ 64))

  -- The members from `index` on, `count` of them.
  unfoldable pub lab_members : ℕ → ℕ → ℕ → List CommitteeMember
  lab_members epoch index zero = []
  lab_members epoch index (suc count) =
      record {
        index = index % 256;
        public_key = keys.verifying_key (lab_validator_key epoch index);
      }
      ∷ lab_members epoch (index + 1) count

  unfoldable pub lab_committee : ℕ → CommitteeManifest
  lab_committee epoch = record {
    network_id = Types.network_id;
    epoch = epoch;
    threshold = q % 256;
    members = lab_members epoch 0 n;
  }

  -- The loop over the members, from index `expected` on, with the keys seen so far.
  unfoldable pub validate_members :
      ℕ → Map PublicKeyBytes (Unit {0}) → List CommitteeMember → Result ModelError (Unit {0})
  validate_members expected seen [] = ok tt
  validate_members expected seen (member ∷ members) = do
    reject_if (not (member.index == expected)) non_canonical_index
    reject_if (not (keys.is_key member.public_key)) invalid_committee_key
    reject_if (contains member.public_key seen) duplicate_committee_key
    validate_members (expected + 1) (tree_insert member.public_key tt seen) members

  unfoldable pub validate_manifest : CommitteeManifest → Result ModelError (Unit {0})
  unfolding validate_members
  validate_manifest manifest = do
    reject_if (not (manifest.network_id == Types.network_id)) wrong_network
    reject_if (not (manifest.threshold == q)) wrong_threshold
    reject_if (not (length manifest.members == n)) wrong_size
    validate_members 0 [] manifest.members

  unfoldable pub member_bytes : List CommitteeMember → List ℕ
  member_bytes [] = []
  member_bytes (member ∷ members) = member.index ∷ (member.public_key ++ member_bytes members)

  unfoldable pub committee_hash : CommitteeManifest → Result ModelError Digest
  committee_hash manifest = do
    validate_manifest manifest
    ok (
        hash_domain keys "CALIBRE_INTEGRATION001_COMMITTEE_V1" (
          put_u16 protocol_version
          ++ (put_u32 manifest.network_id
              ++ (put_u64 manifest.epoch
                  ++ (manifest.threshold
                      ∷ (put_u32 (length manifest.members) ++ member_bytes manifest.members))))))
