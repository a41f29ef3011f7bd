-- ===== src/Model/Vote/Signing.antt =====
-- Signed votes of integration001/src/model.rs verify.
use avangard.Prelude.{
  ℕ, ◌≡◌, true, inl, inr, Option-cases, Result-cases, List, get_elem?, ok, arith, bytes_eq_refl,
  eq_of_bytes_eq,
}
use avangard.Store.Types.{Digest}
use avangard.Model.Types.{CommitteeManifest, Vote, Keys}
use avangard.Model.Manifest.{committee_hash}
use avangard.Model.Vote.{sign_vote, verify_vote, vote_message}

-- What ed25519 promises: the key of a seed is a key, and its signatures verify under it.
pub record IsSigning (keys : Keys) : Type 0 where
  pub is_key : (seed : List ℕ) → keys.is_key (keys.verifying_key seed) ≡ true
  pub verifies :
      (seed message : List ℕ)
      → keys.verify_strict (keys.verifying_key seed) message (keys.sign seed message) ≡ true

module _ (keys : Keys) (signing : IsSigning keys) where
  -- If signatures verify under the key of their seed, a vote that `sign_vote` makes passes
  -- `verify_vote` under the same manifest.
  pub verify_vote-sign_vote :
      (manifest : CommitteeManifest) (phase round : ℕ) (conflict intent justify : Digest)
      (signer_index : ℕ) (key : List ℕ) (vote : Vote)
      → sign_vote keys manifest phase round conflict intent justify signer_index key ≡ ok vote
      → verify_vote keys vote manifest ≡ ok tt
  unfolding sign_vote verify_vote
  verify_vote-sign_vote manifest phase round conflict intent justify signer_index key vote h =
      elim (Option-cases (get_elem? manifest.members signer_index)) [
        | inl e ↦ absurd (ground arith)
        | inr (member, e) ↦
            elim (Result-cases
              (vote_message keys manifest phase round conflict intent justify signer_index)) [
                | inr (x, e') ↦ absurd (ground arith)
                | inl (message, e') ↦ elim (Result-cases (committee_hash keys manifest)) [
                  | inr (x, e'') ↦ absurd (ground arith)
                  | inl (committee, e'') ↦
                      let own : member.public_key ≡ keys.verifying_key key =
                        eq_of_bytes_eq member.public_key (keys.verifying_key key) (ground arith) in
                      ground (
                        arith,
                        own,
                        signing.is_key key,
                        signing.verifies key message,
                        bytes_eq_refl committee,
                      )
                ]
              ]
      ]
