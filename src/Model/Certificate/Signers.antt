-- ===== src/Model/Certificate/Signers.antt =====
-- What `verify_vote` and `verify_qc` of integration001/src/model.rs establish.
use native.Mathlib.Decide.{dec_lt}
use avangard.Prelude.{
  ℕ, zero, suc, ◌≤◌, ◌<◌, ◌≡◌, refl, Option, none, some, List, [], ◌∷◌, length, get_elem?, All, ok,
  arith, eq_of_bytes_eq,
}
use avangard.Prelude.Counting.{IsAscending}
use avangard.Store.Types.{Digest}
use avangard.Model.Types.{CommitteeManifest, Vote, Qc, Keys, n, q}
use avangard.Model.Manifest.{validate_manifest}
use avangard.Model.Vote.{verify_vote}
use avangard.Model.Certificate.{verify_qc, verify_votes, check_justify}

-- The signers of a certificate, in its order.
abbrev pub signers : List Vote → List ℕ
signers [] = []
signers (vote ∷ votes) = vote.signer_index ∷ signers votes

get_elem?-none {ℓ} : {A : Type ℓ} (xs : List A) (i : ℕ) → length xs ≤ i → get_elem? xs i ≡ none
get_elem?-none [] i h = refl
get_elem?-none (x ∷ xs) zero h = absurd (omega arith)
get_elem?-none (x ∷ xs) (suc i) h = get_elem?-none xs i (omega arith)

abbrev after : Option ℕ → ℕ
after none = 0
after (some previous) = suc previous

module _ (keys : Keys) where
  manifest_size :
      (manifest : CommitteeManifest)
      → validate_manifest keys manifest ≡ ok tt
      → length manifest.members ≡ n
  unfolding validate_manifest
  manifest_size manifest h = ground arith

  -- A vote that verifies is signed by a member.
  pub verify_vote_bound :
      (vote : Vote) (manifest : CommitteeManifest)
      → verify_vote keys vote manifest ≡ ok tt
      → vote.signer_index < n
  unfolding verify_vote
  verify_vote_bound vote manifest h = elim (dec_lt vote.signer_index n) [
    | yes p ↦ p
    | no p ↦
        absurd (
          ground (arith, manifest_size manifest, get_elem?-none manifest.members vote.signer_index))
  ]

  module _ (manifest : CommitteeManifest) (phase round : ℕ) (conflict intent : Digest)
      (expected : Option Digest) where
    -- A vote of the committee on the statement that is certified.
    pub record IsVoteFor (vote : Vote) : Type 0 where
      pub verified : verify_vote keys vote manifest ≡ ok tt
      pub of_phase : vote.phase ≡ phase
      pub of_round : vote.round ≡ round
      pub of_conflict_key : vote.conflict_key ≡ conflict
      pub of_intent : vote.intent ≡ intent
      pub of_justify : check_justify expected vote.justify ≡ ok tt

    verify_votes_each :
        (last : Option ℕ) (votes : List Vote)
        → verify_votes keys manifest phase round conflict intent expected last votes ≡ ok tt
        → All IsVoteFor votes
    unfolding verify_votes
    verify_votes_each last [] h = tt
    verify_votes_each last (vote ∷ votes) h = (
      ground (arith, eq_of_bytes_eq vote.conflict_key conflict, eq_of_bytes_eq vote.intent intent),
      verify_votes_each (some vote.signer_index) votes (ground arith),
    )

    verify_votes_ascend :
        (last : Option ℕ) (votes : List Vote)
        → verify_votes keys manifest phase round conflict intent expected last votes ≡ ok tt
        → IsAscending (after last) (signers votes)
    unfolding verify_votes
    verify_votes_ascend last [] h = tt
    verify_votes_ascend none (vote ∷ votes) h =
        (omega arith, verify_votes_ascend (some vote.signer_index) votes (ground arith))
    verify_votes_ascend (some previous) (vote ∷ votes) h =
        (ground arith, verify_votes_ascend (some vote.signer_index) votes (ground arith))

    signers_bound : (votes : List Vote) → All IsVoteFor votes → All (λ i. i < n) (signers votes)
    signers_bound [] a = tt
    signers_bound (vote ∷ votes) (v, a) =
        (verify_vote_bound vote manifest v.verified, signers_bound votes a)

    -- What a certificate is for: five to seven votes of the committee on one statement, each with a
    -- valid signature, by different members in ascending order.
    pub record IsCertified (qc : Qc) : Type 0 where
      pub enough : q ≤ length qc.votes
      pub each : All IsVoteFor qc.votes
      pub ascending : IsAscending 0 (signers qc.votes)
      pub members : All (λ i. i < n) (signers qc.votes)

    -- A certificate that `verify_qc` accepts for a statement holds at least five votes, all of them
    -- verified votes for that statement, by different members of the committee in ascending order.
    pub verify_qc-IsCertified :
        (qc : Qc)
        → verify_qc keys qc manifest phase round conflict intent expected ≡ ok tt
        → IsCertified qc
    unfolding verify_qc
    verify_qc-IsCertified qc h =
        let votes : verify_votes keys manifest phase round conflict intent expected none qc.votes
            ≡ ok tt =
          ground arith in
        let each = verify_votes_each none qc.votes votes in
        record {
          enough = ground arith;
          each = each;
          ascending = verify_votes_ascend none qc.votes votes;
          members = signers_bound qc.votes each;
        }
