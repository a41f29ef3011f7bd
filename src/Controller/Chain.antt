-- ===== src/Controller/Chain.antt =====
-- The certificates of `fixture_finality_chain` of integration001/src/main.rs, and the servers that check
-- them.
use avangard.Prelude.{
  ℕ, ◌≤◌, ◌≡◌, refl, none, some, Option, List, [], ◌∷◌, length, All, get_elem?, ok, arith,
  Result-cases, inl, inr,
}
use avangard.Store.Types.{Digest}
use avangard.Model.Types.{
  CommitteeManifest, Tx, Vote, Qc, Keys, q, phase_prevote, phase_precommit, zero_digest,
}
use avangard.Model.Transaction.{intent_hash, conflict_key}
use avangard.Model.Certificate.{assemble_qc, verify_qc, qc_digest}
use avangard.Model.Certificate.Signers.{IsVoteFor, verify_qc-IsCertified}
use avangard.Model.Ledger.{check_finality}
use avangard.Node.{NodeServer, verify_finality_chain}
use avangard.Controller.{sign_votes, fixture_finality_chain}

module _ (keys : Keys) (manifest : CommitteeManifest) where
  -- A certificate that was assembled verifies.
  verify_qc-assemble_qc :
      (votes : List Vote) (phase round : ℕ) (conflict intent : Digest) (expected : Option Digest)
      (qc : Qc)
      → assemble_qc keys votes manifest phase round conflict intent expected ≡ ok qc
      → verify_qc keys qc manifest phase round conflict intent expected ≡ ok tt
  unfolding assemble_qc
  verify_qc-assemble_qc votes phase round conflict intent expected qc h = ground arith

  first_vote :
      (phase round : ℕ) (conflict intent : Digest) (expected : Option Digest) (votes : List Vote)
      → All (IsVoteFor keys manifest phase round conflict intent expected) votes
      → q ≤ length votes
      → (vote : Vote) × (get_elem? votes 0 ≡ some vote) × (vote.round ≡ round)
  first_vote phase round conflict intent expected [] all h = absurd (omega arith)
  first_vote phase round conflict intent expected (vote ∷ votes) (first, all) h =
      (vote, refl, first.of_round)

  -- Two certificates that verify, the second for the digest of the first, pass both checks.
  chain_accepted :
      (tx : Tx) (round : ℕ) (intent digest : Digest) (prevote_qc precommit_qc : Qc)
      (server : NodeServer)
      → server.manifest ≡ manifest
      → intent_hash keys tx ≡ ok intent
      → verify_qc keys prevote_qc manifest phase_prevote round
          (conflict_key keys tx.input.reference)
          intent
          none
        ≡ ok tt
      → qc_digest keys prevote_qc manifest ≡ ok digest
      → verify_qc keys precommit_qc manifest phase_precommit round
          (conflict_key keys tx.input.reference)
          intent
          (some digest)
        ≡ ok tt
      → (check_finality keys prevote_qc precommit_qc manifest
            (conflict_key keys tx.input.reference)
            intent
          ≡ ok tt)
        × (verify_finality_chain keys server tx prevote_qc precommit_qc ≡ ok tt)
  unfolding check_finality verify_finality_chain
  chain_accepted tx round intent digest prevote_qc precommit_qc server same hashed p d f =
      let conflict = conflict_key keys tx.input.reference in
      let prevotes =
        verify_qc-IsCertified keys manifest phase_prevote round conflict intent none prevote_qc p in
      let precommits =
        verify_qc-IsCertified keys manifest phase_precommit round conflict intent (some digest)
          precommit_qc f in
      let (one, one_is, one_round) =
        first_vote phase_prevote round conflict intent none prevote_qc.votes prevotes.each
          prevotes.enough in
      let (two, two_is, two_round) =
        first_vote phase_precommit round conflict intent (some digest) precommit_qc.votes
          precommits.each precommits.enough in
      (
        rw (one_is, one_round, p, d, two_is, two_round, f) (ground arith),
        rw (hashed, one_is, one_round, same, p, d, f) refl,
      )

  -- The two certificates that the fixture makes for a transaction are accepted by the check at the head
  -- of `apply_finalized` and by every server with the same committee.
  pub fixture_finality_chain-accepted :
      (tx : Tx) (round : ℕ) (indices : List ℕ) (intent : Digest) (prevote_qc precommit_qc : Qc)
      (server : NodeServer)
      → server.manifest ≡ manifest
      → intent_hash keys tx ≡ ok intent
      → fixture_finality_chain keys manifest tx round indices ≡ ok (prevote_qc, precommit_qc)
      → (check_finality keys prevote_qc precommit_qc manifest
            (conflict_key keys tx.input.reference)
            intent
          ≡ ok tt)
        × (verify_finality_chain keys server tx prevote_qc precommit_qc ≡ ok tt)
  unfolding fixture_finality_chain
  fixture_finality_chain-accepted tx round indices intent prevote_qc precommit_qc server same hashed
        h =
      let conflict = conflict_key keys tx.input.reference in
      elim (Result-cases
        (sign_votes keys manifest phase_prevote round conflict intent zero_digest indices)) [
          | inr (x, e) ↦ absurd (ground arith)
          | inl (prevotes, e) ↦ elim (Result-cases (qc_digest keys prevote_qc manifest)) [
            | inr (x, e') ↦ absurd (ground arith)
            | inl (digest, d) ↦
                elim (Result-cases
                  (sign_votes keys manifest phase_precommit round conflict intent digest indices)) [
                    | inr (x, e') ↦ absurd (ground arith)
                    | inl (precommits, e') ↦
                        chain_accepted tx round intent digest prevote_qc precommit_qc server same
                          hashed
                          (verify_qc-assemble_qc prevotes phase_prevote round conflict intent none
                            prevote_qc (ground arith))
                          d
                          (verify_qc-assemble_qc precommits phase_precommit round conflict intent
                            (some digest) precommit_qc (ground arith))
                  ]
          ]
        ]
