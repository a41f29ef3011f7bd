-- ===== src/Model/Certificate/Overlap.antt =====
-- Two quorum certificates of one committee: who signed both.
use avangard.Prelude.{
  ℕ, suc, ◌≤◌, ◌<◌, ◌≡◌, refl, ap, ◌&&◌, Bool, true, false, Option, List, [], ◌∷◌, length, ok,
  arith,
}
use avangard.Prelude.Counting.{has, count, length-count, count-both, count_exceeds}
use avangard.Store.Types.{Digest}
use avangard.Model.Types.{CommitteeManifest, Vote, Qc, Keys, n, q}
use avangard.Model.Certificate.{verify_qc}
use avangard.Model.Certificate.Signers.{signers, verify_qc-IsCertified}

-- Whether the member of an index signed a certificate.
abbrev pub signed : Qc → ℕ → Bool
signed qc i = has i (signers qc.votes)

abbrev pub signed_both : Qc → Qc → ℕ → Bool
signed_both qc qc' i = signed qc i && signed qc' i

length-signers : (votes : List Vote) → length (signers votes) ≡ length votes
length-signers [] = refl
length-signers (vote ∷ votes) = ap suc (length-signers votes)

module _ (keys : Keys) (manifest : CommitteeManifest) where
  signers-count :
      (qc : Qc) (phase round : ℕ) (conflict intent : Digest) (expected : Option Digest)
      → verify_qc keys qc manifest phase round conflict intent expected ≡ ok tt
      → q ≤ count n (signed qc)
  signers-count qc phase round conflict intent expected h =
      let c = verify_qc-IsCertified keys manifest phase round conflict intent expected qc h in
      omega (
        arith,
        c.enough,
        length-signers qc.votes,
        length-count n 0 (signers qc.votes) c.ascending c.members,
      )

  -- Any two certificates that `verify_qc` accepts under one manifest, for statements of any two
  -- phases, rounds, conflicts and intents, have at least three signers in common.
  pub quorum_overlap :
      (qc qc' : Qc) (phase phase' round round' : ℕ) (conflict conflict' intent intent' : Digest)
      (expected expected' : Option Digest)
      → verify_qc keys qc manifest phase round conflict intent expected ≡ ok tt
      → verify_qc keys qc' manifest phase' round' conflict' intent' expected' ≡ ok tt
      → 3 ≤ count n (signed_both qc qc')
  quorum_overlap qc qc' phase phase' round round' conflict conflict' intent intent' expected
        expected' h h' =
      omega (
        arith,
        signers-count qc phase round conflict intent expected h,
        signers-count qc' phase' round' conflict' intent' expected' h',
        count-both n (signed qc) (signed qc'),
      )

  -- With at most two faulty members, an honest one signed both.
  pub honest_overlap :
      (faulty : ℕ → Bool) (qc qc' : Qc) (phase phase' round round' : ℕ)
      (conflict conflict' intent intent' : Digest) (expected expected' : Option Digest)
      → count n faulty ≤ 2
      → verify_qc keys qc manifest phase round conflict intent expected ≡ ok tt
      → verify_qc keys qc' manifest phase' round' conflict' intent' expected' ≡ ok tt
      → (i : ℕ) × (i < n) × (signed_both qc qc' i ≡ true) × (faulty i ≡ false)
  honest_overlap faulty qc qc' phase phase' round round' conflict conflict' intent intent' expected
        expected' few h h' =
      count_exceeds n (signed_both qc qc') faulty (
        omega (
          arith,
          quorum_overlap qc qc' phase phase' round round' conflict conflict' intent intent' expected
              expected' h h',
        ))
