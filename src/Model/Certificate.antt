-- ===== src/Model/Certificate.antt =====
-- Quorum certificates of integration001/src/model.rs: `assemble_qc`, `verify_qc`, `qc_digest`.
pub mod Signers
pub mod Overlap
use avangard.Prelude.{
  ℕ, ◌+◌, ◌==◌, not, ◌||◌, Bool, true, false, Option, none, some, List, [], ◌∷◌, ◌++◌, ltb, leb,
  bytes_eq, length, Result, ok, err, ◌>>=◌, ◌>>◌, reject_if, if◌then◌else◌, map,
}
use avangard.Prelude.Assoc.{Map, Eq}
use avangard.Prelude.Tree.{contains, tree_insert, nat_has_lt, nat_has_eq}
use avangard.Store.Types.{Digest}
use avangard.Model.Types.{
  CommitteeManifest, Vote, Qc, Keys, ModelError, n, q, phase_precommit, zero_digest, put_u32,
  put_u64, hash_domain, mixed_statement, justify_mismatch, unexpected_justify, duplicate_signer,
  unsorted_signers, qc_size, empty_qc,
}
use avangard.Model.Vote.{verify_vote}

abbrev pub other_statement : Vote → ℕ → ℕ → Digest → Digest → Bool
other_statement vote phase round conflict intent =
    not (vote.phase == phase)
    || not (vote.round == round)
    || not (bytes_eq vote.conflict_key conflict)
    || not (bytes_eq vote.intent intent)

-- `match expected_justify` in `verify_qc`
unfoldable pub check_justify : Option Digest → Digest → Result ModelError (Unit {0})
check_justify (some expected) justify = reject_if (not (bytes_eq justify expected)) justify_mismatch
check_justify none justify = reject_if (not (bytes_eq justify zero_digest)) unexpected_justify

-- `if let Some(justify) = expected_justify` in `assemble_qc`
unfoldable pub check_expected_justify : Option Digest → Digest → Result ModelError (Unit {0})
check_expected_justify (some expected) justify =
    reject_if (not (bytes_eq justify expected)) justify_mismatch
check_expected_justify none justify = ok tt

-- `last.is_some_and(|previous| index <= previous)`
abbrev pub not_above : ℕ → Option ℕ → Bool
not_above index none = false
not_above index (some previous) = leb index previous

abbrev pub values {ℓ κ} : {K : Type ℓ} {V : Type κ} → Map K V → List V
values [] = []
values ((k, v) ∷ m) = v ∷ values m

unfoldable pub signature_bytes : List Vote → List ℕ
signature_bytes [] = []
signature_bytes (vote ∷ votes) = vote.signer_index ∷ (vote.signature ++ signature_bytes votes)

module _ (keys : Keys) where
  module _ (manifest : CommitteeManifest) (phase round : ℕ) (conflict intent : Digest)
      (expected_justify : Option Digest) where
    -- The loop of `verify_qc`, with the index of the signer before.
    unfoldable pub verify_votes : Option ℕ → List Vote → Result ModelError (Unit {0})
    verify_votes last [] = ok tt
    verify_votes last (vote ∷ votes) = do
      verify_vote keys vote manifest
      reject_if (other_statement vote phase round conflict intent) mixed_statement
      check_justify expected_justify vote.justify
      reject_if (not_above vote.signer_index last) unsorted_signers
      verify_votes (some vote.signer_index) votes

    -- The loop of `assemble_qc`, with the votes so far by the index of their signer.
    unfoldable pub collect_votes : Map ℕ Vote → List Vote → Result ModelError (Map ℕ Vote)
    collect_votes by_index [] = ok by_index
    collect_votes by_index (vote ∷ votes) = do
      verify_vote keys vote manifest
      reject_if (other_statement vote phase round conflict intent) mixed_statement
      check_expected_justify expected_justify vote.justify
      reject_if (contains vote.signer_index by_index) duplicate_signer
      collect_votes (tree_insert vote.signer_index vote by_index) votes

  unfoldable pub verify_qc :
      Qc
      → CommitteeManifest
      → ℕ
      → ℕ
      → Digest
      → Digest
      → Option Digest
      → Result ModelError (Unit {0})
  unfolding verify_votes
  verify_qc qc manifest phase round conflict intent expected_justify = do
    reject_if (ltb (length qc.votes) q || ltb n (length qc.votes)) qc_size
    verify_votes manifest phase round conflict intent expected_justify none qc.votes

  unfoldable pub assemble_qc :
      List Vote → CommitteeManifest → ℕ → ℕ → Digest → Digest → Option Digest → Result ModelError Qc
  assemble_qc votes manifest phase round conflict intent expected_justify = do
    by_index ← collect_votes manifest phase round conflict intent expected_justify [] votes
    let qc : Qc = record { votes = values by_index }
    verify_qc qc manifest phase round conflict intent expected_justify
    ok qc

  -- What the digest of a certificate covers, behind its first vote.
  unfoldable pub qc_bytes : Vote → List Vote → List ℕ
  qc_bytes first votes =
      put_u32 (length votes)
      ++ (signature_bytes votes
          ++ (first.phase
              ∷ (put_u64 first.round ++ (first.conflict_key ++ (first.intent ++ first.justify)))))

  unfoldable pub qc_digest_of : List Vote → CommitteeManifest → Result ModelError Digest
  qc_digest_of [] manifest = err empty_qc
  qc_digest_of (first ∷ votes) manifest = do
    verify_qc (record { votes = first ∷ votes }) manifest first.phase first.round first.conflict_key
        first.intent (if first.phase == phase_precommit then some first.justify else none)
    ok (hash_domain keys "CALIBRE_INTEGRATION001_QC_V1" (qc_bytes first (first ∷ votes)))

  unfoldable pub qc_digest : Qc → CommitteeManifest → Result ModelError Digest
  unfolding qc_digest_of
  qc_digest qc manifest = qc_digest_of qc.votes manifest
