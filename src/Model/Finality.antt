-- ===== src/Model/Finality.antt =====
-- The certificates of integration001/src/model.rs and the vote stores of integration001/src/store.rs
-- together: no two digests of one conflict are final.
use avangard.Prelude.{
  ℕ, ◌≤◌, ◌<◌, ◌≡◌, ◌==◌, Bool, true, false, Option, some, List, [], ◌∷◌, ◌++◌, ok, arith, All, inl,
  inr, Bool-cases,
}
use avangard.Prelude.Counting.{has, count}
use avangard.Prelude.Assoc.{lookup}
use avangard.Store.Types.{Digest, WalStore, Io, vote_key_has_eq}
use avangard.Store.Calls.{Call, run}
use avangard.Store.Safety.Votes.{key}
use avangard.Store.Safety.Locks.{precommits_agree}
use avangard.Model.Types.{CommitteeManifest, Vote, Qc, Keys, n, phase_precommit}
use avangard.Model.Certificate.{verify_qc}
use avangard.Model.Certificate.Signers.{signers, IsVoteFor, verify_qc-IsCertified}
use avangard.Model.Certificate.Overlap.{honest_overlap}

All-append {ℓ κ} :
    {A : Type ℓ} (P : A → Type κ) (xs ys : List A) → All P (xs ++ ys) → All P xs × All P ys
All-append P [] ys a = (tt, a)
All-append P (x ∷ xs) ys (p, a) = let (l, r) = All-append P xs ys a in ((p, l), r)

-- The vote is in the store that a validator's calls left, as the precommit of its round.
abbrev pub Recorded : Keys → WalStore → List (Io × Call) → Vote → Type 0
Recorded keys start calls vote =
    lookup (key vote.conflict_key vote.round phase_precommit) (run keys.blake3 calls start).votes
    ≡ some vote.intent

-- What the honest validator `i` has done about votes that were certified: those in its name are in
-- its store, which started without votes and was changed by the methods of `WalStore` only.
pub record IsHonest (keys : Keys) (certified : List Vote) (i : ℕ) : Type 0 where
  pub start : WalStore
  pub calls : List (Io × Call)
  pub no_votes : start.votes ≡ []
  pub recorded : All (λ vote. vote.signer_index ≡ i → Recorded keys start calls vote) certified

module _ (keys : Keys) (manifest : CommitteeManifest) where
  module _ (i : ℕ) (start : WalStore) (calls : List (Io × Call)) (round : ℕ)
      (conflict intent : Digest) (expected : Option Digest) where
    signed_vote_kept :
        (votes : List Vote)
        → All (λ vote. vote.signer_index ≡ i → Recorded keys start calls vote) votes
        → All (IsVoteFor keys manifest phase_precommit round conflict intent expected) votes
        → has i (signers votes) ≡ true
        → lookup (key conflict round phase_precommit) (run keys.blake3 calls start).votes
          ≡ some intent
    signed_vote_kept [] r a h = absurd (ground arith)
    signed_vote_kept (vote ∷ votes) (kept, r) (v, a) h =
        elim (Bool-cases (vote.signer_index == i)) [
          | inl here ↦ rw (v.of_conflict_key, v.of_round, v.of_intent) at (kept (ground arith))
          | inr elsewhere ↦ signed_vote_kept votes r a (ground arith)
        ]

  -- Two precommit certificates that `verify_qc` accepts for one conflict, in any two rounds, are for
  -- the same intent, if at most two of the seven members are faulty and the others are honest: each
  -- vote of theirs in the certificates is in a store that only the methods of `WalStore` changed.
  pub finality_agrees :
      (faulty : ℕ → Bool) (qc qc' : Qc) (round round' : ℕ) (conflict intent intent' : Digest)
      (expected expected' : Option Digest)
      → count n faulty ≤ 2
      → ((i : ℕ) → i < n → faulty i ≡ false → IsHonest keys (qc.votes ++ qc'.votes) i)
      → verify_qc keys qc manifest phase_precommit round conflict intent expected ≡ ok tt
      → verify_qc keys qc' manifest phase_precommit round' conflict intent' expected' ≡ ok tt
      → intent ≡ intent'
  finality_agrees faulty qc qc' round round' conflict intent intent' expected expected' few honest h
        h' =
      let (i, lt, both, fine) =
        honest_overlap keys manifest faulty qc qc' phase_precommit phase_precommit round round'
          conflict conflict intent intent' expected expected' few h h' in
      let v = honest i lt fine in
      let (r, r') = All-append _ qc.votes qc'.votes v.recorded in
      let c =
        verify_qc-IsCertified keys manifest phase_precommit round conflict intent expected qc h in
      let c' =
        verify_qc-IsCertified keys manifest phase_precommit round' conflict intent' expected' qc'
          h' in
      (precommits_agree keys.blake3 v.calls v.start conflict round round' intent intent' v.no_votes
        (signed_vote_kept i v.start v.calls round conflict intent expected qc.votes r c.each
          (ground arith))
        (signed_vote_kept i v.start v.calls round' conflict intent' expected' qc'.votes r' c'.each
          (ground arith))).0
