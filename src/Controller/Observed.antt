-- ===== src/Controller/Observed.antt =====
-- What `verify_observed_votes` of integration001/src/main.rs accepts.
use avangard.Prelude.{ℕ, ◌≡◌, refl, true, false, List, [], ◌∷◌, All, ok, arith, eq_of_bytes_eq}
use avangard.Prelude.Assoc.{Map}
use avangard.Prelude.Tree.{contains, tree_insert, IsUnique, nat_has_eq, nat_has_lt}
use avangard.Prelude.Tree.Laws.{contains-tree_insert}
use avangard.Store.Types.{Digest}
use avangard.Model.Types.{CommitteeManifest, Vote, Keys}
use avangard.Model.Vote.{verify_vote}
use avangard.Controller.{observe_votes, verify_observed_votes}

-- The signers of votes, one entry for each vote.
abbrev pub signers_of : List Vote → Map ℕ (Unit {0})
signers_of [] = []
signers_of (vote ∷ votes) = (vote.signer_index, tt) ∷ signers_of votes

module _ (keys : Keys) (manifest : CommitteeManifest) (phase round : ℕ)
    (conflict intent : Digest) where
  -- A vote of a member for the statement.
  pub record IsObserved (vote : Vote) : Type 0 where
    pub verified : verify_vote keys vote manifest ≡ ok tt
    pub phase_same : vote.phase ≡ phase
    pub round_same : vote.round ≡ round
    pub conflict_same : vote.conflict_key ≡ conflict
    pub intent_same : vote.intent ≡ intent

  observe_votes-IsObserved :
      (signers : Map ℕ (Unit {0})) (votes : List Vote)
      → observe_votes keys manifest phase round conflict intent signers votes ≡ ok tt
      → All IsObserved votes
  unfolding observe_votes
  observe_votes-IsObserved signers [] h = tt
  observe_votes-IsObserved signers (vote ∷ votes) h = (
    record {
      verified = ground arith;
      phase_same = ground arith;
      round_same = ground arith;
      conflict_same = eq_of_bytes_eq vote.conflict_key conflict (ground arith);
      intent_same = eq_of_bytes_eq vote.intent intent (ground arith);
    },
    observe_votes-IsObserved (tree_insert vote.signer_index tt signers) votes (ground arith),
  )

  -- No signer so far signs one of the votes.
  observe_votes-new :
      (signer : ℕ) (signers : Map ℕ (Unit {0})) (votes : List Vote)
      → contains signer signers ≡ true
      → observe_votes keys manifest phase round conflict intent signers votes ≡ ok tt
      → contains signer (signers_of votes) ≡ false
  unfolding observe_votes contains
  observe_votes-new signer signers [] seen h = refl
  observe_votes-new signer signers (vote ∷ votes) seen h = ground (
    arith,
    observe_votes-new signer (tree_insert vote.signer_index tt signers) votes,
    contains-tree_insert vote.signer_index signer tt signers,
    nat_has_eq.beq_iff vote.signer_index signer,
  )

  observe_votes-IsUnique :
      (signers : Map ℕ (Unit {0})) (votes : List Vote)
      → observe_votes keys manifest phase round conflict intent signers votes ≡ ok tt
      → IsUnique (signers_of votes)
  unfolding observe_votes
  observe_votes-IsUnique signers [] h = tt
  observe_votes-IsUnique signers (vote ∷ votes) h =
      let next = tree_insert vote.signer_index tt signers in
      (
        observe_votes-new vote.signer_index next votes
            (ground (
              arith,
              contains-tree_insert vote.signer_index vote.signer_index tt signers,
              nat_has_eq.beq_iff vote.signer_index vote.signer_index,
            ))
            (ground arith),
        observe_votes-IsUnique next votes (ground arith),
      )

  -- Observed votes that are accepted verify under the manifest, are for the phase, the round, the
  -- conflict and the intent that were asked for, and no two are of one signer.
  pub verify_observed_votes-IsObserved :
      (votes : List Vote)
      → verify_observed_votes keys votes manifest phase round conflict intent ≡ ok tt
      → All IsObserved votes × IsUnique (signers_of votes)
  unfolding verify_observed_votes
  verify_observed_votes-IsObserved votes h =
      (observe_votes-IsObserved [] votes h, observe_votes-IsUnique [] votes h)
