-- ===== src/Node/Progress.antt =====
-- A server of integration001/src/node.rs that may vote does: no check behind its own stops it.
use avangard.Prelude.{
  ℕ, ◌<◌, ◌≡◌, sym, subst, false, some, ok, arith, inl, inr, Option-cases, Result-cases,
  bytes_eq_refl, get_elem?, List, Option, eq_of_bytes_eq,
}
use avangard.Prelude.Assoc.{lookup, bytes_has_eq}
use avangard.Store.Types.{
  Digest, WalStore, active, PersistOutcome, u64_max, done, vote_key_has_eq, below_lock_round,
  conflicts_with_lock,
}
use avangard.Store.Codec.{validate_phase}
use avangard.Store.Codec.RoundTrip.{IsDigest}
use avangard.Store.Queries.{vote_digest, precommit_lock}
use avangard.Store.Replay.{check_lock}
use avangard.Store.Append.{ensure_active}
use avangard.Store.Votes.{persist_vote, vote_by}
use avangard.Store.Recovery.{IsDurable}
use avangard.Store.Recovery.Votes.{vote_commit_done}
use avangard.Store.Record.Framing.{IsHash}
use avangard.Model.Types.{
  CommitteeMember, Keys, Vote, Proposal, phase_prevote, zero_digest, hash_domain,
}
use avangard.Model.Manifest.{lab_committee, validate_manifest, committee_hash}
use avangard.Model.Transaction.{conflict_key}
use avangard.Model.Vote.{vote_message, sign_vote}
use avangard.Node.{
  NodeServer, prevote_request, handle_vote, prevote, check_prevote, persist_and_sign, after_persist,
  sign_own, durable_vote_rejection, lock_rejects, vote_rejects,
}
use avangard.Node.Open.{NodeConfig, Setup, set_up}
use avangard.Node.Voting.{Holds, sign_own_says, prevote-honest, handle_vote-Holds}
use avangard.Node.Restart.Typed.{IsKeyed}
use avangard.Node.Restart.Ready.{IsReady}

module _ (blake3 : List ℕ → Digest) (hash : IsHash blake3) where
  -- The store takes a vote that neither a lock nor another vote stops.
  persist_vote-ok :
      (s : WalStore) (conflict : Digest) (round : ℕ) (intent : Digest)
      → IsDurable blake3 s
      → s.lifecycle ≡ active
      → s.next_sequence < u64_max
      → IsDigest conflict
      → IsDigest intent
      → lock_rejects (precommit_lock s conflict) round intent ≡ false
      → vote_rejects (vote_digest s conflict round phase_prevote) intent ≡ false
      → (outcome : PersistOutcome) × ((persist_vote blake3 done conflict round phase_prevote intent
            s).0
          ≡ ok outcome)
  unfolding persist_vote vote_by ensure_active validate_phase precommit_lock vote_digest check_lock
  persist_vote-ok s conflict round intent d running fits hc hi unlocked unvoted =
      let free : check_lock (lookup conflict s.locks) round intent below_lock_round
            conflicts_with_lock
          ≡ ok tt =
        ground arith in
      let written =
        vote_commit_done blake3 hash s conflict round phase_prevote intent hc hi fits free in
      elim (Result-cases (persist_vote blake3 done conflict round phase_prevote intent s).0) [
        | inl found ↦ found
        | inr (x, e) ↦ absurd (ground (arith, d.healthy, written))
      ]

module _ (keys : Keys) where
  -- The key of the server is that of its slot in a committee.
  pub record HasSlot (server : NodeServer) : Type 0 where
    pub member : CommitteeMember
    pub found : get_elem? server.manifest.members server.index ≡ some member
    pub index : member.index ≡ server.index
    pub key : member.public_key ≡ keys.verifying_key server.signing_key
    pub committee : Digest
    pub hashed : committee_hash keys server.manifest ≡ ok committee

  sign_own-ok :
      (server : NodeServer) (round : ℕ) (conflict intent : Digest)
      → HasSlot server
      → (vote : Vote) × (sign_own keys server phase_prevote round conflict intent zero_digest
          ≡ ok vote)
  unfolding sign_own sign_vote vote_message
  sign_own-ok server round conflict intent slot =
      let valid : validate_manifest keys server.manifest ≡ ok tt =
        unfold committee_hash in ground (arith, slot.hashed) in
      elim (Result-cases (sign_own keys server phase_prevote round conflict intent zero_digest)) [
        | inl found ↦ found
        | inr (x, e) ↦ absurd (
            ground (
              arith,
              valid,
              slot.found,
              slot.index,
              slot.key,
              slot.hashed,
              bytes_eq_refl (keys.verifying_key server.signing_key),
              bytes_eq_refl zero_digest,
            ))
      ]

  set_up-HasSlot :
      (config : NodeConfig) (setup : Setup) (initial_file : Option (List ℕ)) (server : NodeServer)
      → set_up keys config initial_file ≡ ok setup
      → IsReady keys config setup server
      → HasSlot server
  unfolding set_up
  set_up-HasSlot config setup initial_file server h r =
      let manifest = lab_committee keys config.epoch in
      subst HasSlot (sym r.made) (elim (Result-cases (committee_hash keys manifest)) [
        | inr (x, e) ↦ absurd (ground arith)
        | inl (committee, hashed) ↦ elim (Option-cases (get_elem? manifest.members config.index)) [
          | inl missing ↦ absurd (ground arith)
          | inr (member, found) ↦ record {
            member = member;
            found = ground arith;
            index = ground arith;
            key =
                eq_of_bytes_eq member.public_key (keys.verifying_key setup.signing_key)
                  (ground arith);
            committee = committee;
            hashed = ground arith;
          }
        ]
      ])

  -- A server that is not byzantine and agrees with its log, whose write reaches the disk, answers a
  -- proposal that passes its checks with a vote for the intent of the proposal, which it has stored.
  -- The intent has 32 bytes, and a sequence number of the log is left.
  pub prevote_answered :
      (keyed : IsKeyed keys) (config : NodeConfig) (setup : Setup) (initial_file : Option (List ℕ))
      (server : NodeServer) (proposal : Proposal) (justify : Digest)
      → set_up keys config initial_file ≡ ok setup
      → IsReady keys config setup server
      → server.byzantine ≡ false
      → server.store.next_sequence < u64_max
      → IsDigest proposal.intent
      → check_prevote keys server proposal ≡ ok justify
      → (vote : Vote) × ((prevote keys done proposal server).0 ≡ ok vote)
        × (vote.intent ≡ proposal.intent)
        × Holds (prevote keys done proposal server).1.store vote
  unfolding check_prevote durable_vote_rejection conflict_key hash_domain persist_and_sign
      after_persist handle_vote prevote
  prevote_answered keyed config setup initial_file server proposal justify set r honest fits intent
        checked =
      let conflict = conflict_key keys proposal.tx.input.reference in
      let (vote, signed) =
        sign_own-ok server proposal.round conflict proposal.intent
          (set_up-HasSlot config setup initial_file server set r) in
      let (outcome, stored) =
        persist_vote-ok keys.blake3 keyed.hash server.store conflict proposal.round proposal.intent
          r.durable r.lifecycle fits (keyed.hash _) intent (ground arith) (ground arith) in
      let answered : (prevote keys done proposal server).0 ≡ ok vote =
        rw (prevote-honest keys done proposal server honest) (ground (arith, signed, stored)) in
      let (phase, round, key, same) =
        sign_own_says keys server phase_prevote proposal.round conflict proposal.intent zero_digest
          vote signed in
      (
        vote,
        answered,
        same,
        handle_vote-Holds keys done (prevote_request proposal) server vote honest answered,
      )
