-- ===== src/Node.antt =====
-- The votes of a validator process, integration001/src/node.rs: `NodeServer::prevote` and `precommit`,
-- with their checks, and `verify_finality_chain`.
pub mod Shape
mod Paths
pub mod Apply
pub mod Handle
pub mod Open
pub mod Voting
pub mod Serving
pub mod Ledger
pub mod Progress
pub mod Restart
pub mod Examples
use avangard.Prelude.{
  ℕ, ◌==◌, not, ◌||◌, Bool, true, false, Option, none, some, List, [], ◌∷◌, ◌++◌, ltb, bytes_eq,
  get_elem?, Result, ok, err, ◌>>=◌, ◌>>◌, reject_if, ok_or, if◌then◌else◌,
}
use avangard.Store.Types.{Digest, Error, PersistOutcome, PrecommitLock, WalStore, Io}
use avangard.Store.Queries.{vote_digest, precommit_lock}
use avangard.Store.Votes
use avangard.Model.Types.{
  CommitteeManifest, Cell, Tx, Vote, Qc, Proposal, State, Keys, cell_eq, phase_prevote,
  phase_precommit, zero_digest, hash_domain,
}
use avangard.Model.Transaction.{intent_hash, conflict_key}
use avangard.Model.Vote.{sign_vote}
use avangard.Model.Certificate.{verify_qc, qc_digest}
use avangard.Model.Proposal.{verify_proposal}
use avangard.Model.Ledger.{live_cell}
use avangard.Wire.Codec.{WireError}
use avangard.Wire.Messages.{encode_qc}

abbrev pub reject_invalid_proposal : ℕ
reject_invalid_proposal = 10

abbrev pub reject_input_not_live : ℕ
reject_input_not_live = 11

abbrev pub reject_invalid_prevote_qc : ℕ
reject_invalid_prevote_qc = 12

abbrev pub reject_local_prevote_missing : ℕ
reject_local_prevote_missing = 13

abbrev pub reject_durable_lock : ℕ
reject_durable_lock = 14

abbrev pub reject_signing : ℕ
reject_signing = 15

abbrev pub reject_durable_vote : ℕ
reject_durable_vote = 16

abbrev pub reject_vote_persist : ℕ
reject_vote_persist = 17

abbrev pub reject_invalid_finality : ℕ
reject_invalid_finality = 20

-- A rejection is its code.
abbrev pub NodeRejection : Type 0
NodeRejection = ℕ

pub record NodeServer : Type 0 where
  pub index : ℕ
  pub byzantine : Bool
  pub committee_hash : Digest
  pub manifest : CommitteeManifest
  pub signing_key : List ℕ
  pub state : State
  pub store : WalStore

-- `map_err`
abbrev pub map_err {ℓ} :
    {E : Type 0} {A : Type ℓ} → Result E A → NodeRejection → Result NodeRejection A
map_err (ok a) code = ok a
map_err (err e) code = err code

-- `!= Some(..)`, for digests and cells
abbrev pub is_digest : Option Digest → Digest → Bool
is_digest none expected = false
is_digest (some digest) expected = bytes_eq digest expected

abbrev pub is_cell : Option Cell → Cell → Bool
is_cell none expected = false
is_cell (some cell) expected = cell_eq cell expected

-- The two tests of `durable_vote_rejection`, on what the store has.
abbrev pub lock_rejects : Option PrecommitLock → ℕ → Digest → Bool
lock_rejects none round intent = false
lock_rejects (some lock) round intent = ltb round lock.round || not (bytes_eq intent lock.digest)

abbrev pub vote_rejects : Option Digest → Digest → Bool
vote_rejects none intent = false
vote_rejects (some existing) intent = not (bytes_eq existing intent)

unfoldable pub durable_vote_rejection : NodeServer → Digest → ℕ → ℕ → Digest → Option NodeRejection
durable_vote_rejection server conflict round phase intent =
    if lock_rejects (precommit_lock server.store conflict) round intent
    then some reject_durable_lock
    else if vote_rejects (vote_digest server.store conflict round phase) intent
    then some reject_durable_vote
    else none

-- `if let Some(rejection) = .. { return Err(rejection) }`
abbrev pub reject_some : Option NodeRejection → Result NodeRejection (Unit {0})
reject_some none = ok tt
reject_some (some rejection) = err rejection

-- `digest[0] = 1` for a digest of zeros
abbrev pub nonzero_digest : Digest → Digest
nonzero_digest [] = []
nonzero_digest (b ∷ bs) = if bytes_eq (b ∷ bs) zero_digest then 1 ∷ bs else b ∷ bs

module _ (keys : Keys) where
  unfoldable pub validate_live_proposal : NodeServer → Proposal → Result NodeRejection (Unit {0})
  validate_live_proposal server proposal = do
    map_err (verify_proposal keys proposal server.manifest) reject_invalid_proposal
    reject_if (not (is_cell (live_cell proposal.tx.input.reference server.state) proposal.tx.input))
        reject_input_not_live

  unfoldable pub adversarial_qc_digest : Qc → Result WireError Digest
  adversarial_qc_digest qc = do
    bytes ← encode_qc qc
    ok (nonzero_digest (hash_domain keys "CALIBRE_INTEGRATION001_ADVERSARIAL_QC_BYTES_V1" bytes))

  -- `sign_vote` with the key of the server
  unfoldable pub sign_own :
      NodeServer → ℕ → ℕ → Digest → Digest → Digest → Result NodeRejection Vote
  sign_own server phase round conflict intent justify =
      map_err
        (sign_vote keys server.manifest phase round conflict intent justify server.index
          server.signing_key)
        reject_signing

  unfoldable pub after_persist :
      NodeServer
      → ℕ
      → ℕ
      → Digest
      → Digest
      → Digest
      → Result Error PersistOutcome × WalStore
      → Result NodeRejection Vote × NodeServer
  after_persist server phase round conflict intent justify (err e, store) =
      (err reject_vote_persist, record server { store = store })
  after_persist server phase round conflict intent justify (ok outcome, store) =
      (sign_own server phase round conflict intent justify, record server { store = store })

  -- A vote behind the checks, which found what it justifies: it is in the store before it is signed.
  unfoldable pub persist_and_sign :
      Io
      → NodeServer
      → ℕ
      → ℕ
      → Digest
      → Digest
      → Result NodeRejection Digest
      → Result NodeRejection Vote × NodeServer
  unfolding after_persist
  persist_and_sign io server phase round conflict intent (err rejection) = (err rejection, server)
  persist_and_sign io server phase round conflict intent (ok justify) =
      after_persist server phase round conflict intent justify
        (Votes.persist_vote keys.blake3 io conflict round phase intent server.store)

  unfoldable pub check_prevote : NodeServer → Proposal → Result NodeRejection Digest
  check_prevote server proposal = do
    validate_live_proposal server proposal
    reject_some (
        durable_vote_rejection server (conflict_key keys proposal.tx.input.reference) proposal.round
          phase_prevote proposal.intent)
    ok zero_digest

  unfoldable pub check_precommit : NodeServer → Proposal → Qc → Result NodeRejection Digest
  check_precommit server proposal prevote_qc = do
    validate_live_proposal server proposal
    let conflict = conflict_key keys proposal.tx.input.reference
    map_err
        (verify_qc keys prevote_qc server.manifest phase_prevote proposal.round conflict
          proposal.intent none)
        reject_invalid_prevote_qc
    digest ← map_err (qc_digest keys prevote_qc server.manifest) reject_invalid_prevote_qc
    reject_if
        (not (
          is_digest (vote_digest server.store conflict proposal.round phase_prevote)
            proposal.intent))
        reject_local_prevote_missing
    reject_some
        (durable_vote_rejection server conflict proposal.round phase_precommit proposal.intent)
    ok digest

  -- What a byzantine server lets its precommit justify.
  unfoldable pub byzantine_justify : NodeServer → Qc → Result NodeRejection Digest
  byzantine_justify server prevote_qc = elim (qc_digest keys prevote_qc server.manifest) [
    | ok digest ↦ ok digest
    | err e ↦ map_err (adversarial_qc_digest prevote_qc) reject_signing
  ]

  unfoldable pub prevote : Io → Proposal → NodeServer → Result NodeRejection Vote × NodeServer
  unfolding persist_and_sign sign_own
  prevote io proposal server =
      let conflict = conflict_key keys proposal.tx.input.reference in
      if server.byzantine
      then (
        sign_own server phase_prevote proposal.round conflict proposal.intent zero_digest,
        server,
      )
      else persist_and_sign io server phase_prevote proposal.round conflict proposal.intent
          (check_prevote server proposal)

  unfoldable pub precommit :
      Io → Proposal → Qc → NodeServer → Result NodeRejection Vote × NodeServer
  unfolding persist_and_sign sign_own
  precommit io proposal prevote_qc server =
      let conflict = conflict_key keys proposal.tx.input.reference in
      if server.byzantine
      then (
        (do
          justify ← byzantine_justify server prevote_qc
          sign_own server phase_precommit proposal.round conflict proposal.intent justify),
        server,
      )
      else persist_and_sign io server phase_precommit proposal.round conflict proposal.intent
          (check_precommit server proposal prevote_qc)

  unfoldable pub verify_finality_chain : NodeServer → Tx → Qc → Qc → Result NodeRejection (Unit {0})
  verify_finality_chain server tx prevote_qc finality_qc = do
    intent ← map_err (intent_hash keys tx) reject_invalid_finality
    let conflict = conflict_key keys tx.input.reference
    first ← ok_or (get_elem? prevote_qc.votes 0) reject_invalid_finality
    map_err
        (verify_qc keys prevote_qc server.manifest phase_prevote first.round conflict intent none)
        reject_invalid_finality
    prevote_digest ← map_err (qc_digest keys prevote_qc server.manifest) reject_invalid_finality
    map_err
        (verify_qc keys finality_qc server.manifest phase_precommit first.round conflict intent
          (some prevote_digest))
        reject_invalid_finality

-- The requests that ask for a vote.
pub data VoteRequest : Type 0 where
  prevote_request : Proposal → VoteRequest
  precommit_request : Proposal → Qc → VoteRequest

-- The two arms of `handle` that answer with a vote.
unfoldable pub handle_vote :
    Keys → Io → VoteRequest → NodeServer → Result NodeRejection Vote × NodeServer
unfolding prevote precommit
handle_vote keys io (prevote_request proposal) server = prevote keys io proposal server
handle_vote keys io (precommit_request proposal qc) server = precommit keys io proposal qc server
