-- ===== src/Controller.antt =====
-- The controller of the experiment, integration001/src/main.rs: its fixture of keys, cells and
-- transfers, the certificates that it makes, its check of votes, and the order that it shuffles.
pub mod Schedule
pub mod Observed
pub mod Chain
pub mod Fixture
pub mod Conflicts
mod Examples
use Prim.Native.Nat.{bit_xor}
use avangard.Prelude.{
  ℕ, zero, suc, ◌+◌, ◌-◌, ◌*◌, ◌/◌, ◌%◌, ◌^◌, ◌==◌, not, ◌&&◌, ◌||◌, none, some, List, [], ◌∷◌,
  ◌++◌, get_or, bytes_eq, Result, ok, err, ◌>>=◌, ◌>>◌, reject_if, if◌then◌else◌,
}
use avangard.Prelude.Assoc.{Map}
use avangard.Prelude.Bytes.{codes}
use avangard.Prelude.Tree.{contains, tree_insert, nat_has_eq, nat_has_lt}
use avangard.Store.Types.{Digest}
use avangard.Model.Types.{
  CommitteeManifest, Cell, Tx, Vote, Qc, Keys, ModelError, PublicKeyBytes, asset_calibre,
  phase_prevote, phase_precommit, zero_digest, put_u64,
}
use avangard.Model.Manifest.{lab_validator_key}
use avangard.Model.Transaction.{intent_hash, conflict_key, make_transfer}
use avangard.Model.Vote.{sign_vote, verify_vote}
use avangard.Model.Certificate.{assemble_qc, qc_digest}

-- The messages that the functions below return in `Err`, and those of the model.
pub data ControllerError : Type 0 where
  model_error : ModelError → ControllerError
  other_statement repeated_signer dual_quorum wrong_case_count : ControllerError

abbrev pass_on {ℓ} : {A : Type ℓ} → Result ModelError A → Result ControllerError A
pass_on (ok a) = ok a
pass_on (err e) = err (model_error e)

-- The loop of `verify_observed_votes`, with the signers so far.
unfoldable pub observe_votes :
    Keys
    → CommitteeManifest
    → ℕ
    → ℕ
    → Digest
    → Digest
    → Map ℕ (Unit {0})
    → List Vote
    → Result ControllerError (Unit {0})
observe_votes keys manifest phase round conflict intent signers [] = ok tt
observe_votes keys manifest phase round conflict intent signers (vote ∷ votes) = do
  pass_on (verify_vote keys vote manifest)
  reject_if
      (not (vote.phase == phase)
        || not (vote.round == round)
        || not (bytes_eq vote.conflict_key conflict)
        || not (bytes_eq vote.intent intent))
      other_statement
  reject_if (contains vote.signer_index signers) repeated_signer
  observe_votes keys manifest phase round conflict intent (tree_insert vote.signer_index tt signers)
      votes

unfoldable pub verify_observed_votes :
    Keys
    → List Vote
    → CommitteeManifest
    → ℕ
    → ℕ
    → Digest
    → Digest
    → Result ControllerError (Unit {0})
unfolding observe_votes
verify_observed_votes keys votes manifest phase round conflict intent =
    observe_votes keys manifest phase round conflict intent [] votes

-- The three shifts of a round, on 64 bits.
unfoldable pub next_state : ℕ → ℕ
next_state state =
    let first = bit_xor state (state * 2 ^ 13 % 2 ^ 64) in
    let second = bit_xor first (first / 2 ^ 7) in bit_xor second (second * 2 ^ 17 % 2 ^ 64)

abbrev pub set_at : ℕ → ℕ → List ℕ → List ℕ
set_at i x [] = []
set_at zero x (y ∷ ys) = x ∷ ys
set_at (suc i) x (y ∷ ys) = y ∷ set_at i x ys

-- `slice::swap`
abbrev pub swap : ℕ → ℕ → List ℕ → List ℕ
swap i j values = set_at i (get_or values j 0) (set_at j (get_or values i 0) values)

-- The rounds with `upper` from the given number down to one.
unfoldable pub shuffle : ℕ → ℕ → List ℕ → List ℕ
shuffle zero state values = values
shuffle (suc below) state values =
    let upper = below + 1 in
    let next = next_state state in shuffle below next (swap upper (next % (upper + 1)) values)

-- `(from..from + count).collect()`
abbrev pub numbers : ℕ → ℕ → List ℕ
numbers from zero = []
numbers from (suc count) = from ∷ numbers (from + 1) count

unfoldable pub deterministic_permutation : ℕ → ℕ → List ℕ
unfolding shuffle
deterministic_permutation count state = shuffle (count - 1) state (numbers 0 count)

module _ (keys : Keys) where
  unfoldable pub labelled_digest : List ℕ → ℕ → Digest
  labelled_digest domain label = keys.blake3 (domain ++ put_u64 label)

  unfoldable pub make_single_recipient_transfer :
      CommitteeManifest → Cell → PublicKeyBytes → ℕ → ℕ → ℕ → Result ModelError Tx
  make_single_recipient_transfer manifest input recipient amount fee salt_label =
      make_transfer keys manifest input
        (record { asset_id = asset_calibre; amount = amount; owner = recipient } ∷ []) fee
        (labelled_digest (codes "CALIBRE_INTEGRATION001_LAB_SALT_V1") salt_label)

  -- The votes of some validators, each with its laboratory key.
  unfoldable pub sign_votes :
      CommitteeManifest → ℕ → ℕ → Digest → Digest → Digest → List ℕ → Result ModelError (List Vote)
  sign_votes manifest phase round conflict intent justify [] = ok []
  sign_votes manifest phase round conflict intent justify (index ∷ indices) = do
    vote ←
        sign_vote keys manifest phase round conflict intent justify (index % 256)
          (lab_validator_key keys manifest.epoch index)
    votes ← sign_votes manifest phase round conflict intent justify indices
    ok (vote ∷ votes)

  unfoldable pub fixture_finality_chain :
      CommitteeManifest → Tx → ℕ → List ℕ → Result ModelError (Qc × Qc)
  fixture_finality_chain manifest tx round signer_indices = do
    let conflict = conflict_key keys tx.input.reference
    intent ← intent_hash keys tx
    prevotes ← sign_votes manifest phase_prevote round conflict intent zero_digest signer_indices
    prevote_qc ← assemble_qc keys prevotes manifest phase_prevote round conflict intent none
    prevote_digest ← qc_digest keys prevote_qc manifest
    precommits ←
        sign_votes manifest phase_precommit round conflict intent prevote_digest signer_indices
    precommit_qc ←
        assemble_qc keys precommits manifest phase_precommit round conflict intent
          (some prevote_digest)
    ok (prevote_qc, precommit_qc)
