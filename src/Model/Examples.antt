-- ===== src/Model/Examples.antt =====
-- Concrete runs of the model. The hash and the signatures are stand-ins.
mod Quorum
mod Ledger
use avangard.Prelude.{
  ℕ, ◌+◌, ◌*◌, ◌%◌, ◌^◌, ◌≡◌, refl, true, false, Option, none, some, List, [], ◌∷◌, ◌++◌, replicate,
  length, Result, ok, err, bytes_eq, arith, ◌>>=◌, Bool,
}
use avangard.Prelude.Bytes.{le_bytes}
use avangard.Store.Types.{Digest}
use avangard.Model.Types.{
  CommitteeManifest, CellRef, Cell, Output, Tx, UserAuth, Vote, Qc, State, Keys, ModelError,
  phase_prevote, phase_precommit, zero_digest, hash_domain, network_id, protocol_version,
}
use avangard.Model.Manifest.{
  lab_user_key, lab_validator_key, lab_committee, validate_manifest, committee_hash,
}
use avangard.Model.Transaction.{
  make_genesis_cell, intent_hash, conflict_key, sign_user, make_transfer, validate_tx,
}
use avangard.Model.Vote.{sign_vote}
use avangard.Model.Certificate.{assemble_qc, qc_digest}
use avangard.Model.Ledger.{from_cells, empty_state}

abbrev pub mix : ℕ → List ℕ → ℕ
mix h [] = h
mix h (b ∷ bs) = mix ((h * 31 + b) % 2 ^ 32) bs

abbrev pub toy_keys : Keys
toy_keys = record {
  blake3 = λ bytes. le_bytes 4 (mix 7 bytes) ++ replicate 28 1;
  verifying_key = λ seed. seed;
  sign = λ seed message. seed ++ message;
  is_key = λ key. true;
  verify_strict = λ key message signature. bytes_eq signature (key ++ message);
}

abbrev value_or {ℓ} : {A : Type ℓ} → A → Result ModelError A → A
value_or a (ok b) = b
value_or a (err e) = a

abbrev pub manifest : CommitteeManifest
manifest = lab_committee toy_keys 100

abbrev pub user : List ℕ
user = lab_user_key toy_keys 1

abbrev pub input : Cell
input = make_genesis_cell toy_keys 1 100 user

abbrev none_tx : Tx
none_tx = record {
  version = 0;
  network_id = 0;
  epoch = 0;
  committee_hash = [];
  input = input;
  outputs = [];
  fee = 0;
  salt = [];
}

abbrev pub tx : Tx
tx = value_or none_tx (
    make_transfer toy_keys manifest input
      (record { asset_id = 1; amount = 40; owner = user }
        ∷ record { asset_id = 1; amount = 50; owner = replicate 32 4 }
        ∷ [])
      10 (replicate 32 5))

abbrev pub intent : Digest
intent = value_or [] (intent_hash toy_keys tx)

abbrev pub conflict : Digest
conflict = conflict_key toy_keys input.reference

abbrev vote_result : ℕ → Digest → ℕ → Result ModelError Vote
vote_result phase justify i =
    sign_vote toy_keys manifest phase 1 conflict intent justify i (lab_validator_key toy_keys 100 i)

abbrev qc_result : ℕ → Digest → Option Digest → Result ModelError Qc
qc_result phase justify expected = do
  v₀ ← vote_result phase justify 0
  v₁ ← vote_result phase justify 1
  v₂ ← vote_result phase justify 2
  v₄ ← vote_result phase justify 4
  v₆ ← vote_result phase justify 6
  assemble_qc toy_keys (v₆ ∷ v₀ ∷ v₂ ∷ v₁ ∷ v₄ ∷ []) manifest phase 1 conflict intent expected

abbrev pub prevote_qc : Qc
prevote_qc = value_or (record { votes = [] }) (qc_result phase_prevote zero_digest none)

abbrev pub justify : Digest
justify = value_or [] (qc_digest toy_keys prevote_qc manifest)

abbrev pub precommit_qc : Qc
precommit_qc = value_or (record { votes = [] }) (qc_result phase_precommit justify (some justify))

abbrev pub start : State
start = value_or empty_state (from_cells toy_keys (input ∷ []))
