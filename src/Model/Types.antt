-- ===== src/Model/Types.antt =====
-- The data of integration001/src/model.rs: constants, records and errors. `Keys` is what the file
-- uses of the crates blake3 and ed25519_dalek.
use avangard.Prelude.{
  ℕ, ◌+◌, ◌≡◌, ◌↔◌, Bool, true, false, ◌&&◌, ◌||◌, Option, List, [], ◌∷◌, ◌++◌, arith, ltb, ◌==◌,
  none, some, if◌then◌else◌, bytes_eq, bytes_eq_refl, eq_of_bytes_eq,
}
use avangard.Prelude.Bytes.{le_bytes, codes}
use Prim.Native.String.{String}
use avangard.Prelude.Assoc.{Eq, Map}
use avangard.Prelude.Tree.{Lt, bytes_lt, bytes_lt_irrefl, bytes_lt_trans}
use avangard.Store.Types.{Digest, u64_max}

abbrev pub PublicKeyBytes : Type 0
PublicKeyBytes = List ℕ

abbrev pub SignatureBytes : Type 0
SignatureBytes = List ℕ

abbrev pub protocol_version : ℕ
protocol_version = 1

abbrev pub network_id : ℕ
network_id = 1

abbrev pub n : ℕ
n = 7

abbrev pub q : ℕ
q = 5

abbrev pub phase_prevote : ℕ
phase_prevote = 1

abbrev pub phase_precommit : ℕ
phase_precommit = 2

abbrev pub asset_calibre : ℕ
asset_calibre = 1

-- `[0; 32]`
abbrev pub zero_digest : Digest
zero_digest =
    0 ∷ 0 ∷ 0 ∷ 0 ∷ 0 ∷ 0 ∷ 0 ∷ 0 ∷ 0 ∷ 0 ∷ 0 ∷ 0 ∷ 0 ∷ 0 ∷ 0 ∷ 0 ∷ 0 ∷ 0 ∷ 0 ∷ 0 ∷ 0 ∷ 0 ∷ 0 ∷ 0
    ∷ 0 ∷ 0 ∷ 0 ∷ 0 ∷ 0 ∷ 0 ∷ 0 ∷ 0 ∷ []

pub record CommitteeMember : Type 0 where
  pub index : ℕ
  pub public_key : PublicKeyBytes

pub record CommitteeManifest : Type 0 where
  pub network_id : ℕ
  pub epoch : ℕ
  pub threshold : ℕ
  pub members : List CommitteeMember

pub record CellRef : Type 0 where
  pub asset_id : ℕ
  pub id : Digest
  pub generation : ℕ

abbrev pub cell_ref_eq : CellRef → CellRef → Bool
cell_ref_eq a b = a.asset_id == b.asset_id && bytes_eq a.id b.id && a.generation == b.generation

pub cell_ref_eq_iff : (a b : CellRef) → (cell_ref_eq a b ≡ true) ↔ (a ≡ b)
cell_ref_eq_iff a b =
    ((λ h. ground (arith, eq_of_bytes_eq a.id b.id)), (λ h. ground (arith, bytes_eq_refl a.id)))

instance abbrev pub cell_ref_has_eq : Eq CellRef
cell_ref_has_eq = record { beq = cell_ref_eq; beq_iff = cell_ref_eq_iff }

-- the derived order: the fields, the first first
abbrev pub cell_ref_lt : CellRef → CellRef → Bool
cell_ref_lt a b =
    ltb a.asset_id b.asset_id
    || (a.asset_id == b.asset_id
        && (bytes_lt a.id b.id || (bytes_eq a.id b.id && ltb a.generation b.generation)))

pub cell_ref_lt_irrefl : (a : CellRef) → cell_ref_lt a a ≡ false
cell_ref_lt_irrefl a = ground (arith, bytes_lt_irrefl a.id)

pub cell_ref_lt_trans :
    (a b c : CellRef) → cell_ref_lt a b ≡ true → cell_ref_lt b c ≡ true → cell_ref_lt a c ≡ true
cell_ref_lt_trans a b c h h' = ground (
  arith,
  bytes_lt_trans a.id b.id c.id,
  eq_of_bytes_eq a.id b.id,
  eq_of_bytes_eq b.id c.id,
  bytes_eq_refl a.id,
  bytes_eq_refl c.id,
)

instance abbrev pub cell_ref_has_lt : Lt CellRef
cell_ref_has_lt = record {
  blt = cell_ref_lt;
  blt_irrefl = cell_ref_lt_irrefl;
  blt_trans = cell_ref_lt_trans;
}

pub record Cell : Type 0 where
  pub reference : CellRef
  pub amount : ℕ
  pub owner : PublicKeyBytes
  pub predecessor : Digest
  pub state_digest : Digest

abbrev pub cell_eq : Cell → Cell → Bool
cell_eq a b =
    cell_ref_eq a.reference b.reference
    && a.amount == b.amount
    && bytes_eq a.owner b.owner
    && bytes_eq a.predecessor b.predecessor
    && bytes_eq a.state_digest b.state_digest

pub record Output : Type 0 where
  pub asset_id : ℕ
  pub amount : ℕ
  pub owner : PublicKeyBytes

pub record Tx : Type 0 where
  pub version : ℕ
  pub network_id : ℕ
  pub epoch : ℕ
  pub committee_hash : Digest
  pub input : Cell
  pub outputs : List Output
  pub fee : ℕ
  pub salt : Digest

pub record UserAuth : Type 0 where
  pub signer : PublicKeyBytes
  pub signature : SignatureBytes

pub record Vote : Type 0 where
  pub network_id : ℕ
  pub epoch : ℕ
  pub committee_hash : Digest
  pub phase : ℕ
  pub round : ℕ
  pub conflict_key : Digest
  pub intent : Digest
  pub justify : Digest
  pub signer_index : ℕ
  pub signature : SignatureBytes

pub record Qc : Type 0 where
  pub votes : List Vote

pub record Proposal : Type 0 where
  pub round : ℕ
  pub proposer_index : ℕ
  pub tx : Tx
  pub auth : UserAuth
  pub intent : Digest
  pub justify : Option Qc
  pub signature : SignatureBytes

pub record ApplyReceipt : Type 0 where
  pub intent : Digest
  pub certificate_digest : Digest
  pub output_refs : List CellRef

pub record State : Type 0 where
  pub live : Map CellRef Cell
  pub spent_by : Map CellRef Digest
  pub known_ids : Map Digest (Unit {0})
  pub applied : Map Digest ApplyReceipt

pub data ApplyOutcome : Type 0 where
  applied : ApplyReceipt → ApplyOutcome
  already_applied : ApplyReceipt → ApplyOutcome

-- The messages that the file returns in `Err`; some that two functions share are one constructor.
pub data ModelError : Type 0 where
  wrong_network wrong_threshold wrong_size non_canonical_index : ModelError
  invalid_committee_key duplicate_committee_key : ModelError
  zero_value_cell unsupported_asset cell_digest_mismatch : ModelError
  output_count unsupported_version network_mismatch epoch_mismatch committee_mismatch : ModelError
  zero_fee output_asset zero_value_output value_overflow not_conserved : ModelError
  not_owner invalid_owner_key invalid_owner_signature : ModelError
  invalid_phase not_a_member key_slot_mismatch prevote_justified precommit_unjustified : ModelError
  vote_network_or_epoch vote_committee signer_index_mismatch invalid_validator_key
        invalid_vote_signature :
      ModelError
  mixed_statement justify_mismatch unexpected_justify duplicate_signer unsorted_signers : ModelError
  qc_size empty_qc : ModelError
  empty_justify_qc justify_not_lower intent_mismatch wrong_proposer : ModelError
  invalid_proposer_key invalid_proposal_signature : ModelError
  generation_overflow output_index_overflow : ModelError
  duplicate_genesis_reference duplicate_genesis_id : ModelError
  live_key_mismatch live_unknown live_and_spent spent_unknown spent_live : ModelError
  receipt_key_mismatch receipt_empty : ModelError
  round_mismatch input_not_live inexact_input duplicate_output output_collides : ModelError

-- `blake3` hashes the bytes of all `update` calls in order. A `SigningKey` is the seed it is made
-- from; `verifying_key` gives the bytes of its public key. `is_key` tells whether
-- `VerifyingKey::from_bytes` succeeds, `verify_strict key message signature` whether the check does.
pub record Keys : Type 0 where
  pub blake3 : List ℕ → Digest
  pub verifying_key : List ℕ → PublicKeyBytes
  pub sign : List ℕ → List ℕ → SignatureBytes
  pub is_key : PublicKeyBytes → Bool
  pub verify_strict : PublicKeyBytes → List ℕ → SignatureBytes → Bool

abbrev pub put_u16 : ℕ → List ℕ
put_u16 value = le_bytes 2 value

abbrev pub put_u32 : ℕ → List ℕ
put_u32 value = le_bytes 4 value

abbrev pub put_u64 : ℕ → List ℕ
put_u64 value = le_bytes 8 value

-- `u64::checked_add`
abbrev pub checked_add : ℕ → ℕ → Option ℕ
checked_add a b = if ltb u64_max (a + b) then none else some (a + b)

unfoldable pub hash_domain : Keys → String → List ℕ → Digest
hash_domain keys domain bytes = keys.blake3 (codes domain ++ bytes)
