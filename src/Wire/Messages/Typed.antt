-- ===== src/Wire/Messages/Typed.antt =====
-- What the Rust types say of the messages of integration001/src/wire.rs: the widths of integers and
-- arrays.
use avangard.Prelude.{ℕ, ◌^◌, ◌<◌, ◌≡◌, Option, none, some, List, length, All}
use avangard.Store.Codec.RoundTrip.{IsDigest, IsU64}
use avangard.Model.Types.{
  CommitteeMember, CommitteeManifest, CellRef, Cell, Output, Tx, UserAuth, Vote, Qc, Proposal,
  ApplyReceipt,
}

abbrev pub IsU16 : ℕ → Type 0
IsU16 n = n < 2 ^ 16

abbrev pub IsU32 : ℕ → Type 0
IsU32 n = n < 2 ^ 32

abbrev pub IsSignature : List ℕ → Type 0
IsSignature bytes = length bytes ≡ 64

abbrev pub IsTypedMember : CommitteeMember → Type 0
IsTypedMember member = IsDigest member.public_key

pub record IsTypedManifest (manifest : CommitteeManifest) : Type 0 where
  pub network_id : IsU32 manifest.network_id
  pub epoch : IsU64 manifest.epoch
  pub members : All IsTypedMember manifest.members

pub record IsTypedRef (reference : CellRef) : Type 0 where
  pub asset_id : IsU32 reference.asset_id
  pub id : IsDigest reference.id
  pub generation : IsU64 reference.generation

pub record IsTypedCell (cell : Cell) : Type 0 where
  pub reference : IsTypedRef cell.reference
  pub amount : IsU64 cell.amount
  pub owner : IsDigest cell.owner
  pub predecessor : IsDigest cell.predecessor
  pub state_digest : IsDigest cell.state_digest

pub record IsTypedOutput (output : Output) : Type 0 where
  pub asset_id : IsU32 output.asset_id
  pub amount : IsU64 output.amount
  pub owner : IsDigest output.owner

pub record IsTypedTx (tx : Tx) : Type 0 where
  pub version : IsU16 tx.version
  pub network_id : IsU32 tx.network_id
  pub epoch : IsU64 tx.epoch
  pub committee_hash : IsDigest tx.committee_hash
  pub input : IsTypedCell tx.input
  pub outputs : All IsTypedOutput tx.outputs
  pub fee : IsU64 tx.fee
  pub salt : IsDigest tx.salt

pub record IsTypedAuth (auth : UserAuth) : Type 0 where
  pub signer : IsDigest auth.signer
  pub signature : IsSignature auth.signature

pub record IsTypedVote (vote : Vote) : Type 0 where
  pub network_id : IsU32 vote.network_id
  pub epoch : IsU64 vote.epoch
  pub committee_hash : IsDigest vote.committee_hash
  pub round : IsU64 vote.round
  pub conflict_key : IsDigest vote.conflict_key
  pub intent : IsDigest vote.intent
  pub justify : IsDigest vote.justify
  pub signature : IsSignature vote.signature

abbrev pub IsTypedQc : Qc → Type 0
IsTypedQc qc = All IsTypedVote qc.votes

abbrev pub IsTypedJustify : Option Qc → Type 0
IsTypedJustify none = Unit
IsTypedJustify (some qc) = IsTypedQc qc

pub record IsTypedProposal (proposal : Proposal) : Type 0 where
  pub round : IsU64 proposal.round
  pub tx : IsTypedTx proposal.tx
  pub auth : IsTypedAuth proposal.auth
  pub intent : IsDigest proposal.intent
  pub justify : IsTypedJustify proposal.justify
  pub signature : IsSignature proposal.signature

pub record IsTypedReceipt (receipt : ApplyReceipt) : Type 0 where
  pub intent : IsDigest receipt.intent
  pub certificate_digest : IsDigest receipt.certificate_digest
  pub output_refs : All IsTypedRef receipt.output_refs
