-- ===== src/Wire/Messages.antt =====
-- The parts of messages in integration001/src/wire.rs: committees, cells, transactions, votes,
-- certificates, proposals and receipts. `put_` is what is appended, `take_` what is read.
pub mod Typed
pub mod RoundTrip
use avangard.Prelude.{
  ℕ, zero, suc, ◌==◌, not, ◌&&◌, Bool, true, false, Option, none, some, List, [], ◌∷◌, ◌++◌, length,
  Result, ok, err, ◌>>=◌, ◌>>◌, reject_if, if◌then◌else◌,
}
use avangard.Prelude.Assoc.{Map}
use avangard.Prelude.Tree.{contains, tree_insert, nat_has_lt, nat_has_eq}
use avangard.Store.Types.{Digest}
use avangard.Model.Types.{
  CommitteeMember, CommitteeManifest, CellRef, Cell, Output, Tx, UserAuth, Vote, Qc, Proposal,
  ApplyReceipt, n, phase_prevote, phase_precommit,
}
use avangard.Wire.Codec.{
  WireError, Take, ◌then_take◌, pure_take, fail_take, put_u8, put_bool, put_u16, put_u32, put_u64,
  put_bounded_count, take_raw, take_u8, take_bool, take_u16, take_u32, take_u64, take_bounded_count,
  take_many, concat_map, finish_encoder, decode_exact, invalid_vote_phase, empty_qc_votes,
  empty_outputs, duplicate_member_index,
}

abbrev pub max_outputs : ℕ
max_outputs = 8

abbrev pub max_receipt_outputs : ℕ
max_receipt_outputs = 9

abbrev pub max_votes : ℕ
max_votes = n

-- `Decoder::fixed`
abbrev pub take_digest : Take Digest
take_digest = take_raw 32

abbrev pub take_signature : Take (List ℕ)
take_signature = take_raw 64

unfoldable pub put_phase : ℕ → Result WireError (List ℕ)
put_phase phase = do
  reject_if (not (phase == phase_prevote) && not (phase == phase_precommit)) invalid_vote_phase
  ok (put_u8 phase)

unfoldable pub check_phase : ℕ → Take ℕ
check_phase phase =
    if not (phase == phase_prevote) && not (phase == phase_precommit)
    then fail_take invalid_vote_phase
    else pure_take phase

unfoldable pub take_phase : Take ℕ
take_phase = take_u8 then_take check_phase

unfoldable pub put_committee_member : CommitteeMember → List ℕ
put_committee_member member = put_u8 member.index ++ member.public_key

unfoldable pub take_committee_member : Take CommitteeMember
take_committee_member = take_u8 then_take λ index. take_digest then_take λ public_key.
    pure_take (record { index = index; public_key = public_key })

unfoldable pub put_committee_manifest : CommitteeManifest → Result WireError (List ℕ)
put_committee_manifest manifest = do
  count ← put_bounded_count (length manifest.members) n
  ok (
      put_u32 manifest.network_id
      ++ (put_u64 manifest.epoch
          ++ (put_u8 manifest.threshold
              ++ (count ++ concat_map put_committee_member manifest.members))))

-- The loop over the members, with the indices so far.
unfoldable pub take_members : Map ℕ (Unit {0}) → ℕ → Take (List CommitteeMember)
take_members indices zero = pure_take []
take_members indices (suc count) = take_committee_member then_take λ member.
    if contains member.index indices
    then fail_take duplicate_member_index
    else take_members (tree_insert member.index tt indices) count then_take λ members.
        pure_take (member ∷ members)

unfoldable pub take_committee_manifest : Take CommitteeManifest
take_committee_manifest = take_u32 then_take λ network_id. take_u64 then_take λ epoch.
    take_u8 then_take λ threshold. take_bounded_count n then_take λ count.
    take_members [] count then_take λ members.
    pure_take
      (record { network_id = network_id; epoch = epoch; threshold = threshold; members = members })

unfoldable pub put_cell_ref : CellRef → List ℕ
put_cell_ref reference =
    put_u32 reference.asset_id ++ (reference.id ++ put_u64 reference.generation)

unfoldable pub take_cell_ref : Take CellRef
take_cell_ref = take_u32 then_take λ asset_id. take_digest then_take λ id.
    take_u64 then_take λ generation.
    pure_take (record { asset_id = asset_id; id = id; generation = generation })

unfoldable pub put_cell : Cell → List ℕ
put_cell cell =
    put_cell_ref cell.reference
    ++ (put_u64 cell.amount ++ (cell.owner ++ (cell.predecessor ++ cell.state_digest)))

unfoldable pub take_cell : Take Cell
take_cell = take_cell_ref then_take λ reference. take_u64 then_take λ amount.
    take_digest then_take λ owner. take_digest then_take λ predecessor.
    take_digest then_take λ state_digest. pure_take (record {
      reference = reference;
      amount = amount;
      owner = owner;
      predecessor = predecessor;
      state_digest = state_digest;
    })

unfoldable pub put_output : Output → List ℕ
put_output output = put_u32 output.asset_id ++ (put_u64 output.amount ++ output.owner)

unfoldable pub take_output : Take Output
take_output = take_u32 then_take λ asset_id. take_u64 then_take λ amount.
    take_digest then_take λ owner.
    pure_take (record { asset_id = asset_id; amount = amount; owner = owner })

unfoldable pub put_tx : Tx → Result WireError (List ℕ)
put_tx tx = do
  reject_if (length tx.outputs == 0) empty_outputs
  count ← put_bounded_count (length tx.outputs) max_outputs
  ok (
      put_u16 tx.version
      ++ (put_u32 tx.network_id
          ++ (put_u64 tx.epoch
              ++ (tx.committee_hash
                  ++ (put_cell tx.input
                      ++ (count
                          ++ (concat_map put_output tx.outputs ++ (put_u64 tx.fee ++ tx.salt))))))))

unfoldable pub check_outputs_count : ℕ → Take ℕ
check_outputs_count count = if count == 0 then fail_take empty_outputs else pure_take count

unfoldable pub take_tx : Take Tx
take_tx = take_u16 then_take λ version. take_u32 then_take λ network_id. take_u64 then_take λ epoch.
    take_digest then_take λ committee_hash. take_cell then_take λ input.
    take_bounded_count max_outputs then_take λ count. check_outputs_count count then_take λ count.
    take_many take_output count then_take λ outputs. take_u64 then_take λ fee.
    take_digest then_take λ salt. pure_take (record {
      version = version;
      network_id = network_id;
      epoch = epoch;
      committee_hash = committee_hash;
      input = input;
      outputs = outputs;
      fee = fee;
      salt = salt;
    })

unfoldable pub put_user_auth : UserAuth → List ℕ
put_user_auth auth = auth.signer ++ auth.signature

unfoldable pub take_user_auth : Take UserAuth
take_user_auth = take_digest then_take λ signer. take_signature then_take λ signature.
    pure_take (record { signer = signer; signature = signature })

unfoldable pub put_vote : Vote → Result WireError (List ℕ)
put_vote vote = do
  phase ← put_phase vote.phase
  ok (
      put_u32 vote.network_id
      ++ (put_u64 vote.epoch
          ++ (vote.committee_hash
              ++ (phase
                  ++ (put_u64 vote.round
                      ++ (vote.conflict_key
                          ++ (vote.intent
                              ++ (vote.justify
                                  ++ (put_u8 vote.signer_index ++ vote.signature)))))))))

unfoldable pub take_vote : Take Vote
take_vote = take_u32 then_take λ network_id. take_u64 then_take λ epoch.
    take_digest then_take λ committee_hash. take_phase then_take λ phase.
    take_u64 then_take λ round. take_digest then_take λ conflict_key.
    take_digest then_take λ intent. take_digest then_take λ justify.
    take_u8 then_take λ signer_index. take_signature then_take λ signature. pure_take (record {
      network_id = network_id;
      epoch = epoch;
      committee_hash = committee_hash;
      phase = phase;
      round = round;
      conflict_key = conflict_key;
      intent = intent;
      justify = justify;
      signer_index = signer_index;
      signature = signature;
    })

unfoldable pub put_votes : List Vote → Result WireError (List ℕ)
put_votes [] = ok []
put_votes (vote ∷ votes) = do bytes ← put_vote vote; rest ← put_votes votes; ok (bytes ++ rest)

unfoldable pub put_qc : Qc → Result WireError (List ℕ)
put_qc qc = do
  reject_if (length qc.votes == 0) empty_qc_votes
  count ← put_bounded_count (length qc.votes) max_votes
  votes ← put_votes qc.votes
  ok (count ++ votes)

unfoldable pub check_votes_count : ℕ → Take ℕ
check_votes_count count = if count == 0 then fail_take empty_qc_votes else pure_take count

unfoldable pub take_qc : Take Qc
take_qc = take_bounded_count max_votes then_take λ count. check_votes_count count then_take λ count.
    take_many take_vote count then_take λ votes. pure_take (record { votes = votes })

-- `justify`, behind the byte that tells whether it is there
unfoldable pub put_justify : Option Qc → Result WireError (List ℕ)
put_justify none = ok (put_bool false)
put_justify (some qc) = do bytes ← put_qc qc; ok (put_bool true ++ bytes)

unfoldable pub take_justify_if : Bool → Take (Option Qc)
take_justify_if true = take_qc then_take λ qc. pure_take (some qc)
take_justify_if false = pure_take none

unfoldable pub take_justify : Take (Option Qc)
take_justify = take_bool then_take take_justify_if

unfoldable pub put_proposal : Proposal → Result WireError (List ℕ)
put_proposal proposal = do
  tx ← put_tx proposal.tx
  justify ← put_justify proposal.justify
  ok (
      put_u64 proposal.round
      ++ (put_u8 proposal.proposer_index
          ++ (tx
              ++ (put_user_auth proposal.auth
                  ++ (proposal.intent ++ (justify ++ proposal.signature))))))

unfoldable pub take_proposal : Take Proposal
take_proposal = take_u64 then_take λ round. take_u8 then_take λ proposer_index.
    take_tx then_take λ tx. take_user_auth then_take λ auth. take_digest then_take λ intent.
    take_justify then_take λ justify. take_signature then_take λ signature. pure_take (record {
      round = round;
      proposer_index = proposer_index;
      tx = tx;
      auth = auth;
      intent = intent;
      justify = justify;
      signature = signature;
    })

unfoldable pub put_apply_receipt : ApplyReceipt → Result WireError (List ℕ)
put_apply_receipt receipt = do
  count ← put_bounded_count (length receipt.output_refs) max_receipt_outputs
  ok (
      receipt.intent
      ++ (receipt.certificate_digest ++ (count ++ concat_map put_cell_ref receipt.output_refs)))

unfoldable pub take_apply_receipt : Take ApplyReceipt
take_apply_receipt = take_digest then_take λ intent. take_digest then_take λ certificate_digest.
    take_bounded_count max_receipt_outputs then_take λ count.
    take_many take_cell_ref count then_take λ output_refs.
    pure_take (record {
      intent = intent;
      certificate_digest = certificate_digest;
      output_refs = output_refs;
    })

unfoldable pub encode_qc : Qc → Result WireError (List ℕ)
encode_qc qc = finish_encoder (put_qc qc)

unfoldable pub decode_qc : List ℕ → Result WireError Qc
decode_qc bytes = decode_exact take_qc bytes

unfoldable pub encode_committee_manifest : CommitteeManifest → Result WireError (List ℕ)
encode_committee_manifest manifest = finish_encoder (put_committee_manifest manifest)

unfoldable pub decode_committee_manifest : List ℕ → Result WireError CommitteeManifest
decode_committee_manifest bytes = decode_exact take_committee_manifest bytes

-- The other codecs of `exact_codec!`.
unfoldable pub encode_cell_ref : CellRef → Result WireError (List ℕ)
encode_cell_ref reference = finish_encoder (ok (put_cell_ref reference))

unfoldable pub decode_cell_ref : List ℕ → Result WireError CellRef
decode_cell_ref bytes = decode_exact take_cell_ref bytes

unfoldable pub encode_cell : Cell → Result WireError (List ℕ)
encode_cell cell = finish_encoder (ok (put_cell cell))

unfoldable pub decode_cell : List ℕ → Result WireError Cell
decode_cell bytes = decode_exact take_cell bytes

unfoldable pub encode_tx : Tx → Result WireError (List ℕ)
encode_tx tx = finish_encoder (put_tx tx)

unfoldable pub decode_tx : List ℕ → Result WireError Tx
decode_tx bytes = decode_exact take_tx bytes

unfoldable pub encode_user_auth : UserAuth → Result WireError (List ℕ)
encode_user_auth auth = finish_encoder (ok (put_user_auth auth))

unfoldable pub decode_user_auth : List ℕ → Result WireError UserAuth
decode_user_auth bytes = decode_exact take_user_auth bytes

unfoldable pub encode_vote : Vote → Result WireError (List ℕ)
encode_vote vote = finish_encoder (put_vote vote)

unfoldable pub decode_vote : List ℕ → Result WireError Vote
decode_vote bytes = decode_exact take_vote bytes

unfoldable pub encode_proposal : Proposal → Result WireError (List ℕ)
encode_proposal proposal = finish_encoder (put_proposal proposal)

unfoldable pub decode_proposal : List ℕ → Result WireError Proposal
decode_proposal bytes = decode_exact take_proposal bytes
