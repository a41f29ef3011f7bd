-- ===== src/Wire/Messages/RoundTrip.antt =====
-- Each reader of integration001/src/wire.rs takes back what its writer wrote.
use avangard.Prelude.{
  ℕ, ◌==◌, not, ◌&&◌, ◌≡◌, true, false, Option, none, some, List, [], ◌∷◌, length, All, ok, arith,
  inl, inr, Result-cases, subst,
}
use avangard.Model.Types.{
  CellRef, Cell, Output, Tx, UserAuth, Vote, Qc, Proposal, ApplyReceipt, phase_prevote,
  phase_precommit,
}
use avangard.Wire.Codec.{put_bounded_count, take_many}
use avangard.Wire.Reads.{
  Reads, Reads-then, Reads-last, Reads-pure, Reads-raw, Reads-u8, Reads-bool, Reads-u16, Reads-u32,
  Reads-u64, Reads-bounded_count, Reads-many,
}
use avangard.Wire.Messages.{
  max_outputs, max_receipt_outputs, max_votes, put_phase, check_phase, take_phase, put_cell_ref,
  take_cell_ref, put_cell, take_cell, put_output, take_output, put_tx, check_outputs_count, take_tx,
  put_user_auth, take_user_auth, put_vote, take_vote, put_votes, put_qc, check_votes_count, take_qc,
  put_justify, take_justify_if, take_justify, put_proposal, take_proposal, put_apply_receipt,
  take_apply_receipt,
}
use avangard.Wire.Messages.Typed.{
  IsTypedRef, IsTypedCell, IsTypedOutput, IsTypedTx, IsTypedAuth, IsTypedVote, IsTypedQc,
  IsTypedJustify, IsTypedProposal, IsTypedReceipt,
}

pub All-map {ℓ κ μ} :
    {A : Type ℓ} {P : A → Type κ} {Q : A → Type μ} (xs : List A)
    → ((a : A) → P a → Q a)
    → All P xs
    → All Q xs
All-map [] f all = tt
All-map (x ∷ xs) f (p, all) = (f x p, All-map xs f all)

pub Reads-cell_ref :
    (reference : CellRef)
    → IsTypedRef reference
    → Reads take_cell_ref (put_cell_ref reference) reference
unfolding take_cell_ref put_cell_ref
Reads-cell_ref reference t = Reads-then _ (Reads-u32 reference.asset_id t.asset_id) (
    Reads-then _ (Reads-raw 32 reference.id t.id)
      (Reads-last _ (Reads-u64 reference.generation t.generation) Reads-pure))

pub Reads-cell : (cell : Cell) → IsTypedCell cell → Reads take_cell (put_cell cell) cell
unfolding take_cell put_cell
Reads-cell cell t = Reads-then _ (Reads-cell_ref cell.reference t.reference) (
    Reads-then _ (Reads-u64 cell.amount t.amount) (
      Reads-then _ (Reads-raw 32 cell.owner t.owner) (
        Reads-then _ (Reads-raw 32 cell.predecessor t.predecessor)
          (Reads-last _ (Reads-raw 32 cell.state_digest t.state_digest) Reads-pure))))

Reads-output :
    (output : Output) → IsTypedOutput output → Reads take_output (put_output output) output
unfolding take_output put_output
Reads-output output t = Reads-then _ (Reads-u32 output.asset_id t.asset_id) (
    Reads-then _ (Reads-u64 output.amount t.amount)
      (Reads-last _ (Reads-raw 32 output.owner t.owner) Reads-pure))

pub Reads-user_auth :
    (auth : UserAuth) → IsTypedAuth auth → Reads take_user_auth (put_user_auth auth) auth
unfolding take_user_auth put_user_auth
Reads-user_auth auth t =
    Reads-then _ (Reads-raw 32 auth.signer t.signer)
      (Reads-last _ (Reads-raw 64 auth.signature t.signature) Reads-pure)

Reads-nonzero_outputs :
    (count : ℕ) → (count == 0) ≡ false → Reads (check_outputs_count count) [] count
unfolding check_outputs_count
Reads-nonzero_outputs count h = rw h Reads-pure

Reads-nonzero_votes : (count : ℕ) → (count == 0) ≡ false → Reads (check_votes_count count) [] count
unfolding check_votes_count
Reads-nonzero_votes count h = rw h Reads-pure

pub Reads-tx :
    (tx : Tx) (bytes : List ℕ) → IsTypedTx tx → put_tx tx ≡ ok bytes → Reads take_tx bytes tx
unfolding put_tx take_tx
Reads-tx tx bytes t h = elim (Result-cases (put_bounded_count (length tx.outputs) max_outputs)) [
  | inr (x, refused) ↦ absurd (ground arith)
  | inl (count, counted) ↦
      subst (λ t. Reads take_tx t tx) (ground arith)
        (Reads-then _ (Reads-u16 tx.version t.version) (
          Reads-then _ (Reads-u32 tx.network_id t.network_id) (
            Reads-then _ (Reads-u64 tx.epoch t.epoch) (
              Reads-then _ (Reads-raw 32 tx.committee_hash t.committee_hash) (
                Reads-then _ (Reads-cell tx.input t.input) (
                  Reads-then _ (Reads-bounded_count max_outputs (length tx.outputs) counted) (
                    Reads-then _ (Reads-nonzero_outputs (length tx.outputs) (ground arith)) (
                      Reads-then _
                        (Reads-many take_output put_output tx.outputs
                          (All-map tx.outputs Reads-output t.outputs))
                        (Reads-then _ (Reads-u64 tx.fee t.fee)
                          (Reads-last _ (Reads-raw 32 tx.salt t.salt) Reads-pure))))))))))
]

Reads-phase :
    (phase : ℕ) (bytes : List ℕ) → put_phase phase ≡ ok bytes → Reads take_phase bytes phase
unfolding put_phase take_phase
Reads-phase phase bytes h =
    subst (λ t. Reads take_phase t phase) (ground arith)
      (Reads-last _ (Reads-u8 phase) (checked (ground arith)))
  where
    checked :
        (not (phase == phase_prevote) && not (phase == phase_precommit)) ≡ false
        → Reads (check_phase phase) [] phase
    checked e = unfold check_phase in rw e Reads-pure

pub Reads-vote :
    (vote : Vote) (bytes : List ℕ)
    → IsTypedVote vote
    → put_vote vote ≡ ok bytes
    → Reads take_vote bytes vote
unfolding put_vote take_vote
Reads-vote vote bytes t h = elim (Result-cases (put_phase vote.phase)) [
  | inr (x, refused) ↦ absurd (ground arith)
  | inl (phase, put) ↦
      subst (λ t. Reads take_vote t vote) (ground arith)
        (Reads-then _ (Reads-u32 vote.network_id t.network_id) (
          Reads-then _ (Reads-u64 vote.epoch t.epoch) (
            Reads-then _ (Reads-raw 32 vote.committee_hash t.committee_hash) (
              Reads-then _ (Reads-phase vote.phase phase put) (
                Reads-then _ (Reads-u64 vote.round t.round) (
                  Reads-then _ (Reads-raw 32 vote.conflict_key t.conflict_key) (
                    Reads-then _ (Reads-raw 32 vote.intent t.intent) (
                      Reads-then _ (Reads-raw 32 vote.justify t.justify) (
                        Reads-then _ (Reads-u8 vote.signer_index) (
                          Reads-last _ (Reads-raw 64 vote.signature t.signature)
                            Reads-pure))))))))))
]

Reads-votes :
    (votes : List Vote) (bytes : List ℕ)
    → All IsTypedVote votes
    → put_votes votes ≡ ok bytes
    → Reads (take_many take_vote (length votes)) bytes votes
unfolding put_votes take_many
Reads-votes [] bytes all h =
    subst (λ t. Reads (take_many take_vote 0) t []) (ground arith) Reads-pure
Reads-votes (vote ∷ votes) bytes (t, all) h = elim (Result-cases (put_vote vote)) [
  | inr (x, refused) ↦ absurd (ground arith)
  | inl (xs, put) ↦ elim (Result-cases (put_votes votes)) [
    | inr (x, refused) ↦ absurd (ground arith)
    | inl (ys, put') ↦
        subst (λ t. Reads (take_many take_vote (length (vote ∷ votes))) t (vote ∷ votes))
          (ground arith)
          (Reads-then _ (Reads-vote vote xs t put)
            (Reads-last _ (Reads-votes votes ys all put') Reads-pure))
  ]
]

pub Reads-qc :
    (qc : Qc) (bytes : List ℕ) → IsTypedQc qc → put_qc qc ≡ ok bytes → Reads take_qc bytes qc
unfolding put_qc take_qc
Reads-qc qc bytes t h = elim (Result-cases (put_bounded_count (length qc.votes) max_votes)) [
  | inr (x, refused) ↦ absurd (ground arith)
  | inl (count, counted) ↦ elim (Result-cases (put_votes qc.votes)) [
    | inr (x, refused) ↦ absurd (ground arith)
    | inl (votes, put) ↦
        subst (λ t. Reads take_qc t qc) (ground arith)
          (Reads-then _ (Reads-bounded_count max_votes (length qc.votes) counted) (
            Reads-then _ (Reads-nonzero_votes (length qc.votes) (ground arith))
              (Reads-last _ (Reads-votes qc.votes votes t put) Reads-pure)))
  ]
]

Reads-justify :
    (justify : Option Qc) (bytes : List ℕ)
    → IsTypedJustify justify
    → put_justify justify ≡ ok bytes
    → Reads take_justify bytes justify
unfolding put_justify take_justify take_justify_if
Reads-justify none bytes t h =
    subst (λ t. Reads take_justify t none) (ground arith)
      (Reads-last _ (Reads-bool false) Reads-pure)
Reads-justify (some qc) bytes t h = elim (Result-cases (put_qc qc)) [
  | inr (x, refused) ↦ absurd (ground arith)
  | inl (xs, put) ↦
      subst (λ t. Reads take_justify t (some qc)) (ground arith)
        (Reads-then _ (Reads-bool true) (Reads-last _ (Reads-qc qc xs t put) Reads-pure))
]

pub Reads-proposal :
    (proposal : Proposal) (bytes : List ℕ)
    → IsTypedProposal proposal
    → put_proposal proposal ≡ ok bytes
    → Reads take_proposal bytes proposal
unfolding put_proposal take_proposal
Reads-proposal proposal bytes t h = elim (Result-cases (put_tx proposal.tx)) [
  | inr (x, refused) ↦ absurd (ground arith)
  | inl (tx, put) ↦ elim (Result-cases (put_justify proposal.justify)) [
    | inr (x, refused) ↦ absurd (ground arith)
    | inl (justify, put') ↦
        subst (λ t. Reads take_proposal t proposal) (ground arith)
          (Reads-then _ (Reads-u64 proposal.round t.round) (
            Reads-then _ (Reads-u8 proposal.proposer_index) (
              Reads-then _ (Reads-tx proposal.tx tx t.tx put) (
                Reads-then _ (Reads-user_auth proposal.auth t.auth) (
                  Reads-then _ (Reads-raw 32 proposal.intent t.intent) (
                    Reads-then _ (Reads-justify proposal.justify justify t.justify put')
                      (Reads-last _ (Reads-raw 64 proposal.signature t.signature) Reads-pure)))))))
  ]
]

pub Reads-apply_receipt :
    (receipt : ApplyReceipt) (bytes : List ℕ)
    → IsTypedReceipt receipt
    → put_apply_receipt receipt ≡ ok bytes
    → Reads take_apply_receipt bytes receipt
unfolding put_apply_receipt take_apply_receipt
Reads-apply_receipt receipt bytes t h =
    elim (Result-cases (put_bounded_count (length receipt.output_refs) max_receipt_outputs)) [
      | inr (x, refused) ↦ absurd (ground arith)
      | inl (count, counted) ↦
          subst (λ t. Reads take_apply_receipt t receipt) (ground arith)
            (Reads-then _ (Reads-raw 32 receipt.intent t.intent) (
              Reads-then _ (Reads-raw 32 receipt.certificate_digest t.certificate_digest) (
                Reads-then _
                  (Reads-bounded_count max_receipt_outputs (length receipt.output_refs) counted)
                  (Reads-last _
                    (Reads-many take_cell_ref put_cell_ref receipt.output_refs
                      (All-map receipt.output_refs Reads-cell_ref t.output_refs))
                    Reads-pure))))
    ]
