-- ===== src/Model/Ledger/Settles.antt =====
-- What a successful `apply_new` of integration001/src/model.rs did, and what it keeps.
use avangard.Prelude.{
  ◌≡◌, true, false, inl, inr, some, List, [], ok, arith, Bool-cases, Option-cases, Result-cases,
  map, subst, refl,
}
use avangard.Prelude.Assoc.{lookup, bytes_has_eq}
use avangard.Prelude.Tree.{contains, remove, tree_insert, bytes_has_lt}
use avangard.Prelude.Tree.Laws.{
  contains-tree_insert, contains-lookup, contains-remove, contains-remove_rev, contains-remove_self,
  remove-IsUnique,
}
use avangard.Store.Types.{Digest}
use avangard.Model.Types.{
  CommitteeManifest, Cell, Tx, UserAuth, Qc, ApplyReceipt, State, ApplyOutcome, applied, Keys,
  cell_ref_eq, cell_ref_eq_iff, cell_eq, cell_ref_has_eq, cell_ref_has_lt,
}
use avangard.Model.Transaction.{verify_user_auth, validate_tx}
use avangard.Model.Certificate.{qc_digest}
use avangard.Model.Ledger.{check_outputs, materialize_outputs, settled, apply_new}
use avangard.Model.Ledger.Value.{
  live_sum, validate_tx_conserves, materialize_outputs_sum, live_sum-remove,
}
use avangard.Model.Ledger.Invariant.{IsLedger, add_outputs_sum, add_outputs-IsLedger}

module _ (keys : Keys) (tx : Tx) (auth : UserAuth) (manifest : CommitteeManifest) where
  -- What is known behind a new apply.
  pub record Settles (intent : Digest) (state : State) (outcome : ApplyOutcome) (next : State)
      : Type 0 where
    pub current : Cell
    pub outputs : List Cell
    pub receipt : ApplyReceipt
    pub receipt_intent : receipt.intent ≡ intent
    pub receipt_refs : receipt.output_refs ≡ map (λ cell. cell.reference) outputs
    pub certificate : (qc : Qc) × (qc_digest keys qc manifest ≡ ok receipt.certificate_digest)
    pub authorized : verify_user_auth keys tx auth manifest ≡ ok tt
    pub found : lookup tx.input.reference state.live ≡ some current
    pub exact : cell_eq current tx.input ≡ true
    pub made : materialize_outputs keys tx ≡ ok outputs
    pub fresh : check_outputs keys state.known_ids [] outputs ≡ ok tt
    pub outcome_is : outcome ≡ applied receipt
    pub next_is : next ≡ settled keys state tx intent outputs receipt

  pub apply_new-Settles :
      (precommit_qc : Qc) (intent : Digest) (state : State) (outcome : ApplyOutcome) (next : State)
      → apply_new keys tx auth precommit_qc manifest intent state ≡ ok (outcome, next)
      → Settles intent state outcome next
  unfolding apply_new
  apply_new-Settles precommit_qc intent state outcome next h =
      elim (Option-cases (lookup tx.input.reference state.live)) [
        | inl e ↦ absurd (ground arith)
        | inr (current, found) ↦ elim (Result-cases (qc_digest keys precommit_qc manifest)) [
          | inr (x, e) ↦ absurd (ground arith)
          | inl (certificate, e) ↦ elim (Result-cases (materialize_outputs keys tx)) [
            | inr (x, e') ↦ absurd (ground arith)
            | inl (outputs, made) ↦ record {
              current = current;
              outputs = outputs;
              receipt = record {
                intent = intent;
                certificate_digest = certificate;
                output_refs = map (λ cell. cell.reference) outputs;
              };
              receipt_intent = refl;
              receipt_refs = refl;
              certificate = (precommit_qc, e);
              authorized = ground arith;
              found = found;
              exact = ground arith;
              made = made;
              fresh = ground arith;
              outcome_is = ground arith;
              next_is = ground arith;
            }
          ]
        ]
      ]

  validated : verify_user_auth keys tx auth manifest ≡ ok tt → validate_tx keys tx manifest ≡ ok tt
  unfolding verify_user_auth
  validated h = ground arith

  abbrev spent : State → Digest → State
  spent state intent = record state {
    live = remove tx.input.reference state.live;
    spent_by = tree_insert tx.input.reference intent state.spent_by;
  }

  pub Settles-live_sum :
      (intent : Digest) (state : State) (outcome : ApplyOutcome) (next : State)
      → IsLedger state
      → Settles intent state outcome next
      → live_sum next.live ≡ live_sum state.live
  Settles-live_sum intent state outcome next d c =
      let conserved = (validate_tx_conserves keys tx manifest (validated c.authorized)).0 in
      let amount : c.current.amount ≡ tx.input.amount = ground (arith, c.exact) in
      let added =
        add_outputs_sum keys state.known_ids [] c.outputs (spent state intent)
          (λ r h h'. d.live_known r (contains-remove_rev tx.input.reference r state.live h))
          c.fresh in
      rw c.next_is (
        omega (
          arith,
          conserved,
          amount,
          added,
          materialize_outputs_sum keys tx c.made,
          live_sum-remove tx.input.reference state.live c.current c.found,
        ))

  spent-IsLedger :
      (intent : Digest) (state : State) (cell : Cell)
      → IsLedger state
      → lookup tx.input.reference state.live ≡ some cell
      → IsLedger (spent state intent)
  spent-IsLedger intent state cell d found =
      let r₀ = tx.input.reference in
      let known = d.live_known r₀ (contains-lookup r₀ state.live cell found) in
      record {
        unique = remove-IsUnique r₀ state.live d.unique;
        live_known = λ r h. d.live_known r (contains-remove_rev r₀ r state.live h);
        spent_known = λ r h. elim (Bool-cases (cell_ref_eq r₀ r)) [
          | inl same ↦ rw ((cell_ref_eq_iff r₀ r).0 same) at known
          | inr other ↦
              d.spent_known r (ground (arith, contains-tree_insert r₀ r intent state.spent_by))
        ];
        apart = λ r h. elim (Bool-cases (cell_ref_eq r₀ r)) [
          | inl same ↦
              subst (λ t. contains t (remove r₀ state.live) ≡ false) ((cell_ref_eq_iff r₀ r).0 same)
                (contains-remove_self r₀ state.live d.unique)
          | inr other ↦
              contains-remove r₀ r state.live
                (d.apart r (ground (arith, contains-tree_insert r₀ r intent state.spent_by)))
        ];
      }

  pub Settles-IsLedger :
      (intent : Digest) (state : State) (outcome : ApplyOutcome) (next : State)
      → IsLedger state
      → Settles intent state outcome next
      → IsLedger next
  Settles-IsLedger intent state outcome next d c =
      let kept = spent-IsLedger intent state c.current d c.found in
      let e =
        add_outputs-IsLedger keys state.known_ids [] c.outputs (spent state intent) kept.spent_known
          kept c.fresh in
      rw c.next_is (record {
        unique = e.unique;
        live_known = e.live_known;
        spent_known = e.spent_known;
        apart = e.apart;
      })
