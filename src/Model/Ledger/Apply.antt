-- ===== src/Model/Ledger/Apply.antt =====
-- `State::apply_finalized` of integration001/src/model.rs: value is conserved, the invariant is kept,
-- an intent is applied once, and an input is spent once.
use avangard.Prelude.{
  ℕ, ◌≡◌, ◌≢◌, refl, true, ◌||◌, ◌⊎◌, inl, inr, none, some, List, [], ◌∷◌, Result, ok, err, arith,
  Option-cases, Result-cases, sym, ◌∙◌, subst, ap,
}
use avangard.Prelude.Assoc.{lookup, bytes_has_eq}
use avangard.Prelude.Tree.{contains, bytes_has_lt}
use avangard.Prelude.Tree.Laws.{contains-tree_insert, contains-lookup, lookup-tree_insert_self}
use avangard.Store.Types.{Digest}
use avangard.Model.Types.{
  CommitteeManifest, CellRef, Cell, Tx, UserAuth, Qc, ApplyReceipt, State, ApplyOutcome, applied,
  already_applied, Keys, ModelError, cell_ref_eq, cell_ref_eq_iff, cell_ref_has_eq, cell_ref_has_lt,
}
use avangard.Model.Transaction.{intent_hash}
use avangard.Model.Ledger.{total_value, add_outputs, apply_by, apply_finalized}
use avangard.Model.Ledger.Value.{fold_value_ok, fold_value_bound, fold_value_sum}
use avangard.Model.Ledger.Invariant.{IsLedger}
use avangard.Model.Ledger.Settles.{Settles, apply_new-Settles, Settles-live_sum, Settles-IsLedger}

-- The arguments of `apply_finalized`.
pub record Request : Type 0 where
  pub tx : Tx
  pub auth : UserAuth
  pub prevote_qc : Qc
  pub precommit_qc : Qc
  pub manifest : CommitteeManifest

pub add_outputs_keeps :
    (cells : List Cell) (state : State)
    → ((add_outputs cells state).spent_by ≡ state.spent_by)
      × ((add_outputs cells state).applied ≡ state.applied)
unfolding add_outputs
add_outputs_keeps [] state = (refl, refl)
add_outputs_keeps (cell ∷ cells) state = add_outputs_keeps cells _

module _ (keys : Keys) where
  abbrev pub apply : Request → State → Result ModelError (ApplyOutcome × State)
  apply r state = apply_finalized keys r.tx r.auth r.prevote_qc r.precommit_qc r.manifest state

  -- What a request leaves, errors included.
  abbrev after : Result ModelError (ApplyOutcome × State) → State → State
  after (ok (outcome, next)) state = next
  after (err e) state = state

  -- Requests one after the other.
  abbrev pub apply_all : List Request → State → State
  apply_all [] state = state
  apply_all (r ∷ rs) state = apply_all rs (after (apply r state) state)

  -- Either the request was new, or nothing changed and its receipt was there.
  pub apply_cases :
      (r : Request) (state : State) (outcome : ApplyOutcome) (next : State)
      → apply r state ≡ ok (outcome, next)
      → ((intent : Digest) × ((intent_hash keys r.tx ≡ ok intent)
            × (lookup intent state.applied ≡ none))
          × Settles keys r.tx r.auth r.manifest intent state outcome next)
        ⊎ ((receipt : ApplyReceipt) × (outcome ≡ already_applied receipt) × (next ≡ state))
  unfolding apply_finalized apply_by
  apply_cases r state outcome next h = elim (Result-cases (intent_hash keys r.tx)) [
    | inr (x, e) ↦ absurd (ground arith)
    | inl (intent, e) ↦ elim (Option-cases (lookup intent state.applied)) [
      | inl new ↦ inl (
        intent,
        (e, new),
        apply_new-Settles keys r.tx r.auth r.manifest r.precommit_qc intent state outcome next
            (ground arith),
      )
      | inr (receipt, old) ↦ inr (receipt, ground arith, ground arith)
    ]
  ]

  -- In a state with the invariant and a total value within 64 bits, a request that succeeds leaves the
  -- total value as it was.
  pub apply_conserves :
      (r : Request) (state next : State) (outcome : ApplyOutcome) (value : ℕ)
      → IsLedger state
      → total_value state ≡ ok value
      → apply r state ≡ ok (outcome, next)
      → total_value next ≡ ok value
  unfolding total_value
  apply_conserves r state next outcome value d v h = elim (apply_cases r state outcome next h) [
    | inl (intent, e, c) ↦
        let same = Settles-live_sum keys r.tx r.auth r.manifest intent state outcome next d c in
        let total = fold_value_ok 0 state.live v in
        let bound = fold_value_bound 0 state.live (omega arith) v in
        fold_value_sum 0 next.live (omega arith) ∙ ap ok (omega arith)
    | inr (receipt, e, same) ↦ rw same v
  ]

  -- A request that succeeds keeps the invariant.
  pub apply-IsLedger :
      (r : Request) (state next : State) (outcome : ApplyOutcome)
      → IsLedger state
      → apply r state ≡ ok (outcome, next)
      → IsLedger next
  apply-IsLedger r state next outcome d h = elim (apply_cases r state outcome next h) [
    | inl (intent, e, c) ↦
        Settles-IsLedger keys r.tx r.auth r.manifest intent state outcome next d c
    | inr (receipt, e, same) ↦ subst IsLedger (sym same) d
  ]

  -- After a new apply, the same request again answers with the same receipt and changes nothing.
  pub apply_twice :
      (r : Request) (state next : State) (receipt : ApplyReceipt)
      → apply r state ≡ ok (applied receipt, next)
      → apply r next ≡ ok (already_applied receipt, next)
  unfolding apply_finalized apply_by
  apply_twice r state next receipt h = elim (apply_cases r state (applied receipt) next h) [
    | inl (intent, e, c) ↦
        let kept : receipt ≡ c.receipt = ground (arith, c.outcome_is) in
        let stored : lookup intent next.applied ≡ some receipt =
          rw c.next_is (lookup-tree_insert_self intent c.receipt _ ∙ ap some (sym kept)) in
        ground (arith, c.authorized)
    | inr (old, e, same) ↦ absurd (ground arith)
  ]

  Settles-spent_by :
      (r : Request) (intent : Digest) (state next : State) (outcome : ApplyOutcome)
      (reference : CellRef)
      → Settles keys r.tx r.auth r.manifest intent state outcome next
      → contains reference next.spent_by
        ≡ cell_ref_eq r.tx.input.reference reference || contains reference state.spent_by
  Settles-spent_by r intent state next outcome reference c =
      rw (c.next_is, (add_outputs_keeps c.outputs _).0)
        (contains-tree_insert r.tx.input.reference reference intent state.spent_by)

  -- What is spent stays so.
  IsSpent : CellRef → State → Type 0
  IsSpent reference state = IsLedger state × (contains reference state.spent_by ≡ true)

  after-IsSpent :
      (r : Request) (state : State) (reference : CellRef)
      → IsSpent reference state
      → IsSpent reference (after (apply r state) state)
  unfolding IsSpent
  after-IsSpent r state reference (d, h) = elim (Result-cases (apply r state)) [
    | inr (x, e) ↦ rw e (d, h)
    | inl ((outcome, next), e) ↦ elim (apply_cases r state outcome next e) [
      | inl (intent, e', c) ↦ rw e (
        apply-IsLedger r state next outcome d e,
        ground (arith, Settles-spent_by r intent state next outcome reference c),
      )
      | inr (receipt, e', same) ↦ rw (e, same) (d, h)
    ]
  ]

  apply_all-IsSpent :
      (rs : List Request) (state : State) (reference : CellRef)
      → IsSpent reference state
      → IsSpent reference (apply_all rs state)
  apply_all-IsSpent [] state reference h = h
  apply_all-IsSpent (r ∷ rs) state reference h =
      apply_all-IsSpent rs (after (apply r state) state) reference
        (after-IsSpent r state reference h)

  -- An input that is spent is not spent by a new apply.
  spent_not_applied :
      (r : Request) (state next : State) (receipt : ApplyReceipt)
      → IsSpent r.tx.input.reference state
      → apply r state ≢ ok (applied receipt, next)
  unfolding IsSpent
  spent_not_applied r state next receipt (d, s) h =
      elim (apply_cases r state (applied receipt) next h) [
        | inl (intent, e, c) ↦
            let reference = r.tx.input.reference in
            let live = contains-lookup reference state.live c.current c.found in
            let gone = d.apart reference s in absurd (ground (arith, live, gone))
        | inr (old, e, same) ↦ absurd (ground arith)
      ]

  spends :
      (r : Request) (state next : State) (receipt : ApplyReceipt)
      → IsLedger state
      → apply r state ≡ ok (applied receipt, next)
      → IsSpent r.tx.input.reference next
  unfolding IsSpent
  spends r state next receipt d h = elim (apply_cases r state (applied receipt) next h) [
    | inl (intent, e, c) ↦ (
      apply-IsLedger r state next (applied receipt) d h,
      ground (
        arith,
        Settles-spent_by r intent state next (applied receipt) r.tx.input.reference c,
        cell_ref_eq_iff r.tx.input.reference r.tx.input.reference,
      ),
    )
    | inr (old, e, same) ↦ absurd (ground arith)
  ]

  -- From a state with the invariant: once a request spent its input, no request with that input is
  -- newly applied, whatever requests come in between, and whatever they return.
  pub no_double_spend :
      (r r' : Request) (rs : List Request) (state next last : State)
      (receipt receipt' : ApplyReceipt)
      → IsLedger state
      → apply r state ≡ ok (applied receipt, next)
      → r'.tx.input.reference ≡ r.tx.input.reference
      → apply r' (apply_all rs next) ≢ ok (applied receipt', last)
  no_double_spend r r' rs state next last receipt receipt' d h same h' =
      spent_not_applied r' (apply_all rs next) last receipt'
        (subst (λ t. IsSpent t (apply_all rs next)) (sym same)
          (apply_all-IsSpent rs next r.tx.input.reference (spends r state next receipt d h)))
        h'
