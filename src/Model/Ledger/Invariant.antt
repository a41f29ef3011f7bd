-- ===== src/Model/Ledger/Invariant.antt =====
-- The invariant of `State` of integration001/src/model.rs, and that new cells keep it.
use avangard.Prelude.{
  ◌+◌, ◌≡◌, refl, true, false, inl, inr, List, [], ◌∷◌, ok, arith, Bool-cases, bytes_eq, subst,
}
use avangard.Prelude.Assoc.{Map, bytes_has_eq}
use avangard.Prelude.Tree.{contains, tree_insert, IsUnique, bytes_has_lt}
use avangard.Prelude.Tree.Laws.{contains-tree_insert, tree_insert-IsUnique}
use avangard.Store.Types.{Digest}
use avangard.Model.Types.{
  CellRef, Cell, State, Keys, cell_ref_eq, cell_ref_eq_iff, cell_ref_has_eq, cell_ref_has_lt,
}
use avangard.Model.Ledger.{empty_state, add_outputs, check_outputs, add_genesis, from_cells}
use avangard.Model.Ledger.Value.{cell_sum, live_sum, live_sum-tree_insert}

-- No reference is live twice, live and spent references are apart, and the ids of both are known.
pub record IsLedger (state : State) : Type 0 where
  pub unique : IsUnique state.live
  pub live_known :
      (r : CellRef) → contains r state.live ≡ true → contains r.id state.known_ids ≡ true
  pub spent_known :
      (r : CellRef) → contains r state.spent_by ≡ true → contains r.id state.known_ids ≡ true
  pub apart : (r : CellRef) → contains r state.spent_by ≡ true → contains r state.live ≡ false

same_id : (a b : CellRef) → cell_ref_eq a b ≡ true → bytes_eq a.id b.id ≡ true
same_id a b h = ground arith

abbrev pub with_cell : Cell → State → State
with_cell cell state = record state {
  known_ids = tree_insert cell.reference.id tt state.known_ids;
  live = tree_insert cell.reference cell state.live;
}

-- A new cell whose id no spent reference has.
pub with_cell-IsLedger :
    (cell : Cell) (state : State)
    → IsLedger state
    → contains cell.reference state.spent_by ≡ false
    → IsLedger (with_cell cell state)
with_cell-IsLedger cell state d fresh = record {
  unique = tree_insert-IsUnique cell.reference cell state.live d.unique;
  live_known = λ r h. ground (
    arith,
    contains-tree_insert cell.reference r cell state.live,
    contains-tree_insert cell.reference.id r.id tt state.known_ids,
    same_id cell.reference r,
    d.live_known r,
  );
  spent_known = λ r h.
      ground
        (arith, contains-tree_insert cell.reference.id r.id tt state.known_ids, d.spent_known r h);
  apart = λ r h. elim (Bool-cases (cell_ref_eq cell.reference r)) [
    | inl same ↦
        let e : cell.reference ≡ r = (cell_ref_eq_iff cell.reference r).0 same in
        absurd (cc (rw e at fresh, h))
    | inr other ↦ ground (arith, contains-tree_insert cell.reference r cell state.live, d.apart r h)
  ];
}

module _ (keys : Keys) where
  -- While the outputs are added, the live cells are those from before, whose ids are known, and the
  -- outputs so far.
  module _ (known_ids : Map Digest (Unit {0})) where
    abbrev IsAdded : Map CellRef (Unit {0}) → State → Type 0
    IsAdded refs state =
        (r : CellRef)
        → contains r state.live ≡ true
        → contains r refs ≡ false
        → contains r.id known_ids ≡ true

    with_cell-IsAdded :
        (refs : Map CellRef (Unit {0})) (cell : Cell) (state : State)
        → IsAdded refs state
        → IsAdded (tree_insert cell.reference tt refs) (with_cell cell state)
    with_cell-IsAdded refs cell state a r h h' = elim (Bool-cases (cell_ref_eq cell.reference r)) [
      | inl same ↦ absurd (ground (arith, contains-tree_insert cell.reference r tt refs))
      | inr other ↦
          a r (ground (arith, contains-tree_insert cell.reference r cell state.live))
            (ground (arith, contains-tree_insert cell.reference r tt refs))
    ]

    absent :
        (refs : Map CellRef (Unit {0})) (cell : Cell) (state : State)
        → IsAdded refs state
        → contains cell.reference refs ≡ false
        → contains cell.reference.id known_ids ≡ false
        → contains cell.reference state.live ≡ false
    absent refs cell state a h h' = elim (Bool-cases (contains cell.reference state.live)) [
      | inl there ↦ absurd (cc (a cell.reference there h, h'))
      | inr gone ↦ gone
    ]

    pub add_outputs_sum :
        (refs : Map CellRef (Unit {0})) (cells : List Cell) (state : State)
        → IsAdded refs state
        → check_outputs keys known_ids refs cells ≡ ok tt
        → live_sum (add_outputs cells state).live ≡ cell_sum cells + live_sum state.live
    unfolding add_outputs check_outputs
    add_outputs_sum refs [] state a h = omega arith
    add_outputs_sum refs (cell ∷ cells) state a h =
        let rest : check_outputs keys known_ids (tree_insert cell.reference tt refs) cells ≡ ok tt =
          ground arith in
        let new = absent refs cell state a (ground arith) (ground arith) in
        omega (
          arith,
          add_outputs_sum (tree_insert cell.reference tt refs) cells (with_cell cell state)
              (with_cell-IsAdded refs cell state a) rest,
          live_sum-tree_insert cell.reference cell state.live new,
        )

    pub add_outputs-IsLedger :
        (refs : Map CellRef (Unit {0})) (cells : List Cell) (state : State)
        → ((r : CellRef) → contains r state.spent_by ≡ true → contains r.id known_ids ≡ true)
        → IsLedger state
        → check_outputs keys known_ids refs cells ≡ ok tt
        → IsLedger (add_outputs cells state)
    unfolding add_outputs check_outputs
    add_outputs-IsLedger refs [] state k d h = d
    add_outputs-IsLedger refs (cell ∷ cells) state k d h =
        let rest : check_outputs keys known_ids (tree_insert cell.reference tt refs) cells ≡ ok tt =
          ground arith in
        let unknown : contains cell.reference.id known_ids ≡ false = ground arith in
        let unspent : contains cell.reference state.spent_by ≡ false =
          elim (Bool-cases (contains cell.reference state.spent_by)) [
            | inl there ↦ absurd (cc (k cell.reference there, unknown))
            | inr gone ↦ gone
          ] in
        add_outputs-IsLedger (tree_insert cell.reference tt refs) cells (with_cell cell state) k
          (with_cell-IsLedger cell state d unspent) rest

  add_genesis-IsLedger :
      (state : State) (cells : List Cell) {state' : State}
      → state.spent_by ≡ []
      → IsLedger state
      → add_genesis keys state cells ≡ ok state'
      → IsLedger state'
  unfolding add_genesis contains
  add_genesis-IsLedger state [] s d h = subst IsLedger (ground arith) d
  add_genesis-IsLedger state (cell ∷ cells) {state'} s d h =
      let rest : add_genesis keys (with_cell cell state) cells ≡ ok state' = ground arith in
      add_genesis-IsLedger (with_cell cell state) cells s
        (with_cell-IsLedger cell state d (rw s refl)) rest

  -- The state that `from_cells` makes satisfies the invariant.
  pub from_cells-IsLedger :
      (cells : List Cell) {state : State} → from_cells keys cells ≡ ok state → IsLedger state
  unfolding from_cells contains
  from_cells-IsLedger cells h =
      add_genesis-IsLedger empty_state cells refl
        (record {
          unique = tt;
          live_known = λ r e. absurd (ground arith);
          spent_known = λ r e. absurd (ground arith);
          apart = λ r e. refl;
        })
        h
