-- ===== src/Model/Ledger/Genesis.antt =====
-- The state that `State::from_cells` of integration001/src/model.rs makes of its cells.
use avangard.Prelude.{◌+◌, ◌≡◌, ◌||◌, refl, true, false, some, List, [], ◌∷◌, All, ok, arith}
use avangard.Prelude.Assoc.{Map, lookup, bytes_has_eq}
use avangard.Prelude.Tree.{contains, IsUnique, bytes_has_lt}
use avangard.Prelude.Tree.Laws.{
  contains-lookup, contains-tree_insert, lookup-tree_insert, lookup-tree_insert_self,
}
use avangard.Store.Types.{Digest}
use avangard.Model.Types.{CellRef, Cell, State, Keys, cell_ref_has_eq, cell_ref_has_lt}
use avangard.Model.Transaction.{validate_cell}
use avangard.Model.Ledger.{empty_state, add_genesis, from_cells}
use avangard.Model.Ledger.Value.{cell_sum, live_sum, live_sum-tree_insert}
use avangard.Model.Ledger.Invariant.{IsLedger, with_cell, from_cells-IsLedger}

-- The ids of cells, one entry for each cell.
abbrev pub ids_of : List Cell → Map Digest (Unit {0})
ids_of [] = []
ids_of (cell ∷ cells) = (cell.reference.id, tt) ∷ ids_of cells

abbrev pub refs_of : List Cell → Map CellRef (Unit {0})
refs_of [] = []
refs_of (cell ∷ cells) = (cell.reference, tt) ∷ refs_of cells

-- A cell that stands under its reference.
abbrev pub IsLive : State → Cell → Type 0
IsLive state cell = lookup cell.reference state.live ≡ some cell

module _ (keys : Keys) where
  -- What a genesis state says of its cells.
  pub record IsGenesis (cells : List Cell) (state : State) : Type 0 where
    pub ledger : IsLedger state
    pub each_valid : All (λ cell. validate_cell keys cell ≡ ok tt) cells
    pub each_live : All (IsLive state) cells
    pub distinct_ids : IsUnique (ids_of cells)
    pub only : (r : CellRef) → contains r state.live ≡ contains r (refs_of cells)
    pub value : live_sum state.live ≡ cell_sum cells

  -- A cell that is live stays so while new cells come.
  add_genesis-IsLive_before :
      (state : State) (cells : List Cell) {state' : State} (reference : CellRef) (cell : Cell)
      → lookup reference state.live ≡ some cell
      → add_genesis keys state cells ≡ ok state'
      → lookup reference state'.live ≡ some cell
  unfolding add_genesis
  add_genesis-IsLive_before state [] reference cell before h = ground (arith, before)
  add_genesis-IsLive_before state (new ∷ cells) {state'} reference cell before h =
      let next : add_genesis keys (with_cell new state) cells ≡ ok state' = ground arith in
      add_genesis-IsLive_before (with_cell new state) cells reference cell
        (ground (
          arith,
          contains-lookup reference state.live cell before,
          lookup-tree_insert new.reference reference new state.live,
          cell_ref_has_eq.beq_iff new.reference reference,
        ))
        next

  pub add_genesis-IsLive :
      (state : State) (cells : List Cell) {state' : State}
      → add_genesis keys state cells ≡ ok state'
      → All (IsLive state') cells
  unfolding add_genesis
  add_genesis-IsLive state [] h = tt
  add_genesis-IsLive state (cell ∷ cells) {state'} h =
      let next : add_genesis keys (with_cell cell state) cells ≡ ok state' = ground arith in
      (
        add_genesis-IsLive_before (with_cell cell state) cells cell.reference cell
            (lookup-tree_insert_self cell.reference cell state.live) next,
        add_genesis-IsLive (with_cell cell state) cells next,
      )

  add_genesis_valid :
      (state : State) (cells : List Cell) {state' : State}
      → add_genesis keys state cells ≡ ok state'
      → All (λ cell. validate_cell keys cell ≡ ok tt) cells
  unfolding add_genesis
  add_genesis_valid state [] h = tt
  add_genesis_valid state (cell ∷ cells) {state'} h =
      let next : add_genesis keys (with_cell cell state) cells ≡ ok state' = ground arith in
      (ground arith, add_genesis_valid (with_cell cell state) cells next)

  -- No id that is known is that of a new cell.
  add_genesis_new :
      (state : State) (cells : List Cell) {state' : State} (id : Digest)
      → contains id state.known_ids ≡ true
      → add_genesis keys state cells ≡ ok state'
      → contains id (ids_of cells) ≡ false
  unfolding add_genesis contains
  add_genesis_new state [] id known h = refl
  add_genesis_new state (cell ∷ cells) {state'} id known h =
      let next : add_genesis keys (with_cell cell state) cells ≡ ok state' = ground arith in
      ground (
        arith,
        add_genesis_new (with_cell cell state) cells id
            (ground (arith, contains-tree_insert cell.reference.id id tt state.known_ids)) next,
        bytes_has_eq.beq_iff cell.reference.id id,
      )

  add_genesis-IsUnique :
      (state : State) (cells : List Cell) {state' : State}
      → add_genesis keys state cells ≡ ok state'
      → IsUnique (ids_of cells)
  unfolding add_genesis
  add_genesis-IsUnique state [] h = tt
  add_genesis-IsUnique state (cell ∷ cells) {state'} h =
      let next : add_genesis keys (with_cell cell state) cells ≡ ok state' = ground arith in
      (
        add_genesis_new (with_cell cell state) cells cell.reference.id
            (ground (
              arith,
              contains-tree_insert cell.reference.id cell.reference.id tt state.known_ids,
              bytes_has_eq.beq_iff cell.reference.id cell.reference.id,
            ))
            next,
        add_genesis-IsUnique (with_cell cell state) cells next,
      )

  add_genesis_sum :
      (state : State) (cells : List Cell) {state' : State}
      → add_genesis keys state cells ≡ ok state'
      → live_sum state'.live ≡ cell_sum cells + live_sum state.live
  unfolding add_genesis
  add_genesis_sum state [] h = ground arith
  add_genesis_sum state (cell ∷ cells) {state'} h =
      let next : add_genesis keys (with_cell cell state) cells ≡ ok state' = ground arith in
      let new : contains cell.reference state.live ≡ false = ground arith in
      omega (
        arith,
        add_genesis_sum (with_cell cell state) cells next,
        live_sum-tree_insert cell.reference cell state.live new,
      )

  add_genesis_only :
      (state : State) (cells : List Cell) {state' : State} (r : CellRef)
      → add_genesis keys state cells ≡ ok state'
      → contains r state'.live ≡ contains r (refs_of cells) || contains r state.live
  unfolding add_genesis contains
  add_genesis_only state [] r h = ground arith
  add_genesis_only state (cell ∷ cells) {state'} r h =
      let next : add_genesis keys (with_cell cell state) cells ≡ ok state' = ground arith in
      ground (
        arith,
        add_genesis_only (with_cell cell state) cells r next,
        contains-tree_insert cell.reference r cell state.live,
      )

  -- Cells that are accepted as a genesis are each valid and have distinct ids; the live cells of the
  -- state are these cells, each under its reference, and no other, and their values sum to those of the
  -- cells; and the state satisfies the ledger's invariant.
  pub from_cells-IsGenesis :
      (cells : List Cell) {state : State} → from_cells keys cells ≡ ok state → IsGenesis cells state
  unfolding from_cells
  from_cells-IsGenesis cells h = record {
    ledger = from_cells-IsLedger keys cells (unfold from_cells in h);
    each_valid = add_genesis_valid empty_state cells h;
    each_live = add_genesis-IsLive empty_state cells h;
    distinct_ids = add_genesis-IsUnique empty_state cells h;
    only = λ r. unfold contains in ground (arith, add_genesis_only empty_state cells r h);
    value = omega (arith, add_genesis_sum empty_state cells h);
  }
