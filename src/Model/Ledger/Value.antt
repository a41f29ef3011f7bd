-- ===== src/Model/Ledger/Value.antt =====
-- The value in transactions and in the state of integration001/src/model.rs.
use avangard.Prelude.{
  ℕ, ◌+◌, ◌≤◌, ◌<◌, ◌≡◌, refl, false, some, List, [], ◌∷◌, ◌++◌, length, All, ok, arith, inl, inr,
  Bool-cases, Result-cases, ◌∙◌,
}
use avangard.Prelude.Assoc.{Map, lookup}
use avangard.Prelude.Tree.{contains, remove, place, tree_insert}
use avangard.Prelude.Tree.Laws.{tree_insert_new}
use avangard.Store.Types.{u64_max}
use avangard.Model.Types.{
  CommitteeManifest, CellRef, Cell, Output, Tx, Keys, cell_ref_eq, cell_ref_has_eq, cell_ref_has_lt,
}
use avangard.Model.Transaction.{sum_outputs, validate_tx, tx_bytes, intent_hash}
use avangard.Model.Ledger.{fold_value, output_cells, effects_of, materialize_outputs}

abbrev pub output_sum : List Output → ℕ
output_sum [] = 0
output_sum (output ∷ outputs) = output.amount + output_sum outputs

abbrev pub cell_sum : List Cell → ℕ
cell_sum [] = 0
cell_sum (cell ∷ cells) = cell.amount + cell_sum cells

abbrev pub live_sum : Map CellRef Cell → ℕ
live_sum [] = 0
live_sum ((reference, cell) ∷ live) = cell.amount + live_sum live

-- Outputs of one asset, each worth something.
abbrev pub IsPaid : ℕ → Output → Type 0
IsPaid asset output = (output.asset_id ≡ asset) × (0 < output.amount)

sum_outputs_ok :
    (asset total : ℕ) (outputs : List Output) {sum : ℕ}
    → sum_outputs asset total outputs ≡ ok sum
    → (sum ≡ total + output_sum outputs) × All (IsPaid asset) outputs
unfolding sum_outputs
sum_outputs_ok asset total [] h = (ground arith, tt)
sum_outputs_ok asset total (output ∷ outputs) {sum} h =
    let rest : sum_outputs asset (total + output.amount) outputs ≡ ok sum = ground arith in
    let (e, a) = sum_outputs_ok asset (total + output.amount) outputs rest in
    (omega arith, (ground arith, a))

module _ (keys : Keys) where
  -- A transaction that `validate_tx` accepts pays all of its input out: the outputs and the fee add up
  -- to the amount of the input without overflow, there are one to eight outputs, each is worth
  -- something and of the asset of the input, and the fee is not zero.
  pub validate_tx_conserves :
      (tx : Tx) (manifest : CommitteeManifest)
      → validate_tx keys tx manifest ≡ ok tt
      → (output_sum tx.outputs + tx.fee ≡ tx.input.amount)
        × (0 < tx.fee)
        × (0 < length tx.outputs)
        × (length tx.outputs ≤ 8)
        × All (IsPaid tx.input.reference.asset_id) tx.outputs
  unfolding validate_tx intent_hash tx_bytes
  validate_tx_conserves tx manifest h =
      elim (Result-cases (sum_outputs tx.input.reference.asset_id tx.fee tx.outputs)) [
        | inl (sum, e) ↦
            let (total, paid) = sum_outputs_ok tx.input.reference.asset_id tx.fee tx.outputs e in
            (ground arith, ground arith, ground arith, ground arith, paid)
        | inr (x, e) ↦ absurd (ground arith)
      ]

  output_cells_sum :
      (tx : Tx) (index : ℕ) (outputs : List Output) {cells : List Cell}
      → output_cells keys tx index outputs ≡ ok cells
      → cell_sum cells ≡ output_sum outputs
  unfolding output_cells
  output_cells_sum tx index [] h = ground arith
  output_cells_sum tx index (output ∷ outputs) {cells} h =
      elim (Result-cases (output_cells keys tx (index + 1) outputs)) [
        | inl (rest, e) ↦ ground (arith, output_cells_sum tx (index + 1) outputs e)
        | inr (x, e) ↦ absurd (ground arith)
      ]

  output_sum-append : (xs ys : List Output) → output_sum (xs ++ ys) ≡ output_sum xs + output_sum ys
  output_sum-append [] ys = omega arith
  output_sum-append (x ∷ xs) ys = omega (arith, output_sum-append xs ys)

  -- The new cells are worth what the outputs and the fee are.
  pub materialize_outputs_sum :
      (tx : Tx) {cells : List Cell}
      → materialize_outputs keys tx ≡ ok cells
      → cell_sum cells ≡ output_sum tx.outputs + tx.fee
  unfolding materialize_outputs effects_of
  materialize_outputs_sum tx h =
      output_cells_sum tx 0 (effects_of keys tx) h ∙ output_sum-append tx.outputs _ ∙ omega arith

-- `fold_value` adds the amounts up, or overflows.
pub fold_value_ok :
    (total : ℕ) (live : Map CellRef Cell) {sum : ℕ}
    → fold_value total live ≡ ok sum
    → sum ≡ total + live_sum live
unfolding fold_value
fold_value_ok total [] h = ground arith
fold_value_ok total ((reference, cell) ∷ live) {sum} h =
    let rest : fold_value (total + cell.amount) live ≡ ok sum = ground arith in
    omega (arith, fold_value_ok (total + cell.amount) live rest)

pub fold_value_bound :
    (total : ℕ) (live : Map CellRef Cell) {sum : ℕ}
    → total ≤ u64_max
    → fold_value total live ≡ ok sum
    → sum ≤ u64_max
unfolding fold_value
fold_value_bound total [] le h = ground arith
fold_value_bound total ((reference, cell) ∷ live) le h =
    fold_value_bound (total + cell.amount) live (ground arith) (ground arith)

pub fold_value_sum :
    (total : ℕ) (live : Map CellRef Cell)
    → total + live_sum live ≤ u64_max
    → fold_value total live ≡ ok (total + live_sum live)
unfolding fold_value
fold_value_sum total [] h = ground arith
fold_value_sum total ((reference, cell) ∷ live) h =
    let e = fold_value_sum (total + cell.amount) live (omega arith) in ground arith

live_sum-place :
    (reference : CellRef) (cell : Cell) (live : Map CellRef Cell)
    → live_sum (place reference cell live) ≡ cell.amount + live_sum live
unfolding place
live_sum-place reference cell [] = refl
live_sum-place reference cell ((r, c) ∷ live) = ground (arith, live_sum-place reference cell live)

pub live_sum-tree_insert :
    (reference : CellRef) (cell : Cell) (live : Map CellRef Cell)
    → contains reference live ≡ false
    → live_sum (tree_insert reference cell live) ≡ cell.amount + live_sum live
live_sum-tree_insert reference cell live h =
    rw (tree_insert_new reference cell live h) (live_sum-place reference cell live)

pub live_sum-remove :
    (reference : CellRef) (live : Map CellRef Cell) (cell : Cell)
    → lookup reference live ≡ some cell
    → live_sum live ≡ cell.amount + live_sum (remove reference live)
unfolding lookup remove
live_sum-remove reference [] cell h = absurd (ground arith)
live_sum-remove reference ((r, c) ∷ live) cell h = elim (Bool-cases (cell_ref_eq r reference)) [
  | inl here ↦ ground arith
  | inr there ↦ ground (arith, live_sum-remove reference live cell (ground arith))
]
