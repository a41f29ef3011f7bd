-- ===== src/Controller/Fixture/Inputs.antt =====
-- The inputs of the fixture of integration001/src/main.rs are live in its genesis state.
use avangard.Prelude.{ℕ, ◌≡◌, List, [], ◌∷◌, ◌++◌, All, ok, arith}
use avangard.Model.Types.{Cell, Keys, cell_ref_has_eq}
use avangard.Model.Ledger.{add_genesis, from_cells, empty_state}
use avangard.Model.Ledger.Genesis.{IsLive, add_genesis-IsLive}
use avangard.Controller.Fixture.{LabFixture, build_fixture}

module _ (keys : Keys) where
  All-append : (P : Cell → Type 0) (xs ys : List Cell) → All P (xs ++ ys) → All P xs × All P ys
  All-append P [] ys all = (tt, all)
  All-append P (x ∷ xs) ys (first, all) =
      let (left, right) = All-append P xs ys all in ((first, left), right)

  -- Each input of the fixture, for the main transfer, the negative cases and the benchmark, is live in
  -- the genesis state of the fixture.
  pub build_fixture-IsLive :
      (bench_count : ℕ) (fixture : LabFixture)
      → build_fixture keys bench_count ≡ ok fixture
      → IsLive fixture.genesis fixture.main_input
        × All (IsLive fixture.genesis) fixture.negative_inputs
        × All (IsLive fixture.genesis) fixture.bench_inputs
  unfolding build_fixture from_cells
  build_fixture-IsLive bench_count fixture h =
      let added : add_genesis keys empty_state
            (fixture.main_input ∷ fixture.negative_inputs ++ fixture.bench_inputs)
          ≡ ok fixture.genesis =
        ground arith in
      let (main, rest) =
        add_genesis-IsLive keys empty_state
          (fixture.main_input ∷ fixture.negative_inputs ++ fixture.bench_inputs) added in
      let (negative, bench) =
        All-append (IsLive fixture.genesis) fixture.negative_inputs fixture.bench_inputs rest in
      (main, negative, bench)
