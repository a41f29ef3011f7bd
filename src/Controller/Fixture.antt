-- ===== src/Controller/Fixture.antt =====
-- The fixture of integration001/src/main.rs: `build_fixture` and `make_main_transfer`.
pub mod Inputs
use avangard.Prelude.{ℕ, ◌+◌, List, [], ◌∷◌, ◌++◌, Result, ok, ◌>>=◌, ◌>>◌}
use avangard.Prelude.Bytes.{codes}
use avangard.Model.Types.{
  CommitteeManifest, Cell, Tx, UserAuth, State, Keys, ModelError, PublicKeyBytes,
}
use avangard.Model.Manifest.{lab_committee, lab_user_key}
use avangard.Model.Transaction.{make_genesis_cell, sign_user, make_transfer}
use avangard.Model.Ledger.{from_cells}
use avangard.Controller.{numbers, labelled_digest}

-- `OLD_EPOCH` of integration001/src/model.rs
abbrev old_epoch : ℕ
old_epoch = 100

abbrev alice_key_label : ℕ
alice_key_label = 1

abbrev bob_key_label : ℕ
bob_key_label = 2

abbrev charlie_key_label : ℕ
charlie_key_label = 3

abbrev mallory_key_label : ℕ
mallory_key_label = 4

abbrev bench_owner_key_label : ℕ
bench_owner_key_label = 10

pub record LabFixture : Type 0 where
  pub manifest : CommitteeManifest
  pub genesis : State
  pub alice : List ℕ
  pub bob : PublicKeyBytes
  pub charlie : PublicKeyBytes
  pub mallory : List ℕ
  pub bench_owner : List ℕ
  pub main_input : Cell
  pub negative_inputs : List Cell
  pub bench_inputs : List Cell

module _ (keys : Keys) where
  -- The cells of one owner and one amount, for labels that follow each other.
  unfoldable pub genesis_cells : ℕ → ℕ → PublicKeyBytes → List ℕ → List Cell
  genesis_cells first amount owner [] = []
  genesis_cells first amount owner (index ∷ indices) =
      make_genesis_cell keys (first + index) amount owner ∷ genesis_cells first amount owner indices

  unfoldable pub build_fixture : ℕ → Result ModelError LabFixture
  build_fixture bench_count = do
    let alice = lab_user_key keys alice_key_label
    let bench_owner = lab_user_key keys bench_owner_key_label
    let main_input = make_genesis_cell keys 1 100 (keys.verifying_key alice)
    let negative_inputs = genesis_cells 10 100 (keys.verifying_key alice) (numbers 0 3)
    let bench_inputs =
        genesis_cells 1000 10 (keys.verifying_key bench_owner) (numbers 0 bench_count)
    genesis ← from_cells keys (main_input ∷ negative_inputs ++ bench_inputs)
    ok (record {
      manifest = lab_committee keys old_epoch;
      genesis = genesis;
      alice = alice;
      bob = keys.verifying_key (lab_user_key keys bob_key_label);
      charlie = keys.verifying_key (lab_user_key keys charlie_key_label);
      mallory = lab_user_key keys mallory_key_label;
      bench_owner = bench_owner;
      main_input = main_input;
      negative_inputs = negative_inputs;
      bench_inputs = bench_inputs;
    })

  unfoldable pub make_main_transfer :
      LabFixture → PublicKeyBytes → ℕ → Result ModelError (Tx × UserAuth)
  make_main_transfer fixture recipient salt_label = do
    let asset_id = fixture.main_input.reference.asset_id
    tx ←
        make_transfer keys fixture.manifest fixture.main_input
          (record { asset_id = asset_id; amount = 60; owner = recipient }
            ∷ record { asset_id = asset_id; amount = 39; owner = keys.verifying_key fixture.alice }
            ∷ [])
          1 (labelled_digest keys (codes "CALIBRE_INTEGRATION001_MAIN_SALT_V1") salt_label)
    auth ← sign_user keys tx fixture.alice
    ok (tx, auth)
