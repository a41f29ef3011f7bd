-- ===== src/Node/Open.antt =====
-- `NodeConfig::parse` and `NodeServer::open` of integration001/src/node.rs.
use avangard.Prelude.{
  ℕ, ◌^◌, ◌==◌, not, ◌||◌, Bool, true, false, Option, none, some, List, [], ◌∷◌, ltb, leb, bytes_eq,
  length, get_elem?, Result, ok, err, ◌>>=◌, ◌>>◌, reject_if, ok_or, if◌then◌else◌,
}
use avangard.Prelude.Bytes.{codes}
use avangard.Prelude.Parse.{parse_uint}
use avangard.Store.Types.{
  Digest, Snapshot, Lifecycle, initialized, active, retired, Error, PersistOutcome, WalStore, Io,
}
use avangard.Store.Open.{Disk, contents, open_wal}
use avangard.Store.Activate
use avangard.Model.Types.{CommitteeManifest, State, Keys, n}
use avangard.Model.Manifest.{lab_committee, lab_validator_key, committee_hash}
use avangard.Model.Root.{state_root}
use avangard.Wire.Codec.{max_frame_len}
use avangard.Wire.States.{decode_state}
use avangard.Node.{NodeServer}
use avangard.Node.Paths.{same_path}
use avangard.Node.Shape.{
  NodeError, pass_on, model_error, wire_error, store_error, argument_count, not_an_integer,
  zero_argument, index_not_u8, index_not_member, empty_path, equal_paths, invalid_byzantine_marker,
  missing_index, key_slot_mismatch, initial_unreadable, initial_too_large, wrapper_mismatch,
  validate_state_shape, validate_pure_genesis, reconcile_state_with_wal, genesis_activation_digest,
}

pub record NodeConfig : Type 0 where
  pub epoch : ℕ
  pub index : ℕ
  pub port : ℕ
  pub wal_path : List ℕ
  pub snapshot_path : List ℕ
  pub byzantine : Bool

unfoldable pub parse_nonzero : ℕ → List ℕ → Result NodeError ℕ
parse_nonzero bound raw = do
  value ← ok_or (parse_uint bound raw) not_an_integer
  reject_if (value == 0) zero_argument
  ok value

unfoldable pub parse_marker : List ℕ → Result NodeError Bool
parse_marker raw =
    if bytes_eq raw (codes "0")
    then ok false
    else if bytes_eq raw (codes "1")
    then ok true
    else err invalid_byzantine_marker

-- `NodeConfig::parse`
unfoldable pub parse_config : List (List ℕ) → Result NodeError NodeConfig
parse_config (epoch ∷ index ∷ port ∷ wal_path ∷ snapshot_path ∷ marker ∷ []) = do
  epoch_value ← parse_nonzero (2 ^ 64) epoch
  index_value ← ok_or (parse_uint (2 ^ 8) index) index_not_u8
  reject_if (leb n index_value) index_not_member
  port_value ← parse_nonzero (2 ^ 16) port
  reject_if (length wal_path == 0 || length snapshot_path == 0) empty_path
  reject_if (same_path wal_path snapshot_path) equal_paths
  byzantine ← parse_marker marker
  ok (record {
    epoch = epoch_value;
    index = index_value;
    port = port_value;
    wal_path = wal_path;
    snapshot_path = snapshot_path;
    byzantine = byzantine;
  })
parse_config _ = err argument_count

-- `read_bounded_snapshot`: the file, where it can be read.
unfoldable pub read_bounded_snapshot : Option (List ℕ) → Result NodeError (List ℕ)
read_bounded_snapshot none = err initial_unreadable
read_bounded_snapshot (some bytes) = do
  reject_if (ltb max_frame_len (length bytes)) initial_too_large
  ok bytes

-- What `open` has before it opens the log.
pub record Setup : Type 0 where
  pub committee_hash : Digest
  pub manifest : CommitteeManifest
  pub signing_key : List ℕ
  pub snapshot : Snapshot

module _ (keys : Keys) where
  unfoldable pub set_up : NodeConfig → Option (List ℕ) → Result NodeError Setup
  set_up config initial_file = do
    let manifest = lab_committee keys config.epoch
    committee ← pass_on model_error (committee_hash keys manifest)
    let signing_key = lab_validator_key keys config.epoch config.index
    member ← ok_or (get_elem? manifest.members config.index) missing_index
    reject_if
        (not (member.index == config.index)
          || not (bytes_eq member.public_key (keys.verifying_key signing_key)))
        key_slot_mismatch
    initial_bytes ← read_bounded_snapshot initial_file
    initial_state ← pass_on wire_error (decode_state initial_bytes)
    validate_state_shape keys initial_state
    validate_pure_genesis initial_state
    ok (record {
      committee_hash = committee;
      manifest = manifest;
      signing_key = signing_key;
      snapshot = record {
        committee_hash = committee;
        epoch = config.epoch;
        state_root = state_root keys initial_state;
        bytes = initial_bytes;
      };
    })

  -- `if store.lifecycle() == Initialized`
  unfoldable pub activate_if :
      Lifecycle → Io → Setup → WalStore → Result Error PersistOutcome × WalStore
  activate_if initialized io setup store =
      Activate.activate keys.blake3 io
        (genesis_activation_digest keys setup.committee_hash setup.snapshot.epoch
          setup.snapshot.state_root)
        setup.snapshot store
  activate_if active io setup store = (ok PersistOutcome.already_present, store)
  activate_if retired io setup store = (ok PersistOutcome.already_present, store)

  -- The state that the log holds, behind the checks.
  unfoldable pub durable_state : NodeConfig → Setup → WalStore → Result NodeError State
  durable_state config setup store = do
    state ← pass_on wire_error (decode_state store.current_snapshot.bytes)
    validate_state_shape keys state
    reject_if
        (not (bytes_eq store.current_snapshot.committee_hash setup.committee_hash)
          || not (store.current_snapshot.epoch == config.epoch)
          || not (bytes_eq store.current_snapshot.state_root (state_root keys state)))
        wrapper_mismatch
    reconcile_state_with_wal state store
    ok state

  unfoldable pub start_server : NodeConfig → Setup → WalStore → Result NodeError NodeServer
  unfolding durable_state
  start_server config setup store = do
    state ← durable_state config setup store
    ok (record {
      index = config.index;
      byzantine = config.byzantine;
      committee_hash = setup.committee_hash;
      manifest = setup.manifest;
      signing_key = setup.signing_key;
      state = state;
      store = store;
    })

  unfoldable pub open_activated :
      NodeConfig
      → Setup
      → Result Error PersistOutcome × WalStore
      → Result NodeError NodeServer × Disk
  unfolding start_server
  open_activated config setup (err e, store) = (err (store_error e), contents store.file)
  open_activated config setup (ok outcome, store) =
      (start_server config setup store, contents store.file)

  unfoldable pub open_stored :
      NodeConfig → Setup → Io → Result Error WalStore × Disk → Result NodeError NodeServer × Disk
  unfolding open_activated activate_if
  open_stored config setup io (err e, disk) = (err (store_error e), disk)
  open_stored config setup io (ok store, disk) =
      open_activated config setup (activate_if store.lifecycle io setup store)

  unfoldable pub open_set_up :
      NodeConfig → Io → Io → Disk → Result NodeError Setup → Result NodeError NodeServer × Disk
  unfolding open_stored
  open_set_up config provision activation disk (err e) = (err e, disk)
  open_set_up config provision activation disk (ok setup) = open_stored config setup activation (
      open_wal keys.blake3 provision true disk true setup.committee_hash config.epoch
        (some setup.snapshot))

  -- The directory of the log is there and the file opens. `provision` and `activation` say how the
  -- writes of the first two records go, if it comes to them.
  unfoldable pub open_node :
      NodeConfig → Io → Io → Option (List ℕ) → Disk → Result NodeError NodeServer × Disk
  unfolding open_set_up set_up
  open_node config provision activation initial_file disk =
      open_set_up config provision activation disk (set_up config initial_file)
