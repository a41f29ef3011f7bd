-- ===== src/Node/Restart/Ready.antt =====
-- A server of integration001/src/node.rs whose log, memory and state agree, and `open` on its log.
use avangard.Prelude.{ℕ, ◌≡◌, refl, ap, sym, subst, Option, List, bytes_eq_refl, ok, arith}
use avangard.Prelude.Assoc.{Map}
use avangard.Store.Types.{Digest, Snapshot, active, already_present, AppliedRecord, WalStore, Io}
use avangard.Store.Codec.RoundTrip.{IsDigest, IsU64}
use avangard.Store.Open.{contents}
use avangard.Store.Recovery.{IsDurable}
use avangard.Store.Recovery.Runs.{open_durable_as}
use avangard.Model.Types.{State, Keys}
use avangard.Model.Root.{state_root}
use avangard.Wire.States.{decode_state}
use avangard.Wire.States.RoundTrip.{IsTypedState}
use avangard.Node.{NodeServer}
use avangard.Node.Shape.{validate_state_shape}
use avangard.Node.Open.{
  NodeConfig, Setup, set_up, activate_if, durable_state, start_server, open_activated, open_stored,
  open_set_up, open_node,
}
use avangard.Node.Restart.Receipts.{IsReconciled, reconcile-IsReconciled}

-- What a setup says of its identity.
pub record IsSetUp (config : NodeConfig) (setup : Setup) : Type 0 where
  pub committee : IsDigest setup.committee_hash
  pub manifest_epoch : setup.manifest.epoch ≡ config.epoch
  pub width : IsU64 config.epoch

module _ (keys : Keys) (config : NodeConfig) (setup : Setup) where
  -- The server that `open` makes of a state and a store.
  abbrev pub server_of : State → WalStore → NodeServer
  server_of state store = record {
    index = config.index;
    byzantine = config.byzantine;
    committee_hash = setup.committee_hash;
    manifest = setup.manifest;
    signing_key = setup.signing_key;
    state = state;
    store = store;
  }

  -- The snapshot holds the state, and the applications are its receipts.
  pub record IsStored (state : State) (snapshot : Snapshot) (applied : Map Digest AppliedRecord)
      : Type 0 where
    pub typed : IsTypedState state
    pub decoded : decode_state snapshot.bytes ≡ ok state
    pub shape : validate_state_shape keys state ≡ ok tt
    pub committee : snapshot.committee_hash ≡ setup.committee_hash
    pub epoch : snapshot.epoch ≡ config.epoch
    pub root : snapshot.state_root ≡ state_root keys state
    pub receipts : IsReconciled state.applied applied

  pub record IsReady (server : NodeServer) : Type 0 where
    pub made : server ≡ server_of server.state server.store
    pub durable : IsDurable keys.blake3 server.store
    pub lifecycle : server.store.lifecycle ≡ active
    pub store_committee : server.store.committee_hash ≡ setup.committee_hash
    pub store_epoch : server.store.epoch ≡ config.epoch
    pub initial : server.store.initial_snapshot ≡ setup.snapshot
    pub stored : IsStored server.state server.store.current_snapshot server.store.applied

  durable_state-IsStored :
      (state : State) (store : WalStore)
      → IsStored state store.current_snapshot store.applied
      → durable_state keys config setup store ≡ ok state
  unfolding durable_state
  durable_state-IsStored state store s =
      rw (s.decoded, s.shape, reconcile-IsReconciled state store s.receipts)
        (ground (
          arith,
          s.committee,
          s.epoch,
          s.root,
          bytes_eq_refl setup.committee_hash,
          bytes_eq_refl (state_root keys state),
        ))

  pub start_server-IsStored :
      (state : State) (store : WalStore)
      → IsStored state store.current_snapshot store.applied
      → start_server keys config setup store ≡ ok (server_of state store)
  unfolding start_server
  start_server-IsStored state store s = rw (durable_state-IsStored state store s) refl

  activate_if-active :
      (io : Io) (store : WalStore)
      → store.lifecycle ≡ active
      → activate_if keys store.lifecycle io setup store ≡ (ok already_present, store)
  unfolding activate_if
  activate_if-active io store h =
      subst (λ l. activate_if keys l io setup store ≡ (ok already_present, store)) (sym h) refl

  -- A server that is ready is what `open` makes of the file of its log.
  pub reopen-IsReady :
      (hash : (bytes : List ℕ) → IsDigest (keys.blake3 bytes)) (io io' : Io)
      (initial_file : Option (List ℕ)) (server : NodeServer)
      → set_up keys config initial_file ≡ ok setup
      → IsReady server
      → open_node keys config io io' initial_file (contents server.store.file)
        ≡ (ok server, contents server.store.file)
  unfolding open_node open_set_up open_stored open_activated
  reopen-IsReady hash io io' initial_file server set r =
      let opened =
        (open_durable_as keys.blake3 hash io server.store setup.committee_hash config.epoch
          setup.snapshot r.durable r.store_committee r.store_epoch r.initial).1 in
      rw
        (
          set,
          opened,
          activate_if-active io' server.store r.lifecycle,
          start_server-IsStored server.state server.store r.stored,
        )
        (ap (λ s. (ok s, contents server.store.file)) (sym r.made))
