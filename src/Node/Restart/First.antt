-- ===== src/Node/Restart/First.antt =====
-- The first `NodeServer::open` of integration001/src/node.rs, where no log is.
use avangard.Prelude.{
  ℕ, ◌≡◌, refl, ap, sym, subst, true, some, List, [], ◌∷◌, length, ◌++◌, ok, arith, inl, inr,
  Result-cases,
}
use avangard.Prelude.Bytes.{codes}
use avangard.Store.Types.{Digest, persisted, WalStore, done, snapshot_eq_refl}
use avangard.Store.Codec.{validate_snapshot}
use avangard.Store.Codec.RoundTrip.{IsDigest, IsU64, IsWide, snapshot_bytes}
use avangard.Store.Record.{record_bytes}
use avangard.Store.Types.{kind_initialize}
use avangard.Store.Open.{Disk, contents, not_found, fresh_store, open_wal}
use avangard.Store.Append.{ensure_healthy}
use avangard.Store.Activate.{activate, activate_by}
use avangard.Store.Recovery.{HasWidths, validated-IsWide, IsDurable}
use avangard.Store.Recovery.Activate.{after_activate, activate_commit_done, activate-IsDurable}
use avangard.Store.Recovery.Runs.{open_fresh, fresh-IsDurable, open_validates}
use avangard.Model.Types.{
  CommitteeManifest, State, Keys, hash_domain, protocol_version, put_u16, put_u32, put_u64,
}
use avangard.Model.Manifest.{committee_hash, lab_committee, member_bytes}
use avangard.Model.Root.{state_root}
use avangard.Wire.States.{decode_state}
use avangard.Wire.States.RoundTrip.{IsTypedState}
use avangard.Node.{NodeServer}
use avangard.Node.Shape.{validate_state_shape, validate_pure_genesis, genesis_activation_digest}
use avangard.Node.Open.{
  NodeConfig, Setup, set_up, read_bounded_snapshot, activate_if, open_activated, open_stored,
  open_set_up, open_node,
}
use avangard.Node.Restart.Typed.{IsKeyed, state_root-IsDigest}
use avangard.Node.Restart.Receipts.{IsReconciled, IsReconciled-empty}
use avangard.Node.Restart.Ready.{IsSetUp, IsStored, IsReady, server_of, start_server-IsStored}

module _ (keys : Keys) (config : NodeConfig) where
  -- What `set_up` found in the file of a state.
  record HasGenesis (genesis : State) (file : List ℕ) (setup : Setup) : Type 0 where
    committee : committee_hash keys setup.manifest ≡ ok setup.committee_hash
    manifest : setup.manifest ≡ lab_committee keys config.epoch
    shape : validate_state_shape keys genesis ≡ ok tt
    pure : validate_pure_genesis genesis ≡ ok tt
    snapshot_committee : setup.snapshot.committee_hash ≡ setup.committee_hash
    snapshot_epoch : setup.snapshot.epoch ≡ config.epoch
    root : setup.snapshot.state_root ≡ state_root keys genesis
    bytes : setup.snapshot.bytes ≡ file

  set_up-HasGenesis :
      (genesis : State) (file : List ℕ) (setup : Setup)
      → decode_state file ≡ ok genesis
      → set_up keys config (some file) ≡ ok setup
      → HasGenesis genesis file setup
  unfolding set_up read_bounded_snapshot
  set_up-HasGenesis genesis file setup d h =
      elim (Result-cases (committee_hash keys (lab_committee keys config.epoch))) [
        | inr (x, e) ↦ absurd (ground arith)
        | inl (digest, e) ↦ record {
          committee = ground arith;
          manifest = ground arith;
          shape = ground arith;
          pure = ground arith;
          snapshot_committee = ground arith;
          snapshot_epoch = ground arith;
          root = ground arith;
          bytes = ground arith;
        }
      ]

  committee_hash-IsDigest :
      (keyed : IsKeyed keys) (manifest : CommitteeManifest) (digest : Digest)
      → committee_hash keys manifest ≡ ok digest
      → IsDigest digest
  unfolding committee_hash hash_domain
  committee_hash-IsDigest keyed manifest digest h =
      let bytes =
        put_u16 protocol_version
        ++ (put_u32 manifest.network_id
            ++ (put_u64 manifest.epoch
                ++ (manifest.threshold
                    ∷ (put_u32 (length manifest.members)
                        ++ member_bytes keys manifest.members)))) in
      subst IsDigest (ground arith)
        (keyed.hash (codes "CALIBRE_INTEGRATION001_COMMITTEE_V1" ++ bytes))

  empty_of_length {ℓ} : {A : Type ℓ} (xs : List A) → length xs ≡ 0 → xs ≡ []
  empty_of_length [] h = refl
  empty_of_length (x ∷ xs) h = absurd (omega arith)

  pub set_up-IsSetUp :
      (keyed : IsKeyed keys) (genesis : State) (file : List ℕ) (setup : Setup)
      → IsU64 config.epoch
      → decode_state file ≡ ok genesis
      → set_up keys config (some file) ≡ ok setup
      → IsSetUp config setup
  unfolding lab_committee
  set_up-IsSetUp keyed genesis file setup width d h =
      let found = set_up-HasGenesis genesis file setup d h in
      record {
        committee =
            committee_hash-IsDigest keyed setup.manifest setup.committee_hash found.committee;
        manifest_epoch = ap (λ m. m.epoch) found.manifest;
        width = width;
      }

  pure_genesis-empty :
      (genesis : State) → validate_pure_genesis genesis ≡ ok tt → genesis.applied ≡ []
  unfolding validate_pure_genesis
  pure_genesis-empty genesis h = empty_of_length genesis.applied (ground arith)

module _ (keys : Keys) (keyed : IsKeyed keys) (config : NodeConfig) (setup : Setup) where
  abbrev handoff : Digest
  handoff =
      genesis_activation_digest keys setup.committee_hash setup.snapshot.epoch
        setup.snapshot.state_root

  abbrev fresh : WalStore
  fresh =
      fresh_store (record_bytes keys.blake3 0 kind_initialize (snapshot_bytes setup.snapshot))
        setup.committee_hash config.epoch setup.snapshot

  activated :
      IsWide setup.snapshot
      → validate_snapshot setup.snapshot setup.committee_hash config.epoch ≡ ok tt
      → activate keys.blake3 done handoff setup.snapshot fresh
        ≡ (ok persisted, after_activate keys.blake3 keyed.hash fresh handoff setup.snapshot)
  unfolding activate activate_by ensure_healthy genesis_activation_digest hash_domain
  activated wide hv =
      rw (hv, snapshot_eq_refl setup.snapshot)
        (activate_commit_done keys.blake3 keyed.hash fresh handoff setup.snapshot (keyed.hash _)
          wide (omega arith))

  IsStored-genesis :
      (genesis : State) (file : List ℕ)
      → IsTypedState genesis
      → decode_state file ≡ ok genesis
      → HasGenesis keys config genesis file setup
      → IsStored keys config setup genesis setup.snapshot []
  IsStored-genesis genesis file t d g = record {
    typed = t;
    decoded = subst (λ b. decode_state b ≡ ok genesis) (sym g.bytes) d;
    shape = g.shape;
    committee = g.snapshot_committee;
    epoch = g.snapshot_epoch;
    root = g.root;
    receipts =
        subst (λ m. IsReconciled m []) (sym (pure_genesis-empty keys config genesis g.pure))
          IsReconciled-empty;
  }

  -- `open` on a missing log.
  open_first :
      (genesis : State) (file : List ℕ)
      → set_up keys config (some file) ≡ ok setup
      → IsWide setup.snapshot
      → validate_snapshot setup.snapshot setup.committee_hash config.epoch ≡ ok tt
      → IsStored keys config setup genesis setup.snapshot []
      → let store = after_activate keys.blake3 keyed.hash fresh handoff setup.snapshot in
        open_node keys config done done (some file) not_found
        ≡ (ok (server_of keys config setup genesis store), contents store.file)
  unfolding open_node open_set_up open_stored open_activated activate_if
  open_first genesis file set wide hv stored =
      let store = after_activate keys.blake3 keyed.hash fresh handoff setup.snapshot in
      rw
        (
          set,
          open_fresh keys.blake3 keyed.hash setup.committee_hash config.epoch setup.snapshot wide
              hv,
          activated wide hv,
        )
        (ap (λ s. (s, contents store.file))
          (start_server-IsStored keys config setup genesis store stored))

  first_validates :
      (file : List ℕ) {server : NodeServer} {disk : Disk}
      → set_up keys config (some file) ≡ ok setup
      → open_node keys config done done (some file) not_found ≡ (ok server, disk)
      → validate_snapshot setup.snapshot setup.committee_hash config.epoch ≡ ok tt
  unfolding open_node open_set_up open_stored
  first_validates file {server} {disk} set h =
      let opened =
        open_wal keys.blake3 done true not_found true setup.committee_hash config.epoch
          (some setup.snapshot) in
      elim (Result-cases opened.0) [
        | inl (s, e) ↦
            open_validates keys.blake3 keyed.hash setup.committee_hash config.epoch setup.snapshot
              {s = s} {disk = opened.1} (ap (λ x. (x, opened.1)) e)
        | inr (x, e) ↦ absurd (ground arith)
      ]

  activated-IsDurable :
      HasWidths setup.snapshot
      → IsWide setup.snapshot
      → validate_snapshot setup.snapshot setup.committee_hash config.epoch ≡ ok tt
      → IsDurable keys.blake3 (after_activate keys.blake3 keyed.hash fresh handoff setup.snapshot)
  unfolding genesis_activation_digest hash_domain
  activated-IsDurable widths wide hv =
      let same = ap (λ r. r.1) (activated wide hv) in
      subst (IsDurable keys.blake3) same (
        activate-IsDurable keys.blake3 keyed.hash fresh handoff setup.snapshot
          (fresh-IsDurable keys.blake3 keyed.hash setup.committee_hash config.epoch setup.snapshot
            wide hv)
          (keyed.hash _) widths (omega arith))

  -- A first `open` that succeeds leaves a server that is ready, behind two records.
  pub first-IsReady :
      (genesis : State) (file : List ℕ) {server : NodeServer} {disk : Disk}
      → IsU64 config.epoch
      → IsTypedState genesis
      → decode_state file ≡ ok genesis
      → set_up keys config (some file) ≡ ok setup
      → open_node keys config done done (some file) not_found ≡ (ok server, disk)
      → IsReady keys config setup server × (server.store.next_sequence ≡ 2)
  first-IsReady genesis file {server} {disk} width t d set h =
      let g = set_up-HasGenesis keys config genesis file setup d set in
      let s = set_up-IsSetUp keys config keyed genesis file setup width d set in
      let hv = first_validates file set h in
      let widths : HasWidths setup.snapshot = record {
        committee_hash = subst IsDigest (sym g.snapshot_committee) s.committee;
        epoch = subst IsU64 (sym g.snapshot_epoch) width;
        state_root = subst IsDigest (sym g.root) (state_root-IsDigest keys keyed genesis);
      } in
      let wide = validated-IsWide setup.snapshot setup.committee_hash config.epoch widths hv in
      let stored = IsStored-genesis genesis file t d g in
      let store = after_activate keys.blake3 keyed.hash fresh handoff setup.snapshot in
      let opened = open_first genesis file set wide hv stored in
      subst (λ t. IsReady keys config setup t × (t.store.next_sequence ≡ 2))
        {x = server_of keys config setup genesis store} (ground arith)
        (
          record {
            made = refl;
            durable = activated-IsDurable widths wide hv;
            lifecycle = refl;
            store_committee = refl;
            store_epoch = refl;
            initial = refl;
            stored = stored;
          },
          refl,
        )
