-- ===== src/Node/Restart/Apply.antt =====
-- An application of integration001/src/node.rs keeps the log, the memory and the state of the server
-- together.
use avangard.Prelude.{
  ℕ, ◌<◌, ◌≡◌, refl, ap, sym, subst, ◌∙◌, false, none, List, ok, err, arith, inl, inr, Result-cases,
  bytes_eq,
}
use avangard.Prelude.Assoc.{lookup, bytes_has_eq}
use avangard.Prelude.Tree.{tree_insert, bytes_has_lt}
use avangard.Store.Types.{
  Digest, Snapshot, active, Error, PersistOutcome, persisted, WalStore, Io, u64_max, done,
}
use avangard.Store.Codec.{validate_snapshot}
use avangard.Store.Codec.RoundTrip.{IsDigest, IsU64}
use avangard.Store.Apply.{apply_verified, apply_by, apply_commit}
use avangard.Store.Append.{ensure_healthy}
use avangard.Store.Recovery.{HasWidths, validated-IsWide}
use avangard.Store.Recovery.Apply.{entry, apply_commit_done, apply_verified-IsDurable}
use avangard.Store.Recovery.Apply as Commit
use avangard.Model.Types.{CommitteeManifest, Tx, UserAuth, State, ApplyOutcome, Keys}
use avangard.Model.Ledger.Apply.{add_outputs_keeps}
use avangard.Model.Ledger.Settles.{Settles}
use avangard.Model.Root.{state_root}
use avangard.Wire.Messages.Typed.{IsTypedTx}
use avangard.Wire.States.{encode_state}
use avangard.Wire.States.RoundTrip.{decode-encode_state}
use avangard.Node.{NodeServer}
use avangard.Node.Shape.{validate_state_shape}
use avangard.Node.Apply.{snapshot_of, after_apply, persist_state}
use avangard.Node.Open.{NodeConfig, Setup}
use avangard.Node.Restart.Typed.{
  IsKeyed, qc_digest-IsDigest, state_root-IsDigest, Settles-IsTypedState,
}
use avangard.Node.Restart.Receipts.{IsReconciled, insert-IsReconciled}
use avangard.Node.Restart.Ready.{IsSetUp, IsReady}

module _ (blake3 : List ℕ → Digest) where
  -- A new application that is accepted was committed.
  accepted :
      (io : Io) (s : WalStore) (tx certificate : Digest) (next : Snapshot)
      (outcome : PersistOutcome)
      → lookup tx s.applied ≡ none
      → (apply_verified blake3 io tx certificate next s).0 ≡ ok outcome
      → (s.lifecycle ≡ active)
        × (validate_snapshot next s.committee_hash s.epoch ≡ ok tt)
        × (bytes_eq next.state_root s.current_snapshot.state_root ≡ false)
        × (apply_verified blake3 io tx certificate next s
            ≡ apply_commit blake3 io tx certificate next s)
  unfolding apply_verified apply_by apply_commit ensure_healthy
  accepted io s tx certificate next outcome new h =
      (ground arith, ground arith, ground arith, ground arith)

module _ (keys : Keys) where
  -- What `snapshot_of` found.
  record IsSnapshot (server : NodeServer) (next : State) (snapshot : Snapshot) : Type 0 where
    shape : validate_state_shape keys next ≡ ok tt
    encoded : encode_state next ≡ ok snapshot.bytes
    committee : snapshot.committee_hash ≡ server.committee_hash
    epoch : snapshot.epoch ≡ server.manifest.epoch
    root : snapshot.state_root ≡ state_root keys next

  snapshot_of-IsSnapshot :
      (server : NodeServer) (next : State) (snapshot : Snapshot)
      → snapshot_of keys server next ≡ ok snapshot
      → IsSnapshot server next snapshot
  unfolding snapshot_of
  snapshot_of-IsSnapshot server next snapshot h =
      elim (Result-cases (validate_state_shape keys next)) [
        | inr (x, e) ↦ absurd (ground arith)
        | inl (u, e) ↦ elim (Result-cases (encode_state next)) [
          | inr (x, e') ↦ absurd (ground arith)
          | inl (bytes, e') ↦ record {
            shape = ground arith;
            encoded = ground arith;
            committee = ground arith;
            epoch = ground arith;
            root = ground arith;
          }
        ]
      ]

  Settles-applied :
      (tx : Tx) (auth : UserAuth) (manifest : CommitteeManifest) (intent : Digest) (state : State)
      (outcome : ApplyOutcome) (next : State)
      (c : Settles keys tx auth manifest intent state outcome next)
      → next.applied ≡ tree_insert intent c.receipt state.applied
  Settles-applied tx auth manifest intent state outcome next c =
      rw (c.next_is, (add_outputs_keeps c.outputs _).1) refl

  Settles-certificate :
      (keyed : IsKeyed keys) (tx : Tx) (auth : UserAuth) (manifest : CommitteeManifest)
      (intent : Digest) (state : State) (outcome : ApplyOutcome) (next : State)
      (c : Settles keys tx auth manifest intent state outcome next)
      → IsDigest c.receipt.certificate_digest
  Settles-certificate keyed tx auth manifest intent state outcome next c =
      let (qc, certified) = c.certificate in
      qc_digest-IsDigest keys keyed qc manifest c.receipt.certificate_digest certified

  snapshot_identity :
      (config : NodeConfig) (setup : Setup) (server : NodeServer) (next : State)
      (snapshot : Snapshot)
      → IsSetUp config setup
      → IsSnapshot server next snapshot
      → IsReady keys config setup server
      → (snapshot.committee_hash ≡ setup.committee_hash) × (snapshot.epoch ≡ config.epoch)
  snapshot_identity config setup server next snapshot set s r = (
    s.committee ∙ ap (λ x. x.committee_hash) r.made,
    s.epoch ∙ ap (λ x. x.manifest.epoch) r.made ∙ set.manifest_epoch,
  )

  snapshot-HasWidths :
      (keyed : IsKeyed keys) (config : NodeConfig) (setup : Setup) (server : NodeServer)
      (next : State) (snapshot : Snapshot)
      → IsSetUp config setup
      → IsSnapshot server next snapshot
      → IsReady keys config setup server
      → HasWidths snapshot
  snapshot-HasWidths keyed config setup server next snapshot set s r =
      let (committee, epoch) = snapshot_identity config setup server next snapshot set s r in
      record {
        committee_hash = subst IsDigest (sym committee) set.committee;
        epoch = subst IsU64 (sym epoch) set.width;
        state_root = subst IsDigest (sym s.root) (state_root-IsDigest keys keyed next);
      }

  -- The application that the log took, in memory.
  committed-IsReady :
      (keyed : IsKeyed keys) (config : NodeConfig) (setup : Setup) (server : NodeServer) (tx : Tx)
      (auth : UserAuth) (intent : Digest) (outcome : ApplyOutcome) (next : State)
      (snapshot : Snapshot) (saved : PersistOutcome)
      (c : Settles keys tx auth server.manifest intent server.state outcome next)
      → IsSetUp config setup
      → IsTypedTx tx
      → IsDigest intent
      → lookup intent server.state.applied ≡ none
      → IsSnapshot server next snapshot
      → server.store.next_sequence < u64_max
      → IsReady keys config setup server
      → (apply_verified keys.blake3 done intent c.receipt.certificate_digest snapshot
          server.store).0
        ≡ ok saved
      → (apply_verified keys.blake3 done intent c.receipt.certificate_digest snapshot server.store
          ≡ (
            ok persisted,
            Commit.after_apply keys.blake3 keyed.hash server.store intent
                c.receipt.certificate_digest snapshot,
          ))
        × IsReady keys config setup (record server {
          state = next;
          store =
              Commit.after_apply keys.blake3 keyed.hash server.store intent
                c.receipt.certificate_digest snapshot;
        })
  committed-IsReady keyed config setup server tx auth intent outcome next snapshot saved c set t i
        new s fits r h =
      let store = server.store in
      let certificate = c.receipt.certificate_digest in
      let absent = r.stored.receipts.complete intent new in
      let (hl, hv, ha, e) =
        accepted keys.blake3 done store intent certificate snapshot saved absent h in
      let hc =
        Settles-certificate keyed tx auth server.manifest intent server.state outcome next c in
      let (committee, epoch) = snapshot_identity config setup server next snapshot set s r in
      let widths = snapshot-HasWidths keyed config setup server next snapshot set s r in
      let wide = validated-IsWide snapshot store.committee_hash store.epoch widths hv in
      let written =
        e
        ∙ apply_commit_done keys.blake3 keyed.hash store intent certificate snapshot i hc
            r.durable.wide.state_root wide fits hl ha in
      let durable =
        apply_verified-IsDurable keys.blake3 keyed.hash store intent certificate snapshot r.durable
          i hc widths fits in
      let typed =
        Settles-IsTypedState keys keyed tx auth server.manifest intent server.state outcome next t
          r.stored.typed i c in
      let last = Commit.after_apply keys.blake3 keyed.hash store intent certificate snapshot in
      (
        written,
        record {
          made = ap {A = NodeServer} (λ s. record s { state = next; store = last }) r.made;
          durable = rw written at durable;
          lifecycle = r.lifecycle;
          store_committee = r.store_committee;
          store_epoch = r.store_epoch;
          initial = r.initial;
          stored = record {
            typed = typed;
            decoded = decode-encode_state next snapshot.bytes typed s.encoded;
            shape = s.shape;
            committee = committee;
            epoch = epoch;
            root = s.root;
            receipts =
                subst (λ m. IsReconciled m last.applied)
                  (sym (Settles-applied tx auth server.manifest intent server.state outcome next c))
                  (insert-IsReconciled intent c.receipt
                    (entry intent certificate store.current_snapshot.state_root snapshot)
                    server.state.applied store.applied new refl r.stored.receipts);
          };
        },
      )

  module _ (keyed : IsKeyed keys) (config : NodeConfig) (setup : Setup) where
    -- A refused application leaves the log.
    refused :
        (server : NodeServer) (intent certificate : Digest) (snapshot : Snapshot) (x : Error)
        → IsDigest intent
        → IsDigest certificate
        → HasWidths snapshot
        → server.store.next_sequence < u64_max
        → IsReady keys config setup server
        → (apply_verified keys.blake3 done intent certificate snapshot server.store).0 ≡ err x
        → (apply_verified keys.blake3 done intent certificate snapshot server.store).1
          ≡ server.store
    refused server intent certificate snapshot x i hc hw fits r h =
        elim (Commit.apply_cases keys.blake3 keyed.hash done server.store intent certificate
          snapshot) [
            | inl same ↦ same
            | inr (hl, hv, hz, hf, ha, e) ↦
                let wide =
                  validated-IsWide snapshot server.store.committee_hash server.store.epoch hw hv in
                absurd (
                  ground (
                    arith,
                    e,
                    apply_commit_done keys.blake3 keyed.hash server.store intent certificate
                        snapshot i hc r.durable.wide.state_root wide fits hl ha,
                  ))
          ]

    pub settle-IsReady :
        (server : NodeServer) (tx : Tx) (auth : UserAuth) (intent : Digest) (next : State)
        (outcome : ApplyOutcome)
        (c : Settles keys tx auth server.manifest intent server.state outcome next)
        → IsSetUp config setup
        → IsTypedTx tx
        → IsDigest intent
        → lookup intent server.state.applied ≡ none
        → server.store.next_sequence < u64_max
        → IsReady keys config setup server
        → IsReady keys config setup
            (persist_state keys done server next c.receipt (snapshot_of keys server next)).1
    unfolding persist_state after_apply
    settle-IsReady server tx auth intent next outcome c set t i new fits r =
        elim (Result-cases (snapshot_of keys server next)) [
          | inr (x, e) ↦ subst (IsReady keys config setup) (ground arith) r
          | inl (snapshot, e) ↦
              let s = snapshot_of-IsSnapshot server next snapshot e in
              let saved =
                apply_verified keys.blake3 done intent c.receipt.certificate_digest snapshot
                  server.store in
              elim (Result-cases saved.0) [
                | inr (x, h) ↦
                    let same =
                      refused server intent c.receipt.certificate_digest snapshot x i
                        (Settles-certificate keyed tx auth server.manifest intent server.state
                          outcome next c)
                        (snapshot-HasWidths keyed config setup server next snapshot set s r) fits r
                        h in
                    subst (IsReady keys config setup) (ground (arith, e, c.receipt_intent, same, h))
                      r
                | inl (outcome', h) ↦
                    let (written, ready) =
                      committed-IsReady keyed config setup server tx auth intent outcome next
                        snapshot outcome' c set t i new s fits r h in
                    subst (IsReady keys config setup) (ground (arith, e, c.receipt_intent, written))
                      ready
              ]
        ]
