-- ===== src/Node/Restart/Typed.antt =====
-- `State::apply_finalized` of integration001/src/model.rs keeps a state within its Rust types.
use avangard.Prelude.{
  ℕ, ◌+◌, ◌≡◌, sym, subst, List, [], ◌∷◌, ◌++◌, map, All, ok, arith, inl, inr, Result-cases,
}
use avangard.Prelude.Bytes.{codes}
use avangard.Prelude.Tree.{remove, tree_insert, bytes_has_lt}
use avangard.Prelude.Tree.Order.{
  All-remove, All-tree_insert, tree_insert-IsOrdered, remove-IsOrdered,
}
use avangard.Prelude.Assoc.{bytes_has_eq}
use avangard.Store.Types.{Digest}
use avangard.Store.Codec.RoundTrip.{IsDigest}
use avangard.Store.Record.Framing.{IsHash}
use avangard.Model.Types.{
  CommitteeManifest, CellRef, Cell, Output, Tx, UserAuth, Vote, Qc, State, ApplyOutcome, Keys,
  put_u32, hash_domain, cell_ref_has_eq, cell_ref_has_lt,
}
use avangard.Model.Transaction.{tx_bytes, compute_cell_digest, intent_hash}
use avangard.Model.Certificate.{qc_bytes, qc_digest, qc_digest_of}
use avangard.Model.Ledger.{
  output_ref, fee_collector, effects_of, output_cells, output_cell, materialize_outputs,
  add_outputs,
}
use avangard.Model.Root.{state_root}
use avangard.Model.Ledger.Settles.{Settles}
use avangard.Wire.Messages.Typed.{IsTypedRef, IsTypedCell, IsTypedOutput, IsTypedTx, IsTypedReceipt}
use avangard.Wire.States.RoundTrip.{
  IsTypedState, IsTypedLive, IsTypedSpent, IsTypedKnown, IsTypedApplied,
}

-- BLAKE3 and public keys have 32 bytes.
pub record IsKeyed (keys : Keys) : Type 0 where
  pub hash : IsHash keys.blake3
  pub key : (seed : List ℕ) → IsDigest (keys.verifying_key seed)

All-map_reference :
    (cells : List Cell)
    → All IsTypedCell cells
    → All IsTypedRef (map (λ cell. cell.reference) cells)
All-map_reference [] all = tt
All-map_reference (cell ∷ cells) (t, all) = (t.reference, All-map_reference cells all)

All-snoc :
    (outputs : List Output) (last : Output)
    → All IsTypedOutput outputs
    → IsTypedOutput last
    → All IsTypedOutput (outputs ++ (last ∷ []))
All-snoc [] last all t = (t, tt)
All-snoc (output ∷ outputs) last (first, all) t = (first, All-snoc outputs last all t)

add_outputs-IsTypedState :
    (cells : List Cell) (state : State)
    → All IsTypedCell cells
    → IsTypedState state
    → IsTypedState (add_outputs cells state)
unfolding add_outputs
add_outputs-IsTypedState [] state all t = t
add_outputs-IsTypedState (cell ∷ cells) state (first, all) t =
    add_outputs-IsTypedState cells _ all (record {
      live = All-tree_insert IsTypedLive cell.reference cell state.live first t.live;
      spent_by = t.spent_by;
      known_ids =
          All-tree_insert IsTypedKnown cell.reference.id tt state.known_ids first.reference.id
            t.known_ids;
      applied = t.applied;
      live_order = tree_insert-IsOrdered cell.reference cell state.live t.live_order;
      spent_order = t.spent_order;
      known_order = tree_insert-IsOrdered cell.reference.id tt state.known_ids t.known_order;
      applied_order = t.applied_order;
    })

module _ (keys : Keys) (keyed : IsKeyed keys) where
  pub intent_hash-IsDigest :
      (tx : Tx) (intent : Digest) → intent_hash keys tx ≡ ok intent → IsDigest intent
  unfolding intent_hash hash_domain
  intent_hash-IsDigest tx intent h = elim (Result-cases (tx_bytes tx)) [
    | inr (x, refused) ↦ absurd (ground arith)
    | inl (bytes, made) ↦
        subst IsDigest (ground arith)
          (keyed.hash (codes "CALIBRE_INTEGRATION001_TX_INTENT_V1" ++ bytes))
  ]

  qc_digest_of-IsDigest :
      (votes : List Vote) (manifest : CommitteeManifest) (digest : Digest)
      → qc_digest_of keys votes manifest ≡ ok digest
      → IsDigest digest
  unfolding qc_digest_of hash_domain
  qc_digest_of-IsDigest [] manifest digest h = absurd (ground arith)
  qc_digest_of-IsDigest (first ∷ votes) manifest digest h =
      subst IsDigest (ground arith)
        (keyed.hash (codes "CALIBRE_INTEGRATION001_QC_V1" ++ qc_bytes keys first (first ∷ votes)))

  pub qc_digest-IsDigest :
      (qc : Qc) (manifest : CommitteeManifest) (digest : Digest)
      → qc_digest keys qc manifest ≡ ok digest
      → IsDigest digest
  unfolding qc_digest
  qc_digest-IsDigest qc manifest digest h = qc_digest_of-IsDigest qc.votes manifest digest h

  output_ref-IsTypedRef :
      (tx : Tx) (index : ℕ) (reference : CellRef)
      → IsTypedTx tx
      → output_ref keys tx index ≡ ok reference
      → IsTypedRef reference
  unfolding output_ref hash_domain
  output_ref-IsTypedRef tx index reference t h = elim (Result-cases (intent_hash keys tx)) [
    | inr (x, refused) ↦ absurd (ground arith)
    | inl (intent, made) ↦
        let generation = tx.input.reference.generation + 1 in
        let id =
          keys.blake3 (codes "CALIBRE_INTEGRATION001_OUTPUT_REF_V1" ++ (intent ++ put_u32 index)) in
        subst IsTypedRef
          {x = record { asset_id = tx.input.reference.asset_id; id = id; generation = generation }}
          (ground arith)
          (record {
            asset_id = t.input.reference.asset_id;
            id = keyed.hash _;
            generation = ground arith;
          })
  ]

  output_cells-IsTypedCell :
      (tx : Tx) (index : ℕ) (outputs : List Output) (cells : List Cell)
      → IsTypedTx tx
      → All IsTypedOutput outputs
      → output_cells keys tx index outputs ≡ ok cells
      → All IsTypedCell cells
  unfolding output_cells compute_cell_digest hash_domain
  output_cells-IsTypedCell tx index [] cells t all h =
      subst (All IsTypedCell) {x = []} (ground arith) tt
  output_cells-IsTypedCell tx index (output ∷ outputs) cells t (first, all) h =
      elim (Result-cases (output_ref keys tx index)) [
        | inr (x, refused) ↦ absurd (ground arith)
        | inl (reference, made) ↦ elim (Result-cases (output_cells keys tx (index + 1) outputs)) [
          | inr (x, refused) ↦ absurd (ground arith)
          | inl (rest, others) ↦
              subst (All IsTypedCell) {x = output_cell keys tx reference output ∷ rest}
                (ground arith)
                (
                  record {
                    reference = output_ref-IsTypedRef tx index reference t made;
                    amount = first.amount;
                    owner = first.owner;
                    predecessor = t.input.state_digest;
                    state_digest = keyed.hash _;
                  },
                  output_cells-IsTypedCell tx (index + 1) outputs rest t all others,
                )
        ]
      ]

  materialize_outputs-IsTypedCell :
      (tx : Tx) (cells : List Cell)
      → IsTypedTx tx
      → materialize_outputs keys tx ≡ ok cells
      → All IsTypedCell cells
  unfolding materialize_outputs effects_of fee_collector
  materialize_outputs-IsTypedCell tx cells t h =
      output_cells-IsTypedCell tx 0 _ cells t
        (All-snoc tx.outputs _ t.outputs
          (record { asset_id = t.input.reference.asset_id; amount = t.fee; owner = keyed.key _ }))
        h

  -- A new apply of a typed transaction leaves a typed receipt and a typed state.
  pub Settles-IsTypedState :
      (tx : Tx) (auth : UserAuth) (manifest : CommitteeManifest) (intent : Digest) (state : State)
      (outcome : ApplyOutcome) (next : State)
      → IsTypedTx tx
      → IsTypedState state
      → IsDigest intent
      → Settles keys tx auth manifest intent state outcome next
      → IsTypedState next
  Settles-IsTypedState tx auth manifest intent state outcome next t s i c =
      let cells = materialize_outputs-IsTypedCell tx c.outputs t c.made in
      let spent : State = record state {
        live = remove tx.input.reference state.live;
        spent_by = tree_insert tx.input.reference intent state.spent_by;
      } in
      let a = add_outputs-IsTypedState c.outputs spent cells (record {
        live = All-remove IsTypedLive tx.input.reference state.live s.live;
        spent_by =
            All-tree_insert IsTypedSpent tx.input.reference intent state.spent_by
              (t.input.reference, i) s.spent_by;
        known_ids = s.known_ids;
        applied = s.applied;
        live_order = remove-IsOrdered tx.input.reference state.live s.live_order;
        spent_order = tree_insert-IsOrdered tx.input.reference intent state.spent_by s.spent_order;
        known_order = s.known_order;
        applied_order = s.applied_order;
      }) in
      let (qc, certified) = c.certificate in
      let receipt : IsTypedReceipt c.receipt = record {
        intent = subst IsDigest (sym c.receipt_intent) i;
        certificate_digest = qc_digest-IsDigest qc manifest c.receipt.certificate_digest certified;
        output_refs =
            subst (All IsTypedRef) (sym c.receipt_refs) (All-map_reference c.outputs cells);
      } in
      subst IsTypedState (sym c.next_is) (record {
        live = a.live;
        spent_by = a.spent_by;
        known_ids = a.known_ids;
        applied = All-tree_insert IsTypedApplied intent c.receipt _ receipt a.applied;
        live_order = a.live_order;
        spent_order = a.spent_order;
        known_order = a.known_order;
        applied_order = tree_insert-IsOrdered intent c.receipt _ a.applied_order;
      })

  pub state_root-IsDigest : (state : State) → IsDigest (state_root keys state)
  unfolding state_root hash_domain
  state_root-IsDigest state = keyed.hash _
