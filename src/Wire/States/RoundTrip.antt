-- ===== src/Wire/States/RoundTrip.antt =====
-- States and snapshots of integration001/src/wire.rs come back from their encodings.
use avangard.Prelude.{
  ℕ, suc, ◌≡◌, sym, subst, List, [], ◌∷◌, ◌++◌, eq_of_bytes_eq, length, All, Result, ok, arith, inl,
  inr, Result-cases,
}
use mathlib.Core.List.{append_assoc, append-nil}
use avangard.Prelude.Assoc.{Eq, Map, bytes_has_eq}
use avangard.Prelude.Tree.{Lt, bytes_has_lt}
use avangard.Prelude.Tree.Order.{IsOrdered, behind-contains, behind-tree_insert, IsOrdered-IsBehind}
use avangard.Store.Types.{Digest}
use avangard.Store.Codec.RoundTrip.{IsDigest}
use avangard.Model.Types.{
  CellRef, Cell, ApplyReceipt, State, cell_ref_eq_iff, cell_ref_has_eq, cell_ref_has_lt,
}
use avangard.Wire.Codec.{WireError, Take, pure_take, put_all, put_bounded_count, max_collection_len}
use avangard.Wire.Reads.{
  Reads, Reads-then, Reads-last, Reads-pure, Reads-raw, Reads-bounded_count, decode_exact-Reads,
}
use avangard.Wire.Messages.{put_cell_ref, put_cell}
use avangard.Wire.Messages.Typed.{IsTypedRef, IsTypedCell, IsTypedReceipt}
use avangard.Wire.Messages.RoundTrip.{Reads-cell_ref, Reads-cell, Reads-apply_receipt}
use avangard.Wire.States.{
  put_collection, take_entries, take_collection, put_live_entry, take_live_entry, put_spent_entry,
  take_spent_entry, put_known_entry, take_known_entry, put_applied_entry, take_applied_entry,
  put_state, take_state, encode_state, decode_state,
}

module _ {ℓ κ μ} {K : Type ℓ} {V : Type κ} ⦃e : Eq K⦄ ⦃o : Lt K⦄ (item : Take (K × V))
    (put : K × V → Result WireError (List ℕ)) (duplicate : WireError) (P : K × V → Type μ)
    (reads : (entry : K × V) (bytes : List ℕ)
      → P entry
      → put entry ≡ ok bytes
      → Reads item bytes entry) where
  Reads-entries :
      (m entries : Map K V) (bytes : List ℕ)
      → IsOrdered (m ++ entries)
      → All P entries
      → put_all put entries ≡ ok bytes
      → Reads (take_entries item duplicate m (length entries)) bytes (m ++ entries)
  unfolding put_all take_entries
  Reads-entries m [] bytes ordered all h =
      subst (λ t. Reads (take_entries item duplicate m 0) t (m ++ [])) {x = []} (ground arith)
        (subst (λ t. Reads (pure_take m) [] t) (sym (append-nil m)) Reads-pure)
  Reads-entries m ((k, v) ∷ entries) bytes ordered (p, all) h = elim (Result-cases (put (k, v))) [
    | inr (x, refused) ↦ absurd (ground arith)
    | inl (xs, first) ↦ elim (Result-cases (put_all put entries)) [
      | inr (x, refused) ↦ absurd (ground arith)
      | inl (ys, others) ↦
          let behind = IsOrdered-IsBehind m k v entries ordered in
          let seam = append_assoc m ((k, v) ∷ []) entries in
          let rest =
            subst
              (λ t. Reads (take_entries item duplicate (m ++ ((k, v) ∷ [])) (length entries)) ys t)
              seam
              (Reads-entries (m ++ ((k, v) ∷ [])) entries ys (subst IsOrdered (sym seam) ordered)
                all others) in
          subst
            (λ t.
              Reads (take_entries item duplicate m (suc (length entries))) t
                (m ++ ((k, v) ∷ entries)))
            {x = xs ++ ys} (ground arith)
            (Reads-then _ (reads (k, v) xs p first)
              (rw (behind-contains k m behind, behind-tree_insert k v m behind) rest))
    ]
  ]

  Reads-collection :
      (m : Map K V) (bytes : List ℕ)
      → IsOrdered m
      → All P m
      → put_collection put m ≡ ok bytes
      → Reads (take_collection item duplicate) bytes m
  unfolding put_collection take_collection
  Reads-collection m bytes ordered all h =
      elim (Result-cases (put_bounded_count (length m) max_collection_len)) [
        | inr (x, refused) ↦ absurd (ground arith)
        | inl (count, counted) ↦ elim (Result-cases (put_all put m)) [
          | inr (x, refused) ↦ absurd (ground arith)
          | inl (ys, put_ok) ↦
              subst (λ t. Reads (take_collection item duplicate) t m) {x = count ++ ys}
                (ground arith)
                (Reads-then _ (Reads-bounded_count max_collection_len (length m) counted)
                  (Reads-entries [] m ys ordered all put_ok))
        ]
      ]

abbrev pub IsTypedLive : CellRef × Cell → Type 0
IsTypedLive (reference, cell) = IsTypedCell cell

abbrev pub IsTypedSpent : CellRef × Digest → Type 0
IsTypedSpent (reference, intent) = IsTypedRef reference × IsDigest intent

abbrev pub IsTypedKnown : Digest × Unit {0} → Type 0
IsTypedKnown (id, _) = IsDigest id

abbrev pub IsTypedApplied : Digest × ApplyReceipt → Type 0
IsTypedApplied (intent, receipt) = IsTypedReceipt receipt

-- A state of its Rust type, whose maps are in key order as every `BTreeMap` is.
pub record IsTypedState (state : State) : Type 0 where
  pub live : All IsTypedLive state.live
  pub spent_by : All IsTypedSpent state.spent_by
  pub known_ids : All IsTypedKnown state.known_ids
  pub applied : All IsTypedApplied state.applied
  pub live_order : IsOrdered state.live
  pub spent_order : IsOrdered state.spent_by
  pub known_order : IsOrdered state.known_ids
  pub applied_order : IsOrdered state.applied

Reads-live :
    (entry : CellRef × Cell) (bytes : List ℕ)
    → IsTypedLive entry
    → put_live_entry entry ≡ ok bytes
    → Reads take_live_entry bytes entry
unfolding put_live_entry take_live_entry
Reads-live (reference, cell) bytes t h =
    let same : reference ≡ cell.reference =
      (cell_ref_eq_iff reference cell.reference).0 (ground arith) in
    subst (λ t. Reads take_live_entry t (reference, cell)) {x = put_cell cell} (ground arith)
      (subst (λ t. Reads take_live_entry (put_cell cell) (t, cell)) (sym same)
        (Reads-last _ (Reads-cell cell t) Reads-pure))

Reads-spent :
    (entry : CellRef × Digest) (bytes : List ℕ)
    → IsTypedSpent entry
    → put_spent_entry entry ≡ ok bytes
    → Reads take_spent_entry bytes entry
unfolding put_spent_entry take_spent_entry
Reads-spent (reference, intent) bytes (t, t') h =
    subst (λ t. Reads take_spent_entry t (reference, intent)) {x = put_cell_ref reference ++ intent}
      (ground arith)
      (Reads-then _ (Reads-cell_ref reference t) (Reads-last _ (Reads-raw 32 intent t') Reads-pure))

Reads-known :
    (entry : Digest × Unit {0}) (bytes : List ℕ)
    → IsTypedKnown entry
    → put_known_entry entry ≡ ok bytes
    → Reads take_known_entry bytes entry
unfolding put_known_entry take_known_entry
Reads-known (id, _) bytes t h =
    subst (λ t. Reads take_known_entry t (id, tt)) {x = id} (ground arith)
      (Reads-last _ (Reads-raw 32 id t) Reads-pure)

Reads-applied :
    (entry : Digest × ApplyReceipt) (bytes : List ℕ)
    → IsTypedApplied entry
    → put_applied_entry entry ≡ ok bytes
    → Reads take_applied_entry bytes entry
unfolding put_applied_entry take_applied_entry
Reads-applied (intent, receipt) bytes t h =
    let same : intent ≡ receipt.intent = eq_of_bytes_eq intent receipt.intent (ground arith) in
    subst (λ t. Reads take_applied_entry bytes (t, receipt)) (sym same)
      (Reads-last _ (Reads-apply_receipt receipt bytes t (ground arith)) Reads-pure)

Reads-state :
    (state : State) (bytes : List ℕ)
    → IsTypedState state
    → put_state state ≡ ok bytes
    → Reads take_state bytes state
unfolding put_state take_state
Reads-state state bytes t h = elim (Result-cases (put_collection put_live_entry state.live)) [
  | inr (x, refused) ↦ absurd (ground arith)
  | inl (ls, live) ↦ elim (Result-cases (put_collection put_spent_entry state.spent_by)) [
    | inr (x, refused) ↦ absurd (ground arith)
    | inl (ss, spent) ↦ elim (Result-cases (put_collection put_known_entry state.known_ids)) [
      | inr (x, refused) ↦ absurd (ground arith)
      | inl (ks, known) ↦ elim (Result-cases (put_collection put_applied_entry state.applied)) [
        | inr (x, refused) ↦ absurd (ground arith)
        | inl (rs, applied) ↦
            subst (λ t. Reads take_state t state) {x = ls ++ (ss ++ (ks ++ rs))} (ground arith)
              (Reads-then _
                (Reads-collection take_live_entry put_live_entry _ IsTypedLive Reads-live state.live
                  ls t.live_order t.live live)
                (Reads-then _
                  (Reads-collection take_spent_entry put_spent_entry _ IsTypedSpent Reads-spent
                    state.spent_by ss t.spent_order t.spent_by spent)
                  (Reads-then _
                    (Reads-collection take_known_entry put_known_entry _ IsTypedKnown Reads-known
                      state.known_ids ks t.known_order t.known_ids known)
                    (Reads-last _
                      (Reads-collection take_applied_entry put_applied_entry _ IsTypedApplied
                        Reads-applied state.applied rs t.applied_order t.applied applied)
                      Reads-pure))))
      ]
    ]
  ]
]

-- A state of its Rust type that is encoded within the size of a frame is decoded as itself.
pub decode-encode_state :
    (state : State) (bytes : List ℕ)
    → IsTypedState state
    → encode_state state ≡ ok bytes
    → decode_state bytes ≡ ok state
unfolding encode_state decode_state
decode-encode_state state bytes t h =
    decode_exact-Reads _ (put_state state) state (λ xs put. Reads-state state xs t put) h
