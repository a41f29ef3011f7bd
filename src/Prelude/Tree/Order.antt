-- ===== src/Prelude/Tree/Order.antt =====
-- Maps whose keys are in order, and the insertion of a key behind all others.
use mathlib.Core.Path.{◌≡◌, refl, subst}
use mathlib.Core.Bool.{true, false}
use mathlib.Core.Logic.{inl, inr}
use mathlib.Core.List.{[], ◌∷◌, ◌++◌}
use native.Mathlib.Omega.{arith}
use avangard.Prelude.Tests.{Bool-cases}
use avangard.Prelude.Lists.{All}
use avangard.Prelude.Assoc.{Eq, Map, insert}
use avangard.Prelude.Tree.{Lt, contains, remove, place, tree_insert}
use avangard.Prelude.Tree.Laws.{tree_insert_new}

module _ {ℓ κ} {K : Type ℓ} {V : Type κ} ⦃e : Eq K⦄ ⦃o : Lt K⦄ where
  -- The key is neither that of the entry nor less.
  abbrev pub IsBehind : K → K × V → Type 0
  IsBehind k (j, w) = (e.beq j k ≡ false) × (o.blt k j ≡ false)

  -- Each key is behind those before it.
  abbrev pub IsOrdered : Map K V → Type κ
  IsOrdered [] = Unit
  IsOrdered ((j, w) ∷ m) = All (λ (k, v). IsBehind k (j, w)) m × IsOrdered m

  pub behind-contains : (k : K) (m : Map K V) → All (IsBehind k) m → contains k m ≡ false
  unfolding contains
  behind-contains k [] all = refl
  behind-contains k ((j, w) ∷ m) ((differs, less), all) = rw (differs, behind-contains k m all) refl

  behind-place :
      (k : K) (v : V) (m : Map K V) → All (IsBehind k) m → place k v m ≡ m ++ ((k, v) ∷ [])
  unfolding place
  behind-place k v [] all = refl
  behind-place k v ((j, w) ∷ m) ((differs, less), all) = rw (less, behind-place k v m all) refl

  pub behind-tree_insert :
      (k : K) (v : V) (m : Map K V) → All (IsBehind k) m → tree_insert k v m ≡ m ++ ((k, v) ∷ [])
  behind-tree_insert k v m all =
      rw (tree_insert_new k v m (behind-contains k m all)) (behind-place k v m all)

  -- An entry in the middle is behind those on its left.
  pub IsOrdered-IsBehind :
      (m : Map K V) (k : K) (v : V) (rest : Map K V)
      → IsOrdered (m ++ ((k, v) ∷ rest))
      → All (IsBehind k) m
  IsOrdered-IsBehind [] k v rest ordered = tt
  IsOrdered-IsBehind ((j, w) ∷ m) k v rest (behind, ordered) =
      (in_middle m behind, IsOrdered-IsBehind m k v rest ordered)
    where
      in_middle :
          (m : Map K V)
          → All (λ (i, u). IsBehind i (j, w)) (m ++ ((k, v) ∷ rest))
          → IsBehind k (j, w)
      in_middle [] (here, all) = here
      in_middle (x ∷ m) (here, all) = in_middle m all

-- What holds of all entries, and what insertion and removal keep of it.
module _ {ℓ κ μ} {K : Type ℓ} {V : Type κ} ⦃e : Eq K⦄ (P : K × V → Type μ) where
  pub All-insert : (k : K) (v : V) (m : Map K V) → P (k, v) → All P m → All P (insert k v m)
  unfolding insert
  All-insert k v [] p all = (p, tt)
  All-insert k v ((j, w) ∷ m) p (q, all) = elim (Bool-cases (e.beq j k)) [
    | inl same ↦ rw same (p, all)
    | inr other ↦ rw other (q, All-insert k v m p all)
  ]

  pub All-remove : (k : K) (m : Map K V) → All P m → All P (remove k m)
  unfolding remove
  All-remove k [] all = all
  All-remove k ((j, w) ∷ m) (q, all) = elim (Bool-cases (e.beq j k)) [
    | inl same ↦ rw same all
    | inr other ↦ rw other (q, All-remove k m all)
  ]

module _ {ℓ κ μ} {K : Type ℓ} {V : Type κ} ⦃e : Eq K⦄ ⦃o : Lt K⦄ (P : K × V → Type μ) where
  pub All-place : (k : K) (v : V) (m : Map K V) → P (k, v) → All P m → All P (place k v m)
  unfolding place
  All-place k v [] p all = (p, tt)
  All-place k v ((j, w) ∷ m) p (q, all) = elim (Bool-cases (o.blt k j)) [
    | inl less ↦ rw less (p, (q, all))
    | inr more ↦ rw more (q, All-place k v m p all)
  ]

  pub All-tree_insert :
      (k : K) (v : V) (m : Map K V) → P (k, v) → All P m → All P (tree_insert k v m)
  unfolding tree_insert
  All-tree_insert k v m p all = elim (Bool-cases (contains k m)) [
    | inl there ↦ rw there (All-insert P k v m p all)
    | inr absent ↦ rw absent (All-place k v m p all)
  ]

module _ {ℓ κ} {K : Type ℓ} {V : Type κ} ⦃e : Eq K⦄ ⦃o : Lt K⦄ where
  -- A key less than one that is in order before some entries is before them too.
  IsBehind-less :
      (k j : K) (v w : V) (m : Map K V)
      → o.blt k j ≡ true
      → All (λ (i, u). IsBehind i (j, w)) m
      → All (λ (i, u). IsBehind i (k, v)) m
  IsBehind-less k j v w [] less all = tt
  IsBehind-less k j v w ((i, u) ∷ m) less ((differs, above), all) = (
    (
      elim (Bool-cases (e.beq k i)) [
        | inl same ↦ absurd (cc ((e.beq_iff k i).0 same, less, above))
        | inr other ↦ other
      ],
      elim (Bool-cases (o.blt i k)) [
        | inl below ↦ absurd (cc (o.blt_trans i k j below less, above))
        | inr other ↦ other
      ],
    ),
    IsBehind-less k j v w m less all,
  )

  place-IsOrdered :
      (k : K) (v : V) (m : Map K V) → contains k m ≡ false → IsOrdered m → IsOrdered (place k v m)
  unfolding place contains
  place-IsOrdered k v [] absent ordered = (tt, tt)
  place-IsOrdered k v ((j, w) ∷ m) absent (behind, ordered) = elim (Bool-cases (o.blt k j)) [
    | inl less ↦
        let differs : e.beq k j ≡ false = elim (Bool-cases (e.beq k j)) [
          | inl same ↦ absurd (cc ((e.beq_iff k j).0 same, less, o.blt_irrefl j))
          | inr other ↦ other
        ] in
        let above : o.blt j k ≡ false = elim (Bool-cases (o.blt j k)) [
          | inl below ↦ absurd (cc (o.blt_trans j k j below less, o.blt_irrefl j))
          | inr other ↦ other
        ] in
        rw less (((differs, above), IsBehind-less k j v w m less behind), (behind, ordered))
    | inr more ↦
        let differs : e.beq j k ≡ false = ground arith in
        rw more (
          All-place (λ (i, u). IsBehind i (j, w)) k v m (differs, more) behind,
          place-IsOrdered k v m (ground arith) ordered,
        )
  ]

  insert-IsOrdered :
      (k : K) (v : V) (m : Map K V) → contains k m ≡ true → IsOrdered m → IsOrdered (insert k v m)
  unfolding insert contains
  insert-IsOrdered k v [] there ordered = absurd (ground arith)
  insert-IsOrdered k v ((j, w) ∷ m) there (behind, ordered) = elim (Bool-cases (e.beq j k)) [
    | inl same ↦
        rw same (
          subst (λ t. All (λ (i, u). IsBehind i (t, v)) m) ((e.beq_iff j k).0 same) behind,
          ordered,
        )
    | inr other ↦ rw other (
      All-insert_there (λ i. IsBehind i (j, w)) k v m (ground arith) behind,
      insert-IsOrdered k v m (ground arith) ordered,
    )
  ]
    where
      All-insert_there :
          (Q : K → Type 0) (k : K) (v : V) (m : Map K V)
          → contains k m ≡ true
          → All (λ (i, u). Q i) m
          → All (λ (i, u). Q i) (insert k v m)
      All-insert_there Q k v [] there all = absurd (ground arith)
      All-insert_there Q k v ((i, u) ∷ m) there (q, all) = elim (Bool-cases (e.beq i k)) [
        | inl same ↦ rw same (subst Q ((e.beq_iff i k).0 same) q, all)
        | inr other ↦ rw other (q, All-insert_there Q k v m (ground arith) all)
      ]

  -- Insertion and removal keep the keys in order.
  pub tree_insert-IsOrdered :
      (k : K) (v : V) (m : Map K V) → IsOrdered m → IsOrdered (tree_insert k v m)
  unfolding tree_insert
  tree_insert-IsOrdered k v m ordered = elim (Bool-cases (contains k m)) [
    | inl there ↦ rw there (insert-IsOrdered k v m there ordered)
    | inr absent ↦ rw absent (place-IsOrdered k v m absent ordered)
  ]

  pub remove-IsOrdered : (k : K) (m : Map K V) → IsOrdered m → IsOrdered (remove k m)
  unfolding remove
  remove-IsOrdered k [] ordered = ordered
  remove-IsOrdered k ((j, w) ∷ m) (behind, ordered) = elim (Bool-cases (e.beq j k)) [
    | inl same ↦ rw same ordered
    | inr other ↦
        rw other (All-remove (λ (i, u). IsBehind i (j, w)) k m behind, remove-IsOrdered k m ordered)
  ]
