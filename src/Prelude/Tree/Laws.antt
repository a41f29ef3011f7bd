-- ===== src/Prelude/Tree/Laws.antt =====
-- Laws of the maps in key order.
use mathlib.Core.Path.{◌≡◌, refl}
use mathlib.Core.Logic.{inl, inr}
use mathlib.Core.Bool.{true, false, ◌||◌}
use mathlib.Core.Option.{none, some}
use mathlib.Core.List.{[], ◌∷◌}
use native.Mathlib.Omega.{arith}
use Prim.Native.Nat.{suc}
use avangard.Prelude.Tests.{if◌then◌else◌, Bool-cases}
use avangard.Prelude.Lists.{length}
use avangard.Prelude.Assoc.{Eq, Map, lookup, insert, lookup-insert, lookup-insert_self}
use avangard.Prelude.Tree.{Lt, contains, remove, place, tree_insert, IsUnique}

module _ {ℓ κ} {K : Type ℓ} {V : Type κ} ⦃e : Eq K⦄ where
  pub lookup-of_absent : (k : K) (m : Map K V) → contains k m ≡ false → lookup k m ≡ none
  unfolding lookup contains
  lookup-of_absent k [] h = refl
  lookup-of_absent k ((j, w) ∷ m) h = ground (arith, lookup-of_absent k m)

  pub contains-lookup : (k : K) (m : Map K V) (v : V) → lookup k m ≡ some v → contains k m ≡ true
  contains-lookup k m v h = elim (Bool-cases (contains k m)) [
    | inl there ↦ there
    | inr absent ↦ absurd (cc (lookup-of_absent k m absent, h))
  ]

  pub contains-insert :
      (k j : K) (v : V) (m : Map K V) → contains j (insert k v m) ≡ e.beq k j || contains j m
  unfolding contains insert
  contains-insert k j v [] = refl
  contains-insert k j v ((i, w) ∷ m) =
      ground (arith, e.beq_iff k j, e.beq_iff i k, e.beq_iff i j, contains-insert k j v m)

  pub contains-remove :
      (k j : K) (m : Map K V) → contains j m ≡ false → contains j (remove k m) ≡ false
  unfolding contains remove
  contains-remove k j [] h = refl
  contains-remove k j ((i, w) ∷ m) h = ground (arith, contains-remove k j m)

  pub contains-remove_rev :
      (k j : K) (m : Map K V) → contains j (remove k m) ≡ true → contains j m ≡ true
  unfolding contains remove
  contains-remove_rev k j [] h = h
  contains-remove_rev k j ((i, w) ∷ m) h = ground (arith, contains-remove_rev k j m)

  pub contains-remove_self : (k : K) (m : Map K V) → IsUnique m → contains k (remove k m) ≡ false
  unfolding contains remove
  contains-remove_self k [] u = refl
  contains-remove_self k ((i, w) ∷ m) (fresh, u) =
      ground (arith, e.beq_iff i k, contains-remove_self k m u)

  pub remove-IsUnique : (k : K) (m : Map K V) → IsUnique m → IsUnique (remove k m)
  unfolding remove
  remove-IsUnique k [] u = u
  remove-IsUnique k ((i, w) ∷ m) (fresh, u) =
      ground (arith, contains-remove k i m, remove-IsUnique k m u)

  insert-IsUnique : (k : K) (v : V) (m : Map K V) → IsUnique m → IsUnique (insert k v m)
  unfolding insert contains
  insert-IsUnique k v [] u = (refl, u)
  insert-IsUnique k v ((i, w) ∷ m) (fresh, u) =
      ground (arith, contains-insert k i v m, insert-IsUnique k v m u, e.beq_iff i k, e.beq_iff k i)

module _ {ℓ κ} {K : Type ℓ} {V : Type κ} ⦃e : Eq K⦄ ⦃o : Lt K⦄ where
  contains-place :
      (k j : K) (v : V) (m : Map K V) → contains j (place k v m) ≡ e.beq k j || contains j m
  unfolding contains place
  contains-place k j v [] = refl
  contains-place k j v ((i, w) ∷ m) = ground (arith, contains-place k j v m)

  pub contains-tree_insert :
      (k j : K) (v : V) (m : Map K V) → contains j (tree_insert k v m) ≡ e.beq k j || contains j m
  unfolding tree_insert
  contains-tree_insert k j v m = ground (arith, contains-place k j v m, contains-insert k j v m)

  pub tree_insert_new :
      (k : K) (v : V) (m : Map K V) → contains k m ≡ false → tree_insert k v m ≡ place k v m
  unfolding tree_insert
  tree_insert_new k v m h = ground arith

  place-IsUnique :
      (k : K) (v : V) (m : Map K V) → contains k m ≡ false → IsUnique m → IsUnique (place k v m)
  unfolding place contains
  place-IsUnique k v [] h u = (refl, u)
  place-IsUnique k v ((i, w) ∷ m) h (fresh, u) = ground (
    arith,
    contains-place k i v m,
    place-IsUnique k v m (ground arith) u,
    e.beq_iff i k,
    e.beq_iff k i,
  )

  pub tree_insert-IsUnique :
      (k : K) (v : V) (m : Map K V) → IsUnique m → IsUnique (tree_insert k v m)
  unfolding tree_insert
  tree_insert-IsUnique k v m u = ground (arith, place-IsUnique k v m, insert-IsUnique k v m u)

  lookup-place :
      (k : K) (v : V) (m : Map K V) → contains k m ≡ false → lookup k (place k v m) ≡ some v
  unfolding lookup place contains
  lookup-place k v [] h = ground (arith, e.beq_iff k k)
  lookup-place k v ((i, w) ∷ m) h = ground (arith, e.beq_iff k k, lookup-place k v m)

  pub lookup-tree_insert_self :
      (k : K) (v : V) (m : Map K V) → lookup k (tree_insert k v m) ≡ some v
  unfolding tree_insert
  lookup-tree_insert_self k v m = ground (arith, lookup-place k v m, lookup-insert_self k v m)

  lookup-place_any :
      (k j : K) (v : V) (m : Map K V)
      → contains k m ≡ false
      → lookup j (place k v m) ≡ (if e.beq k j then some v else lookup j m)
  unfolding lookup contains place
  lookup-place_any k j v [] h = refl
  lookup-place_any k j v ((i, w) ∷ m) h =
      ground (arith, e.beq_iff k j, e.beq_iff i k, e.beq_iff i j, lookup-place_any k j v m)

  pub lookup-tree_insert :
      (k j : K) (v : V) (m : Map K V)
      → lookup j (tree_insert k v m) ≡ (if e.beq k j then some v else lookup j m)
  unfolding tree_insert
  lookup-tree_insert k j v m = ground (arith, lookup-place_any k j v m, lookup-insert k j v m)

  pub contains-of_none : (k : K) (m : Map K V) → lookup k m ≡ none → contains k m ≡ false
  unfolding lookup contains
  contains-of_none k [] h = refl
  contains-of_none k ((i, w) ∷ m) h = ground (arith, contains-of_none k m)

  length-place : (k : K) (v : V) (m : Map K V) → length (place k v m) ≡ suc (length m)
  unfolding place
  length-place k v [] = refl
  length-place k v ((i, w) ∷ m) = ground (arith, length-place k v m)

  -- A new key is one more entry, in either kind of map.
  pub length-tree_insert :
      (k : K) (v : V) (m : Map K V)
      → contains k m ≡ false
      → length (tree_insert k v m) ≡ suc (length m)
  length-tree_insert k v m h = rw (tree_insert_new k v m h) (length-place k v m)

  pub length-insert :
      (k : K) (v : V) (m : Map K V) → contains k m ≡ false → length (insert k v m) ≡ suc (length m)
  unfolding insert contains
  length-insert k v [] h = refl
  length-insert k v ((i, w) ∷ m) h = ground (arith, length-insert k v m)
