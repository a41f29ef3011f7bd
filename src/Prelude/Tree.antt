-- ===== src/Prelude/Tree.antt =====
-- Maps whose entries are kept in the order of their keys (`BTreeMap`, `BTreeSet`), on top of the
-- association lists: a `Tree` is traversed from its first entry to its last.
pub mod Laws
pub mod Order
use Prim.Native.Nat.{ℕ, ◌+◌}
use mathlib.Core.Path.{◌≡◌, refl}
use mathlib.Core.Bool.{Bool, true, false, ◌&&◌, ◌||◌}
use mathlib.Core.Option.{Option, none, some}
use mathlib.Core.List.{List, [], ◌∷◌}
use native.Mathlib.Omega.{arith}
use avangard.Prelude.Tests.{if◌then◌else◌, ltb, ◌==◌, ==_iff}
use avangard.Prelude.Assoc.{Eq, Map, lookup, insert}

pub record Lt {ℓ} (A : Type ℓ) : Type ℓ where
  pub blt : A → A → Bool
  pub blt_irrefl : (a : A) → blt a a ≡ false
  pub blt_trans : (a b c : A) → blt a b ≡ true → blt b c ≡ true → blt a c ≡ true

-- `<` on byte arrays
abbrev pub bytes_lt : List ℕ → List ℕ → Bool
bytes_lt xs [] = false
bytes_lt [] (y ∷ ys) = true
bytes_lt (x ∷ xs) (y ∷ ys) = ltb x y || (x == y && bytes_lt xs ys)

pub bytes_lt_irrefl : (xs : List ℕ) → bytes_lt xs xs ≡ false
bytes_lt_irrefl [] = refl
bytes_lt_irrefl (x ∷ xs) = ground (arith, bytes_lt_irrefl xs)

pub bytes_lt_trans :
    (xs ys zs : List ℕ) → bytes_lt xs ys ≡ true → bytes_lt ys zs ≡ true → bytes_lt xs zs ≡ true
bytes_lt_trans xs ys [] h h' = h'
bytes_lt_trans xs [] (z ∷ zs) h h' = absurd (ground arith)
bytes_lt_trans [] (y ∷ ys) (z ∷ zs) h h' = refl
bytes_lt_trans (x ∷ xs) (y ∷ ys) (z ∷ zs) h h' = ground (arith, bytes_lt_trans xs ys zs)

instance abbrev pub bytes_has_lt : Lt (List ℕ)
bytes_has_lt = record { blt = bytes_lt; blt_irrefl = bytes_lt_irrefl; blt_trans = bytes_lt_trans }

pub ltb_irrefl : (a : ℕ) → ltb a a ≡ false
ltb_irrefl a = ground arith

pub ltb_trans : (a b c : ℕ) → ltb a b ≡ true → ltb b c ≡ true → ltb a c ≡ true
ltb_trans a b c h h' = ground arith

instance abbrev pub nat_has_lt : Lt ℕ
nat_has_lt = record { blt = ltb; blt_irrefl = ltb_irrefl; blt_trans = ltb_trans }

module _ {ℓ κ} {K : Type ℓ} {V : Type κ} ⦃e : Eq K⦄ where
  unfoldable pub contains : K → Map K V → Bool
  contains k [] = false
  contains k ((j, v) ∷ m) = e.beq j k || contains k m

  unfoldable pub remove : K → Map K V → Map K V
  remove k [] = []
  remove k ((j, v) ∷ m) = if e.beq j k then m else (j, v) ∷ remove k m

module _ {ℓ κ} {K : Type ℓ} {V : Type κ} ⦃e : Eq K⦄ ⦃o : Lt K⦄ where
  -- A new key goes before the first greater one.
  unfoldable pub place : K → V → Map K V → Map K V
  place k v [] = (k, v) ∷ []
  place k v ((j, w) ∷ m) = if o.blt k j then (k, v) ∷ (j, w) ∷ m else (j, w) ∷ place k v m

  unfoldable pub tree_insert : K → V → Map K V → Map K V
  unfolding contains place
  tree_insert k v m = if contains k m then insert k v m else place k v m

-- No key twice.
abbrev pub IsUnique {ℓ κ} : {K : Type ℓ} {V : Type κ} ⦃e : Eq K⦄ → Map K V → Type 0
IsUnique [] = Unit
IsUnique ((k, v) ∷ m) = (contains k m ≡ false) × IsUnique m

instance abbrev pub nat_has_eq : Eq ℕ
nat_has_eq = record { beq = λ a b. a == b; beq_iff = ==_iff }
