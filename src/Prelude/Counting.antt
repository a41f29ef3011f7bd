-- ===== src/Prelude/Counting.antt =====
-- How many numbers below a bound pass a test.
use Prim.Native.Nat.{ℕ, zero, suc, ◌+◌, ◌≤◌, ◌<◌}
use mathlib.Core.Path.{◌≡◌, refl}
use mathlib.Core.Logic.{inl, inr}
use mathlib.Core.Bool.{Bool, true, false, ◌&&◌, ◌||◌}
use mathlib.Core.List.{List, [], ◌∷◌}
use native.Mathlib.Omega.{arith}
use native.Mathlib.Decide.{dec_lt}
use avangard.Prelude.Tests.{if◌then◌else◌, ◌==◌, Bool-cases}
use avangard.Prelude.Lists.{length, All}

abbrev pub has : ℕ → List ℕ → Bool
has i [] = false
has i (x ∷ xs) = x == i || has i xs

unfoldable pub count : ℕ → (ℕ → Bool) → ℕ
count zero p = 0
count (suc k) p = if p k then suc (count k p) else count k p

-- The numbers ascend, from `lo` on.
abbrev pub IsAscending : ℕ → List ℕ → Type 0
IsAscending lo [] = Unit
IsAscending lo (x ∷ xs) = (lo ≤ x) × IsAscending (suc x) xs

pub has-of_below : (lo i : ℕ) (xs : List ℕ) → IsAscending lo xs → i < lo → has i xs ≡ false
has-of_below lo i [] a h = refl
has-of_below lo i (x ∷ xs) (le, a) h = ground (arith, has-of_below (suc x) i xs a (omega arith))

pub count-cons_above :
    (k x : ℕ) (xs : List ℕ) → k ≤ x → count k (λ i. has i (x ∷ xs)) ≡ count k (λ i. has i xs)
unfolding count
count-cons_above zero x xs h = refl
count-cons_above (suc k) x xs h = ground (arith, count-cons_above k x xs (omega arith))

pub count-cons_new :
    (k x : ℕ) (xs : List ℕ)
    → x < k
    → has x xs ≡ false
    → count k (λ i. has i (x ∷ xs)) ≡ suc (count k (λ i. has i xs))
unfolding count
count-cons_new zero x xs h fresh = absurd (omega arith)
count-cons_new (suc k) x xs h fresh = elim (dec_lt x k) [
  | yes p ↦ ground (arith, count-cons_new k x xs p fresh)
  | no p ↦ let e : x ≡ k = omega arith in ground (arith, count-cons_above k x xs (omega arith))
]

count_none : (k : ℕ) → 0 ≡ count k (λ i. false)
unfolding count
count_none zero = refl
count_none (suc k) = count_none k

pub length-count :
    (k lo : ℕ) (xs : List ℕ)
    → IsAscending lo xs
    → All (λ i. i < k) xs
    → length xs ≡ count k (λ i. has i xs)
length-count k lo [] a h = count_none k
length-count k lo (x ∷ xs) (le, a) (lt, h) = omega (
  arith,
  length-count k (suc x) xs a h,
  count-cons_new k x xs lt (has-of_below (suc x) x xs a (omega arith)),
)

-- Two tests pass together at least as often as they must.
pub count-both : (k : ℕ) (p r : ℕ → Bool) → count k p + count k r ≤ k + count k (λ i. p i && r i)
unfolding count
count-both zero p r = omega arith
count-both (suc k) p r = ground (arith, count-both k p r)

-- What passes more often passes once where the other test fails.
pub count_exceeds :
    (k : ℕ) (p r : ℕ → Bool)
    → count k r < count k p
    → (i : ℕ) × (i < k) × (p i ≡ true) × (r i ≡ false)
unfolding count
count_exceeds zero p r h = absurd (omega arith)
count_exceeds (suc k) p r h = elim (Bool-cases (p k)) [
  | inl hp ↦ elim (Bool-cases (r k)) [
    | inl hr ↦ widen (count_exceeds k p r (ground arith))
    | inr hr ↦ (k, omega arith, hp, hr)
  ]
  | inr hp ↦ widen (count_exceeds k p r (ground arith))
]
  where
    widen :
        (i : ℕ) × (i < k) × (p i ≡ true) × (r i ≡ false)
        → (i : ℕ) × (i < suc k) × (p i ≡ true) × (r i ≡ false)
    widen (i, lt, a, b) = (i, omega arith, a, b)
