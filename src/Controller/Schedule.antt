-- ===== src/Controller/Schedule.antt =====
-- The order that `deterministic_permutation` of integration001/src/main.rs makes is a permutation.
use avangard.Prelude.{
  ℕ, zero, suc, ◌+◌, ◌-◌, ◌%◌, ◌<◌, ◌==◌, ◌≡◌, refl, ap, ◌∙◌, ◌&&◌, List, [], ◌∷◌, ltb, leb, length,
  get_or, arith, if◌then◌else◌,
}
use avangard.Controller.{next_state, set_at, swap, shuffle, numbers, deterministic_permutation}

-- How often a number is in a list.
unfoldable pub occurrences : ℕ → List ℕ → ℕ
occurrences v [] = 0
occurrences v (x ∷ xs) = (if x == v then 1 else 0) + occurrences v xs

length-set_at : (i x : ℕ) (xs : List ℕ) → length (set_at i x xs) ≡ length xs
length-set_at i x [] = refl
length-set_at zero x (y ∷ ys) = refl
length-set_at (suc i) x (y ∷ ys) = ap suc (length-set_at i x ys)

-- One number goes and one comes.
occurrences-set_at :
    (v i x : ℕ) (xs : List ℕ)
    → i < length xs
    → occurrences v (set_at i x xs) + (if get_or xs i 0 == v then 1 else 0)
      ≡ occurrences v xs + (if x == v then 1 else 0)
unfolding occurrences
occurrences-set_at v i x [] h = absurd (omega arith)
occurrences-set_at v zero x (y ∷ ys) h = omega arith
occurrences-set_at v (suc i) x (y ∷ ys) h =
    let rest = occurrences-set_at v i x ys (omega arith) in omega arith

get_or-set_at_self : (i x : ℕ) (xs : List ℕ) → i < length xs → get_or (set_at i x xs) i 0 ≡ x
get_or-set_at_self i x [] h = absurd (omega arith)
get_or-set_at_self zero x (y ∷ ys) h = refl
get_or-set_at_self (suc i) x (y ∷ ys) h = get_or-set_at_self i x ys (omega arith)

get_or-set_at :
    (i j x : ℕ) (xs : List ℕ)
    → get_or (set_at j x xs) i 0 ≡ (if i == j && ltb i (length xs) then x else get_or xs i 0)
get_or-set_at i j x [] = ground arith
get_or-set_at zero zero x (y ∷ ys) = ground arith
get_or-set_at zero (suc j) x (y ∷ ys) = ground arith
get_or-set_at (suc i) zero x (y ∷ ys) = ground arith
get_or-set_at (suc i) (suc j) x (y ∷ ys) = ground (arith, get_or-set_at i j x ys)

occurrences-swap :
    (v i j : ℕ) (xs : List ℕ)
    → i < length xs
    → j < length xs
    → occurrences v (swap i j xs) ≡ occurrences v xs
occurrences-swap v i j xs hi hj =
    let a = get_or xs i 0 in
    let b = get_or xs j 0 in
    let middle = set_at j a xs in
    let size = length-set_at j a xs in
    let second = occurrences-set_at v j a xs hj in
    let first = occurrences-set_at v i b middle (omega arith) in
    let seen = get_or-set_at i j a xs in ground (arith, first, second, seen)

length-swap : (i j : ℕ) (xs : List ℕ) → length (swap i j xs) ≡ length xs
length-swap i j xs =
    length-set_at i (get_or xs j 0) (set_at j (get_or xs i 0) xs)
    ∙ length-set_at j (get_or xs i 0) xs

occurrences-shuffle :
    (v upper state : ℕ) (values : List ℕ)
    → upper < length values
    → occurrences v (shuffle upper state values) ≡ occurrences v values
unfolding shuffle
occurrences-shuffle v zero state values h = refl
occurrences-shuffle v (suc below) state values h =
    let next = next_state state in
    let size = length-swap (below + 1) (next % (below + 1 + 1)) values in
    occurrences-shuffle v below next (swap (below + 1) (next % (below + 1 + 1)) values)
      (omega arith)
    ∙ occurrences-swap v (below + 1) (next % (below + 1 + 1)) values (omega arith) (omega arith)

length-numbers : (from count : ℕ) → length (numbers from count) ≡ count
length-numbers from zero = refl
length-numbers from (suc count) = ap suc (length-numbers (from + 1) count)

occurrences-numbers :
    (v from count : ℕ)
    → occurrences v (numbers from count) ≡ (if leb from v && ltb v (from + count) then 1 else 0)
unfolding occurrences
occurrences-numbers v from zero = ground arith
occurrences-numbers v from (suc count) = ground (arith, occurrences-numbers v (from + 1) count)

-- Whatever the seed, each number below the count is in the order exactly once, and no other is.
pub deterministic_permutation-occurrences :
    (v count state : ℕ)
    → occurrences v (deterministic_permutation count state) ≡ (if ltb v count then 1 else 0)
unfolding deterministic_permutation shuffle
deterministic_permutation-occurrences v zero state = unfold occurrences in ground arith
deterministic_permutation-occurrences v (suc below) state =
    let size = length-numbers 0 (suc below) in
    occurrences-shuffle v (suc below - 1) state (numbers 0 (suc below)) (omega arith)
    ∙ occurrences-numbers v 0 (suc below)
    ∙ ground arith
