-- ===== src/Metrics/Latency.antt =====
-- The percentiles of integration001/src/metrics.rs: nearest ranks among the samples.
use avangard.Prelude.{
  ℕ, zero, suc, ◌+◌, ◌-◌, ◌*◌, ◌≤◌, ◌<◌, ◌≡◌, refl, ap, sym, subst, ◌∙◌, some, List, [], ◌∷◌, ltb,
  leb, length, get_or, All, arith, if◌then◌else◌, Bool-cases, inl, inr,
}
use avangard.Store.Types.{u64_max}
use avangard.Metrics.{
  LatencySummary, insert_sorted, sort_unstable, rank_index, nearest_rank, summarize_latencies,
}

-- How many samples are at most a value.
unfoldable pub count_up_to : ℕ → List ℕ → ℕ
count_up_to value [] = 0
count_up_to value (x ∷ xs) = (if leb x value then 1 else 0) + count_up_to value xs

-- How many samples are below a value.
unfoldable pub count_below : ℕ → List ℕ → ℕ
count_below value [] = 0
count_below value (x ∷ xs) = (if ltb x value then 1 else 0) + count_below value xs

-- No sample is above one that is behind it.
abbrev IsSorted : List ℕ → Type 0
IsSorted [] = Unit
IsSorted (x ∷ xs) = All (λ y. x ≤ y) xs × IsSorted xs

count_up_to-insert_sorted :
    (value x : ℕ) (xs : List ℕ)
    → count_up_to value (insert_sorted x xs) ≡ count_up_to value (x ∷ xs)
unfolding count_up_to
count_up_to-insert_sorted value x [] = refl
count_up_to-insert_sorted value x (y ∷ ys) = ground (arith, count_up_to-insert_sorted value x ys)

count_up_to-sort_unstable :
    (value : ℕ) (xs : List ℕ) → count_up_to value (sort_unstable xs) ≡ count_up_to value xs
unfolding count_up_to
count_up_to-sort_unstable value [] = refl
count_up_to-sort_unstable value (x ∷ xs) =
    count_up_to-insert_sorted value x (sort_unstable xs)
    ∙ ap (λ n. (if leb x value then 1 else 0) + n) (count_up_to-sort_unstable value xs)

count_below-insert_sorted :
    (value x : ℕ) (xs : List ℕ)
    → count_below value (insert_sorted x xs) ≡ count_below value (x ∷ xs)
unfolding count_below
count_below-insert_sorted value x [] = refl
count_below-insert_sorted value x (y ∷ ys) = ground (arith, count_below-insert_sorted value x ys)

count_below-sort_unstable :
    (value : ℕ) (xs : List ℕ) → count_below value (sort_unstable xs) ≡ count_below value xs
unfolding count_below
count_below-sort_unstable value [] = refl
count_below-sort_unstable value (x ∷ xs) =
    count_below-insert_sorted value x (sort_unstable xs)
    ∙ ap (λ n. (if ltb x value then 1 else 0) + n) (count_below-sort_unstable value xs)

All-insert_sorted :
    (bound x : ℕ) (xs : List ℕ)
    → bound ≤ x
    → All (λ y. bound ≤ y) xs
    → All (λ y. bound ≤ y) (insert_sorted x xs)
All-insert_sorted bound x [] h all = (h, tt)
All-insert_sorted bound x (y ∷ ys) h (k, all) = elim (Bool-cases (leb x y)) [
  | inl below ↦ rw below (h, (k, all))
  | inr above ↦ rw above (k, All-insert_sorted bound x ys h all)
]

All-below :
    (bound lower : ℕ) (xs : List ℕ)
    → bound ≤ lower
    → All (λ y. lower ≤ y) xs
    → All (λ y. bound ≤ y) xs
All-below bound lower [] h all = tt
All-below bound lower (x ∷ xs) h (k, all) = (omega arith, All-below bound lower xs h all)

insert_sorted-IsSorted : (x : ℕ) (xs : List ℕ) → IsSorted xs → IsSorted (insert_sorted x xs)
insert_sorted-IsSorted x [] s = (tt, tt)
insert_sorted-IsSorted x (y ∷ ys) (all, s) = elim (Bool-cases (leb x y)) [
  | inl below ↦ rw below ((ground arith, All-below x y ys (ground arith) all), (all, s))
  | inr above ↦
      rw above (All-insert_sorted y x ys (ground arith) all, insert_sorted-IsSorted x ys s)
]

sort_unstable-IsSorted : (xs : List ℕ) → IsSorted (sort_unstable xs)
sort_unstable-IsSorted [] = tt
sort_unstable-IsSorted (x ∷ xs) =
    insert_sorted-IsSorted x (sort_unstable xs) (sort_unstable-IsSorted xs)

length-insert_sorted : (x : ℕ) (xs : List ℕ) → length (insert_sorted x xs) ≡ suc (length xs)
length-insert_sorted x [] = refl
length-insert_sorted x (y ∷ ys) = ground (arith, length-insert_sorted x ys)

length-sort_unstable : (xs : List ℕ) → length (sort_unstable xs) ≡ length xs
length-sort_unstable [] = refl
length-sort_unstable (x ∷ xs) =
    length-insert_sorted x (sort_unstable xs) ∙ ap suc (length-sort_unstable xs)

All-get_or :
    (bound : ℕ) (xs : List ℕ) (i : ℕ)
    → All (λ y. bound ≤ y) xs
    → i < length xs
    → bound ≤ get_or xs i 0
All-get_or bound [] i all h = absurd (omega arith)
All-get_or bound (x ∷ xs) zero (k, all) h = k
All-get_or bound (x ∷ xs) (suc i) (k, all) h = All-get_or bound xs i all (omega arith)

-- A later rank has no smaller value.
get_or-order :
    (xs : List ℕ) (i j : ℕ) → IsSorted xs → i ≤ j → j < length xs → get_or xs i 0 ≤ get_or xs j 0
get_or-order [] i j s h k = absurd (omega arith)
get_or-order (x ∷ xs) zero zero s h k = omega arith
get_or-order (x ∷ xs) zero (suc j) (all, s) h k = All-get_or x xs j all (omega arith)
get_or-order (x ∷ xs) (suc i) zero s h k = absurd (omega arith)
get_or-order (x ∷ xs) (suc i) (suc j) (all, s) h k =
    get_or-order xs i j s (omega arith) (omega arith)

-- The value at an index of a sorted list has that many samples before it, and itself, at or below it.
count_up_to-get_or :
    (xs : List ℕ) (i : ℕ) → IsSorted xs → i < length xs → i < count_up_to (get_or xs i 0) xs
unfolding count_up_to
count_up_to-get_or [] i s h = absurd (omega arith)
count_up_to-get_or (x ∷ xs) zero s h = ground arith
count_up_to-get_or (x ∷ xs) (suc i) (all, s) h =
    let first = All-get_or x xs i all (omega arith) in
    let rest = count_up_to-get_or xs i s (omega arith) in ground arith

-- None is below a bound of all.
count_below-All :
    (bound value : ℕ) (xs : List ℕ)
    → value ≤ bound
    → All (λ y. bound ≤ y) xs
    → count_below value xs ≡ 0
unfolding count_below
count_below-All bound value [] h all = refl
count_below-All bound value (x ∷ xs) h (k, all) =
    ground (arith, count_below-All bound value xs h all)

-- Only samples before it are below the value at an index of a sorted list.
count_below-get_or :
    (xs : List ℕ) (i : ℕ) → IsSorted xs → i < length xs → count_below (get_or xs i 0) xs ≤ i
unfolding count_below
count_below-get_or [] i s h = absurd (omega arith)
count_below-get_or (x ∷ xs) zero (all, s) h =
    let none_below = count_below-All x x xs (omega arith) all in ground arith
count_below-get_or (x ∷ xs) (suc i) (all, s) h =
    let rest = count_below-get_or xs i s (omega arith) in ground arith

-- The samples are so many that no product of a rank leaves 64 bits.
abbrev pub IsFew : List ℕ → Type 0
IsFew samples = length samples * 100 + 99 ≤ u64_max

-- The value has the nearest rank of a percentage: the first rank, in the order of the samples, that is
-- at least that share of them. So fewer than the share are below the value, and the share is reached
-- by those at or below it.
pub record IsNearestRank (samples : List ℕ) (percentile value : ℕ) : Type 0 where
  pub before : 100 * count_below value samples < length samples * percentile
  pub reached : length samples * percentile ≤ 100 * count_up_to value samples

-- The index is the rank less one.
rank_index-bounds :
    (count percentile : ℕ)
    → 0 < count * percentile
    → count * 100 + 99 ≤ u64_max
    → count * percentile ≤ count * 100
    → (rank_index count percentile < count)
      × (100 * rank_index count percentile < count * percentile)
      × (count * percentile ≤ 100 * (rank_index count percentile + 1))
rank_index-bounds count percentile positive few product = (ground arith, ground arith, ground arith)

-- The value at the index behind so many samples.
get_or-IsNearestRank :
    (samples : List ℕ) (percentile i : ℕ)
    → i < length samples
    → 100 * i < length samples * percentile
    → length samples * percentile ≤ 100 * (i + 1)
    → IsNearestRank samples percentile (get_or (sort_unstable samples) i 0)
get_or-IsNearestRank samples percentile i inside low high =
    let sorted = sort_unstable samples in
    let value = get_or sorted i 0 in
    let ordered = sort_unstable-IsSorted samples in
    let size = length-sort_unstable samples in
    let below = count_below-get_or sorted i ordered (omega arith) in
    let up_to = count_up_to-get_or sorted i ordered (omega arith) in
    let same_below = count_below-sort_unstable value samples in
    let same_up_to = count_up_to-sort_unstable value samples in
    record { before = omega arith; reached = omega arith }

rank_index-order :
    (count p q : ℕ)
    → count * q + 99 ≤ u64_max
    → count * p ≤ count * q
    → rank_index count p ≤ rank_index count q
rank_index-order count p q few more = ground arith

nearest_rank-IsNearestRank :
    (samples : List ℕ) (percentile : ℕ)
    → 0 < length samples * percentile
    → IsFew samples
    → length samples * percentile ≤ length samples * 100
    → IsNearestRank samples percentile (nearest_rank (sort_unstable samples) percentile)
unfolding nearest_rank
nearest_rank-IsNearestRank samples percentile positive few product =
    let (inside, low, high) = rank_index-bounds (length samples) percentile positive few product in
    rw (length-sort_unstable samples) (
      get_or-IsNearestRank samples percentile (rank_index (length samples) percentile) inside low
        high)

nearest_rank-order :
    (samples : List ℕ) (p q : ℕ)
    → 0 < length samples * q
    → IsFew samples
    → length samples * q ≤ length samples * 100
    → length samples * p ≤ length samples * q
    → nearest_rank (sort_unstable samples) p ≤ nearest_rank (sort_unstable samples) q
unfolding nearest_rank
nearest_rank-order samples p q positive few product more =
    let size = length-sort_unstable samples in
    let (inside, low, high) = rank_index-bounds (length samples) q positive few product in
    rw size (
      get_or-order (sort_unstable samples) (rank_index (length samples) p)
        (rank_index (length samples) q) (sort_unstable-IsSorted samples)
        (rank_index-order (length samples) p q (omega arith) more) (omega arith))

-- What a summary says of its samples.
pub record IsRanked (samples : List ℕ) (summary : LatencySummary) : Type 0 where
  pub samples_count : summary.samples ≡ length samples
  pub half : IsNearestRank samples 50 summary.p50_us
  pub most : IsNearestRank samples 95 summary.p95_us
  pub nearly_all : IsNearestRank samples 99 summary.p99_us
  pub whole : IsNearestRank samples 100 summary.max_us
  pub p50_p95 : summary.p50_us ≤ summary.p95_us
  pub p95_p99 : summary.p95_us ≤ summary.p99_us
  pub p99_max : summary.p99_us ≤ summary.max_us

-- A summary of samples, which are fewer than 2^57, counts them, and each of p50, p95, p99 and the
-- maximum is the value of the nearest rank of its percentage, 100 for the maximum: fewer than that
-- share of the samples are below it, and at least that share at or below it, so that it is a sample.
-- They are in order.
pub summarize_latencies-ranks :
    (samples : List ℕ) (summary : LatencySummary)
    → IsFew samples
    → summarize_latencies samples ≡ some summary
    → IsRanked samples summary
unfolding summarize_latencies
summarize_latencies-ranks [] summary few h = absurd (ground arith)
summarize_latencies-ranks (x ∷ xs) summary few h =
    let samples = x ∷ xs in
    let sorted = sort_unstable samples in
    let size = length-sort_unstable samples in
    let (inside, low, high) =
      rank_index-bounds (length samples) 99 (omega arith) few (omega arith) in
    let last : nearest_rank sorted 99 ≤ get_or sorted (length samples - 1) 0 =
      unfold nearest_rank in
      rw size (
        get_or-order sorted (rank_index (length samples) 99) (length samples - 1)
          (sort_unstable-IsSorted samples) (omega arith) (omega arith)) in
    let top : IsNearestRank samples 100 (get_or sorted (length samples - 1) 0) =
      get_or-IsNearestRank samples 100 (length samples - 1) (omega arith) (omega arith)
        (omega arith) in
    subst (IsRanked samples)
      {x = record {
        samples = if ltb u64_max (length sorted) then u64_max else length sorted;
        p50_us = nearest_rank sorted 50;
        p95_us = nearest_rank sorted 95;
        p99_us = nearest_rank sorted 99;
        max_us = get_or sorted (length sorted - 1) 0;
      }}
      (ground (arith, h))
      (record {
        samples_count = ground (arith, size);
        half = nearest_rank-IsNearestRank samples 50 (omega arith) few (omega arith);
        most = nearest_rank-IsNearestRank samples 95 (omega arith) few (omega arith);
        nearly_all = nearest_rank-IsNearestRank samples 99 (omega arith) few (omega arith);
        whole = subst (λ n. IsNearestRank samples 100 (get_or sorted (n - 1) 0)) (sym size) top;
        p50_p95 = nearest_rank-order samples 50 95 (omega arith) few (omega arith) (omega arith);
        p95_p99 = nearest_rank-order samples 95 99 (omega arith) few (omega arith) (omega arith);
        p99_max = subst (λ n. nearest_rank sorted 99 ≤ get_or sorted (n - 1) 0) (sym size) last;
      })
