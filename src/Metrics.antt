-- ===== src/Metrics.antt =====
-- Counters and latencies of integration001/src/metrics.rs. A text is its bytes; a duration is its
-- microseconds.
pub mod Counters
pub mod Latency
pub mod Phases
pub mod Json
mod Examples
use avangard.Prelude.{
  ℕ, zero, suc, ◌+◌, ◌-◌, ◌*◌, ◌/◌, ◌==◌, Option, none, some, List, [], ◌∷◌, ◌++◌, ltb, leb, length,
  get_or, if◌then◌else◌,
}
use avangard.Prelude.Assoc.{Map, lookup, bytes_has_eq}
use avangard.Prelude.Tree.{tree_insert, bytes_has_lt}
use avangard.Store.Types.{u64_max}

-- `u64::saturating_add`, and `saturating_mul`
abbrev pub saturating_add : ℕ → ℕ → ℕ
saturating_add a b = if ltb u64_max (a + b) then u64_max else a + b

abbrev pub saturating_mul : ℕ → ℕ → ℕ
saturating_mul a b = if ltb u64_max (a * b) then u64_max else a * b

pub record WireSnapshot : Type 0 where
  pub requests : ℕ
  pub bytes_sent : ℕ
  pub bytes_received : ℕ

-- The counters hold what a snapshot of them copies.
abbrev pub WireCounters : Type 0
WireCounters = WireSnapshot

abbrev pub new_counters : WireCounters
new_counters = record { requests = 0; bytes_sent = 0; bytes_received = 0 }

-- `WireSnapshot::merge`
unfoldable pub merge_wire : WireSnapshot → WireSnapshot → WireSnapshot
merge_wire self other = record {
  requests = saturating_add self.requests other.requests;
  bytes_sent = saturating_add self.bytes_sent other.bytes_sent;
  bytes_received = saturating_add self.bytes_received other.bytes_received;
}

-- One `saturating_atomic_add`: the counter, and what is added to it. Threads interleave between these.
pub data Step : Type 0 where
  add_requests add_bytes_sent add_bytes_received : ℕ → Step

unfoldable pub saturating_atomic_add : Step → WireCounters → WireCounters
saturating_atomic_add (add_requests value) counters = record counters {
  requests = saturating_add counters.requests value;
}
saturating_atomic_add (add_bytes_sent value) counters = record counters {
  bytes_sent = saturating_add counters.bytes_sent value;
}
saturating_atomic_add (add_bytes_received value) counters = record counters {
  bytes_received = saturating_add counters.bytes_received value;
}

unfoldable pub run_steps : List Step → WireCounters → WireCounters
run_steps [] counters = counters
run_steps (step ∷ steps) counters = run_steps steps (saturating_atomic_add step counters)

-- The additions of the methods of `WireCounters`, in order.
unfoldable pub record_request : ℕ → ℕ → List Step
record_request bytes_sent bytes_received =
    add_requests 1 ∷ add_bytes_sent bytes_sent ∷ add_bytes_received bytes_received ∷ []

unfoldable pub increment_requests : List Step
increment_requests = add_requests 1 ∷ []

unfoldable pub merge_snapshot : WireSnapshot → List Step
merge_snapshot snapshot =
    add_requests snapshot.requests
    ∷ add_bytes_sent snapshot.bytes_sent
    ∷ add_bytes_received snapshot.bytes_received
    ∷ []

pub record LatencySummary : Type 0 where
  pub samples : ℕ
  pub p50_us : ℕ
  pub p95_us : ℕ
  pub p99_us : ℕ
  pub max_us : ℕ

-- `sort_unstable`: on integers every sort gives the same list.
abbrev pub insert_sorted : ℕ → List ℕ → List ℕ
insert_sorted x [] = x ∷ []
insert_sorted x (y ∷ ys) = let rest = insert_sorted x ys in if leb x y then x ∷ y ∷ ys else y ∷ rest

abbrev pub sort_unstable : List ℕ → List ℕ
sort_unstable [] = []
sort_unstable (x ∷ xs) = insert_sorted x (sort_unstable xs)

-- The index that `nearest_rank` reads: `rank.max(1).min(count) - 1`.
abbrev pub rank_index : ℕ → ℕ → ℕ
rank_index count percentile =
    let rank = saturating_add (saturating_mul count percentile) 99 / 100 in
    let positive = if ltb rank 1 then 1 else rank in
    (if ltb count positive then count else positive) - 1

unfoldable pub nearest_rank : List ℕ → ℕ → ℕ
nearest_rank sorted percentile = get_or sorted (rank_index (length sorted) percentile) 0

unfoldable pub summarize_latencies : List ℕ → Option LatencySummary
unfolding nearest_rank
summarize_latencies [] = none
summarize_latencies (sample ∷ samples) =
    let sorted = sort_unstable (sample ∷ samples) in
    let count = length sorted in
    some (record {
      samples = if ltb u64_max count then u64_max else count;
      p50_us = nearest_rank sorted 50;
      p95_us = nearest_rank sorted 95;
      p99_us = nearest_rank sorted 99;
      max_us = get_or sorted (count - 1) 0;
    })

-- `RunMetrics`, and its snapshot
pub record RunMetrics : Type 0 where
  pub wire : WireCounters
  pub phase_samples_us : Map (List ℕ) (List ℕ)

-- `entry(..).or_default()`
abbrev pub samples_of : List ℕ → Map (List ℕ) (List ℕ) → List ℕ
samples_of phase phases = elim (lookup phase phases) [ none ↦ [] | some samples ↦ samples ]

unfoldable pub record_latency_us : List ℕ → ℕ → RunMetrics → RunMetrics
record_latency_us phase microseconds run = record run {
  phase_samples_us =
      tree_insert phase (samples_of phase run.phase_samples_us ++ (microseconds ∷ []))
        run.phase_samples_us;
}

unfoldable pub record_latency : List ℕ → ℕ → RunMetrics → RunMetrics
unfolding record_latency_us
record_latency phase elapsed run =
    record_latency_us phase (if ltb u64_max elapsed then u64_max else elapsed) run

unfoldable pub phase_summary : List ℕ → RunMetrics → Option LatencySummary
unfolding summarize_latencies
phase_summary phase run = elim (lookup phase run.phase_samples_us) [
  | none ↦ none
  | some samples ↦ summarize_latencies samples
]

-- `phase_summaries`, over the entries
unfoldable pub phase_summaries : Map (List ℕ) (List ℕ) → Map (List ℕ) LatencySummary
unfolding summarize_latencies
phase_summaries [] = []
phase_summaries ((phase, samples) ∷ entries) =
    let rest = phase_summaries entries in
    elim (summarize_latencies samples) [ none ↦ rest | some summary ↦ (phase, summary) ∷ rest ]

-- The loop over the phases in `merge_snapshot`.
unfoldable pub merge_phases : Map (List ℕ) (List ℕ) → Map (List ℕ) (List ℕ) → Map (List ℕ) (List ℕ)
merge_phases [] phases = phases
merge_phases ((phase, samples) ∷ entries) phases =
    merge_phases entries (tree_insert phase (samples_of phase phases ++ samples) phases)

unfoldable pub merge_run : RunMetrics → RunMetrics → RunMetrics
unfolding merge_phases
merge_run self other = record {
  wire = run_steps (merge_snapshot other.wire) self.wire;
  phase_samples_us = merge_phases other.phase_samples_us self.phase_samples_us;
}
