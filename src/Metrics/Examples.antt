-- ===== src/Metrics/Examples.antt =====
-- Tests of the metrics, and the theorems at concrete inputs.
use avangard.Prelude.{ℕ, ◌-◌, ◌^◌, ◌≡◌, refl, some, List, [], ◌∷◌, ◌++◌, arith, bytes_eq}
use avangard.Prelude.Assoc.{bytes_has_eq}
use avangard.Prelude.Tree.{contains}
use avangard.Prelude.Bytes.{codes}
use avangard.Metrics.{
  WireCounters, Step, add_requests, add_bytes_sent, add_bytes_received, new_counters, run_steps,
  merge_wire, LatencySummary, nearest_rank, summarize_latencies, RunMetrics, samples_of, merge_run,
}
use avangard.Metrics.Counters.{both_done, from_left, from_right, totals, run_steps-Interleaves}
use avangard.Metrics.Latency.{IsRanked, summarize_latencies-ranks}
use avangard.Metrics.Phases.{merge_run-samples}
use avangard.Metrics.Json.{json_escape, push_quoted, push_string_map, push_strings}
use avangard.Metrics.Json.Quoting.{read_quoted, read_quoted-push_quoted}

abbrev left : List Step
left = add_requests 1 ∷ add_bytes_sent 10 ∷ []

abbrev right : List Step
right = add_requests (2 ^ 64 - 2) ∷ add_bytes_received 5 ∷ []

abbrev mixed_steps : List Step
mixed_steps =
    add_requests (2 ^ 64 - 2) ∷ add_requests 1 ∷ add_bytes_received 5 ∷ add_bytes_sent 10 ∷ []

abbrev counters : WireCounters
counters = record { requests = 3; bytes_sent = 0; bytes_received = 0 }

run_steps-Interleaves_example :
    (run_steps mixed_steps counters ≡ run_steps right (run_steps left counters))
    × (run_steps mixed_steps counters ≡ merge_wire counters (totals mixed_steps))
run_steps-Interleaves_example =
    run_steps-Interleaves left right mixed_steps counters
      (record { requests = omega arith; bytes_sent = omega arith; bytes_received = omega arith })
      (from_right (from_left (from_right (from_left both_done))))

abbrev latencies : List ℕ
latencies = 5 ∷ 1 ∷ 9 ∷ 7 ∷ 3 ∷ []

abbrev summary : LatencySummary
summary = record { samples = 5; p50_us = 5; p95_us = 9; p99_us = 9; max_us = 9 }

summarized : summarize_latencies latencies ≡ some summary
unfolding summarize_latencies nearest_rank
summarized = refl

summarize_latencies-ranks_example : IsRanked latencies summary
summarize_latencies-ranks_example =
    summarize_latencies-ranks latencies summary (omega arith) summarized

abbrev vote_run : RunMetrics
vote_run = record { wire = new_counters; phase_samples_us = (codes "vote", 4 ∷ 2 ∷ []) ∷ [] }

abbrev apply_run : RunMetrics
apply_run = record {
  wire = new_counters;
  phase_samples_us = (codes "apply", 8 ∷ []) ∷ (codes "vote", 6 ∷ []) ∷ [];
}

merge_run-samples_example :
    samples_of (codes "vote") (merge_run vote_run apply_run).phase_samples_us
    ≡ samples_of (codes "vote") vote_run.phase_samples_us
      ++ samples_of (codes "vote") apply_run.phase_samples_us
unfolding contains bytes_eq
merge_run-samples_example = merge_run-samples vote_run apply_run (codes "vote") (refl, (refl, tt))

read_quoted-push_quoted_example :
    read_quoted (push_quoted (34 ∷ 10 ∷ 31 ∷ 92 ∷ 97 ∷ []) ++ (44 ∷ []))
    ≡ some (34 ∷ 10 ∷ 31 ∷ 92 ∷ 97 ∷ [], 44 ∷ [])
read_quoted-push_quoted_example = read_quoted-push_quoted (34 ∷ 10 ∷ 31 ∷ 92 ∷ 97 ∷ []) (44 ∷ [])

-- `{"a":"b","c":"d"}` behind its name
pushed :
    push_string_map (codes "m") ((codes "a", codes "b") ∷ (codes "c", codes "d") ∷ [])
    ≡ codes "\"m\":{\"a\":\"b\",\"c\":\"d\"}"
unfolding push_string_map push_strings push_quoted json_escape
pushed = refl
