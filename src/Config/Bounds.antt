-- ===== src/Config/Bounds.antt =====
-- What a configuration that integration001/src/config.rs accepts satisfies.
use avangard.Prelude.{
  ℕ, ◌≤◌, ◌≡◌, List, [], ◌∷◌, ok, arith, inl, inr, Bool-cases, Result-cases, bytes_eq,
}
use avangard.Prelude.Bytes.{codes}
use avangard.Config.{
  ControllerConfig, default_config, max_bench_count, set_bench_count, set_evidence, parse_args,
  parse_controller_args,
}

-- From one to 128 benchmark transfers.
pub record IsBounded (config : ControllerConfig) : Type 0 where
  pub least : 1 ≤ config.bench_count
  pub most : config.bench_count ≤ max_bench_count

set_bench_count-IsBounded :
    (config next : ControllerConfig) (raw : List ℕ)
    → set_bench_count config raw ≡ ok next
    → IsBounded next
unfolding set_bench_count
set_bench_count-IsBounded config next raw h = ground arith

set_evidence-IsBounded :
    (config next : ControllerConfig) (raw : List ℕ)
    → IsBounded config
    → set_evidence config raw ≡ ok next
    → IsBounded next
unfolding set_evidence
set_evidence-IsBounded config next raw b h = ground (arith, b.least, b.most)

parse_args-IsBounded :
    (config last : ControllerConfig) (args : List (List ℕ))
    → IsBounded config
    → parse_args config args ≡ ok last
    → IsBounded last
unfolding parse_args
parse_args-IsBounded config last [] b h = ground (arith, b.least, b.most)
parse_args-IsBounded config last (arg ∷ []) b h = absurd (ground arith)
parse_args-IsBounded config last (arg ∷ raw ∷ args) b h =
    elim (Bool-cases (bytes_eq arg (codes "--bench-count"))) [
      | inl bench ↦ elim (Result-cases (set_bench_count config raw)) [
        | inl (next, e) ↦
            parse_args-IsBounded next last args (set_bench_count-IsBounded config next raw e)
              (ground arith)
        | inr (x, e) ↦ absurd (ground arith)
      ]
      | inr other ↦ elim (Result-cases (set_evidence config raw)) [
        | inl (next, e) ↦
            parse_args-IsBounded next last args (set_evidence-IsBounded config next raw b e)
              (ground arith)
        | inr (x, e) ↦ absurd (ground arith)
      ]
    ]

-- Arguments that are accepted, in any number and order, ask for one to 128 benchmark transfers.
pub parse_controller_args-IsBounded :
    (args : List (List ℕ)) (config : ControllerConfig)
    → parse_controller_args args ≡ ok config
    → IsBounded config
unfolding parse_controller_args
parse_controller_args-IsBounded args config h =
    parse_args-IsBounded default_config config args
      (record { least = omega arith; most = omega arith }) h
