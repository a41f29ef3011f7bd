-- ===== src/Config.antt =====
-- The controller's arguments, integration001/src/config.rs. An argument is its bytes.
pub mod Bounds
mod Examples
use avangard.Prelude.{
  ℕ, ◌+◌, ◌*◌, ◌-◌, ◌^◌, ◌==◌, not, ◌&&◌, ◌||◌, true, false, Bool, Option, none, some, List, [],
  ◌∷◌, ltb, leb, bytes_eq, length, Result, ok, err, ◌>>=◌, ◌>>◌, reject_if, ok_or, if◌then◌else◌,
}
use avangard.Prelude.Bytes.{codes}
use avangard.Prelude.Parse.{parse_uint}

abbrev pub max_bench_count : ℕ
max_bench_count = 128

abbrev pub default_bench_count : ℕ
default_bench_count = max_bench_count

pub record ControllerConfig : Type 0 where
  pub bench_count : ℕ
  pub evidence_path : Option (List ℕ)

abbrev pub default_config : ControllerConfig
default_config = record { bench_count = default_bench_count; evidence_path = none }

pub data ConfigError : Type 0 where
  missing_bench_count invalid_bench_count bench_count_range : ConfigError
  missing_evidence empty_evidence not_implemented unknown_argument : ConfigError

unfoldable pub set_bench_count : ControllerConfig → List ℕ → Result ConfigError ControllerConfig
set_bench_count config raw = do
  value ← ok_or (parse_uint (2 ^ 64) raw) invalid_bench_count
  reject_if (ltb value 1 || ltb max_bench_count value) bench_count_range
  ok (record config { bench_count = value })

unfoldable pub set_evidence : ControllerConfig → List ℕ → Result ConfigError ControllerConfig
set_evidence config raw = do
  reject_if (length raw == 0) empty_evidence
  ok (record config { evidence_path = some raw })

abbrev pub is_campaign : List ℕ → Bool
is_campaign arg = bytes_eq arg (codes "--campaign") || bytes_eq arg (codes "--full-campaign")

-- The loop, over the arguments from `index` on.
unfoldable pub parse_args : ControllerConfig → List (List ℕ) → Result ConfigError ControllerConfig
unfolding set_bench_count set_evidence
parse_args config [] = ok config
parse_args config (arg ∷ []) =
    if bytes_eq arg (codes "--bench-count")
    then err missing_bench_count
    else if bytes_eq arg (codes "--evidence")
    then err missing_evidence
    else if is_campaign arg
    then err not_implemented
    else err unknown_argument
parse_args config (arg ∷ raw ∷ args) =
    if bytes_eq arg (codes "--bench-count")
    then (do next ← set_bench_count config raw; parse_args next args)
    else if bytes_eq arg (codes "--evidence")
    then (do next ← set_evidence config raw; parse_args next args)
    else if is_campaign arg
    then err not_implemented
    else err unknown_argument

unfoldable pub parse_controller_args : List (List ℕ) → Result ConfigError ControllerConfig
unfolding parse_args
parse_controller_args args = parse_args default_config args
