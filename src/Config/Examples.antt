-- ===== src/Config/Examples.antt =====
-- Arguments of the controller.
use avangard.Prelude.{ℕ, ◌≡◌, refl, some, List, [], ◌∷◌, ok, err, bytes_eq}
use avangard.Prelude.Bytes.{codes}
use avangard.Config.{ControllerConfig, bench_count_range, parse_controller_args}
use avangard.Config.Bounds.{IsBounded, parse_controller_args-IsBounded}

abbrev args : List (List ℕ)
args = codes "--evidence" ∷ codes "result.json" ∷ codes "--bench-count" ∷ codes "12" ∷ []

abbrev config : ControllerConfig
config = record { bench_count = 12; evidence_path = some (codes "result.json") }

accepted : parse_controller_args args ≡ ok config
unfolding parse_controller_args bytes_eq
accepted = refl

out_of_range :
    parse_controller_args (codes "--bench-count" ∷ codes "129" ∷ []) ≡ err bench_count_range
unfolding parse_controller_args bytes_eq
out_of_range = refl

parse_controller_args-IsBounded_example : IsBounded config
parse_controller_args-IsBounded_example = parse_controller_args-IsBounded args config accepted
