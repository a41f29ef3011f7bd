-- ===== src/Controller/Conflicts.antt =====
-- The count of split votes in integration001/src/main.rs, `exhaustive_conflict_safety_cases`.
use Prim.Native.Nat.{bit_and}
use avangard.Prelude.{
  ℕ, zero, suc, ◌+◌, ◌-◌, ◌/◌, ◌%◌, ◌==◌, not, ◌&&◌, Bool, List, [], ◌∷◌, leb, Result, ok, ◌>>=◌,
  ◌>>◌, reject_if, if◌then◌else◌,
}
use avangard.Metrics.{saturating_add}
use avangard.Controller.{ControllerError, dual_quorum, wrong_case_count, numbers}

-- `count_ones` of a number of so many bits
abbrev count_ones : ℕ → ℕ → ℕ
count_ones zero value = 0
count_ones (suc bits) value = value % 2 + count_ones bits (value / 2)

abbrev has_bits : ℕ → ℕ → ℕ
has_bits value mask = if bit_and value mask == 0 then 0 else 1

unfoldable pub is_dual : ℕ → ℕ → ℕ → Bool
is_dual honest_choices byzantine_zero byzantine_one =
    let honest_a = count_ones 8 honest_choices in
    let honest_b = 5 - honest_a in
    let byzantine_a = has_bits byzantine_zero 1 + has_bits byzantine_one 1 in
    let byzantine_b = has_bits byzantine_zero 2 + has_bits byzantine_one 2 in
    leb 5 (honest_a + byzantine_a) && leb 5 (honest_b + byzantine_b)

-- The three loops, each with the number of cases so far.
unfoldable pub run_ones : ℕ → ℕ → List ℕ → ℕ → Result ControllerError ℕ
run_ones honest_choices byzantine_zero [] cases = ok cases
run_ones honest_choices byzantine_zero (byzantine_one ∷ ones) cases = do
  reject_if (is_dual honest_choices byzantine_zero byzantine_one) dual_quorum
  run_ones honest_choices byzantine_zero ones (saturating_add cases 1)

unfoldable pub run_zeros : ℕ → List ℕ → ℕ → Result ControllerError ℕ
run_zeros honest_choices [] cases = ok cases
run_zeros honest_choices (byzantine_zero ∷ zeros) cases = do
  cases ← run_ones honest_choices byzantine_zero (numbers 0 4) cases
  run_zeros honest_choices zeros cases

unfoldable pub run_choices : List ℕ → ℕ → Result ControllerError ℕ
run_choices [] cases = ok cases
run_choices (honest_choices ∷ choices) cases = do
  cases ← run_zeros honest_choices (numbers 0 4) cases
  run_choices choices cases

unfoldable pub exhaustive_conflict_safety_cases : Result ControllerError ℕ
exhaustive_conflict_safety_cases = do
  cases ← run_choices (numbers 0 32) 0
  reject_if (not (cases == 512)) wrong_case_count
  ok cases
