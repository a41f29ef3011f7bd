-- ===== src/Metrics/Counters.antt =====
-- The counters of integration001/src/metrics.rs under any interleaving of threads.
use avangard.Prelude.{ℕ, ◌+◌, ◌≤◌, ◌≡◌, refl, ap, sym, ◌∙◌, List, [], ◌∷◌, arith}
use avangard.Store.Types.{u64_max}
use avangard.Metrics.{
  WireSnapshot, WireCounters, Step, add_requests, add_bytes_sent, add_bytes_received,
  saturating_add, saturating_atomic_add, run_steps, merge_wire,
}

-- What steps add to each counter, without a bound.
abbrev total_requests : List Step → ℕ
total_requests [] = 0
total_requests (add_requests value ∷ steps) = value + total_requests steps
total_requests (add_bytes_sent value ∷ steps) = total_requests steps
total_requests (add_bytes_received value ∷ steps) = total_requests steps

abbrev total_sent : List Step → ℕ
total_sent [] = 0
total_sent (add_requests value ∷ steps) = total_sent steps
total_sent (add_bytes_sent value ∷ steps) = value + total_sent steps
total_sent (add_bytes_received value ∷ steps) = total_sent steps

abbrev total_received : List Step → ℕ
total_received [] = 0
total_received (add_requests value ∷ steps) = total_received steps
total_received (add_bytes_sent value ∷ steps) = total_received steps
total_received (add_bytes_received value ∷ steps) = value + total_received steps

abbrev pub totals : List Step → WireSnapshot
totals steps = record {
  requests = total_requests steps;
  bytes_sent = total_sent steps;
  bytes_received = total_received steps;
}

-- The steps of two threads in some order, each thread's own in its order.
pub data Interleaves : List Step → List Step → List Step → Type 0 where
  both_done : Interleaves [] [] []
  from_left :
      {step : Step} {left right steps : List Step}
      → Interleaves left right steps
      → Interleaves (step ∷ left) right (step ∷ steps)
  from_right :
      {step : Step} {left right steps : List Step}
      → Interleaves left right steps
      → Interleaves left (step ∷ right) (step ∷ steps)

pub record IsCounted (counters : WireCounters) : Type 0 where
  pub requests : counters.requests ≤ u64_max
  pub bytes_sent : counters.bytes_sent ≤ u64_max
  pub bytes_received : counters.bytes_received ≤ u64_max

saturating_add_twice :
    (a b c : ℕ) → saturating_add (saturating_add a b) c ≡ saturating_add a (b + c)
saturating_add_twice a b c = ground arith

saturating_add_bound : (a b : ℕ) → saturating_add a b ≤ u64_max
saturating_add_bound a b = ground arith

merge_wire-IsCounted : (counters other : WireSnapshot) → IsCounted (merge_wire counters other)
unfolding merge_wire
merge_wire-IsCounted counters other = record {
  requests = saturating_add_bound counters.requests other.requests;
  bytes_sent = saturating_add_bound counters.bytes_sent other.bytes_sent;
  bytes_received = saturating_add_bound counters.bytes_received other.bytes_received;
}

-- Two amounts of steps, one after the other.
abbrev plus : WireSnapshot → WireSnapshot → WireSnapshot
plus a b = record {
  requests = a.requests + b.requests;
  bytes_sent = a.bytes_sent + b.bytes_sent;
  bytes_received = a.bytes_received + b.bytes_received;
}

merge_wire-plus :
    (counters a b : WireSnapshot)
    → merge_wire (merge_wire counters a) b ≡ merge_wire counters (plus a b)
unfolding merge_wire
merge_wire-plus counters a b =
    rw
      (
        ← saturating_add_twice counters.requests a.requests b.requests,
        ← saturating_add_twice counters.bytes_sent a.bytes_sent b.bytes_sent,
        ← saturating_add_twice counters.bytes_received a.bytes_received b.bytes_received,
      )
      refl

wire_equal :
    (a b : WireSnapshot)
    → a.requests ≡ b.requests
    → a.bytes_sent ≡ b.bytes_sent
    → a.bytes_received ≡ b.bytes_received
    → a ≡ b
wire_equal a b h k l i = record { requests = h i; bytes_sent = k i; bytes_received = l i }

step-totals :
    (step : Step) (counters : WireCounters)
    → IsCounted counters
    → saturating_atomic_add step counters ≡ merge_wire counters (totals (step ∷ []))
unfolding saturating_atomic_add merge_wire
step-totals (add_requests value) counters counted =
    wire_equal _ _ (ground arith) (ground arith) (ground arith)
step-totals (add_bytes_sent value) counters counted =
    wire_equal _ _ (ground arith) (ground arith) (ground arith)
step-totals (add_bytes_received value) counters counted =
    wire_equal _ _ (ground arith) (ground arith) (ground arith)

totals-cons :
    (step : Step) (steps : List Step)
    → plus (totals (step ∷ [])) (totals steps) ≡ totals (step ∷ steps)
totals-cons (add_requests value) steps = wire_equal _ _ (omega arith) (omega arith) (omega arith)
totals-cons (add_bytes_sent value) steps = wire_equal _ _ (omega arith) (omega arith) (omega arith)
totals-cons (add_bytes_received value) steps =
    wire_equal _ _ (omega arith) (omega arith) (omega arith)

merge_nothing :
    (counters : WireCounters) → IsCounted counters → counters ≡ merge_wire counters (totals [])
unfolding merge_wire
merge_nothing counters counted = wire_equal _ _ (ground arith) (ground arith) (ground arith)

-- Steps add their totals, up to the bound of the counters.
pub run_steps-totals :
    (steps : List Step) (counters : WireCounters)
    → IsCounted counters
    → run_steps steps counters ≡ merge_wire counters (totals steps)
unfolding run_steps
run_steps-totals [] counters counted = merge_nothing counters counted
run_steps-totals (step ∷ steps) counters counted =
    let one = step-totals step counters counted in
    ap (run_steps steps) one
    ∙ run_steps-totals steps (merge_wire counters (totals (step ∷ []))) (merge_wire-IsCounted _ _)
    ∙ merge_wire-plus counters (totals (step ∷ [])) (totals steps)
    ∙ ap (merge_wire counters) (totals-cons step steps)

plus_swap : (x a b : WireSnapshot) → plus x (plus a b) ≡ plus a (plus x b)
plus_swap x a b = wire_equal _ _ (omega arith) (omega arith) (omega arith)

plus_assoc : (x a b : WireSnapshot) → plus x (plus a b) ≡ plus (plus x a) b
plus_assoc x a b = wire_equal _ _ (omega arith) (omega arith) (omega arith)

Interleaves-totals :
    (left right steps : List Step)
    → Interleaves left right steps
    → totals steps ≡ plus (totals left) (totals right)
Interleaves-totals left right steps both_done = refl
Interleaves-totals left right steps
      (from_left {step = step} {left = l} {right = r} {steps = s} rest) =
    let same = Interleaves-totals l r s rest in
    sym (totals-cons step s)
    ∙ ap (plus (totals (step ∷ []))) same
    ∙ plus_assoc (totals (step ∷ [])) (totals l) (totals r)
    ∙ ap (λ t. plus t (totals r)) (totals-cons step l)
Interleaves-totals left right steps
      (from_right {step = step} {left = l} {right = r} {steps = s} rest) =
    let same = Interleaves-totals l r s rest in
    sym (totals-cons step s)
    ∙ ap (plus (totals (step ∷ []))) same
    ∙ plus_swap (totals (step ∷ [])) (totals l) (totals r)
    ∙ ap (plus (totals l)) (totals-cons step r)

-- Whatever way the atomic additions of two threads interleave, the counters end as if one thread ran
-- after the other: each has its sum, or the largest value where the sum is beyond it. The counters
-- start within 64 bits.
pub run_steps-Interleaves :
    (left right steps : List Step) (counters : WireCounters)
    → IsCounted counters
    → Interleaves left right steps
    → (run_steps steps counters ≡ run_steps right (run_steps left counters))
      × (run_steps steps counters ≡ merge_wire counters (totals steps))
run_steps-Interleaves left right steps counters counted mixed =
    let first = run_steps-totals left counters counted in
    let both =
      run_steps-totals right (merge_wire counters (totals left)) (merge_wire-IsCounted _ _) in
    let all = run_steps-totals steps counters counted in
    (
      all
          ∙ ap (merge_wire counters) (Interleaves-totals left right steps mixed)
          ∙ sym (merge_wire-plus counters (totals left) (totals right))
          ∙ sym both
          ∙ ap (run_steps right) (sym first),
      all,
    )
