-- ===== src/Metrics/Phases.antt =====
-- Samples that are recorded apart and merged, in integration001/src/metrics.rs.
use avangard.Prelude.{
  ◌≡◌, refl, subst, sym, ◌∙◌, ℕ, List, [], ◌∷◌, ◌++◌, arith, Bool-cases, inl, inr, if◌then◌else◌,
}
use mathlib.Core.List.{append-nil}
use avangard.Prelude.Assoc.{Map, lookup, bytes_has_eq}
use avangard.Prelude.Tree.{tree_insert, IsUnique, bytes_has_lt}
use avangard.Prelude.Tree.Laws.{lookup-tree_insert, lookup-of_absent}
use avangard.Metrics.{RunMetrics, samples_of, merge_phases, merge_run}

samples_of-tree_insert :
    (phase other : List ℕ) (samples : List ℕ) (phases : Map (List ℕ) (List ℕ))
    → samples_of other (tree_insert phase samples phases)
      ≡ (if bytes_has_eq.beq phase other then samples else samples_of other phases)
samples_of-tree_insert phase other samples phases =
    ground (arith, lookup-tree_insert phase other samples phases)

samples_of-cons :
    (phase other : List ℕ) (samples : List ℕ) (phases : Map (List ℕ) (List ℕ))
    → samples_of other ((phase, samples) ∷ phases)
      ≡ (if bytes_has_eq.beq phase other then samples else samples_of other phases)
unfolding lookup
samples_of-cons phase other samples phases = ground arith

merge_phases-samples :
    (entries phases : Map (List ℕ) (List ℕ)) (phase : List ℕ)
    → IsUnique entries
    → samples_of phase (merge_phases entries phases)
      ≡ samples_of phase phases ++ samples_of phase entries
unfolding merge_phases lookup
merge_phases-samples [] phases phase u = sym (append-nil _)
merge_phases-samples ((key, samples) ∷ entries) phases phase (fresh, u) =
    let next = tree_insert key (samples_of key phases ++ samples) phases in
    merge_phases-samples entries next phase u ∙ elim (Bool-cases (bytes_has_eq.beq key phase)) [
      | inl same ↦
          rw
            (
              samples_of-tree_insert key phase (samples_of key phases ++ samples) phases,
              samples_of-cons key phase samples entries,
              same,
            )
            (subst
              (λ t.
                (samples_of key phases ++ samples) ++ samples_of t entries
                ≡ samples_of t phases ++ samples)
              ((bytes_has_eq.beq_iff key phase).0 same)
              (rw (lookup-of_absent key entries fresh, samples_of) (append-nil _)))
      | inr other ↦
          rw
            (
              samples_of-tree_insert key phase (samples_of key phases ++ samples) phases,
              samples_of-cons key phase samples entries,
              other,
            )
            refl
    ]

-- Merging a collector into another leaves, of each phase, the samples of the one behind those of the
-- other, where no phase is twice in a collector.
pub merge_run-samples :
    (self other : RunMetrics) (phase : List ℕ)
    → IsUnique other.phase_samples_us
    → samples_of phase (merge_run self other).phase_samples_us
      ≡ samples_of phase self.phase_samples_us ++ samples_of phase other.phase_samples_us
unfolding merge_run
merge_run-samples self other phase u =
    merge_phases-samples other.phase_samples_us self.phase_samples_us phase u
