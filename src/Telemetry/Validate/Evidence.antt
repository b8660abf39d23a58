-- ===== src/Telemetry/Validate/Evidence.antt =====
-- What a record must satisfy to be evidence, said without the order of the checks.
use gb10x.Prelude.{◌≤◌, ◌<◌, refl, inr, Option, none, some, All}
use gb10x.Prelude.Sorted.{IsAscending}
use gb10x.Prelude.Texts.{Text, IsWritten, IsNonempty, is_empty_iff}
use gb10x.Prelude.Decides.{
  nonzero-Decides, le-Decides, Decides, >>-Decides, Decides_iff, fail_if-Decides, ok-Decides,
}
use gb10x.Telemetry.Record.{
  ExecutionMode, exact, experimental_approximate, CpuPlacement, unpinned, affinity, isolated,
  ExecutionConfig, HardwareState, WorkloadShape, CacheCounters, PerformanceMetrics,
  SpeculationMetrics, CorrectnessGate, passed, failed, EvidenceRecord,
}
use gb10x.Telemetry.Validate.{
  validate_cpu_placement, validate_execution, validate_workload, validate_metrics,
  validate_governor, validate_hardware_state, validate_speculation, validate_gate,
  validate_correctness, validate_mode, validate,
}
use gb10x.Telemetry.Validate.Parts.{
  Holds, IsPositive, IsDouble, IsOrdered, IsMeasured, any_empty_iff, is_inverted_iff,
  require_nonempty-Decides, has_any_measurement-Decides, validate_positive_f64-Decides,
  validate_nonzero_u64-Decides, validate_cpu_list-Decides,
}

abbrev pub IsNamed : ExecutionMode → Type 0
IsNamed exact = Unit
IsNamed (experimental_approximate label) = IsWritten label

abbrev pub IsPlaced : CpuPlacement → Type 0
IsPlaced (unpinned reason) = IsWritten reason
IsPlaced (affinity cpus) = IsNonempty cpus × IsAscending cpus
IsPlaced (isolated cpus profile) = (IsNonempty cpus × IsAscending cpus) × IsWritten profile

abbrev pub IsReproducible : ExecutionConfig → Type 0
IsReproducible e =
    (IsNonempty e.command)
    × ((All IsNonempty e.command)
        × ((IsWritten e.runtime_profile)
            × ((IsWritten e.runtime_config_digest)
                × ((IsWritten e.precision_mode)
                    × ((IsWritten e.quantization_mode) × (IsPlaced e.cpu_placement))))))

abbrev pub IsWorkload : WorkloadShape → Type 0
IsWorkload w =
    (0 < w.context_tokens)
    × ((0 < w.prompt_tokens)
        × ((0 < w.output_tokens) × ((0 < w.concurrency) × (w.prompt_tokens ≤ w.context_tokens))))

abbrev pub IsConsistent : PerformanceMetrics → CacheCounters → Type 0
IsConsistent p c =
    (Holds IsPositive p.prefill_tokens_per_second)
    × ((Holds IsPositive p.decode_tokens_per_second)
        × ((Holds IsPositive p.power_watts)
            × ((Holds IsPositive p.tokens_per_joule)
                × ((IsMeasured p)
                    × ((IsOrdered p.p50_latency_micros p.p95_latency_micros)
                        × (c.ple_prefetch_useful_rows ≤ c.ple_prefetched_rows))))))

abbrev pub IsHardware : HardwareState → Type 0
IsHardware h =
    (Holds (λ n. 0 < n) h.average_power_milliwatts)
    × ((Holds (λ n. 0 < n) h.power_limit_milliwatts)
        × ((Holds (λ n. 0 < n) h.gpu_clock_hz) × (Holds IsWritten h.cpu_governor)))

abbrev pub IsSpeculation : SpeculationMetrics → Type 0
IsSpeculation s =
    (IsWritten s.strategy)
    × ((0 < s.proposed_tokens)
        × ((s.accepted_tokens ≤ s.proposed_tokens) × (0 < s.verified_cycles)))

abbrev pub IsGate : Option CorrectnessGate → Type 0
IsGate none = ⊥
IsGate (some (passed oracle checked)) = IsWritten oracle × (0 < checked)
IsGate (some (failed oracle checked reason)) = IsWritten oracle × (IsWritten reason × (0 < checked))

abbrev pub IsEvidence : EvidenceRecord → Type 0
IsEvidence r =
    IsWritten r.identity.git_commit
    × (IsWritten r.identity.model_id
        × (IsWritten r.identity.model_revision
            × (IsWritten r.identity.model_digest
                × (IsWritten r.identity.hardware
                    × (IsNamed r.identity.mode
                        × ((IsReproducible r.execution)
                            × ((IsWorkload r.workload)
                                × ((IsConsistent r.performance r.caches)
                                    × ((IsHardware r.hardware_state)
                                        × ((Holds IsSpeculation r.speculation)
                                            × (IsGate r.correctness)))))))))))

-- Each `f64` of the metrics has 64 bits.
abbrev pub HasDoubles : PerformanceMetrics → Type 0
HasDoubles p =
    (Holds IsDouble p.prefill_tokens_per_second)
    × (Holds IsDouble p.decode_tokens_per_second)
    × (Holds IsDouble p.power_watts)
    × (Holds IsDouble p.tokens_per_joule)

validate_mode-Decides : (m : ExecutionMode) → Decides (validate_mode m) (IsNamed m)
unfolding validate_mode
validate_mode-Decides exact = ok-Decides
validate_mode-Decides (experimental_approximate label) = require_nonempty-Decides label _

validate_cpu_placement-Decides :
    (c : CpuPlacement) → Decides (validate_cpu_placement c) (IsPlaced c)
unfolding validate_cpu_placement
validate_cpu_placement-Decides (unpinned reason) = require_nonempty-Decides reason _
validate_cpu_placement-Decides (affinity cpus) = validate_cpu_list-Decides cpus
validate_cpu_placement-Decides (isolated cpus profile) =
    >>-Decides (validate_cpu_list-Decides cpus) (require_nonempty-Decides profile _)

validate_execution-Decides :
    (e : ExecutionConfig) → Decides (validate_execution e) (IsReproducible e)
unfolding validate_execution
validate_execution-Decides e =
    >>-Decides (Decides_iff (is_empty_iff e.command) (fail_if-Decides _ _)) (
      >>-Decides (Decides_iff (any_empty_iff e.command) (fail_if-Decides _ _)) (
        >>-Decides (require_nonempty-Decides e.runtime_profile _) (
          >>-Decides (require_nonempty-Decides e.runtime_config_digest _) (
            >>-Decides (require_nonempty-Decides e.precision_mode _) (
              >>-Decides (require_nonempty-Decides e.quantization_mode _)
                (validate_cpu_placement-Decides e.cpu_placement))))))

validate_workload-Decides : (w : WorkloadShape) → Decides (validate_workload w) (IsWorkload w)
unfolding validate_workload
validate_workload-Decides w = >>-Decides (nonzero-Decides w.context_tokens _) (
    >>-Decides (nonzero-Decides w.prompt_tokens _) (
      >>-Decides (nonzero-Decides w.output_tokens _) (
        >>-Decides (nonzero-Decides w.concurrency _)
          (le-Decides w.prompt_tokens w.context_tokens _))))

validate_metrics-Decides :
    (p : PerformanceMetrics) (c : CacheCounters)
    → HasDoubles p
    → Decides (validate_metrics p c) (IsConsistent p c)
unfolding validate_metrics
validate_metrics-Decides p c (a, b, d, e) =
    >>-Decides (validate_positive_f64-Decides p.prefill_tokens_per_second _ a) (
      >>-Decides (validate_positive_f64-Decides p.decode_tokens_per_second _ b) (
        >>-Decides (validate_positive_f64-Decides p.power_watts _ d) (
          >>-Decides (validate_positive_f64-Decides p.tokens_per_joule _ e) (
            >>-Decides (has_any_measurement-Decides p _) (
              >>-Decides
                (Decides_iff (is_inverted_iff p.p50_latency_micros p.p95_latency_micros)
                  (fail_if-Decides _ _))
                (le-Decides c.ple_prefetch_useful_rows c.ple_prefetched_rows _))))))

validate_governor-Decides : (g : Option Text) → Decides (validate_governor g) (Holds IsWritten g)
unfolding validate_governor
validate_governor-Decides none = ok-Decides
validate_governor-Decides (some governor) = require_nonempty-Decides governor _

validate_hardware_state-Decides :
    (h : HardwareState) → Decides (validate_hardware_state h) (IsHardware h)
unfolding validate_hardware_state
validate_hardware_state-Decides h =
    >>-Decides (validate_nonzero_u64-Decides h.average_power_milliwatts _) (
      >>-Decides (validate_nonzero_u64-Decides h.power_limit_milliwatts _) (
        >>-Decides (validate_nonzero_u64-Decides h.gpu_clock_hz _)
          (validate_governor-Decides h.cpu_governor)))

validate_speculation-Decides :
    (s : Option SpeculationMetrics) → Decides (validate_speculation s) (Holds IsSpeculation s)
unfolding validate_speculation
validate_speculation-Decides none = ok-Decides
validate_speculation-Decides (some s) = >>-Decides (require_nonempty-Decides s.strategy _) (
    >>-Decides (nonzero-Decides s.proposed_tokens _) (
      >>-Decides (le-Decides s.accepted_tokens s.proposed_tokens _)
        (nonzero-Decides s.verified_cycles _)))

validate_correctness-Decides :
    (c : Option CorrectnessGate) → Decides (validate_correctness c) (IsGate c)
unfolding validate_correctness validate_gate
validate_correctness-Decides none = inr (_, refl, λ h. elim h [ ])
validate_correctness-Decides (some (passed oracle checked)) =
    >>-Decides (require_nonempty-Decides oracle _) (nonzero-Decides checked _)
validate_correctness-Decides (some (failed oracle checked reason)) =
    >>-Decides (require_nonempty-Decides oracle _)
      (>>-Decides (require_nonempty-Decides reason _) (nonzero-Decides checked _))

-- A record validates exactly when it is evidence, its doubles having 64 bits; else an error is
-- reported.
pub validate-Decides :
    (r : EvidenceRecord) → HasDoubles r.performance → Decides (validate r) (IsEvidence r)
unfolding validate
validate-Decides r h = >>-Decides (require_nonempty-Decides r.identity.git_commit _) (
    >>-Decides (require_nonempty-Decides r.identity.model_id _) (
      >>-Decides (require_nonempty-Decides r.identity.model_revision _) (
        >>-Decides (require_nonempty-Decides r.identity.model_digest _) (
          >>-Decides (require_nonempty-Decides r.identity.hardware _) (
            >>-Decides (validate_mode-Decides r.identity.mode) (
              >>-Decides (validate_execution-Decides r.execution) (
                >>-Decides (validate_workload-Decides r.workload) (
                  >>-Decides (validate_metrics-Decides r.performance r.caches h) (
                    >>-Decides (validate_hardware_state-Decides r.hardware_state) (
                      >>-Decides (validate_speculation-Decides r.speculation)
                        (validate_correctness-Decides r.correctness)))))))))))
