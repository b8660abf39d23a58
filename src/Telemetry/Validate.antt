-- ===== src/Telemetry/Validate.antt =====
-- crates/gb10x-telemetry/src/record.rs: `EvidenceRecord::validate` and its parts. Each check is in
-- the source's place, since the first that fails names the error.
pub mod Parts
pub mod Evidence
use gb10x.Prelude.{
  ℕ, Bool, true, false, not, ◌||◌, Option, none, some, List, [], ◌∷◌, String, ok, ◌>>=◌, ◌>>◌,
  fail_if, ltb, leb, ◌==◌, ok_or,
}
use gb10x.Prelude.Texts.{Text, is_empty, trim, is_finite, le_zero}
use gb10x.Prelude.Decides.{Check}
use gb10x.Telemetry.Record.{
  ExecutionMode, exact, experimental_approximate, CpuPlacement, unpinned, affinity, isolated,
  ExecutionConfig, HardwareState, WorkloadShape, CacheCounters, PerformanceMetrics,
  SpeculationMetrics, CorrectnessGate, passed, failed, EvidenceRecord, EvidenceError, missing,
  invalid, has_any_measurement,
}

abbrev pub Validation : Type 0
Validation = Check EvidenceError

unfoldable pub require_nonempty : Text → String → Validation
require_nonempty value field = fail_if (is_empty (trim value)) (missing field)

unfoldable pub validate_positive_f64 : Option ℕ → String → Validation
validate_positive_f64 none field = ok tt
validate_positive_f64 (some value) field =
    fail_if (not (is_finite value) || le_zero value)
      (invalid field "must be finite and greater than zero")

unfoldable pub validate_nonzero_u64 : Option ℕ → String → Validation
validate_nonzero_u64 none field = ok tt
validate_nonzero_u64 (some value) field =
    fail_if (value == 0) (invalid field "must be greater than zero when present")

-- `cpus.windows(2).any(|pair| pair[0] >= pair[1])`
unfoldable pub any_unordered_pair : List ℕ → Bool
any_unordered_pair [] = false
any_unordered_pair (a ∷ []) = false
any_unordered_pair (a ∷ b ∷ cpus) = leb b a || any_unordered_pair (b ∷ cpus)

unfoldable pub validate_cpu_list : List ℕ → Validation
validate_cpu_list cpus = do
  fail_if (is_empty cpus) (invalid "execution.cpu_placement" "CPU list must be nonempty")
  fail_if (any_unordered_pair cpus)
      (invalid "execution.cpu_placement" "CPU IDs must be strictly increasing and unique")

-- `command.iter().any(|arg| arg.is_empty())`
unfoldable pub any_empty : List Text → Bool
any_empty [] = false
any_empty (arg ∷ command) = is_empty arg || any_empty command

unfoldable pub validate_cpu_placement : CpuPlacement → Validation
validate_cpu_placement (unpinned reason) = require_nonempty reason "execution.cpu_placement.reason"
validate_cpu_placement (affinity cpus) = validate_cpu_list cpus
validate_cpu_placement (isolated cpus profile) = do
  validate_cpu_list cpus
  require_nonempty profile "execution.cpu_placement.profile"

unfoldable pub validate_execution : ExecutionConfig → Validation
validate_execution e = do
  fail_if (is_empty e.command) (missing "execution.command")
  fail_if (any_empty e.command) (invalid "execution.command" "arguments must be nonempty strings")
  require_nonempty e.runtime_profile "execution.runtime_profile"
  require_nonempty e.runtime_config_digest "execution.runtime_config_digest"
  require_nonempty e.precision_mode "execution.precision_mode"
  require_nonempty e.quantization_mode "execution.quantization_mode"
  validate_cpu_placement e.cpu_placement

unfoldable pub validate_workload : WorkloadShape → Validation
validate_workload w = do
  fail_if (w.context_tokens == 0) (invalid "context_tokens" "must be nonzero")
  fail_if (w.prompt_tokens == 0) (invalid "prompt_tokens" "must be nonzero")
  fail_if (w.output_tokens == 0) (invalid "output_tokens" "must be nonzero")
  fail_if (w.concurrency == 0) (invalid "concurrency" "must be nonzero")
  fail_if (ltb w.context_tokens w.prompt_tokens)
      (invalid "prompt_tokens" "cannot exceed context_tokens")

-- `if let (Some(p50), Some(p95)) = … && p95 < p50`
unfoldable pub is_inverted : Option ℕ → Option ℕ → Bool
is_inverted (some p50) (some p95) = ltb p95 p50
is_inverted _ _ = false

unfoldable pub validate_metrics : PerformanceMetrics → CacheCounters → Validation
validate_metrics p c = do
  validate_positive_f64 p.prefill_tokens_per_second "prefill_tokens_per_second"
  validate_positive_f64 p.decode_tokens_per_second "decode_tokens_per_second"
  validate_positive_f64 p.power_watts "power_watts"
  validate_positive_f64 p.tokens_per_joule "tokens_per_joule"
  fail_if (not (has_any_measurement p)) (missing "performance")
  fail_if (is_inverted p.p50_latency_micros p.p95_latency_micros)
      (invalid "p95_latency_micros" "cannot be lower than p50 latency")
  fail_if (ltb c.ple_prefetched_rows c.ple_prefetch_useful_rows)
      (invalid "ple_prefetch_useful_rows" "cannot exceed prefetched row count")

unfoldable pub validate_governor : Option Text → Validation
validate_governor none = ok tt
validate_governor (some governor) = require_nonempty governor "hardware_state.cpu_governor"

unfoldable pub validate_hardware_state : HardwareState → Validation
validate_hardware_state h = do
  validate_nonzero_u64 h.average_power_milliwatts "hardware_state.average_power_milliwatts"
  validate_nonzero_u64 h.power_limit_milliwatts "hardware_state.power_limit_milliwatts"
  validate_nonzero_u64 h.gpu_clock_hz "hardware_state.gpu_clock_hz"
  validate_governor h.cpu_governor

unfoldable pub validate_speculation : Option SpeculationMetrics → Validation
validate_speculation none = ok tt
validate_speculation (some s) = do
  require_nonempty s.strategy "speculation.strategy"
  fail_if (s.proposed_tokens == 0) (invalid "speculation.proposed_tokens" "must be nonzero")
  fail_if (ltb s.proposed_tokens s.accepted_tokens)
      (invalid "speculation.accepted_tokens" "cannot exceed proposed tokens")
  fail_if (s.verified_cycles == 0) (invalid "speculation.verified_cycles" "must be nonzero")

unfoldable pub validate_gate : CorrectnessGate → Validation
validate_gate (passed oracle checked_tokens) = do
  require_nonempty oracle "correctness.oracle"
  fail_if (checked_tokens == 0) (invalid "correctness.checked_tokens" "must be nonzero")
validate_gate (failed oracle checked_tokens reason) = do
  require_nonempty oracle "correctness.oracle"
  require_nonempty reason "correctness.reason"
  fail_if (checked_tokens == 0) (invalid "correctness.checked_tokens" "must be nonzero")

unfoldable pub validate_correctness : Option CorrectnessGate → Validation
validate_correctness correctness = do
  gate ← ok_or correctness (missing "correctness")
  validate_gate gate

unfoldable pub validate_mode : ExecutionMode → Validation
validate_mode exact = ok tt
validate_mode (experimental_approximate label) = require_nonempty label "experimental_mode_label"

unfoldable pub validate : EvidenceRecord → Validation
validate r = do
  require_nonempty r.identity.git_commit "git_commit"
  require_nonempty r.identity.model_id "model_id"
  require_nonempty r.identity.model_revision "model_revision"
  require_nonempty r.identity.model_digest "model_digest"
  require_nonempty r.identity.hardware "hardware"
  validate_mode r.identity.mode
  validate_execution r.execution
  validate_workload r.workload
  validate_metrics r.performance r.caches
  validate_hardware_state r.hardware_state
  validate_speculation r.speculation
  validate_correctness r.correctness
