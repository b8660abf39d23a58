-- ===== src/Telemetry/Tests.antt =====
-- Runs of the record's validation, and its theorem at a concrete record.
use gb10x.Prelude.{ℕ, ◌≡◌, refl, none, some, [], ◌∷◌, ok, err, arith}
use gb10x.Prelude.Texts.{
  Text, is_whitespace, is_empty, trim, trim_start, trim_end, is_finite, le_zero,
}
use gb10x.Prelude.Decides.{Decides}
use gb10x.Telemetry.Record.{
  exact, affinity, cold, warm, EvidenceRecord, passed, invalid, is_some, has_any_measurement,
}
use gb10x.Telemetry.Validate.{
  require_nonempty, validate_positive_f64, validate_nonzero_u64, any_unordered_pair,
  validate_cpu_list, any_empty, is_inverted, validate_cpu_placement, validate_execution,
  validate_workload, validate_metrics, validate_governor, validate_hardware_state,
  validate_speculation, validate_gate, validate_correctness, validate_mode, validate,
}
use gb10x.Telemetry.Validate.Evidence.{IsEvidence, validate-Decides}

abbrev name : Text
name = 0x71 ∷ 0x77 ∷ 0x65 ∷ 0x6e ∷ []

-- 1000.0
abbrev throughput : ℕ
throughput = 0x408f400000000000

abbrev evidence : EvidenceRecord
evidence = record {
  identity = record {
    git_commit = name;
    model_id = name;
    model_revision = name;
    model_digest = name;
    hardware = name;
    mode = exact;
  };
  execution = record {
    command = name ∷ [];
    runtime_profile = name;
    runtime_config_digest = name;
    cpu_placement = affinity (0 ∷ 1 ∷ 2 ∷ []);
    precision_mode = name;
    quantization_mode = name;
    prefix_cache_state = cold;
    ple_cache_state = warm;
    kv_cache_state = cold;
  };
  workload = record {
    context_tokens = 8192;
    prompt_tokens = 2048;
    output_tokens = 256;
    concurrency = 1;
  };
  stages = record {
    tokenize_micros = none;
    queue_micros = none;
    prefill_micros = none;
    decode_micros = none;
    ple_hash_micros = none;
    ple_lookup_micros = none;
    attention_micros = none;
    moe_micros = none;
    speculation_verify_micros = none;
    sampling_micros = none;
  };
  caches = record {
    ple_hot_hits = 0;
    ple_cold_hits = 0;
    ple_prefetched_rows = 5;
    ple_prefetch_useful_rows = 4;
    prefix_cache_hits = 0;
    prefix_cache_misses = 0;
    cold_source_bytes_read = 0;
    hot_overlay_bytes_read = 0;
  };
  performance = record {
    prefill_tokens_per_second = some throughput;
    decode_tokens_per_second = none;
    ttft_micros = some 250000;
    p50_latency_micros = none;
    p95_latency_micros = none;
    unified_memory_bytes = none;
    power_watts = none;
    tokens_per_joule = none;
  };
  hardware_state = record {
    gpu_temperature_millicelsius = none;
    cpu_temperature_millicelsius = none;
    average_power_milliwatts = none;
    power_limit_milliwatts = none;
    gpu_clock_hz = some 2000;
    cpu_governor = none;
  };
  speculation = none;
  correctness = some (passed name 256);
}

accepted : validate evidence ≡ ok tt
unfolding validate require_nonempty validate_mode validate_execution validate_cpu_placement
    validate_cpu_list any_unordered_pair any_empty validate_workload validate_metrics
    validate_positive_f64 is_finite le_zero has_any_measurement is_some is_inverted
    validate_hardware_state validate_nonzero_u64 validate_governor validate_speculation
    validate_correctness validate_gate is_empty trim trim_start trim_end is_whitespace
accepted = refl

unplaced :
    validate_cpu_list (0 ∷ 2 ∷ 2 ∷ [])
    ≡ err (invalid "execution.cpu_placement" "CPU IDs must be strictly increasing and unique")
unfolding validate_cpu_list any_unordered_pair is_empty
unplaced = refl

-- An infinite throughput.
unbounded :
    validate_positive_f64 (some 0x7ff0000000000000) "power_watts"
    ≡ err (invalid "power_watts" "must be finite and greater than zero")
unfolding validate_positive_f64 is_finite le_zero
unbounded = refl

validate-Decides_example : Decides (validate evidence) (IsEvidence evidence)
validate-Decides_example = validate-Decides evidence (omega arith, tt, tt, tt)
