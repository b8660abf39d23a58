-- ===== src/Telemetry/Record.antt =====
-- crates/gb10x-telemetry/src/record.rs: the evidence record. Machine integers are numbers, an `f64`
-- its 64 bits, a `String` its characters.
use gb10x.Prelude.{ℕ, Bool, true, false, ◌||◌, Option, none, some, List, String}
use gb10x.Prelude.Texts.{Text}

pub data ExecutionMode : Type 0 where
  exact : ExecutionMode
  experimental_approximate : Text → ExecutionMode

pub data CacheRunState : Type 0 where
  disabled cold warm reused : CacheRunState

pub data CpuPlacement : Type 0 where
  unpinned : Text → CpuPlacement
  affinity : List ℕ → CpuPlacement
  isolated : List ℕ → Text → CpuPlacement

pub record ExecutionConfig : Type 0 where
  pub command : List Text
  pub runtime_profile : Text
  pub runtime_config_digest : Text
  pub cpu_placement : CpuPlacement
  pub precision_mode : Text
  pub quantization_mode : Text
  pub prefix_cache_state : CacheRunState
  pub ple_cache_state : CacheRunState
  pub kv_cache_state : CacheRunState

pub record HardwareState : Type 0 where
  pub gpu_temperature_millicelsius : Option ℕ
  pub cpu_temperature_millicelsius : Option ℕ
  pub average_power_milliwatts : Option ℕ
  pub power_limit_milliwatts : Option ℕ
  pub gpu_clock_hz : Option ℕ
  pub cpu_governor : Option Text

pub record RunIdentity : Type 0 where
  pub git_commit : Text
  pub model_id : Text
  pub model_revision : Text
  pub model_digest : Text
  pub hardware : Text
  pub mode : ExecutionMode

pub record WorkloadShape : Type 0 where
  pub context_tokens : ℕ
  pub prompt_tokens : ℕ
  pub output_tokens : ℕ
  pub concurrency : ℕ

pub record StageTimings : Type 0 where
  pub tokenize_micros : Option ℕ
  pub queue_micros : Option ℕ
  pub prefill_micros : Option ℕ
  pub decode_micros : Option ℕ
  pub ple_hash_micros : Option ℕ
  pub ple_lookup_micros : Option ℕ
  pub attention_micros : Option ℕ
  pub moe_micros : Option ℕ
  pub speculation_verify_micros : Option ℕ
  pub sampling_micros : Option ℕ

pub record CacheCounters : Type 0 where
  pub ple_hot_hits : ℕ
  pub ple_cold_hits : ℕ
  pub ple_prefetched_rows : ℕ
  pub ple_prefetch_useful_rows : ℕ
  pub prefix_cache_hits : ℕ
  pub prefix_cache_misses : ℕ
  pub cold_source_bytes_read : ℕ
  pub hot_overlay_bytes_read : ℕ

pub record PerformanceMetrics : Type 0 where
  pub prefill_tokens_per_second : Option ℕ
  pub decode_tokens_per_second : Option ℕ
  pub ttft_micros : Option ℕ
  pub p50_latency_micros : Option ℕ
  pub p95_latency_micros : Option ℕ
  pub unified_memory_bytes : Option ℕ
  pub power_watts : Option ℕ
  pub tokens_per_joule : Option ℕ

pub record SpeculationMetrics : Type 0 where
  pub strategy : Text
  pub proposed_tokens : ℕ
  pub accepted_tokens : ℕ
  pub verified_cycles : ℕ

pub data CorrectnessGate : Type 0 where
  passed : Text → ℕ → CorrectnessGate
  failed : Text → ℕ → Text → CorrectnessGate

pub record EvidenceRecord : Type 0 where
  pub identity : RunIdentity
  pub execution : ExecutionConfig
  pub workload : WorkloadShape
  pub stages : StageTimings
  pub caches : CacheCounters
  pub performance : PerformanceMetrics
  pub hardware_state : HardwareState
  pub speculation : Option SpeculationMetrics
  pub correctness : Option CorrectnessGate

pub data EvidenceError : Type 0 where
  missing : String → EvidenceError
  invalid : String → String → EvidenceError

-- `Option::is_some`
unfoldable pub is_some {ℓ} : {A : Type ℓ} → Option A → Bool
is_some none = false
is_some (some a) = true

unfoldable pub has_any_measurement : PerformanceMetrics → Bool
has_any_measurement p =
    is_some p.prefill_tokens_per_second
    || is_some p.decode_tokens_per_second
    || is_some p.ttft_micros
    || is_some p.p50_latency_micros
    || is_some p.p95_latency_micros
    || is_some p.unified_memory_bytes
    || is_some p.power_watts
    || is_some p.tokens_per_joule
