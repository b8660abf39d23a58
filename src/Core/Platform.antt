-- ===== src/Core/Platform.antt =====
-- crates/gb10x-core/src/platform.rs: the facts of the host that the runtime checks and plans with.
use gb10x.Prelude.{ℕ, List}
use gb10x.Prelude.Texts.{Text}

pub data CacheType : Type 0 where
  instruction data_only unified : CacheType

pub record CpuCache : Type 0 where
  pub level : ℕ
  pub cache_type : CacheType
  pub size_bytes : ℕ
  pub line_bytes : ℕ
  pub shared_cpu_ids : List ℕ

pub record GpuSnapshot : Type 0 where
  pub name : Text
  pub compute_major : ℕ
  pub compute_minor : ℕ
  pub l2_bytes : ℕ
  pub persisting_l2_max_bytes : ℕ
  pub total_memory_bytes : ℕ

pub record PlatformSnapshot : Type 0 where
  pub arch : Text
  pub kernel_release : Text
  pub cpu_model : Text
  pub online_cpus : List ℕ
  pub caches : List CpuCache
  pub gpu : GpuSnapshot
  pub mem_total_bytes : ℕ
  pub page_size_bytes : ℕ
