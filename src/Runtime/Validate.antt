-- ===== src/Runtime/Validate.antt =====
-- crates/gb10x-runtime/src/validate.rs: the gate that admits the one supported platform.
pub mod Gate
use gb10x.Prelude.{
  ℕ, Bool, true, false, not, ◌&&◌, ◌||◌, List, [], ◌∷◌, String, Result, ok, ◌>>=◌, ◌>>◌, fail_if,
  ltb, ◌==◌, length,
}
use gb10x.Prelude.Texts.{Text, is_empty, equal_list, to_ascii_uppercase}
use gb10x.Prelude.Patterns.{contains_text}
use gb10x.Core.Platform.{CpuCache, PlatformSnapshot}

pub data PlatformError : Type 0 where
  architecture : Text → PlatformError
  gpu_identity : Text → PlatformError
  compute_capability : ℕ → ℕ → PlatformError
  incomplete : String → PlatformError

pub record Gb10Validation : Type 0 where
  pub compute_capability : ℕ × ℕ
  pub discovered_l2_bytes : ℕ
  pub discovered_persisting_l2_max_bytes : ℕ
  pub discovered_host_memory_bytes : ℕ
  pub online_cpu_count : ℕ
  pub cache_object_count : ℕ

-- "aarch64" and "GB10"
abbrev pub aarch64 : Text
aarch64 = 97 ∷ 97 ∷ 114 ∷ 99 ∷ 104 ∷ 54 ∷ 52 ∷ []

abbrev pub gb10 : Text
gb10 = 71 ∷ 66 ∷ 49 ∷ 48 ∷ []

-- `caches.iter().any(…)`
unfoldable pub any_incomplete : List CpuCache → Bool
any_incomplete [] = false
any_incomplete (cache ∷ caches) =
    ((cache.size_bytes == 0) || (cache.line_bytes == 0) || is_empty cache.shared_cpu_ids)
    || any_incomplete caches

unfoldable pub validate_gb10 : PlatformSnapshot → Result PlatformError Gb10Validation
validate_gb10 s = do
  fail_if (not (equal_list s.arch aarch64)) (architecture s.arch)
  fail_if (not (contains_text (to_ascii_uppercase s.gpu.name) gb10)) (gpu_identity s.gpu.name)
  fail_if (not ((s.gpu.compute_major == 12) && (s.gpu.compute_minor == 1)))
      (compute_capability s.gpu.compute_major s.gpu.compute_minor)
  fail_if (is_empty s.online_cpus) (incomplete "online CPU list is empty")
  fail_if (is_empty s.caches) (incomplete "CPU cache topology is empty")
  fail_if (any_incomplete s.caches) (incomplete "CPU cache entry contains zero/empty facts")
  fail_if (s.mem_total_bytes == 0) (incomplete "host memory capacity is zero")
  fail_if (s.page_size_bytes == 0) (incomplete "base page size is zero")
  fail_if (s.gpu.l2_bytes == 0) (incomplete "GPU L2 capacity is zero")
  fail_if (s.gpu.total_memory_bytes == 0) (incomplete "GPU-visible memory capacity is zero")
  fail_if (ltb s.gpu.l2_bytes s.gpu.persisting_l2_max_bytes)
      (incomplete "persisting-L2 limit exceeds total GPU L2 capacity")
  ok (record {
    compute_capability = (12, 1);
    discovered_l2_bytes = s.gpu.l2_bytes;
    discovered_persisting_l2_max_bytes = s.gpu.persisting_l2_max_bytes;
    discovered_host_memory_bytes = s.mem_total_bytes;
    online_cpu_count = length s.online_cpus;
    cache_object_count = length s.caches;
  })
