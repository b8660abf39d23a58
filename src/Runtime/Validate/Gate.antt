-- ===== src/Runtime/Validate/Gate.antt =====
-- What the platform gate admits.
use gb10x.Prelude.{
  ℕ, ◌≤◌, ◌<◌, ◌≡◌, refl, ◌↔◌, true, false, ◌&&◌, ◌||◌, List, [], ◌∷◌, ◌==◌, All, length, arith,
}
use gb10x.Prelude.Texts.{is_empty, is_empty_iff, IsNonempty, equal_list_iff, to_ascii_uppercase}
use gb10x.Prelude.Patterns.{IsWithin, contains_text_iff}
use gb10x.Prelude.Decides.{
  Gives, >>-Gives, ok-Gives, Decides_iff, fail_if-Decides, unless-Decides, nonzero-Decides,
  le-Decides, or-false_iff,
}
use gb10x.Core.Platform.{CpuCache, PlatformSnapshot}
use gb10x.Runtime.Validate.{Gb10Validation, aarch64, gb10, any_incomplete, validate_gb10}

abbrev pub IsCompleteCache : CpuCache → Type 0
IsCompleteCache c = (0 < c.size_bytes) × (0 < c.line_bytes) × IsNonempty c.shared_cpu_ids

-- The one supported platform, with every fact present.
abbrev pub IsGb10 : PlatformSnapshot → Type 0
IsGb10 s =
    (s.arch ≡ aarch64)
    × (IsWithin (to_ascii_uppercase s.gpu.name) gb10
        × (((s.gpu.compute_major ≡ 12) × (s.gpu.compute_minor ≡ 1))
            × (IsNonempty s.online_cpus
                × (IsNonempty s.caches
                    × (All IsCompleteCache s.caches
                        × ((0 < s.mem_total_bytes)
                            × ((0 < s.page_size_bytes)
                                × ((0 < s.gpu.l2_bytes)
                                    × ((0 < s.gpu.total_memory_bytes)
                                        × ((s.gpu.persisting_l2_max_bytes ≤ s.gpu.l2_bytes)
                                            × Unit))))))))))

abbrev pub facts_of : PlatformSnapshot → Gb10Validation
facts_of s = record {
  compute_capability = (12, 1);
  discovered_l2_bytes = s.gpu.l2_bytes;
  discovered_persisting_l2_max_bytes = s.gpu.persisting_l2_max_bytes;
  discovered_host_memory_bytes = s.mem_total_bytes;
  online_cpu_count = length s.online_cpus;
  cache_object_count = length s.caches;
}

complete_iff :
    (c : CpuCache)
    → (((c.size_bytes == 0) || (c.line_bytes == 0) || is_empty c.shared_cpu_ids) ≡ false)
      ↔ IsCompleteCache c
complete_iff c =
    let (to, from) = is_empty_iff c.shared_cpu_ids in
    (
      λ h. (ground arith, ground arith, to (ground arith)),
      λ (a, b, k). let e = from k in ground arith,
    )

any_incomplete_iff :
    (caches : List CpuCache) → (any_incomplete caches ≡ false) ↔ All IsCompleteCache caches
unfolding any_incomplete
any_incomplete_iff [] = (λ _. tt, λ _. refl)
any_incomplete_iff (c ∷ caches) =
    let (to, from) = or-false_iff _ (any_incomplete caches) in
    let (to', from') = complete_iff c in
    let (to'', from'') = any_incomplete_iff caches in
    (λ h. (to' (to h).0, to'' (to h).1), λ k. from (from' k.0, from'' k.1))

capability_iff :
    (major minor : ℕ) → (((major == 12) && (minor == 1)) ≡ true) ↔ ((major ≡ 12) × (minor ≡ 1))
capability_iff major minor = ground arith

-- The gate gives the facts of a snapshot when these are of the one supported platform and complete,
-- and an error for any other snapshot.
pub validate_gb10-Gives : (s : PlatformSnapshot) → Gives (validate_gb10 s) (facts_of s) (IsGb10 s)
unfolding validate_gb10
validate_gb10-Gives s = >>-Gives (unless-Decides _ (equal_list_iff s.arch aarch64)) (
    >>-Gives (unless-Decides _ (contains_text_iff (to_ascii_uppercase s.gpu.name) gb10)) (
      >>-Gives (unless-Decides _ (capability_iff s.gpu.compute_major s.gpu.compute_minor)) (
        >>-Gives (Decides_iff (is_empty_iff s.online_cpus) (fail_if-Decides _ _)) (
          >>-Gives (Decides_iff (is_empty_iff s.caches) (fail_if-Decides _ _)) (
            >>-Gives (Decides_iff (any_incomplete_iff s.caches) (fail_if-Decides _ _)) (
              >>-Gives (nonzero-Decides s.mem_total_bytes _) (
                >>-Gives (nonzero-Decides s.page_size_bytes _) (
                  >>-Gives (nonzero-Decides s.gpu.l2_bytes _) (
                    >>-Gives (nonzero-Decides s.gpu.total_memory_bytes _) (
                      >>-Gives (le-Decides s.gpu.persisting_l2_max_bytes s.gpu.l2_bytes _)
                        (ok-Gives _)))))))))))
