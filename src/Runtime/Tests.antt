-- ===== src/Runtime/Tests.antt =====
-- Runs of the cache fabric, the hierarchy and the platform gate, and their theorems at concrete
-- inputs.
use gb10x.Prelude.{ℕ, ◌+◌, ◌≡◌, refl, some, List, [], ◌∷◌, map, ok, err, All, arith}
use gb10x.Prelude.Sorted.{contains, sort_unstable, insert_sorted}
use gb10x.Prelude.Texts.{is_empty, equal_list, to_ascii_uppercase}
use gb10x.Prelude.Patterns.{contains_text, starts_with}
use gb10x.Prelude.Decides.{Gives}
use gb10x.Core.Platform.{unified, CpuCache, PlatformSnapshot}
use gb10x.Runtime.Validate.{aarch64, any_incomplete, validate_gb10}
use gb10x.Runtime.Validate.Gate.{IsGb10, facts_of, validate_gb10-Gives}
use gb10x.Runtime.CacheFabric.{
  HotCacheCandidate, CpuHotCachePlan, CpuCacheFabric, duplicate_compute_cpu,
  remaining_bytes_for_cpu, find_duplicate, holds_data, is_private_l2, max_option, private_l2_bytes,
  owners_of, no_duplicate, from_topology, owner_cpus, owner_cpu_for_key, hot_budget_bytes_per_owner,
  find_zero_bytes, find_seen, reject, precedes, insert_by_density, sort_by_density, filter_owned,
  placement_of, is_reserved, reserve, plan_owners, plan_hot_candidates,
}
use gb10x.Runtime.CacheFabric.Budget.{bytes_on}
use gb10x.Runtime.CacheFabric.Owners.{IsFabric, from_topology-IsFabric}
use gb10x.Runtime.CacheFabric.Plan.{plan_hot_candidates-budget}
use gb10x.Runtime.CacheFabric.Homes.{IsAtHome, plan_hot_candidates-IsAtHome}
use gb10x.Runtime.PleHydra.{
  PleHydra, PleHydraSimulation, exact, owner_cpu_hot, tier_for_key, from_hot_cache_plan,
  simulate_trace,
}
use gb10x.Runtime.PleHydra.Tiers.{from_hot_cache_plan-own}
use gb10x.Runtime.PleHydra.Simulation.{
  hot_ones, shared_ones, page_ones, cold_ones, sum_of, simulate_trace_total,
}

abbrev l2_of : ℕ → CpuCache
l2_of cpu = record {
  level = 2;
  cache_type = unified;
  size_bytes = 100;
  line_bytes = 64;
  shared_cpu_ids = cpu ∷ [];
}

abbrev caches : List CpuCache
caches = l2_of 4 ∷ l2_of 7 ∷ []

abbrev fabric : CpuCacheFabric
fabric = record {
  owners =
      record { cpu_id = 4; hot_budget_bytes = 80 }
      ∷ record { cpu_id = 7; hot_budget_bytes = 80 }
      ∷ [];
}

made : from_topology caches (7 ∷ 4 ∷ []) 80 ≡ ok fabric
unfolding from_topology owners_of private_l2_bytes is_private_l2 holds_data max_option no_duplicate
    find_duplicate sort_unstable insert_sorted equal_list is_empty
made = refl

repeated : from_topology caches (7 ∷ 4 ∷ 7 ∷ []) 80 ≡ err (duplicate_compute_cpu 7)
unfolding from_topology owners_of private_l2_bytes is_private_l2 holds_data max_option no_duplicate
    find_duplicate sort_unstable insert_sorted equal_list is_empty
repeated = refl

from_topology-IsFabric_example : IsFabric caches (7 ∷ 4 ∷ []) 80 fabric
from_topology-IsFabric_example = from_topology-IsFabric caches (7 ∷ 4 ∷ []) 80 made

-- Keys 0 and 2 belong to CPU 4, and key 3 to CPU 7; the second entry of CPU 4 does not fit.
abbrev candidates : List HotCacheCandidate
candidates =
    record { key = 2; bytes = 50; expected_savings_ns = 10 }
    ∷ record { key = 0; bytes = 60; expected_savings_ns = 90 }
    ∷ record { key = 3; bytes = 30; expected_savings_ns = 5 }
    ∷ []

abbrev plan : CpuHotCachePlan
plan = record {
  owner_cpus = 4 ∷ 7 ∷ [];
  hot_budget_bytes_per_owner = 80;
  placements =
      record { key = 0; owner_cpu = 4; bytes = 60; expected_savings_ns = 90 }
      ∷ record { key = 3; owner_cpu = 7; bytes = 30; expected_savings_ns = 5 }
      ∷ [];
  remaining_bytes_by_cpu = (4, 20) ∷ (7, 50) ∷ [];
}

planned : plan_hot_candidates fabric candidates ≡ ok plan
unfolding plan_hot_candidates plan_owners reserve is_reserved placement_of filter_owned
    owner_cpu_for_key sort_by_density insert_by_density precedes reject find_seen find_zero_bytes
    hot_budget_bytes_per_owner owner_cpus contains is_empty
planned = refl

plan_hot_candidates-budget_example :
    (left : ℕ) × (remaining_bytes_for_cpu plan 4 ≡ some left)
    × (bytes_on 4 plan.placements + left ≡ 80)
unfolding contains
plan_hot_candidates-budget_example =
    plan_hot_candidates-budget caches (7 ∷ 4 ∷ []) 80 candidates made planned 4 refl

plan_hot_candidates-IsAtHome_example : All (IsAtHome fabric) plan.placements
plan_hot_candidates-IsAtHome_example = plan_hot_candidates-IsAtHome fabric candidates planned

from_hot_cache_plan-own_example :
    (hydra : PleHydra) × (from_hot_cache_plan fabric plan (2 ∷ []) [] ≡ ok hydra)
    × All (λ p. tier_for_key hydra p.key ≡ ok (owner_cpu_hot p.owner_cpu)) plan.placements
from_hot_cache_plan-own_example = from_hot_cache_plan-own fabric candidates (2 ∷ []) [] planned

abbrev hydra : PleHydra
hydra = record {
  mode = exact;
  cache_fabric = fabric;
  owner_hot_keys = (4, 0 ∷ []) ∷ (7, 3 ∷ []) ∷ [];
  shared_cpu_warm_keys = 2 ∷ [];
  page_cache_warm_keys = 5 ∷ [];
}

abbrev trace : List ℕ
trace = 0 ∷ 2 ∷ 5 ∷ 9 ∷ 3 ∷ []

simulate_trace_total_example :
    (s : PleHydraSimulation) × (simulate_trace hydra trace ≡ ok s)
    × (map (λ a. a.key) s.accesses ≡ trace)
    × All (λ a. tier_for_key hydra a.key ≡ ok a.tier) s.accesses
    × (s.tier_counts.owner_cpu_hot_hits ≡ sum_of hot_ones s.accesses)
    × (s.tier_counts.shared_cpu_warm_hits ≡ sum_of shared_ones s.accesses)
    × (s.tier_counts.page_cache_warm_hits ≡ sum_of page_ones s.accesses)
    × (s.tier_counts.nvme_cold_reads ≡ sum_of cold_ones s.accesses)
simulate_trace_total_example = simulate_trace_total hydra trace (omega arith) (omega arith)

abbrev snapshot : PlatformSnapshot
snapshot = record {
  arch = aarch64;
  kernel_release = [];
  cpu_model = [];
  online_cpus = 4 ∷ 7 ∷ [];
  caches = caches;
  gpu = record {
    name = 103 ∷ 98 ∷ 49 ∷ 48 ∷ [];
    compute_major = 12;
    compute_minor = 1;
    l2_bytes = 25165824;
    persisting_l2_max_bytes = 16777216;
    total_memory_bytes = 137438953472;
  };
  mem_total_bytes = 137438953472;
  page_size_bytes = 4096;
}

admitted : validate_gb10 snapshot ≡ ok (facts_of snapshot)
unfolding validate_gb10 equal_list contains_text to_ascii_uppercase starts_with is_empty
    any_incomplete
admitted = refl

validate_gb10-Gives_example : Gives (validate_gb10 snapshot) (facts_of snapshot) (IsGb10 snapshot)
validate_gb10-Gives_example = validate_gb10-Gives snapshot
