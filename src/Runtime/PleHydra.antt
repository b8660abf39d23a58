-- ===== src/Runtime/PleHydra.antt =====
-- crates/gb10x-runtime/src/ple_hydra.rs: the tier of each key, from a hot-cache plan of the fabric. A
-- set of keys is the list of its members, and the map of the hot keys an association list.
pub mod Tiers
pub mod Simulation
use gb10x.Prelude.{
  ℕ, ◌+◌, ◌-◌, Bool, true, false, not, ◌&&◌, ◌||◌, Option, none, some, List, [], ◌∷◌, Result, ok,
  err, panic, ◌>>=◌, ◌>>◌, fail_if, ltb, ◌==◌, if◌then◌else◌, u64_mod,
}
use gb10x.Prelude.Sorted.{contains}
use gb10x.Prelude.Texts.{Text, is_empty, trim, equal_list}
use gb10x.Runtime.CacheFabric.{
  CpuCacheFabric, CpuHotCachePlan, HotCachePlacement, owner_cpus, owner_cpu_for_key,
  hot_budget_bytes_per_owner,
}

pub data PleHydraMode : Type 0 where
  exact : PleHydraMode
  experimental_approximate : Text → PleHydraMode

pub data PleHydraTier : Type 0 where
  owner_cpu_hot : ℕ → PleHydraTier
  shared_cpu_warm page_cache_warm nvme_cold : PleHydraTier

pub record PleHydraAccess : Type 0 where
  pub key : ℕ
  pub tier : PleHydraTier

pub record PleHydraTierCounts : Type 0 where
  pub owner_cpu_hot_hits : ℕ
  pub shared_cpu_warm_hits : ℕ
  pub page_cache_warm_hits : ℕ
  pub nvme_cold_reads : ℕ

pub record PleHydraSimulation : Type 0 where
  pub accesses : List PleHydraAccess
  pub tier_counts : PleHydraTierCounts

pub data PleHydraError : Type 0 where
  empty_experimental_mode_label : PleHydraError
  hot_plan_fabric_mismatch : List ℕ → ℕ → List ℕ → ℕ → PleHydraError
  hot_placement_owner_mismatch : ℕ → ℕ → ℕ → PleHydraError

abbrev pub HydraOutcome : Type 0 → Type 0
HydraOutcome A = Result PleHydraError A

abbrev pub HotKeys : Type 0
HotKeys = List (ℕ × List ℕ)

pub record PleHydra : Type 0 where
  pub mode : PleHydraMode
  pub cache_fabric : CpuCacheFabric
  pub owner_hot_keys : HotKeys
  pub shared_cpu_warm_keys : List ℕ
  pub page_cache_warm_keys : List ℕ

-- `saturating_add(1)`
abbrev pub saturating_next : ℕ → ℕ
saturating_next n = if ltb (n + 1) u64_mod then n + 1 else u64_mod - 1

unfoldable pub count : PleHydraTierCounts → PleHydraTier → PleHydraTierCounts
count c (owner_cpu_hot cpu) = record c { owner_cpu_hot_hits = saturating_next c.owner_cpu_hot_hits }
count c shared_cpu_warm = record c { shared_cpu_warm_hits = saturating_next c.shared_cpu_warm_hits }
count c page_cache_warm = record c { page_cache_warm_hits = saturating_next c.page_cache_warm_hits }
count c nvme_cold = record c { nvme_cold_reads = saturating_next c.nvme_cold_reads }

-- `entry(cpu).or_default().insert(key)`
unfoldable pub insert_hot : HotKeys → ℕ → ℕ → HotKeys
insert_hot [] cpu key = (cpu, key ∷ []) ∷ []
insert_hot (entry ∷ entries) cpu key =
    let rest = insert_hot entries cpu key in
    if entry.0 == cpu then (entry.0, key ∷ entry.1) ∷ entries else entry ∷ rest

-- `get(&cpu).is_some_and(|keys| keys.contains(&key))`
unfoldable pub is_hot : HotKeys → ℕ → ℕ → Bool
is_hot [] cpu key = false
is_hot (entry ∷ entries) cpu key =
    if entry.0 == cpu then contains key entry.1 else is_hot entries cpu key

unfoldable pub collect_hot :
    CpuCacheFabric → HotKeys → List HotCachePlacement → HydraOutcome HotKeys
collect_hot fabric hot [] = ok hot
collect_hot fabric hot (placement ∷ placements) = do
  expected ← owner_cpu_for_key fabric placement.key
  fail_if (not (placement.owner_cpu == expected))
      (hot_placement_owner_mismatch placement.key placement.owner_cpu expected)
  collect_hot fabric (insert_hot hot placement.owner_cpu placement.key) placements

unfoldable pub is_unlabelled : PleHydraMode → Bool
is_unlabelled exact = false
is_unlabelled (experimental_approximate label) = is_empty (trim label)

unfoldable pub from_hot_cache_plan_with_mode :
    PleHydraMode → CpuCacheFabric → CpuHotCachePlan → List ℕ → List ℕ → HydraOutcome PleHydra
from_hot_cache_plan_with_mode mode fabric plan shared page = do
  fail_if (is_unlabelled mode) empty_experimental_mode_label
  budget ← hot_budget_bytes_per_owner fabric
  fail_if
      (not (equal_list plan.owner_cpus (owner_cpus fabric))
        || not (plan.hot_budget_bytes_per_owner == budget))
      (hot_plan_fabric_mismatch plan.owner_cpus plan.hot_budget_bytes_per_owner (owner_cpus fabric)
        budget)
  hot ← collect_hot fabric [] plan.placements
  ok (record {
    mode = mode;
    cache_fabric = fabric;
    owner_hot_keys = hot;
    shared_cpu_warm_keys = shared;
    page_cache_warm_keys = page;
  })

unfoldable pub from_hot_cache_plan :
    CpuCacheFabric → CpuHotCachePlan → List ℕ → List ℕ → HydraOutcome PleHydra
from_hot_cache_plan fabric plan shared page =
    from_hot_cache_plan_with_mode exact fabric plan shared page

unfoldable pub tier_for_key : PleHydra → ℕ → HydraOutcome PleHydraTier
tier_for_key h key = do
  owner_cpu ← owner_cpu_for_key h.cache_fabric key
  ok (
      if is_hot h.owner_hot_keys owner_cpu key
      then owner_cpu_hot owner_cpu
      else if contains key h.shared_cpu_warm_keys
      then shared_cpu_warm
      else if contains key h.page_cache_warm_keys
      then page_cache_warm
      else nvme_cold)

-- The map over the keys, with the counts that its closure writes.
unfoldable pub simulate : PleHydra → PleHydraTierCounts → List ℕ → HydraOutcome PleHydraSimulation
simulate h counts [] = ok (record { accesses = []; tier_counts = counts })
simulate h counts (key ∷ keys) = do
  tier ← tier_for_key h key
  rest ← simulate h (count counts tier) keys
  ok (record rest { accesses = record { key = key; tier = tier } ∷ rest.accesses })

abbrev pub no_counts : PleHydraTierCounts
no_counts = record {
  owner_cpu_hot_hits = 0;
  shared_cpu_warm_hits = 0;
  page_cache_warm_hits = 0;
  nvme_cold_reads = 0;
}

unfoldable pub simulate_trace : PleHydra → List ℕ → HydraOutcome PleHydraSimulation
simulate_trace h keys = simulate h no_counts keys
