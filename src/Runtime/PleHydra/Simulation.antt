-- ===== src/Runtime/PleHydra/Simulation.antt =====
-- A simulated trace: one tier for each key, and counts that tell the tiers.
use gb10x.Prelude.{
  ℕ, suc, ◌+◌, ◌%◌, ◌<◌, ◌≡◌, refl, List, [], ◌∷◌, map, ok, length, arith, All, if◌then◌else◌,
  u64_mod, get_or, get_elem?_lt,
}
use gb10x.Prelude.Sorted.{contains}
use gb10x.Runtime.CacheFabric.{CpuCacheOwner, CpuCacheFabric}
use gb10x.Runtime.CacheFabric.Homes.{IsHome, IsHome-owner_cpu_for_key}
use gb10x.Runtime.PleHydra.{
  PleHydra, PleHydraError, PleHydraTier, PleHydraTierCounts, PleHydraAccess, PleHydraSimulation,
  owner_cpu_hot, shared_cpu_warm, page_cache_warm, nvme_cold, count, is_hot, tier_for_key, simulate,
  simulate_trace, no_counts,
}

-- The tiers that a count tells apart.
abbrev pub hot_ones : PleHydraTier → ℕ
hot_ones (owner_cpu_hot cpu) = 1
hot_ones _ = 0

abbrev pub shared_ones : PleHydraTier → ℕ
shared_ones shared_cpu_warm = 1
shared_ones _ = 0

abbrev pub page_ones : PleHydraTier → ℕ
page_ones page_cache_warm = 1
page_ones _ = 0

abbrev pub cold_ones : PleHydraTier → ℕ
cold_ones nvme_cold = 1
cold_ones _ = 0

abbrev pub sum_of : (PleHydraTier → ℕ) → List PleHydraAccess → ℕ
sum_of ones [] = 0
sum_of ones (a ∷ accesses) = ones a.tier + sum_of ones accesses

-- What the counts `after` say of the accesses since `before`.
abbrev pub AreCounted : PleHydraTierCounts → List PleHydraAccess → PleHydraTierCounts → Type 0
AreCounted before accesses after =
    (after.owner_cpu_hot_hits ≡ before.owner_cpu_hot_hits + sum_of hot_ones accesses)
    × (after.shared_cpu_warm_hits ≡ before.shared_cpu_warm_hits + sum_of shared_ones accesses)
    × (after.page_cache_warm_hits ≡ before.page_cache_warm_hits + sum_of page_ones accesses)
    × (after.nvme_cold_reads ≡ before.nvme_cold_reads + sum_of cold_ones accesses)

fabric-IsHome :
    (fabric : CpuCacheFabric) (key : ℕ)
    → 0 < length fabric.owners
    → (cpu : ℕ) × IsHome fabric key cpu
fabric-IsHome fabric key h =
    let spare : CpuCacheOwner = record { cpu_id = 0; hot_budget_bytes = 0 } in
    let i = key % length fabric.owners in
    let owner = get_or fabric.owners i spare in
    (owner.cpu_id, (owner, ground arith, get_elem?_lt fabric.owners i spare (omega arith), refl))

-- The tier of a key, for the CPU that owns it.
abbrev resolved : PleHydra → ℕ → ℕ → PleHydraTier
resolved h cpu key =
    if is_hot h.owner_hot_keys cpu key
    then owner_cpu_hot cpu
    else if contains key h.shared_cpu_warm_keys
    then shared_cpu_warm
    else if contains key h.page_cache_warm_keys
    then page_cache_warm
    else nvme_cold

tier_total :
    (h : PleHydra) (key : ℕ)
    → 0 < length h.cache_fabric.owners
    → (tier : PleHydraTier) × (tier_for_key h key ≡ ok tier)
unfolding tier_for_key
tier_total h key some_owner =
    let (cpu, home) = fabric-IsHome h.cache_fabric key some_owner in
    (
      resolved h cpu key,
      rw (IsHome-owner_cpu_for_key {E = PleHydraError} h.cache_fabric key cpu home) refl,
    )

-- The largest of the counts.
abbrev IsBelow : PleHydraTierCounts → ℕ → Type 0
IsBelow c n =
    (c.owner_cpu_hot_hits + n < u64_mod)
    × (c.shared_cpu_warm_hits + n < u64_mod)
    × (c.page_cache_warm_hits + n < u64_mod)
    × (c.nvme_cold_reads + n < u64_mod)

count-IsBelow :
    (c : PleHydraTierCounts) (tier : PleHydraTier) (n : ℕ)
    → IsBelow c (suc n)
    → IsBelow (count c tier) n
unfolding count
count-IsBelow c (owner_cpu_hot cpu) n (a, b, d, e) = ground arith
count-IsBelow c shared_cpu_warm n (a, b, d, e) = ground arith
count-IsBelow c page_cache_warm n (a, b, d, e) = ground arith
count-IsBelow c nvme_cold n (a, b, d, e) = ground arith

count-AreCounted :
    (c : PleHydraTierCounts) (key : ℕ) (tier : PleHydraTier) (accesses : List PleHydraAccess)
    (n : ℕ) {after : PleHydraTierCounts}
    → IsBelow c (suc n)
    → AreCounted (count c tier) accesses after
    → AreCounted c (record { key = key; tier = tier } ∷ accesses) after
unfolding count
count-AreCounted c key (owner_cpu_hot cpu) as' n (a, b, d, e) (p, q, r, s) = ground arith
count-AreCounted c key shared_cpu_warm as' n (a, b, d, e) (p, q, r, s) = ground arith
count-AreCounted c key page_cache_warm as' n (a, b, d, e) (p, q, r, s) = ground arith
count-AreCounted c key nvme_cold as' n (a, b, d, e) (p, q, r, s) = ground arith

-- The simulation of a trace from some counts.
abbrev IsSimulated : PleHydra → PleHydraTierCounts → List ℕ → PleHydraSimulation → Type 0
IsSimulated h counts keys s =
    (map (λ a. a.key) s.accesses ≡ keys)
    × All (λ a. tier_for_key h a.key ≡ ok a.tier) s.accesses
    × AreCounted counts s.accesses s.tier_counts

simulate_total :
    (h : PleHydra) (counts : PleHydraTierCounts) (keys : List ℕ)
    → 0 < length h.cache_fabric.owners
    → IsBelow counts (length keys)
    → (s : PleHydraSimulation) × (simulate h counts keys ≡ ok s) × IsSimulated h counts keys s
unfolding simulate
simulate_total h counts [] some_owner below = (
  record { accesses = []; tier_counts = counts },
  refl,
  (refl, tt, (omega arith, omega arith, omega arith, omega arith)),
)
simulate_total h counts (key ∷ keys) some_owner below =
    let (tier, t) = tier_total h key some_owner in
    let smaller = count-IsBelow counts tier (length keys) below in
    let (s, r, (ids, tiers, counted)) =
      simulate_total h (count counts tier) keys some_owner smaller in
    (
      record s { accesses = record { key = key; tier = tier } ∷ s.accesses },
      rw (t, r) refl,
      (
        rw ids refl,
        (t, tiers),
        count-AreCounted counts key tier s.accesses (length keys) below counted,
      ),
    )

-- With an owner, and a trace shorter than 2 ^ 64, the simulation succeeds; it resolves each key of the
-- trace in order, and each of its counts is the number of accesses of that tier.
pub simulate_trace_total :
    (h : PleHydra) (keys : List ℕ)
    → 0 < length h.cache_fabric.owners
    → length keys < u64_mod
    → (s : PleHydraSimulation) × (simulate_trace h keys ≡ ok s)
      × (map (λ a. a.key) s.accesses ≡ keys)
      × All (λ a. tier_for_key h a.key ≡ ok a.tier) s.accesses
      × (s.tier_counts.owner_cpu_hot_hits ≡ sum_of hot_ones s.accesses)
      × (s.tier_counts.shared_cpu_warm_hits ≡ sum_of shared_ones s.accesses)
      × (s.tier_counts.page_cache_warm_hits ≡ sum_of page_ones s.accesses)
      × (s.tier_counts.nvme_cold_reads ≡ sum_of cold_ones s.accesses)
unfolding simulate_trace
simulate_trace_total h keys some_owner short =
    let below : IsBelow no_counts (length keys) =
      (omega arith, omega arith, omega arith, omega arith) in
    let (s, r, (ids, tiers, (a, b, c, d))) = simulate_total h no_counts keys some_owner below in
    (s, r, ids, tiers, omega arith, omega arith, omega arith, omega arith)
