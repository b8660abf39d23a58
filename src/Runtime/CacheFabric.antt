-- ===== src/Runtime/CacheFabric.antt =====
-- crates/gb10x-runtime/src/cache_fabric.rs: the CPU owners of hot-cache entries, and the greedy plan
-- of their budgets. A density is a u128 product of two u64, which cannot overflow.
pub mod Budget
pub mod PrivateL2
pub mod Owners
pub mod Plan
pub mod Homes
use gb10x.Prelude.{
  ℕ, zero, suc, ◌+◌, ◌-◌, ◌*◌, ◌%◌, Bool, true, false, not, ◌&&◌, ◌||◌, Option, none, some, List,
  [], ◌∷◌, ◌++◌, map, Result, ok, err, panic, ◌>>=◌, ◌>>◌, fail_if, ok_or, index, plain_rem, ltb,
  leb, ◌==◌, length, if◌then◌else◌,
}
use gb10x.Prelude.Sorted.{contains, sort_unstable}
use gb10x.Prelude.Texts.{is_empty, equal_list}
use gb10x.Core.Platform.{CacheType, instruction, data_only, unified, CpuCache}

pub data CacheFabricError : Type 0 where
  no_compute_cpus : CacheFabricError
  duplicate_compute_cpu : ℕ → CacheFabricError
  missing_private_l2 : ℕ → CacheFabricError
  budget_exceeds_private_l2 : ℕ → ℕ → ℕ → CacheFabricError
  zero_candidate_bytes : ℕ → CacheFabricError
  duplicate_candidate_key : ℕ → CacheFabricError

abbrev pub FabricOutcome : Type 0 → Type 0
FabricOutcome A = Result CacheFabricError A

pub record CpuCacheOwner : Type 0 where
  pub cpu_id : ℕ
  pub hot_budget_bytes : ℕ

pub record HotCacheCandidate : Type 0 where
  pub key : ℕ
  pub bytes : ℕ
  pub expected_savings_ns : ℕ

pub record HotCachePlacement : Type 0 where
  pub key : ℕ
  pub owner_cpu : ℕ
  pub bytes : ℕ
  pub expected_savings_ns : ℕ

pub record CpuHotCachePlan : Type 0 where
  pub owner_cpus : List ℕ
  pub hot_budget_bytes_per_owner : ℕ
  pub placements : List HotCachePlacement
  pub remaining_bytes_by_cpu : List (ℕ × ℕ)

pub record CpuCacheFabric : Type 0 where
  pub owners : List CpuCacheOwner

unfoldable pub find_remaining : List (ℕ × ℕ) → ℕ → Option ℕ
find_remaining [] cpu_id = none
find_remaining (entry ∷ entries) cpu_id =
    if entry.0 == cpu_id then some entry.1 else find_remaining entries cpu_id

unfoldable pub remaining_bytes_for_cpu : CpuHotCachePlan → ℕ → Option ℕ
remaining_bytes_for_cpu plan cpu_id = find_remaining plan.remaining_bytes_by_cpu cpu_id

-- `owner_cpus.windows(2).find_map(…)`
unfoldable pub find_duplicate : List ℕ → Option ℕ
find_duplicate [] = none
find_duplicate (a ∷ []) = none
find_duplicate (a ∷ b ∷ cpus) = if a == b then some a else find_duplicate (b ∷ cpus)

unfoldable pub holds_data : CacheType → Bool
holds_data instruction = false
holds_data data_only = true
holds_data unified = true

unfoldable pub is_private_l2 : ℕ → CpuCache → Bool
is_private_l2 cpu_id cache =
    (cache.level == 2)
    && holds_data cache.cache_type
    && equal_list cache.shared_cpu_ids (cpu_id ∷ [])

unfoldable pub max_option : ℕ → Option ℕ → Option ℕ
max_option size none = some size
max_option size (some best) = some (if ltb size best then best else size)

-- `caches.iter().filter(…).map(…).max()`
unfoldable pub private_l2_bytes : List CpuCache → ℕ → Option ℕ
private_l2_bytes [] cpu_id = none
private_l2_bytes (cache ∷ caches) cpu_id =
    let best = private_l2_bytes caches cpu_id in
    if is_private_l2 cpu_id cache then max_option cache.size_bytes best else best

unfoldable pub owners_of : List CpuCache → ℕ → List ℕ → FabricOutcome (List CpuCacheOwner)
owners_of caches budget [] = ok []
owners_of caches budget (cpu_id ∷ cpus) = do
  size ← ok_or (private_l2_bytes caches cpu_id) (missing_private_l2 cpu_id)
  fail_if (ltb size budget) (budget_exceeds_private_l2 cpu_id budget size)
  rest ← owners_of caches budget cpus
  ok (record { cpu_id = cpu_id; hot_budget_bytes = budget } ∷ rest)

unfoldable pub no_duplicate : Option ℕ → FabricOutcome (Unit {0})
no_duplicate none = ok tt
no_duplicate (some cpu) = err (duplicate_compute_cpu cpu)

unfoldable pub from_topology : List CpuCache → List ℕ → ℕ → FabricOutcome CpuCacheFabric
from_topology caches compute_cpus hot_budget_bytes_per_owner = do
  fail_if (is_empty compute_cpus) no_compute_cpus
  no_duplicate (find_duplicate (sort_unstable compute_cpus))
  owners ← owners_of caches hot_budget_bytes_per_owner (sort_unstable compute_cpus)
  ok (record { owners = owners })

unfoldable pub owner_cpus : CpuCacheFabric → List ℕ
owner_cpus fabric = map (λ owner. owner.cpu_id) fabric.owners

unfoldable pub owner_cpu_for_key : {E : Type 0} → CpuCacheFabric → ℕ → Result E ℕ
owner_cpu_for_key fabric key = do
  owner_index ← plain_rem key (length fabric.owners)
  owner ← index fabric.owners owner_index
  ok owner.cpu_id

unfoldable pub hot_budget_bytes_per_owner : {E : Type 0} → CpuCacheFabric → Result E ℕ
hot_budget_bytes_per_owner fabric = do owner ← index fabric.owners 0; ok owner.hot_budget_bytes

unfoldable pub find_zero_bytes : List HotCacheCandidate → Option ℕ
find_zero_bytes [] = none
find_zero_bytes (c ∷ candidates) = if c.bytes == 0 then some c.key else find_zero_bytes candidates

-- `candidates.iter().find(|candidate| !seen_keys.insert(candidate.key))`
unfoldable pub find_seen : List ℕ → List HotCacheCandidate → Option ℕ
find_seen seen_keys [] = none
find_seen seen_keys (c ∷ candidates) =
    if contains c.key seen_keys then some c.key else find_seen (c.key ∷ seen_keys) candidates

unfoldable pub reject : (ℕ → CacheFabricError) → Option ℕ → FabricOutcome (Unit {0})
reject e none = ok tt
reject e (some key) = err (e key)

-- The comparison of the sort does not give `Greater`.
unfoldable pub precedes : HotCacheCandidate → HotCacheCandidate → Bool
precedes left right =
    let left_density = left.expected_savings_ns * right.bytes in
    let right_density = right.expected_savings_ns * left.bytes in
    ltb right_density left_density
    || ((right_density == left_density)
        && (ltb left.key right.key
            || ((left.key == right.key)
                && (ltb left.bytes right.bytes
                    || ((left.bytes == right.bytes)
                        && leb left.expected_savings_ns right.expected_savings_ns)))))

unfoldable pub insert_by_density :
    HotCacheCandidate → List HotCacheCandidate → List HotCacheCandidate
insert_by_density c [] = c ∷ []
insert_by_density c (d ∷ candidates) =
    let rest = insert_by_density c candidates in
    if precedes c d then c ∷ d ∷ candidates else d ∷ rest

unfoldable pub sort_by_density : List HotCacheCandidate → List HotCacheCandidate
sort_by_density [] = []
sort_by_density (c ∷ candidates) = insert_by_density c (sort_by_density candidates)

unfoldable pub filter_owned :
    CpuCacheFabric → ℕ → List HotCacheCandidate → FabricOutcome (List HotCacheCandidate)
filter_owned fabric cpu_id [] = ok []
filter_owned fabric cpu_id (c ∷ candidates) = do
  owner ← owner_cpu_for_key fabric c.key
  rest ← filter_owned fabric cpu_id candidates
  ok (if owner == cpu_id then c ∷ rest else rest)

unfoldable pub placement_of : ℕ → HotCacheCandidate → HotCachePlacement
placement_of cpu_id c = record {
  key = c.key;
  owner_cpu = cpu_id;
  bytes = c.bytes;
  expected_savings_ns = c.expected_savings_ns;
}

unfoldable pub is_reserved : ℕ → HotCacheCandidate → Bool
is_reserved remaining c = not (c.expected_savings_ns == 0) && leb c.bytes remaining

-- The loop over the candidates of one owner: its placements, and what is left of its budget.
unfoldable pub reserve : ℕ → ℕ → List HotCacheCandidate → List HotCachePlacement × ℕ
reserve cpu_id remaining [] = ([], remaining)
reserve cpu_id remaining (c ∷ candidates) =
    let reserved = is_reserved remaining c in
    let rest = reserve cpu_id (if reserved then remaining - c.bytes else remaining) candidates in
    (if reserved then placement_of cpu_id c ∷ rest.0 else rest.0, rest.1)

-- The loop over the owners. Round `i` alone writes entry `i` of `remaining_bytes_by_cpu`, which
-- starts as the owner's budget.
unfoldable pub plan_owners :
    CpuCacheFabric
    → List HotCacheCandidate
    → List CpuCacheOwner
    → FabricOutcome (List HotCachePlacement × List (ℕ × ℕ))
plan_owners fabric candidates [] = ok ([], [])
plan_owners fabric candidates (owner ∷ owners) = do
  owned ← filter_owned fabric owner.cpu_id candidates
  let mine = reserve owner.cpu_id owner.hot_budget_bytes (sort_by_density owned)
  rest ← plan_owners fabric candidates owners
  ok (mine.0 ++ rest.0, (owner.cpu_id, mine.1) ∷ rest.1)

unfoldable pub plan_hot_candidates :
    CpuCacheFabric → List HotCacheCandidate → FabricOutcome CpuHotCachePlan
plan_hot_candidates fabric candidates = do
  fail_if (is_empty fabric.owners) no_compute_cpus
  reject zero_candidate_bytes (find_zero_bytes candidates)
  reject duplicate_candidate_key (find_seen [] candidates)
  planned ← plan_owners fabric candidates fabric.owners
  budget ← hot_budget_bytes_per_owner fabric
  ok (record {
    owner_cpus = owner_cpus fabric;
    hot_budget_bytes_per_owner = budget;
    placements = planned.0;
    remaining_bytes_by_cpu = planned.1;
  })
