-- ===== src/Runtime/CacheFabric/Plan.antt =====
-- What `plan_hot_candidates` returns: budgets that are kept to, and placements with their key's owner.
use gb10x.Prelude.{
  ℕ, ◌+◌, ◌≡◌, subst, ◌∙◌, true, some, List, [], ◌∷◌, ok, ◌>>=◌, ◌>>◌, All, >>=-eq-ok,
  fail_if-eq-ok, ok-injective,
}
use gb10x.Prelude.Sorted.{contains}
use gb10x.Prelude.Texts.{is_empty}
use gb10x.Core.Platform.{CpuCache}
use gb10x.Runtime.CacheFabric.{
  CacheFabricError, CpuCacheOwner, HotCacheCandidate, CpuHotCachePlan, CpuCacheFabric,
  from_topology, owner_cpus, hot_budget_bytes_per_owner, plan_owners, plan_hot_candidates, reject,
  find_zero_bytes, find_seen, no_compute_cpus, zero_candidate_bytes, duplicate_candidate_key,
  remaining_bytes_for_cpu,
}
use gb10x.Runtime.CacheFabric.Budget.{Planned, bytes_on, plan_owners-budget}
use gb10x.Runtime.CacheFabric.Owners.{IsOwner, from_topology-IsFabric}

abbrev pub plan_of : CpuCacheFabric → Planned → ℕ → CpuHotCachePlan
plan_of fabric planned budget = record {
  owner_cpus = owner_cpus fabric;
  hot_budget_bytes_per_owner = budget;
  placements = planned.0;
  remaining_bytes_by_cpu = planned.1;
}

pub plan_hot_candidates-eq-ok :
    (fabric : CpuCacheFabric) (candidates : List HotCacheCandidate) {plan : CpuHotCachePlan}
    → plan_hot_candidates fabric candidates ≡ ok plan
    → (planned : Planned) × (budget : ℕ) × (plan_owners fabric candidates fabric.owners
        ≡ ok planned)
      × (hot_budget_bytes_per_owner {E = CacheFabricError} fabric ≡ ok budget)
      × (plan_of fabric planned budget ≡ plan)
unfolding plan_hot_candidates
plan_hot_candidates-eq-ok fabric candidates h =
    let finish = λ (planned : Planned).
      (hot_budget_bytes_per_owner fabric >>= λ budget. ok (plan_of fabric planned budget)) in
    let planning = plan_owners fabric candidates fabric.owners >>= finish in
    let fresh = reject duplicate_candidate_key (find_seen [] candidates) in
    let sized = reject zero_candidate_bytes (find_zero_bytes candidates) in
    let (_, h1) =
      fail_if-eq-ok (is_empty fabric.owners) no_compute_cpus (sized >> (fresh >> planning)) h in
    let (_, _, h2) = >>=-eq-ok sized (λ _. fresh >> planning) h1 in
    let (_, _, h3) = >>=-eq-ok fresh (λ _. planning) h2 in
    let (planned, p, h4) = >>=-eq-ok (plan_owners fabric candidates fabric.owners) finish h3 in
    let (budget, b, h5) =
      >>=-eq-ok (hot_budget_bytes_per_owner fabric) (λ budget. ok (plan_of fabric planned budget))
        h4 in
    (planned, budget, p, b, ok-injective h5)

budgets_of :
    (caches : List CpuCache) (budget : ℕ) (owners : List CpuCacheOwner)
    → All (IsOwner caches budget) owners
    → All (λ o. o.hot_budget_bytes ≡ budget) owners
budgets_of caches budget [] h = tt
budgets_of caches budget (owner ∷ owners) (h, hs) = (h.0, budgets_of caches budget owners hs)

-- In a fabric that `from_topology` made, the bytes that a plan places on a selected CPU and the
-- bytes that it reports as remaining there add up to the budget of each owner.
pub plan_hot_candidates-budget :
    (caches : List CpuCache) (cpus : List ℕ) (budget : ℕ) {fabric : CpuCacheFabric}
    (candidates : List HotCacheCandidate) {plan : CpuHotCachePlan}
    → from_topology caches cpus budget ≡ ok fabric
    → plan_hot_candidates fabric candidates ≡ ok plan
    → (cpu : ℕ) → contains cpu cpus ≡ true
    → (left : ℕ) × (remaining_bytes_for_cpu plan cpu ≡ some left)
      × (bytes_on cpu plan.placements + left ≡ budget)
unfolding remaining_bytes_for_cpu owner_cpus
plan_hot_candidates-budget caches cpus budget {fabric} candidates made h cpu selected =
    let (ordered, same, all) = from_topology-IsFabric caches cpus budget made in
    let (planned, b, p, _, e) = plan_hot_candidates-eq-ok fabric candidates h in
    subst
      (λ (q : CpuHotCachePlan).
        (left : ℕ) × (remaining_bytes_for_cpu q cpu ≡ some left)
        × (bytes_on cpu q.placements + left ≡ budget))
      e
      (plan_owners-budget fabric candidates cpu budget fabric.owners p ordered
        (budgets_of caches budget fabric.owners all) (same cpu ∙ selected))
