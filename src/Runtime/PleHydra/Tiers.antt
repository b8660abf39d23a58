-- ===== src/Runtime/PleHydra/Tiers.antt =====
-- A hierarchy built from a plan of its own fabric: it is accepted, and serves every placed key hot.
use gb10x.Prelude.{
  ℕ, ◌≡◌, refl, sym, subst, ap, Bool, true, false, ◌&&◌, ◌||◌, List, [], ◌∷◌, ok, ◌>>=◌, ◌==◌,
  arith, All, ok-injective, index,
}
use gb10x.Prelude.Sorted.{contains}
use gb10x.Prelude.Texts.{equal_list_iff}
use gb10x.Runtime.CacheFabric.{
  CpuCacheOwner, CacheFabricError, HotCacheCandidate, HotCachePlacement, CpuHotCachePlan,
  CpuCacheFabric, owner_cpus, hot_budget_bytes_per_owner, plan_hot_candidates,
}
use gb10x.Runtime.CacheFabric.Budget.{self_eq}
use gb10x.Runtime.CacheFabric.Plan.{plan_of, plan_hot_candidates-eq-ok}
use gb10x.Runtime.CacheFabric.Homes.{
  IsHome, IsAtHome, IsHome-owner_cpu_for_key, plan_hot_candidates-IsAtHome,
}
use gb10x.Runtime.PleHydra.{
  PleHydra, PleHydraError, exact, owner_cpu_hot, HotKeys, insert_hot, is_hot, collect_hot,
  is_unlabelled, from_hot_cache_plan_with_mode, from_hot_cache_plan, tier_for_key,
}

or_true : (b : Bool) → (b || true) ≡ true
or_true true = refl
or_true false = refl

is_hot-insert_hot :
    (hot : HotKeys) (cpu key c k : ℕ)
    → is_hot (insert_hot hot cpu key) c k ≡ (((cpu == c) && (k == key)) || is_hot hot c k)
unfolding is_hot insert_hot contains
is_hot-insert_hot [] cpu key c k = ground arith
is_hot-insert_hot (entry ∷ entries) cpu key c k =
    let rest = is_hot-insert_hot entries cpu key c k in ground arith

-- The keys of some placements, after those that were hot before.
collect_hot-total :
    (fabric : CpuCacheFabric) (placements : List HotCachePlacement) (hot : HotKeys)
    → All (IsAtHome fabric) placements
    → (hot' : HotKeys) × (collect_hot fabric hot placements ≡ ok hot')
      × ((c k : ℕ) → is_hot hot c k ≡ true → is_hot hot' c k ≡ true)
      × All (λ p. is_hot hot' p.owner_cpu p.key ≡ true) placements
unfolding collect_hot
collect_hot-total fabric [] hot homes = (hot, refl, (λ c k h. h), tt)
collect_hot-total fabric (p ∷ placements) hot (home, homes) =
    let (hot', r, keeps, all) =
      collect_hot-total fabric placements (insert_hot hot p.owner_cpu p.key) homes in
    let step = is_hot-insert_hot hot p.owner_cpu p.key in
    (
      hot',
      rw
          (
            IsHome-owner_cpu_for_key {E = PleHydraError} fabric p.key p.owner_cpu home,
            self_eq p.owner_cpu,
          )
          r,
      λ c k h. keeps c k (rw (step c k, h) (or_true _)),
      (
        keeps p.owner_cpu p.key
            (rw (step p.owner_cpu p.key, self_eq p.owner_cpu, self_eq p.key) refl),
        all,
      ),
    )

abbrev hydra_of : CpuCacheFabric → HotKeys → List ℕ → List ℕ → PleHydra
hydra_of fabric hot shared page = record {
  mode = exact;
  cache_fabric = fabric;
  owner_hot_keys = hot;
  shared_cpu_warm_keys = shared;
  page_cache_warm_keys = page;
}

hot_tier :
    (fabric : CpuCacheFabric) (hot : HotKeys) (shared page : List ℕ) (key cpu : ℕ)
    → IsHome fabric key cpu
    → is_hot hot cpu key ≡ true
    → tier_for_key (hydra_of fabric hot shared page) key ≡ ok (owner_cpu_hot cpu)
unfolding tier_for_key
hot_tier fabric hot shared page key cpu home h =
    rw (IsHome-owner_cpu_for_key {E = PleHydraError} fabric key cpu home, h) refl

All-hot_tier :
    (fabric : CpuCacheFabric) (hot : HotKeys) (shared page : List ℕ)
    (placements : List HotCachePlacement)
    → All (IsAtHome fabric) placements
    → All (λ p. is_hot hot p.owner_cpu p.key ≡ true) placements
    → All
        (λ p. tier_for_key (hydra_of fabric hot shared page) p.key ≡ ok (owner_cpu_hot p.owner_cpu))
        placements
All-hot_tier fabric hot shared page [] homes hots = tt
All-hot_tier fabric hot shared page (p ∷ ps) (home, homes) (h, hots) = (
  hot_tier fabric hot shared page p.key p.owner_cpu home h,
  All-hot_tier fabric hot shared page ps homes hots,
)

first_budget :
    {E F : Type 0} (owners : List CpuCacheOwner) (budget : ℕ)
    → (index {E = E} owners 0 >>= λ owner. ok owner.hot_budget_bytes) ≡ ok budget
    → (index {E = F} owners 0 >>= λ owner. ok owner.hot_budget_bytes) ≡ ok budget
first_budget [] budget h = cc
first_budget (owner ∷ owners) budget h = ap ok (ok-injective h)

-- The budget of a fabric is its first owner's, whatever the error type of the caller.
budget_anywhere :
    {E F : Type 0} (fabric : CpuCacheFabric) (budget : ℕ)
    → hot_budget_bytes_per_owner {E = E} fabric ≡ ok budget
    → hot_budget_bytes_per_owner {E = F} fabric ≡ ok budget
unfolding hot_budget_bytes_per_owner
budget_anywhere {E} {F} fabric budget h = first_budget {E = E} {F = F} fabric.owners budget h

accepted :
    (fabric : CpuCacheFabric) (planned : List HotCachePlacement × List (ℕ × ℕ)) (budget : ℕ)
    (shared page : List ℕ) (hot : HotKeys)
    → hot_budget_bytes_per_owner {E = PleHydraError} fabric ≡ ok budget
    → collect_hot fabric [] planned.0 ≡ ok hot
    → from_hot_cache_plan fabric (plan_of fabric planned budget) shared page
      ≡ ok (hydra_of fabric hot shared page)
unfolding from_hot_cache_plan from_hot_cache_plan_with_mode is_unlabelled
accepted fabric planned budget shared page hot b c =
    let same = (equal_list_iff (owner_cpus fabric) (owner_cpus fabric)).1 refl in
    rw (b, same, self_eq budget, c) refl

-- A plan is accepted with the fabric that made it, and the hierarchy then serves every placed key
-- from the private cache of the CPU that the plan placed it on.
pub from_hot_cache_plan-own :
    (fabric : CpuCacheFabric) (candidates : List HotCacheCandidate) {plan : CpuHotCachePlan}
    (shared page : List ℕ)
    → plan_hot_candidates fabric candidates ≡ ok plan
    → (hydra : PleHydra) × (from_hot_cache_plan fabric plan shared page ≡ ok hydra)
      × All (λ p. tier_for_key hydra p.key ≡ ok (owner_cpu_hot p.owner_cpu)) plan.placements
from_hot_cache_plan-own fabric candidates shared page h =
    let (planned, budget, p, b, e) = plan_hot_candidates-eq-ok fabric candidates h in
    let homes = plan_hot_candidates-IsAtHome fabric candidates h in
    let homes' =
      subst (λ (q : CpuHotCachePlan). All (IsAtHome fabric) q.placements) (sym e) homes in
    let (hot, c, _, hots) = collect_hot-total fabric planned.0 [] homes' in
    let b' = budget_anywhere {E = CacheFabricError} {F = PleHydraError} fabric budget b in
    subst
      (λ (q : CpuHotCachePlan).
        (hydra : PleHydra) × (from_hot_cache_plan fabric q shared page ≡ ok hydra)
        × All (λ p. tier_for_key hydra p.key ≡ ok (owner_cpu_hot p.owner_cpu)) q.placements)
      e
      (
        hydra_of fabric hot shared page,
        accepted fabric planned budget shared page hot b' c,
        All-hot_tier fabric hot shared page planned.0 homes' hots,
      )
