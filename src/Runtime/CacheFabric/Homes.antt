-- ===== src/Runtime/CacheFabric/Homes.antt =====
-- Each placement of a plan is with the owner of its key.
use gb10x.Prelude.{
  two_steps, ℕ, ◌-◌, ◌%◌, ◌≡◌, refl, sym, subst, ◌∙◌, true, false, none, some, List, [], ◌∷◌, ◌++◌,
  ok, panic, ◌==◌, length, ==_iff, get_elem?, All, Bool-cases, Option-cases, inl, inr, ok-injective,
  if◌then◌else◌,
}
use gb10x.Runtime.CacheFabric.{
  CpuCacheOwner, HotCacheCandidate, HotCachePlacement, CpuHotCachePlan, CpuCacheFabric,
  owner_cpu_for_key, filter_owned, sort_by_density, insert_by_density, precedes, reserve,
  is_reserved, placement_of, plan_owners, plan_hot_candidates,
}
use gb10x.Runtime.CacheFabric.Budget.{Planned, plan_owners-eq-ok}
use gb10x.Runtime.CacheFabric.Plan.{plan_hot_candidates-eq-ok}

-- The owner of a key is the one at the key's remainder by the number of owners.
abbrev pub IsHome : CpuCacheFabric → ℕ → ℕ → Type 0
IsHome fabric key cpu =
    (owner : CpuCacheOwner) × ((length fabric.owners == 0) ≡ false)
    × (get_elem? fabric.owners (key % length fabric.owners) ≡ some owner)
    × (owner.cpu_id ≡ cpu)

pub IsHome-owner_cpu_for_key :
    {E : Type 0} (fabric : CpuCacheFabric) (key cpu : ℕ)
    → IsHome fabric key cpu
    → owner_cpu_for_key {E = E} fabric key ≡ ok cpu
unfolding owner_cpu_for_key
IsHome-owner_cpu_for_key fabric key cpu (owner, some_, at, same) = rw (some_, at, same) refl

no_owners :
    {E : Type 0} (fabric : CpuCacheFabric) (key : ℕ)
    → (length fabric.owners == 0) ≡ true
    → owner_cpu_for_key {E = E} fabric key ≡ panic
unfolding owner_cpu_for_key
no_owners fabric key h = rw h refl

no_owner :
    {E : Type 0} (fabric : CpuCacheFabric) (key : ℕ)
    → (length fabric.owners == 0) ≡ false
    → get_elem? fabric.owners (key % length fabric.owners) ≡ none
    → owner_cpu_for_key {E = E} fabric key ≡ panic
unfolding owner_cpu_for_key
no_owner fabric key h k = rw (h, k) refl

pub owner_cpu_for_key-IsHome :
    {E : Type 0} (fabric : CpuCacheFabric) (key cpu : ℕ)
    → owner_cpu_for_key {E = E} fabric key ≡ ok cpu
    → IsHome fabric key cpu
owner_cpu_for_key-IsHome {E} fabric key cpu h = elim (Bool-cases (length fabric.owners == 0)) [
  | inl empty ↦ let stuck = no_owners {E = E} fabric key empty in cc
  | inr filled ↦ elim (Option-cases (get_elem? fabric.owners (key % length fabric.owners))) [
    | inl out ↦ let stuck = no_owner {E = E} fabric key filled out in cc
    | inr (owner, at) ↦
        let found =
          IsHome-owner_cpu_for_key {E = E} fabric key owner.cpu_id (owner, filled, at, refl) in
        (owner, filled, at, ok-injective (sym found ∙ h))
  ]
]

-- What holds of every key of some candidates holds of those that are placed.
module _ (P : ℕ → Type 0) where
  abbrev pub OnKeys : List HotCacheCandidate → Type 0
  OnKeys candidates = All (λ c. P c.key) candidates

  insert-OnKeys :
      (c : HotCacheCandidate) (cs : List HotCacheCandidate)
      → P c.key
      → OnKeys cs
      → OnKeys (insert_by_density c cs)
  unfolding insert_by_density
  insert-OnKeys c [] p ps = (p, tt)
  insert-OnKeys c (d ∷ cs) p (q, qs) = elim (Bool-cases (precedes c d)) [
    | inl first ↦ rw first (p, (q, qs))
    | inr later ↦ rw later (q, insert-OnKeys c cs p qs)
  ]

  sort-OnKeys : (cs : List HotCacheCandidate) → OnKeys cs → OnKeys (sort_by_density cs)
  unfolding sort_by_density
  sort-OnKeys [] ps = tt
  sort-OnKeys (c ∷ cs) (p, ps) = insert-OnKeys c (sort_by_density cs) p (sort-OnKeys cs ps)

abbrev pub IsAtHome : CpuCacheFabric → HotCachePlacement → Type 0
IsAtHome fabric p = IsHome fabric p.key p.owner_cpu

module _ (fabric : CpuCacheFabric) where
  filter_owned-IsHome :
      (cpu : ℕ) (cs : List HotCacheCandidate) {owned : List HotCacheCandidate}
      → filter_owned fabric cpu cs ≡ ok owned
      → All (λ c. IsHome fabric c.key cpu) owned
  unfolding filter_owned
  filter_owned-IsHome cpu [] h = subst (All (λ c. IsHome fabric c.key cpu)) (ok-injective h) tt
  filter_owned-IsHome cpu (c ∷ cs) h =
      let (owner, rest, o, r, e) =
        two_steps (owner_cpu_for_key fabric c.key) (filter_owned fabric cpu cs)
          (λ owner rest. if owner == cpu then c ∷ rest else rest) h in
      let homes = filter_owned-IsHome cpu cs r in
      let home = owner_cpu_for_key-IsHome fabric c.key owner o in
      subst (All (λ c. IsHome fabric c.key cpu)) e (elim (Bool-cases (owner == cpu)) [
        | inl same ↦ rw same (subst (IsHome fabric c.key) ((==_iff owner cpu).0 same) home, homes)
        | inr apart ↦ rw apart homes
      ])

  reserve-IsAtHome :
      (cpu remaining : ℕ) (cs : List HotCacheCandidate)
      → All (λ c. IsHome fabric c.key cpu) cs
      → All (IsAtHome fabric) (reserve cpu remaining cs).0
  unfolding reserve placement_of
  reserve-IsAtHome cpu remaining [] hs = tt
  reserve-IsAtHome cpu remaining (c ∷ cs) (h, hs) = elim (Bool-cases (is_reserved remaining c)) [
    | inl e ↦ rw e (h, reserve-IsAtHome cpu (remaining - c.bytes) cs hs)
    | inr e ↦ rw e (reserve-IsAtHome cpu remaining cs hs)
  ]

  All-append :
      (ps qs : List HotCachePlacement)
      → All (IsAtHome fabric) ps
      → All (IsAtHome fabric) qs
      → All (IsAtHome fabric) (ps ++ qs)
  All-append [] qs hs ks = ks
  All-append (p ∷ ps) qs (h, hs) ks = (h, All-append ps qs hs ks)

  plan_owners-IsAtHome :
      (cs : List HotCacheCandidate) (owners : List CpuCacheOwner) {out : Planned}
      → plan_owners fabric cs owners ≡ ok out
      → All (IsAtHome fabric) out.0
  unfolding plan_owners
  plan_owners-IsAtHome cs [] h =
      subst (λ (o : Planned). All (IsAtHome fabric) o.0) (ok-injective h) tt
  plan_owners-IsAtHome cs (owner ∷ owners) h =
      let (owned, rest, f, r, e) = plan_owners-eq-ok fabric cs owner owners h in
      let cpu = owner.cpu_id in
      let sorted =
        sort-OnKeys (λ key. IsHome fabric key cpu) owned (filter_owned-IsHome cpu cs f) in
      let mine = reserve cpu owner.hot_budget_bytes (sort_by_density owned) in
      subst (λ (o : Planned). All (IsAtHome fabric) o.0) e
        (All-append mine.0 rest.0
          (reserve-IsAtHome cpu owner.hot_budget_bytes (sort_by_density owned) sorted)
          (plan_owners-IsAtHome cs owners r))

  -- Every placement of a plan names the CPU that owns its key.
  pub plan_hot_candidates-IsAtHome :
      (cs : List HotCacheCandidate) {plan : CpuHotCachePlan}
      → plan_hot_candidates fabric cs ≡ ok plan
      → All (IsAtHome fabric) plan.placements
  plan_hot_candidates-IsAtHome cs h =
      let (planned, b, p, _, e) = plan_hot_candidates-eq-ok fabric cs h in
      subst (λ (q : CpuHotCachePlan). All (IsAtHome fabric) q.placements) e
        (plan_owners-IsAtHome cs fabric.owners p)
