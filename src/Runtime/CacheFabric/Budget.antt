-- ===== src/Runtime/CacheFabric/Budget.antt =====
-- What the plan of the hot candidates keeps to: the owners' budgets, and the owners of the keys.
use gb10x.Prelude.{
  two_steps, ℕ, ◌+◌, ◌-◌, ◌≤◌, ◌<◌, ◌≡◌, refl, true, false, some, List, [], ◌∷◌, ◌++◌, map, ok,
  ==_iff, subst, ◌==◌, arith, All, Bool-cases, inl, inr, if◌then◌else◌, ok-injective,
}
use gb10x.Prelude.Sorted.{contains}
use gb10x.Runtime.CacheFabric.{
  CpuCacheOwner, HotCacheCandidate, HotCachePlacement, CpuCacheFabric, is_reserved, reserve,
  placement_of, plan_owners, filter_owned, find_remaining, sort_by_density,
}

-- The bytes that one CPU's placements take.
abbrev pub bytes_on : ℕ → List HotCachePlacement → ℕ
bytes_on cpu [] = 0
bytes_on cpu (p ∷ placements) =
    (if p.owner_cpu == cpu then p.bytes else 0) + bytes_on cpu placements

bytes_on-append :
    (cpu : ℕ) (ps qs : List HotCachePlacement)
    → bytes_on cpu (ps ++ qs) ≡ bytes_on cpu ps + bytes_on cpu qs
bytes_on-append cpu [] qs = omega arith
bytes_on-append cpu (p ∷ ps) qs = let rest = bytes_on-append cpu ps qs in rw rest omega arith

pub self_eq : (a : ℕ) → (a == a) ≡ true
self_eq a = ground arith

is_reserved-fits :
    (remaining : ℕ) (c : HotCacheCandidate)
    → is_reserved remaining c ≡ true
    → (c.bytes ≤ remaining) × (0 < c.expected_savings_ns)
unfolding is_reserved
is_reserved-fits remaining c h = ground arith

-- An owner's placements and what is left make up its budget.
reserve-budget :
    (cpu remaining : ℕ) (candidates : List HotCacheCandidate)
    → bytes_on cpu (reserve cpu remaining candidates).0 + (reserve cpu remaining candidates).1
      ≡ remaining
unfolding reserve placement_of
reserve-budget cpu remaining [] = omega arith
reserve-budget cpu remaining (c ∷ candidates) = elim (Bool-cases (is_reserved remaining c)) [
  | inl h ↦
      let fits = is_reserved-fits remaining c h in
      let rest = reserve-budget cpu (remaining - c.bytes) candidates in
      rw (h, self_eq cpu) omega arith
  | inr h ↦ rw h (reserve-budget cpu remaining candidates)
]

reserve-other :
    (cpu other remaining : ℕ) (candidates : List HotCacheCandidate)
    → (cpu == other) ≡ false
    → bytes_on other (reserve cpu remaining candidates).0 ≡ 0
unfolding reserve placement_of
reserve-other cpu other remaining [] apart = refl
reserve-other cpu other remaining (c ∷ candidates) apart =
    elim (Bool-cases (is_reserved remaining c)) [
      | inl h ↦
          let rest = reserve-other cpu other (remaining - c.bytes) candidates apart in
          rw (h, apart, rest) refl
      | inr h ↦ rw h (reserve-other cpu other remaining candidates apart)
    ]

abbrev pub Planned : Type 0
Planned = List HotCachePlacement × List (ℕ × ℕ)

-- Owners with ascending CPU identifiers.
abbrev pub IsOrdered : List CpuCacheOwner → Type 0
IsOrdered [] = Unit
IsOrdered (owner ∷ owners) = All (λ o. owner.cpu_id < o.cpu_id) owners × IsOrdered owners

-- What is left of a CPU's budget, and what its placements take, make up the budget.
abbrev pub IsSplit : ℕ → ℕ → Planned → Type 0
IsSplit cpu budget out =
    (left : ℕ) × (find_remaining out.1 cpu ≡ some left) × (bytes_on cpu out.0 + left ≡ budget)

module _ (fabric : CpuCacheFabric) (candidates : List HotCacheCandidate) where
  abbrev pub joined : CpuCacheOwner → List HotCacheCandidate → Planned → Planned
  joined owner owned rest =
      let mine = reserve owner.cpu_id owner.hot_budget_bytes (sort_by_density owned) in
      (mine.0 ++ rest.0, (owner.cpu_id, mine.1) ∷ rest.1)

  pub plan_owners-eq-ok :
      (owner : CpuCacheOwner) (owners : List CpuCacheOwner) {out : Planned}
      → plan_owners fabric candidates (owner ∷ owners) ≡ ok out
      → (owned : List HotCacheCandidate) × (rest : Planned) × (filter_owned fabric owner.cpu_id
            candidates
          ≡ ok owned)
        × (plan_owners fabric candidates owners ≡ ok rest)
        × (joined owner owned rest ≡ out)
  unfolding plan_owners
  plan_owners-eq-ok owner owners h =
      two_steps (filter_owned fabric owner.cpu_id candidates) (plan_owners fabric candidates owners)
        (joined owner) h

  plan_owners-other :
      (cpu : ℕ) (owners : List CpuCacheOwner) {out : Planned}
      → plan_owners fabric candidates owners ≡ ok out
      → All (λ o. cpu < o.cpu_id) owners
      → bytes_on cpu out.0 ≡ 0
  unfolding plan_owners
  plan_owners-other cpu [] {out} h below =
      let e : ([], []) ≡ out = ok-injective h in
      subst (λ (o : Planned). bytes_on cpu o.0 ≡ 0) e refl
  plan_owners-other cpu (owner ∷ owners) h (less, below) =
      let (owned, rest, f, r, e) = plan_owners-eq-ok owner owners h in
      let others = plan_owners-other cpu owners r below in
      let budget = owner.hot_budget_bytes in
      let mine = reserve-other owner.cpu_id cpu budget (sort_by_density owned) (ground arith) in
      subst (λ (o : Planned). bytes_on cpu o.0 ≡ 0) e
        (rw
          (
            bytes_on-append cpu (reserve owner.cpu_id budget (sort_by_density owned)).0 rest.0,
            mine,
            others,
          )
          refl)

  joined-own :
      (owner : CpuCacheOwner) (owned : List HotCacheCandidate) (rest : Planned)
      → bytes_on owner.cpu_id rest.0 ≡ 0
      → IsSplit owner.cpu_id owner.hot_budget_bytes (joined owner owned rest)
  unfolding find_remaining
  joined-own owner owned rest others =
      let cpu = owner.cpu_id in
      let mine = reserve cpu owner.hot_budget_bytes (sort_by_density owned) in
      let split = reserve-budget cpu owner.hot_budget_bytes (sort_by_density owned) in
      let parts = bytes_on-append cpu mine.0 rest.0 in
      (mine.1, rw (self_eq cpu) refl, rw (parts, others) omega arith)

  joined-other :
      (cpu budget : ℕ) (owner : CpuCacheOwner) (owned : List HotCacheCandidate) (rest : Planned)
      → (owner.cpu_id == cpu) ≡ false
      → IsSplit cpu budget rest
      → IsSplit cpu budget (joined owner owned rest)
  unfolding find_remaining
  joined-other cpu budget owner owned rest apart (left, found, split) =
      let mine = reserve owner.cpu_id owner.hot_budget_bytes (sort_by_density owned) in
      let none_here =
        reserve-other owner.cpu_id cpu owner.hot_budget_bytes (sort_by_density owned) apart in
      let parts = bytes_on-append cpu mine.0 rest.0 in
      (left, rw apart found, rw (parts, none_here) omega arith)

  contains-tail :
      (x y : ℕ) (ys : List ℕ) → (y == x) ≡ false → contains x (y ∷ ys) ≡ true → contains x ys ≡ true
  unfolding contains
  contains-tail x y ys apart has = ground arith

  -- Of ascending owners with one budget, each one's placements and remaining bytes make it up.
  pub plan_owners-budget :
      (cpu budget : ℕ) (owners : List CpuCacheOwner) {out : Planned}
      → plan_owners fabric candidates owners ≡ ok out
      → IsOrdered owners
      → All (λ o. o.hot_budget_bytes ≡ budget) owners
      → contains cpu (map (λ o. o.cpu_id) owners) ≡ true
      → IsSplit cpu budget out
  unfolding plan_owners contains
  plan_owners-budget cpu budget [] h ordered budgets owned = cc
  plan_owners-budget cpu budget (owner ∷ owners) h (below, ordered) (b, budgets) has =
      let (owned, rest, f, r, e) = plan_owners-eq-ok owner owners h in
      let others = plan_owners-other owner.cpu_id owners r below in
      elim (Bool-cases (owner.cpu_id == cpu)) [
        | inl same ↦ subst (IsSplit cpu budget) e (
            subst (λ c. IsSplit c budget (joined owner owned rest))
              ((==_iff owner.cpu_id cpu).0 same)
              (subst (λ n. IsSplit owner.cpu_id n (joined owner owned rest)) b
                (joined-own owner owned rest others)))
        | inr apart ↦ subst (IsSplit cpu budget) e (
            joined-other cpu budget owner owned rest apart (
              plan_owners-budget cpu budget owners r ordered budgets
                (contains-tail cpu owner.cpu_id _ apart has)))
      ]
