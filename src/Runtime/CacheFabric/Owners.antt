-- ===== src/Runtime/CacheFabric/Owners.antt =====
-- What `from_topology` accepts, and the owners that it derives.
use gb10x.Prelude.{
  ℕ, ◌≤◌, ◌<◌, ◌≡◌, refl, ◌∙◌, sym, subst, Bool, true, false, Option, none, some, List, [], ◌∷◌,
  map, ok, ◌>>=◌, ◌>>◌, fail_if, ok_or, ltb, ◌==◌, arith, All, Bool-cases, inl, inr, >>=-eq-ok,
  fail_if-eq-ok, ok-injective, Result,
}
use gb10x.Prelude.Sorted.{
  sort_unstable, SameMembers, IsSorted, IsAscending, All-below, contains-sort_unstable,
  sort_unstable-IsSorted,
}
use gb10x.Prelude.Texts.{is_empty}
use gb10x.Core.Platform.{CpuCache}
use gb10x.Runtime.CacheFabric.{
  CpuCacheOwner, CpuCacheFabric, find_duplicate, private_l2_bytes, owners_of, no_duplicate,
  from_topology, no_compute_cpus, missing_private_l2, budget_exceeds_private_l2, owner_cpus,
}
use gb10x.Runtime.CacheFabric.Budget.{IsOrdered}
use gb10x.Runtime.CacheFabric.PrivateL2.{IsLargestPrivateL2, private_l2_bytes-largest}

-- The owner of one CPU, whose largest private L2 holds the budget.
abbrev pub IsOwner : List CpuCache → ℕ → CpuCacheOwner → Type 0
IsOwner caches budget owner =
    (owner.hot_budget_bytes ≡ budget)
    × ((size : ℕ) × IsLargestPrivateL2 caches owner.cpu_id size × (budget ≤ size))

abbrev pub AreOwners : List CpuCache → ℕ → List ℕ → List CpuCacheOwner → Type 0
AreOwners caches budget cpus owners =
    (map (λ o. o.cpu_id) owners ≡ cpus) × All (IsOwner caches budget) owners

-- A looked-up value that is tested, then a step.
looked_up :
    {E A B : Type 0} (o : Option ℕ) (e : E) (test : ℕ → Bool) (e' : ℕ → E) (n : Result E A)
    (k : A → B) {out : B}
    → (do size ← ok_or o e; fail_if (test size) (e' size); rest ← n; ok (k rest)) ≡ ok out
    → (size : ℕ) × (rest : A) × (o ≡ some size)
      × (test size ≡ false)
      × (n ≡ ok rest)
      × (k rest ≡ out)
looked_up none e test e' n k h = cc
looked_up (some size) e test e' n k h =
    let (t, h') = fail_if-eq-ok (test size) (e' size) (n >>= λ rest. ok (k rest)) h in
    let (rest, r, last) = >>=-eq-ok n (λ rest. ok (k rest)) h' in
    (size, rest, refl, t, r, ok-injective last)

ltb-false : (a b : ℕ) → ltb a b ≡ false → b ≤ a
ltb-false a b h = ground arith

owners_of-AreOwners :
    (caches : List CpuCache) (budget : ℕ) (cpus : List ℕ) {owners : List CpuCacheOwner}
    → owners_of caches budget cpus ≡ ok owners
    → AreOwners caches budget cpus owners
unfolding owners_of
owners_of-AreOwners caches budget [] h =
    subst (AreOwners caches budget []) (ok-injective h) (refl, tt)
owners_of-AreOwners caches budget (cpu ∷ cpus) h =
    let owner : CpuCacheOwner = record { cpu_id = cpu; hot_budget_bytes = budget } in
    let (size, rest, found, fits, r, e) =
      looked_up (private_l2_bytes caches cpu) (missing_private_l2 cpu) (λ size. ltb size budget)
        (λ size. budget_exceeds_private_l2 cpu budget size) (owners_of caches budget cpus)
        (λ rest. owner ∷ rest) h in
    let (ids, all) = owners_of-AreOwners caches budget cpus r in
    subst (AreOwners caches budget (cpu ∷ cpus)) e (
      rw ids refl,
      ((refl, (size, private_l2_bytes-largest caches cpu found, ltb-false size budget fits)), all),
    )

duplicate_head :
    (a b : ℕ) (cpus : List ℕ) → (a == b) ≡ true → find_duplicate (a ∷ b ∷ cpus) ≡ some a
unfolding find_duplicate
duplicate_head a b cpus same = rw same refl

duplicate_tail :
    (a b : ℕ) (cpus : List ℕ)
    → (a == b) ≡ false
    → find_duplicate (a ∷ b ∷ cpus) ≡ find_duplicate (b ∷ cpus)
unfolding find_duplicate
duplicate_tail a b cpus apart = rw apart refl

lt_of_le_apart : (a b : ℕ) → a ≤ b → (a == b) ≡ false → a < b
lt_of_le_apart a b h k = ground arith

-- Sorted, with no two neighbours alike.
sorted-IsAscending : (cpus : List ℕ) → IsSorted cpus → find_duplicate cpus ≡ none → IsAscending cpus
sorted-IsAscending [] sorted single = tt
sorted-IsAscending (a ∷ []) sorted single = (tt, tt)
sorted-IsAscending (a ∷ b ∷ cpus) ((le, les), sorted) single = elim (Bool-cases (a == b)) [
  | inl same ↦ let twice = duplicate_head a b cpus same in cc
  | inr apart ↦
      let below = lt_of_le_apart a b le apart in
      let rest =
        sorted-IsAscending (b ∷ cpus) sorted (sym (duplicate_tail a b cpus apart) ∙ single) in
      ((below, All-below a b cpus below rest.0), rest)
]

All-ids :
    (cpu : ℕ) (owners : List CpuCacheOwner)
    → All (◌<◌ cpu) (map (λ o. o.cpu_id) owners)
    → All (λ o. cpu < o.cpu_id) owners
All-ids cpu [] h = tt
All-ids cpu (owner ∷ owners) (h, hs) = (h, All-ids cpu owners hs)

ascending-IsOrdered :
    (owners : List CpuCacheOwner) → IsAscending (map (λ o. o.cpu_id) owners) → IsOrdered owners
ascending-IsOrdered [] h = tt
ascending-IsOrdered (owner ∷ owners) (below, h) =
    (All-ids owner.cpu_id owners below, ascending-IsOrdered owners h)

-- A fabric of ascending owners, each with the budget, that are the selected CPUs.
abbrev pub IsFabric : List CpuCache → List ℕ → ℕ → CpuCacheFabric → Type 0
IsFabric caches cpus budget fabric =
    IsOrdered fabric.owners
    × SameMembers (owner_cpus fabric) cpus
    × All (IsOwner caches budget) fabric.owners

no_duplicate-none : (o : Option ℕ) (u : Unit {0}) → no_duplicate o ≡ ok u → o ≡ none
unfolding no_duplicate
no_duplicate-none none u h = refl
no_duplicate-none (some cpu) u h = cc

-- When `from_topology` succeeds, the owners are the selected CPUs in ascending order, each with the
-- budget asked for, which its largest private data-capable L2 can hold.
pub from_topology-IsFabric :
    (caches : List CpuCache) (cpus : List ℕ) (budget : ℕ) {fabric : CpuCacheFabric}
    → from_topology caches cpus budget ≡ ok fabric
    → IsFabric caches cpus budget fabric
unfolding from_topology owner_cpus
from_topology-IsFabric caches cpus budget h =
    let sorted = sort_unstable cpus in
    let make = λ (owners : List CpuCacheOwner). ok (record { owners = owners }) in
    let build = owners_of caches budget sorted >>= make in
    let (_, h') =
      fail_if-eq-ok (is_empty cpus) no_compute_cpus (no_duplicate (find_duplicate sorted) >> build)
        h in
    let (u, single, h'') = >>=-eq-ok (no_duplicate (find_duplicate sorted)) (λ _. build) h' in
    let (owners, made, e) = >>=-eq-ok (owners_of caches budget sorted) make h'' in
    let (ids, all) = owners_of-AreOwners caches budget sorted made in
    let ascending =
      sorted-IsAscending sorted (sort_unstable-IsSorted cpus) (no_duplicate-none _ u single) in
    subst (IsFabric caches cpus budget) (ok-injective e) (
      ascending-IsOrdered owners (subst IsAscending (sym ids) ascending),
      subst (λ xs. SameMembers xs cpus) (sym ids) (contains-sort_unstable cpus),
      all,
    )
