-- ===== src/Runtime/CacheFabric/PrivateL2.antt =====
-- Which caches are the private data-capable L2 of a CPU, and that the largest one is found.
use gb10x.Prelude.{
  ℕ, suc, ◌≤◌, ◌≡◌, ◌≢◌, ◌↔◌, refl, subst, Bool, true, false, ◌&&◌, Option, none, some, List, [],
  ◌∷◌, ltb, ◌==◌, ==_iff, get_elem?, arith, All, Bool-cases, inl, inr,
}
use gb10x.Prelude.Texts.{equal_list, equal_list_iff}
use gb10x.Core.Platform.{CacheType, instruction, data_only, unified, CpuCache}
use gb10x.Runtime.CacheFabric.{holds_data, is_private_l2, max_option, private_l2_bytes}

-- A level 2 cache that does not hold instructions alone, and that no other CPU shares.
abbrev pub IsPrivateL2 : ℕ → CpuCache → Type 0
IsPrivateL2 cpu cache =
    (cache.level ≡ 2) × (cache.cache_type ≢ instruction) × (cache.shared_cpu_ids ≡ cpu ∷ [])

-- The size of a private L2, that no other private L2 exceeds.
abbrev pub IsLargestPrivateL2 : List CpuCache → ℕ → ℕ → Type 0
IsLargestPrivateL2 caches cpu size =
    ((i : ℕ) × (cache : CpuCache) × (get_elem? caches i ≡ some cache)
      × IsPrivateL2 cpu cache
      × (cache.size_bytes ≡ size))
    × All (λ cache. IsPrivateL2 cpu cache → cache.size_bytes ≤ size) caches

holds_data_iff : (t : CacheType) → (holds_data t ≡ true) ↔ (t ≢ instruction)
unfolding holds_data
holds_data_iff instruction = (λ h. cc, λ h. absurd (h refl))
holds_data_iff data_only = (λ _ e. cc, λ _. refl)
holds_data_iff unified = (λ _ e. cc, λ _. refl)

and₃-true_iff : (a b c : Bool) → ((a && b && c) ≡ true) ↔ ((a ≡ true) × (b ≡ true) × (c ≡ true))
and₃-true_iff a b c = ground arith

is_private_l2_iff :
    (cpu : ℕ) (cache : CpuCache) → (is_private_l2 cpu cache ≡ true) ↔ IsPrivateL2 cpu cache
unfolding is_private_l2
is_private_l2_iff cpu cache =
    let (to, from) =
      and₃-true_iff (cache.level == 2) (holds_data cache.cache_type)
        (equal_list cache.shared_cpu_ids (cpu ∷ [])) in
    let (level, level') = ==_iff cache.level 2 in
    let (kind, kind') = holds_data_iff cache.cache_type in
    let (shared, shared') = equal_list_iff cache.shared_cpu_ids (cpu ∷ []) in
    (
      λ h. let (a, b, c) = to h in (level a, kind b, shared c),
      λ (a, b, c). from (level' a, kind' b, shared' c),
    )

-- Where none is found, none is private; a size that is found is the largest one's.
abbrev Found : List CpuCache → ℕ → Option ℕ → Type 0
Found caches cpu none = All (λ cache. ¬ IsPrivateL2 cpu cache) caches
Found caches cpu (some size) = IsLargestPrivateL2 caches cpu size

All-map :
    {A : Type 0} (P Q : A → Type 0) (xs : List A) → ((x : A) → P x → Q x) → All P xs → All Q xs
All-map P Q [] f ps = tt
All-map P Q (x ∷ xs) f (p, ps) = (f x p, All-map P Q xs f ps)

le_of_ltb : (a b : ℕ) → ltb a b ≡ true → a ≤ b
le_of_ltb a b h = ground arith

le_of_not_ltb : (a b : ℕ) → ltb a b ≡ false → b ≤ a
le_of_not_ltb a b h = ground arith

-- One more cache, which is private.
max_option-Found :
    (cpu : ℕ) (cache : CpuCache) (caches : List CpuCache) (best : Option ℕ)
    → IsPrivateL2 cpu cache
    → Found caches cpu best
    → Found (cache ∷ caches) cpu (max_option cache.size_bytes best)
unfolding max_option
max_option-Found cpu cache caches none here absent = (
  (0, cache, refl, here, refl),
  (λ _. omega arith, All-map _ _ caches (λ c h p. absurd (h p)) absent),
)
max_option-Found cpu cache caches (some best) here ((i, c, at, p, same), below) =
    elim (Bool-cases (ltb cache.size_bytes best)) [
      | inl smaller ↦
          let e : some best ≡ max_option cache.size_bytes (some best) = rw smaller refl in
          subst (Found (cache ∷ caches) cpu) e
            ((suc i, c, at, p, same), (λ _. le_of_ltb cache.size_bytes best smaller, below))
      | inr larger ↦
          let le = le_of_not_ltb cache.size_bytes best larger in
          let e : some cache.size_bytes ≡ max_option cache.size_bytes (some best) =
            rw larger refl in
          subst (Found (cache ∷ caches) cpu) e (
            (0, cache, refl, here, refl),
            (
              λ _. omega arith,
              All-map _ _ caches (λ d h q. let below_best = h q in omega arith) below,
            ),
          )
    ]

-- One more cache, which is not.
skipped-Found :
    (cpu : ℕ) (cache : CpuCache) (caches : List CpuCache) (best : Option ℕ)
    → ¬ IsPrivateL2 cpu cache
    → Found caches cpu best
    → Found (cache ∷ caches) cpu best
skipped-Found cpu cache caches none other absent = (other, absent)
skipped-Found cpu cache caches (some best) other ((i, c, at, p, e), below) =
    ((suc i, c, at, p, e), (λ here. absurd (other here), below))

private_l2_bytes-Found :
    (caches : List CpuCache) (cpu : ℕ) → Found caches cpu (private_l2_bytes caches cpu)
unfolding private_l2_bytes
private_l2_bytes-Found [] cpu = tt
private_l2_bytes-Found (cache ∷ caches) cpu =
    let rest = private_l2_bytes-Found caches cpu in
    let (to, from) = is_private_l2_iff cpu cache in
    elim (Bool-cases (is_private_l2 cpu cache)) [
      | inl here ↦
          rw here (max_option-Found cpu cache caches (private_l2_bytes caches cpu) (to here) rest)
      | inr other ↦ rw other (
          skipped-Found cpu cache caches (private_l2_bytes caches cpu)
            (λ p. let here = from p in cc) rest)
    ]

pub private_l2_bytes-largest :
    (caches : List CpuCache) (cpu : ℕ) {size : ℕ}
    → private_l2_bytes caches cpu ≡ some size
    → IsLargestPrivateL2 caches cpu size
private_l2_bytes-largest caches cpu h =
    subst (Found caches cpu) h (private_l2_bytes-Found caches cpu)
