-- ===== src/Runtime/Probe/CpuLists.antt =====
-- What a parsed list of CPUs is: numbers of 32 bits in ascending order, without repetitions.
use gb10x.Prelude.{
  ℕ, zero, suc, ◌+◌, ◌-◌, ◌*◌, ◌≤◌, ◌<◌, ◌≡◌, subst, Option, none, some, List, [], ◌∷◌, ◌++◌,
  String, ok, ok_or, u32_mod, ltb, ◌==◌, arith, All, >>=-eq-ok, fail_if-eq-ok, ok-injective,
  Bool-cases, inl, inr, ltb→le,
}
use gb10x.Prelude.Sorted.{IsAscending, dedup-sort-IsAscending, All-dedup-sort}
use gb10x.Prelude.Texts.{Text, trim, is_empty}
use gb10x.Runtime.Probe.{
  ProbeError, parse_digits, parse_unsigned, parse_u32, split, split_once, count_up, parse_range,
  parse_segments, parse_cpu_list_for,
}

parse_digits-lt :
    (limit value : ℕ) (text : Text) {n : ℕ}
    → value < limit
    → parse_digits limit value text ≡ some n
    → n < limit
unfolding parse_digits
parse_digits-lt limit value [] h e = ground arith
parse_digits-lt limit value (c ∷ text) h e =
    let next = value * 10 + (c - b'0') in
    elim (Bool-cases (ltb next limit)) [
      | inl below ↦ parse_digits-lt limit next text (ground arith) (ground arith)
      | inr above ↦ let e' = rw above at e in absurd (ground arith)
    ]

parse_unsigned-lt :
    (limit : ℕ) (text : Text) {n : ℕ} → 0 < limit → parse_unsigned limit text ≡ some n → n < limit
unfolding parse_unsigned
parse_unsigned-lt limit [] h e = cc
parse_unsigned-lt limit (c ∷ []) h e = parse_digits-lt limit 0 (c ∷ []) h e
parse_unsigned-lt limit (c ∷ d ∷ text) h e = elim (Bool-cases (c == b'+')) [
  | inl sign ↦ parse_digits-lt limit 0 (d ∷ text) h (rw sign at e)
  | inr digit ↦ parse_digits-lt limit 0 (c ∷ d ∷ text) h (rw digit at e)
]

some_of :
    {A : Type 0} (found : Option A) (e : ProbeError) {a : A} → ok_or found e ≡ ok a → found ≡ some a
some_of none e h = cc
some_of (some a) e h = cc

parse_u32-lt : (field : String) (value : Text) {n : ℕ} → parse_u32 field value ≡ ok n → n < u32_mod
unfolding parse_u32
parse_u32-lt field value h =
    parse_unsigned-lt u32_mod (trim value) (omega arith)
      (some_of (parse_unsigned u32_mod (trim value)) _ h)

All-append : (P : ℕ → Type 0) (xs ys : List ℕ) → All P xs → All P ys → All P (xs ++ ys)
All-append P [] ys ps qs = qs
All-append P (x ∷ xs) ys (p, ps) qs = (p, All-append P xs ys ps qs)

count_up-lt :
    (start count limit : ℕ) → start + count ≤ limit → All (λ n. n < limit) (count_up start count)
unfolding count_up
count_up-lt start zero limit h = tt
count_up-lt start (suc count) limit h =
    (omega arith, count_up-lt (start + 1) count limit (omega arith))

parse_range-lt :
    (field : String) (value segment : Text) (split : Option (Text × Text)) {cpus : List ℕ}
    → parse_range field value segment split ≡ ok cpus
    → All (λ n. n < u32_mod) cpus
unfolding parse_range
parse_range-lt field value segment none h =
    let (cpu, e, h1) = >>=-eq-ok (parse_u32 field segment) _ h in
    subst (All (λ n. n < u32_mod)) (ok-injective h1) (parse_u32-lt field segment e, tt)
parse_range-lt field value segment (some (first, last)) h =
    let (start, e1, h1) = >>=-eq-ok (parse_u32 field first) _ h in
    let (end, e2, h2) = >>=-eq-ok (parse_u32 field last) _ h1 in
    let (ordered, h3) = fail_if-eq-ok (ltb end start) _ _ h2 in
    subst (All (λ n. n < u32_mod)) (ok-injective h3) (
      count_up-lt start (end - start + 1) u32_mod
        (omega (arith, parse_u32-lt field last e2, ltb→le end start ordered)))

parse_segments-lt :
    (field : String) (value : Text) (parts : List Text) {cpus : List ℕ}
    → parse_segments field value parts ≡ ok cpus
    → All (λ n. n < u32_mod) cpus
unfolding parse_segments
parse_segments-lt field value [] h = subst (All (λ n. n < u32_mod)) (ok-injective h) tt
parse_segments-lt field value (part ∷ parts) h =
    let (_, h1) = fail_if-eq-ok (is_empty (trim part)) _ _ h in
    let (cpus, e1, h2) =
      >>=-eq-ok (parse_range field value (trim part) (split_once b'-' (trim part))) _ h1 in
    let (rest, e2, h3) = >>=-eq-ok (parse_segments field value parts) _ h2 in
    subst (All (λ n. n < u32_mod)) (ok-injective h3) (
      All-append (λ n. n < u32_mod) cpus rest (parse_range-lt field value (trim part) _ e1)
        (parse_segments-lt field value parts e2))

-- A list of CPUs that is parsed has CPU numbers of 32 bits, in ascending order and without repetitions.
pub parse_cpu_list_for-IsAscending :
    (field : String) (value : Text) {cpus : List ℕ}
    → parse_cpu_list_for field value ≡ ok cpus
    → IsAscending cpus × All (λ n. n < u32_mod) cpus
unfolding parse_cpu_list_for
parse_cpu_list_for-IsAscending field value h =
    let (_, h1) = fail_if-eq-ok (is_empty (trim value)) _ _ h in
    let (cpus, e, h2) =
      >>=-eq-ok (parse_segments field (trim value) (split b',' (trim value))) _ h1 in
    subst (λ (ns : List ℕ). IsAscending ns × All (λ n. n < u32_mod) ns) (ok-injective h2)
      (
        dedup-sort-IsAscending cpus,
        All-dedup-sort (λ n. n < u32_mod) cpus (parse_segments-lt field (trim value) _ e),
      )
