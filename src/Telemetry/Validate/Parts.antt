-- ===== src/Telemetry/Validate/Parts.antt =====
-- What the small checks of `validate` decide.
use gb10x.Prelude.{
  ℕ, ◌*◌, ◌^◌, ◌≤◌, ◌<◌, ◌≡◌, refl, ◌↔◌, ◌⊎◌, inl, inr, Bool, true, false, not, ◌||◌, Option, none,
  some, List, [], ◌∷◌, String, fail_if, leb, arith, All,
}
use gb10x.Prelude.Sorted.{IsAscending, All-below}
use gb10x.Prelude.Texts.{
  Text, IsWritten, is_empty, IsNonempty, is_empty_iff, trim_iff, positive_iff,
}
use gb10x.Prelude.Decides.{
  or-false_iff, nonzero-Decides, unless-Decides, Decides, >>-Decides, Decides_iff, fail_if-Decides,
  ok-Decides,
}
use gb10x.Telemetry.Record.{is_some, PerformanceMetrics, has_any_measurement}
use gb10x.Telemetry.Validate.{
  require_nonempty, validate_positive_f64, validate_nonzero_u64, any_unordered_pair,
  validate_cpu_list, any_empty, is_inverted,
}

-- What an optional field holds satisfies `P`.
abbrev pub Holds : {A : Type 0} → (A → Type 0) → Option A → Type 0
Holds P none = Unit
Holds P (some a) = P a

-- The bits of a double that is finite and above zero.
abbrev pub IsPositive : ℕ → Type 0
IsPositive bits = (0 < bits) × (bits < 2047 * 2 ^ 52)

abbrev pub IsDouble : ℕ → Type 0
IsDouble bits = bits < 2 ^ 64

pub require_nonempty-Decides :
    (value : Text) (field : String) → Decides (require_nonempty value field) (IsWritten value)
unfolding require_nonempty
require_nonempty-Decides value field = Decides_iff (trim_iff value) (fail_if-Decides _ _)

pub validate_positive_f64-Decides :
    (value : Option ℕ) (field : String)
    → Holds IsDouble value
    → Decides (validate_positive_f64 value field) (Holds IsPositive value)
unfolding validate_positive_f64
validate_positive_f64-Decides none field h = ok-Decides
validate_positive_f64-Decides (some bits) field h =
    Decides_iff (positive_iff bits h) (fail_if-Decides _ _)

pub validate_nonzero_u64-Decides :
    (value : Option ℕ) (field : String)
    → Decides (validate_nonzero_u64 value field) (Holds (λ n. 0 < n) value)
unfolding validate_nonzero_u64
validate_nonzero_u64-Decides none field = ok-Decides
validate_nonzero_u64-Decides (some n) field = nonzero-Decides n _

leb-false : (b a : ℕ) → leb b a ≡ false → a < b
leb-false b a h = ground arith

lt-leb : (b a : ℕ) → a < b → leb b a ≡ false
lt-leb b a h = ground arith

any_unordered_pair_iff : (cpus : List ℕ) → (any_unordered_pair cpus ≡ false) ↔ IsAscending cpus
unfolding any_unordered_pair
any_unordered_pair_iff [] = (λ _. tt, λ _. refl)
any_unordered_pair_iff (a ∷ []) = (λ _. (tt, tt), λ _. refl)
any_unordered_pair_iff (a ∷ b ∷ cpus) =
    let (to, from) = or-false_iff (leb b a) (any_unordered_pair (b ∷ cpus)) in
    let (to', from') = any_unordered_pair_iff (b ∷ cpus) in
    (
      λ h.
          let below : a < b = leb-false b a (to h).0 in
          let rest = to' (to h).1 in ((below, All-below a b cpus below rest.0), rest),
      λ k. from (lt-leb b a k.0.0, from' k.1),
    )

pub validate_cpu_list-Decides :
    (cpus : List ℕ) → Decides (validate_cpu_list cpus) (IsNonempty cpus × IsAscending cpus)
unfolding validate_cpu_list
validate_cpu_list-Decides cpus =
    >>-Decides (Decides_iff (is_empty_iff cpus) (fail_if-Decides _ _))
      (Decides_iff (any_unordered_pair_iff cpus) (fail_if-Decides _ _))

pub any_empty_iff : (command : List Text) → (any_empty command ≡ false) ↔ All IsNonempty command
unfolding any_empty
any_empty_iff [] = (λ _. tt, λ _. refl)
any_empty_iff (arg ∷ command) =
    let (to, from) = or-false_iff (is_empty arg) (any_empty command) in
    let (to', from') = is_empty_iff arg in
    let (to'', from'') = any_empty_iff command in
    (λ h. (to' (to h).0, to'' (to h).1), λ k. from (from' k.0, from'' k.1))

-- A median above the 95th percentile, where both are known.
abbrev pub IsOrdered : Option ℕ → Option ℕ → Type 0
IsOrdered (some p50) (some p95) = p50 ≤ p95
IsOrdered _ _ = Unit

pub is_inverted_iff : (p50 p95 : Option ℕ) → (is_inverted p50 p95 ≡ false) ↔ IsOrdered p50 p95
unfolding is_inverted
is_inverted_iff (some p50) (some p95) = ground arith
is_inverted_iff (some p50) none = (λ _. tt, λ _. refl)
is_inverted_iff none p95 = (λ _. tt, λ _. refl)

or-true_iff : {P : Type 0} (a b : Bool) → (a ≡ true) ↔ P → ((a || b) ≡ true) ↔ (P ⊎ (b ≡ true))
or-true_iff true b (to, from) = (λ _. inl (to refl), λ _. refl)
or-true_iff false b (to, from) =
    (λ h. inr h, λ k. elim k [ inl p ↦ let e = from p in cc | inr h ↦ h ])

-- Some measurement is present.
abbrev pub IsMeasured : PerformanceMetrics → Type 0
IsMeasured p =
    (((((((is_some p.prefill_tokens_per_second ≡ true)
                ⊎ (is_some p.decode_tokens_per_second ≡ true))
              ⊎ (is_some p.ttft_micros ≡ true))
            ⊎ (is_some p.p50_latency_micros ≡ true))
          ⊎ (is_some p.p95_latency_micros ≡ true))
        ⊎ (is_some p.unified_memory_bytes ≡ true))
      ⊎ (is_some p.power_watts ≡ true))
    ⊎ (is_some p.tokens_per_joule ≡ true)

has_any_measurement_iff : (p : PerformanceMetrics) → (has_any_measurement p ≡ true) ↔ IsMeasured p
unfolding has_any_measurement
has_any_measurement_iff p = or-true_iff _ _ (
    or-true_iff _ _ (
      or-true_iff _ _
        (or-true_iff _ _ (or-true_iff _ _ (or-true_iff _ _ (or-true_iff _ _ (λ h. h, λ h. h)))))))

pub has_any_measurement-Decides :
    {E : Type 0} (p : PerformanceMetrics) (e : E)
    → Decides (fail_if (not (has_any_measurement p)) e) (IsMeasured p)
has_any_measurement-Decides p e = unless-Decides _ (has_any_measurement_iff p)
