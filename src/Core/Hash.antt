-- ===== src/Core/Hash.antt =====
-- crates/gb10x-core/src/ple_hash.rs: `PleHashPlan`, the hash tables of the 16 PLE heads, and the
-- rows that they give for one token. Arrays and vectors are lists; an index out of bounds, a
-- remainder by zero and an overflowing plain addition are a `panic`.
pub mod Plan
pub mod Rows
use Prim.Native.Nat.{bit_xor}
use gb10x.Prelude.{
  ℕ, zero, suc, ◌+◌, ◌-◌, ◌*◌, Bool, true, false, not, ◌||◌, List, [], ◌∷◌, ◌++◌, Result, ok, err,
  panic, ◌>>=◌, ◌>>◌, fail_if, ok_or, index, checked_add, plain_add, plain_rem, try_u32,
  wrapping_mul, u32_mod, ltb, ◌==◌, length, if◌then◌else◌,
}
use gb10x.Core.Window.{
  PleTokenWindow, Outcome, unsupported_shape, invalid_plan, row_overflow, incompatible_window,
  qwen38_ngram_size, qwen38_heads_per_order, qwen38_ple_heads, push,
}

pub record PleHashPlan : Type 0 where
  pub multipliers : List ℕ
  pub vocab_sizes : List ℕ
  pub offsets : List ℕ
  pub eos_token_id : ℕ

-- `contains(&0)`
unfoldable pub contains_zero : List ℕ → Bool
contains_zero [] = false
contains_zero (x ∷ xs) = (x == 0) || contains_zero xs

-- The loop `for head in 1..16`, over the rounds that are left.
unfoldable pub check_contiguous : List ℕ → List ℕ → ℕ → ℕ → Outcome (Unit {0})
check_contiguous vocab_sizes offsets zero head = ok tt
check_contiguous vocab_sizes offsets (suc rounds) head = do
  offset ← index offsets (head - 1)
  size ← index vocab_sizes (head - 1)
  expected ← ok_or (checked_add offset size) (invalid_plan "head table offset overflow")
  actual ← index offsets head
  fail_if (not (actual == expected)) (invalid_plan "head tables must be contiguous")
  check_contiguous vocab_sizes offsets rounds (head + 1)

-- The end of the last head table, which must fit the row identifiers.
unfoldable pub check_final : List ℕ → List ℕ → Outcome (Unit {0})
check_final vocab_sizes offsets = do
  offset ← index offsets (qwen38_ple_heads - 1)
  size ← index vocab_sizes (qwen38_ple_heads - 1)
  final_end ← ok_or (checked_add offset size) (invalid_plan "final head table overflow")
  fail_if (ltb u32_mod final_end) (invalid_plan "logical PLE row space exceeds u32")

unfoldable pub new : List ℕ → List ℕ → List ℕ → ℕ → ℕ → ℕ → Outcome PleHashPlan
new multipliers vocab_sizes offsets heads_per_ngram ngram_size eos = do
  fail_if (not (ngram_size == qwen38_ngram_size)) (unsupported_shape "ngram_size must equal 3")
  fail_if (not (heads_per_ngram == qwen38_heads_per_order))
      (unsupported_shape "heads_per_ngram must equal 8")
  fail_if (not (length multipliers == qwen38_ngram_size))
      (unsupported_shape "exactly 3 multipliers are required")
  fail_if (not (length vocab_sizes == qwen38_ple_heads))
      (unsupported_shape "exactly 16 vocab sizes are required")
  fail_if (not (length offsets == qwen38_ple_heads))
      (unsupported_shape "exactly 16 offsets are required")
  fail_if (contains_zero multipliers) (invalid_plan "multipliers must be nonzero")
  fail_if (contains_zero vocab_sizes) (invalid_plan "vocab sizes must be nonzero")
  check_contiguous vocab_sizes offsets (qwen38_ple_heads - 1) 1
  check_final vocab_sizes offsets
  ok (record {
    multipliers = multipliers;
    vocab_sizes = vocab_sizes;
    offsets = offsets;
    eos_token_id = eos;
  })

-- `window.previous[i]`
unfoldable pub previous_token : ℕ × ℕ → ℕ → Outcome ℕ
previous_token p zero = ok p.0
previous_token p (suc zero) = ok p.1
previous_token p (suc (suc i)) = panic

-- `for previous in 1..order { mixed ^= … }`, over the rounds that are left.
unfoldable pub mix_loop : PleHashPlan → PleTokenWindow → ℕ → ℕ → ℕ → Outcome ℕ
mix_loop plan window zero previous mixed = ok mixed
mix_loop plan window (suc rounds) previous mixed = do
  token ← previous_token window.previous (previous - 1)
  multiplier ← index plan.multipliers previous
  mix_loop plan window rounds (previous + 1) (bit_xor mixed (wrapping_mul token multiplier))

-- The heads of one order write their slots from left to right; here they are appended.
unfoldable pub head_loop : PleHashPlan → ℕ → ℕ → ℕ → Outcome (List ℕ)
head_loop plan mixed zero head = ok []
head_loop plan mixed (suc rounds) head = do
  offset ← index plan.offsets head
  size ← index plan.vocab_sizes head
  slot ← plain_rem mixed size
  row ← plain_add offset slot
  row_slot ← ok_or (try_u32 row) (row_overflow row)
  rest ← head_loop plan mixed rounds (head + 1)
  ok (row_slot ∷ rest)

-- `for order in 2..=3`, over the rounds that are left.
unfoldable pub order_loop : PleHashPlan → PleTokenWindow → ℕ → ℕ → ℕ → Outcome (List ℕ)
order_loop plan window current zero order = ok []
order_loop plan window current (suc rounds) order = do
  multiplier ← index plan.multipliers 0
  mixed ← mix_loop plan window (order - 1) 1 (wrapping_mul current multiplier)
  rows ← head_loop plan mixed qwen38_heads_per_order ((order - 2) * qwen38_heads_per_order)
  rest ← order_loop plan window current rounds (order + 1)
  ok (rows ++ rest)

-- The window is written only after every row is computed.
unfoldable pub with_push : PleTokenWindow → ℕ → Outcome (List ℕ) → PleTokenWindow × Outcome (List ℕ)
with_push window token (ok rows) = (push window token, ok rows)
with_push window token (err e) = (window, err e)
with_push window token panic = (window, panic)

unfoldable pub rows_for_token : PleHashPlan → PleTokenWindow → ℕ → PleTokenWindow × Outcome (List ℕ)
rows_for_token plan window token =
    let rows = order_loop plan window token (qwen38_ngram_size - 1) 2 in
    if not (window.eos_token_id == plan.eos_token_id)
    then (window, err incompatible_window)
    else with_push window token rows
