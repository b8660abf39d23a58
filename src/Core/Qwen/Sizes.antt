-- ===== src/Core/Qwen/Sizes.antt =====
-- The sizes that a configuration determines, for any configuration.
use Prim.Native.Nat.{min}
use native.Mathlib.Nat.{div-add-mod, mod-lt}
use gb10x.Prelude.{
  ℕ, suc, zero, ◌+◌, ◌*◌, ◌-◌, ◌/◌, ◌%◌, ◌^◌, ◌≤◌, ◌<◌, ◌≡◌, ◌∙◌, refl, ap, ok, ◌==◌, ==_iff, arith,
  Bool-cases, inl, inr,
}
use gb10x.Core.Qwen.{
  Qwen38Config, saturating_mul, ple_rows_per_token, ple_row_width, ple_bf16_bytes_per_token,
  qsa_selected_kv_bf16_bytes,
}

-- A size, or the greatest usize where it is larger.
abbrev pub saturated : ℕ → ℕ
saturated n = min n (2 ^ 64 - 1)

-- The width of the rows that a width is cut in: the greatest that fits, which leaves nothing over where
-- the rows divide the width; without rows it is zero.
pub record IsRowWidth (total rows width : ℕ) : Type 0 where
  pub fits : rows * width ≤ total
  pub greatest : 0 < rows → total < rows * (width + 1)
  pub even : 0 < rows → total % rows ≡ 0 → rows * width ≡ total
  pub without : rows ≡ 0 → width ≡ 0

saturating_mul-saturated : (a b : ℕ) → saturating_mul a b ≡ saturated (a * b)
unfolding saturating_mul
saturating_mul-saturated a b = ground arith

-- Saturation after each factor is saturation after all of them.
saturated_twice : (a b : ℕ) → saturated (saturated a * b) ≡ saturated (a * b)
saturated_twice a zero = ground arith
saturated_twice a (suc b) = grind arith

mul_twice : (n a b : ℕ) → n ≡ saturated a → saturating_mul n b ≡ saturated (a * b)
mul_twice n a b e = rw (e, saturating_mul-saturated (saturated a) b) (saturated_twice a b)

quotient-IsRowWidth : (total rows : ℕ) → 0 < rows → IsRowWidth total rows (total / rows)
quotient-IsRowWidth total rows some = record {
  fits = omega (arith, div-add-mod total rows);
  greatest = λ _. omega (arith, div-add-mod total rows, mod-lt total some);
  even = λ _ e. omega (arith, div-add-mod total rows, e);
  without = λ e. absurd (omega arith);
}

zero-IsRowWidth : (total rows : ℕ) → rows ≡ 0 → IsRowWidth total rows 0
zero-IsRowWidth total rows none = record {
  fits = omega arith;
  greatest = λ h. absurd (omega arith);
  even = λ h. absurd (omega arith);
  without = λ _. refl;
}

ple_row_width-IsRowWidth :
    {E : Type 0} (c : Qwen38Config)
    → (width : ℕ) × (ple_row_width {E = E} c ≡ ok width)
      × IsRowWidth c.ple_embed_dim (ple_rows_per_token c) width
unfolding ple_row_width
ple_row_width-IsRowWidth c = elim (Bool-cases (ple_rows_per_token c == 0)) [
  | inl empty ↦ (
    0,
    rw empty refl,
    zero-IsRowWidth c.ple_embed_dim (ple_rows_per_token c) ((==_iff _ _).0 empty),
  )
  | inr some ↦ (
    c.ple_embed_dim / ple_rows_per_token c,
    rw some refl,
    quotient-IsRowWidth c.ple_embed_dim (ple_rows_per_token c) (ground arith),
  )
]

-- For any configuration, released or not: the rows per token are the n-gram orders above one times the
-- heads; the width always exists, with no division by zero, and is the one that the PLE width is cut in;
-- the bytes of a token are two for each element of its rows; and the bytes of a QSA layer two for each
-- element of the K and of the V of the budget. Each product is the greatest usize where it is larger.
pub derived_sizes_total :
    {E : Type 0} (c : Qwen38Config)
    → (ple_rows_per_token c ≡ saturated ((c.ngram_size - 1) * c.heads_per_ngram))
      × ((width : ℕ) × (ple_row_width {E = E} c ≡ ok width)
          × IsRowWidth c.ple_embed_dim (ple_rows_per_token c) width
          × (ple_bf16_bytes_per_token {E = E} c
              ≡ ok (saturated (ple_rows_per_token c * width * 2))))
      × (qsa_selected_kv_bf16_bytes c
          ≡ saturated (2 * (2 * (c.indexer_budget * c.num_key_value_heads * c.head_dim))))
unfolding ple_bf16_bytes_per_token qsa_selected_kv_bf16_bytes ple_rows_per_token
derived_sizes_total c =
    let rows = ple_rows_per_token c in
    let kv = c.indexer_budget * c.num_key_value_heads * c.head_dim in
    let four : kv * 2 * 2 ≡ 2 * (2 * kv) = omega arith in
    let (width, found, w) = ple_row_width-IsRowWidth c in
    (
      saturating_mul-saturated (c.ngram_size - 1) c.heads_per_ngram,
      (
        width,
        found,
        w,
        rw found (
            ap ok (
              mul_twice (saturating_mul rows width) (rows * width) 2
                (saturating_mul-saturated rows width))),
      ),
      mul_twice _ (kv * 2) 2 (
            mul_twice _ kv 2 (
              mul_twice _ (c.indexer_budget * c.num_key_value_heads) c.head_dim
                (saturating_mul-saturated c.indexer_budget c.num_key_value_heads)))
          ∙ ap saturated four,
    )
