-- ===== src/Core/Qwen/Tests.antt =====
-- The released configuration, and a changed one.
use gb10x.Prelude.{ℕ, ◌≡◌, ◌*◌, refl, ok, err, [], ◌∷◌}
use gb10x.Prelude.Decides.{Decides}
use gb10x.Prelude.Texts.{equal_list}
use gb10x.Core.Window.{qwen38_ngram_size, qwen38_heads_per_order, qwen38_ple_heads}
use gb10x.Core.Qwen.{
  Qwen38ConfigError, Qwen38Config, contract, shown_number, validate_exact_contract, expect_usize,
  expect_f64, expect_str, check_layers, equal_layer, expected_layer, divides, ple_rows_per_token,
  ple_row_width, ple_bf16_bytes_per_token, qsa_selected_kv_bf16_bytes, saturating_mul,
  contract_mismatch,
}
use gb10x.Core.Qwen.Contract.{released, validate_exact_contract-Decides}
use gb10x.Core.Qwen.Sizes.{saturated, IsRowWidth, derived_sizes_total}

accepted : validate_exact_contract released ≡ ok tt
unfolding validate_exact_contract expect_usize expect_f64 expect_str check_layers equal_layer
    expected_layer divides ple_rows_per_token saturating_mul equal_list
accepted = refl

abbrev changed : Qwen38Config
changed = record released { num_experts = 256 }

refused :
    validate_exact_contract changed
    ≡ err (contract "num_experts" (shown_number 256 ∷ shown_number 512 ∷ []))
unfolding validate_exact_contract expect_usize expect_f64 expect_str equal_list contract_mismatch
refused = refl

validate_exact_contract-Decides_example :
    Decides (validate_exact_contract changed) (changed ≡ released)
validate_exact_contract-Decides_example = validate_exact_contract-Decides changed

-- The released sizes are those that the hash plan is built for.
hash_sizes :
    (released.ngram_size ≡ qwen38_ngram_size)
    × (released.heads_per_ngram ≡ qwen38_heads_per_order)
    × (ple_rows_per_token released ≡ qwen38_ple_heads)
unfolding ple_rows_per_token saturating_mul
hash_sizes = (refl, refl, refl)

payloads :
    (ple_row_width {E = Qwen38ConfigError} released ≡ ok 160)
    × (ple_bf16_bytes_per_token {E = Qwen38ConfigError} released ≡ ok 5120)
    × (qsa_selected_kv_bf16_bytes released ≡ 4 * 1024 * 1024)
unfolding ple_rows_per_token ple_row_width ple_bf16_bytes_per_token qsa_selected_kv_bf16_bytes
    saturating_mul
payloads = (refl, refl, refl)

-- Six rows of a width of 100, of which four are left over.
abbrev uneven : Qwen38Config
uneven = record released { heads_per_ngram = 3; ple_embed_dim = 100 }

derived_sizes_total_example :
    (ple_rows_per_token uneven ≡ 6)
    × ((width : ℕ) × (ple_row_width {E = Qwen38ConfigError} uneven ≡ ok width)
        × IsRowWidth 100 (ple_rows_per_token uneven) width
        × (ple_bf16_bytes_per_token {E = Qwen38ConfigError} uneven
            ≡ ok (saturated (ple_rows_per_token uneven * width * 2))))
    × (qsa_selected_kv_bf16_bytes uneven ≡ 4 * 1024 * 1024)
derived_sizes_total_example = derived_sizes_total uneven
