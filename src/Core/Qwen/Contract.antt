-- ===== src/Core/Qwen/Contract.antt =====
-- The contract accepts exactly one configuration, the released one.
pub mod Checks
use gb10x.Prelude.{
  arith, ℕ, suc, zero, ◌+◌, ◌*◌, ◌≡◌, ◌↔◌, ◌∙◌, refl, sym, ap, ap₂, true, false, not, List, [], ◌∷◌,
  ok, length, ◌==◌, ==_iff, inl, inr, subst, ◌||◌, fail_if,
}
use gb10x.Prelude.Texts.{Text, equal_list_iff}
use gb10x.Prelude.Decides.{
  Decides, >>-Decides, Decides_iff, fail_if-Decides, ok-Decides, unless-Decides,
}
use gb10x.Core.Window.{qwen38_ngram_size, qwen38_heads_per_order, qwen38_ple_heads}
use gb10x.Core.Qwen.{
  Qwen38ConfigError, Qwen38LayerType, linear_attention, full_attention, Qwen38Config, expect_usize,
  expect_f64, expect_str, equal_layer, expected_layer, check_layers, validate_exact_contract,
  ple_rows_per_token, ple_row_width, ple_bf16_bytes_per_token, qsa_selected_kv_bf16_bytes, divides,
  saturating_mul, expected_model_type, expected_text_model_type, expected_output_gate_type,
}
use gb10x.Core.Qwen.Contract.Checks.{schedule, IsReleased, checks-Decides}

-- The released layers: blocks of three with linear attention and one with full attention.
abbrev pub blocks : ℕ → List Qwen38LayerType
blocks zero = []
blocks (suc count) =
    linear_attention ∷ linear_attention ∷ linear_attention ∷ full_attention ∷ blocks count

abbrev pub released : Qwen38Config
released = record {
  model_type = expected_model_type;
  text_model_type = expected_text_model_type;
  hidden_size = 2560;
  vocab_size = 248320;
  num_hidden_layers = 48;
  layer_types = blocks 12;
  full_attention_interval = 4;
  num_attention_heads = 24;
  num_key_value_heads = 2;
  head_dim = 256;
  partial_rotary_factor = 0x3fd0000000000000;
  linear_num_key_heads = 16;
  linear_num_value_heads = 48;
  linear_key_head_dim = 128;
  linear_value_head_dim = 128;
  linear_conv_kernel_dim = 4;
  num_experts = 512;
  num_experts_per_tok = 10;
  moe_intermediate_size = 640;
  shared_expert_intermediate_size = 640;
  hc_count = 4;
  hc_lowrank = 320;
  ple_layer = 1;
  ple_embed_dim = 2560;
  ple_conv_kernel_size = 4;
  ngram_size = 3;
  heads_per_ngram = 8;
  split_ngram_parts = 128;
  ngram_vocab_size_base = 20000000;
  make_ngram_vocab_size_divisible_by = 128;
  indexer_n_heads = 4;
  indexer_kv_heads = 1;
  indexer_head_dim = 128;
  indexer_compress_ratio = 4;
  indexer_budget = 2048;
  max_position_embeddings = 262144;
  eos_token_id = 248044;
  output_gate_type = expected_output_gate_type;
  rms_norm_eps = 0x3eb0c6f7a0b5ed8d;
  rope_theta = 0x416312d000000000;
  mtp_num_hidden_layers = 1;
}

released-IsReleased : IsReleased released
unfolding ple_rows_per_token divides saturating_mul expected_layer
released-IsReleased = ground arith

schedule-blocks : schedule 0 48 ≡ blocks 12
unfolding expected_layer
schedule-blocks = refl

IsReleased-released : (c : Qwen38Config) → IsReleased c → c ≡ released
IsReleased-released c
      (
        e0,
        (
          e1,
          (
            e2,
            (
              e3,
              (
                e4,
                (
                  e5,
                  (
                    e6,
                    (
                      e7,
                      (
                        e8,
                        (
                          e9,
                          (
                            e10,
                            (
                              e11,
                              (
                                e12,
                                (
                                  e13,
                                  (
                                    e14,
                                    (
                                      e15,
                                      (
                                        e16,
                                        (
                                          e17,
                                          (
                                            e18,
                                            (
                                              e19,
                                              (
                                                e20,
                                                (
                                                  e21,
                                                  (
                                                    e22,
                                                    (
                                                      e23,
                                                      (
                                                        e24,
                                                        (
                                                          e25,
                                                          (
                                                            e26,
                                                            (
                                                            e27,
                                                            (
                                                            e28,
                                                            (
                                                            e29,
                                                            (
                                                            e30,
                                                            (
                                                            e31,
                                                            (
                                                            e32,
                                                            (
                                                            e33,
                                                            (
                                                            e34,
                                                            (
                                                            e35,
                                                            (
                                                            e36,
                                                            (e37, (e38, (e39, (e40, (e41, e42))))),
                                                            ),
                                                            ),
                                                            ),
                                                            ),
                                                            ),
                                                            ),
                                                            ),
                                                            ),
                                                            ),
                                                            ),
                                                          ),
                                                        ),
                                                      ),
                                                    ),
                                                  ),
                                                ),
                                              ),
                                            ),
                                          ),
                                        ),
                                      ),
                                    ),
                                  ),
                                ),
                              ),
                            ),
                          ),
                        ),
                      ),
                    ),
                  ),
                ),
              ),
            ),
          ),
        ),
      ) =
    let layers : c.layer_types ≡ blocks 12 = e41 ∙ ap (schedule 0) e40 ∙ schedule-blocks in
    λ i. record {
      model_type = e0 i;
      text_model_type = e1 i;
      hidden_size = e2 i;
      vocab_size = e3 i;
      num_hidden_layers = e4 i;
      layer_types = layers i;
      full_attention_interval = e5 i;
      num_attention_heads = e6 i;
      num_key_value_heads = e7 i;
      head_dim = e8 i;
      partial_rotary_factor = e9 i;
      linear_num_key_heads = e10 i;
      linear_num_value_heads = e11 i;
      linear_key_head_dim = e12 i;
      linear_value_head_dim = e13 i;
      linear_conv_kernel_dim = e14 i;
      num_experts = e15 i;
      num_experts_per_tok = e16 i;
      moe_intermediate_size = e17 i;
      shared_expert_intermediate_size = e18 i;
      hc_count = e19 i;
      hc_lowrank = e20 i;
      ple_layer = e21 i;
      ple_embed_dim = e22 i;
      ple_conv_kernel_size = e23 i;
      ngram_size = e24 i;
      heads_per_ngram = e25 i;
      split_ngram_parts = e26 i;
      ngram_vocab_size_base = e27 i;
      make_ngram_vocab_size_divisible_by = e28 i;
      indexer_n_heads = e29 i;
      indexer_kv_heads = e30 i;
      indexer_head_dim = e31 i;
      indexer_compress_ratio = e32 i;
      indexer_budget = e33 i;
      max_position_embeddings = e34 i;
      eos_token_id = e35 i;
      output_gate_type = e36 i;
      rms_norm_eps = e37 i;
      rope_theta = e38 i;
      mtp_num_hidden_layers = e39 i;
    }

-- The validation passes for the released configuration, and reports an error for any other.
pub validate_exact_contract-Decides :
    (c : Qwen38Config) → Decides (validate_exact_contract c) (c ≡ released)
validate_exact_contract-Decides c =
    Decides_iff (IsReleased-released c, λ e. subst IsReleased (sym e) released-IsReleased)
      (checks-Decides c)
