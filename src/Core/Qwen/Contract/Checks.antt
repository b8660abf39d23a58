-- ===== src/Core/Qwen/Contract/Checks.antt =====
-- The checks of the contract one after another, and what each decides.
use gb10x.Prelude.{
  ℕ, suc, zero, ◌+◌, ◌≡◌, ◌↔◌, refl, ap₂, true, false, not, List, [], ◌∷◌, length, ◌==◌, ==_iff,
  ◌||◌, fail_if,
}
use gb10x.Prelude.Texts.{Text, equal_list_iff}
use gb10x.Prelude.Decides.{
  Decides, >>-Decides, Decides_iff, fail_if-Decides, ok-Decides, unless-Decides,
}
use gb10x.Core.Qwen.{
  Qwen38ConfigError, Qwen38LayerType, linear_attention, full_attention, Qwen38Config, expect_usize,
  expect_f64, expect_str, equal_layer, expected_layer, check_layers, validate_exact_contract,
  ple_rows_per_token, divides, expected_model_type, expected_text_model_type,
  expected_output_gate_type,
}

-- The expected layers from an index on.
abbrev pub schedule : ℕ → ℕ → List Qwen38LayerType
schedule index zero = []
schedule index (suc count) = expected_layer index ∷ schedule (index + 1) count

expect_usize-Decides : (name : _) (a b : ℕ) → Decides (expect_usize name a b) (a ≡ b)
unfolding expect_usize
expect_usize-Decides name a b = unless-Decides _ (==_iff a b)

expect_f64-Decides : (name : _) (a b : ℕ) → Decides (expect_f64 name a b) (a ≡ b)
unfolding expect_f64
expect_f64-Decides name a b = unless-Decides _ (==_iff a b)

expect_str-Decides : (name : _) (a b : Text) → Decides (expect_str name a b) (a ≡ b)
unfolding expect_str
expect_str-Decides name a b = unless-Decides _ (equal_list_iff a b)

equal_layer_iff : (a b : Qwen38LayerType) → (equal_layer a b ≡ true) ↔ (a ≡ b)
unfolding equal_layer
equal_layer_iff linear_attention linear_attention = (λ _. refl, λ _. refl)
equal_layer_iff linear_attention full_attention = (λ h. cc, λ h. cc)
equal_layer_iff full_attention linear_attention = (λ h. cc, λ h. cc)
equal_layer_iff full_attention full_attention = (λ _. refl, λ _. refl)

check_layers-Decides :
    (index : ℕ) (layers : List Qwen38LayerType)
    → Decides (check_layers index layers) (layers ≡ schedule index (length layers))
unfolding check_layers
check_layers-Decides index [] = Decides_iff ((λ _. refl), λ _. tt) ok-Decides
check_layers-Decides index (a ∷ layers) =
    Decides_iff
      (
        (λ (e, es). ap₂ (λ (x : Qwen38LayerType) (xs : List Qwen38LayerType). x ∷ xs) e es),
        λ h. (cc, cc),
      )
      (>>-Decides (unless-Decides _ (equal_layer_iff a (expected_layer index)))
        (check_layers-Decides (index + 1) layers))

length-Decides :
    (layers : List Qwen38LayerType) (e : Qwen38ConfigError)
    → Decides (fail_if (not (length layers == 48)) e) (length layers ≡ 48)
length-Decides layers e = unless-Decides e (==_iff (length layers) 48)

-- What the checks decide, one after another.
abbrev pub IsReleased : Qwen38Config → Type 0
IsReleased c =
    (c.model_type ≡ expected_model_type)
    × ((c.text_model_type ≡ expected_text_model_type)
        × ((c.hidden_size ≡ 2560)
            × ((c.vocab_size ≡ 248320)
                × ((c.num_hidden_layers ≡ 48)
                    × ((c.full_attention_interval ≡ 4)
                        × ((c.num_attention_heads ≡ 24)
                            × ((c.num_key_value_heads ≡ 2)
                                × ((c.head_dim ≡ 256)
                                    × ((c.partial_rotary_factor ≡ 0x3fd0000000000000)
                                        × ((c.linear_num_key_heads ≡ 16)
                                            × ((c.linear_num_value_heads ≡ 48)
                                                × ((c.linear_key_head_dim ≡ 128)
                                                    × ((c.linear_value_head_dim ≡ 128)
                                                        × ((c.linear_conv_kernel_dim ≡ 4)
                                                            × ((c.num_experts ≡ 512)
                                                            × ((c.num_experts_per_tok ≡ 10)
                                                            × ((c.moe_intermediate_size ≡ 640)
                                                            × ((c.shared_expert_intermediate_size
                                                            ≡ 640)
                                                            × ((c.hc_count ≡ 4)
                                                            × ((c.hc_lowrank ≡ 320)
                                                            × ((c.ple_layer ≡ 1)
                                                            × ((c.ple_embed_dim ≡ 2560)
                                                            × ((c.ple_conv_kernel_size ≡ 4)
                                                            × ((c.ngram_size ≡ 3)
                                                            × ((c.heads_per_ngram ≡ 8)
                                                            × ((c.split_ngram_parts ≡ 128)
                                                            × ((c.ngram_vocab_size_base ≡ 20000000)
                                                            × ((c.make_ngram_vocab_size_divisible_by
                                                            ≡ 128)
                                                            × ((c.indexer_n_heads ≡ 4)
                                                            × ((c.indexer_kv_heads ≡ 1)
                                                            × ((c.indexer_head_dim ≡ 128)
                                                            × ((c.indexer_compress_ratio ≡ 4)
                                                            × ((c.indexer_budget ≡ 2048)
                                                            × ((c.max_position_embeddings ≡ 262144)
                                                            × ((c.eos_token_id ≡ 248044)
                                                            × ((c.output_gate_type
                                                            ≡ expected_output_gate_type)
                                                            × ((c.rms_norm_eps ≡ 0x3eb0c6f7a0b5ed8d)
                                                            × ((c.rope_theta ≡ 0x416312d000000000)
                                                            × ((c.mtp_num_hidden_layers ≡ 1)
                                                            × ((length c.layer_types ≡ 48)
                                                            × ((c.layer_types
                                                            ≡ schedule 0 (length c.layer_types))
                                                            × ((((ple_rows_per_token c == 0)
                                                            || not (
                                                            divides (ple_rows_per_token c)
                                                            c.ple_embed_dim))
                                                            ≡ false)))))))))))))))))))))))))))))))))
                                                            ))))))))))

pub checks-Decides : (c : Qwen38Config) → Decides (validate_exact_contract c) (IsReleased c)
unfolding validate_exact_contract
checks-Decides c = >>-Decides (expect_str-Decides _ _ _) (
    >>-Decides (expect_str-Decides _ _ _) (
      >>-Decides (expect_usize-Decides _ _ _) (
        >>-Decides (expect_usize-Decides _ _ _) (
          >>-Decides (expect_usize-Decides _ _ _) (
            >>-Decides (expect_usize-Decides _ _ _) (
              >>-Decides (expect_usize-Decides _ _ _) (
                >>-Decides (expect_usize-Decides _ _ _) (
                  >>-Decides (expect_usize-Decides _ _ _) (
                    >>-Decides (expect_f64-Decides _ _ _) (
                      >>-Decides (expect_usize-Decides _ _ _) (
                        >>-Decides (expect_usize-Decides _ _ _) (
                          >>-Decides (expect_usize-Decides _ _ _) (
                            >>-Decides (expect_usize-Decides _ _ _) (
                              >>-Decides (expect_usize-Decides _ _ _) (
                                >>-Decides (expect_usize-Decides _ _ _) (
                                  >>-Decides (expect_usize-Decides _ _ _) (
                                    >>-Decides (expect_usize-Decides _ _ _) (
                                      >>-Decides (expect_usize-Decides _ _ _) (
                                        >>-Decides (expect_usize-Decides _ _ _) (
                                          >>-Decides (expect_usize-Decides _ _ _) (
                                            >>-Decides (expect_usize-Decides _ _ _) (
                                              >>-Decides (expect_usize-Decides _ _ _) (
                                                >>-Decides (expect_usize-Decides _ _ _) (
                                                  >>-Decides (expect_usize-Decides _ _ _) (
                                                    >>-Decides (expect_usize-Decides _ _ _) (
                                                      >>-Decides (expect_usize-Decides _ _ _) (
                                                        >>-Decides (expect_usize-Decides _ _ _) (
                                                          >>-Decides (expect_usize-Decides _ _ _) (
                                                            >>-Decides (expect_usize-Decides _ _ _)
                                                            (>>-Decides (expect_usize-Decides _ _ _)
                                                            (>>-Decides (expect_usize-Decides _ _ _)
                                                            (>>-Decides (expect_usize-Decides _ _ _)
                                                            (>>-Decides (expect_usize-Decides _ _ _)
                                                            (>>-Decides (expect_usize-Decides _ _ _)
                                                            (>>-Decides (expect_usize-Decides _ _ _)
                                                            (>>-Decides (expect_str-Decides _ _ _) (
                                                            >>-Decides (expect_f64-Decides _ _ _) (
                                                            >>-Decides (expect_f64-Decides _ _ _) (
                                                            >>-Decides (expect_usize-Decides _ _ _)
                                                            (>>-Decides
                                                            (unless-Decides _
                                                            (==_iff (length c.layer_types) 48))
                                                            (>>-Decides
                                                            (check_layers-Decides 0 c.layer_types)
                                                            ((fail_if-Decides _ _)))))))))))))))))))
                                                            ))))))))))))))))))))))))
