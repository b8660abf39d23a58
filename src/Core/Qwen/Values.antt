-- ===== src/Core/Qwen/Values.antt =====
-- Which JSON values `from_value` reads, and what it reads from them.
use gb10x.Prelude.{ℕ, ◌<◌, ◌≡◌, refl, some, List, ok, u32_mod, lt→ltb}
use gb10x.Core.Qwen.{Qwen38Config}
use gb10x.Core.Qwen.Json.{
  JsonAccess, required_usize, required_f64, required_str, required_array, layer_types_of,
  only_layer, zero_based, from_value,
}

module _ {V : Type 0} (json : JsonAccess V) where
  -- The values of a configuration, where the JSON value has them.
  pub record Shows (root : V) (c : Qwen38Config) : Type 0 where
    pub text : V
    pub rope : V
    pub layers : List V
    pub ple_layers : List V
    pub one_based_ple : ℕ
    pub text_config : json.get root "text_config" ≡ some text
    pub rope_parameters : json.get text "rope_parameters" ≡ some rope
    pub model_type : required_str json root "model_type" ≡ ok c.model_type
    pub text_model_type : required_str json text "model_type" ≡ ok c.text_model_type
    pub layer_values : required_array json text "layer_types" ≡ ok layers
    pub layer_types : layer_types_of json layers ≡ ok c.layer_types
    pub ple_values : required_array json text "ple_layer_ids" ≡ ok ple_layers
    pub ple_id : only_layer json ple_layers ≡ ok one_based_ple
    pub ple_layer : zero_based one_based_ple ≡ ok c.ple_layer
    pub eos : required_usize json text "eos_token_id" ≡ ok c.eos_token_id
    pub eos_word : c.eos_token_id < u32_mod
    pub hidden_size : required_usize json text "hidden_size" ≡ ok c.hidden_size
    pub vocab_size : required_usize json text "vocab_size" ≡ ok c.vocab_size
    pub num_hidden_layers : required_usize json text "num_hidden_layers" ≡ ok c.num_hidden_layers
    pub full_attention_interval :
        required_usize json text "full_attention_interval" ≡ ok c.full_attention_interval
    pub num_attention_heads :
        required_usize json text "num_attention_heads" ≡ ok c.num_attention_heads
    pub num_key_value_heads :
        required_usize json text "num_key_value_heads" ≡ ok c.num_key_value_heads
    pub head_dim : required_usize json text "head_dim" ≡ ok c.head_dim
    pub partial_rotary_factor :
        required_f64 json text "partial_rotary_factor" ≡ ok c.partial_rotary_factor
    pub linear_num_key_heads :
        required_usize json text "linear_num_key_heads" ≡ ok c.linear_num_key_heads
    pub linear_num_value_heads :
        required_usize json text "linear_num_value_heads" ≡ ok c.linear_num_value_heads
    pub linear_key_head_dim :
        required_usize json text "linear_key_head_dim" ≡ ok c.linear_key_head_dim
    pub linear_value_head_dim :
        required_usize json text "linear_value_head_dim" ≡ ok c.linear_value_head_dim
    pub linear_conv_kernel_dim :
        required_usize json text "linear_conv_kernel_dim" ≡ ok c.linear_conv_kernel_dim
    pub num_experts : required_usize json text "num_experts" ≡ ok c.num_experts
    pub num_experts_per_tok :
        required_usize json text "num_experts_per_tok" ≡ ok c.num_experts_per_tok
    pub moe_intermediate_size :
        required_usize json text "moe_intermediate_size" ≡ ok c.moe_intermediate_size
    pub shared_expert_intermediate_size :
        required_usize json text "shared_expert_intermediate_size"
        ≡ ok c.shared_expert_intermediate_size
    pub hc_count : required_usize json text "hc_count" ≡ ok c.hc_count
    pub hc_lowrank : required_usize json text "hc_lowrank" ≡ ok c.hc_lowrank
    pub ple_embed_dim : required_usize json text "ple_embed_dim" ≡ ok c.ple_embed_dim
    pub ple_conv_kernel_size :
        required_usize json text "ple_conv_kernel_size" ≡ ok c.ple_conv_kernel_size
    pub ngram_size : required_usize json text "ngram_size" ≡ ok c.ngram_size
    pub heads_per_ngram : required_usize json text "heads_per_ngram" ≡ ok c.heads_per_ngram
    pub split_ngram_parts : required_usize json text "split_ngram_parts" ≡ ok c.split_ngram_parts
    pub ngram_vocab_size_base :
        required_usize json text "ngram_vocab_size_base" ≡ ok c.ngram_vocab_size_base
    pub make_ngram_vocab_size_divisible_by :
        required_usize json text "make_ngram_vocab_size_divisible_by"
        ≡ ok c.make_ngram_vocab_size_divisible_by
    pub indexer_n_heads : required_usize json text "indexer_n_heads" ≡ ok c.indexer_n_heads
    pub indexer_kv_heads : required_usize json text "indexer_kv_heads" ≡ ok c.indexer_kv_heads
    pub indexer_head_dim : required_usize json text "indexer_head_dim" ≡ ok c.indexer_head_dim
    pub indexer_compress_ratio :
        required_usize json text "indexer_compress_ratio" ≡ ok c.indexer_compress_ratio
    pub indexer_budget : required_usize json text "indexer_budget" ≡ ok c.indexer_budget
    pub max_position_embeddings :
        required_usize json text "max_position_embeddings" ≡ ok c.max_position_embeddings
    pub output_gate_type : required_str json text "output_gate_type" ≡ ok c.output_gate_type
    pub rms_norm_eps : required_f64 json text "rms_norm_eps" ≡ ok c.rms_norm_eps
    pub rope_theta : required_f64 json rope "rope_theta" ≡ ok c.rope_theta
    pub mtp_num_hidden_layers :
        required_usize json text "mtp_num_hidden_layers" ≡ ok c.mtp_num_hidden_layers

  -- A JSON value that has each value of a configuration is read as it: in the root, in the text part or in
  -- its rope part, of the kind that is asked for, with one PLE layer, counted from one.
  pub from_value-Shows : (root : V) (c : Qwen38Config) → Shows root c → from_value json root ≡ ok c
  unfolding from_value
  from_value-Shows root c s =
      let word = lt→ltb c.eos_token_id u32_mod s.eos_word in
      rw
        (
          s.model_type, s.text_config, s.text_model_type, s.layer_values, s.layer_types,
          s.ple_values, s.ple_id, s.ple_layer, s.rope_parameters, s.eos, word, s.hidden_size,
          s.vocab_size, s.num_hidden_layers, s.full_attention_interval, s.num_attention_heads,
          s.num_key_value_heads, s.head_dim, s.partial_rotary_factor, s.linear_num_key_heads,
          s.linear_num_value_heads, s.linear_key_head_dim, s.linear_value_head_dim,
          s.linear_conv_kernel_dim, s.num_experts, s.num_experts_per_tok, s.moe_intermediate_size,
          s.shared_expert_intermediate_size, s.hc_count, s.hc_lowrank, s.ple_embed_dim,
          s.ple_conv_kernel_size, s.ngram_size, s.heads_per_ngram, s.split_ngram_parts,
          s.ngram_vocab_size_base, s.make_ngram_vocab_size_divisible_by, s.indexer_n_heads,
          s.indexer_kv_heads, s.indexer_head_dim, s.indexer_compress_ratio, s.indexer_budget,
          s.max_position_embeddings, s.output_gate_type, s.rms_norm_eps, s.rope_theta,
          s.mtp_num_hidden_layers,
        )
        refl
