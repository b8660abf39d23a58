-- ===== src/Core/Qwen/Json.antt =====
-- crates/gb10x-core/src/qwen38.rs: `from_value`, over the values of serde_json by their accessors.
use gb10x.Prelude.{
  ℕ, ◌-◌, Option, none, some, List, [], ◌∷◌, String, Result, ok, err, ◌>>=◌, ok_or, try_u32, ◌==◌,
  if◌then◌else◌,
}
use gb10x.Prelude.Texts.{Text, equal_list, is_finite}
use gb10x.Core.Qwen.{
  Qwen38LayerType, linear_attention, full_attention, Qwen38ConfigError, field, contract,
  shown_number, Qwen38Config,
}

-- `get`, `as_u64`, `as_f64`, `as_str` and `as_array` of a JSON value; an `f64` is its bits.
pub record JsonAccess (V : Type 0) : Type 0 where
  pub get : V → String → Option V
  pub as_u64 : V → Option ℕ
  pub as_f64 : V → Option ℕ
  pub as_str : V → Option Text
  pub as_array : V → Option (List V)

abbrev and_then_option : {A B : Type 0} → Option A → (A → Option B) → Option B
and_then_option none f = none
and_then_option (some a) f = f a

abbrev filter_finite : Option ℕ → Option ℕ
filter_finite none = none
filter_finite (some bits) = if is_finite bits then some bits else none

-- `match value.as_str()`
unfoldable pub layer_type_of : Option Text → Result Qwen38ConfigError Qwen38LayerType
layer_type_of none = err (field "text_config.layer_types")
layer_type_of (some name) =
    if equal_list name (
      b'l' ∷ b'i' ∷ b'n' ∷ b'e' ∷ b'a' ∷ b'r' ∷ b'_' ∷ b'a' ∷ b't' ∷ b't' ∷ b'e' ∷ b'n' ∷ b't'
      ∷ b'i' ∷ b'o' ∷ b'n' ∷ [])
    then ok linear_attention
    else if equal_list name (
        b'f' ∷ b'u' ∷ b'l' ∷ b'l' ∷ b'_' ∷ b'a' ∷ b't' ∷ b't' ∷ b'e' ∷ b'n' ∷ b't' ∷ b'i' ∷ b'o'
        ∷ b'n' ∷ [])
    then ok full_attention
    else err (field "text_config.layer_types")

-- `checked_sub(1)`
unfoldable pub zero_based : ℕ → Result Qwen38ConfigError ℕ
zero_based one_based =
    if one_based == 0
    then err (contract "PLE layer ID must be one-based and positive" [])
    else ok (one_based - 1)

module _ {V : Type 0} (json : JsonAccess V) where
  unfoldable pub required_usize : V → String → Result Qwen38ConfigError ℕ
  required_usize value name = ok_or (and_then_option (json.get value name) json.as_u64) (field name)

  unfoldable pub required_f64 : V → String → Result Qwen38ConfigError ℕ
  required_f64 value name =
      ok_or (filter_finite (and_then_option (json.get value name) json.as_f64)) (field name)

  unfoldable pub required_str : V → String → Result Qwen38ConfigError Text
  required_str value name = ok_or (and_then_option (json.get value name) json.as_str) (field name)

  unfoldable pub required_array : V → String → Result Qwen38ConfigError (List V)
  required_array value name =
      ok_or (and_then_option (json.get value name) json.as_array) (field name)

  unfoldable pub value_usize : V → String → Result Qwen38ConfigError ℕ
  value_usize value name = ok_or (json.as_u64 value) (field name)

  unfoldable pub layer_types_of : List V → Result Qwen38ConfigError (List Qwen38LayerType)
  layer_types_of [] = ok []
  layer_types_of (value ∷ values) = do
    layer ← layer_type_of (json.as_str value)
    layers ← layer_types_of values
    ok (layer ∷ layers)

  -- The length check and `ple_layers[0]`
  unfoldable pub only_layer : List V → Result Qwen38ConfigError ℕ
  only_layer (value ∷ []) = value_usize value "text_config.ple_layer_ids[0]"
  only_layer _ = err (field "text_config.ple_layer_ids")

  unfoldable pub from_value : V → Result Qwen38ConfigError Qwen38Config
  from_value root = do
    model_type ← required_str root "model_type"
    text ← ok_or (json.get root "text_config") (field "text_config")
    text_model_type ← required_str text "model_type"
    layers ← required_array text "layer_types"
    layer_types ← layer_types_of layers
    ple_layers ← required_array text "ple_layer_ids"
    one_based_ple ← only_layer ple_layers
    ple_layer ← zero_based one_based_ple
    rope ← ok_or (json.get text "rope_parameters") (field "text_config.rope_parameters")
    eos ← required_usize text "eos_token_id"
    eos_token_id ←
        ok_or (try_u32 eos) (contract "eos_token_id does not fit u32" (shown_number eos ∷ []))
    hidden_size ← required_usize text "hidden_size"
    vocab_size ← required_usize text "vocab_size"
    num_hidden_layers ← required_usize text "num_hidden_layers"
    full_attention_interval ← required_usize text "full_attention_interval"
    num_attention_heads ← required_usize text "num_attention_heads"
    num_key_value_heads ← required_usize text "num_key_value_heads"
    head_dim ← required_usize text "head_dim"
    partial_rotary_factor ← required_f64 text "partial_rotary_factor"
    linear_num_key_heads ← required_usize text "linear_num_key_heads"
    linear_num_value_heads ← required_usize text "linear_num_value_heads"
    linear_key_head_dim ← required_usize text "linear_key_head_dim"
    linear_value_head_dim ← required_usize text "linear_value_head_dim"
    linear_conv_kernel_dim ← required_usize text "linear_conv_kernel_dim"
    num_experts ← required_usize text "num_experts"
    num_experts_per_tok ← required_usize text "num_experts_per_tok"
    moe_intermediate_size ← required_usize text "moe_intermediate_size"
    shared_expert_intermediate_size ← required_usize text "shared_expert_intermediate_size"
    hc_count ← required_usize text "hc_count"
    hc_lowrank ← required_usize text "hc_lowrank"
    ple_embed_dim ← required_usize text "ple_embed_dim"
    ple_conv_kernel_size ← required_usize text "ple_conv_kernel_size"
    ngram_size ← required_usize text "ngram_size"
    heads_per_ngram ← required_usize text "heads_per_ngram"
    split_ngram_parts ← required_usize text "split_ngram_parts"
    ngram_vocab_size_base ← required_usize text "ngram_vocab_size_base"
    make_ngram_vocab_size_divisible_by ← required_usize text "make_ngram_vocab_size_divisible_by"
    indexer_n_heads ← required_usize text "indexer_n_heads"
    indexer_kv_heads ← required_usize text "indexer_kv_heads"
    indexer_head_dim ← required_usize text "indexer_head_dim"
    indexer_compress_ratio ← required_usize text "indexer_compress_ratio"
    indexer_budget ← required_usize text "indexer_budget"
    max_position_embeddings ← required_usize text "max_position_embeddings"
    output_gate_type ← required_str text "output_gate_type"
    rms_norm_eps ← required_f64 text "rms_norm_eps"
    rope_theta ← required_f64 rope "rope_theta"
    mtp_num_hidden_layers ← required_usize text "mtp_num_hidden_layers"
    ok (record {
      model_type = model_type;
      text_model_type = text_model_type;
      hidden_size = hidden_size;
      vocab_size = vocab_size;
      num_hidden_layers = num_hidden_layers;
      layer_types = layer_types;
      full_attention_interval = full_attention_interval;
      num_attention_heads = num_attention_heads;
      num_key_value_heads = num_key_value_heads;
      head_dim = head_dim;
      partial_rotary_factor = partial_rotary_factor;
      linear_num_key_heads = linear_num_key_heads;
      linear_num_value_heads = linear_num_value_heads;
      linear_key_head_dim = linear_key_head_dim;
      linear_value_head_dim = linear_value_head_dim;
      linear_conv_kernel_dim = linear_conv_kernel_dim;
      num_experts = num_experts;
      num_experts_per_tok = num_experts_per_tok;
      moe_intermediate_size = moe_intermediate_size;
      shared_expert_intermediate_size = shared_expert_intermediate_size;
      hc_count = hc_count;
      hc_lowrank = hc_lowrank;
      ple_layer = ple_layer;
      ple_embed_dim = ple_embed_dim;
      ple_conv_kernel_size = ple_conv_kernel_size;
      ngram_size = ngram_size;
      heads_per_ngram = heads_per_ngram;
      split_ngram_parts = split_ngram_parts;
      ngram_vocab_size_base = ngram_vocab_size_base;
      make_ngram_vocab_size_divisible_by = make_ngram_vocab_size_divisible_by;
      indexer_n_heads = indexer_n_heads;
      indexer_kv_heads = indexer_kv_heads;
      indexer_head_dim = indexer_head_dim;
      indexer_compress_ratio = indexer_compress_ratio;
      indexer_budget = indexer_budget;
      max_position_embeddings = max_position_embeddings;
      eos_token_id = eos_token_id;
      output_gate_type = output_gate_type;
      rms_norm_eps = rms_norm_eps;
      rope_theta = rope_theta;
      mtp_num_hidden_layers = mtp_num_hidden_layers;
    })
