-- ===== src/Core/Qwen.antt =====
-- crates/gb10x-core/src/qwen38.rs: the pinned contract of the one supported architecture. The JSON value
-- of serde_json is a parameter with its accessors; reading the file is left out. An `f64` is its 64 bits,
-- and a contract error keeps the values that its text is formatted from.
pub mod Contract
pub mod Sizes
mod Tests
pub mod Json
pub mod Values
use gb10x.Prelude.{
  plain_div, ◌>>=◌, ℕ, ◌+◌, ◌*◌, ◌-◌, ◌/◌, ◌%◌, Bool, true, false, not, ◌||◌, Option, none, some,
  List, [], ◌∷◌, String, Result, ok, err, ◌>>=◌, ◌>>◌, fail_if, u64_mod, length, ltb, ◌==◌,
  if◌then◌else◌,
}
use gb10x.Prelude.Texts.{Text, equal_list}

pub data Qwen38LayerType : Type 0 where
  linear_attention full_attention : Qwen38LayerType

-- A value that the text of a contract error shows.
pub data Shown : Type 0 where
  shown_number : ℕ → Shown
  shown_double : ℕ → Shown
  shown_text : Text → Shown
  shown_layer : Qwen38LayerType → Shown

pub data Qwen38ConfigError : Type 0 where
  io : Text → Text → Qwen38ConfigError
  json_syntax : Text → Qwen38ConfigError
  field : String → Qwen38ConfigError
  contract : String → List Shown → Qwen38ConfigError

pub record Qwen38Config : Type 0 where
  pub model_type : Text
  pub text_model_type : Text
  pub hidden_size : ℕ
  pub vocab_size : ℕ
  pub num_hidden_layers : ℕ
  pub layer_types : List Qwen38LayerType
  pub full_attention_interval : ℕ
  pub num_attention_heads : ℕ
  pub num_key_value_heads : ℕ
  pub head_dim : ℕ
  pub partial_rotary_factor : ℕ
  pub linear_num_key_heads : ℕ
  pub linear_num_value_heads : ℕ
  pub linear_key_head_dim : ℕ
  pub linear_value_head_dim : ℕ
  pub linear_conv_kernel_dim : ℕ
  pub num_experts : ℕ
  pub num_experts_per_tok : ℕ
  pub moe_intermediate_size : ℕ
  pub shared_expert_intermediate_size : ℕ
  pub hc_count : ℕ
  pub hc_lowrank : ℕ
  pub ple_layer : ℕ
  pub ple_embed_dim : ℕ
  pub ple_conv_kernel_size : ℕ
  pub ngram_size : ℕ
  pub heads_per_ngram : ℕ
  pub split_ngram_parts : ℕ
  pub ngram_vocab_size_base : ℕ
  pub make_ngram_vocab_size_divisible_by : ℕ
  pub indexer_n_heads : ℕ
  pub indexer_kv_heads : ℕ
  pub indexer_head_dim : ℕ
  pub indexer_compress_ratio : ℕ
  pub indexer_budget : ℕ
  pub max_position_embeddings : ℕ
  pub eos_token_id : ℕ
  pub output_gate_type : Text
  pub rms_norm_eps : ℕ
  pub rope_theta : ℕ
  pub mtp_num_hidden_layers : ℕ

unfoldable pub contract_mismatch : String → Shown → Shown → Qwen38ConfigError
contract_mismatch name actual expected = contract name (actual ∷ expected ∷ [])

unfoldable pub expect_usize : String → ℕ → ℕ → Result Qwen38ConfigError (Unit {0})
expect_usize name actual expected =
    fail_if (not (actual == expected))
      (contract_mismatch name (shown_number actual) (shown_number expected))

-- `to_bits` on both sides
unfoldable pub expect_f64 : String → ℕ → ℕ → Result Qwen38ConfigError (Unit {0})
expect_f64 name actual expected =
    fail_if (not (actual == expected))
      (contract_mismatch name (shown_double actual) (shown_double expected))

unfoldable pub expect_str : String → Text → Text → Result Qwen38ConfigError (Unit {0})
expect_str name actual expected =
    fail_if (not (equal_list actual expected))
      (contract_mismatch name (shown_text actual) (shown_text expected))

-- `saturating_mul` and `saturating_sub` of a usize
unfoldable pub saturating_mul : ℕ → ℕ → ℕ
saturating_mul a b = if ltb (a * b) u64_mod then a * b else u64_mod - 1

abbrev pub saturating_sub : ℕ → ℕ → ℕ
saturating_sub a b = a - b

unfoldable pub ple_rows_per_token : Qwen38Config → ℕ
ple_rows_per_token c = saturating_mul (saturating_sub c.ngram_size 1) c.heads_per_ngram

unfoldable pub ple_row_width : {E : Type 0} → Qwen38Config → Result E ℕ
ple_row_width c =
    let rows = ple_rows_per_token c in if rows == 0 then ok 0 else plain_div c.ple_embed_dim rows

unfoldable pub ple_bf16_bytes_per_token : {E : Type 0} → Qwen38Config → Result E ℕ
ple_bf16_bytes_per_token c = do
  width ← ple_row_width c
  ok (saturating_mul (saturating_mul (ple_rows_per_token c) width) 2)

unfoldable pub qsa_selected_kv_bf16_bytes : Qwen38Config → ℕ
qsa_selected_kv_bf16_bytes c =
    saturating_mul
      (saturating_mul
        (saturating_mul (saturating_mul c.indexer_budget c.num_key_value_heads) c.head_dim) 2)
      2

unfoldable pub equal_layer : Qwen38LayerType → Qwen38LayerType → Bool
equal_layer linear_attention linear_attention = true
equal_layer full_attention full_attention = true
equal_layer _ _ = false

unfoldable pub expected_layer : ℕ → Qwen38LayerType
expected_layer index = if index % 4 == 3 then full_attention else linear_attention

-- The loop over `layer_types.iter().enumerate()`, from an index on.
unfoldable pub check_layers : ℕ → List Qwen38LayerType → Result Qwen38ConfigError (Unit {0})
check_layers index [] = ok tt
check_layers index (actual ∷ layers) = do
  fail_if (not (equal_layer actual (expected_layer index))) (
      contract "layer"
        (shown_number index ∷ shown_layer actual ∷ shown_layer (expected_layer index) ∷ []))
  check_layers (index + 1) layers

-- `usize::is_multiple_of`: a multiple of zero is zero.
unfoldable pub divides : ℕ → ℕ → Bool
divides n value = if n == 0 then value == 0 else value % n == 0

abbrev pub expected_model_type : Text
expected_model_type = b'q' ∷ b'w' ∷ b'e' ∷ b'n' ∷ b'4' ∷ b'_' ∷ b'e' ∷ b'x' ∷ b'p' ∷ []

abbrev pub expected_text_model_type : Text
expected_text_model_type =
    b'q' ∷ b'w' ∷ b'e' ∷ b'n' ∷ b'4' ∷ b'_' ∷ b'e' ∷ b'x' ∷ b'p' ∷ b'_' ∷ b't' ∷ b'e' ∷ b'x' ∷ b't'
    ∷ []

abbrev pub expected_output_gate_type : Text
expected_output_gate_type = b's' ∷ b'i' ∷ b'g' ∷ b'm' ∷ b'o' ∷ b'i' ∷ b'd' ∷ []

unfoldable pub validate_exact_contract : Qwen38Config → Result Qwen38ConfigError (Unit {0})
validate_exact_contract c = do
  expect_str "model_type" c.model_type expected_model_type
  expect_str "text model_type" c.text_model_type expected_text_model_type
  expect_usize "hidden_size" c.hidden_size 2560
  expect_usize "vocab_size" c.vocab_size 248320
  expect_usize "num_hidden_layers" c.num_hidden_layers 48
  expect_usize "full_attention_interval" c.full_attention_interval 4
  expect_usize "num_attention_heads" c.num_attention_heads 24
  expect_usize "num_key_value_heads" c.num_key_value_heads 2
  expect_usize "head_dim" c.head_dim 256
  expect_f64 "partial_rotary_factor" c.partial_rotary_factor 0x3fd0000000000000
  expect_usize "linear_num_key_heads" c.linear_num_key_heads 16
  expect_usize "linear_num_value_heads" c.linear_num_value_heads 48
  expect_usize "linear_key_head_dim" c.linear_key_head_dim 128
  expect_usize "linear_value_head_dim" c.linear_value_head_dim 128
  expect_usize "linear_conv_kernel_dim" c.linear_conv_kernel_dim 4
  expect_usize "num_experts" c.num_experts 512
  expect_usize "num_experts_per_tok" c.num_experts_per_tok 10
  expect_usize "moe_intermediate_size" c.moe_intermediate_size 640
  expect_usize "shared_expert_intermediate_size" c.shared_expert_intermediate_size 640
  expect_usize "hc_count" c.hc_count 4
  expect_usize "hc_lowrank" c.hc_lowrank 320
  expect_usize "ple_layer" c.ple_layer 1
  expect_usize "ple_embed_dim" c.ple_embed_dim 2560
  expect_usize "ple_conv_kernel_size" c.ple_conv_kernel_size 4
  expect_usize "ngram_size" c.ngram_size 3
  expect_usize "heads_per_ngram" c.heads_per_ngram 8
  expect_usize "split_ngram_parts" c.split_ngram_parts 128
  expect_usize "ngram_vocab_size_base" c.ngram_vocab_size_base 20000000
  expect_usize "make_ngram_vocab_size_divisible_by" c.make_ngram_vocab_size_divisible_by 128
  expect_usize "indexer_n_heads" c.indexer_n_heads 4
  expect_usize "indexer_kv_heads" c.indexer_kv_heads 1
  expect_usize "indexer_head_dim" c.indexer_head_dim 128
  expect_usize "indexer_compress_ratio" c.indexer_compress_ratio 4
  expect_usize "indexer_budget" c.indexer_budget 2048
  expect_usize "max_position_embeddings" c.max_position_embeddings 262144
  expect_usize "eos_token_id" c.eos_token_id 248044
  expect_str "output_gate_type" c.output_gate_type expected_output_gate_type
  expect_f64 "rms_norm_eps" c.rms_norm_eps 0x3eb0c6f7a0b5ed8d
  expect_f64 "rope_theta" c.rope_theta 0x416312d000000000
  expect_usize "mtp_num_hidden_layers" c.mtp_num_hidden_layers 1
  fail_if (not (length c.layer_types == 48))
      (contract "layer_types" (shown_number (length c.layer_types) ∷ []))
  check_layers 0 c.layer_types
  fail_if ((ple_rows_per_token c == 0) || not (divides (ple_rows_per_token c) c.ple_embed_dim))
      (contract "PLE width is not divisible by selected row count" [])
