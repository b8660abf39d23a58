-- ===== src/Core/Window.antt =====
-- crates/gb10x-core/src/ple_hash.rs: `PleTokenWindow`, the two tokens of left context with one
-- rollback snapshot. A method on `&mut self` returns the window that it leaves, and its result.
pub mod History
pub mod Transactions
use gb10x.Prelude.{
  ℕ, Bool, true, false, not, Option, none, some, List, [], ◌∷◌, String, Result, ok, err, panic,
  ◌==◌, if◌then◌else◌,
}

pub data PleHashError : Type 0 where
  unsupported_shape : String → PleHashError
  invalid_plan : String → PleHashError
  row_overflow : ℕ → PleHashError
  transaction : String → PleHashError
  incompatible_window : PleHashError

abbrev pub qwen38_ngram_size : ℕ
qwen38_ngram_size = 3

abbrev pub qwen38_heads_per_order : ℕ
qwen38_heads_per_order = 8

abbrev pub qwen38_ple_heads : ℕ
qwen38_ple_heads = 16

-- `[u32; 2]`: the last token, and the one before it.
abbrev pub Previous : Type 0
Previous = ℕ × ℕ

pub record PleTokenWindow : Type 0 where
  pub previous : Previous
  pub rollback : Option Previous
  pub eos_token_id : ℕ

abbrev pub Outcome : Type 0 → Type 0
Outcome A = Result PleHashError A

unfoldable pub new : ℕ → ℕ → Outcome PleTokenWindow
new ngram_size eos =
    if not (ngram_size == qwen38_ngram_size)
    then err (unsupported_shape "ngram_size must equal 3")
    else ok (record { previous = (eos, eos); rollback = none; eos_token_id = eos })

unfoldable pub push : PleTokenWindow → ℕ → PleTokenWindow
push w token =
    if token == w.eos_token_id
    then record w { previous = (w.eos_token_id, w.eos_token_id) }
    else record w { previous = (token, w.previous.0) }

unfoldable pub push_all : PleTokenWindow → List ℕ → PleTokenWindow
push_all w [] = w
push_all w (token ∷ tokens) = push_all (push w token) tokens

unfoldable pub begin_append : PleTokenWindow → PleTokenWindow × Outcome (Unit {0})
begin_append w = elim w.rollback [
  | some _ ↦ (w, err (transaction "an append transaction is already active"))
  | none ↦ (record w { rollback = some w.previous }, ok tt)
]

unfoldable pub commit_append : PleTokenWindow → PleTokenWindow × Outcome (Unit {0})
commit_append w = elim w.rollback [
  | none ↦ (record w { rollback = none }, err (transaction "no append transaction is active"))
  | some _ ↦ (record w { rollback = none }, ok tt)
]

unfoldable pub commit_append_prefix : PleTokenWindow → List ℕ → PleTokenWindow × Outcome (Unit {0})
unfolding push_all push
commit_append_prefix w accepted = elim w.rollback [
  | none ↦ (record w { rollback = none }, err (transaction "no append transaction is active"))
  | some original ↦ (push_all (record w { previous = original; rollback = none }) accepted, ok tt)
]

unfoldable pub abort_append : PleTokenWindow → PleTokenWindow × Outcome (Unit {0})
abort_append w = elim w.rollback [
  | none ↦ (record w { rollback = none }, err (transaction "no append transaction is active"))
  | some original ↦ (record w { previous = original; rollback = none }, ok tt)
]

unfoldable pub snapshot : PleTokenWindow → Outcome PleTokenWindow
snapshot w = elim w.rollback [
  | some _ ↦ err (transaction "cannot snapshot an active append transaction")
  | none ↦ ok w
]
