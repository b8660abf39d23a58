-- ===== src/Core/Tests.antt =====
-- Runs of the token window and the hash plan, and their theorems at concrete inputs.
use gb10x.Prelude.{
  ℕ, ◌+◌, ◌≤◌, ◌<◌, ◌≡◌, refl, ◌↔◌, false, true, List, [], ◌∷◌, none, ok, err, arith, length,
  u32_mod,
}
use gb10x.Core.Window.{
  PleTokenWindow, transaction, new, push, push_all, begin_append, commit_append,
  commit_append_prefix, abort_append,
}
use gb10x.Core.Window.History.{
  Op, append, begin, abort, commit_prefix, step, run, promises, start, window_of, run_refines,
}
use gb10x.Core.Window.Transactions.{
  commit_append_prefix-replay, abort_commit_append-begin_append, push_all-eos, step_error,
}
use gb10x.Core.Hash.{
  PleHashPlan, rows_for_token, new as new_plan, contains_zero, check_contiguous, check_final,
  with_push, order_loop, head_loop, mix_loop, previous_token,
}
use gb10x.Core.Hash.Plan.{IsValid, at, new_iff}
use gb10x.Core.Hash.Rows.{
  hash_rows, rows_for_token_total, rows_for_token_bounds, rows_for_token_disjoint,
}

abbrev eos : ℕ
eos = 248044

abbrev fresh : PleTokenWindow
fresh = record { previous = (eos, eos); rollback = none; eos_token_id = eos }

abbrev used : PleTokenWindow
used = record { previous = (12, 11); rollback = none; eos_token_id = eos }

fresh-new : new 3 eos ≡ ok fresh
unfolding new
fresh-new = refl

-- A staged suffix is dropped, and a second `abort` fails.
abbrev session : List Op
session = append 11 ∷ begin ∷ append 21 ∷ append 22 ∷ commit_prefix (21 ∷ []) ∷ abort ∷ []

run-session : run fresh session ≡ (
  record { previous = (21, 11); rollback = none; eos_token_id = eos },
  true ∷ true ∷ true ∷ true ∷ true ∷ false ∷ [],
)
unfolding push begin_append commit_append_prefix abort_append
run-session = refl

run_refines_example :
    run fresh session ≡ (window_of eos (promises start session).0, (promises start session).1)
run_refines_example = run_refines eos session fresh-new

commit_append_prefix-replay_example :
    commit_append_prefix (push_all (begin_append used).0 (21 ∷ 22 ∷ 23 ∷ [])) (21 ∷ 22 ∷ [])
    ≡ (push_all used (21 ∷ 22 ∷ []), ok tt)
commit_append_prefix-replay_example =
    commit_append_prefix-replay used refl (21 ∷ 22 ∷ 23 ∷ []) (21 ∷ 22 ∷ [])

abort_commit_append-begin_append_example :
    (abort_append (push_all (begin_append used).0 (20 ∷ 30 ∷ [])) ≡ (used, ok tt))
    × (commit_append (push_all (begin_append used).0 (20 ∷ 30 ∷ []))
        ≡ (push_all used (20 ∷ 30 ∷ []), ok tt))
abort_commit_append-begin_append_example = abort_commit_append-begin_append used refl (20 ∷ 30 ∷ [])

push_all-eos_example : new 3 eos ≡ ok (push_all used (1 ∷ 2 ∷ 3 ∷ eos ∷ []))
push_all-eos_example = push_all-eos used (1 ∷ 2 ∷ 3 ∷ []) refl

abort_fails : (step used abort).1 ≡ err (transaction "no append transaction is active")
unfolding abort_append
abort_fails = refl

step_error_example : (step used abort).0 ≡ used
step_error_example = step_error used abort abort_fails

abbrev sizes : List ℕ
sizes =
    97 ∷ 98 ∷ 99 ∷ 100 ∷ 101 ∷ 102 ∷ 103 ∷ 104 ∷ 105 ∷ 106 ∷ 107 ∷ 108 ∷ 109 ∷ 110 ∷ 111 ∷ 112 ∷ []

abbrev starts : List ℕ
starts =
    0 ∷ 97 ∷ 195 ∷ 294 ∷ 394 ∷ 495 ∷ 597 ∷ 700 ∷ 804 ∷ 909 ∷ 1015 ∷ 1122 ∷ 1230 ∷ 1339 ∷ 1449 ∷ 1560
    ∷ []

abbrev plan : PleHashPlan
plan = record {
  multipliers = 3 ∷ 5 ∷ 7 ∷ [];
  vocab_sizes = sizes;
  offsets = starts;
  eos_token_id = eos;
}

plan-new : new_plan (3 ∷ 5 ∷ 7 ∷ []) sizes starts 8 3 eos ≡ ok plan
unfolding new_plan contains_zero check_contiguous check_final
plan-new = refl

new_iff_example :
    (new_plan (3 ∷ 5 ∷ 7 ∷ []) sizes starts 8 3 eos ≡ ok plan)
    ↔ (◌≡◌ {A = ℕ} 3 3 × ◌≡◌ {A = ℕ} 8 8 × (plan ≡ plan) × IsValid plan)
new_iff_example = new_iff (3 ∷ 5 ∷ 7 ∷ []) sizes starts 8 3 eos plan

plan-IsValid : IsValid plan
plan-IsValid = ((new_iff (3 ∷ 5 ∷ 7 ∷ []) sizes starts 8 3 eos plan).0 plan-new).3

rows_for_token_total_example :
    rows_for_token plan used 42 ≡ (push used 42, ok (hash_rows plan (12, 11) 42))
rows_for_token_total_example = rows_for_token_total plan plan-IsValid used 42

abbrev rows_of_42 : List ℕ
rows_of_42 =
    66 ∷ 163 ∷ 261 ∷ 360 ∷ 460 ∷ 561 ∷ 663 ∷ 766 ∷ 819 ∷ 924 ∷ 1030 ∷ 1137 ∷ 1245 ∷ 1354 ∷ 1464
    ∷ 1575 ∷ []

rows_42 : rows_for_token plan used 42 ≡ (push used 42, ok rows_of_42)
unfolding rows_for_token with_push order_loop head_loop mix_loop previous_token push
rows_42 = refl

rows_for_token_bounds_example :
    (length rows_of_42 ≡ 16)
    × ((i : ℕ)
        → i < 16
        → (at starts i ≤ at rows_of_42 i)
          × (at rows_of_42 i < at starts i + at sizes i)
          × (at rows_of_42 i < u32_mod))
rows_for_token_bounds_example = rows_for_token_bounds plan plan-IsValid used 42 rows_42

rows_for_token_disjoint_example : 163 < 460
rows_for_token_disjoint_example =
    rows_for_token_disjoint plan plan-IsValid used 42 used 42 1 4 rows_42 rows_42 (omega arith)
      (omega arith)
