-- ===== src/Core/Window/History.antt =====
-- The window refines a history of all tokens: what it holds is a function of the tokens that were
-- kept, whatever was staged and rolled back in between.
use gb10x.Prelude.{
  ℕ, ◌≡◌, refl, ap₂, Bool, true, false, Option, none, some, List, [], ◌∷◌, arith, ok, err, panic,
  ◌==◌, if◌then◌else◌,
}
use gb10x.Core.Window.{
  PleTokenWindow, Previous, Outcome, new, push, push_all, begin_append, commit_append,
  commit_append_prefix, abort_append,
}

-- The history with the newest token first, and the one that an open transaction has saved.
pub record History : Type 0 where
  pub tokens : List ℕ
  pub saved : Option (List ℕ)

pub data Op : Type 0 where
  append : ℕ → Op
  begin commit abort : Op
  commit_prefix : List ℕ → Op

-- The last token of a history, or EOS before the first.
abbrev newest : ℕ → List ℕ → ℕ
newest eos [] = eos
newest eos (t ∷ older) = t

abbrev older : List ℕ → List ℕ
older [] = []
older (t ∷ ts) = ts

-- The two last tokens, of which the second counts only when the first is not EOS.
abbrev pub context : ℕ → List ℕ → Previous
context eos ts = (newest eos ts, if newest eos ts == eos then eos else newest eos (older ts))

abbrev pub extend : List ℕ → List ℕ → List ℕ
extend ts [] = ts
extend ts (x ∷ xs) = extend (x ∷ ts) xs

abbrev restore : History → Option (List ℕ) → List ℕ → History × Bool
restore h none kept = (h, false)
restore h (some ts) kept = (record { tokens = extend ts kept; saved = none }, true)

-- What each operation promises, and whether it succeeds.
abbrev pub promise : History → Op → History × Bool
promise h (append t) = (record h { tokens = t ∷ h.tokens }, true)
promise h begin = elim h.saved [
  | none ↦ (record h { saved = some h.tokens }, true)
  | some _ ↦ (h, false)
]
promise h commit = elim h.saved [ none ↦ (h, false) | some _ ↦ (record h { saved = none }, true) ]
promise h abort = restore h h.saved []
promise h (commit_prefix kept) = restore h h.saved kept

abbrev contexts : ℕ → Option (List ℕ) → Option Previous
contexts eos none = none
contexts eos (some ts) = some (context eos ts)

-- The window that stands for a history.
abbrev pub window_of : ℕ → History → PleTokenWindow
window_of eos h = record {
  previous = context eos h.tokens;
  rollback = contexts eos h.saved;
  eos_token_id = eos;
}

abbrev pub step : PleTokenWindow → Op → PleTokenWindow × Outcome (Unit {0})
step w (append t) = (push w t, ok tt)
step w begin = begin_append w
step w commit = commit_append w
step w abort = abort_append w
step w (commit_prefix kept) = commit_append_prefix w kept

abbrev pub succeeded : Outcome (Unit {0}) → Bool
succeeded (ok _) = true
succeeded (err _) = false
succeeded panic = false

-- The windows and outcomes of a run, and what the history promises for it.
abbrev pub run : PleTokenWindow → List Op → PleTokenWindow × List Bool
run w [] = (w, [])
run w (op ∷ ops) =
    let (w', r) = step w op in let (last, rs) = run w' ops in (last, succeeded r ∷ rs)

abbrev pub promises : History → List Op → History × List Bool
promises h [] = (h, [])
promises h (op ∷ ops) =
    let (h', r) = promise h op in let (last, rs) = promises h' ops in (last, r ∷ rs)

pub push-window_of :
    (eos t : ℕ) (ts : List ℕ) (saved : Option Previous)
    → push (record { previous = context eos ts; rollback = saved; eos_token_id = eos }) t
      ≡ record { previous = context eos (t ∷ ts); rollback = saved; eos_token_id = eos }
unfolding push
push-window_of eos t [] saved = ground arith
push-window_of eos t (x ∷ ts) saved = ground arith

pub push_all-window_of :
    (eos : ℕ) (xs ts : List ℕ) (saved : Option Previous)
    → push_all (record { previous = context eos ts; rollback = saved; eos_token_id = eos }) xs
      ≡ record { previous = context eos (extend ts xs); rollback = saved; eos_token_id = eos }
unfolding push_all
push_all-window_of eos [] ts saved = refl
push_all-window_of eos (x ∷ xs) ts saved =
    rw (push-window_of eos x ts saved) (push_all-window_of eos xs (x ∷ ts) saved)

step_refines_saved :
    (eos : ℕ) (ts : List ℕ) (saved : Option (List ℕ)) (op : Op)
    → let h : History = record { tokens = ts; saved = saved } in
      let (w, r) = step (window_of eos h) op in
      let (h', done) = promise h op in (w ≡ window_of eos h') × (succeeded r ≡ done)
step_refines_saved eos ts saved (append t) = (push-window_of eos t ts (contexts eos saved), refl)
step_refines_saved eos ts none begin = unfold begin_append in (refl, refl)
step_refines_saved eos ts (some s) begin = unfold begin_append in (refl, refl)
step_refines_saved eos ts none commit = unfold commit_append in (refl, refl)
step_refines_saved eos ts (some s) commit = unfold commit_append in (refl, refl)
step_refines_saved eos ts none abort = unfold abort_append in (refl, refl)
step_refines_saved eos ts (some s) abort = unfold abort_append in (refl, refl)
step_refines_saved eos ts none (commit_prefix kept) = unfold commit_append_prefix in (refl, refl)
step_refines_saved eos ts (some s) (commit_prefix kept) = (
  unfold commit_append_prefix in push_all-window_of eos kept s none,
  unfold commit_append_prefix in refl,
)

-- On the window that stands for a history, every operation succeeds exactly when the history's
-- does, and leaves the window that stands for the new history.
pub step_refines :
    (eos : ℕ) (h : History) (op : Op)
    → let (w, r) = step (window_of eos h) op in
      let (h', done) = promise h op in (w ≡ window_of eos h') × (succeeded r ≡ done)
step_refines eos h op = step_refines_saved eos h.tokens h.saved op

run_refines_from :
    (eos : ℕ) (ops : List Op) (h : History)
    → let (w, rs) = run (window_of eos h) ops in
      let (h', done) = promises h ops in (w ≡ window_of eos h') × (rs ≡ done)
run_refines_from eos [] h = (refl, refl)
run_refines_from eos (op ∷ ops) h =
    ground (arith, step_refines eos h op, run_refines_from eos ops (promise h op).0)

abbrev pub start : History
start = record { tokens = []; saved = none }

-- After any sequence of operations, failing ones included, a window made by `new` with n-gram
-- size 3 is the one that stands for the history of the kept tokens, and each operation succeeds
-- exactly when the history's does.
pub run_refines :
    (eos : ℕ) (ops : List Op) {w : PleTokenWindow}
    → new 3 eos ≡ ok w
    → run w ops ≡ (window_of eos (promises start ops).0, (promises start ops).1)
unfolding new
run_refines eos ops {w} e =
    let (same, done) = run_refines_from eos ops start in
    let e' : w ≡ window_of eos start = ground arith in rw e' (ap₂ (λ a b. (a, b)) same done)
