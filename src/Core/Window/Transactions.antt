-- ===== src/Core/Window/Transactions.antt =====
-- One speculative transaction, from `begin_append` to its end.
use gb10x.Prelude.{
  ℕ, ◌≡◌, refl, Option, none, some, List, [], ◌∷◌, ◌++◌, arith, ok, err, ◌==◌, if◌then◌else◌,
}
use gb10x.Core.Window.{
  PleTokenWindow, Previous, PleHashError, new, push, push_all, begin_append, commit_append,
  commit_append_prefix, abort_append,
}
use gb10x.Core.Window.History.{Op, append, begin, commit, abort, commit_prefix, step}

abbrev window : Previous → Option Previous → ℕ → PleTokenWindow
window p saved eos = record { previous = p; rollback = saved; eos_token_id = eos }

push-window :
    (p : Previous) (saved : Option Previous) (eos t : ℕ)
    → (q : Previous) × (push (window p saved eos) t ≡ window q saved eos)
      × (push (window p none eos) t ≡ window q none eos)
unfolding push
push-window p saved eos t = (if t == eos then (eos, eos) else (t, p.0), ground arith, ground arith)

-- Appending changes the context alone, whether a transaction is open or not.
push_all-window :
    (p : Previous) (saved : Option Previous) (eos : ℕ) (ts : List ℕ)
    → (q : Previous) × (push_all (window p saved eos) ts ≡ window q saved eos)
      × (push_all (window p none eos) ts ≡ window q none eos)
unfolding push_all
push_all-window p saved eos [] = (p, refl, refl)
push_all-window p saved eos (t ∷ ts) =
    let (q, e, e') = push-window p saved eos t in
    let (r, f, f') = push_all-window q saved eos ts in (r, rw e f, rw e' f')

module _ (w : PleTokenWindow) (clean : w.rollback ≡ none) (staged : List ℕ) where
  clean_window : w ≡ window w.previous none w.eos_token_id
  clean_window = ground arith

  saved_window :
      (q : Previous) × (push_all (begin_append w).0 staged
        ≡ window q (some w.previous) w.eos_token_id)
      × (push_all w staged ≡ window q none w.eos_token_id)
  unfolding begin_append
  saved_window =
      let (q, e, e') = push_all-window w.previous (some w.previous) w.eos_token_id staged in
      (q, rw (clean, begin_append) e, rw clean_window e')

  -- With no transaction open, `commit_append_prefix` after `begin_append` and any staged tokens
  -- succeeds and leaves the window that appending the accepted tokens alone leaves.
  pub commit_append_prefix-replay :
      (accepted : List ℕ)
      → commit_append_prefix (push_all (begin_append w).0 staged) accepted
        ≡ (push_all w accepted, ok tt)
  unfolding commit_append_prefix
  commit_append_prefix-replay accepted = let (q, e, e') = saved_window in rw e (ground arith)

  -- With no transaction open, `abort_append` after `begin_append` and any staged tokens succeeds
  -- and brings back the window before `begin_append`; `commit_append` in its place leaves the
  -- window that appending the staged tokens with no transaction leaves.
  pub abort_commit_append-begin_append :
      (abort_append (push_all (begin_append w).0 staged) ≡ (w, ok tt))
      × (commit_append (push_all (begin_append w).0 staged) ≡ (push_all w staged, ok tt))
  unfolding abort_append commit_append
  abort_commit_append-begin_append =
      let (q, e, e') = saved_window in (rw e (ground arith), rw (e, e') refl)

push_all-window-eos :
    (p : Previous) (eos : ℕ) (ts : List ℕ)
    → push_all (window p none eos) (ts ++ eos ∷ []) ≡ window (eos, eos) none eos
unfolding push_all
push_all-window-eos p eos [] = unfold push in ground arith
push_all-window-eos p eos (t ∷ ts) =
    let (q, e, e') = push-window p none eos t in rw (e', push_all) (push_all-window-eos q eos ts)

-- With no transaction open, a window that has just taken EOS is one that `new` makes, whatever
-- tokens came before.
pub push_all-eos :
    (w : PleTokenWindow) (history : List ℕ)
    → w.rollback ≡ none
    → new 3 w.eos_token_id ≡ ok (push_all w (history ++ w.eos_token_id ∷ []))
unfolding new
push_all-eos w history clean =
    rw (clean_window w clean [], push_all-window-eos w.previous w.eos_token_id history) refl

-- An operation that reports an error leaves the window as it was.
pub step_error :
    (w : PleTokenWindow) (op : Op) {e : PleHashError} → (step w op).1 ≡ err e → (step w op).0 ≡ w
unfolding begin_append commit_append abort_append commit_append_prefix
step_error w (append t) h = cc
step_error w begin h = ground arith
step_error w commit h = ground arith
step_error w abort h = ground arith
step_error w (commit_prefix kept) h = ground arith
