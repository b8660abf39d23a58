-- ===== src/Ple/Layout/Scan.antt =====
-- The scan of a trace: which rows become hot, and in which order.
use gb10x.Prelude.{
  ℕ, ◌≤◌, ◌<◌, ◌≡◌, refl, sym, ap, ◌∙◌, Bool, true, false, not, ◌&&◌, ◌||◌, ◌>>=◌, fun_ext, ==_iff,
  ◌⊎◌, List, [], ◌∷◌, ◌++◌, ok, err, arith, leb, ◌==◌, Bool-cases, inl, inr, if◌then◌else◌,
}
use mathlib.Core.List.{append-nil, append_assoc}
use gb10x.Prelude.Sorted.{
  contains, sort_unstable, dedup, SameMembers, contains-dedup-sort, dedup-sort-eq,
}
use gb10x.Ple.Format.{trace_row_out_of_range}
use gb10x.Ple.Layout.{Seen, see, scan_group, scan_trace}

-- No number stands twice.
abbrev pub IsDistinct : List ℕ → Type 0
IsDistinct [] = Unit
IsDistinct (x ∷ xs) = (contains x xs ≡ false) × IsDistinct xs

-- Whether a trace names a row.
abbrev pub traced : ℕ → List (List ℕ) → Bool
traced row [] = false
traced row (batch ∷ trace) = contains row batch || traced row trace

-- The rows of a trace as the scan visits them: each batch sorted and without repetitions.
abbrev pub visits : List (List ℕ) → List ℕ
visits [] = []
visits (batch ∷ trace) = dedup (sort_unstable batch) ++ visits trace

-- The first visit of each row.
pub first_visits : List ℕ → List ℕ → List ℕ
first_visits seen [] = []
first_visits seen (x ∷ xs) =
    if contains x seen then first_visits seen xs else x ∷ first_visits (x ∷ seen) xs

pub see_all : Seen → List ℕ → Seen
see_all s [] = s
see_all s (x ∷ xs) = see_all (see s x) xs

see_all-append : (s : Seen) (xs ys : List ℕ) → see_all s (xs ++ ys) ≡ see_all (see_all s xs) ys
unfolding see_all
see_all-append s [] ys = refl
see_all-append s (x ∷ xs) ys = see_all-append (see s x) xs ys

see_old : (s : Seen) (x : ℕ) → contains x s.seen ≡ true → see s x ≡ s
unfolding see
see_old s x e = rw e

see_new :
    (s : Seen) (x : ℕ)
    → contains x s.seen ≡ false
    → see s x ≡ record { seen = x ∷ s.seen; hot_physical_order = s.hot_physical_order ++ x ∷ [] }
unfolding see
see_new s x e = rw e

pub order-see_all :
    (s : Seen) (xs : List ℕ)
    → (see_all s xs).hot_physical_order ≡ s.hot_physical_order ++ first_visits s.seen xs
unfolding see_all first_visits
order-see_all s [] = sym (append-nil s.hot_physical_order)
order-see_all s (x ∷ xs) = elim (Bool-cases (contains x s.seen)) [
  | inl old ↦ rw (see_old s x old, see_all, old) (order-see_all s xs)
  | inr new ↦
      rw (see_new s x new, see_all, new)
        (order-see_all _ xs
          ∙ append_assoc s.hot_physical_order (x ∷ []) (first_visits (x ∷ s.seen) xs))
]

-- A group whose rows are in range is taken whole; else the first row out of range is reported.
scan_group_cases :
    (row_count : ℕ) (s : Seen) (group : List ℕ)
    → (scan_group row_count s group ≡ ok (see_all s group))
        × ((a : ℕ) → contains a group ≡ true → a < row_count)
      ⊎ ((row : ℕ) × (contains row group ≡ true)
          × (row_count ≤ row)
          × (scan_group row_count s group ≡ err (trace_row_out_of_range row row_count)))
unfolding scan_group see_all contains
scan_group_cases row_count s [] = inl (refl, λ a e. cc)
scan_group_cases row_count s (x ∷ xs) = elim (Bool-cases (leb row_count x)) [
  | inl out ↦ inr (x, ground arith, ground arith, rw out refl)
  | inr inside ↦ elim (scan_group_cases row_count (see s x) xs) [
    | inl (done, within) ↦ inl (rw inside done, λ a e. ground (arith, within a))
    | inr (row, here, beyond, failed) ↦ inr (row, ground arith, beyond, rw inside failed)
  ]
]

traced_append :
    (row : ℕ) (xs ys : List ℕ) → contains row (xs ++ ys) ≡ (contains row xs || contains row ys)
unfolding contains
traced_append row [] ys = refl
traced_append row (x ∷ xs) ys = ground (arith, traced_append row xs ys)

contains-visits : (row : ℕ) (trace : List (List ℕ)) → contains row (visits trace) ≡ traced row trace
contains-visits row [] = unfold contains in refl
contains-visits row (batch ∷ trace) =
    rw
      (
        traced_append row (dedup (sort_unstable batch)) (visits trace),
        contains-dedup-sort batch row,
        contains-visits row trace,
      )
      refl

-- A trace whose rows are all in range is taken whole; else some traced row out of range is reported.
pub scan_trace_cases :
    (row_count : ℕ) (s : Seen) (trace : List (List ℕ))
    → (scan_trace row_count s trace ≡ ok (see_all s (visits trace)))
        × ((a : ℕ) → traced a trace ≡ true → a < row_count)
      ⊎ ((row : ℕ) × (traced row trace ≡ true)
          × (row_count ≤ row)
          × (scan_trace row_count s trace ≡ err (trace_row_out_of_range row row_count)))
unfolding scan_trace
scan_trace_cases row_count s [] = inl (unfold see_all in refl, λ a e. cc)
scan_trace_cases row_count s (batch ∷ trace) =
    elim (scan_group_cases row_count s (dedup (sort_unstable batch))) [
      | inl (done, within) ↦
          elim (scan_trace_cases row_count (see_all s (dedup (sort_unstable batch))) trace) [
            | inl (done', within') ↦ inl (
              rw (done, see_all-append s (dedup (sort_unstable batch)) (visits trace)) done',
              λ a e. ground (arith, within a, within' a, contains-dedup-sort batch a),
            )
            | inr (row, here, beyond, failed) ↦ inr (row, ground arith, beyond, rw done failed)
          ]
      | inr (row, here, beyond, failed) ↦
          inr (row, ground (arith, contains-dedup-sort batch row), beyond, rw failed refl)
    ]

contains-first_visits :
    (a : ℕ) (seen xs : List ℕ)
    → contains a (first_visits seen xs) ≡ (contains a xs && not (contains a seen))
unfolding contains first_visits
contains-first_visits a seen [] = refl
contains-first_visits a seen (x ∷ xs) =
    ground (arith, contains-first_visits a seen xs, contains-first_visits a (x ∷ seen) xs, same)
  where
    same : (a == x) ≡ true → contains a seen ≡ contains x seen
    same e = ap (λ b. contains b seen) ((==_iff a x).0 e)

first_visits-IsDistinct : (seen xs : List ℕ) → IsDistinct (first_visits seen xs)
unfolding first_visits
first_visits-IsDistinct seen [] = tt
first_visits-IsDistinct seen (x ∷ xs) = elim (Bool-cases (contains x seen)) [
  | inl old ↦ rw old (first_visits-IsDistinct seen xs)
  | inr new ↦ rw new (
    unfold contains in ground (arith, contains-first_visits x (x ∷ seen) xs),
    first_visits-IsDistinct (x ∷ seen) xs,
  )
]

-- The hot rows of a trace: distinct, and exactly the traced ones.
pub first_visits-hot :
    (trace : List (List ℕ))
    → IsDistinct (first_visits [] (visits trace))
      × ((row : ℕ) → contains row (first_visits [] (visits trace)) ≡ traced row trace)
first_visits-hot trace = (
  first_visits-IsDistinct [] (visits trace),
  λ row.
      contains-first_visits row [] (visits trace)
      ∙ (unfold contains in rw (contains-visits row trace) (ground arith)),
)

-- The traces have the same rows, batch by batch.
abbrev pub SameTrace : List (List ℕ) → List (List ℕ) → Type 0
SameTrace [] [] = Unit
SameTrace [] (c ∷ cs) = ⊥
SameTrace (b ∷ bs) [] = ⊥
SameTrace (b ∷ bs) (c ∷ cs) = SameMembers b c × SameTrace bs cs

pub scan_trace-SameTrace :
    (row_count : ℕ) (s : Seen) (trace other : List (List ℕ))
    → SameTrace trace other
    → scan_trace row_count s trace ≡ scan_trace row_count s other
unfolding scan_trace
scan_trace-SameTrace n s [] [] h = refl
scan_trace-SameTrace n s [] (c ∷ cs) h = absurd h
scan_trace-SameTrace n s (b ∷ bs) [] h = absurd h
scan_trace-SameTrace n s (b ∷ bs) (c ∷ cs) h = rw (dedup-sort-eq b c h.0) (
    ap (◌>>=◌ (scan_group n s (dedup (sort_unstable c))))
      (fun_ext (λ s'. scan_trace-SameTrace n s' bs cs h.1)))
