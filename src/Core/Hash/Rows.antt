-- ===== src/Core/Hash/Rows.antt =====
-- What `rows_for_token` computes on a valid plan.
use Prim.Native.Nat.{bit_xor}
use gb10x.Prelude.{
  ℕ, zero, suc, ◌+◌, ◌-◌, ◌%◌, ◌≤◌, ◌<◌, ◌≡◌, refl, ap, ◌∙◌, List, [], ◌∷◌, ◌++◌, All, ok, err,
  index_lt, length, length-append, arith, u32_mod, ◌==◌, wrapping_mul, if◌then◌else◌, Bool-cases,
  inl, inr, ltb, ltb→lt,
}
use mathlib.Core.List.{append-nil}
use gb10x.Core.Window.{PleTokenWindow, Previous, push, incompatible_window}
use gb10x.Core.Hash.{
  PleHashPlan, previous_token, mix_loop, head_loop, order_loop, with_push, rows_for_token,
}
use gb10x.Core.Hash.Plan.{IsNonzero, IsValid, at, table_fits, tables_disjoint}

-- The mixed word of the last two tokens, and of the last three.
abbrev pub bigram : PleHashPlan → Previous → ℕ → ℕ
bigram p previous token =
    bit_xor (wrapping_mul token (at p.multipliers 0)) (wrapping_mul previous.0 (at p.multipliers 1))

abbrev pub trigram : PleHashPlan → Previous → ℕ → ℕ
trigram p previous token =
    bit_xor (bigram p previous token) (wrapping_mul previous.1 (at p.multipliers 2))

-- The row of a mixed word in the table of one head.
abbrev pub row_of : PleHashPlan → ℕ → ℕ → ℕ
row_of p mixed head = at p.offsets head + mixed % at p.vocab_sizes head

pub rows_from : PleHashPlan → ℕ → ℕ → ℕ → List ℕ
rows_from p mixed zero head = []
rows_from p mixed (suc rounds) head = row_of p mixed head ∷ rows_from p mixed rounds (suc head)

-- The rows of the eight heads of each order.
pub hash_rows : PleHashPlan → Previous → ℕ → List ℕ
hash_rows p previous token =
    rows_from p (bigram p previous token) 8 0 ++ rows_from p (trigram p previous token) 8 8

All-at : (xs : List ℕ) (i : ℕ) → All IsNonzero xs → i < length xs → 0 < at xs i
All-at [] i h hi = elim hi [ ]
All-at (x ∷ xs) zero h hi = h.0
All-at (x ∷ xs) (suc i) h hi = All-at xs i h.1 (omega arith)

module _ (p : PleHashPlan) (v : IsValid p) where
  row_of_bounds :
      (mixed i : ℕ)
      → i < 16
      → (at p.offsets i ≤ row_of p mixed i)
        × (row_of p mixed i < at p.offsets i + at p.vocab_sizes i)
        × (row_of p mixed i < u32_mod)
  row_of_bounds mixed i h =
      omega (arith, All-at p.vocab_sizes i v.nonempty (omega (arith, v.sizes)), table_fits p v i h)

  head_loop_rows :
      (mixed rounds head : ℕ)
      → head + rounds ≤ 16
      → head_loop p mixed rounds head ≡ ok (rows_from p mixed rounds head)
  unfolding head_loop rows_from
  head_loop_rows mixed zero head h = refl
  head_loop_rows mixed (suc rounds) head h =
      let next : head + 1 ≡ suc head = omega arith in
      rw
        (
          next,
          index_lt p.offsets head 0 (omega (arith, v.starts)),
          index_lt p.vocab_sizes head 0 (omega (arith, v.sizes)),
          head_loop_rows mixed rounds (suc head) (omega arith),
        )
        (ground (
          arith,
          All-at p.vocab_sizes head v.nonempty (omega (arith, v.sizes)),
          row_of_bounds mixed head (omega arith),
        ))

  order_loop_rows :
      (w : PleTokenWindow) (token : ℕ)
      → order_loop p w token 2 2 ≡ ok (hash_rows p w.previous token)
  unfolding order_loop mix_loop previous_token hash_rows
  order_loop_rows w token =
      rw
        (
          index_lt p.multipliers 0 0 (omega (arith, v.three)),
          index_lt p.multipliers 1 0 (omega (arith, v.three)),
          index_lt p.multipliers 2 0 (omega (arith, v.three)),
          head_loop_rows _ 8 0 (omega arith),
          head_loop_rows _ 8 8 (omega arith),
        )
        (rw append-nil)

  -- On a valid plan and any window `rows_for_token` returns: it refuses a window of another EOS
  -- and leaves it alone; else it gives the rows of the 16 heads and appends the token to the
  -- window.
  pub rows_for_token_total :
      (w : PleTokenWindow) (token : ℕ)
      → rows_for_token p w token ≡ (
          if w.eos_token_id == p.eos_token_id
          then (push w token, ok (hash_rows p w.previous token))
          else (w, err incompatible_window))
  unfolding rows_for_token with_push
  rows_for_token_total w token = rw (order_loop_rows w token, with_push) (ground arith)

length-rows_from :
    (p : PleHashPlan) (mixed rounds head : ℕ) → length (rows_from p mixed rounds head) ≡ rounds
unfolding rows_from
length-rows_from p mixed zero head = refl
length-rows_from p mixed (suc rounds) head =
    omega (arith, length-rows_from p mixed rounds (suc head))

at-rows_from :
    (p : PleHashPlan) (mixed rounds head i : ℕ)
    → i < rounds
    → at (rows_from p mixed rounds head) i ≡ row_of p mixed (head + i)
unfolding rows_from
at-rows_from p mixed zero head i h = elim h [ ]
at-rows_from p mixed (suc rounds) head zero h = let e : head + 0 ≡ head = omega arith in rw e
at-rows_from p mixed (suc rounds) head (suc i) h =
    let e : head + suc i ≡ suc head + i = omega arith in
    rw e (at-rows_from p mixed rounds (suc head) i (omega arith))

at-append_left : (xs ys : List ℕ) (i : ℕ) → i < length xs → at (xs ++ ys) i ≡ at xs i
at-append_left [] ys i h = elim h [ ]
at-append_left (x ∷ xs) ys zero h = refl
at-append_left (x ∷ xs) ys (suc i) h = at-append_left xs ys i (omega arith)

at-append_right : (xs ys : List ℕ) (i : ℕ) → at (xs ++ ys) (length xs + i) ≡ at ys i
at-append_right [] ys i = let e : 0 + i ≡ i = omega arith in rw e
at-append_right (x ∷ xs) ys i =
    let e : suc (length xs) + i ≡ suc (length xs + i) = omega arith in
    rw e (at-append_right xs ys i)

-- The mixed word of a head: the first eight heads hash pairs, the others triples.
abbrev pub mixed_for : PleHashPlan → Previous → ℕ → ℕ → ℕ
mixed_for p previous token head =
    if ltb head 8 then bigram p previous token else trigram p previous token

at-hash_rows :
    (p : PleHashPlan) (previous : Previous) (token i : ℕ)
    → i < 16
    → at (hash_rows p previous token) i ≡ row_of p (mixed_for p previous token i) i
unfolding hash_rows
at-hash_rows p previous token i h = elim (Bool-cases (ltb i 8)) [
  | inl low ↦ rw low (
      at-append_left first second i (omega (arith, length-rows_from p b 8 0, ltb→lt i 8 low))
      ∙ at-rows_from p b 8 0 i (ltb→lt i 8 low)
      ∙ (let e : 0 + i ≡ i = omega arith in rw e))
  | inr high ↦
      let e : i ≡ length first + (i - 8) = ground (arith, length-rows_from p b 8 0) in
      let e' : 8 + (i - 8) ≡ i = ground arith in
      rw high (
        ap (at (first ++ second)) e
        ∙ at-append_right first second (i - 8)
        ∙ at-rows_from p t 8 8 (i - 8) (omega arith)
        ∙ rw e')
]
  where
    b : ℕ
    b = bigram p previous token

    t : ℕ
    t = trigram p previous token

    first : List ℕ
    first = rows_from p b 8 0

    second : List ℕ
    second = rows_from p t 8 8

rows_eq :
    (p : PleHashPlan) (v : IsValid p) (w : PleTokenWindow) (token : ℕ) {w' : PleTokenWindow}
    {rows : List ℕ}
    → rows_for_token p w token ≡ (w', ok rows)
    → rows ≡ hash_rows p w.previous token
rows_eq p v w token e = ground (arith, rows_for_token_total p v w token)

module _ (p : PleHashPlan) (v : IsValid p) (w : PleTokenWindow) (token : ℕ) where
  -- When `rows_for_token` succeeds on a valid plan, there are 16 rows, and the row of each head
  -- lies inside that head's table and fits u32.
  pub rows_for_token_bounds :
      {w' : PleTokenWindow} {rows : List ℕ}
      → rows_for_token p w token ≡ (w', ok rows)
      → (length rows ≡ 16)
        × ((i : ℕ)
            → i < 16
            → (at p.offsets i ≤ at rows i)
              × (at rows i < at p.offsets i + at p.vocab_sizes i)
              × (at rows i < u32_mod))
  rows_for_token_bounds e = rw (rows_eq p v w token e) (
    sixteen,
    λ i h.
        rw (at-hash_rows p w.previous token i h)
          (row_of_bounds p v (mixed_for p w.previous token i) i h),
  )
    where
      sixteen : length (hash_rows p w.previous token) ≡ 16
      sixteen =
          unfold hash_rows in
          omega (
            arith,
            length-append (rows_from p (bigram p w.previous token) 8 0)
                (rows_from p (trigram p w.previous token) 8 8),
            length-rows_from p (bigram p w.previous token) 8 0,
            length-rows_from p (trigram p w.previous token) 8 8,
          )

  -- When `rows_for_token` succeeds for two tokens and windows on one valid plan, the row of a
  -- head for the one is below the row of every later head for the other, so no two heads share a
  -- row.
  pub rows_for_token_disjoint :
      (u : PleTokenWindow) (other : ℕ) {w' u' : PleTokenWindow} {rows others : List ℕ} (i j : ℕ)
      → rows_for_token p w token ≡ (w', ok rows)
      → rows_for_token p u other ≡ (u', ok others)
      → i < j
      → j < 16
      → at rows i < at others j
  rows_for_token_disjoint u other i j e f h hj =
      rw
        (
          rows_eq p v w token e,
          rows_eq p v u other f,
          at-hash_rows p w.previous token i (omega arith),
          at-hash_rows p u.previous other j hj,
        )
        (omega (
          arith,
          row_of_bounds p v (mixed_for p w.previous token i) i (omega arith),
          row_of_bounds p v (mixed_for p u.previous other j) j hj,
          tables_disjoint p v i j h hj,
        ))
