-- ===== src/Core/Hash/Plan.antt =====
-- Which hash plans `new` accepts.
use gb10x.Prelude.{
  ℕ, zero, suc, ◌+◌, ◌-◌, ◌≤◌, ◌<◌, ◌≡◌, refl, sym, subst, ◌↔◌, List, [], ◌∷◌, All, ok, ◌>>=◌,
  index_lt, get_or, length, arith, false, u32_mod, Bool-cases, ltb, ltb→lt, inl, inr, checked_add,
  ◌==◌, ok_or, fail_if, not, ◌>>◌,
}
use gb10x.Core.Window.{invalid_plan}
use gb10x.Core.Hash.{PleHashPlan, contains_zero, check_contiguous, check_final, new}

abbrev pub IsNonzero : ℕ → Type 0
IsNonzero n = 0 < n

-- The entry of a table at a head.
abbrev pub at : List ℕ → ℕ → ℕ
at xs i = get_or xs i 0

-- Three multipliers and 16 head tables, all nonzero; each table begins where the one before it ends,
-- and the last one ends within the u32 row identifiers.
pub record IsValid (p : PleHashPlan) : Type 0 where
  pub three : length p.multipliers ≡ 3
  pub sizes : length p.vocab_sizes ≡ 16
  pub starts : length p.offsets ≡ 16
  pub mixing : All IsNonzero p.multipliers
  pub nonempty : All IsNonzero p.vocab_sizes
  pub contiguous : (i : ℕ) → i < 15 → at p.offsets (suc i) ≡ at p.offsets i + at p.vocab_sizes i
  pub fits : at p.offsets 15 + at p.vocab_sizes 15 ≤ u32_mod

contains_zero_iff : (xs : List ℕ) → (contains_zero xs ≡ false) ↔ All IsNonzero xs
unfolding contains_zero
contains_zero_iff [] = ground arith
contains_zero_iff (x ∷ xs) = ground (arith, contains_zero_iff xs)

module _ (sizes starts : List ℕ) (ls : length sizes ≡ 16) (lo : length starts ≡ 16) where
  abbrev Contiguous : ℕ → Type 0
  Contiguous i = at starts (suc i) ≡ at starts i + at sizes i

  -- One round, with the table entries in place of the lookups.
  check_round :
      (rounds i : ℕ)
      → i < 15
      → check_contiguous sizes starts (suc rounds) (suc i) ≡ (
          ok_or (checked_add (at starts i) (at sizes i)) (invalid_plan "head table offset overflow")
          >>= λ expected.
              fail_if
                (not (at starts (suc i) == expected))
                (invalid_plan "head tables must be contiguous")
              >> check_contiguous sizes starts rounds (suc (suc i)))
  unfolding check_contiguous
  check_round rounds i h =
      let back : suc i - 1 ≡ i = omega arith in
      let next : suc i + 1 ≡ suc (suc i) = omega arith in
      rw
        (
          back,
          next,
          index_lt starts i 0 (omega arith),
          index_lt sizes i 0 (omega arith),
          index_lt starts (suc i) 0 (omega arith),
        )
        refl

  check_sound :
      (rounds i j : ℕ)
      → i + rounds ≤ 15
      → check_contiguous sizes starts rounds (suc i) ≡ ok tt
      → i ≤ j
      → j < i + rounds
      → Contiguous j
  check_sound zero i j h e lo' hi = absurd (omega arith)
  check_sound (suc rounds) i j h e lo' hi =
      ground (arith, check_round rounds i (omega arith), check_sound rounds (suc i) j (omega arith))

  check_complete :
      (rounds i : ℕ)
      → i + rounds ≤ 15
      → ((j : ℕ) → j < 15 → Contiguous j × (at starts (suc j) ≤ u32_mod))
      → check_contiguous sizes starts rounds (suc i) ≡ ok tt
  check_complete zero i h all = unfold check_contiguous in refl
  check_complete (suc rounds) i h all = ground (
    arith,
    check_round rounds i (omega arith),
    all i (omega arith),
    check_complete rounds (suc i) (omega arith) all,
  )

-- Head tables end within the row space, and a later one begins no earlier than an earlier one ends.
module _ (p : PleHashPlan) (v : IsValid p) where
  table_end_le :
      (k i : ℕ) → i + k < 15 → at p.offsets i + at p.vocab_sizes i ≤ at p.offsets (i + suc k)
  table_end_le zero i h =
      let e : i + 1 ≡ suc i = omega arith in rw e (omega (arith, v.contiguous i (omega arith)))
  table_end_le (suc k) i h =
      let e : i + suc (suc k) ≡ suc (i + suc k) = omega arith in
      rw e (omega (arith, table_end_le k i (omega arith), v.contiguous (i + suc k) (omega arith)))

  pub tables_disjoint :
      (i j : ℕ) → i < j → j < 16 → at p.offsets i + at p.vocab_sizes i ≤ at p.offsets j
  tables_disjoint i j h hj =
      let e : i + suc (j - suc i) ≡ j = omega arith in
      rw e at (table_end_le (j - suc i) i (omega arith))

  pub table_fits : (i : ℕ) → i < 16 → at p.offsets i + at p.vocab_sizes i ≤ u32_mod
  table_fits i h = elim (Bool-cases (ltb i 15)) [
    | inl inner ↦
        omega
          (arith, ltb→lt i 15 inner, tables_disjoint i 15 (ltb→lt i 15 inner) (omega arith), v.fits)
    | inr last ↦ let e : i ≡ 15 = ground arith in rw e v.fits
  ]

abbrev plan_of : List ℕ → List ℕ → List ℕ → ℕ → PleHashPlan
plan_of m sizes starts eos = record {
  multipliers = m;
  vocab_sizes = sizes;
  offsets = starts;
  eos_token_id = eos;
}

check_final_fits :
    (sizes starts : List ℕ)
    → length sizes ≡ 16
    → length starts ≡ 16
    → (check_final sizes starts ≡ ok tt) ↔ (at starts 15 + at sizes 15 ≤ u32_mod)
unfolding check_final
check_final_fits sizes starts ls lo =
    rw (index_lt starts 15 0 (omega arith), index_lt sizes 15 0 (omega arith)) (ground arith)

module _ (m sizes starts : List ℕ) (heads ngram eos : ℕ) where
  checks_of_new :
      {p : PleHashPlan}
      → new m sizes starts heads ngram eos ≡ ok p
      → (ngram ≡ 3)
        × (heads ≡ 8)
        × (length m ≡ 3)
        × (length sizes ≡ 16)
        × (length starts ≡ 16)
        × (contains_zero m ≡ false)
        × (contains_zero sizes ≡ false)
        × (check_contiguous sizes starts 15 1 ≡ ok tt)
        × (check_final sizes starts ≡ ok tt)
        × (p ≡ plan_of m sizes starts eos)
  unfolding new
  checks_of_new e = ground arith

  new_sound :
      {p : PleHashPlan}
      → new m sizes starts heads ngram eos ≡ ok p
      → (ngram ≡ 3) × (heads ≡ 8) × (p ≡ plan_of m sizes starts eos) × IsValid p
  new_sound {p} e =
      let (en, eh, l3, ls, lo, nm, ns, chain, final, ep) = checks_of_new e in
      let valid : IsValid (plan_of m sizes starts eos) = record {
        three = l3;
        sizes = ls;
        starts = lo;
        mixing = (contains_zero_iff m).0 nm;
        nonempty = (contains_zero_iff sizes).0 ns;
        contiguous = λ i h.
            check_sound sizes starts ls lo 15 0 i (omega arith) chain (omega arith) (omega arith);
        fits = (check_final_fits sizes starts ls lo).0 final;
      } in
      (en, eh, ep, subst IsValid (sym ep) valid)

  new_complete :
      ngram ≡ 3
      → heads ≡ 8
      → IsValid (plan_of m sizes starts eos)
      → new m sizes starts heads ngram eos ≡ ok (plan_of m sizes starts eos)
  unfolding new
  new_complete en eh v = ground (
    arith,
    (contains_zero_iff m).1 v.mixing,
    (contains_zero_iff sizes).1 v.nonempty,
    (check_final_fits sizes starts v.sizes v.starts).1 v.fits,
    check_complete sizes starts v.sizes v.starts 15 0 (omega arith) chain,
  )
    where
      chain :
          (j : ℕ)
          → j < 15
          → (at starts (suc j) ≡ at starts j + at sizes j) × (at starts (suc j) ≤ u32_mod)
      chain j h = (
        v.contiguous j h,
        omega (arith, table_fits (plan_of m sizes starts eos) v (suc j) (omega arith)),
      )

  -- `new` gives a plan exactly when the n-gram size is 3, there are 8 heads for each order and
  -- the plan of the arguments, which it then gives, is valid.
  pub new_iff :
      (p : PleHashPlan)
      → (new m sizes starts heads ngram eos ≡ ok p)
        ↔ ((ngram ≡ 3) × (heads ≡ 8) × (p ≡ plan_of m sizes starts eos) × IsValid p)
  new_iff p = (new_sound, λ (en, eh, ep, v). rw ep (new_complete en eh (subst IsValid ep v)))
