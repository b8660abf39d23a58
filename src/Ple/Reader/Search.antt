-- ===== src/Ple/Reader/Search.antt =====
-- The binary search of a reader finds what its entries hold, within the fuel that it is given.
use gb10x.Prelude.{
  ℕ, zero, suc, ◌+◌, ◌-◌, ◌/◌, ◌≤◌, ◌<◌, ◌≡◌, refl, sym, subst, ap, ◌∙◌, none, some, List, ok,
  ◌>>=◌, ltb, length, get_elem?, get_or, get_elem?_lt, arith, Bool-cases, inl, inr, ltb→lt, ltb→le,
  compare_cases,
}
use gb10x.Ple.Reader.{PlePackReader, search_index, find_overlay_offset}
use gb10x.Ple.Reader.Index.{Entry}
use gb10x.Ple.Reader.Entries.{
  IsReader, get_elem?-lt, index_entry_at, lookup, lookup_found, lookup_absent, ascending_lt,
}

abbrev at : List Entry → ℕ → Entry
at entries i = get_or entries i (0, 0)

module _ (r : PlePackReader) (entries : List Entry) (w : IsReader r entries) (row : ℕ) where
  -- The entries outside `low` to `high` do not hold the row.
  record IsNarrowed (low high : ℕ) : Type 0 where
    ordered : low ≤ high
    within : high ≤ length entries
    below : (i : ℕ) → i < low → (at entries i).0 < row
    beyond : (i : ℕ) → high ≤ i → i < length entries → row < (at entries i).0

  here : (i : ℕ) → i < length entries → get_elem? entries i ≡ some (at entries i)
  here i h = get_elem?_lt entries i (0, 0) h

  later : (i j : ℕ) → i < j → j < length entries → (at entries i).0 < (at entries j).0
  later i j h k = ascending_lt none entries i j w.ascending h (here i (omega arith)) (here j k)

  empty_lookup : (low high : ℕ) → IsNarrowed low high → high ≤ low → lookup row entries ≡ none
  empty_lookup low high n h = lookup_absent row entries (λ i e k same.
      let inside = get_elem?-lt entries i k in
      let it : at entries i ≡ e = ground (arith, here i inside) in
      let it' : (at entries i).0 ≡ row = ap (λ (x : Entry). x.0) it ∙ same in
      ground (arith, n.below i, n.beyond i))

  upper :
      (low high middle : ℕ)
      → IsNarrowed low high
      → middle < high
      → (at entries middle).0 < row
      → IsNarrowed (middle + 1) high
  upper low high middle n h less = record {
    ordered = omega arith;
    within = n.within;
    below = λ i p. elim (Bool-cases (ltb i middle)) [
      | inl before ↦
          let s = later i middle (ltb→lt i middle before) (omega (arith, n.within)) in omega arith
      | inr not_before ↦
          let same : i ≡ middle = omega (arith, ltb→le i middle not_before) in
          subst (λ (k : ℕ). (at entries k).0 < row) (sym same) less
    ];
    beyond = n.beyond;
  }

  lower :
      (low high middle : ℕ)
      → IsNarrowed low high
      → low ≤ middle
      → middle < high
      → row < (at entries middle).0
      → IsNarrowed low middle
  lower low high middle n l h more = record {
    ordered = l;
    within = omega (arith, n.within);
    below = λ i p. n.below i p;
    beyond = λ i p q. elim (Bool-cases (ltb middle i)) [
      | inl after ↦ let s = later middle i (ltb→lt middle i after) q in omega arith
      | inr not_after ↦
          let same : i ≡ middle = omega (arith, ltb→le middle i not_after) in
          subst (λ (k : ℕ). row < (at entries k).0) (sym same) more
    ];
  }

  search_index-lookup :
      (fuel low high : ℕ)
      → high - low < fuel
      → IsNarrowed low high
      → search_index r row fuel low high ≡ ok (lookup row entries)
  unfolding search_index
  search_index-lookup zero low high f n = absurd (omega arith)
  search_index-lookup (suc fuel) low high f n = elim (Bool-cases (ltb low high)) [
    | inr done ↦ rw (search_index, done, empty_lookup low high n (ltb→le low high done)) refl
    | inl going ↦
        let middle = low + (high - low) / 2 in
        let less = ltb→lt low high going in
        let inside : middle < high = omega arith in
        let e = at entries middle in
        let read = index_entry_at r entries w middle e (here middle (omega (arith, n.within))) in
        elim (compare_cases e.0 row) [
          | inl (c, before) ↦
              rw (search_index, going, read, ◌>>=◌, c)
                (search_index-lookup fuel (middle + 1) high (omega arith)
                  (upper low high middle n inside before))
          | inr (inl (c, same)) ↦
              let found =
                lookup_found none entries middle w.ascending
                  (here middle (omega (arith, n.within))) in
              rw (search_index, going, read, ◌>>=◌, c, ← same, found) refl
          | inr (inr (c, after)) ↦
              rw (search_index, going, read, ◌>>=◌, c)
                (search_index-lookup fuel low middle (omega arith)
                  (lower low high middle n (omega arith) inside after))
        ]
  ]

-- On a well-formed reader the search always returns, and finds the offset that the entries hold for
-- the row, or that they hold none.
pub find_overlay_offset-lookup :
    (r : PlePackReader) (entries : List Entry)
    → IsReader r entries
    → (row : ℕ) → find_overlay_offset r row ≡ ok (lookup row entries)
unfolding find_overlay_offset
find_overlay_offset-lookup r entries w row =
    search_index-lookup r entries w row (suc r.hot_row_count) 0 r.hot_row_count (omega arith)
      (record {
        ordered = omega arith;
        within = omega (arith, w.count);
        below = λ i h. absurd (omega arith);
        beyond = λ i h k. absurd (omega (arith, w.count));
      })
