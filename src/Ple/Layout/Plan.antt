-- ===== src/Ple/Layout/Plan.antt =====
-- What `plan_exact_layout` returns.
use gb10x.Prelude.{
  ℕ, ◌+◌, ◌*◌, ◌/◌, ◌≤◌, ◌<◌, ◌≡◌, refl, ◌⊎◌, List, [], map, ok, err, true, some, get_elem?, arith,
  u32_mod, inl, inr, sym, false, ◌∙◌, ◌>>=◌, ◌==◌, ltb, ok-injective, product-lt, if◌then◌else◌,
}
use native.Mathlib.Nat.{le-div_iff_mul-le, div-mul-le_self}
use gb10x.Prelude.Sorted.{contains}
use gb10x.Ple.Format.{IsGeometry, trace_row_out_of_range, logical_row_out_of_range}
use gb10x.Ple.Layout.{
  scan_trace, place_all, LayoutPlan, HotOverlayPlacement, Seen, base_offset, plan_exact_layout,
}
use gb10x.Ple.Layout.Placements.{
  placed_all, place_all-placed, address, placed_inside, placed_apart, get_elem?-placed_all,
  logical_rows-placed_all,
}
use gb10x.Ple.Layout.Scan.{
  IsDistinct, SameTrace, traced, visits, first_visits, first_visits-hot, scan_trace-SameTrace,
  scan_trace_cases, order-see_all,
}

abbrev nothing_seen : Seen
nothing_seen = record { seen = []; hot_physical_order = [] }

-- The plan of a trace: its hot rows in the order of their first visits, placed one after another.
abbrev pub planned : ℕ → ℕ → ℕ → List (List ℕ) → LayoutPlan
planned row_count row_bytes block_bytes trace = record {
  row_count = row_count;
  row_bytes = row_bytes;
  block_bytes = block_bytes;
  hot_physical_order = first_visits [] (visits trace);
  hot_overlay_placements =
      placed_all (block_bytes / row_bytes) row_bytes 0 (first_visits [] (visits trace));
}

module _ (row_count row_bytes block_bytes : ℕ) (g : IsGeometry row_count row_bytes block_bytes)
    (u32 : block_bytes < u32_mod) where
  some_rows : 0 < block_bytes / row_bytes
  some_rows = (le-div_iff_mul-le g.width).1 (omega (arith, g.block))

  rows_hold : block_bytes / row_bytes * row_bytes ≤ block_bytes
  rows_hold = div-mul-le_self block_bytes row_bytes

  -- With the geometry checked, the scan and the placements are left.
  after_checks :
      (trace : List (List ℕ))
      → plan_exact_layout row_count row_bytes block_bytes trace ≡ (
          scan_trace row_count nothing_seen trace >>= λ s.
          place_all (block_bytes / row_bytes) row_bytes 0 s.hot_physical_order >>= λ placements.
          ok (record {
            row_count = row_count;
            row_bytes = row_bytes;
            block_bytes = block_bytes;
            hot_physical_order = s.hot_physical_order;
            hot_overlay_placements = placements;
          }))
  unfolding plan_exact_layout
  after_checks trace =
      let rows : (row_count == 0) ≡ false = ground (arith, g.rows) in
      let addressable : ltb u32_mod row_count ≡ false = ground (arith, g.addressable) in
      let width : (row_bytes == 0) ≡ false = ground (arith, g.width) in
      let block : ltb block_bytes row_bytes ≡ false = ground (arith, g.block) in
      let per_block : (block_bytes / row_bytes == 0) ≡ false = ground (arith, some_rows) in
      rw (rows, addressable, width, block, per_block) refl

  -- With the geometry of an exact pack, either every traced row is in range and the planner gives
  -- the layout of its specification, or the planner reports some traced row that is out of range;
  -- none of its overflow checks fails.
  pub plan_exact_layout_cases :
      (trace : List (List ℕ))
      → (plan_exact_layout row_count row_bytes block_bytes trace
            ≡ ok (planned row_count row_bytes block_bytes trace))
          × ((row : ℕ) → traced row trace ≡ true → row < row_count)
        ⊎ ((row : ℕ) × (traced row trace ≡ true)
            × (row_count ≤ row)
            × (plan_exact_layout row_count row_bytes block_bytes trace
                ≡ err (trace_row_out_of_range row row_count)))
  plan_exact_layout_cases trace = elim (scan_trace_cases row_count nothing_seen trace) [
    | inl (done, within) ↦ inl (
      rw (after_checks trace, done, order-see_all nothing_seen (visits trace), placements) refl,
      within,
    )
    | inr (row, here, beyond, failed) ↦
        inr (row, here, beyond, rw (after_checks trace, failed) refl)
  ]
    where
      placements :
          place_all (block_bytes / row_bytes) row_bytes 0 (first_visits [] (visits trace))
          ≡ ok (placed_all (block_bytes / row_bytes) row_bytes 0 (first_visits [] (visits trace)))
      placements =
          place_all-placed (block_bytes / row_bytes) row_bytes some_rows (omega (arith, rows_hold))
            0 _ g.width

  pub plan_eq :
      (trace : List (List ℕ)) {plan : LayoutPlan}
      → plan_exact_layout row_count row_bytes block_bytes trace ≡ ok plan
      → plan ≡ planned row_count row_bytes block_bytes trace
  plan_eq trace e = elim (plan_exact_layout_cases trace) [
    | inl (done, _) ↦ ok-injective (sym e ∙ done)
    | inr (_, _, _, failed) ↦ cc
  ]

  -- With the geometry of an exact pack, the hot rows of a plan are distinct, and exactly the rows
  -- of the trace; each has one placement, in the same order.
  pub plan_exact_layout-hot :
      (trace : List (List ℕ)) {plan : LayoutPlan}
      → plan_exact_layout row_count row_bytes block_bytes trace ≡ ok plan
      → IsDistinct plan.hot_physical_order
        × ((row : ℕ) → contains row plan.hot_physical_order ≡ traced row trace)
        × (map (λ p. p.logical_row) plan.hot_overlay_placements ≡ plan.hot_physical_order)
  plan_exact_layout-hot trace e =
      let (distinct, members) = first_visits-hot trace in
      rw (plan_eq trace e) (
        distinct,
        members,
        logical_rows-placed_all (block_bytes / row_bytes) row_bytes 0
            (first_visits [] (visits trace)),
      )

  pub plan_exact_layout-inside :
      (trace : List (List ℕ)) {plan : LayoutPlan}
      → plan_exact_layout row_count row_bytes block_bytes trace ≡ ok plan
      → (i : ℕ) {p : HotOverlayPlacement} → get_elem? plan.hot_overlay_placements i ≡ some p
      → p.offset_in_block + row_bytes ≤ block_bytes
  plan_exact_layout-inside trace {plan} e i {p} ep =
      let here = plan_eq trace e in
      let (row, _, e1) =
        get_elem?-placed_all (block_bytes / row_bytes) row_bytes 0 (first_visits [] (visits trace))
          i (rw here at ep) in
      rw e1 (
        placed_inside (block_bytes / row_bytes) row_bytes block_bytes some_rows rows_hold (0 + i)
          row)

  -- With the geometry of an exact pack, no placed row of a plan crosses the end of its block, and
  -- of two placements the earlier one ends in the overlay before the later one begins.
  pub plan_exact_layout-apart :
      (trace : List (List ℕ)) {plan : LayoutPlan}
      → plan_exact_layout row_count row_bytes block_bytes trace ≡ ok plan
      → (i j : ℕ) {p q : HotOverlayPlacement} → i < j
      → get_elem? plan.hot_overlay_placements i ≡ some p
      → get_elem? plan.hot_overlay_placements j ≡ some q
      → (p.offset_in_block + row_bytes ≤ block_bytes)
        × (q.offset_in_block + row_bytes ≤ block_bytes)
        × (address block_bytes p + row_bytes ≤ address block_bytes q)
  plan_exact_layout-apart trace {plan} e i j {p} {q} h ep eq =
      let here = plan_eq trace e in
      let (row, _, e1) =
        get_elem?-placed_all (block_bytes / row_bytes) row_bytes 0 (first_visits [] (visits trace))
          i (rw here at ep) in
      let (other, _, e2) =
        get_elem?-placed_all (block_bytes / row_bytes) row_bytes 0 (first_visits [] (visits trace))
          j (rw here at eq) in
      rw (e1, e2)
        (
          placed_inside (block_bytes / row_bytes) row_bytes block_bytes some_rows rows_hold (0 + i)
              row,
          placed_inside (block_bytes / row_bytes) row_bytes block_bytes some_rows rows_hold (0 + j)
              other,
          placed_apart (block_bytes / row_bytes) row_bytes block_bytes some_rows rows_hold (0 + i)
              (0 + j) row other (omega arith),
        )

-- Traces with the same rows in each batch have the same plan, or fail alike, whatever the order and
-- the repetitions inside the batches.
pub plan_exact_layout-SameTrace :
    (row_count row_bytes block_bytes : ℕ) (trace other : List (List ℕ))
    → SameTrace trace other
    → plan_exact_layout row_count row_bytes block_bytes trace
      ≡ plan_exact_layout row_count row_bytes block_bytes other
unfolding plan_exact_layout
plan_exact_layout-SameTrace row_count row_bytes block_bytes trace other h =
    rw (scan_trace-SameTrace row_count nothing_seen trace other h) refl

-- In a plan with the geometry of an exact pack and a u32 block size, the cold base holds row `r`
-- at `r * row_bytes`, with no overflow, and refuses any row outside.
pub base_offset_total :
    (row_count row_bytes block_bytes : ℕ) (trace : List (List ℕ)) {plan : LayoutPlan}
    → IsGeometry row_count row_bytes block_bytes
    → block_bytes < u32_mod
    → plan_exact_layout row_count row_bytes block_bytes trace ≡ ok plan
    → (row : ℕ)
    → base_offset plan row ≡ (
        if ltb row row_count
        then ok (row * row_bytes)
        else err (logical_row_out_of_range row row_count))
unfolding base_offset
base_offset_total row_count row_bytes block_bytes trace g u32 e row =
    rw (plan_eq row_count row_bytes block_bytes g u32 trace e)
      (ground (arith, product-lt row row_bytes))
