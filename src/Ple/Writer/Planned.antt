-- ===== src/Ple/Writer/Planned.antt =====
-- The layout planner's plans are ones that the writer can write.
use gb10x.Prelude.{
  ℕ, zero, suc, ◌+◌, ◌≤◌, ◌<◌, ◌≡◌, ◌∙◌, refl, sym, subst, ap, true, some, List, [], ◌∷◌, ok,
  u32_mod, arith, All, map, get_elem?, inl, inr,
}
use gb10x.Prelude.Sorted.{contains}
use gb10x.Ple.Format.{IsGeometry}
use gb10x.Ple.Layout.{HotOverlayPlacement, LayoutPlan, plan_exact_layout}
use gb10x.Ple.Layout.Placements.{address}
use gb10x.Ple.Layout.Scan.{traced}
use gb10x.Ple.Layout.Plan.{
  plan_eq, plan_exact_layout_cases, plan_exact_layout-hot, plan_exact_layout-inside,
  plan_exact_layout-apart,
}
use gb10x.Ple.Writer.Filled.{AreSpaced}
use gb10x.Ple.Writer.LaidOut.{IsLaidOut, IsInBlock}

All_of :
    {A : Type 0} (P : A → Type 0) (xs : List A)
    → ((i : ℕ) (x : A) → get_elem? xs i ≡ some x → P x)
    → All P xs
All_of P [] f = tt
All_of P (x ∷ xs) f = (f 0 x refl, All_of P xs (λ i y h. f (suc i) y h))

spaced_of :
    (block_bytes width : ℕ) (placements : List HotOverlayPlacement)
    → ((i j : ℕ) (p q : HotOverlayPlacement)
        → i < j
        → get_elem? placements i ≡ some p
        → get_elem? placements j ≡ some q
        → address block_bytes p + width ≤ address block_bytes q)
    → AreSpaced block_bytes width placements
spaced_of block_bytes width [] f = tt
spaced_of block_bytes width (p ∷ placements) f = (
  All_of (λ q. address block_bytes p + width ≤ address block_bytes q) placements
      (λ j q h. f 0 (suc j) p q (omega arith) refl h),
  spaced_of block_bytes width placements
      (λ i j q r h hi hj. f (suc i) (suc j) q r (omega (arith, h)) hi hj),
)

row_placed :
    (placements : List HotOverlayPlacement) (i : ℕ) {p : HotOverlayPlacement}
    → get_elem? placements i ≡ some p
    → contains p.logical_row (map (λ q. q.logical_row) placements) ≡ true
unfolding contains
row_placed [] i h = cc
row_placed (q ∷ placements) zero h = ground arith
row_placed (q ∷ placements) (suc i) h = let rest = row_placed placements i h in ground arith

-- With the geometry of an exact pack and a u32 block size, the placements of a plan are of rows of the
-- source, each inside its block, and in the order of the overlay without overlap.
pub plan_exact_layout-IsLaidOut :
    (row_count row_bytes block_bytes : ℕ) (trace : List (List ℕ)) {plan : LayoutPlan}
    → IsGeometry row_count row_bytes block_bytes
    → block_bytes < u32_mod
    → plan_exact_layout row_count row_bytes block_bytes trace ≡ ok plan
    → IsLaidOut plan
plan_exact_layout-IsLaidOut row_count row_bytes block_bytes trace {plan} g u32 e =
    let same = plan_eq row_count row_bytes block_bytes g u32 trace e in
    let rows : plan.row_count ≡ row_count = ap (λ (l : LayoutPlan). l.row_count) same in
    let width : plan.row_bytes ≡ row_bytes = ap (λ (l : LayoutPlan). l.row_bytes) same in
    let block : plan.block_bytes ≡ block_bytes = ap (λ (l : LayoutPlan). l.block_bytes) same in
    let (_, members, placed) =
      plan_exact_layout-hot row_count row_bytes block_bytes g u32 trace e in
    let inside : (row : ℕ) → traced row trace ≡ true → row < row_count =
      elim (plan_exact_layout_cases row_count row_bytes block_bytes g u32 trace) [
        | inl (_, all) ↦ all
        | inr (_, _, _, failed) ↦ cc
      ] in
    record {
      block_word = omega (arith, block, u32);
      in_blocks = All_of (IsInBlock plan) plan.hot_overlay_placements (λ i p h.
          let held =
            subst (λ (hot : List ℕ). contains p.logical_row hot ≡ true) placed
              (row_placed plan.hot_overlay_placements i h) in
          let a = inside p.logical_row (sym (members p.logical_row) ∙ held) in
          let b = plan_exact_layout-inside row_count row_bytes block_bytes g u32 trace e i h in
          (omega (arith, a, rows), omega (arith, b, width, block)));
      spaced =
          subst (λ (w : ℕ). AreSpaced plan.block_bytes w plan.hot_overlay_placements) (sym width)
            (subst (λ (b : ℕ). AreSpaced b row_bytes plan.hot_overlay_placements) (sym block)
              (spaced_of block_bytes row_bytes plan.hot_overlay_placements (λ i j p q h hi hj.
                let (_, _, apart) =
                  plan_exact_layout-apart row_count row_bytes block_bytes g u32 trace e i j h hi
                    hj in
                apart)));
    }
