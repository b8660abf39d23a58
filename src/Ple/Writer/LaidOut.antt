-- ===== src/Ple/Writer/LaidOut.antt =====
-- What the writer needs of a plan: rows of the source, inside blocks, that do not overlap.
use native.Mathlib.Nat.{mul-add-mod_self_right, mod-eq_of_lt}
use gb10x.Prelude.{
  ℕ, ◌+◌, ◌*◌, ◌%◌, ◌≤◌, ◌<◌, ◌≡◌, ◌∙◌, some, List, [], ◌∷◌, ok, u32_mod, arith, All,
}
use gb10x.Ple.Layout.{HotOverlayPlacement, LayoutPlan}
use gb10x.Ple.Layout.Placements.{address}
use gb10x.Ple.Writer.{last_placement, storage_after, and_mul, overlay_storage_bytes}
use gb10x.Ple.Writer.Filled.{AreSpaced}

abbrev pub IsInBlock : LayoutPlan → HotOverlayPlacement → Type 0
IsInBlock plan p =
    (p.logical_row < plan.row_count) × (p.offset_in_block + plan.row_bytes ≤ plan.block_bytes)

pub record IsLaidOut (plan : LayoutPlan) : Type 0 where
  pub block_word : plan.block_bytes < u32_mod
  pub in_blocks : All (IsInBlock plan) plan.hot_overlay_placements
  pub spaced : AreSpaced plan.block_bytes plan.row_bytes plan.hot_overlay_placements

storage_of_last :
    (block_bytes : ℕ) (p : HotOverlayPlacement) {size : ℕ}
    → storage_after block_bytes (some p) ≡ ok size
    → size ≡ (p.block_id + 1) * block_bytes
unfolding storage_after and_mul
storage_of_last block_bytes p h = ground arith

block_end :
    (width block_bytes : ℕ) (p : HotOverlayPlacement)
    → p.offset_in_block + width ≤ block_bytes
    → address block_bytes p + width ≤ (p.block_id + 1) * block_bytes
block_end width block_bytes p h = grind arith

module _ (plan : LayoutPlan) where
  stored_before :
      (placements : List HotOverlayPlacement) {size : ℕ}
      → storage_after plan.block_bytes (last_placement placements) ≡ ok size
      → All (IsInBlock plan) placements
      → AreSpaced plan.block_bytes plan.row_bytes placements
      → All (λ p. address plan.block_bytes p + plan.row_bytes ≤ size) placements
  unfolding last_placement
  stored_before [] h is ss = tt
  stored_before (p ∷ []) h ((_, inside), is) ss = (
    omega (
      arith,
      storage_of_last plan.block_bytes p h,
      block_end plan.row_bytes plan.block_bytes p inside,
    ),
    tt,
  )
  stored_before (p ∷ q ∷ placements) h (i, is) ((next, _), ss) =
      let rest = stored_before (q ∷ placements) h is ss in (omega (arith, next, rest.0), rest)

  -- The overlay holds every row.
  pub overlay_storage_bytes-holds :
      IsLaidOut plan
      → {size : ℕ} → overlay_storage_bytes plan ≡ ok size
      → All (λ p. address plan.block_bytes p + plan.row_bytes ≤ size) plan.hot_overlay_placements
  unfolding overlay_storage_bytes
  overlay_storage_bytes-holds laid h =
      stored_before plan.hot_overlay_placements h laid.in_blocks laid.spaced

-- An address has its offset in its block.
pub address_offset :
    (block_bytes : ℕ) (p : HotOverlayPlacement)
    → p.offset_in_block < block_bytes
    → address block_bytes p % block_bytes ≡ p.offset_in_block
address_offset block_bytes p h =
    mul-add-mod_self_right p.block_id block_bytes p.offset_in_block ∙ mod-eq_of_lt h
