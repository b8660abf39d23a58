-- ===== src/Ple/Writer/Filled.antt =====
-- The rows in the complete sidecar: each stands where its placement says, and nothing else is changed.
use gb10x.Prelude.{ℕ, ◌+◌, ◌≤◌, ◌≡◌, ◌∙◌, refl, sym, subst, List, [], ◌∷◌, length, arith, All}
use gb10x.Ple.Bytes.{Bytes}
use gb10x.Ple.Disk.Reads.{part}
use gb10x.Ple.Layout.{HotOverlayPlacement}
use gb10x.Ple.Layout.Placements.{address}
use gb10x.Ple.Files.{overwrite}
use gb10x.Ple.Files.Ranges.{length-overwrite, overwrite-own, overwrite-before}
use gb10x.Ple.Writer.Effects.{filled}

-- Each placement ends before the ones that follow it begin.
abbrev pub AreSpaced : ℕ → ℕ → List HotOverlayPlacement → Type 0
AreSpaced block_bytes width [] = Unit
AreSpaced block_bytes width (p ∷ placements) =
    All (λ q. address block_bytes p + width ≤ address block_bytes q) placements
    × AreSpaced block_bytes width placements

module _ (rows : ℕ → Bytes) (block_bytes data_offset width : ℕ) where
  -- A placement of a row of the width, that ends inside a file of a size.
  abbrev pub IsSlot : ℕ → HotOverlayPlacement → Type 0
  IsSlot size p =
      (length (rows p.logical_row) ≡ width) × (data_offset + address block_bytes p + width ≤ size)

  abbrev with_row : HotOverlayPlacement → Bytes → Bytes
  with_row p bytes = overwrite bytes (data_offset + address block_bytes p) (rows p.logical_row)

  slot_fits :
      (p : HotOverlayPlacement) (bytes : Bytes)
      → IsSlot (length bytes) p
      → data_offset + address block_bytes p + length (rows p.logical_row) ≤ length bytes
  slot_fits p bytes (w, inside) = omega (arith, w)

  length-with_row :
      (p : HotOverlayPlacement) (bytes : Bytes)
      → IsSlot (length bytes) p
      → length (with_row p bytes) ≡ length bytes
  length-with_row p bytes s =
      length-overwrite bytes (rows p.logical_row) (data_offset + address block_bytes p)
        (slot_fits p bytes s)

  pub length-filled :
      (placements : List HotOverlayPlacement) (bytes : Bytes)
      → All (IsSlot (length bytes)) placements
      → length (filled rows block_bytes data_offset placements bytes) ≡ length bytes
  length-filled [] bytes ss = refl
  length-filled (p ∷ placements) bytes (s, ss) =
      let same = length-with_row p bytes s in
      length-filled placements (with_row p bytes)
        (subst (λ (n : ℕ). All (IsSlot n) placements) (sym same) ss)
      ∙ same

  -- A range before every placement is kept.
  pub filled-before :
      (n offset : ℕ) (placements : List HotOverlayPlacement) (bytes : Bytes)
      → All (IsSlot (length bytes)) placements
      → All (λ p. offset + n ≤ data_offset + address block_bytes p) placements
      → part (filled rows block_bytes data_offset placements bytes) n offset ≡ part bytes n offset
  filled-before n offset [] bytes ss bs = refl
  filled-before n offset (p ∷ placements) bytes (s, ss) (b, bs) =
      filled-before n offset placements (with_row p bytes)
        (subst (λ (m : ℕ). All (IsSlot m) placements) (sym (length-with_row p bytes s)) ss) bs
      ∙ overwrite-before bytes (rows p.logical_row) (data_offset + address block_bytes p)
          (slot_fits p bytes s) n offset b

  spaced_behind :
      (p : HotOverlayPlacement) (placements : List HotOverlayPlacement)
      → All (λ q. address block_bytes p + width ≤ address block_bytes q) placements
      → All
          (λ q. data_offset + address block_bytes p + width ≤ data_offset + address block_bytes q)
          placements
  spaced_behind p [] hs = tt
  spaced_behind p (q ∷ placements) (h, hs) = (omega arith, spaced_behind p placements hs)

  pub filled-own :
      (placements : List HotOverlayPlacement) (bytes : Bytes)
      → All (IsSlot (length bytes)) placements
      → AreSpaced block_bytes width placements
      → All
          (λ p.
            part
              (filled rows block_bytes data_offset placements bytes)
              width
              (data_offset + address block_bytes p)
            ≡ rows p.logical_row)
          placements
  filled-own [] bytes ss sp = tt
  filled-own (p ∷ placements) bytes (s, ss) (behind, sp) =
      let ss' = subst (λ (n : ℕ). All (IsSlot n) placements) (sym (length-with_row p bytes s)) ss in
      let own =
        overwrite-own bytes (rows p.logical_row) (data_offset + address block_bytes p)
          (slot_fits p bytes s) in
      (
        filled-before width (data_offset + address block_bytes p) placements (with_row p bytes) ss'
              (spaced_behind p placements behind)
            ∙ subst
                (λ (n : ℕ).
                  part (with_row p bytes) n (data_offset + address block_bytes p)
                  ≡ rows p.logical_row)
                s.0 own,
        filled-own placements (with_row p bytes) ss' sp,
      )
