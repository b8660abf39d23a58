-- ===== src/Ple/Writer/Headed.antt =====
-- The bytes of the complete sidecar: the header, the index, and the rows where their placements say.
use gb10x.Prelude.{
  ℕ, ◌+◌, ◌-◌, ◌≤◌, ◌≡◌, ◌∙◌, subst, ap, List, [], ◌∷◌, length, length-take, arith, All,
}
use gb10x.Ple.Bytes.{Bytes, zeros}
use gb10x.Ple.Disk.{DiskHeader, encode}
use gb10x.Ple.Disk.Reads.{part}
use gb10x.Ple.Disk.Writes.{length-zeros}
use gb10x.Ple.Disk.RoundTrip.{IsValid, encode-payload, length-payload}
use gb10x.Ple.Layout.{HotOverlayPlacement, LayoutPlan}
use gb10x.Ple.Layout.Placements.{address}
use gb10x.Ple.Files.{overwrite, resized}
use gb10x.Ple.Files.Ranges.{length-overwrite, overwrite-own, overwrite-before}
use gb10x.Ple.Writer.{Prepared}
use gb10x.Ple.Writer.Effects.{headed, sidecar_of}
use gb10x.Ple.Writer.Filled.{AreSpaced, IsSlot, length-filled, filled-before, filled-own}

length-encode : (h : DiskHeader) → IsValid h → length (encode h) ≡ 128
length-encode h valid = ap length (encode-payload h valid) ∙ length-payload h valid

module _ (prepared : Prepared) (valid : IsValid prepared.disk_header)
    (room : 128 + length prepared.index_payload ≤ prepared.disk_header.data_offset)
    (size : prepared.file_bytes
      ≡ prepared.disk_header.data_offset + prepared.disk_header.overlay_bytes) where
  abbrev blank : Bytes
  blank = resized prepared.file_bytes []

  length-blank : length blank ≡ prepared.file_bytes
  length-blank = omega (
    arith,
    length-take prepared.file_bytes (zeros (prepared.file_bytes - 0)),
    length-zeros (prepared.file_bytes - 0),
  )

  abbrev header : Bytes
  header = encode prepared.disk_header

  header_fits : 0 + length header ≤ length blank
  header_fits = omega (arith, length-blank, length-encode prepared.disk_header valid, room, size)

  index_fits : 128 + length prepared.index_payload ≤ length (overwrite blank 0 header)
  index_fits = omega (arith, length-overwrite blank header 0 header_fits, length-blank, room, size)

  length-headed : length (headed prepared) ≡ prepared.file_bytes
  length-headed =
      length-overwrite (overwrite blank 0 header) prepared.index_payload 128 index_fits
      ∙ length-overwrite blank header 0 header_fits
      ∙ length-blank

  headed_header : part (headed prepared) 128 0 ≡ header
  headed_header =
      let own = overwrite-own blank header 0 header_fits in
      overwrite-before (overwrite blank 0 header) prepared.index_payload 128 index_fits 128 0
        (omega arith)
      ∙ subst (λ (n : ℕ). part (overwrite blank 0 header) n 0 ≡ header)
          (length-encode prepared.disk_header valid) own

  headed_index : part (headed prepared) (length prepared.index_payload) 128 ≡ prepared.index_payload
  headed_index = overwrite-own (overwrite blank 0 header) prepared.index_payload 128 index_fits

  module _ (rows : ℕ → Bytes) (plan : LayoutPlan)
      (spaced : AreSpaced plan.block_bytes plan.row_bytes plan.hot_overlay_placements)
      (widths : All (λ p. length (rows p.logical_row) ≡ plan.row_bytes) plan.hot_overlay_placements)
      (stored : All
        (λ p. address plan.block_bytes p + plan.row_bytes ≤ prepared.disk_header.overlay_bytes)
        plan.hot_overlay_placements) where
    abbrev complete : Bytes
    complete = sidecar_of rows plan prepared

    abbrev start : ℕ
    start = prepared.disk_header.data_offset

    slots_of :
        (placements : List HotOverlayPlacement)
        → All (λ p. length (rows p.logical_row) ≡ plan.row_bytes) placements
        → All
            (λ p. address plan.block_bytes p + plan.row_bytes ≤ prepared.disk_header.overlay_bytes)
            placements
        → All
            (IsSlot rows plan.block_bytes start plan.row_bytes (length (headed prepared)))
            placements
    slots_of [] ws ss = tt
    slots_of (p ∷ placements) (w, ws) (s, ss) =
        ((w, omega (arith, length-headed, size, s)), slots_of placements ws ss)

    slots :
        All
          (IsSlot rows plan.block_bytes start plan.row_bytes (length (headed prepared)))
          plan.hot_overlay_placements
    slots = slots_of plan.hot_overlay_placements widths stored

    behind :
        (placements : List HotOverlayPlacement) (n : ℕ)
        → n ≤ start
        → All (λ p. n ≤ start + address plan.block_bytes p) placements
    behind [] n h = tt
    behind (p ∷ placements) n h = (omega (arith, h), behind placements n h)

    pub length-sidecar_of : length complete ≡ prepared.file_bytes
    length-sidecar_of =
        length-filled rows plan.block_bytes start plan.row_bytes plan.hot_overlay_placements
          (headed prepared) slots
        ∙ length-headed

    kept_front :
        (n offset : ℕ)
        → offset + n ≤ start
        → part complete n offset ≡ part (headed prepared) n offset
    kept_front n offset h =
        filled-before rows plan.block_bytes start plan.row_bytes n offset
          plan.hot_overlay_placements (headed prepared) slots
          (behind plan.hot_overlay_placements (offset + n) h)

    pub sidecar_of-header : part complete 128 0 ≡ encode prepared.disk_header
    sidecar_of-header = kept_front 128 0 (omega (arith, room)) ∙ headed_header

    pub sidecar_of-index :
        part complete (length prepared.index_payload) 128 ≡ prepared.index_payload
    sidecar_of-index = kept_front (length prepared.index_payload) 128 room ∙ headed_index

    pub sidecar_of-rows :
        All
          (λ p.
            part complete plan.row_bytes (start + address plan.block_bytes p) ≡ rows p.logical_row)
          plan.hot_overlay_placements
    sidecar_of-rows =
        filled-own rows plan.block_bytes start plan.row_bytes plan.hot_overlay_placements
          (headed prepared) slots spaced
