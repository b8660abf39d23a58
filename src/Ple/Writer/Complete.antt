-- ===== src/Ple/Writer/Complete.antt =====
-- The complete sidecar is one that the reader accepts.
use gb10x.Prelude.{
  ℕ, ◌+◌, ◌%◌, ◌≤◌, ◌<◌, ◌≡◌, ◌∙◌, refl, sym, subst, ap, List, [], ◌∷◌, ok, u64_mod, length, arith,
  All, take, take-append-drop, drop, ◌++◌,
}
use gb10x.Ple.Bytes.{Bytes}
use gb10x.Ple.Format.{PlePackHeader, IsGeometry, header_of, header_new_iff}
use gb10x.Ple.Disk.{DiskHeader, decode, encode}
use gb10x.Ple.Disk.Reads.{part}
use gb10x.Ple.Disk.RoundTrip.{IsValid, decode-encode}
use gb10x.Ple.Disk.Canonical.{new_checks}
use gb10x.Ple.Layout.{HotOverlayPlacement, LayoutPlan}
use gb10x.Ple.Layout.Placements.{address}
use gb10x.Ple.Source.{ExactPleRowSource}
use gb10x.Ple.Reader.Index.{Entry, IsEntry, IsIndex}
use gb10x.Ple.Reader.Reads.{IsExact}
use gb10x.Ple.Reader.Open.{IsPack}
use gb10x.Ple.Writer.{Prepared}
use gb10x.Ple.Writer.Checks.{IsPrepared}
use gb10x.Ple.Writer.Entries.{
  entry_of, index_entries_of-map, sort_by_row-All, All-entry_of, any_repeated-AreAscending,
  length-payload_of, HasEntryWords, payload_of-AreDecoded,
}
use gb10x.Ple.Writer.LaidOut.{IsLaidOut, IsInBlock, overlay_storage_bytes-holds, address_offset}
use gb10x.Ple.Writer.Effects.{sidecar_of}
use gb10x.Ple.Writer.Headed.{
  length-sidecar_of, sidecar_of-header, sidecar_of-index, sidecar_of-rows,
}

All-both :
    {A : Type 0} (P Q R : A → Type 0) (xs : List A)
    → ((x : A) → P x → Q x → R x)
    → All P xs
    → All Q xs
    → All R xs
All-both P Q R [] f ps qs = tt
All-both P Q R (x ∷ xs) f (p, ps) (q, qs) = (f x p q, All-both P Q R xs f ps qs)

module _ (sha256 : Bytes → Bytes) (sha256_width : (b : Bytes) → length (sha256 b) ≡ 32)
    (source : ExactPleRowSource) (digest_width : length source.source_digest ≡ 32)
    (rows : ℕ → Bytes) (exact : IsExact source rows) (plan : LayoutPlan) (laid : IsLaidOut plan)
    (prepared : Prepared) (w : IsPrepared sha256 source plan prepared) where
  abbrev disk : DiskHeader
  disk = prepared.disk_header

  abbrev entries : List Entry
  entries = prepared.index_entries

  geometry : IsGeometry source.row_count source.row_bytes plan.block_bytes
  geometry = ((header_new_iff _ _ _ _ _ w.logical).0 w.header).0

  logical :
      w.logical
      ≡ header_of source.source_digest source.row_count source.row_bytes plan.block_bytes
          (sha256 prepared.index_payload)
  logical = ((header_new_iff _ _ _ _ _ w.logical).0 w.header).1

  block_positive : 0 < w.logical.block_bytes
  block_positive =
      subst (λ (h : PlePackHeader). 0 < h.block_bytes) (sym logical)
        (omega (arith, geometry.width, geometry.block))

  -- The header that the writer encodes.
  disk_fields : disk ≡ record {
    logical =
        header_of source.source_digest source.row_count source.row_bytes plan.block_bytes
          (sha256 prepared.index_payload);
    hot_row_count = length entries;
    index_bytes = length prepared.index_payload;
    data_offset = w.data_offset;
    overlay_bytes = w.overlay_bytes;
  }
  disk_fields =
      let (e, _, _, _, _) =
        new_checks w.logical (length entries) (length prepared.index_payload) w.data_offset
          w.overlay_bytes w.disk in
      e
      ∙ ap
          (λ (l : PlePackHeader). record {
            logical = l;
            hot_row_count = length entries;
            index_bytes = length prepared.index_payload;
            data_offset = w.data_offset;
            overlay_bytes = w.overlay_bytes;
          })
          logical

  pub valid : IsValid disk
  valid =
      let (_, index, behind, data_aligned, overlay_aligned) =
        new_checks w.logical (length entries) (length prepared.index_payload) w.data_offset
          w.overlay_bytes w.disk in
      let word = w.size_word in
      let block : w.logical.block_bytes ≡ plan.block_bytes =
        ap (λ (h : PlePackHeader). h.block_bytes) logical in
      subst IsValid (sym disk_fields) (record {
        magic = refl;
        version = refl;
        geometry = geometry;
        source_digest = digest_width;
        index_digest = sha256_width prepared.index_payload;
        block_word = laid.block_word;
        index = index;
        behind = behind;
        data_word = omega (arith, word);
        overlay_word = omega (arith, word);
        data_aligned = rw block at (data_aligned block_positive);
        overlay_aligned = rw block at (overlay_aligned block_positive);
      })

  abbrev data_offset : ℕ
  data_offset = disk.data_offset

  starts : disk.data_offset ≡ w.data_offset
  starts = ap (λ (d : DiskHeader). d.data_offset) disk_fields

  holds : disk.overlay_bytes ≡ w.overlay_bytes
  holds = ap (λ (d : DiskHeader). d.overlay_bytes) disk_fields

  indexed : disk.index_bytes ≡ length prepared.index_payload
  indexed = ap (λ (d : DiskHeader). d.index_bytes) disk_fields

  pub row_width : disk.logical.row_bytes ≡ plan.row_bytes
  row_width = ap (λ (d : DiskHeader). d.logical.row_bytes) disk_fields ∙ w.width

  room : 128 + length prepared.index_payload ≤ disk.data_offset
  room = omega (arith, valid.behind, indexed)

  size : prepared.file_bytes ≡ disk.data_offset + disk.overlay_bytes
  size = omega (arith, w.size, starts, holds)

  stored :
      All
        (λ p. address plan.block_bytes p + plan.row_bytes ≤ disk.overlay_bytes)
        plan.hot_overlay_placements
  stored =
      subst
        (λ (n : ℕ).
          All (λ p. address plan.block_bytes p + plan.row_bytes ≤ n) plan.hot_overlay_placements)
        (sym holds) (overlay_storage_bytes-holds plan laid w.overlay)

  widths : All (λ p. length (rows p.logical_row) ≡ plan.row_bytes) plan.hot_overlay_placements
  widths =
      All-both (IsInBlock plan) (IsInBlock plan) (λ p. length (rows p.logical_row) ≡ plan.row_bytes)
        plan.hot_overlay_placements
        (λ p (inside, _) _. exact.width p.logical_row (omega (arith, inside, w.rows)) ∙ w.width)
        laid.in_blocks laid.in_blocks

  -- What holds of the entry of each placement holds of each entry.
  pub of_placements :
      (P : Entry → Type 0)
      → All (λ p. P (entry_of plan.block_bytes p)) plan.hot_overlay_placements
      → All P entries
  of_placements P ps =
      let (mapped, _) = index_entries_of-map plan.block_bytes plan.hot_overlay_placements w.built in
      subst (All P) (sym w.sorted) (
        sort_by_row-All P w.unsorted (
          subst (All P) (sym mapped)
            (All-entry_of P plan.block_bytes plan.hot_overlay_placements ps)))

  -- Every row is one of the source, and its place in the file a u64.
  pub placements_writable :
      All
        (λ p.
          (p.logical_row < source.row_count)
          × (disk.data_offset + address plan.block_bytes p < u64_mod))
        plan.hot_overlay_placements
  placements_writable =
      All-both (IsInBlock plan)
        (λ p. address plan.block_bytes p + plan.row_bytes ≤ disk.overlay_bytes)
        (λ p.
          (p.logical_row < source.row_count)
          × (disk.data_offset + address plan.block_bytes p < u64_mod))
        plan.hot_overlay_placements
        (λ p (inside, _) end. (
          omega (arith, inside, w.rows),
          omega (arith, end, starts, holds, w.size_word, geometry.width, w.width),
        ))
        laid.in_blocks stored

  entry_words : All HasEntryWords entries
  entry_words =
      let (_, words) = index_entries_of-map plan.block_bytes plan.hot_overlay_placements w.built in
      of_placements HasEntryWords (
        All-both (IsInBlock plan) (λ p. address plan.block_bytes p < u64_mod)
          (λ p. HasEntryWords (entry_of plan.block_bytes p)) plan.hot_overlay_placements
          (λ p (inside, _) word. (omega (arith, inside, w.rows, geometry.addressable), word))
          laid.in_blocks words)

  entry_of-IsEntry :
      (p : HotOverlayPlacement)
      → IsInBlock plan p
      → address plan.block_bytes p + plan.row_bytes ≤ disk.overlay_bytes
      → IsEntry disk (entry_of plan.block_bytes p)
  entry_of-IsEntry p (row, block) end =
      let at = address_offset plan.block_bytes p (omega (arith, block, w.width, geometry.width)) in
      let same_block : disk.logical.block_bytes ≡ plan.block_bytes =
        ap (λ (d : DiskHeader). d.logical.block_bytes) disk_fields in
      let same_rows : disk.logical.row_count ≡ source.row_count =
        ap (λ (d : DiskHeader). d.logical.row_count) disk_fields in
      (
        omega (arith, row, w.rows, same_rows),
        omega (arith, end, row_width),
        subst (λ (b : ℕ). address plan.block_bytes p % b + disk.logical.row_bytes ≤ b)
            (sym same_block) (omega (arith, at, block, row_width)),
      )

  entries-IsIndex : IsIndex disk prepared.index_payload entries
  entries-IsIndex = record {
    size = ap length w.payload ∙ length-payload_of entries;
    decoded = rw w.payload (payload_of-AreDecoded entries entry_words);
    ascending = any_repeated-AreAscending entries w.unique;
    inside = of_placements (IsEntry disk) (
        All-both (IsInBlock plan)
          (λ p. address plan.block_bytes p + plan.row_bytes ≤ disk.overlay_bytes)
          (λ p. IsEntry disk (entry_of plan.block_bytes p)) plan.hot_overlay_placements
          entry_of-IsEntry laid.in_blocks stored);
  }

  abbrev pub complete : Bytes
  complete = sidecar_of rows plan prepared

  pub length-complete : length complete ≡ prepared.file_bytes
  length-complete = length-sidecar_of prepared valid room size rows plan laid.spaced widths stored

  pub complete_short : length complete < u64_mod
  complete_short = omega (
    arith,
    length-sidecar_of prepared valid room size rows plan laid.spaced widths stored,
    w.size,
    w.size_word,
  )

  pub complete-decode : decode complete ≡ ok disk
  complete-decode =
      let front : take 128 complete ≡ encode disk =
        sidecar_of-header prepared valid room size rows plan laid.spaced widths stored in
      ap decode
        (sym (take-append-drop 128 complete) ∙ ap (λ (b : Bytes). b ++ drop 128 complete) front)
      ∙ decode-encode disk valid (drop 128 complete)

  found_index : part complete disk.index_bytes 128 ≡ prepared.index_payload
  found_index =
      subst (λ (n : ℕ). part complete n 128 ≡ prepared.index_payload) (sym indexed)
        (sidecar_of-index prepared valid room size rows plan laid.spaced widths stored)

  pub complete-IsPack : IsPack sha256 source complete disk entries
  complete-IsPack = record {
    source_digest = ap (λ (d : DiskHeader). d.logical.source_digest) disk_fields;
    row_count = ap (λ (d : DiskHeader). d.logical.row_count) disk_fields;
    row_bytes = ap (λ (d : DiskHeader). d.logical.row_bytes) disk_fields;
    size =
        sym (length-sidecar_of prepared valid room size rows plan laid.spaced widths stored ∙ size);
    index_digest =
        ap sha256 found_index ∙ sym (ap (λ (d : DiskHeader). d.logical.index_digest) disk_fields);
    count = sym (ap (λ (d : DiskHeader). d.hot_row_count) disk_fields);
    index = subst (λ (b : Bytes). IsIndex disk b entries) (sym found_index) entries-IsIndex;
  }

  -- Every entry of the index stores its row of the source.
  pub complete-copies :
      All
        (λ (e : Entry). part complete disk.logical.row_bytes (disk.data_offset + e.1) ≡ rows e.0)
        entries
  complete-copies =
      of_placements
        (λ (e : Entry). part complete disk.logical.row_bytes (disk.data_offset + e.1) ≡ rows e.0)
        (subst
          (λ (n : ℕ).
            All
              (λ p.
                part complete n (disk.data_offset + address plan.block_bytes p)
                ≡ rows p.logical_row)
              plan.hot_overlay_placements)
          (sym row_width)
          (sidecar_of-rows prepared valid room size rows plan laid.spaced widths stored))
