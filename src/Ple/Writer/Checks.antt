-- ===== src/Ple/Writer/Checks.antt =====
-- What the writer has checked when it begins with the file.
use gb10x.Prelude.{
  ℕ, ◌+◌, ◌<◌, ◌≡◌, refl, subst, false, List, Result, ok, ◌>>=◌, ◌>>◌, fail_if, ok_or, map_err,
  checked_add, checked_mul, u64_mod, length, arith, >>=-eq-ok, fail_if-eq-ok, map_err-eq-ok,
  ok-injective,
}
use gb10x.Ple.Bytes.{Bytes}
use gb10x.Ple.Format.{
  PlePackError, PlePackIoError, PlePackHeader, format, layout, new as new_header,
}
use gb10x.Ple.Disk.{DiskHeader, IoOutcome, disk_header_bytes, index_entry_bytes, new as new_disk}
use gb10x.Ple.Layout.{LayoutPlan}
use gb10x.Ple.Source.{ExactPleRowSource}
use gb10x.Ple.Writer.{
  Prepared, validate_source_plan, index_entries_of, sort_by_row, any_repeated, payload_of, align_up,
  overlay_storage_bytes, prepare,
}

abbrev pub logical_of :
    (Bytes → Bytes) → ExactPleRowSource → LayoutPlan → Bytes → Result PlePackError PlePackHeader
logical_of sha256 source plan payload =
    new_header source.source_digest source.row_count source.row_bytes plan.block_bytes
      (sha256 payload)

-- The outcome of each step that `prepare` goes through.
pub record IsPrepared (sha256 : Bytes → Bytes) (source : ExactPleRowSource) (plan : LayoutPlan)
    (prepared : Prepared) : Type 0 where
  pub rows : source.row_count ≡ plan.row_count
  pub width : source.row_bytes ≡ plan.row_bytes
  pub unsorted : List (ℕ × ℕ)
  pub built : index_entries_of plan.block_bytes plan.hot_overlay_placements ≡ ok unsorted
  pub sorted : prepared.index_entries ≡ sort_by_row unsorted
  pub unique : any_repeated prepared.index_entries ≡ false
  pub payload : prepared.index_payload ≡ payload_of prepared.index_entries
  pub data_offset : ℕ
  pub aligned : align_up (128 + length prepared.index_payload) plan.block_bytes ≡ ok data_offset
  pub overlay_bytes : ℕ
  pub overlay : overlay_storage_bytes plan ≡ ok overlay_bytes
  pub logical : PlePackHeader
  pub header : logical_of sha256 source plan prepared.index_payload ≡ ok logical
  pub disk :
      new_disk logical
        (length prepared.index_entries)
        (length prepared.index_payload)
        data_offset
        overlay_bytes
      ≡ ok prepared.disk_header
  pub size : prepared.file_bytes ≡ data_offset + overlay_bytes
  pub size_word : data_offset + overlay_bytes < u64_mod

validated :
    (source : ExactPleRowSource) (plan : LayoutPlan)
    → validate_source_plan source plan ≡ ok tt
    → (source.row_count ≡ plan.row_count) × (source.row_bytes ≡ plan.row_bytes)
unfolding validate_source_plan
validated source plan h = ground arith

summed :
    (a b : ℕ) (e : PlePackIoError) {sum : ℕ}
    → ok_or (checked_add a b) e ≡ ok sum
    → (sum ≡ a + b) × (a + b < u64_mod)
summed a b e h = ground arith

module _ (sha256 : Bytes → Bytes) (source : ExactPleRowSource) (plan : LayoutPlan) where
  module _ (entries : List (ℕ × ℕ)) where
    abbrev payload : Bytes
    payload = payload_of entries

    abbrev finish : ℕ → ℕ → DiskHeader → ℕ → IoOutcome Prepared
    finish start overlay disk file_bytes = ok (record {
      index_entries = entries;
      index_payload = payload;
      disk_header = disk;
      file_bytes = file_bytes;
    })

    abbrev measure : ℕ → ℕ → DiskHeader → IoOutcome Prepared
    measure start overlay disk =
        ok_or (checked_add start overlay) (format "sidecar file size overflow")
        >>= finish start overlay disk

    abbrev on_disk : ℕ → ℕ → PlePackHeader → IoOutcome Prepared
    on_disk start overlay logical =
        new_disk logical (length entries) (length payload) start overlay >>= measure start overlay

    abbrev with_overlay : ℕ → ℕ → IoOutcome Prepared
    with_overlay start overlay =
        map_err layout (logical_of sha256 source plan payload) >>= on_disk start overlay

    abbrev with_data : ℕ → IoOutcome Prepared
    with_data start = overlay_storage_bytes plan >>= with_overlay start

    abbrev with_end : ℕ → IoOutcome Prepared
    with_end end = align_up end plan.block_bytes >>= with_data

    abbrev with_capacity : ℕ → IoOutcome Prepared
    with_capacity capacity =
        ok_or (checked_add disk_header_bytes (length payload)) (format "hot index end overflow")
        >>= with_end

    abbrev with_entries : IoOutcome Prepared
    with_entries =
        ok_or (checked_mul (length entries) index_entry_bytes)
          (format "hot index allocation overflow")
        >>= with_capacity

  abbrev with_unsorted : List (ℕ × ℕ) → IoOutcome Prepared
  with_unsorted unsorted =
      fail_if (any_repeated (sort_by_row unsorted))
        (format "hot overlay logical rows are not unique")
      >> with_entries (sort_by_row unsorted)

  pub prepare-IsPrepared :
      {prepared : Prepared}
      → prepare sha256 source plan ≡ ok prepared
      → IsPrepared sha256 source plan prepared
  unfolding prepare
  prepare-IsPrepared {prepared} h =
      let (_, valid, h1) =
        >>=-eq-ok (validate_source_plan source plan)
          (λ _. index_entries_of plan.block_bytes plan.hot_overlay_placements >>= with_unsorted)
          h in
      let (unsorted, built, h2) =
        >>=-eq-ok (index_entries_of plan.block_bytes plan.hot_overlay_placements) with_unsorted
          h1 in
      let es = sort_by_row unsorted in
      let (unique, h3) =
        fail_if-eq-ok (any_repeated es) (format "hot overlay logical rows are not unique")
          (with_entries es) h2 in
      let (capacity, _, h4) =
        >>=-eq-ok
          (ok_or (checked_mul (length es) index_entry_bytes)
            (format "hot index allocation overflow"))
          (with_capacity es) h3 in
      let (end, ended, h5) =
        >>=-eq-ok
          (ok_or (checked_add disk_header_bytes (length (payload es)))
            (format "hot index end overflow"))
          (with_end es) h4 in
      let (start, aligned, h6) = >>=-eq-ok (align_up end plan.block_bytes) (with_data es) h5 in
      let (overlay, stored, h7) =
        >>=-eq-ok (overlay_storage_bytes plan) (with_overlay es start) h6 in
      let (logical, header, h8) =
        >>=-eq-ok (map_err layout (logical_of sha256 source plan (payload es)))
          (on_disk es start overlay) h7 in
      let (disk, made, h9) =
        >>=-eq-ok (new_disk logical (length es) (length (payload es)) start overlay)
          (measure es start overlay) h8 in
      let (size, sum, h10) =
        >>=-eq-ok (ok_or (checked_add start overlay) (format "sidecar file size overflow"))
          (finish es start overlay disk) h9 in
      let (sum', word) = summed start overlay _ sum in
      let end' = (summed disk_header_bytes (length (payload es)) _ ended).0 in
      let (same_rows, same_width) = validated source plan valid in
      subst (IsPrepared sha256 source plan) (ok-injective h10) (record {
        rows = same_rows;
        width = same_width;
        unsorted = unsorted;
        built = built;
        sorted = refl;
        unique = unique;
        payload = refl;
        data_offset = start;
        aligned = subst (λ (n : ℕ). align_up n plan.block_bytes ≡ ok start) end' aligned;
        overlay_bytes = overlay;
        overlay = stored;
        logical = logical;
        header = map_err-eq-ok layout (logical_of sha256 source plan (payload es)) header;
        disk = made;
        size = sum';
        size_word = word;
      })
