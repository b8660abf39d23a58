-- ===== src/Ple/Reader/Reads.antt =====
-- What a well-formed reader reads, and what its verification tells.
use gb10x.Prelude.{
  ℕ, zero, suc, ◌+◌, ◌<◌, ◌≡◌, refl, subst, ap₂, none, some, List, [], ◌∷◌, ok, err, u64_mod, leb,
  ◌==◌, length, get_elem?, arith, All, if◌then◌else◌, Bool-cases, inl, inr, lt→ltb, le→ltb, ==_iff,
  Option-cases,
}
use gb10x.Ple.Bytes.{Bytes}
use gb10x.Ple.Format.{layout, logical_row_out_of_range, row_buffer_width}
use gb10x.Ple.Disk.{IoOutcome}
use gb10x.Ple.Disk.Reads.{part, range_in}
use gb10x.Ple.Source.{ExactPleRowSource}
use gb10x.Ple.Reader.{
  PlePackReader, OverlayContext, overlay, overlay_row, read_or_fall_back, read_exact_row,
}
use gb10x.Ple.Reader.Index.{Entry, IsEntryOf}
use gb10x.Ple.Reader.Entries.{IsReader, lookup}
use gb10x.Ple.Reader.Search.{find_overlay_offset-lookup}

-- An exact source: each row in range is read byte for byte into a buffer of the row width, as the
-- trait documents. The trait leaves the refusals open; here they are those of `RawFileRowSource`: any
-- other row is refused as out of range, and any other buffer by its width.
pub record IsExact (s : ExactPleRowSource) (rows : ℕ → Bytes) : Type 0 where
  pub width : (row : ℕ) → row < s.row_count → length (rows row) ≡ s.row_bytes
  pub read :
      (row : ℕ) (dst : Bytes)
      → s.read_exact_row row dst ≡ (
          if leb s.row_count row
          then err (layout (logical_row_out_of_range row s.row_count))
          else if length dst == s.row_bytes
          then ok (rows row)
          else err (row_buffer_width s.row_bytes (length dst)))

-- The bytes that the overlay stores at an offset.
abbrev pub stored : PlePackReader → ℕ → Bytes
stored r offset = part r.mmap r.header.row_bytes (r.data_offset + offset)

abbrev pub spec_read : PlePackReader → List Entry → ℕ → Bytes → IoOutcome Bytes
spec_read r entries row dst =
    if leb r.header.row_count row
    then err (layout (logical_row_out_of_range row r.header.row_count))
    else if length dst == r.header.row_bytes
    then elim (lookup row entries) [
      | none ↦ r.source.read_exact_row row dst
      | some offset ↦ ok (stored r offset)
    ]
    else err (row_buffer_width r.header.row_bytes (length dst))

pub lookup_inside :
    (P : Entry → Type 0) (row : ℕ) (entries : List Entry) {offset : ℕ}
    → All P entries
    → lookup row entries ≡ some offset
    → P (row, offset)
lookup_inside P row [] ps h = cc
lookup_inside P row (e ∷ entries) {offset} (p, ps) h = elim (Bool-cases (e.0 == row)) [
  | inl same ↦
      let a : e.0 ≡ row = (==_iff e.0 row).0 same in
      let b : e.1 ≡ offset = ground arith in subst P (ap₂ (λ (x y : ℕ). (x, y)) a b) p
  | inr other ↦ lookup_inside P row entries ps (ground arith)
]

module _ (r : PlePackReader) (entries : List Entry) (w : IsReader r entries) where
  pub overlay_row_in :
      (row offset : ℕ) (context : OverlayContext)
      → IsEntryOf r.header r.overlay_bytes (row, offset)
      → overlay_row r offset context ≡ ok (stored r offset)
  unfolding overlay_row
  overlay_row_in row offset context (_, inside, _) =
      let size = w.size in
      let short = w.short in
      let a = lt→ltb (offset + r.header.row_bytes) u64_mod (omega arith) in
      let b = le→ltb r.overlay_bytes (offset + r.header.row_bytes) inside in
      let c = lt→ltb (r.data_offset + offset) u64_mod (omega arith) in
      let d = lt→ltb (r.data_offset + offset + r.header.row_bytes) u64_mod (omega arith) in
      let here =
        range_in r.mmap r.header.row_bytes (r.data_offset + offset)
          (r.data_offset + offset + r.header.row_bytes) refl (omega arith) in
      rw (a, b, c, d, here) refl

  -- A well-formed reader always returns: a row out of range and a buffer of another width are refused,
  -- a row of the index gives the bytes that the overlay stores for it, and any other the source's.
  pub read_exact_row_total :
      (row : ℕ) (dst : Bytes) → read_exact_row r row dst ≡ spec_read r entries row dst
  unfolding read_exact_row read_or_fall_back
  read_exact_row_total row dst =
      let found = find_overlay_offset-lookup r entries w row in
      elim (Bool-cases (leb r.header.row_count row)) [
        | inl out ↦ rw out refl
        | inr within ↦ elim (Bool-cases (length dst == r.header.row_bytes)) [
          | inr misfit ↦ rw (within, misfit) refl
          | inl fits ↦ elim (Option-cases (lookup row entries)) [
            | inl absent ↦ rw (within, fits, found, absent) refl
            | inr (offset, present) ↦
                let inside =
                  lookup_inside (IsEntryOf r.header r.overlay_bytes) row entries w.inside present in
                rw (within, fits, found, present) (overlay_row_in row offset overlay inside)
          ]
        ]
      ]

pub All_at :
    (P : Entry → Type 0) (entries : List Entry) (i : ℕ) {e : Entry}
    → All P entries
    → get_elem? entries i ≡ some e
    → P e
All_at P [] i ps h = cc
All_at P (d ∷ entries) zero {e} (p, ps) h = let same : d ≡ e = ground arith in subst P same p
All_at P (d ∷ entries) (suc i) (p, ps) h = All_at P entries i ps h
