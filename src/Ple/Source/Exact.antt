-- ===== src/Ple/Source/Exact.antt =====
-- An opened flat source gives every row, and the rows tile the file.
use gb10x.Prelude.{
  ℕ, ◌+◌, ◌*◌, ◌/◌, ◌%◌, ◌-◌, ◌≤◌, ◌<◌, ◌≡◌, ◌↔◌, ◌∙◌, ap, refl, sym, true, false, ok, err,
  ok-injective, u32_mod, u64_mod, ltb, leb, ◌==◌, length, take, drop, arith, if◌then◌else◌,
  Bool-cases, inl, inr,
}
use gb10x.Ple.Bytes.{Bytes}
use gb10x.Ple.Format.{layout, logical_row_out_of_range, row_buffer_width}
use gb10x.Ple.Source.{RawFileRowSource, open_source, read_source_row}

-- The rows fill the mapping exactly.
abbrev pub IsTiledBy : RawFileRowSource → Type 0
IsTiledBy s =
    (s.row_count * s.row_bytes ≡ length s.mmap)
    × (length s.mmap < u64_mod)
    × (s.row_count ≤ u32_mod)

pub row_within : (row count width : ℕ) → row < count → row * width + width ≤ count * width
row_within row count width h = grind arith

-- From a source whose rows fill a mapping of u64 length, every row in range is read into a buffer of
-- the row width, byte for byte; a row out of range and a buffer of another width are refused.
pub read_source_row_total :
    (s : RawFileRowSource)
    → IsTiledBy s
    → (row : ℕ) (dst : Bytes)
    → read_source_row s row dst ≡ (
        if leb s.row_count row
        then err (layout (logical_row_out_of_range row s.row_count))
        else if length dst == s.row_bytes
        then ok (take s.row_bytes (drop (row * s.row_bytes) s.mmap))
        else err (row_buffer_width s.row_bytes (length dst)))
unfolding read_source_row
read_source_row_total s (tiled, short, few) row dst = elim (Bool-cases (leb s.row_count row)) [
  | inl out ↦ rw out refl
  | inr inside ↦ elim (Bool-cases (length dst == s.row_bytes)) [
    | inr other ↦ rw (inside, other) refl
    | inl same ↦
        let within = row_within row s.row_count s.row_bytes (ground arith) in
        let a : ltb (row * s.row_bytes) u64_mod ≡ true = ground arith in
        let b : ltb (row * s.row_bytes + s.row_bytes) u64_mod ≡ true = ground arith in
        let c : leb (row * s.row_bytes) (row * s.row_bytes + s.row_bytes) ≡ true = ground arith in
        let d : leb (row * s.row_bytes + s.row_bytes) (length s.mmap) ≡ true = ground arith in
        let e : row * s.row_bytes + s.row_bytes - row * s.row_bytes ≡ s.row_bytes = omega arith in
        rw (inside, same, a, b, c, d, e) refl
  ]
]

abbrev pub source_of : (Bytes → Bytes) → Bytes → ℕ → RawFileRowSource
source_of sha256 file row_bytes = record {
  mmap = file;
  row_count = length file / row_bytes;
  row_bytes = row_bytes;
  digest = sha256 file;
}

-- The width divides the length of a nonempty file, and the quotient fits the row identifiers.
abbrev pub HasRows : Bytes → ℕ → Type 0
HasRows file row_bytes =
    (0 < row_bytes)
    × (0 < length file)
    × (length file / row_bytes * row_bytes ≡ length file)
    × (length file / row_bytes ≤ u32_mod)

opened_checks :
    (sha256 : Bytes → Bytes) (file : Bytes) (row_bytes : ℕ) {s : RawFileRowSource}
    → open_source sha256 (ok file) row_bytes ≡ ok s
    → HasRows file row_bytes
unfolding open_source
opened_checks sha256 file row_bytes h = ground arith

opened :
    (sha256 : Bytes → Bytes) (file : Bytes) (row_bytes : ℕ)
    → HasRows file row_bytes
    → open_source sha256 (ok file) row_bytes ≡ ok (source_of sha256 file row_bytes)
unfolding open_source
opened sha256 file row_bytes (a, b, c, d) =
    let wide : (row_bytes == 0) ≡ false = ground arith in
    let filled : (length file == 0) ≡ false = ground arith in
    let whole : (length file % row_bytes == 0) ≡ true = ground arith in
    let fits : ltb u32_mod (length file / row_bytes) ≡ false = ground arith in
    rw (wide, filled, whole, fits) refl

-- A file whose contents are read opens exactly when its length is a nonzero number of rows that fits
-- u32 row identifiers; the source then holds the contents, their digest and the number of rows.
pub open_source_iff :
    (sha256 : Bytes → Bytes) (file : Bytes) (row_bytes : ℕ) (s : RawFileRowSource)
    → (open_source sha256 (ok file) row_bytes ≡ ok s)
      ↔ ((s ≡ source_of sha256 file row_bytes) × HasRows file row_bytes)
open_source_iff sha256 file row_bytes s = (
  λ h.
      let checked = opened_checks sha256 file row_bytes h in
      (ok-injective (sym h ∙ opened sha256 file row_bytes checked), checked),
  λ (e, checked). opened sha256 file row_bytes checked ∙ ap ok (sym e),
)
