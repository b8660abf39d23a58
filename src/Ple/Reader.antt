-- ===== src/Ple/Reader.antt =====
-- crates/gb10x-ple/src/reader.rs: the reader of a sidecar. The contents of the mapped file, or the
-- error of opening it, and the SHA-256 digest are arguments. A u64 fits a usize, so those conversions
-- have no error here.
pub mod Index
pub mod Entries
pub mod Search
pub mod Reads
pub mod Verify
pub mod Open
pub mod Flat
pub mod Tests
use gb10x.Prelude.{
  ℕ, zero, suc, ◌+◌, ◌-◌, ◌*◌, ◌/◌, ◌%◌, Bool, true, false, not, Option, none, some, List, String,
  Result, ok, err, panic, ◌>>=◌, ◌>>◌, fail_if, ok_or, checked_add, checked_mul, plain_rem, length,
  ltb, leb, ◌==◌, if◌then◌else◌,
}
use Prim.Native.Nat.{compare, Ordering}
use gb10x.Ple.Bytes.{Bytes, get_range, zeros}
use gb10x.Ple.Format.{
  PlePackHeader, format, layout, logical_row_out_of_range, row_buffer_width, source_digest_mismatch,
  index_digest_mismatch, overlay_data_mismatch,
}
use gb10x.Ple.Disk.{
  DiskHeader, IoOutcome, disk_header_bytes, index_entry_bytes, decode, decode_index_entry, slice_of,
  equal_bytes,
}
use gb10x.Ple.Source.{ExactPleRowSource}

pub record PlePackReader : Type 0 where
  pub mmap : Bytes
  pub source : ExactPleRowSource
  pub header : PlePackHeader
  pub hot_row_count : ℕ
  pub index_offset : ℕ
  pub data_offset : ℕ
  pub overlay_bytes : ℕ

-- `previous_row.is_some_and(|previous| previous >= logical_row)`
unfoldable pub is_not_after : Option ℕ → ℕ → Bool
is_not_after none logical_row = false
is_not_after (some previous) logical_row = leb logical_row previous

-- What the scan checks of one decoded entry.
unfoldable pub check_entry : DiskHeader → Option ℕ → ℕ → ℕ → IoOutcome (Unit {0})
check_entry disk previous_row logical_row overlay_offset = do
  fail_if (leb disk.logical.row_count logical_row)
      (format "hot index contains logical row outside source")
  fail_if (is_not_after previous_row logical_row)
      (format "hot index logical rows are not strictly sorted")
  row_end ←
      ok_or (checked_add overlay_offset disk.logical.row_bytes)
        (format "hot index row end overflow")
  fail_if (ltb disk.overlay_bytes row_end) (format "hot index row exceeds overlay data region")
  offset_in_block ← plain_rem overlay_offset disk.logical.block_bytes
  block_end ←
      ok_or (checked_add offset_in_block disk.logical.row_bytes)
        (format "hot index block boundary overflow")
  fail_if (ltb disk.logical.block_bytes block_end)
      (format "hot index row crosses overlay block boundary")

-- The loop `for ordinal in 0..hot_row_count`, over the rounds that are left.
unfoldable pub scan_index : Bytes → DiskHeader → ℕ → ℕ → Option ℕ → IoOutcome (Unit {0})
scan_index index disk zero ordinal previous_row = ok tt
scan_index index disk (suc rounds) ordinal previous_row = do
  start ← ok_or (checked_mul ordinal index_entry_bytes) (format "hot index scan offset overflow")
  end ← ok_or (checked_add start index_entry_bytes) (format "hot index scan end overflow")
  slice ← slice_of index start end
  entry ← decode_index_entry slice
  check_entry disk previous_row entry.0 entry.1
  scan_index index disk rounds (ordinal + 1) (some entry.0)

unfoldable pub validate_index : Bytes → ℕ → DiskHeader → IoOutcome (Unit {0})
validate_index index hot_row_count disk = do
  expected_bytes ←
      ok_or (checked_mul hot_row_count index_entry_bytes)
        (format "hot index validation size overflow")
  fail_if (not (length index == expected_bytes))
      (format "hot index length does not match row count")
  scan_index index disk hot_row_count 0 none

unfoldable pub open_pack :
    (Bytes → Bytes) → IoOutcome Bytes → ExactPleRowSource → IoOutcome PlePackReader
open_pack sha256 contents source = do
  mmap ← contents
  disk ← decode mmap
  fail_if (not (equal_bytes disk.logical.source_digest source.source_digest)) source_digest_mismatch
  fail_if (not (disk.logical.row_count == source.row_count))
      (format "sidecar/source logical row counts differ")
  fail_if (not (disk.logical.row_bytes == source.row_bytes))
      (format "sidecar/source logical row widths differ")
  expected_file_bytes ←
      ok_or (checked_add disk.data_offset disk.overlay_bytes)
        (format "sidecar file length overflow")
  fail_if (not (length mmap == expected_file_bytes))
      (format "sidecar file length does not match header")
  index_end ←
      ok_or (checked_add disk_header_bytes disk.index_bytes) (format "index end does not fit usize")
  index ←
      ok_or (get_range mmap disk_header_bytes index_end) (format "hot index lies outside sidecar")
  fail_if (not (equal_bytes (sha256 index) disk.logical.index_digest)) index_digest_mismatch
  validate_index index disk.hot_row_count disk
  ok (record {
    mmap = mmap;
    source = source;
    header = disk.logical;
    hot_row_count = disk.hot_row_count;
    index_offset = disk_header_bytes;
    data_offset = disk.data_offset;
    overlay_bytes = disk.overlay_bytes;
  })

unfoldable pub index_entry : PlePackReader → ℕ → IoOutcome (ℕ × ℕ)
index_entry r ordinal = do
  fail_if (leb r.hot_row_count ordinal) (format "hot index ordinal out of range")
  offset ← ok_or (checked_mul ordinal index_entry_bytes) (format "hot index entry offset overflow")
  byte_offset ← ok_or (checked_add r.index_offset offset) (format "hot index entry offset overflow")
  end ← ok_or (checked_add byte_offset index_entry_bytes) (format "hot index entry end overflow")
  bytes ← ok_or (get_range r.mmap byte_offset end) (format "hot index entry outside sidecar")
  decode_index_entry bytes

-- The loop `while low < high`, on fuel; without fuel the model gets stuck, which `panic` stands for.
-- The middle lies below `high`, so that no sum overflows.
unfoldable pub search_index : PlePackReader → ℕ → ℕ → ℕ → ℕ → IoOutcome (Option ℕ)
search_index r logical_row zero low high = panic
search_index r logical_row (suc fuel) low high = elim (ltb low high) [
  | false ↦ ok none
  | true ↦
      let middle = low + (high - low) / 2 in
      index_entry r middle >>= λ entry. elim (compare entry.0 logical_row) [
        | Ordering.lt ↦ search_index r logical_row fuel (middle + 1) high
        | Ordering.gt ↦ search_index r logical_row fuel low middle
        | Ordering.eq ↦ ok (some entry.1)
      ]
]

unfoldable pub find_overlay_offset : PlePackReader → ℕ → IoOutcome (Option ℕ)
find_overlay_offset r logical_row =
    search_index r logical_row (suc r.hot_row_count) 0 r.hot_row_count

-- `.ok().flatten().is_some()`
unfoldable pub is_found : IoOutcome (Option ℕ) → Bool
is_found (ok (some offset)) = true
is_found _ = false

unfoldable pub has_hot_overlay : PlePackReader → ℕ → Bool
has_hot_overlay r logical_row = is_found (find_overlay_offset r logical_row)

-- The context of a read of the overlay, which chooses the texts of its errors.
pub data OverlayContext : Type 0 where
  overlay_verification overlay : OverlayContext

unfoldable pub text_in : OverlayContext → String → String → String
text_in overlay_verification verifying reading = verifying
text_in overlay verifying reading = reading

unfoldable pub overlay_row : PlePackReader → ℕ → OverlayContext → IoOutcome Bytes
overlay_row r overlay_offset context = do
  relative_end ←
      ok_or (checked_add overlay_offset r.header.row_bytes) (
        format (text_in context "overlay verification row end overflow" "overlay row end overflow"))
  fail_if (ltb r.overlay_bytes relative_end) (
      format (
        text_in context "overlay verification row exceeds data region"
          "overlay row exceeds verified data region"))
  start ← ok_or (checked_add r.data_offset overlay_offset) (
      format (
        text_in context "overlay verification absolute offset overflow"
          "overlay absolute row offset overflow"))
  end ← ok_or (checked_add start r.header.row_bytes) (
      format (
        text_in context "overlay verification slice end overflow" "overlay row slice end overflow"))
  ok_or (get_range r.mmap start end) (
      format (
        text_in context "overlay verification row lies outside sidecar"
          "overlay row lies outside sidecar"))

-- The loop of `verify_hot_overlay`, over the rounds that are left, with the buffer that it reuses.
unfoldable pub verify_rows : PlePackReader → ℕ → ℕ → Bytes → IoOutcome (Unit {0})
verify_rows r zero ordinal expected = ok tt
verify_rows r (suc rounds) ordinal expected = do
  entry ← index_entry r ordinal
  row ← r.source.read_exact_row entry.0 expected
  actual ← overlay_row r entry.1 overlay_verification
  fail_if (not (equal_bytes actual row)) (overlay_data_mismatch entry.0)
  verify_rows r rounds (ordinal + 1) row

unfoldable pub verify_hot_overlay : PlePackReader → IoOutcome ℕ
verify_hot_overlay r = do
  verify_rows r r.hot_row_count 0 (zeros r.header.row_bytes)
  ok r.hot_row_count

-- What `dst` holds after the read.
unfoldable pub read_or_fall_back : PlePackReader → ℕ → Bytes → Option ℕ → IoOutcome Bytes
read_or_fall_back r logical_row dst (some overlay_offset) = overlay_row r overlay_offset overlay
read_or_fall_back r logical_row dst none = r.source.read_exact_row logical_row dst

unfoldable pub read_exact_row : PlePackReader → ℕ → Bytes → IoOutcome Bytes
read_exact_row r logical_row dst = do
  fail_if (leb r.header.row_count logical_row)
      (layout (logical_row_out_of_range logical_row r.header.row_count))
  fail_if (not (length dst == r.header.row_bytes))
      (row_buffer_width r.header.row_bytes (length dst))
  found ← find_overlay_offset r logical_row
  read_or_fall_back r logical_row dst found
