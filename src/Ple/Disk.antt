-- ===== src/Ple/Disk.antt =====
-- crates/gb10x-ple/src/disk.rs: the 128-byte sidecar header and the 12-byte index entries.
pub mod Writes
pub mod RoundTrip
pub mod Reads
pub mod Canonical
pub mod Index
use mathlib.Core.List.{foldl}
use gb10x.Prelude.{
  ℕ, ◌+◌, ◌%◌, Bool, true, false, not, List, [], ◌∷◌, Option, none, some, Result, ok, err, panic,
  ◌>>=◌, ◌>>◌, fail_if, ok_or, map_err, checked_add, checked_mul, length, ltb, ◌==◌, if◌then◌else◌,
}
use gb10x.Ple.Bytes.{Bytes, le_bytes, from_le, get_range, write_at, zeros}
use gb10x.Ple.Format.{
  PlePackIoError, PlePackHeader, layout, format, plepack_magic, plepack_version, new as new_header,
}

abbrev pub disk_header_bytes : ℕ
disk_header_bytes = 128

abbrev pub index_entry_bytes : ℕ
index_entry_bytes = 12

abbrev pub exact_overlay_flags : ℕ
exact_overlay_flags = 1

abbrev pub IoOutcome : Type 0 → Type 0
IoOutcome A = Result PlePackIoError A

pub record DiskHeader : Type 0 where
  pub logical : PlePackHeader
  pub hot_row_count : ℕ
  pub index_bytes : ℕ
  pub data_offset : ℕ
  pub overlay_bytes : ℕ

-- `is_multiple_of`: of zero, only zero is a multiple.
abbrev pub is_multiple_of : ℕ → ℕ → Bool
is_multiple_of a b = if b == 0 then a == 0 else a % b == 0

unfoldable pub new : PlePackHeader → ℕ → ℕ → ℕ → ℕ → IoOutcome DiskHeader
new logical hot_row_count index_bytes data_offset overlay_bytes = do
  expected_index_bytes ←
      ok_or (checked_mul hot_row_count index_entry_bytes) (format "hot index byte count overflow")
  fail_if (not (index_bytes == expected_index_bytes))
      (format "hot index byte count does not match hot row count")
  minimum_data_offset ←
      ok_or (checked_add disk_header_bytes index_bytes) (format "index end overflow")
  fail_if (ltb data_offset minimum_data_offset) (format "overlay data overlaps index")
  fail_if (not (is_multiple_of data_offset logical.block_bytes))
      (format "overlay data offset is not block aligned")
  fail_if (not (is_multiple_of overlay_bytes logical.block_bytes))
      (format "overlay byte length is not block aligned")
  ok (record {
    logical = logical;
    hot_row_count = hot_row_count;
    index_bytes = index_bytes;
    data_offset = data_offset;
    overlay_bytes = overlay_bytes;
  })

-- The writes of `encode`, in order: where each begins, and what it copies.
abbrev pub header_writes : DiskHeader → List (ℕ × Bytes)
header_writes h =
    (0, plepack_magic)
    ∷ (8, le_bytes 4 plepack_version)
    ∷ (12, le_bytes 4 exact_overlay_flags)
    ∷ (16, h.logical.source_digest)
    ∷ (48, le_bytes 8 h.logical.row_count)
    ∷ (56, le_bytes 4 h.logical.row_bytes)
    ∷ (60, le_bytes 4 h.logical.block_bytes)
    ∷ (64, le_bytes 8 h.hot_row_count)
    ∷ (72, le_bytes 8 h.index_bytes)
    ∷ (80, le_bytes 8 h.data_offset)
    ∷ (88, le_bytes 8 h.overlay_bytes)
    ∷ (96, h.logical.index_digest)
    ∷ []

unfoldable pub encode : DiskHeader → Bytes
encode h = foldl write_at (zeros disk_header_bytes) (header_writes h)

-- `slice.try_into()` to an array.
try_array : ℕ → Bytes → Option Bytes
try_array n slice = if length slice == n then some slice else none

unfoldable pub read_u32 : Bytes → ℕ → IoOutcome ℕ
unfolding try_array
read_u32 bytes offset = do
  end ← ok_or (checked_add offset 4) (format "u32 header offset overflow")
  slice ← ok_or (get_range bytes offset end) (format "truncated u32 header field")
  array ← ok_or (try_array 4 slice) (format "invalid u32 header field")
  ok (from_le array)

unfoldable pub read_u64 : Bytes → ℕ → IoOutcome ℕ
unfolding try_array
read_u64 bytes offset = do
  end ← ok_or (checked_add offset 8) (format "u64 header offset overflow")
  slice ← ok_or (get_range bytes offset end) (format "truncated u64 header field")
  array ← ok_or (try_array 8 slice) (format "invalid u64 header field")
  ok (from_le array)

-- `bytes[start..end]`, which panics out of bounds.
unfoldable pub slice_of : Bytes → ℕ → ℕ → IoOutcome Bytes
slice_of bytes start end = elim (get_range bytes start end) [ none ↦ panic | some slice ↦ ok slice ]

unfoldable pub equal_bytes : Bytes → Bytes → Bool
equal_bytes [] [] = true
equal_bytes (a ∷ as') (b ∷ bs) = if a == b then equal_bytes as' bs else false
equal_bytes _ _ = false

unfoldable pub is_magic : Option Bytes → Bool
is_magic none = false
is_magic (some bytes) = equal_bytes bytes plepack_magic

unfoldable pub decode : Bytes → IoOutcome DiskHeader
decode bytes = do
  fail_if (ltb (length bytes) disk_header_bytes) (format "sidecar is shorter than header")
  fail_if (not (is_magic (get_range bytes 0 8))) (format "PLEPack magic mismatch")
  version ← read_u32 bytes 8
  fail_if (not (version == plepack_version)) (format "PLEPack version mismatch")
  flags ← read_u32 bytes 12
  fail_if (not (flags == exact_overlay_flags)) (format "unsupported PLEPack flags")
  source_digest ← slice_of bytes 16 48
  row_count ← read_u64 bytes 48
  row_bytes ← read_u32 bytes 56
  block_bytes ← read_u32 bytes 60
  hot_row_count ← read_u64 bytes 64
  index_bytes ← read_u64 bytes 72
  data_offset ← read_u64 bytes 80
  overlay_bytes ← read_u64 bytes 88
  index_digest ← slice_of bytes 96 128
  logical ← map_err layout (new_header source_digest row_count row_bytes block_bytes index_digest)
  new logical hot_row_count index_bytes data_offset overlay_bytes

unfoldable pub encode_index_entry : ℕ → ℕ → Bytes
encode_index_entry logical_row overlay_offset =
    foldl write_at (zeros index_entry_bytes)
      ((0, le_bytes 4 logical_row) ∷ (4, le_bytes 8 overlay_offset) ∷ [])

unfoldable pub decode_index_entry : Bytes → IoOutcome (ℕ × ℕ)
decode_index_entry bytes = do
  fail_if (not (length bytes == index_entry_bytes)) (format "invalid hot index entry width")
  row ← read_u32 bytes 0
  offset ← read_u64 bytes 4
  ok (row, offset)
