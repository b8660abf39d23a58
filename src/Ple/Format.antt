-- ===== src/Ple/Format.antt =====
-- crates/gb10x-ple/src/format.rs: the errors and the logical header of an exact PLEPack.
use gb10x.Prelude.{
  ℕ, ◌≤◌, ◌<◌, ◌≡◌, ◌≢◌, ◌↔◌, String, [], ◌∷◌, Result, ok, panic, ◌>>◌, fail_if, arith, u32_mod,
  ltb, ◌==◌,
}
use gb10x.Ple.Bytes.{Bytes}

abbrev pub plepack_magic : Bytes
plepack_magic = b'G' ∷ b'B' ∷ b'1' ∷ b'0' ∷ b'X' ∷ b'P' ∷ b'L' ∷ b'E' ∷ []

abbrev pub plepack_version : ℕ
plepack_version = 1

pub data PlePackError : Type 0 where
  invalid_geometry : String → PlePackError
  trace_row_out_of_range : ℕ → ℕ → PlePackError
  logical_row_out_of_range : ℕ → ℕ → PlePackError
  overflow : String → PlePackError

-- An operating-system error (`std::io::Error`) is kept by its text.
pub data PlePackIoError : Type 0 where
  layout : PlePackError → PlePackIoError
  io : String → PlePackIoError
  format : String → PlePackIoError
  source : String → PlePackIoError
  row_buffer_width : ℕ → ℕ → PlePackIoError
  source_digest_mismatch : PlePackIoError
  index_digest_mismatch : PlePackIoError
  overlay_data_mismatch : ℕ → PlePackIoError

pub record PlePackHeader : Type 0 where
  pub magic : Bytes
  pub version : ℕ
  pub source_digest : Bytes
  pub row_count : ℕ
  pub row_bytes : ℕ
  pub block_bytes : ℕ
  pub index_digest : Bytes

unfoldable pub new : Bytes → ℕ → ℕ → ℕ → Bytes → Result PlePackError PlePackHeader
new source_digest row_count row_bytes block_bytes index_digest = do
  fail_if (row_count == 0) (invalid_geometry "row_count must be nonzero")
  fail_if (row_bytes == 0) (invalid_geometry "row_bytes must be nonzero")
  fail_if (block_bytes == 0) (invalid_geometry "block_bytes must be nonzero")
  fail_if (ltb block_bytes row_bytes)
      (invalid_geometry "block_bytes must fit at least one complete row")
  fail_if (ltb u32_mod row_count)
      (invalid_geometry "logical row space must fit u32 row identifiers")
  ok (record {
    magic = plepack_magic;
    version = plepack_version;
    source_digest = source_digest;
    row_count = row_count;
    row_bytes = row_bytes;
    block_bytes = block_bytes;
    index_digest = index_digest;
  })

-- The geometry that an exact pack may have.
pub record IsGeometry (row_count row_bytes block_bytes : ℕ) : Type 0 where
  pub rows : 0 < row_count
  pub addressable : row_count ≤ u32_mod
  pub width : 0 < row_bytes
  pub block : row_bytes ≤ block_bytes

-- The header of a geometry.
abbrev pub header_of : Bytes → ℕ → ℕ → ℕ → Bytes → PlePackHeader
header_of source_digest row_count row_bytes block_bytes index_digest = record {
  magic = plepack_magic;
  version = plepack_version;
  source_digest = source_digest;
  row_count = row_count;
  row_bytes = row_bytes;
  block_bytes = block_bytes;
  index_digest = index_digest;
}

-- `new` accepts a header exactly when its geometry is one of an exact pack, and then keeps the
-- digests and the geometry under the magic and the version of the format.
pub header_new_iff :
    (source_digest : Bytes) (row_count row_bytes block_bytes : ℕ) (index_digest : Bytes)
    (h : PlePackHeader)
    → (new source_digest row_count row_bytes block_bytes index_digest ≡ ok h) ↔ (
        IsGeometry row_count row_bytes block_bytes
        × (h ≡ header_of source_digest row_count row_bytes block_bytes index_digest))
unfolding new
header_new_iff source_digest row_count row_bytes block_bytes index_digest h =
    ((λ e. ground arith), (λ (g, e). ground arith))

pub new-ne-panic :
    (source_digest : Bytes) (row_count row_bytes block_bytes : ℕ) (index_digest : Bytes)
    → new source_digest row_count row_bytes block_bytes index_digest ≢ panic
unfolding new
new-ne-panic source_digest row_count row_bytes block_bytes index_digest e = ground arith
