-- ===== src/Ple/Source.antt =====
-- crates/gb10x-ple/src/source.rs: `RawFileRowSource`, the exact rows of a flat file. The file's
-- contents, or the error that opening it gave, and the SHA-256 digest are arguments.
pub mod Exact
use gb10x.Prelude.{
  ℕ, ◌+◌, ◌/◌, Bool, not, Option, none, some, String, Result, ok, err, panic, ◌>>=◌, ◌>>◌, fail_if,
  ok_or, checked_add, checked_mul, plain_div, u32_mod, ltb, leb, ◌==◌, length,
}
use gb10x.Ple.Bytes.{Bytes, get_range}
use gb10x.Ple.Format.{PlePackIoError, format, layout, logical_row_out_of_range, row_buffer_width}
use gb10x.Ple.Disk.{IoOutcome, is_multiple_of}

-- The trait: what a reader may ask of a row source. `read_exact_row` gives what `dst` holds after the
-- call; an error leaves it as it was.
pub record ExactPleRowSource : Type 0 where
  pub row_count : ℕ
  pub row_bytes : ℕ
  pub source_digest : Bytes
  pub read_exact_row : ℕ → Bytes → IoOutcome Bytes

pub record RawFileRowSource : Type 0 where
  pub mmap : Bytes
  pub row_count : ℕ
  pub row_bytes : ℕ
  pub digest : Bytes

-- `u32::MAX as u64 + 1`
abbrev row_space : ℕ
row_space = u32_mod

unfoldable pub open_source : (Bytes → Bytes) → IoOutcome Bytes → ℕ → IoOutcome RawFileRowSource
open_source sha256 contents row_bytes = do
  fail_if (row_bytes == 0) (format "raw source row width must be nonzero")
  file ← contents
  fail_if (length file == 0) (format "raw source must contain at least one row")
  fail_if (not (is_multiple_of (length file) row_bytes))
      (format "raw source byte length is not divisible by row width")
  row_count ← plain_div (length file) row_bytes
  fail_if (ltb row_space row_count) (format "raw source row count exceeds u32 logical row space")
  ok (record { mmap = file; row_count = row_count; row_bytes = row_bytes; digest = sha256 file })

-- What `dst` holds after the call; an error leaves it as it was.
unfoldable pub read_source_row : RawFileRowSource → ℕ → Bytes → IoOutcome Bytes
read_source_row s logical_row dst = do
  fail_if (leb s.row_count logical_row) (layout (logical_row_out_of_range logical_row s.row_count))
  fail_if (not (length dst == s.row_bytes)) (row_buffer_width s.row_bytes (length dst))
  start ← ok_or (checked_mul logical_row s.row_bytes) (format "raw source row offset overflow")
  end ← ok_or (checked_add start s.row_bytes) (format "raw source row end overflow")
  ok_or (get_range s.mmap start end) (format "raw source row lies outside mapping")

-- `impl ExactPleRowSource for RawFileRowSource`
unfoldable pub raw_rows : RawFileRowSource → ExactPleRowSource
raw_rows s = record {
  row_count = s.row_count;
  row_bytes = s.row_bytes;
  source_digest = s.digest;
  read_exact_row = read_source_row s;
}
