-- ===== src/Ple/Reader/Flat.antt =====
-- A flat file as the source of a reader (crates/gb10x-ple/src/source.rs).
use gb10x.Prelude.{ℕ, ◌*◌, take, drop, arith}
use gb10x.Ple.Disk.Reads.{length-part}
use gb10x.Ple.Bytes.{Bytes}
use gb10x.Ple.Source.{RawFileRowSource, raw_rows}
use gb10x.Ple.Source.Exact.{IsTiledBy, row_within, read_source_row_total}
use gb10x.Ple.Reader.Reads.{IsExact}

-- The rows of a flat file.
abbrev pub flat_rows : RawFileRowSource → ℕ → Bytes
flat_rows s row = take s.row_bytes (drop (row * s.row_bytes) s.mmap)

-- A flat file that its rows tile is an exact source.
pub raw_rows-IsExact : (s : RawFileRowSource) → IsTiledBy s → IsExact (raw_rows s) (flat_rows s)
unfolding raw_rows
raw_rows-IsExact s tiled = record {
  width = λ row h.
      let (t, _, _) = tiled in
      let within = row_within row s.row_count s.row_bytes h in
      length-part s.mmap s.row_bytes (row * s.row_bytes) (omega arith);
  read = read_source_row_total s tiled;
}
