-- ===== src/Ple/Reader/Tests.antt =====
-- A small sidecar: its reader, and the reader's theorems at it.
use gb10x.Prelude.{
  ℕ, ◌<◌, ◌≡◌, ◌↔◌, refl, some, List, [], ◌∷◌, ◌++◌, ok, arith, u64_mod, zero, suc, length,
}
use gb10x.Ple.Bytes.{Bytes, zeros, from_le}
use gb10x.Ple.Format.{header_of, new as new_header}
use gb10x.Ple.Source.{RawFileRowSource, raw_rows, ExactPleRowSource, read_source_row}
use gb10x.Ple.Disk.{
  DiskHeader, decode, decode_index_entry, read_u32, read_u64, slice_of, is_magic, equal_bytes, new,
}
use gb10x.Ple.Reader.{
  PlePackReader, open_pack, find_overlay_offset, read_exact_row, verify_hot_overlay, verify_rows,
  overlay_row, index_entry, text_in,
}
use gb10x.Ple.Reader.Index.{Entry, IsIndex}
use gb10x.Ple.Reader.Entries.{IsReader}
use gb10x.Ple.Reader.Search.{find_overlay_offset-lookup}
use gb10x.Ple.Reader.Reads.{IsExact, read_exact_row_total}
use gb10x.Ple.Reader.Verify.{AreCopies, verify_hot_overlay_iff, verify_hot_overlay-read_exact_row}
use gb10x.Ple.Reader.Open.{IsPack, reader_of, open_pack_iff}
use gb10x.Ple.Reader.Flat.{raw_rows-IsExact, flat_rows}

abbrev pub bytes_of : ℕ → ℕ → Bytes
bytes_of zero b = []
bytes_of (suc n) b = b ∷ bytes_of n b

-- Four rows of three bytes, under a digest that stands for SHA-256.
abbrev pub flat : RawFileRowSource
flat = record {
  mmap = 1 ∷ 2 ∷ 3 ∷ 4 ∷ 5 ∷ 6 ∷ 7 ∷ 8 ∷ 9 ∷ 10 ∷ 11 ∷ 12 ∷ [];
  row_count = 4;
  row_bytes = 3;
  digest = bytes_of 32 9;
}

abbrev pub source : ExactPleRowSource
source = raw_rows flat

abbrev disk : DiskHeader
disk = record {
  logical = header_of (bytes_of 32 9) 4 3 4 (bytes_of 32 9);
  hot_row_count = 2;
  index_bytes = 24;
  data_offset = 152;
  overlay_bytes = 8;
}

abbrev index : Bytes
index = 1 ∷ zeros 3 ++ (4 ∷ zeros 7 ++ (3 ∷ zeros 3 ++ zeros 8))

-- Rows 1 and 3, in the second and in the first block.
abbrev sidecar : Bytes
sidecar =
    b'G'
    ∷ b'B'
    ∷ b'1'
    ∷ b'0'
    ∷ b'X'
    ∷ b'P'
    ∷ b'L'
    ∷ b'E'
    ∷ (1 ∷ zeros 3
        ++ (1 ∷ zeros 3
            ++ (bytes_of 32 9
                ++ (4 ∷ zeros 7
                    ++ (3 ∷ zeros 3
                        ++ (4 ∷ zeros 3
                            ++ (2 ∷ zeros 7
                                ++ (24 ∷ zeros 7
                                    ++ (152 ∷ zeros 7
                                        ++ (8 ∷ zeros 7
                                            ++ (bytes_of 32 9
                                                ++ (index
                                                    ++ (10 ∷ 11 ∷ 12 ∷ 0 ∷ 4 ∷ 5 ∷ 6 ∷ 0
                                                        ∷ [])))))))))))))

abbrev entries : List Entry
entries = (1, 4) ∷ (3, 0) ∷ []

abbrev reader : PlePackReader
reader = reader_of sidecar source disk

sidecar_read : decode sidecar ≡ ok disk
unfolding decode read_u32 read_u64 slice_of is_magic equal_bytes new from_le new_header
sidecar_read = refl

index_decoded :
    (decode_index_entry (1 ∷ zeros 3 ++ (4 ∷ zeros 7)) ≡ ok (1, 4))
    × (decode_index_entry (3 ∷ zeros 3 ++ zeros 8) ≡ ok (3, 0))
unfolding decode_index_entry read_u32 read_u64 from_le
index_decoded = (refl, refl)

index-IsIndex : IsIndex disk index entries
index-IsIndex = record {
  size = refl;
  decoded = (index_decoded.0, (index_decoded.1, tt));
  ascending = (tt, (omega arith, tt));
  inside = ((omega arith, omega arith, omega arith), ((omega arith, omega arith, omega arith), tt));
}

reader-IsReader : IsReader reader entries
unfolding raw_rows
reader-IsReader = record {
  count = refl;
  index_offset = refl;
  room = omega arith;
  size = refl;
  short = omega arith;
  decoded = index-IsIndex.decoded;
  ascending = index-IsIndex.ascending;
  inside = index-IsIndex.inside;
  rows = refl;
  width = refl;
}

sidecar-IsPack : IsPack (λ _. bytes_of 32 9) source sidecar disk entries
unfolding raw_rows
sidecar-IsPack = record {
  source_digest = refl;
  row_count = refl;
  row_bytes = refl;
  size = refl;
  index_digest = refl;
  count = refl;
  index = index-IsIndex;
}

pub flat-IsExact : IsExact source (flat_rows flat)
flat-IsExact = raw_rows-IsExact flat (refl, omega arith, omega arith)

verified : verify_hot_overlay reader ≡ ok 2
unfolding verify_hot_overlay verify_rows index_entry overlay_row text_in decode_index_entry read_u32
    read_u64 from_le equal_bytes raw_rows read_source_row
verified = refl

find_overlay_offset-lookup_example : find_overlay_offset reader 3 ≡ ok (some 0)
find_overlay_offset-lookup_example = find_overlay_offset-lookup reader entries reader-IsReader 3

read_hot_row : read_exact_row reader 1 (zeros 3) ≡ ok (4 ∷ 5 ∷ 6 ∷ [])
unfolding raw_rows
read_hot_row = read_exact_row_total reader entries reader-IsReader 1 (zeros 3)

verify_hot_overlay_iff_example : (verify_hot_overlay reader ≡ ok 2) ↔ (
    (2 ≡ reader.hot_row_count)
    × AreCopies reader entries reader-IsReader (flat_rows flat) flat-IsExact 0)
verify_hot_overlay_iff_example =
    verify_hot_overlay_iff reader entries reader-IsReader (flat_rows flat) flat-IsExact 2

verify_hot_overlay-read_exact_row_example :
    read_exact_row reader 3 (zeros 3) ≡ source.read_exact_row 3 (zeros 3)
verify_hot_overlay-read_exact_row_example =
    verify_hot_overlay-read_exact_row reader entries reader-IsReader (flat_rows flat) flat-IsExact
      verified 3 (zeros 3)

sidecar_short : length sidecar < u64_mod
sidecar_short = omega arith

opened : open_pack (λ _. bytes_of 32 9) (ok sidecar) source ≡ ok reader
opened =
    (open_pack_iff (λ _. bytes_of 32 9) source sidecar reader sidecar_short (omega arith)).1
      (disk, entries, sidecar_read, sidecar-IsPack, refl)

open_pack_iff_example : (open_pack (λ _. bytes_of 32 9) (ok sidecar) source ≡ ok reader) ↔ (
    (d : DiskHeader) × (es : List Entry) × (decode sidecar ≡ ok d)
    × IsPack (λ _. bytes_of 32 9) source sidecar d es
    × (reader ≡ reader_of sidecar source d))
open_pack_iff_example =
    open_pack_iff (λ _. bytes_of 32 9) source sidecar reader sidecar_short (omega arith)
