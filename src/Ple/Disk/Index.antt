-- ===== src/Ple/Disk/Index.antt =====
-- The 12-byte entries of the hot index.
use mathlib.Core.List.{append-nil}
use gb10x.Prelude.{
  ℕ, ◌+◌, ◌≤◌, ◌<◌, ◌≡◌, ◌↔◌, refl, sym, ◌∙◌, List, [], ◌∷◌, ◌++◌, ok, some, get_elem?, All, length,
  length-append, arith, u32_mod, u64_mod, ap,
}
use gb10x.Ple.Bytes.{
  Bytes, IsByte, le_bytes, length-le_bytes, le_bytes-from_le, take-drop_join, take_all, get_range,
}
use gb10x.Ple.Disk.{encode_index_entry, decode_index_entry}
use gb10x.Ple.Disk.Writes.{foldl-write_at}
use gb10x.Ple.Disk.RoundTrip.{range-payload, read_u32_of, read_u64_of}
use gb10x.Ple.Disk.Reads.{part, number, length-part, read_u32_in, read_u64_in}
use gb10x.Ple.Disk.Canonical.{All-take, All-drop}

abbrev entry_writes : ℕ → ℕ → List (ℕ × Bytes)
entry_writes row offset = (0, le_bytes 4 row) ∷ (4, le_bytes 8 offset) ∷ []

rewritten :
    (width offset : ℕ) (bytes : Bytes)
    → All IsByte bytes
    → offset + width ≤ length bytes
    → le_bytes width (number bytes width offset) ≡ part bytes width offset
rewritten width offset bytes b h =
    rw (length-part bytes width offset h) at
      (le_bytes-from_le (part bytes width offset) (All-take width _ (All-drop offset bytes b)))

-- An entry is its row and its offset in a row.
pub encode_index_entry-eq :
    (row offset : ℕ) → encode_index_entry row offset ≡ le_bytes 4 row ++ le_bytes 8 offset
unfolding encode_index_entry
encode_index_entry-eq row offset =
    foldl-write_at 12 (entry_writes row offset) (omega (arith, length-le_bytes))
      (simp length-append (omega (arith, length-le_bytes)))
    ∙ ap (◌++◌ (le_bytes 4 row)) (append-nil (le_bytes 8 offset))

pub length-encode_index_entry : (row offset : ℕ) → length (encode_index_entry row offset) ≡ 12
length-encode_index_entry row offset =
    rw (encode_index_entry-eq row offset, length-append (le_bytes 4 row))
      (omega (arith, length-le_bytes))

entry_range :
    (row offset i : ℕ) {start : ℕ} {src : Bytes}
    → get_elem? (entry_writes row offset) i ≡ some (start, src)
    → get_range (le_bytes 4 row ++ le_bytes 8 offset) start (start + length src) ≡ some src
entry_range row offset i e =
    simp append-nil at
      (range-payload [] (entry_writes row offset) [] i (omega (arith, length-le_bytes)) e)

pub decode-encode_index_entry :
    (row offset : ℕ)
    → row < u32_mod
    → offset < u64_mod
    → decode_index_entry (encode_index_entry row offset) ≡ ok (row, offset)
unfolding decode_index_entry
decode-encode_index_entry row offset hr ho =
    let bytes : Bytes = le_bytes 4 row ++ le_bytes 8 offset in
    let twelve : length bytes ≡ 12 =
      rw (length-append (le_bytes 4 row)) (omega (arith, length-le_bytes)) in
    let at_row : get_range bytes 0 (0 + 4) ≡ some (le_bytes 4 row) =
      rw (length-le_bytes 4 row) at (entry_range row offset 0 refl) in
    let at_offset : get_range bytes 4 (4 + 8) ≡ some (le_bytes 8 offset) =
      rw (length-le_bytes 8 offset) at (entry_range row offset 1 refl) in
    rw
      (
        encode_index_entry-eq row offset,
        twelve,
        read_u32_of bytes 0 row (omega arith) hr at_row,
        read_u64_of bytes 4 offset (omega arith) ho at_offset,
      )
      refl

encode-decode_index_entry :
    (bytes : Bytes) {row offset : ℕ}
    → All IsByte bytes
    → decode_index_entry bytes ≡ ok (row, offset)
    → bytes ≡ encode_index_entry row offset
unfolding decode_index_entry
encode-decode_index_entry bytes {row} {offset} b e =
    let twelve : length bytes ≡ 12 = ground arith in
    let er : row ≡ number bytes 4 0 = ground (
      arith,
      read_u32_in bytes 0 (omega arith) (omega arith),
      read_u64_in bytes 4 (omega arith) (omega arith),
    ) in
    let eo : offset ≡ number bytes 8 4 = ground (
      arith,
      read_u32_in bytes 0 (omega arith) (omega arith),
      read_u64_in bytes 4 (omega arith) (omega arith),
    ) in
    sym (
      rw
        (
          er,
          eo,
          encode_index_entry-eq (number bytes 4 0) (number bytes 8 4),
          rewritten 4 0 bytes b (omega arith),
          rewritten 8 4 bytes b (omega arith),
          take-drop_join 4 8 0 bytes,
        )
        (take_all 12 bytes (omega arith)))

-- For a u32 row and a u64 offset, bytes decode to that row and offset exactly when they are the
-- encoding of these.
pub decode_index_entry_iff :
    (bytes : Bytes) (row offset : ℕ)
    → All IsByte bytes
    → row < u32_mod
    → offset < u64_mod
    → (decode_index_entry bytes ≡ ok (row, offset)) ↔ (bytes ≡ encode_index_entry row offset)
decode_index_entry_iff bytes row offset b hr ho =
    (encode-decode_index_entry bytes b, λ e. rw e (decode-encode_index_entry row offset hr ho))
