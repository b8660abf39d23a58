-- ===== src/Ple/Disk/RoundTrip.antt =====
-- `decode` reads back what `encode` wrote.
use mathlib.Core.List.{append_assoc}
use gb10x.Prelude.{
  ℕ, zero, suc, ◌+◌, ◌*◌, ◌-◌, ◌%◌, ◌≤◌, ◌<◌, ◌≡◌, refl, List, [], ◌∷◌, ◌++◌, some, ok, length,
  length-append, get_elem?, drop, arith, u32_mod, u64_mod, true,
}
use gb10x.Ple.Bytes.{
  Bytes, get_range, le_bytes, length-le_bytes, from_le-le_bytes, take-append_length,
  drop-append_length,
}
use gb10x.Ple.Format.{IsGeometry, plepack_magic, plepack_version, new as new_header, header_new_iff}
use gb10x.Ple.Disk.{
  DiskHeader, new, header_writes, encode, decode, read_u32, read_u64, slice_of, is_magic,
  equal_bytes,
}
use gb10x.Ple.Disk.Writes.{IsTiled, payload, foldl-write_at}

range-middle :
    (front src rest : Bytes)
    → get_range (front ++ (src ++ rest)) (length front) (length front + length src) ≡ some src
range-middle front src rest =
    let e : length front + length src - length front ≡ length src = omega arith in
    let e0 : length front + 0 ≡ length front = omega arith in
    let dropped : drop (length front) (front ++ (src ++ rest)) ≡ src ++ rest =
      rw e0 at (drop-append_length front (src ++ rest) 0) in
    let inside : length front + length src ≤ length (front ++ (src ++ rest)) =
      omega (arith, length-append front (src ++ rest), length-append src rest) in
    rw (e, dropped, take-append_length src rest) (ground arith)

-- A piece of tiled writes is found where it was written.
pub range-payload :
    (front : Bytes) (ws : List (ℕ × Bytes)) (rest : Bytes) (i : ℕ) {start : ℕ} {src : Bytes}
    → IsTiled (length front) ws
    → get_elem? ws i ≡ some (start, src)
    → get_range (front ++ (payload ws ++ rest)) start (start + length src) ≡ some src
range-payload front [] rest i t e = cc
range-payload front ((s, w) ∷ ws) rest zero {start} {src} (here, t) e =
    let es : start ≡ length front = ground arith in
    let ew : src ≡ w = ground arith in
    rw (es, ew, append_assoc w (payload ws) rest) (range-middle front w (payload ws ++ rest))
range-payload front ((s, w) ∷ ws) rest (suc i) {start} {src} (here, t) e =
    rw (append_assoc w (payload ws) rest, ← append_assoc front w (payload ws ++ rest))
      (range-payload (front ++ w) ws rest i (rw (length-append front w) t) e)

pub read_u32_of :
    (bytes : Bytes) (offset v : ℕ)
    → offset < 1000
    → v < u32_mod
    → get_range bytes offset (offset + 4) ≡ some (le_bytes 4 v)
    → read_u32 bytes offset ≡ ok v
unfolding read_u32
read_u32_of bytes offset v ho hv e =
    ground (arith, e, length-le_bytes 4 v, from_le-le_bytes 4 v (omega arith))

pub read_u64_of :
    (bytes : Bytes) (offset v : ℕ)
    → offset < 1000
    → v < u64_mod
    → get_range bytes offset (offset + 8) ≡ some (le_bytes 8 v)
    → read_u64 bytes offset ≡ ok v
unfolding read_u64
read_u64_of bytes offset v ho hv e =
    ground (arith, e, length-le_bytes 8 v, from_le-le_bytes 8 v (omega arith))

-- A header that the sidecar may carry: a geometry of an exact pack under the magic and the version,
-- digests of 32 bytes, fields within their machine words, 12 index bytes for each hot row, the
-- overlay behind the index, and both the overlay's start and its size multiples of the block.
pub record IsValid (h : DiskHeader) : Type 0 where
  pub magic : h.logical.magic ≡ plepack_magic
  pub version : h.logical.version ≡ plepack_version
  pub geometry : IsGeometry h.logical.row_count h.logical.row_bytes h.logical.block_bytes
  pub source_digest : length h.logical.source_digest ≡ 32
  pub index_digest : length h.logical.index_digest ≡ 32
  pub block_word : h.logical.block_bytes < u32_mod
  pub index : h.index_bytes ≡ h.hot_row_count * 12
  pub behind : 128 + h.index_bytes ≤ h.data_offset
  pub data_word : h.data_offset < u64_mod
  pub overlay_word : h.overlay_bytes < u64_mod
  pub data_aligned : h.data_offset % h.logical.block_bytes ≡ 0
  pub overlay_aligned : h.overlay_bytes % h.logical.block_bytes ≡ 0

module _ (h : DiskHeader) (v : IsValid h) where
  writes_tile : IsTiled 0 (header_writes h)
  writes_tile = omega (arith, v.source_digest, v.index_digest, length-le_bytes)

  pub length-payload : length (payload (header_writes h)) ≡ 128
  length-payload =
      simp length-append (omega (arith, v.source_digest, v.index_digest, length-le_bytes))

  -- The encoding is the fields in a row.
  pub encode-payload : encode h ≡ payload (header_writes h)
  unfolding encode
  encode-payload = foldl-write_at 128 (header_writes h) writes_tile length-payload

  module _ (rest : Bytes) where
    abbrev file : Bytes
    file = payload (header_writes h) ++ rest

    piece :
        (i : ℕ) {start : ℕ} {src : Bytes}
        → get_elem? (header_writes h) i ≡ some (start, src)
        → get_range file start (start + length src) ≡ some src
    piece i e = range-payload [] (header_writes h) rest i writes_tile e

    field_u32 :
        (i : ℕ) {start v : ℕ}
        → get_elem? (header_writes h) i ≡ some (start, le_bytes 4 v)
        → start < 1000
        → v < u32_mod
        → read_u32 file start ≡ ok v
    field_u32 i {start} {v} e hs hv =
        read_u32_of file start v hs hv (rw (length-le_bytes 4 v) at (piece i e))

    field_u64 :
        (i : ℕ) {start v : ℕ}
        → get_elem? (header_writes h) i ≡ some (start, le_bytes 8 v)
        → start < 1000
        → v < u64_mod
        → read_u64 file start ≡ ok v
    field_u64 i {start} {v} e hs hv =
        read_u64_of file start v hs hv (rw (length-le_bytes 8 v) at (piece i e))

    slice :
        (i start end : ℕ) {src : Bytes}
        → get_elem? (header_writes h) i ≡ some (start, src)
        → start + length src ≡ end
        → slice_of file start end ≡ ok src
    unfolding slice_of
    slice i start end e ends = rw (← ends, slice_of, piece i e) refl

    magic_found : is_magic (get_range file 0 8) ≡ true
    unfolding is_magic equal_bytes
    magic_found = rw (piece 0 refl) refl

    -- The logical header and the disk header pass their checks.
    checked :
        new_header h.logical.source_digest h.logical.row_count h.logical.row_bytes
          h.logical.block_bytes h.logical.index_digest
        ≡ ok h.logical
    checked =
        (header_new_iff _ _ _ _ _ h.logical).1 (v.geometry, ground (arith, v.magic, v.version))

    admitted : new h.logical h.hot_row_count h.index_bytes h.data_offset h.overlay_bytes ≡ ok h
    unfolding new
    admitted = ground (
      arith, v.index, v.behind, v.data_word, v.data_aligned, v.overlay_aligned, v.geometry.width,
      v.geometry.block,
    )

    decode-payload : decode file ≡ ok h
    unfolding decode
    decode-payload =
        let long : 128 ≤ length file =
          omega (arith, length-payload, length-append (payload (header_writes h)) rest) in
        let bounds = v in
        rw
          (
            magic_found,
            field_u32 1 {start = 8} {v = plepack_version} refl (omega arith) (omega arith),
            field_u32 2 {start = 12} {v = 1} refl (omega arith) (omega arith),
            slice 3 16 48 refl (omega (arith, v.source_digest)),
            field_u64 4 {start = 48} {v = h.logical.row_count} refl (omega arith)
                (omega (arith, v.geometry.addressable)),
            field_u32 5 {start = 56} {v = h.logical.row_bytes} refl (omega arith)
                (omega (arith, v.geometry.block, v.block_word)),
            field_u32 6 {start = 60} {v = h.logical.block_bytes} refl (omega arith) v.block_word,
            field_u64 7 {start = 64} {v = h.hot_row_count} refl (omega arith)
                (omega (arith, v.index, v.behind, v.data_word)),
            field_u64 8 {start = 72} {v = h.index_bytes} refl (omega arith)
                (omega (arith, v.behind, v.data_word)),
            field_u64 9 {start = 80} {v = h.data_offset} refl (omega arith) v.data_word,
            field_u64 10 {start = 88} {v = h.overlay_bytes} refl (omega arith) v.overlay_word,
            slice 11 96 128 refl (omega (arith, v.index_digest)),
            checked,
            admitted,
          )
          (ground arith)

-- `decode` reads back every valid header from its encoding, whatever follows it in the sidecar.
pub decode-encode : (h : DiskHeader) → IsValid h → (rest : Bytes) → decode (encode h ++ rest) ≡ ok h
decode-encode h v rest = rw (encode-payload h v) (decode-payload h v rest)
