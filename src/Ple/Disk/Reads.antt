-- ===== src/Ple/Disk/Reads.antt =====
-- `decode` field by field: the reads of a long enough sidecar, and no panic on any input.
use gb10x.Prelude.{
  ℕ, ◌+◌, ◌-◌, ◌≤◌, ◌<◌, ◌≡◌, ◌≢◌, refl, Bool, false, not, some, Result, ok, panic, ◌>>=◌, ◌>>◌,
  fail_if, map_err, length, length-take, length-drop, take, drop, arith, ltb, ◌==◌, Bool-cases, inl,
  inr, >>=-ne-panic, fail_if-ne-panic, map_err-ne-panic,
}
use gb10x.Ple.Bytes.{Bytes, get_range, from_le}
use gb10x.Ple.Format.{
  PlePackError, PlePackHeader, format, layout, plepack_magic, plepack_version, new as new_header,
  new-ne-panic as new_header-ne-panic,
}
use gb10x.Ple.Disk.{
  DiskHeader, IoOutcome, exact_overlay_flags, new, decode, read_u32, read_u64, slice_of, is_magic,
  equal_bytes,
}

-- The bytes of a field, and the number that they stand for.
abbrev pub part : Bytes → ℕ → ℕ → Bytes
part bytes width offset = take width (drop offset bytes)

abbrev pub number : Bytes → ℕ → ℕ → ℕ
number bytes width offset = from_le (part bytes width offset)

module _ (bytes : Bytes) where
  pub length-part :
      (width offset : ℕ) → offset + width ≤ length bytes → length (part bytes width offset) ≡ width
  length-part width offset h =
      omega (arith, length-take width (drop offset bytes), length-drop offset bytes)

  pub range_in :
      (width offset end : ℕ)
      → offset + width ≡ end
      → end ≤ length bytes
      → get_range bytes offset end ≡ some (part bytes width offset)
  range_in width offset end e h =
      let e' : end - offset ≡ width = omega arith in rw e' (ground arith)

  pub read_u32_in :
      (offset : ℕ)
      → offset < 1000
      → offset + 4 ≤ length bytes
      → read_u32 bytes offset ≡ ok (number bytes 4 offset)
  unfolding read_u32
  read_u32_in offset ho h =
      ground (arith, range_in 4 offset (offset + 4) refl h, length-part 4 offset h)

  pub read_u64_in :
      (offset : ℕ)
      → offset < 1000
      → offset + 8 ≤ length bytes
      → read_u64 bytes offset ≡ ok (number bytes 8 offset)
  unfolding read_u64
  read_u64_in offset ho h =
      ground (arith, range_in 8 offset (offset + 8) refl h, length-part 8 offset h)

  pub slice_in :
      (width offset end : ℕ)
      → offset + width ≡ end
      → end ≤ length bytes
      → slice_of bytes offset end ≡ ok (part bytes width offset)
  unfolding slice_of
  slice_in width offset end e h = rw (range_in width offset end e h, slice_of) refl

  abbrev pub header_read : Result PlePackError PlePackHeader
  header_read =
      new_header (part bytes 32 16) (number bytes 8 48) (number bytes 4 56) (number bytes 4 60)
        (part bytes 32 96)

  abbrev pub wrong_magic : Bool
  wrong_magic = not (equal_bytes (part bytes 8 0) plepack_magic)

  abbrev pub wrong_version : Bool
  wrong_version = not (number bytes 4 8 == plepack_version)

  abbrev pub wrong_flags : Bool
  wrong_flags = not (number bytes 4 12 == exact_overlay_flags)

  abbrev pub disk_header : PlePackHeader → IoOutcome DiskHeader
  disk_header l =
      new l (number bytes 8 64) (number bytes 8 72) (number bytes 8 80) (number bytes 8 88)

  abbrev pub read_header : IoOutcome DiskHeader
  read_header = map_err layout header_read >>= disk_header

  abbrev pub read_flags : IoOutcome DiskHeader
  read_flags = fail_if wrong_flags (format "unsupported PLEPack flags") >> read_header

  abbrev pub read_version : IoOutcome DiskHeader
  read_version = fail_if wrong_version (format "PLEPack version mismatch") >> read_flags

  -- What `decode` computes on an input that holds a whole header.
  abbrev pub decoded : IoOutcome DiskHeader
  decoded = fail_if wrong_magic (format "PLEPack magic mismatch") >> read_version

  pub decode_long : 128 ≤ length bytes → decode bytes ≡ decoded
  unfolding decode is_magic
  decode_long h =
      let long : ltb (length bytes) 128 ≡ false = ground arith in
      rw
        (
          long,
          range_in 8 0 8 refl (omega arith),
          read_u32_in 8 (omega arith) (omega arith),
          read_u32_in 12 (omega arith) (omega arith),
          slice_in 32 16 48 refl (omega arith),
          read_u64_in 48 (omega arith) (omega arith),
          read_u32_in 56 (omega arith) (omega arith),
          read_u32_in 60 (omega arith) (omega arith),
          read_u64_in 64 (omega arith) (omega arith),
          read_u64_in 72 (omega arith) (omega arith),
          read_u64_in 80 (omega arith) (omega arith),
          read_u64_in 88 (omega arith) (omega arith),
          slice_in 32 96 128 refl (omega arith),
          is_magic,
        )
        refl

new-ne-panic : (l : PlePackHeader) (hot index start size : ℕ) → new l hot index start size ≢ panic
unfolding new
new-ne-panic l hot index start size e = ground arith

decoded-ne-panic : (bytes : Bytes) → decoded bytes ≢ panic
decoded-ne-panic bytes =
    fail_if-ne-panic (wrong_magic bytes) (format "PLEPack magic mismatch") (read_version bytes) (
      fail_if-ne-panic (wrong_version bytes) (format "PLEPack version mismatch") (read_flags bytes)
        (fail_if-ne-panic (wrong_flags bytes) (format "unsupported PLEPack flags")
          (read_header bytes)
          (>>=-ne-panic (map_err layout (header_read bytes)) (disk_header bytes)
            (map_err-ne-panic layout (header_read bytes) (new_header-ne-panic _ _ _ _ _))
            (λ l.
              new-ne-panic l (number bytes 8 64) (number bytes 8 72) (number bytes 8 80)
                (number bytes 8 88)))))

-- `decode` returns a header or an error on every input: no read and no slice is out of bounds.
pub decode-ne-panic : (bytes : Bytes) → decode bytes ≢ panic
decode-ne-panic bytes = elim (Bool-cases (ltb (length bytes) 128)) [
  | inl short ↦ unfold decode in rw short (λ e. cc)
  | inr long ↦ rw (decode_long bytes (ground arith)) (decoded-ne-panic bytes)
]
