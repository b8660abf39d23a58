-- ===== src/Ple/Disk/Canonical.antt =====
-- What `decode` accepts: every accepted header is valid, and its encoding is what was read.
use mathlib.Core.List.{append-nil}
use gb10x.Prelude.{
  ◌↔◌, ℕ, zero, suc, ◌+◌, ◌*◌, ◌%◌, ◌^◌, ◌≤◌, ◌<◌, ◌≡◌, refl, sym, subst, ◌∙◌, true, false, [], ◌∷◌,
  ◌++◌, ok, map_err, All, length, take, drop, arith, not-eq_false, ==_iff, >>=-eq-ok, fail_if-eq-ok,
  map_err-eq-ok,
}
use gb10x.Ple.Bytes.{Bytes, IsByte, le_bytes, le_bytes-from_le, from_le-lt, take-drop_join}
use gb10x.Ple.Format.{PlePackHeader, format, layout, plepack_magic, header_of, header_new_iff}
use gb10x.Ple.Disk.{DiskHeader, new, encode, decode, equal_bytes}
use gb10x.Ple.Disk.RoundTrip.{IsValid, encode-payload}
use gb10x.Ple.Disk.Reads.{
  header_read, wrong_magic, wrong_version, wrong_flags, disk_header, read_header, read_flags,
  read_version, decoded, decode_long, part, number, length-part,
}

-- What the constructor has checked.
pub new_checks :
    (l : PlePackHeader) (hot index start size : ℕ) {h : DiskHeader}
    → new l hot index start size ≡ ok h
    → (h ≡ record {
      logical = l;
      hot_row_count = hot;
      index_bytes = index;
      data_offset = start;
      overlay_bytes = size;
    })
      × (index ≡ hot * 12)
      × (128 + index ≤ start)
      × (0 < l.block_bytes → start % l.block_bytes ≡ 0)
      × (0 < l.block_bytes → size % l.block_bytes ≡ 0)
unfolding new
new_checks l hot index start size e = ground arith

pub equal_bytes→eq : (xs ys : Bytes) → equal_bytes xs ys ≡ true → xs ≡ ys
unfolding equal_bytes
equal_bytes→eq [] [] e = refl
equal_bytes→eq [] (y ∷ ys) e = cc
equal_bytes→eq (x ∷ xs) [] e = cc
equal_bytes→eq (x ∷ xs) (y ∷ ys) e = ground (arith, equal_bytes→eq xs ys)

equal_bytes_refl : (xs : Bytes) → equal_bytes xs xs ≡ true
unfolding equal_bytes
equal_bytes_refl [] = refl
equal_bytes_refl (x ∷ xs) = rw (equal_bytes_refl xs) (ground arith)

pub equal_bytes_iff : (xs ys : Bytes) → (equal_bytes xs ys ≡ true) ↔ (xs ≡ ys)
equal_bytes_iff xs ys =
    (equal_bytes→eq xs ys, λ e. subst (λ zs. equal_bytes xs zs ≡ true) e (equal_bytes_refl xs))

long_of_decode : (bytes : Bytes) {h : DiskHeader} → decode bytes ≡ ok h → 128 ≤ length bytes
unfolding decode
long_of_decode bytes e = ground arith

-- The checks that a successful `decode` has made.
decoded_checks :
    (bytes : Bytes) {h : DiskHeader}
    → decoded bytes ≡ ok h
    → (wrong_magic bytes ≡ false)
      × (wrong_version bytes ≡ false)
      × (wrong_flags bytes ≡ false)
      × (l : PlePackHeader) × (header_read bytes ≡ ok l)
      × (disk_header bytes l ≡ ok h)
decoded_checks bytes e =
    let a =
      fail_if-eq-ok (wrong_magic bytes) (format "PLEPack magic mismatch") (read_version bytes) e in
    let b =
      fail_if-eq-ok (wrong_version bytes) (format "PLEPack version mismatch") (read_flags bytes)
        a.1 in
    let c =
      fail_if-eq-ok (wrong_flags bytes) (format "unsupported PLEPack flags") (read_header bytes)
        b.1 in
    let (l, el, en) = >>=-eq-ok (map_err layout (header_read bytes)) (disk_header bytes) c.1 in
    (a.0, b.0, c.0, l, map_err-eq-ok layout (header_read bytes) el, en)

pub All-take : (n : ℕ) (xs : Bytes) → All IsByte xs → All IsByte (take n xs)
All-take zero xs h = tt
All-take (suc n) [] h = tt
All-take (suc n) (x ∷ xs) h = (h.0, All-take n xs h.1)

pub All-drop : (n : ℕ) (xs : Bytes) → All IsByte xs → All IsByte (drop n xs)
All-drop zero xs h = h
All-drop (suc n) [] h = tt
All-drop (suc n) (x ∷ xs) h = All-drop n xs h.1

module _ (bytes : Bytes) (b : All IsByte bytes) {h : DiskHeader} (read : decode bytes ≡ ok h) where
  long : 128 ≤ length bytes
  long = long_of_decode bytes read

  -- A field is written back as the bytes that it was read from.
  rewritten :
      (width offset : ℕ)
      → offset + width ≤ 128
      → le_bytes width (number bytes width offset) ≡ part bytes width offset
  rewritten width offset fits =
      let e : length (part bytes width offset) ≡ width =
        length-part bytes width offset (omega (arith, long)) in
      rw e at
        (le_bytes-from_le (part bytes width offset) (All-take width _ (All-drop offset bytes b)))

  number_fits : (width offset : ℕ) → offset + width ≤ 128 → number bytes width offset < 256 ^ width
  number_fits width offset fits =
      let e : length (part bytes width offset) ≡ width =
        length-part bytes width offset (omega (arith, long)) in
      rw e at (from_le-lt (part bytes width offset) (All-take width _ (All-drop offset bytes b)))

  abbrev fields : DiskHeader
  fields = record {
    logical =
        header_of (part bytes 32 16) (number bytes 8 48) (number bytes 4 56) (number bytes 4 60)
          (part bytes 32 96);
    hot_row_count = number bytes 8 64;
    index_bytes = number bytes 8 72;
    data_offset = number bytes 8 80;
    overlay_bytes = number bytes 8 88;
  }

  -- The pieces of the header, in a row, are its 128 bytes.
  joined :
      part bytes 8 0
        ++ (part bytes 4 8
            ++ (part bytes 4 12
                ++ (part bytes 32 16
                    ++ (part bytes 8 48
                        ++ (part bytes 4 56
                            ++ (part bytes 4 60
                                ++ (part bytes 8 64
                                    ++ (part bytes 8 72
                                        ++ (part bytes 8 80
                                            ++ (part bytes 8 88 ++ part bytes 32 96))))))))))
      ≡ take 128 bytes
  joined =
      rw
        (
          take-drop_join 8 32 88 bytes,
          take-drop_join 8 40 80 bytes,
          take-drop_join 8 48 72 bytes,
          take-drop_join 8 56 64 bytes,
          take-drop_join 4 64 60 bytes,
          take-drop_join 4 68 56 bytes,
          take-drop_join 8 72 48 bytes,
          take-drop_join 32 80 16 bytes,
          take-drop_join 4 112 12 bytes,
          take-drop_join 4 116 8 bytes,
          take-drop_join 8 120 0 bytes,
        )
        refl

  accepted :
      (h ≡ fields)
      × (part bytes 8 0 ≡ plepack_magic)
      × (number bytes 4 8 ≡ 1)
      × (number bytes 4 12 ≡ 1)
      × IsValid fields
  accepted =
      let (magic, version, flags, l, el, en) =
        decoded_checks bytes (sym (decode_long bytes long) ∙ read) in
      let (geometry, el') = (header_new_iff _ _ _ _ _ l).0 el in
      let (eh, index, behind, data_aligned, overlay_aligned) =
        new_checks l (number bytes 8 64) (number bytes 8 72) (number bytes 8 80) (number bytes 8 88)
          en in
      let positive : 0 < l.block_bytes =
        subst (λ (x : PlePackHeader). 0 < x.block_bytes) (sym el')
          (omega (arith, geometry.width, geometry.block)) in
      (
        rw el' at eh,
        equal_bytes→eq (part bytes 8 0) plepack_magic (not-eq_false _ magic),
        (==_iff _ _).0 (not-eq_false _ version),
        (==_iff _ _).0 (not-eq_false _ flags),
        record {
          magic = refl;
          version = refl;
          geometry = geometry;
          source_digest = length-part bytes 32 16 (omega (arith, long));
          index_digest = length-part bytes 32 96 (omega (arith, long));
          block_word = omega (arith, number_fits 4 60 (omega arith));
          index = index;
          behind = behind;
          data_word = omega (arith, number_fits 8 80 (omega arith));
          overlay_word = omega (arith, number_fits 8 88 (omega arith));
          data_aligned = rw el' at (data_aligned positive);
          overlay_aligned = rw el' at (overlay_aligned positive);
        },
      )

-- When `decode` accepts the bytes of a sidecar, the header is valid, and `encode` gives back the
-- first 128 of the bytes.
pub encode-decode :
    (bytes : Bytes) (h : DiskHeader)
    → All IsByte bytes
    → decode bytes ≡ ok h
    → IsValid h × (encode h ≡ take 128 bytes)
encode-decode bytes h b read =
    let (eh, magic, version, flags, valid) = accepted bytes b read in
    rw eh (
      valid,
      rw
          (
            encode-payload (fields bytes b read) valid,
            rewritten bytes b read 8 48 (omega arith),
            rewritten bytes b read 4 56 (omega arith),
            rewritten bytes b read 4 60 (omega arith),
            rewritten bytes b read 8 64 (omega arith),
            rewritten bytes b read 8 72 (omega arith),
            rewritten bytes b read 8 80 (omega arith),
            rewritten bytes b read 8 88 (omega arith),
            append-nil (part bytes 32 96),
          )
          (rw
            (
              magic,
              ← rewritten bytes b read 4 8 (omega arith),
              version,
              ← rewritten bytes b read 4 12 (omega arith),
              flags,
            )
            at (joined bytes b read)),
    )
