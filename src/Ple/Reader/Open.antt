-- ===== src/Ple/Reader/Open.antt =====
-- What `open` accepts: every opened reader is well formed.
use gb10x.Prelude.{
  ℕ, ◌+◌, ◌*◌, ◌<◌, ◌≡◌, ◌↔◌, refl, sym, subst, ◌∙◌, not, List, ok, ◌>>=◌, ◌>>◌, fail_if, ok_or,
  u64_mod, ◌==◌, length, arith, All, checked_add, >>=-eq-ok, fail_if-eq-ok, ok-injective,
  not-eq_false, ==_iff, lt→ltb, eq→==,
}
use gb10x.Ple.Bytes.{Bytes, IsByte, get_range}
use gb10x.Ple.Format.{PlePackIoError, format, source_digest_mismatch, index_digest_mismatch}
use gb10x.Ple.Disk.{DiskHeader, IoOutcome, disk_header_bytes, decode, equal_bytes}
use gb10x.Ple.Disk.RoundTrip.{IsValid}
use gb10x.Ple.Disk.Reads.{part, range_in, length-part}
use gb10x.Ple.Disk.Canonical.{encode-decode, equal_bytes_iff}
use gb10x.Ple.Source.{ExactPleRowSource}
use gb10x.Ple.Reader.{PlePackReader, validate_index, open_pack}
use gb10x.Ple.Reader.Index.{Entry, HasWords, IsIndex, validate_index_iff}
use gb10x.Ple.Reader.Entries.{IsReader}

abbrev pub reader_of : Bytes → ExactPleRowSource → DiskHeader → PlePackReader
reader_of mmap source disk = record {
  mmap = mmap;
  source = source;
  header = disk.logical;
  hot_row_count = disk.hot_row_count;
  index_offset = disk_header_bytes;
  data_offset = disk.data_offset;
  overlay_bytes = disk.overlay_bytes;
}

-- The index that a header delimits.
abbrev pub index_of : Bytes → DiskHeader → Bytes
index_of mmap disk = part mmap disk.index_bytes 128

-- What `open` has to check of a sidecar whose header it has decoded.
pub record IsPack (sha256 : Bytes → Bytes) (source : ExactPleRowSource) (mmap : Bytes)
    (disk : DiskHeader) (entries : List Entry) : Type 0 where
  pub source_digest : disk.logical.source_digest ≡ source.source_digest
  pub row_count : disk.logical.row_count ≡ source.row_count
  pub row_bytes : disk.logical.row_bytes ≡ source.row_bytes
  pub size : disk.data_offset + disk.overlay_bytes ≡ length mmap
  pub index_digest : sha256 (index_of mmap disk) ≡ disk.logical.index_digest
  pub count : length entries ≡ disk.hot_row_count
  pub index : IsIndex disk (index_of mmap disk) entries

checked_sum :
    (a b : ℕ) (e : PlePackIoError) {sum : ℕ} → ok_or (checked_add a b) e ≡ ok sum → a + b ≡ sum
checked_sum a b e h = ground arith

module _ (sha256 : Bytes → Bytes) (source : ExactPleRowSource) (mmap : Bytes)
    (disk : DiskHeader) where
  -- The checks that are left once the header is decoded.
  abbrev finish : IoOutcome PlePackReader
  finish = ok (reader_of mmap source disk)

  abbrev check_index : Bytes → IoOutcome PlePackReader
  check_index index =
      fail_if (not (equal_bytes (sha256 index) disk.logical.index_digest)) index_digest_mismatch
      >> (validate_index index disk.hot_row_count disk >> finish)

  abbrev find_index : ℕ → IoOutcome PlePackReader
  find_index end =
      ok_or (get_range mmap disk_header_bytes end) (format "hot index lies outside sidecar")
      >>= check_index

  abbrev check_size : ℕ → IoOutcome PlePackReader
  check_size expected =
      fail_if (not (length mmap == expected)) (format "sidecar file length does not match header")
      >> (ok_or (checked_add disk_header_bytes disk.index_bytes)
            (format "index end does not fit usize")
          >>= find_index)

  abbrev measured : IoOutcome PlePackReader
  measured =
      ok_or (checked_add disk.data_offset disk.overlay_bytes)
        (format "sidecar file length overflow")
      >>= check_size

  abbrev same_width : IoOutcome PlePackReader
  same_width =
      fail_if (not (disk.logical.row_bytes == source.row_bytes))
        (format "sidecar/source logical row widths differ")
      >> measured

  abbrev same_rows : IoOutcome PlePackReader
  same_rows =
      fail_if (not (disk.logical.row_count == source.row_count))
        (format "sidecar/source logical row counts differ")
      >> same_width

  abbrev after_decode : IoOutcome PlePackReader
  after_decode =
      fail_if (not (equal_bytes disk.logical.source_digest source.source_digest))
        source_digest_mismatch
      >> same_rows

  module _ (short : length mmap < u64_mod) (valid : IsValid disk) where
    words : HasWords disk
    words =
        let g = valid.geometry in
        let b = valid.block_word in
        (omega (arith, g.width, g.block), b, omega (arith, g.block), valid.overlay_word)

    -- With the size of the file right, the index is found in it.
    size_checked :
        disk.data_offset + disk.overlay_bytes ≡ length mmap
        → measured ≡ check_index (index_of mmap disk)
    size_checked h =
        let behind = valid.behind in
        let a = lt→ltb (disk.data_offset + disk.overlay_bytes) u64_mod (omega arith) in
        let b = eq→== (length mmap) (disk.data_offset + disk.overlay_bytes) (sym h) in
        let c = lt→ltb (128 + disk.index_bytes) u64_mod (omega arith) in
        rw (a, b, c, range_in mmap disk.index_bytes 128 (128 + disk.index_bytes) refl (omega arith))
          refl

    index_short :
        disk.data_offset + disk.overlay_bytes ≡ length mmap → length (index_of mmap disk) < u64_mod
    index_short h =
        let behind = valid.behind in
        omega (arith, length-part mmap disk.index_bytes 128 (omega arith))

    accepted :
        {r : PlePackReader}
        → after_decode ≡ ok r
        → (entries : List Entry) × IsPack sha256 source mmap disk entries
          × (r ≡ reader_of mmap source disk)
    accepted h =
        let (a, h1) =
          fail_if-eq-ok (not (equal_bytes disk.logical.source_digest source.source_digest))
            source_digest_mismatch same_rows h in
        let (b, h2) =
          fail_if-eq-ok (not (disk.logical.row_count == source.row_count))
            (format "sidecar/source logical row counts differ") same_width h1 in
        let (c, h3) =
          fail_if-eq-ok (not (disk.logical.row_bytes == source.row_bytes))
            (format "sidecar/source logical row widths differ") measured h2 in
        let (expected, m, h4) =
          >>=-eq-ok
            (ok_or (checked_add disk.data_offset disk.overlay_bytes)
              (format "sidecar file length overflow"))
            check_size h3 in
        let (d, _) =
          fail_if-eq-ok (not (length mmap == expected))
            (format "sidecar file length does not match header")
            (ok_or (checked_add disk_header_bytes disk.index_bytes)
                (format "index end does not fit usize")
              >>= find_index)
            h4 in
        let size : disk.data_offset + disk.overlay_bytes ≡ length mmap =
          checked_sum disk.data_offset disk.overlay_bytes _ m
          ∙ sym ((==_iff _ _).0 (not-eq_false _ d)) in
        let index = index_of mmap disk in
        let (e, h5) =
          fail_if-eq-ok (not (equal_bytes (sha256 index) disk.logical.index_digest))
            index_digest_mismatch (validate_index index disk.hot_row_count disk >> finish)
            (sym (size_checked size) ∙ h3) in
        let (u, validated, last) =
          >>=-eq-ok (validate_index index disk.hot_row_count disk) (λ _. finish) h5 in
        let (entries, count, i) =
          (validate_index_iff disk index disk.hot_row_count words (index_short size)).0 validated in
        (
          entries,
          record {
            source_digest = (equal_bytes_iff _ _).0 (not-eq_false _ a);
            row_count = (==_iff _ _).0 (not-eq_false _ b);
            row_bytes = (==_iff _ _).0 (not-eq_false _ c);
            size = size;
            index_digest = (equal_bytes_iff _ _).0 (not-eq_false _ e);
            count = count;
            index = i;
          },
          sym (ok-injective last),
        )

    pub accepts :
        (entries : List Entry)
        → IsPack sha256 source mmap disk entries
        → after_decode ≡ ok (reader_of mmap source disk)
    accepts entries p =
        let a =
          (equal_bytes_iff disk.logical.source_digest source.source_digest).1 p.source_digest in
        let b = eq→== disk.logical.row_count source.row_count p.row_count in
        let c = eq→== disk.logical.row_bytes source.row_bytes p.row_bytes in
        let d =
          (equal_bytes_iff (sha256 (index_of mmap disk)) disk.logical.index_digest).1
            p.index_digest in
        let e =
          (validate_index_iff disk (index_of mmap disk) disk.hot_row_count words
              (index_short p.size)).1
            (entries, p.count, p.index) in
        rw (a, b, c, size_checked p.size, d, e) refl

pub pack-IsReader :
    (sha256 : Bytes → Bytes) (source : ExactPleRowSource) (mmap : Bytes) (disk : DiskHeader)
    (entries : List Entry)
    → length mmap < u64_mod
    → IsValid disk
    → IsPack sha256 source mmap disk entries
    → IsReader (reader_of mmap source disk) entries
pack-IsReader sha256 source mmap disk entries short valid p =
    let n : disk.index_bytes ≡ length entries * 12 = omega (arith, valid.index, p.count) in
    record {
      count = sym p.count;
      index_offset = refl;
      room = omega (arith, valid.behind);
      size = p.size;
      short = short;
      decoded = rw n at p.index.decoded;
      ascending = p.index.ascending;
      inside = p.index.inside;
      rows = p.row_count;
      width = p.row_bytes;
    }

-- For a file of bytes, of u64 length, `open` gives a reader exactly when the file begins with a header
-- that matches the source, its length and its index digest are the header's, and its index is one of
-- ascending rows stored inside the overlay; the reader then keeps the file, the source and the header.
pub open_pack_iff :
    (sha256 : Bytes → Bytes) (source : ExactPleRowSource) (mmap : Bytes) (r : PlePackReader)
    → length mmap < u64_mod
    → All IsByte mmap
    → (open_pack sha256 (ok mmap) source ≡ ok r) ↔ (
        (disk : DiskHeader) × (entries : List Entry) × (decode mmap ≡ ok disk)
        × IsPack sha256 source mmap disk entries
        × (r ≡ reader_of mmap source disk))
unfolding open_pack
open_pack_iff sha256 source mmap r short bytes = (
  λ h.
      let (disk, read, h') =
        >>=-eq-ok (decode mmap) (λ (d : DiskHeader). after_decode sha256 source mmap d) h in
      let valid = (encode-decode mmap disk bytes read).0 in
      let (entries, p, e) = accepted sha256 source mmap disk short valid h' in
      (disk, entries, read, p, e),
  λ (disk, entries, read, p, e).
      let valid = (encode-decode mmap disk bytes read).0 in
      rw (read, e) (accepts sha256 source mmap disk short valid entries p),
)

-- A reader that `open` gives on a file of bytes, of u64 length, is well formed.
pub open_pack-IsReader :
    (sha256 : Bytes → Bytes) (source : ExactPleRowSource) (mmap : Bytes) {r : PlePackReader}
    → length mmap < u64_mod
    → All IsByte mmap
    → open_pack sha256 (ok mmap) source ≡ ok r
    → (entries : List Entry) × IsReader r entries × (r.mmap ≡ mmap) × (r.source ≡ source)
open_pack-IsReader sha256 source mmap {r} short bytes h =
    let (disk, entries, read, p, e) = (open_pack_iff sha256 source mmap r short bytes).0 h in
    let valid = (encode-decode mmap disk bytes read).0 in
    subst
      (λ (q : PlePackReader).
        (entries : List Entry) × IsReader q entries × (q.mmap ≡ mmap) × (q.source ≡ source))
      (sym e) (entries, pack-IsReader sha256 source mmap disk entries short valid p, refl, refl)
