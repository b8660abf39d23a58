-- ===== src/Ple/Writer/RoundTrip.antt =====
-- From the writer to the reader: a written sidecar opens, verifies, and reads as its source.
use gb10x.Prelude.{
  ℕ, ◌≡◌, ◌∙◌, ap, ◌⊎◌, inl, inr, sym, subst, Option, none, some, ok, ok-injective, length, ◌<◌,
  u64_mod,
}
use gb10x.Prelude.Texts.{Text, IsNonempty}
use gb10x.Ple.Bytes.{Bytes}
use gb10x.Ple.Disk.RoundTrip.{IsValid}
use gb10x.Ple.Layout.{LayoutPlan}
use gb10x.Ple.Source.{ExactPleRowSource}
use gb10x.Ple.Reader.{PlePackReader, open_pack, verify_hot_overlay, read_exact_row}
use gb10x.Ple.Reader.Entries.{IsReader}
use gb10x.Ple.Reader.Reads.{IsExact, All_at}
use gb10x.Ple.Reader.Verify.{IsCopy, verify_hot_overlay_iff, verify_hot_overlay-read_exact_row}
use gb10x.Ple.Reader.Open.{IsPack, reader_of, accepts, pack-IsReader}
use gb10x.Ple.Files.{FilePath, Files, find_file}
use gb10x.Ple.Writer.{PlePackWriteReport, Prepared, prepare}
use gb10x.Ple.Writer.Publish.{temporary_path, write_overlay, report_of, publish, clean_up}
use gb10x.Ple.Writer.Effects.{sidecar_of}
use gb10x.Ple.Writer.Checks.{IsPrepared, prepare-IsPrepared}
use gb10x.Ple.Writer.LaidOut.{IsLaidOut}
use gb10x.Ple.Writer.Complete.{
  valid, complete_short, complete-decode, complete-IsPack, complete-copies, placements_writable,
  length-complete,
}
use gb10x.Ple.Files.Calm.{IsCalm}
use gb10x.Ple.Writer.Success.{publish-success}
use gb10x.Ple.Writer.Replace.{clean_up-ok}
use gb10x.Ple.Writer.Atomic.{write_overlay-atomic, write_overlay-ok}

-- A file from which the reader opens, verifies so many rows, and reads every row, into every buffer, as
-- the source does.
pub record IsSidecar (sha256 : Bytes → Bytes) (source : ExactPleRowSource) (mmap : Bytes)
    (hot_rows : ℕ) : Type 0 where
  pub reader : PlePackReader
  pub opened : open_pack sha256 (ok mmap) source ≡ ok reader
  pub verified : verify_hot_overlay reader ≡ ok hot_rows
  pub reads :
      (row : ℕ) (dst : Bytes) → read_exact_row reader row dst ≡ source.read_exact_row row dst

module _ (sha256 : Bytes → Bytes) (sha256_width : (b : Bytes) → length (sha256 b) ≡ 32)
    (source : ExactPleRowSource) (digest_width : length source.source_digest ≡ 32)
    (rows : ℕ → Bytes) (exact : IsExact source rows) (plan : LayoutPlan)
    (laid : IsLaidOut plan) where
  module _ (prepared : Prepared) (w : IsPrepared sha256 source plan prepared) where
    abbrev file : Bytes
    file = sidecar_of rows plan prepared

    abbrev pack_reader : PlePackReader
    pack_reader = reader_of file source prepared.disk_header

    header-IsValid : IsValid prepared.disk_header
    header-IsValid = valid sha256 sha256_width source digest_width rows exact plan laid prepared w

    file-IsPack : IsPack sha256 source file prepared.disk_header prepared.index_entries
    file-IsPack =
        complete-IsPack sha256 sha256_width source digest_width rows exact plan laid prepared w

    file_short : length file < u64_mod
    file_short =
        complete_short sha256 sha256_width source digest_width rows exact plan laid prepared w

    file-IsReader : IsReader pack_reader prepared.index_entries
    file-IsReader =
        pack-IsReader sha256 source file prepared.disk_header prepared.index_entries file_short
          header-IsValid file-IsPack

    file_opened : open_pack sha256 (ok file) source ≡ ok pack_reader
    unfolding open_pack
    file_opened =
        rw (complete-decode sha256 sha256_width source digest_width rows exact plan laid prepared w)
          (accepts sha256 source file prepared.disk_header file_short header-IsValid
            prepared.index_entries file-IsPack)

    file_verified : verify_hot_overlay pack_reader ≡ ok (length prepared.index_entries)
    file_verified =
        let copies =
          complete-copies sha256 sha256_width source digest_width rows exact plan laid prepared w in
        (verify_hot_overlay_iff pack_reader prepared.index_entries file-IsReader rows exact
            (length prepared.index_entries)).1
          (
            file-IsPack.count,
            λ i e _ h. All_at (IsCopy pack_reader rows) prepared.index_entries i copies h,
          )

    file-IsSidecar : IsSidecar sha256 source file (length prepared.index_entries)
    file-IsSidecar = record {
      reader = pack_reader;
      opened = file_opened;
      verified = file_verified;
      reads =
          verify_hot_overlay-read_exact_row pack_reader prepared.index_entries file-IsReader rows
            exact file_verified;
    }

  module _ (path : FilePath) (pid nonce : Text) (fs : Files) where
    abbrev after : Option Bytes
    after = find_file path (write_overlay sha256 path pid nonce source plan fs).0.contents

    -- Over an exact source and a plan of rows that lie apart inside their blocks, with digests of 32
    -- bytes, whichever file operations fail, the path holds afterwards what it held before, or a sidecar
    -- that the reader opens and verifies, and that gives every row of the source.
    pub write_overlay-atomic-IsSidecar :
        (after ≡ find_file path fs.contents)
        ⊎ ((bytes : Bytes) × (hot_rows : ℕ) × (after ≡ some bytes)
            × IsSidecar sha256 source bytes hot_rows)
    write_overlay-atomic-IsSidecar =
        elim (write_overlay-atomic sha256 path pid nonce source plan rows exact fs) [
          | inl old ↦ inl old
          | inr (prepared, e, new) ↦ inr (
            sidecar_of rows plan prepared,
            length prepared.index_entries,
            new,
            file-IsSidecar prepared (prepare-IsPrepared sha256 source plan e),
          )
        ]

    -- Where the writer succeeds, over an exact source and a plan of rows that lie apart inside their
    -- blocks, with digests of 32 bytes, the path holds a sidecar that the reader opens, in which it
    -- verifies as many rows as the report counts, and that gives every row of the source; no temporary
    -- file is left.
    pub write_overlay-IsSidecar :
        {r : PlePackWriteReport}
        → (write_overlay sha256 path pid nonce source plan fs).1 ≡ ok r
        → (bytes : Bytes) × (after ≡ some bytes)
          × IsSidecar sha256 source bytes r.hot_rows
          × (find_file
                (temporary_path path pid nonce)
                (write_overlay sha256 path pid nonce source plan fs).0.contents
              ≡ none)
    unfolding report_of
    write_overlay-IsSidecar h =
        let (prepared, e, same, new, gone) =
          write_overlay-ok sha256 path pid nonce source plan rows exact fs h in
        (
          sidecar_of rows plan prepared,
          new,
          subst
              (λ (r : PlePackWriteReport).
                IsSidecar sha256 source (sidecar_of rows plan prepared) r.hot_rows)
              (sym same) (file-IsSidecar prepared (prepare-IsPrepared sha256 source plan e)),
          gone,
        )

    returned :
        (prepared : Prepared)
        → prepare sha256 source plan ≡ ok prepared
        → IsNonempty path.parent
        → IsCalm fs
        → find_file (temporary_path path pid nonce) fs.contents ≡ none
        → (write_overlay sha256 path pid nonce source plan fs).1 ≡ ok (report_of prepared)
    unfolding write_overlay clean_up
    returned prepared e named calm free =
        let w = prepare-IsPrepared sha256 source plan e in
        let ws =
          placements_writable sha256 sha256_width source digest_width rows exact plan laid prepared
            w in
        let done =
          publish-success path (temporary_path path pid nonce) source rows exact plan prepared ws
            named fs calm free in
        rw e (
          clean_up-ok (temporary_path path pid nonce)
            (publish path (temporary_path path pid nonce) source plan prepared fs) done)

    -- Without faults, with a free temporary path and a path that has a parent, what the writer has
    -- prepared is published, over an exact source and a plan of rows that lie apart inside their blocks,
    -- with digests of 32 bytes: the writer returns the report, the path holds the complete sidecar, of
    -- the size and the hot rows that the report gives, which opens, verifies and reads as the source,
    -- and no temporary file is left.
    pub write_overlay-success :
        (prepared : Prepared)
        → prepare sha256 source plan ≡ ok prepared
        → IsNonempty path.parent
        → IsCalm fs
        → find_file (temporary_path path pid nonce) fs.contents ≡ none
        → ((write_overlay sha256 path pid nonce source plan fs).1 ≡ ok (report_of prepared))
          × (after ≡ some (sidecar_of rows plan prepared))
          × (length (sidecar_of rows plan prepared) ≡ (report_of prepared).file_bytes)
          × IsSidecar sha256 source (sidecar_of rows plan prepared) (report_of prepared).hot_rows
          × (find_file
                (temporary_path path pid nonce)
                (write_overlay sha256 path pid nonce source plan fs).0.contents
              ≡ none)
    unfolding report_of
    write_overlay-success prepared e named calm free =
        let w = prepare-IsPrepared sha256 source plan e in
        let done = returned prepared e named calm free in
        let (other, e', _, new, gone) =
          write_overlay-ok sha256 path pid nonce source plan rows exact fs done in
        let same : other ≡ prepared = ok-injective (sym e' ∙ e) in
        (
          done,
          new ∙ ap (λ (p : Prepared). some (sidecar_of rows plan p)) same,
          length-complete sha256 sha256_width source digest_width rows exact plan laid prepared w,
          file-IsSidecar prepared w,
          gone,
        )
