-- ===== src/Ple/Writer/Success.antt =====
-- Without faults, what the writer has prepared is published.
use gb10x.Prelude.{
  ℕ, ◌+◌, ◌*◌, ◌<◌, ◌≡◌, ◌∙◌, refl, ap, none, List, [], ◌∷◌, ok, ok_or, u64_mod, length, arith, All,
  lt→ltb, lt→leb, eq→==,
}
use gb10x.Prelude.Texts.{IsNonempty}
use gb10x.Ple.Bytes.{Bytes, zeros}
use gb10x.Ple.Format.{PlePackIoError, format}
use gb10x.Ple.Disk.{encode}
use gb10x.Ple.Disk.Writes.{length-zeros}
use gb10x.Ple.Layout.{HotOverlayPlacement, LayoutPlan}
use gb10x.Ple.Layout.Placements.{address}
use gb10x.Ple.Source.{ExactPleRowSource}
use gb10x.Ple.Reader.Reads.{IsExact}
use gb10x.Ple.Files.{
  FilePath, Files, Step, ◌>>=◌, ◌>>◌, pure, find_file, touch, create_dir_all, open_directory,
  create_new, set_len, write_all, rename,
}
use gb10x.Ple.Files.Operations.{create_dir_all-Stays}
use gb10x.Ple.Files.Calm.{
  IsCalm, SucceedsOn, Succeeds, and_then-ok, >>=-SucceedsOn, touch-Succeeds,
  create_dir_all-Succeeds, open_directory-Succeeds, create_new-SucceedsOn, set_len-Succeeds,
  write_all-Succeeds, rename-Succeeds,
}
use gb10x.Ple.Writer.{PlePackWriteReport, Prepared, overlay_offset_of, and_add}
use gb10x.Ple.Writer.Publish.{sync_parent_directory, write_rows, write_file, report_of, publish}

offset_found :
    (block_bytes : ℕ) (p : HotOverlayPlacement) (e : PlePackIoError)
    → address block_bytes p < u64_mod
    → ok_or (overlay_offset_of block_bytes p) e ≡ ok (address block_bytes p)
unfolding overlay_offset_of and_add
offset_found block_bytes p e h =
    let a = lt→ltb (p.block_id * block_bytes) u64_mod (omega (arith, h)) in
    let b = lt→ltb (p.block_id * block_bytes + p.offset_in_block) u64_mod h in rw (a, b) refl

module _ (file : FilePath) (source : ExactPleRowSource) (rows : ℕ → Bytes)
    (exact : IsExact source rows) (block_bytes data_offset : ℕ) where
  -- A placement of a row of the source, whose place in the file is a u64.
  abbrev pub IsWritable : HotOverlayPlacement → Type 0
  IsWritable p =
      (p.logical_row < source.row_count) × (data_offset + address block_bytes p < u64_mod)

  row_read :
      (row : ℕ) (dst : Bytes)
      → row < source.row_count
      → length dst ≡ source.row_bytes
      → source.read_exact_row row dst ≡ ok (rows row)
  row_read row dst within fits =
      let a = lt→leb source.row_count row within in
      let b = eq→== (length dst) source.row_bytes fits in exact.read row dst ∙ rw (a, b) refl

  pub write_rows-Succeeds :
      (placements : List HotOverlayPlacement) (row : Bytes)
      → length row ≡ source.row_bytes
      → All IsWritable placements
      → Succeeds (write_rows file source block_bytes data_offset placements row)
  unfolding write_rows
  write_rows-Succeeds [] row fits ws = λ fs calm. (refl, calm)
  write_rows-Succeeds (p ∷ placements) row fits ((within, word), ws) = λ fs calm.
      let row' = rows p.logical_row in
      let a = row_read p.logical_row row within fits in
      let b =
        offset_found block_bytes p (format "hot overlay write offset overflow")
          (omega (arith, word)) in
      let c = lt→ltb (data_offset + address block_bytes p) u64_mod word in
      let rest = write_rows file source block_bytes data_offset placements row' in
      rw (a, b, c)
        (>>=-SucceedsOn (write_all file (data_offset + address block_bytes p) row') rest fs
          (write_all-Succeeds file (data_offset + address block_bytes p) row' fs calm)
          (write_rows-Succeeds placements row' (exact.width p.logical_row within) ws
            (write_all file (data_offset + address block_bytes p) row' fs).0))

-- The temporary file is written where its path is free.
write_file-SucceedsOn :
    (file : FilePath) (source : ExactPleRowSource) (rows : ℕ → Bytes)
    → IsExact source rows
    → (plan : LayoutPlan) (prepared : Prepared)
    → All
        (λ p.
          (p.logical_row < source.row_count)
          × (prepared.disk_header.data_offset + address plan.block_bytes p < u64_mod))
        plan.hot_overlay_placements
    → (fs : Files) → IsCalm fs
    → find_file file fs.contents ≡ none
    → SucceedsOn (write_file file source plan prepared) fs
unfolding write_file
write_file-SucceedsOn file source rows exact plan prepared ws fs calm free =
    let copy =
      write_rows file source plan.block_bytes prepared.disk_header.data_offset
        plan.hot_overlay_placements (zeros source.row_bytes) in
    let finish = copy >> touch in
    let write_index = write_all file 128 prepared.index_payload >> finish in
    let write_header = write_all file 0 (encode prepared.disk_header) >> write_index in
    let extend = set_len file prepared.file_bytes >> write_header in
    let copied =
      write_rows-Succeeds file source rows exact plan.block_bytes prepared.disk_header.data_offset
        plan.hot_overlay_placements (zeros source.row_bytes) (length-zeros source.row_bytes) ws in
    let finished : Succeeds finish =
      λ gs c. >>=-SucceedsOn copy touch gs (copied gs c) (touch-Succeeds (copy gs).0) in
    let indexed : Succeeds write_index = λ gs c.
      >>=-SucceedsOn (write_all file 128 prepared.index_payload) finish gs
        (write_all-Succeeds file 128 prepared.index_payload gs c)
        (finished (write_all file 128 prepared.index_payload gs).0) in
    let headed : Succeeds write_header = λ gs c.
      >>=-SucceedsOn (write_all file 0 (encode prepared.disk_header)) write_index gs
        (write_all-Succeeds file 0 (encode prepared.disk_header) gs c)
        (indexed (write_all file 0 (encode prepared.disk_header) gs).0) in
    let extended : Succeeds extend = λ gs c.
      >>=-SucceedsOn (set_len file prepared.file_bytes) write_header gs
        (set_len-Succeeds file prepared.file_bytes gs c)
        (headed (set_len file prepared.file_bytes gs).0) in
    >>=-SucceedsOn (create_new file) extend fs (create_new-SucceedsOn file fs calm free)
      (extended (create_new file fs).0)

module _ (path temp_path : FilePath) (source : ExactPleRowSource) (rows : ℕ → Bytes)
    (exact : IsExact source rows) (plan : LayoutPlan) (prepared : Prepared) where
  abbrev report : Step PlePackWriteReport
  report = pure (ok (report_of prepared))

  abbrev sync : Step PlePackWriteReport
  sync = sync_parent_directory path >>= λ _. report

  abbrev replace : Step PlePackWriteReport
  replace = rename temp_path path >>= λ _. sync

  abbrev write : Step PlePackWriteReport
  write = write_file temp_path source plan prepared >>= λ _. replace

  sync-SucceedsOn :
      IsNonempty path.parent → (fs : Files) → IsCalm fs → SucceedsOn (sync_parent_directory path) fs
  unfolding sync_parent_directory
  sync-SucceedsOn named fs calm =
      >>=-SucceedsOn (open_directory path.parent) touch fs
        (open_directory-Succeeds path.parent named fs calm)
        (touch-Succeeds (open_directory path.parent fs).0)

  pub publish-success :
      All
        (λ p.
          (p.logical_row < source.row_count)
          × (prepared.disk_header.data_offset + address plan.block_bytes p < u64_mod))
        plan.hot_overlay_placements
      → IsNonempty path.parent
      → (fs : Files) → IsCalm fs
      → find_file temp_path fs.contents ≡ none
      → (publish path temp_path source plan prepared fs).1 ≡ ok (report_of prepared)
  unfolding publish
  publish-success ws named fs calm free =
      let (d1, c1) = create_dir_all-Succeeds path.parent fs calm in
      let fs1 = (create_dir_all path.parent fs).0 in
      let free' = create_dir_all-Stays temp_path path.parent fs ∙ free in
      let (d2, c2) =
        write_file-SucceedsOn temp_path source rows exact plan prepared ws fs1 c1 free' in
      let fs2 = (write_file temp_path source plan prepared fs1).0 in
      let (d3, c3) = rename-Succeeds temp_path path fs2 c2 in
      let fs3 = (rename temp_path path fs2).0 in
      let (d4, _) = sync-SucceedsOn named fs3 c3 in
      ap (λ o. o.1)
        (and_then-ok (create_dir_all path.parent fs) (λ _. write) d1
          ∙ and_then-ok (write_file temp_path source plan prepared fs1) (λ _. replace) d2
          ∙ and_then-ok (rename temp_path path fs2) (λ _. sync) d3
          ∙ and_then-ok (sync_parent_directory path fs3) (λ _. report) d4)
