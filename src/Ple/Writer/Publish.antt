-- ===== src/Ple/Writer/Publish.antt =====
-- crates/gb10x-ple/src/writer.rs: `write_overlay`, on the files of Ple/Files. The texts of the process
-- number and of the nonce of the temporary name are arguments.
use gb10x.Prelude.{ℕ, List, [], ◌∷◌, ◌++◌, ok, err, panic, ok_or, checked_add, length}
use gb10x.Prelude.Texts.{Text}
use gb10x.Ple.Bytes.{Bytes, zeros}
use gb10x.Ple.Format.{format}
use gb10x.Ple.Disk.{IoOutcome, disk_header_bytes, encode}
use gb10x.Ple.Layout.{HotOverlayPlacement, LayoutPlan}
use gb10x.Ple.Source.{ExactPleRowSource}
use gb10x.Ple.Files.{
  FilePath, Files, Step, ◌>>=◌, ◌>>◌, pure, touch, create_dir_all, open_directory, create_new,
  set_len, write_all, rename, remove_file,
}
use gb10x.Ple.Writer.{PlePackWriteReport, Prepared, prepare, overlay_offset_of}

unfoldable pub temporary_path : FilePath → Text → Text → FilePath
temporary_path path pid nonce = record {
  parent = path.parent;
  file_name = b'.' ∷ path.file_name ++ (b'.' ∷ b't' ∷ b'm' ∷ b'p' ∷ b'-' ∷ pid ++ (b'-' ∷ nonce));
}

unfoldable pub sync_parent_directory : FilePath → Step (Unit {0})
sync_parent_directory path = do open_directory path.parent; touch

-- The loop over the placements, with the buffer that it reuses.
unfoldable pub write_rows :
    FilePath → ExactPleRowSource → ℕ → ℕ → List HotOverlayPlacement → Bytes → Step (Unit {0})
write_rows file source block_bytes data_offset [] row = pure (ok tt)
write_rows file source block_bytes data_offset (p ∷ placements) row = do
  row' ← pure (source.read_exact_row p.logical_row row)
  overlay_offset ←
      pure (ok_or (overlay_offset_of block_bytes p) (format "hot overlay write offset overflow"))
  absolute ← pure (
      ok_or (checked_add data_offset overlay_offset)
        (format "hot overlay absolute offset overflow"))
  write_all file absolute row'
  write_rows file source block_bytes data_offset placements row'

unfoldable pub report_of : Prepared → PlePackWriteReport
report_of prepared = record {
  hot_rows = length prepared.index_entries;
  index_offset = disk_header_bytes;
  index_bytes = length prepared.index_payload;
  overlay_bytes = prepared.disk_header.overlay_bytes;
  file_bytes = prepared.file_bytes;
}

-- The temporary file, from its creation to the sync.
unfoldable pub write_file : FilePath → ExactPleRowSource → LayoutPlan → Prepared → Step (Unit {0})
write_file file source plan prepared = do
  create_new file
  set_len file prepared.file_bytes
  write_all file 0 (encode prepared.disk_header)
  write_all file disk_header_bytes prepared.index_payload
  write_rows file source plan.block_bytes prepared.disk_header.data_offset
      plan.hot_overlay_placements (zeros source.row_bytes)
  touch

-- The closure whose result is checked.
unfoldable pub publish :
    FilePath → FilePath → ExactPleRowSource → LayoutPlan → Prepared → Step PlePackWriteReport
publish path temp_path source plan prepared = do
  create_dir_all path.parent
  write_file temp_path source plan prepared
  rename temp_path path
  sync_parent_directory path
  pure (ok (report_of prepared))

-- `if result.is_err() { let _ = remove_file(..) }`; a panic unwinds past it.
unfoldable pub clean_up :
    FilePath → Files × IoOutcome PlePackWriteReport → Files × IoOutcome PlePackWriteReport
clean_up temp_path (fs, ok report) = (fs, ok report)
clean_up temp_path (fs, err e) = let (fs', ignored) = remove_file temp_path fs in (fs', err e)
clean_up temp_path (fs, panic) = (fs, panic)

unfoldable pub write_overlay :
    (Bytes → Bytes)
    → FilePath
    → Text
    → Text
    → ExactPleRowSource
    → LayoutPlan
    → Step PlePackWriteReport
write_overlay sha256 path pid nonce source plan = do
  prepared ← pure (prepare sha256 source plan)
  let temp_path = temporary_path path pid nonce
  λ fs. clean_up temp_path (publish path temp_path source plan prepared fs)
