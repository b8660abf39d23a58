-- ===== src/Ple/Writer/Tests.antt =====
-- The writer's theorems on a small source, a plan of two rows, and files with and without faults.
use gb10x.Prelude.{
  err, ℕ, ◌≡◌, ◌≢◌, ◌⊎◌, refl, Option, none, some, List, [], ◌∷◌, ◌++◌, ok, arith, length, false,
}
use gb10x.Prelude.Sorted.{contains, sort_unstable, dedup}
use gb10x.Prelude.Texts.{Text, equal_list}
use gb10x.Ple.Bytes.{Bytes, zeros, le_bytes}
use gb10x.Ple.Format.{header_of, new as new_header}
use gb10x.Ple.Disk.{encode_index_entry, new as new_disk}
use gb10x.Ple.Layout.{LayoutPlan, plan_exact_layout, scan_trace, scan_group, see, place, place_all}
use gb10x.Ple.Source.{raw_rows}
use gb10x.Ple.Reader.Flat.{flat_rows}
use gb10x.Ple.Reader.Tests.{bytes_of, flat, source, flat-IsExact}
use gb10x.Ple.Format.{io}
use gb10x.Ple.Disk.{encode}
use gb10x.Ple.Source.{read_source_row}
use gb10x.Ple.Files.{
  erase_file, next_fault, same_path, create_dir_all, create_new, set_len, write_all, touch,
  remove_file, put_file, rename, open_directory, FilePath, Files, find_file, same_path,
}
use gb10x.Ple.Writer.{
  Prepared, prepare, validate_source_plan, index_entries_of, overlay_offset_of, and_add,
  insert_by_row, sort_by_row, any_repeated, payload_of, align_up, overlay_storage_bytes,
  storage_after, and_mul, last_placement,
}
use gb10x.Ple.Writer.Publish.{
  publish, write_file, write_rows, clean_up, sync_parent_directory, temporary_path, write_overlay,
  report_of,
}
use gb10x.Ple.Writer.Effects.{sidecar_of}
use gb10x.Ple.Writer.LaidOut.{IsLaidOut}
use gb10x.Ple.Writer.Planned.{plan_exact_layout-IsLaidOut}
use gb10x.Ple.Writer.Atomic.{write_overlay-Stays, write_overlay-bare}
use gb10x.Ple.Writer.RoundTrip.{
  IsSidecar, write_overlay-atomic-IsSidecar, write_overlay-IsSidecar, write_overlay-success,
}

abbrev trace : List (List ℕ)
trace = (3 ∷ 1 ∷ []) ∷ (3 ∷ []) ∷ []

abbrev plan : LayoutPlan
plan = record {
  row_count = 4;
  row_bytes = 3;
  block_bytes = 4;
  hot_physical_order = 1 ∷ 3 ∷ [];
  hot_overlay_placements =
      record { logical_row = 1; block_id = 0; offset_in_block = 0 }
      ∷ record { logical_row = 3; block_id = 1; offset_in_block = 0 }
      ∷ [];
}

planned_small : plan_exact_layout 4 3 4 trace ≡ ok plan
unfolding plan_exact_layout scan_trace scan_group see place place_all contains sort_unstable dedup
planned_small = refl

plan-IsLaidOut : IsLaidOut plan
plan-IsLaidOut = plan_exact_layout-IsLaidOut 4 3 4 trace (omega arith) (omega arith) planned_small

abbrev sha256 : Bytes → Bytes
sha256 bytes = bytes_of 32 9

abbrev prepared : Prepared
prepared = record {
  index_entries = (1, 0) ∷ (3, 4) ∷ [];
  index_payload = 1 ∷ zeros 11 ++ (3 ∷ zeros 3 ++ (4 ∷ zeros 7));
  disk_header = record {
    logical = header_of (bytes_of 32 9) 4 3 4 (bytes_of 32 9);
    hot_row_count = 2;
    index_bytes = 24;
    data_offset = 152;
    overlay_bytes = 8;
  };
  file_bytes = 160;
}

prepared_small : prepare sha256 source plan ≡ ok prepared
unfolding prepare validate_source_plan index_entries_of overlay_offset_of and_add insert_by_row
    sort_by_row any_repeated payload_of align_up overlay_storage_bytes storage_after and_mul
    last_placement raw_rows new_header new_disk encode_index_entry le_bytes
prepared_small = refl

abbrev path : FilePath
path = record { parent = b'd' ∷ []; file_name = b'p' ∷ [] }

abbrev bare_path : FilePath
bare_path = record { parent = []; file_name = b'p' ∷ [] }

abbrev other_path : FilePath
other_path = record { parent = b'd' ∷ []; file_name = b'q' ∷ [] }

-- An older sidecar, and another file.
abbrev calm : Files
calm = record { contents = (path, 7 ∷ []) ∷ (other_path, 8 ∷ []) ∷ []; faults = [] }

-- The write of the index fails after five bytes.
abbrev faulty : Files
faulty = record {
  contents = calm.contents;
  faults =
      none
      ∷ none
      ∷ none
      ∷ none
      ∷ none
      ∷ none
      ∷ some (record { message = "no space left on device"; written = 5 })
      ∷ [];
}

abbrev pid : Text
pid = b'4' ∷ b'2' ∷ []

abbrev nonce : Text
nonce = b'7' ∷ []

abbrev after : Files → Option Bytes
after fs = find_file path (write_overlay sha256 path pid nonce source plan fs).0.contents

digest_width : length source.source_digest ≡ 32
unfolding raw_rows
digest_width = refl

free : find_file (temporary_path path pid nonce) calm.contents ≡ none
unfolding find_file temporary_path same_path equal_list
free = refl

written : (write_overlay sha256 path pid nonce source plan calm).1 ≡ ok (report_of prepared)
written =
    (write_overlay-success sha256 (λ b. refl) source digest_width (flat_rows flat) flat-IsExact plan
      plan-IsLaidOut path pid nonce calm prepared prepared_small tt refl free).0

write_overlay-success_example :
    ((write_overlay sha256 path pid nonce source plan calm).1
      ≡ ok (record {
        hot_rows = 2;
        index_offset = 128;
        index_bytes = 24;
        overlay_bytes = 8;
        file_bytes = 160;
      }))
    × (after calm ≡ some (sidecar_of (flat_rows flat) plan prepared))
    × (length (sidecar_of (flat_rows flat) plan prepared) ≡ 160)
    × IsSidecar sha256 source (sidecar_of (flat_rows flat) plan prepared) 2
    × (find_file
          (temporary_path path pid nonce)
          (write_overlay sha256 path pid nonce source plan calm).0.contents
        ≡ none)
unfolding report_of
write_overlay-success_example =
    write_overlay-success sha256 (λ b. refl) source digest_width (flat_rows flat) flat-IsExact plan
      plan-IsLaidOut path pid nonce calm prepared prepared_small tt refl free

write_overlay-IsSidecar_example :
    (bytes : Bytes) × (after calm ≡ some bytes)
    × IsSidecar sha256 source bytes 2
    × (find_file
          (temporary_path path pid nonce)
          (write_overlay sha256 path pid nonce source plan calm).0.contents
        ≡ none)
unfolding report_of
write_overlay-IsSidecar_example =
    write_overlay-IsSidecar sha256 (λ b. refl) source digest_width (flat_rows flat) flat-IsExact
      plan plan-IsLaidOut path pid nonce calm written

write_overlay-atomic-IsSidecar_example :
    (after faulty ≡ find_file path faulty.contents)
    ⊎ ((bytes : Bytes) × (hot_rows : ℕ) × (after faulty ≡ some bytes)
        × IsSidecar sha256 source bytes hot_rows)
write_overlay-atomic-IsSidecar_example =
    write_overlay-atomic-IsSidecar sha256 (λ b. refl) source digest_width (flat_rows flat)
      flat-IsExact plan plan-IsLaidOut path pid nonce faulty

same_path_apart :
    (same_path other_path path ≡ false)
    × (same_path other_path (temporary_path path pid nonce) ≡ false)
unfolding same_path temporary_path equal_list
same_path_apart = (refl, refl)

write_overlay-Stays_example :
    find_file other_path (write_overlay sha256 path pid nonce source plan faulty).0.contents
    ≡ find_file other_path faulty.contents
write_overlay-Stays_example =
    write_overlay-Stays sha256 path pid nonce source plan other_path same_path_apart.0
      same_path_apart.1 faulty

write_overlay-bare_example :
    (write_overlay sha256 bare_path pid nonce source plan calm).1 ≢ ok (report_of prepared)
write_overlay-bare_example =
    write_overlay-bare sha256 bare_path pid nonce source plan refl calm (report_of prepared)

-- The failed write leaves the older sidecar, and no temporary file.
failed_run :
    write_overlay sha256 path pid nonce source plan faulty
    ≡ (calm, err (io "no space left on device"))
unfolding write_overlay publish write_file write_rows clean_up temporary_path create_dir_all
    create_new set_len write_all touch remove_file find_file erase_file put_file same_path
    equal_list next_fault encode le_bytes
failed_run = rw prepared_small refl

-- The row that is read back from the sidecar of the run without faults.
complete_run :
    after calm
    ≡ some (
        encode prepared.disk_header
        ++ (prepared.index_payload ++ (4 ∷ 5 ∷ 6 ∷ 0 ∷ 10 ∷ 11 ∷ 12 ∷ 0 ∷ [])))
unfolding write_overlay publish write_file write_rows clean_up temporary_path create_dir_all
    create_new set_len write_all touch rename find_file erase_file put_file same_path equal_list
    next_fault encode le_bytes raw_rows read_source_row overlay_offset_of and_add
    sync_parent_directory open_directory
complete_run = rw prepared_small refl
