-- ===== src/Ple/Writer.antt =====
-- crates/gb10x-ple/src/writer.rs: what the writer computes before it touches a file. The SHA-256 digest
-- is an argument. A usize fits a u64, so those conversions have no error here.
pub mod Publish
pub mod Effects
pub mod Temporary
pub mod Replace
pub mod Atomic
pub mod Filled
pub mod Checks
pub mod Entries
pub mod Headed
pub mod LaidOut
pub mod Complete
pub mod RoundTrip
pub mod Tests
pub mod Planned
pub mod Success
use gb10x.Prelude.{
  ℕ, ◌-◌, Bool, false, not, ◌||◌, Option, none, some, List, [], ◌∷◌, ◌++◌, ok, ◌>>=◌, ◌>>◌, fail_if,
  ok_or, map_err, checked_add, checked_mul, plain_rem, length, leb, ◌==◌, if◌then◌else◌,
}
use gb10x.Ple.Bytes.{Bytes}
use gb10x.Ple.Format.{format, layout, new as new_header}
use gb10x.Ple.Disk.{
  DiskHeader, IoOutcome, disk_header_bytes, index_entry_bytes, new as new_disk, encode_index_entry,
}
use gb10x.Ple.Layout.{HotOverlayPlacement, LayoutPlan}
use gb10x.Ple.Source.{ExactPleRowSource}

pub record PlePackWriteReport : Type 0 where
  pub hot_rows : ℕ
  pub index_offset : ℕ
  pub index_bytes : ℕ
  pub overlay_bytes : ℕ
  pub file_bytes : ℕ

unfoldable pub validate_source_plan : ExactPleRowSource → LayoutPlan → IoOutcome (Unit {0})
validate_source_plan source plan = do
  fail_if (not (source.row_count == plan.row_count)) (format "source and layout row counts differ")
  fail_if (not (source.row_bytes == plan.row_bytes)) (format "source and layout row widths differ")
  fail_if ((source.row_count == 0) || (source.row_bytes == 0)) (format "source geometry is empty")

-- `checked_mul(..).and_then(|base| base.checked_add(..))`
unfoldable pub and_add : Option ℕ → ℕ → Option ℕ
and_add none n = none
and_add (some base) n = checked_add base n

unfoldable pub overlay_offset_of : ℕ → HotOverlayPlacement → Option ℕ
overlay_offset_of block_bytes p = and_add (checked_mul p.block_id block_bytes) p.offset_in_block

unfoldable pub index_entries_of : ℕ → List HotOverlayPlacement → IoOutcome (List (ℕ × ℕ))
index_entries_of block_bytes [] = ok []
index_entries_of block_bytes (p ∷ placements) = do
  overlay_offset ← ok_or (overlay_offset_of block_bytes p) (format "hot overlay offset overflow")
  rest ← index_entries_of block_bytes placements
  ok ((p.logical_row, overlay_offset) ∷ rest)

-- `sort_unstable_by_key(|entry| entry.0)`; the rows are distinct where the sorted entries are used.
unfoldable pub insert_by_row : ℕ × ℕ → List (ℕ × ℕ) → List (ℕ × ℕ)
insert_by_row e [] = e ∷ []
insert_by_row e (f ∷ entries) =
    let rest = insert_by_row e entries in if leb e.0 f.0 then e ∷ f ∷ entries else f ∷ rest

unfoldable pub sort_by_row : List (ℕ × ℕ) → List (ℕ × ℕ)
sort_by_row [] = []
sort_by_row (e ∷ entries) = insert_by_row e (sort_by_row entries)

-- The loop over `index_entries.windows(2)`.
unfoldable pub any_repeated : List (ℕ × ℕ) → Bool
any_repeated [] = false
any_repeated (e ∷ []) = false
any_repeated (e ∷ f ∷ entries) = leb f.0 e.0 || any_repeated (f ∷ entries)

unfoldable pub payload_of : List (ℕ × ℕ) → Bytes
payload_of [] = []
payload_of (e ∷ entries) = encode_index_entry e.0 e.1 ++ payload_of entries

unfoldable pub align_up : ℕ → ℕ → IoOutcome ℕ
align_up value alignment = do
  fail_if (alignment == 0) (format "zero sidecar alignment")
  remainder ← plain_rem value alignment
  if remainder == 0
      then ok value
      else ok_or (checked_add value (alignment - remainder)) (format "sidecar alignment overflow")

unfoldable pub last_placement : List HotOverlayPlacement → Option HotOverlayPlacement
last_placement [] = none
last_placement (p ∷ []) = some p
last_placement (p ∷ q ∷ placements) = last_placement (q ∷ placements)

-- `blocks.checked_mul(..)`, where there are blocks
unfoldable pub and_mul : Option ℕ → ℕ → Option ℕ
and_mul none n = none
and_mul (some blocks) n = checked_mul blocks n

unfoldable pub storage_after : ℕ → Option HotOverlayPlacement → IoOutcome ℕ
storage_after block_bytes none = ok 0
storage_after block_bytes (some last) =
    ok_or (and_mul (checked_add last.block_id 1) block_bytes)
      (format "hot overlay storage size overflow")

unfoldable pub overlay_storage_bytes : LayoutPlan → IoOutcome ℕ
overlay_storage_bytes plan =
    storage_after plan.block_bytes (last_placement plan.hot_overlay_placements)

-- What the writer holds when it begins with the file.
pub record Prepared : Type 0 where
  pub index_entries : List (ℕ × ℕ)
  pub index_payload : Bytes
  pub disk_header : DiskHeader
  pub file_bytes : ℕ

unfoldable pub prepare : (Bytes → Bytes) → ExactPleRowSource → LayoutPlan → IoOutcome Prepared
prepare sha256 source plan = do
  validate_source_plan source plan
  unsorted ← index_entries_of plan.block_bytes plan.hot_overlay_placements
  let index_entries = sort_by_row unsorted
  fail_if (any_repeated index_entries) (format "hot overlay logical rows are not unique")
  capacity ←
      ok_or (checked_mul (length index_entries) index_entry_bytes)
        (format "hot index allocation overflow")
  let index_payload = payload_of index_entries
  let index_bytes = length index_payload
  index_end ← ok_or (checked_add disk_header_bytes index_bytes) (format "hot index end overflow")
  data_offset ← align_up index_end plan.block_bytes
  overlay_bytes ← overlay_storage_bytes plan
  logical ← map_err layout (
      new_header source.source_digest source.row_count source.row_bytes plan.block_bytes
        (sha256 index_payload))
  disk_header ← new_disk logical (length index_entries) index_bytes data_offset overlay_bytes
  file_bytes ← ok_or (checked_add data_offset overlay_bytes) (format "sidecar file size overflow")
  ok (record {
    index_entries = index_entries;
    index_payload = index_payload;
    disk_header = disk_header;
    file_bytes = file_bytes;
  })
