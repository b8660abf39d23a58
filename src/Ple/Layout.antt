-- ===== src/Ple/Layout.antt =====
-- crates/gb10x-ple/src/layout.rs: the exact cold base and the placement of the hot rows. A set of
-- row identifiers is the list of its members.
pub mod Placements
pub mod Scan
pub mod Plan
use gb10x.Prelude.{
  ℕ, zero, suc, ◌+◌, ◌/◌, Bool, List, [], ◌∷◌, ◌++◌, Result, ok, err, panic, ◌>>=◌, ◌>>◌, fail_if,
  ok_or, checked_mul, plain_div, plain_rem, try_u32, u32_mod, ltb, leb, ◌==◌, if◌then◌else◌,
}
use gb10x.Prelude.Sorted.{contains, sort_unstable, dedup}
use gb10x.Ple.Format.{
  PlePackError, invalid_geometry, trace_row_out_of_range, logical_row_out_of_range, overflow,
}

abbrev pub PackOutcome : Type 0 → Type 0
PackOutcome A = Result PlePackError A

pub record HotOverlayPlacement : Type 0 where
  pub logical_row : ℕ
  pub block_id : ℕ
  pub offset_in_block : ℕ

pub record LayoutPlan : Type 0 where
  pub row_count : ℕ
  pub row_bytes : ℕ
  pub block_bytes : ℕ
  pub hot_physical_order : List ℕ
  pub hot_overlay_placements : List HotOverlayPlacement

unfoldable pub base_offset : LayoutPlan → ℕ → PackOutcome ℕ
base_offset plan logical_row =
    if leb plan.row_count logical_row
    then err (logical_row_out_of_range logical_row plan.row_count)
    else ok_or (checked_mul logical_row plan.row_bytes) (overflow "cold base row offset")

-- What the scan of a trace has seen, and the hot rows in the order in which it saw them first.
pub record Seen : Type 0 where
  pub seen : List ℕ
  pub hot_physical_order : List ℕ

-- `if seen.insert(row) { hot_physical_order.push(row) }`
unfoldable pub see : Seen → ℕ → Seen
see s row =
    if contains row s.seen
    then s
    else record { seen = row ∷ s.seen; hot_physical_order = s.hot_physical_order ++ row ∷ [] }

unfoldable pub scan_group : ℕ → Seen → List ℕ → PackOutcome Seen
scan_group row_count s [] = ok s
scan_group row_count s (row ∷ group) = do
  fail_if (leb row_count row) (trace_row_out_of_range row row_count)
  scan_group row_count (see s row) group

unfoldable pub scan_trace : ℕ → Seen → List (List ℕ) → PackOutcome Seen
scan_trace row_count s [] = ok s
scan_trace row_count s (batch ∷ trace) = do
  s' ← scan_group row_count s (dedup (sort_unstable batch))
  scan_trace row_count s' trace

-- One round of the placement loop, at an ordinal.
unfoldable pub place : ℕ → ℕ → ℕ → ℕ → PackOutcome HotOverlayPlacement
place rows_per_block row_bytes ordinal logical_row = do
  block_id ← plain_div ordinal rows_per_block
  slot ← plain_rem ordinal rows_per_block
  offset ← ok_or (checked_mul slot row_bytes) (overflow "hot overlay block offset")
  offset_in_block ← ok_or (try_u32 offset) (overflow "hot overlay block offset u32")
  ok (record { logical_row = logical_row; block_id = block_id; offset_in_block = offset_in_block })

unfoldable pub place_all : ℕ → ℕ → ℕ → List ℕ → PackOutcome (List HotOverlayPlacement)
place_all rows_per_block row_bytes ordinal [] = ok []
place_all rows_per_block row_bytes ordinal (logical_row ∷ rows) = do
  placement ← place rows_per_block row_bytes ordinal logical_row
  rest ← place_all rows_per_block row_bytes (ordinal + 1) rows
  ok (placement ∷ rest)

unfoldable pub plan_exact_layout : ℕ → ℕ → ℕ → List (List ℕ) → PackOutcome LayoutPlan
plan_exact_layout row_count row_bytes block_bytes trace = do
  fail_if (row_count == 0) (invalid_geometry "row_count must be nonzero")
  fail_if (ltb u32_mod row_count)
      (invalid_geometry "logical row space must fit u32 row identifiers")
  fail_if (row_bytes == 0) (invalid_geometry "row_bytes must be nonzero")
  fail_if (ltb block_bytes row_bytes)
      (invalid_geometry "block_bytes must fit at least one complete row")
  rows_per_block ← plain_div block_bytes row_bytes
  fail_if (rows_per_block == 0) (invalid_geometry "block geometry yields zero complete rows")
  s ← scan_trace row_count (record { seen = []; hot_physical_order = [] }) trace
  placements ← place_all rows_per_block row_bytes 0 s.hot_physical_order
  ok (record {
    row_count = row_count;
    row_bytes = row_bytes;
    block_bytes = block_bytes;
    hot_physical_order = s.hot_physical_order;
    hot_overlay_placements = placements;
  })
