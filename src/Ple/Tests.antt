-- ===== src/Ple/Tests.antt =====
-- Runs of the layout and of the sidecar encoding, and their theorems at concrete inputs.
use gb10x.Prelude.{
  ℕ, ◌≢◌, panic, zero, suc, ◌+◌, ◌*◌, ◌≤◌, ◌<◌, ◌≡◌, ◌↔◌, ◌⊎◌, refl, List, [], ◌∷◌, ◌++◌, map, true,
  ok, err, arith, take,
}
use gb10x.Prelude.Sorted.{contains, sort_unstable, dedup}
use gb10x.Ple.Bytes.{Bytes, zeros, from_le}
use gb10x.Ple.Format.{
  IsGeometry, PlePackHeader, header_of, new as new_header, header_new_iff, trace_row_out_of_range,
}
use gb10x.Ple.Source.{RawFileRowSource, open_source, read_source_row}
use gb10x.Ple.Source.Exact.{HasRows, source_of, open_source_iff, read_source_row_total}
use gb10x.Ple.Disk.{
  DiskHeader, encode, decode, encode_index_entry, decode_index_entry, read_u32, read_u64, slice_of,
  is_magic, equal_bytes, new,
}
use gb10x.Ple.Disk.RoundTrip.{IsValid, decode-encode}
use gb10x.Ple.Disk.Canonical.{encode-decode}
use gb10x.Ple.Disk.Reads.{decode-ne-panic}
use gb10x.Ple.Disk.Index.{decode_index_entry_iff}
use gb10x.Ple.Layout.{
  LayoutPlan, HotOverlayPlacement, plan_exact_layout, base_offset, scan_trace, scan_group, see,
  place, place_all,
}
use gb10x.Ple.Layout.Placements.{address}
use gb10x.Ple.Layout.Scan.{IsDistinct, SameTrace, traced}
use gb10x.Ple.Layout.Plan.{
  planned, plan_exact_layout_cases, plan_exact_layout-hot, plan_exact_layout-apart,
  plan_exact_layout-SameTrace, base_offset_total,
}

abbrev bytes_of : ℕ → ℕ → Bytes
bytes_of zero b = []
bytes_of (suc n) b = b ∷ bytes_of n b

abbrev logical : PlePackHeader
logical = header_of (bytes_of 32 0xaa) 100 320 4096 (bytes_of 32 0xbb)

geometry : IsGeometry 100 320 4096
geometry = omega arith

header_new_iff_example :
    (new_header (bytes_of 32 0xaa) 100 320 4096 (bytes_of 32 0xbb) ≡ ok logical)
    ↔ (IsGeometry 100 320 4096 × (logical ≡ logical))
header_new_iff_example = header_new_iff (bytes_of 32 0xaa) 100 320 4096 (bytes_of 32 0xbb) logical

abbrev header : DiskHeader
header = record {
  logical = logical;
  hot_row_count = 6;
  index_bytes = 72;
  data_offset = 4096;
  overlay_bytes = 4096;
}

header-IsValid : IsValid header
header-IsValid = record {
  magic = refl;
  version = refl;
  geometry = geometry;
  source_digest = refl;
  index_digest = refl;
  block_word = omega arith;
  index = refl;
  behind = omega arith;
  data_word = omega arith;
  overlay_word = omega arith;
  data_aligned = refl;
  overlay_aligned = refl;
}

decode-encode_example : decode (encode header ++ (7 ∷ [])) ≡ ok header
decode-encode_example = decode-encode header header-IsValid (7 ∷ [])

abbrev sidecar : Bytes
sidecar =
    b'G'
    ∷ b'B'
    ∷ b'1'
    ∷ b'0'
    ∷ b'X'
    ∷ b'P'
    ∷ b'L'
    ∷ b'E'
    ∷ 1
    ∷ 0
    ∷ 0
    ∷ 0
    ∷ 1
    ∷ 0
    ∷ 0
    ∷ 0
    ∷ (bytes_of 32 0xaa
        ++ (100 ∷ zeros 7
            ++ (64 ∷ 1 ∷ 0 ∷ 0 ∷ 0 ∷ 16 ∷ 0 ∷ 0 ∷ 6 ∷ zeros 7
                ++ (72 ∷ zeros 7 ++ (0 ∷ 16 ∷ zeros 6 ++ (0 ∷ 16 ∷ zeros 6 ++ bytes_of 32 0xbb))))))

sidecar_read : decode sidecar ≡ ok header
unfolding decode read_u32 read_u64 slice_of is_magic equal_bytes new from_le new_header
sidecar_read = refl

encode-decode_example : IsValid header × (encode header ≡ take 128 sidecar)
encode-decode_example = encode-decode sidecar header (omega arith) sidecar_read

decode-ne-panic_example : decode (take 100 sidecar) ≢ panic
decode-ne-panic_example = decode-ne-panic (take 100 sidecar)

decode_index_entry_iff_example :
    (decode_index_entry (3 ∷ 0 ∷ 0 ∷ 0 ∷ 64 ∷ 1 ∷ zeros 6) ≡ ok (3, 320))
    ↔ ((3 ∷ 0 ∷ 0 ∷ 0 ∷ 64 ∷ 1 ∷ zeros 6) ≡ encode_index_entry 3 320)
decode_index_entry_iff_example =
    decode_index_entry_iff (3 ∷ 0 ∷ 0 ∷ 0 ∷ 64 ∷ 1 ∷ zeros 6) 3 320 (omega arith) (omega arith)
      (omega arith)

abbrev trace : List (List ℕ)
trace = (9 ∷ 3 ∷ 7 ∷ 3 ∷ []) ∷ (9 ∷ 7 ∷ 11 ∷ []) ∷ (2 ∷ 1 ∷ []) ∷ (7 ∷ 9 ∷ []) ∷ []

-- Six rows, one to a block of the placements' geometry: 1024 holds three rows of 320 bytes.
abbrev at_block : ℕ → ℕ → ℕ → HotOverlayPlacement
at_block row block offset = record { logical_row = row; block_id = block; offset_in_block = offset }

abbrev small_plan : LayoutPlan
small_plan = record {
  row_count = 40;
  row_bytes = 320;
  block_bytes = 1024;
  hot_physical_order = 3 ∷ 7 ∷ 9 ∷ 11 ∷ 1 ∷ 2 ∷ [];
  hot_overlay_placements =
      at_block 3 0 0
      ∷ at_block 7 0 320
      ∷ at_block 9 0 640
      ∷ at_block 11 1 0
      ∷ at_block 1 1 320
      ∷ at_block 2 1 640
      ∷ [];
}

small-IsGeometry : IsGeometry 40 320 1024
small-IsGeometry = omega arith

planned_trace : plan_exact_layout 40 320 1024 trace ≡ ok small_plan
unfolding plan_exact_layout scan_trace scan_group see place place_all contains sort_unstable dedup
planned_trace = refl

beyond_trace : plan_exact_layout 40 320 4096 ((40 ∷ []) ∷ []) ≡ err (trace_row_out_of_range 40 40)
unfolding plan_exact_layout scan_trace scan_group see place place_all contains sort_unstable dedup
beyond_trace = refl

plan_exact_layout_cases_example :
    (plan_exact_layout 40 320 1024 trace ≡ ok (planned 40 320 1024 trace))
      × ((row : ℕ) → traced row trace ≡ true → row < 40)
    ⊎ ((row : ℕ) × (traced row trace ≡ true)
        × (40 ≤ row)
        × (plan_exact_layout 40 320 1024 trace ≡ err (trace_row_out_of_range row 40)))
plan_exact_layout_cases_example =
    plan_exact_layout_cases 40 320 1024 small-IsGeometry (omega arith) trace

plan_exact_layout-hot_example :
    IsDistinct small_plan.hot_physical_order
    × ((row : ℕ) → contains row small_plan.hot_physical_order ≡ traced row trace)
    × (map (λ p. p.logical_row) small_plan.hot_overlay_placements ≡ small_plan.hot_physical_order)
plan_exact_layout-hot_example =
    plan_exact_layout-hot 40 320 1024 small-IsGeometry (omega arith) trace planned_trace

plan_exact_layout-apart_example :
    (640 + 320 ≤ 1024)
    × (320 + 320 ≤ 1024)
    × (address 1024 (at_block 9 0 640) + 320 ≤ address 1024 (at_block 1 1 320))
plan_exact_layout-apart_example =
    plan_exact_layout-apart 40 320 1024 small-IsGeometry (omega arith) trace planned_trace 2 4
      (omega arith) refl refl

abbrev shuffled : List (List ℕ)
shuffled = (3 ∷ 7 ∷ 9 ∷ []) ∷ (11 ∷ 9 ∷ 9 ∷ 7 ∷ []) ∷ (1 ∷ 2 ∷ []) ∷ (9 ∷ 7 ∷ []) ∷ []

shuffled_same : SameTrace trace shuffled
unfolding contains
shuffled_same =
    (λ a. ground arith, (λ a. ground arith, (λ a. ground arith, (λ a. ground arith, tt))))

plan_exact_layout-SameTrace_example :
    plan_exact_layout 40 320 1024 trace ≡ plan_exact_layout 40 320 1024 shuffled
plan_exact_layout-SameTrace_example =
    plan_exact_layout-SameTrace 40 320 1024 trace shuffled shuffled_same

base_offset_total_example : base_offset small_plan 39 ≡ ok (39 * 320)
base_offset_total_example =
    base_offset_total 40 320 1024 trace small-IsGeometry (omega arith) planned_trace 39

-- A flat source of two rows of three bytes, under a digest that stands for SHA-256.
abbrev flat : RawFileRowSource
flat = record {
  mmap = 1 ∷ 2 ∷ 3 ∷ 4 ∷ 5 ∷ 6 ∷ [];
  row_count = 2;
  row_bytes = 3;
  digest = bytes_of 32 9;
}

opened_flat : open_source (λ _. bytes_of 32 9) (ok (1 ∷ 2 ∷ 3 ∷ 4 ∷ 5 ∷ 6 ∷ [])) 3 ≡ ok flat
unfolding open_source
opened_flat = refl

open_source_iff_example :
    (open_source (λ _. bytes_of 32 9) (ok flat.mmap) 3 ≡ ok flat)
    ↔ ((flat ≡ source_of (λ _. bytes_of 32 9) flat.mmap 3) × HasRows flat.mmap 3)
open_source_iff_example = open_source_iff (λ _. bytes_of 32 9) flat.mmap 3 flat

read_source_row_total_example : read_source_row flat 1 (zeros 3) ≡ ok (4 ∷ 5 ∷ 6 ∷ [])
read_source_row_total_example =
    read_source_row_total flat (refl, omega arith, omega arith) 1 (zeros 3)
