-- ===== src/Runtime/Probe/Tests.antt =====
-- Runs of the parsers on the texts of a host.
use gb10x.Prelude.{◌≡◌, ◌<◌, ◌*◌, refl, ok, err, [], ◌∷◌, u32_mod, All}
use gb10x.Prelude.Sorted.{IsAscending, insert_sorted, sort_unstable, dedup}
use gb10x.Prelude.Texts.{Text, trim, trim_start, trim_end, is_empty, is_whitespace, equal_list}
use gb10x.Core.Platform.{unified}
use gb10x.Runtime.Probe.{
  invalid_value, parse_digits, parse_unsigned, parse_u32, split, split_once, count_up, parse_range,
  parse_segments, parse_cpu_list_for, split_last, number_and_multiplier, parse_cache_size,
  parse_cache_type, unified_name,
}
use gb10x.Runtime.Probe.CpuLists.{parse_cpu_list_for-IsAscending}

-- The text `0-3,8,10-11`, with a line end.
abbrev shared : Text
shared = b'0' ∷ b'-' ∷ b'3' ∷ b',' ∷ b'8' ∷ b',' ∷ b'1' ∷ b'0' ∷ b'-' ∷ b'1' ∷ b'1' ∷ 10 ∷ []

shared_read : parse_cpu_list_for "shared_cpu_list" shared ≡ ok (0 ∷ 1 ∷ 2 ∷ 3 ∷ 8 ∷ 10 ∷ 11 ∷ [])
unfolding parse_cpu_list_for parse_segments parse_range parse_u32 parse_unsigned parse_digits split
    split_once count_up trim trim_start trim_end is_empty is_whitespace insert_sorted sort_unstable
    dedup
shared_read = refl

descending_read :
    parse_cpu_list_for "shared_cpu_list" (b'4' ∷ b'-' ∷ b'2' ∷ [])
    ≡ err (invalid_value "shared_cpu_list" (b'4' ∷ b'-' ∷ b'2' ∷ []))
unfolding parse_cpu_list_for parse_segments parse_range parse_u32 parse_unsigned parse_digits split
    split_once trim trim_start trim_end is_empty is_whitespace
descending_read = refl

size_read : parse_cache_size (b'6' ∷ b'4' ∷ b'K' ∷ []) ≡ ok (64 * 1024)
unfolding parse_cache_size number_and_multiplier split_last parse_unsigned parse_digits trim
    trim_start trim_end is_empty is_whitespace
size_read = refl

type_read : parse_cache_type (32 ∷ unified_name) ≡ ok unified
unfolding parse_cache_type trim trim_start trim_end is_empty is_whitespace equal_list
type_read = refl

parse_cpu_list_for-IsAscending_example :
    IsAscending (0 ∷ 1 ∷ 2 ∷ 3 ∷ 8 ∷ 10 ∷ 11 ∷ [])
    × All (λ n. n < u32_mod) (0 ∷ 1 ∷ 2 ∷ 3 ∷ 8 ∷ 10 ∷ 11 ∷ [])
parse_cpu_list_for-IsAscending_example =
    parse_cpu_list_for-IsAscending "shared_cpu_list" shared shared_read
