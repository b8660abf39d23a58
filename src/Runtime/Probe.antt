-- ===== src/Runtime/Probe.antt =====
-- crates/gb10x-runtime/src/linux_probe.rs: the parsers of the texts that /proc and /sys hold. Reading the
-- files and walking the directories is left out.
pub mod CpuLists
mod Tests
use gb10x.Prelude.{
  ℕ, zero, suc, ◌+◌, ◌-◌, ◌*◌, Bool, true, false, not, ◌&&◌, ◌||◌, Option, none, some, List, [],
  ◌∷◌, ◌++◌, String, Result, ok, err, ◌>>=◌, ◌>>◌, fail_if, ok_or, checked_mul, u32_mod, u64_mod,
  ltb, leb, ◌==◌, if◌then◌else◌,
}
use gb10x.Prelude.Sorted.{sort_unstable, dedup}
use gb10x.Prelude.Texts.{Text, trim, is_empty, is_whitespace, equal_list}
use gb10x.Prelude.Patterns.{starts_with}
use gb10x.Core.Platform.{
  CacheType, instruction, data_only, unified, CpuCache, GpuSnapshot, PlatformSnapshot,
}

-- The paths and the texts of system errors are texts.
pub data ProbeError : Type 0 where
  io : Text → Text → ProbeError
  no_caches : Text → ProbeError
  invalid_value : String → Text → ProbeError

abbrev pub Probed : Type 0 → Type 0
Probed A = Result ProbeError A

pub record HostProbe : Type 0 where
  pub arch : Text
  pub kernel_release : Text
  pub cpu_model : Text
  pub online_cpus : List ℕ
  pub caches : List CpuCache
  pub mem_total_bytes : ℕ
  pub page_size_bytes : ℕ

unfoldable pub into_platform_snapshot : HostProbe → GpuSnapshot → PlatformSnapshot
into_platform_snapshot h gpu = record {
  arch = h.arch;
  kernel_release = h.kernel_release;
  cpu_model = h.cpu_model;
  online_cpus = h.online_cpus;
  caches = h.caches;
  gpu = gpu;
  mem_total_bytes = h.mem_total_bytes;
  page_size_bytes = h.page_size_bytes;
}

-- The digits of `str::parse`, below a limit.
unfoldable pub parse_digits : ℕ → ℕ → Text → Option ℕ
parse_digits limit value [] = some value
parse_digits limit value (c ∷ text) =
    let next = value * 10 + (c - b'0') in
    let rest = parse_digits limit next text in
    if leb b'0' c && leb c b'9' && ltb next limit then rest else none

-- `str::parse` of an unsigned integer: a sign `+` may stand before one digit or more.
unfoldable pub parse_unsigned : ℕ → Text → Option ℕ
parse_unsigned limit [] = none
parse_unsigned limit (c ∷ []) = parse_digits limit 0 (c ∷ [])
parse_unsigned limit (c ∷ d ∷ text) =
    if c == b'+' then parse_digits limit 0 (d ∷ text) else parse_digits limit 0 (c ∷ d ∷ text)

unfoldable pub parse_u32 : String → Text → Probed ℕ
parse_u32 field value = ok_or (parse_unsigned u32_mod (trim value)) (invalid_value field value)

abbrev in_front : ℕ → List Text → List Text
in_front c [] = (c ∷ []) ∷ []
in_front c (part ∷ parts) = (c ∷ part) ∷ parts

-- `str::split` at a character
unfoldable pub split : ℕ → Text → List Text
split separator [] = [] ∷ []
split separator (c ∷ text) =
    let parts = split separator text in if c == separator then [] ∷ parts else in_front c parts

abbrev in_front_of_first : ℕ → Option (Text × Text) → Option (Text × Text)
in_front_of_first c none = none
in_front_of_first c (some (a, b)) = some (c ∷ a, b)

-- `str::split_once`
unfoldable pub split_once : ℕ → Text → Option (Text × Text)
split_once separator [] = none
split_once separator (c ∷ text) =
    let rest = split_once separator text in
    if c == separator then some ([], text) else in_front_of_first c rest

-- `start..`, over a number of steps
unfoldable pub count_up : ℕ → ℕ → List ℕ
count_up start zero = []
count_up start (suc count) = start ∷ count_up (start + 1) count

-- A segment of the list: a range, or one number.
unfoldable pub parse_range : String → Text → Text → Option (Text × Text) → Probed (List ℕ)
parse_range field value segment (some (first, last)) = do
  start ← parse_u32 field first
  end ← parse_u32 field last
  fail_if (ltb end start) (invalid_value field value)
  ok (count_up start (end - start + 1))
parse_range field value segment none = do cpu ← parse_u32 field segment; ok (cpu ∷ [])

unfoldable pub parse_segments : String → Text → List Text → Probed (List ℕ)
parse_segments field value [] = ok []
parse_segments field value (part ∷ parts) = do
  let segment = trim part
  fail_if (is_empty segment) (invalid_value field value)
  cpus ← parse_range field value segment (split_once b'-' segment)
  rest ← parse_segments field value parts
  ok (cpus ++ rest)

unfoldable pub parse_cpu_list_for : String → Text → Probed (List ℕ)
parse_cpu_list_for field untrimmed = do
  let value = trim untrimmed
  fail_if (is_empty value) (invalid_value field value)
  cpus ← parse_segments field value (split b',' value)
  ok (dedup (sort_unstable cpus))

unfoldable pub parse_cpu_list : Text → Probed (List ℕ)
parse_cpu_list value = parse_cpu_list_for "shared_cpu_list" value

-- The text before its last character, and that character.
unfoldable pub split_last : Text → Option (Text × ℕ)
split_last [] = none
split_last (c ∷ []) = some ([], c)
split_last (c ∷ d ∷ text) = elim (split_last (d ∷ text)) [
  | none ↦ none
  | some (front, last) ↦ some (c ∷ front, last)
]

-- `match value.as_bytes().last()`
unfoldable pub number_and_multiplier : Text → Option (Text × ℕ) → Text × ℕ
number_and_multiplier value none = (value, 1)
number_and_multiplier value (some (front, last)) =
    if (last == b'K') || (last == b'k')
    then (front, 1024)
    else if (last == b'M') || (last == b'm')
    then (front, 1024 * 1024)
    else if (last == b'G') || (last == b'g')
    then (front, 1024 * 1024 * 1024)
    else (value, 1)

unfoldable pub parse_cache_size : Text → Probed ℕ
parse_cache_size untrimmed = do
  let value = trim untrimmed
  fail_if (is_empty value) (invalid_value "cache size" value)
  let split = number_and_multiplier value (split_last value)
  base ← ok_or (parse_unsigned u64_mod split.0) (invalid_value "cache size" value)
  ok_or (checked_mul base split.1) (invalid_value "cache size" value)

abbrev pub data_name : Text
data_name = b'D' ∷ b'a' ∷ b't' ∷ b'a' ∷ []

abbrev pub instruction_name : Text
instruction_name = b'I' ∷ b'n' ∷ b's' ∷ b't' ∷ b'r' ∷ b'u' ∷ b'c' ∷ b't' ∷ b'i' ∷ b'o' ∷ b'n' ∷ []

abbrev pub unified_name : Text
unified_name = b'U' ∷ b'n' ∷ b'i' ∷ b'f' ∷ b'i' ∷ b'e' ∷ b'd' ∷ []

unfoldable pub parse_cache_type : Text → Probed CacheType
parse_cache_type value =
    if equal_list (trim value) data_name
    then ok data_only
    else if equal_list (trim value) instruction_name
    then ok instruction
    else if equal_list (trim value) unified_name
    then ok unified
    else err (invalid_value "cache type" (trim value))

unfoldable pub cache_type_rank : CacheType → ℕ
cache_type_rank instruction = 0
cache_type_rank data_only = 1
cache_type_rank unified = 2
