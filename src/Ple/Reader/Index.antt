-- ===== src/Ple/Reader/Index.antt =====
-- Which bytes `validate_index` accepts as the index of a header.
use gb10x.Prelude.{
  ℕ, zero, suc, ◌+◌, ◌*◌, ◌%◌, ◌≤◌, ◌<◌, ◌≡◌, refl, sym, subst, ap, ◌∙◌, ◌↔◌, true, false, Option,
  none, some, List, [], ◌∷◌, ok, ◌>>=◌, ◌>>◌, u32_mod, u64_mod, ltb, ◌==◌, length, arith, All,
  >>=-eq-ok,
}
use gb10x.Ple.Bytes.{Bytes}
use gb10x.Ple.Format.{PlePackHeader}
use gb10x.Ple.Disk.{DiskHeader, decode_index_entry}
use gb10x.Ple.Disk.Reads.{part, slice_in}
use gb10x.Ple.Reader.{is_not_after, check_entry, scan_index, validate_index}

-- A hot row and its offset in the overlay.
abbrev pub Entry : Type 0
Entry = ℕ × ℕ

-- The entries that the index holds from an ordinal on.
abbrev pub AreDecoded : Bytes → ℕ → List Entry → Type 0
AreDecoded index ordinal [] = Unit
AreDecoded index ordinal (e ∷ entries) =
    (decode_index_entry (part index 12 (ordinal * 12)) ≡ ok e)
    × AreDecoded index (suc ordinal) entries

abbrev pub Follows : Option ℕ → ℕ → Type 0
Follows none row = Unit
Follows (some previous) row = previous < row

-- Rows that ascend, above a row that may come before.
abbrev pub AreAscending : Option ℕ → List Entry → Type 0
AreAscending previous [] = Unit
AreAscending previous (e ∷ entries) = Follows previous e.0 × AreAscending (some e.0) entries

-- A row of the source, kept inside the overlay and inside one block.
abbrev pub IsEntryOf : PlePackHeader → ℕ → Entry → Type 0
IsEntryOf header overlay_bytes e =
    (e.0 < header.row_count)
    × (e.1 + header.row_bytes ≤ overlay_bytes)
    × (e.1 % header.block_bytes + header.row_bytes ≤ header.block_bytes)

abbrev pub IsEntry : DiskHeader → Entry → Type 0
IsEntry disk e = IsEntryOf disk.logical disk.overlay_bytes e

-- The words of a header that the scan computes with.
abbrev pub HasWords : DiskHeader → Type 0
HasWords disk =
    (0 < disk.logical.block_bytes)
    × (disk.logical.block_bytes < u32_mod)
    × (disk.logical.row_bytes < u32_mod)
    × (disk.overlay_bytes < u64_mod)

is_not_after_iff :
    (previous : Option ℕ) (row : ℕ) → (is_not_after previous row ≡ false) ↔ Follows previous row
unfolding is_not_after
is_not_after_iff none row = (λ _. tt, λ _. refl)
is_not_after_iff (some previous) row = ground arith

module _ (disk : DiskHeader) (words : HasWords disk) where
  check_entry_sound :
      (previous : Option ℕ) (e : Entry)
      → check_entry disk previous e.0 e.1 ≡ ok tt
      → Follows previous e.0 × IsEntry disk e
  unfolding check_entry
  check_entry_sound previous (row, offset) h =
      (ground (arith, is_not_after_iff previous row), ground (arith, words))

  check_entry_complete :
      (previous : Option ℕ) (e : Entry)
      → Follows previous e.0
      → IsEntry disk e
      → check_entry disk previous e.0 e.1 ≡ ok tt
  unfolding check_entry
  check_entry_complete previous (row, offset) f inside =
      let b : is_not_after previous row ≡ false = (is_not_after_iff previous row).1 f in
      ground (arith, b, words, inside)

  module _ (index : Bytes) (short : length index < u64_mod) where
    -- One round, where the index reaches far enough.
    scan_index-suc :
        (rounds ordinal : ℕ) (previous : Option ℕ)
        → suc ordinal * 12 ≤ length index
        → scan_index index disk (suc rounds) ordinal previous ≡ (
            decode_index_entry (part index 12 (ordinal * 12)) >>= λ e.
            check_entry disk previous e.0 e.1
            >> scan_index index disk rounds (ordinal + 1) (some e.0))
    unfolding scan_index
    scan_index-suc rounds ordinal previous h =
        let a : ltb (ordinal * 12) u64_mod ≡ true = ground arith in
        let b : ltb (ordinal * 12 + 12) u64_mod ≡ true = ground arith in
        rw (a, b, slice_in index 12 (ordinal * 12) (ordinal * 12 + 12) refl (omega arith)) refl

    scan_index_sound :
        (rounds ordinal : ℕ) (previous : Option ℕ)
        → (ordinal + rounds) * 12 ≤ length index
        → scan_index index disk rounds ordinal previous ≡ ok tt
        → (entries : List Entry) × (length entries ≡ rounds)
          × AreDecoded index ordinal entries
          × AreAscending previous entries
          × All (IsEntry disk) entries
    scan_index_sound zero ordinal previous fits h = ([], refl, tt, tt, tt)
    scan_index_sound (suc rounds) ordinal previous fits h =
        let here = decode_index_entry (part index 12 (ordinal * 12)) in
        let go = scan_index index disk rounds (ordinal + 1) in
        let (e, d, h1) =
          >>=-eq-ok here (λ e. check_entry disk previous e.0 e.1 >> go (some e.0))
            (sym (scan_index-suc rounds ordinal previous (omega arith)) ∙ h) in
        let (_, c, h2) = >>=-eq-ok (check_entry disk previous e.0 e.1) (λ _. go (some e.0)) h1 in
        let (follows, inside) = check_entry_sound previous e c in
        let step : ordinal + 1 ≡ suc ordinal = omega arith in
        let (entries, count, decoded, ascending, insides) =
          scan_index_sound rounds (suc ordinal) (some e.0) (omega arith)
            (subst (λ (n : ℕ). scan_index index disk rounds n (some e.0) ≡ ok tt) step h2) in
        (e ∷ entries, ap suc count, (d, decoded), (follows, ascending), (inside, insides))

    scan_index_complete :
        (ordinal : ℕ) (previous : Option ℕ) (entries : List Entry)
        → (ordinal + length entries) * 12 ≤ length index
        → AreDecoded index ordinal entries
        → AreAscending previous entries
        → All (IsEntry disk) entries
        → scan_index index disk (length entries) ordinal previous ≡ ok tt
    scan_index_complete ordinal previous [] fits d a i = unfold scan_index in refl
    scan_index_complete ordinal previous (e ∷ entries) fits (d, ds) (a, as') (i, is') =
        let step : ordinal + 1 ≡ suc ordinal = omega arith in
        let rest = scan_index_complete (suc ordinal) (some e.0) entries (omega arith) ds as' is' in
        scan_index-suc (length entries) ordinal previous (omega arith)
        ∙ rw (d, check_entry_complete previous e a i, step, rest) refl

-- What an index of some entries is.
pub record IsIndex (disk : DiskHeader) (index : Bytes) (entries : List Entry) : Type 0 where
  pub size : length index ≡ length entries * 12
  pub decoded : AreDecoded index 0 entries
  pub ascending : AreAscending none entries
  pub inside : All (IsEntry disk) entries

-- `validate_index` accepts exactly the indexes that hold as many entries as the header counts, of
-- ascending rows of the source, each stored inside the overlay and inside one of its blocks.
pub validate_index_iff :
    (disk : DiskHeader) (index : Bytes) (hot_row_count : ℕ)
    → HasWords disk
    → length index < u64_mod
    → (validate_index index hot_row_count disk ≡ ok tt)
      ↔ ((entries : List Entry) × (length entries ≡ hot_row_count) × IsIndex disk index entries)
unfolding validate_index
validate_index_iff disk index hot_row_count words short = (
  λ h.
      let size : length index ≡ hot_row_count * 12 = ground arith in
      let scanned : scan_index index disk hot_row_count 0 none ≡ ok tt = ground arith in
      let (entries, count, decoded, ascending, inside) =
        scan_index_sound disk words index short hot_row_count 0 none (omega arith) scanned in
      (
        entries,
        count,
        record { size = omega arith; decoded = decoded; ascending = ascending; inside = inside },
      ),
  λ (entries, count, i).
      let size = i.size in
      let fits : ltb (hot_row_count * 12) u64_mod ≡ true = ground arith in
      let same : (length index == hot_row_count * 12) ≡ true = ground arith in
      let scanned =
        scan_index_complete disk words index short 0 none entries (omega arith) i.decoded
          i.ascending i.inside in
      rw (fits, same, ← count) scanned,
)
