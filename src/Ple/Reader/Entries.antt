-- ===== src/Ple/Reader/Entries.antt =====
-- Ascending entries, and what a well-formed reader reads of them.
use gb10x.Prelude.{
  ℕ, zero, suc, ◌+◌, ◌*◌, ◌≤◌, ◌<◌, ◌≡◌, ◌≢◌, refl, ap, ◌∙◌, true, false, Option, none, some, List,
  [], ◌∷◌, ok, u64_mod, ◌==◌, length, get_elem?, take, drop, arith, All, if◌then◌else◌, lt→leb,
  lt→ltb,
}
use gb10x.Ple.Bytes.{Bytes, take-drop-take, drop-drop}
use gb10x.Ple.Disk.{decode_index_entry}
use gb10x.Ple.Disk.Reads.{part, range_in}
use gb10x.Ple.Reader.{PlePackReader, index_entry}
use gb10x.Ple.Reader.Index.{Entry, AreDecoded, AreAscending, IsEntryOf}

-- The offset of a row among the entries.
abbrev pub lookup : ℕ → List Entry → Option ℕ
lookup row [] = none
lookup row (e ∷ entries) = if e.0 == row then some e.1 else lookup row entries

pub get_elem?-lt :
    (entries : List Entry) (i : ℕ) {e : Entry} → get_elem? entries i ≡ some e → i < length entries
get_elem?-lt [] i h = cc
get_elem?-lt (e ∷ entries) zero h = omega arith
get_elem?-lt (e ∷ entries) (suc i) h = let rest = get_elem?-lt entries i h in omega arith

AreDecoded_at :
    (index : Bytes) (k : ℕ) (entries : List Entry) (i : ℕ) {e : Entry}
    → AreDecoded index k entries
    → get_elem? entries i ≡ some e
    → decode_index_entry (part index 12 ((k + i) * 12)) ≡ ok e
AreDecoded_at index k [] i d h = cc
AreDecoded_at index k (f ∷ entries) zero {e} (d, ds) h =
    let here : k + 0 ≡ k = omega arith in
    let same : f ≡ e = ground arith in rw here (d ∙ ap ok same)
AreDecoded_at index k (f ∷ entries) (suc i) (d, ds) h =
    let here : k + suc i ≡ suc k + i = omega arith in
    rw here (AreDecoded_at index (suc k) entries i ds h)

-- Every later row is above.
above :
    (row : ℕ) (entries : List Entry) (j : ℕ) {f : Entry}
    → AreAscending (some row) entries
    → get_elem? entries j ≡ some f
    → row < f.0
above row [] j a h = cc
above row (e ∷ entries) zero {f} (a, as') h = let same : e ≡ f = ground arith in rw (← same) a
above row (e ∷ entries) (suc j) {f} (a, as') h =
    let rest : e.0 < f.0 = above e.0 entries j as' h in omega arith

pub ascending_lt :
    (previous : Option ℕ) (entries : List Entry) (i j : ℕ) {e f : Entry}
    → AreAscending previous entries
    → i < j
    → get_elem? entries i ≡ some e
    → get_elem? entries j ≡ some f
    → e.0 < f.0
ascending_lt previous [] i j a h hi hj = cc
ascending_lt previous (d ∷ entries) zero zero a h hi hj = absurd (omega arith)
ascending_lt previous (d ∷ entries) zero (suc j) {e} {f} (a, as') h hi hj =
    let same : d ≡ e = ground arith in rw (← same) (above d.0 entries j as' hj)
ascending_lt previous (d ∷ entries) (suc i) zero a h hi hj = absurd (omega arith)
ascending_lt previous (d ∷ entries) (suc i) (suc j) (a, as') h hi hj =
    ascending_lt (some d.0) entries i j as' (omega arith) hi hj

-- An entry is the one that its row is looked up as.
pub lookup_found :
    (previous : Option ℕ) (entries : List Entry) (i : ℕ) {e : Entry}
    → AreAscending previous entries
    → get_elem? entries i ≡ some e
    → lookup e.0 entries ≡ some e.1
lookup_found previous [] i a h = cc
lookup_found previous (d ∷ entries) zero {e} a h =
    let same : d ≡ e = ground arith in
    let itself : (e.0 == e.0) ≡ true = ground arith in rw (same, itself) refl
lookup_found previous (d ∷ entries) (suc i) {e} (a, as') h =
    let below : d.0 < e.0 = above d.0 entries i as' h in
    let other : (d.0 == e.0) ≡ false = ground arith in
    rw other (lookup_found (some d.0) entries i as' h)

pub lookup_absent :
    (row : ℕ) (entries : List Entry)
    → ((i : ℕ) (e : Entry) → get_elem? entries i ≡ some e → e.0 ≢ row)
    → lookup row entries ≡ none
lookup_absent row [] h = refl
lookup_absent row (e ∷ entries) h =
    let other : (e.0 == row) ≡ false = ground (arith, h 0 e refl) in
    rw other (lookup_absent row entries (λ i f k. h (suc i) f k))

-- A reader that holds the given entries.
pub record IsReader (r : PlePackReader) (entries : List Entry) : Type 0 where
  pub count : r.hot_row_count ≡ length entries
  pub index_offset : r.index_offset ≡ 128
  pub room : 128 + length entries * 12 ≤ r.data_offset
  pub size : r.data_offset + r.overlay_bytes ≡ length r.mmap
  pub short : length r.mmap < u64_mod
  pub decoded : AreDecoded (part r.mmap (length entries * 12) 128) 0 entries
  pub ascending : AreAscending none entries
  pub inside : All (IsEntryOf r.header r.overlay_bytes) entries
  pub rows : r.header.row_count ≡ r.source.row_count
  pub width : r.header.row_bytes ≡ r.source.row_bytes

-- The ordinals of a reader are the entries.
pub index_entry_at :
    (r : PlePackReader) (entries : List Entry)
    → IsReader r entries
    → (i : ℕ) (e : Entry) → get_elem? entries i ≡ some e
    → index_entry r i ≡ ok e
unfolding index_entry
index_entry_at r entries w i e h =
    let below = get_elem?-lt entries i h in
    let n = length entries in
    let c = w.count in
    let room = w.room in
    let size = w.size in
    let short = w.short in
    let o = w.index_offset in
    let a = lt→leb r.hot_row_count i (omega arith) in
    let b = lt→ltb (i * 12) u64_mod (omega arith) in
    let d = lt→ltb (128 + i * 12) u64_mod (omega arith) in
    let f = lt→ltb (128 + i * 12 + 12) u64_mod (omega arith) in
    let here = range_in r.mmap 12 (128 + i * 12) (128 + i * 12 + 12) refl (omega arith) in
    let found = AreDecoded_at (part r.mmap (n * 12) 128) 0 entries i w.decoded h in
    let start : (0 + i) * 12 ≡ i * 12 = omega arith in
    let within : part (part r.mmap (n * 12) 128) 12 (i * 12) ≡ part r.mmap 12 (128 + i * 12) =
      take-drop-take 12 (i * 12) (n * 12) (drop 128 r.mmap) (omega arith)
      ∙ ap (take 12) (drop-drop (i * 12) 128 r.mmap) in
    rw (a, b, o, d, f, here, ← within, ← start) found
