-- ===== src/Ple/Writer/Entries.antt =====
-- The index that the writer builds: the placements by row, in ascending order, encoded one after another.
use mathlib.Core.List.{append_assoc}
use gb10x.Prelude.{
  ℕ, suc, ◌+◌, ◌*◌, ◌<◌, ◌≡◌, ◌∙◌, refl, sym, subst, ap, ap₂, false, none, some, List, [], ◌∷◌,
  ◌++◌, ok, ok_or, u32_mod, u64_mod, length, length-append, leb, leb→lt, arith, All, map, take,
  Bool-cases, inl, inr, >>=-eq-ok, ok-injective, ◌>>=◌,
}
use gb10x.Ple.Bytes.{Bytes, take-append_length, drop-append_length}
use gb10x.Ple.Format.{PlePackIoError, format}
use gb10x.Ple.Disk.{encode_index_entry, decode_index_entry}
use gb10x.Ple.Disk.Reads.{part}
use gb10x.Ple.Disk.Index.{length-encode_index_entry, decode-encode_index_entry}
use gb10x.Ple.Layout.{HotOverlayPlacement}
use gb10x.Ple.Layout.Placements.{address}
use gb10x.Ple.Reader.Index.{Entry, AreDecoded, AreAscending}
use gb10x.Ple.Writer.{
  index_entries_of, overlay_offset_of, and_add, insert_by_row, sort_by_row, any_repeated,
  payload_of,
}

-- The entry of a placement.
abbrev pub entry_of : ℕ → HotOverlayPlacement → Entry
entry_of block_bytes p = (p.logical_row, address block_bytes p)

offset_checked :
    (block_bytes : ℕ) (p : HotOverlayPlacement) (e : PlePackIoError) {offset : ℕ}
    → ok_or (overlay_offset_of block_bytes p) e ≡ ok offset
    → (offset ≡ address block_bytes p) × (address block_bytes p < u64_mod)
unfolding overlay_offset_of and_add
offset_checked block_bytes p e h = (ground arith, ground arith)

pub index_entries_of-map :
    (block_bytes : ℕ) (placements : List HotOverlayPlacement) {entries : List Entry}
    → index_entries_of block_bytes placements ≡ ok entries
    → (entries ≡ map (entry_of block_bytes) placements)
      × All (λ p. address block_bytes p < u64_mod) placements
unfolding index_entries_of
index_entries_of-map block_bytes [] h = (sym (ok-injective h), tt)
index_entries_of-map block_bytes (p ∷ placements) h =
    let build = λ (offset : ℕ).
      index_entries_of block_bytes placements >>= λ rest. ok ((p.logical_row, offset) ∷ rest) in
    let (offset, placed, h1) =
      >>=-eq-ok (ok_or (overlay_offset_of block_bytes p) (format "hot overlay offset overflow"))
        build h in
    let (rest, built, h2) =
      >>=-eq-ok (index_entries_of block_bytes placements)
        (λ rest. ok ((p.logical_row, offset) ∷ rest)) h1 in
    let (at, word) = offset_checked block_bytes p _ placed in
    let (same, words) = index_entries_of-map block_bytes placements built in
    (
      sym (ok-injective h2) ∙ ap₂ (λ (o : ℕ) (es : List Entry). (p.logical_row, o) ∷ es) at same,
      (word, words),
    )

module _ (P : Entry → Type 0) where
  insert_by_row-All :
      (e : Entry) (entries : List Entry) → P e → All P entries → All P (insert_by_row e entries)
  unfolding insert_by_row
  insert_by_row-All e [] p ps = (p, tt)
  insert_by_row-All e (f ∷ entries) p (q, qs) = elim (Bool-cases (leb e.0 f.0)) [
    | inl before ↦ rw before (p, (q, qs))
    | inr after ↦ rw after (q, insert_by_row-All e entries p qs)
  ]

  pub sort_by_row-All : (entries : List Entry) → All P entries → All P (sort_by_row entries)
  unfolding sort_by_row
  sort_by_row-All [] ps = tt
  sort_by_row-All (e ∷ entries) (p, ps) =
      insert_by_row-All e (sort_by_row entries) p (sort_by_row-All entries ps)

pub All-entry_of :
    (P : Entry → Type 0) (block_bytes : ℕ) (placements : List HotOverlayPlacement)
    → All (λ p. P (entry_of block_bytes p)) placements
    → All P (map (entry_of block_bytes) placements)
All-entry_of P block_bytes [] ps = tt
All-entry_of P block_bytes (p ∷ placements) (h, hs) = (h, All-entry_of P block_bytes placements hs)

ascending_from :
    (e : Entry) (entries : List Entry)
    → any_repeated (e ∷ entries) ≡ false
    → AreAscending (some e.0) entries
unfolding any_repeated
ascending_from e [] h = tt
ascending_from e (f ∷ entries) h =
    let first : leb f.0 e.0 ≡ false = ground arith in
    let later : any_repeated (f ∷ entries) ≡ false = ground arith in
    (leb→lt f.0 e.0 first, ascending_from f entries later)

-- Sorted entries without a repeated row ascend.
pub any_repeated-AreAscending :
    (entries : List Entry) → any_repeated entries ≡ false → AreAscending none entries
any_repeated-AreAscending [] h = tt
any_repeated-AreAscending (e ∷ entries) h = (tt, ascending_from e entries h)

pub length-payload_of : (entries : List Entry) → length (payload_of entries) ≡ length entries * 12
unfolding payload_of
length-payload_of [] = refl
length-payload_of (e ∷ entries) = omega (
  arith,
  length-append (encode_index_entry e.0 e.1) (payload_of entries),
  length-encode_index_entry e.0 e.1,
  length-payload_of entries,
)

-- The words that an index entry has.
abbrev pub HasEntryWords : Entry → Type 0
HasEntryWords e = (e.0 < u32_mod) × (e.1 < u64_mod)

-- Behind whole entries, the payload decodes to its entries.
payload_of-AreDecoded_from :
    (front : Bytes) (k : ℕ) (entries : List Entry)
    → length front ≡ k * 12
    → All HasEntryWords entries
    → AreDecoded (front ++ payload_of entries) k entries
unfolding payload_of
payload_of-AreDecoded_from front k [] h ws = tt
payload_of-AreDecoded_from front k (e ∷ entries) h ((row, offset), ws) =
    let code = encode_index_entry e.0 e.1 in
    let n = length-encode_index_entry e.0 e.1 in
    let at : length front + 0 ≡ k * 12 = omega (arith, h) in
    let here : part (front ++ (code ++ payload_of entries)) 12 (k * 12) ≡ code =
      ap (take 12) (rw at at (drop-append_length front (code ++ payload_of entries) 0))
      ∙ rw n at (take-append_length code (payload_of entries)) in
    let rest =
      payload_of-AreDecoded_from (front ++ code) (suc k) entries
        (omega (arith, length-append front code, n, h)) ws in
    (
      ap decode_index_entry here ∙ decode-encode_index_entry e.0 e.1 row offset,
      subst (λ (b : Bytes). AreDecoded b (suc k) entries)
          (append_assoc front code (payload_of entries)) rest,
    )

pub payload_of-AreDecoded :
    (entries : List Entry) → All HasEntryWords entries → AreDecoded (payload_of entries) 0 entries
payload_of-AreDecoded entries ws = payload_of-AreDecoded_from [] 0 entries refl ws
