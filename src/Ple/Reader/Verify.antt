-- ===== src/Ple/Reader/Verify.antt =====
-- What the verification of the overlay tells: a verified reader reads as its source does.
use gb10x.Prelude.{
  ℕ, zero, suc, ◌+◌, ◌≤◌, ◌<◌, ◌≡◌, ◌↔◌, refl, sym, subst, ap, ap₂, ==_iff, ltb→lt, ltb→le,
  ok-injective, ◌∙◌, not, Option, some, List, [], ◌∷◌, ok, ◌>>◌, fail_if, ltb, leb, ◌==◌, length,
  get_elem?, arith, Bool-cases, inl, inr, lt→leb, eq→==, Option-cases, >>=-eq-ok, fail_if-eq-ok,
  not-eq_false, get_or, get_elem?_lt,
}
use gb10x.Ple.Bytes.{Bytes, zeros}
use gb10x.Ple.Format.{overlay_data_mismatch}
use gb10x.Ple.Disk.{equal_bytes}
use gb10x.Ple.Disk.Writes.{length-zeros}
use gb10x.Ple.Disk.Canonical.{equal_bytes_iff}
use gb10x.Ple.Reader.{
  PlePackReader, overlay_verification, verify_rows, verify_hot_overlay, read_exact_row,
}
use gb10x.Ple.Reader.Index.{Entry, IsEntryOf}
use gb10x.Ple.Reader.Entries.{IsReader, index_entry_at, lookup, get_elem?-lt}
use gb10x.Ple.Reader.Reads.{IsExact, stored, overlay_row_in, All_at, read_exact_row_total}

lookup_at :
    (row : ℕ) (entries : List Entry) {offset : ℕ}
    → lookup row entries ≡ some offset
    → (i : ℕ) × (get_elem? entries i ≡ some (row, offset))
lookup_at row [] h = cc
lookup_at row (e ∷ entries) {offset} h = elim (Bool-cases (e.0 == row)) [
  | inl same ↦ (0, ap some (ap₂ (λ (x y : ℕ). (x, y)) ((==_iff e.0 row).0 same) (ground arith)))
  | inr other ↦ let (i, at) = lookup_at row entries (ground arith) in (suc i, at)
]

-- Every entry stores the source's row.
abbrev pub IsCopy : PlePackReader → (ℕ → Bytes) → Entry → Type 0
IsCopy r rows e = stored r e.1 ≡ rows e.0

some-injective : {a b : Entry} → ◌≡◌ {A = Option Entry} (some a) (some b) → a ≡ b
some-injective h = cc

module _ (r : PlePackReader) (entries : List Entry) (w : IsReader r entries) (rows : ℕ → Bytes)
    (exact : IsExact r.source rows) where
  source_read :
      (row : ℕ) (dst : Bytes)
      → row < r.header.row_count
      → length dst ≡ r.header.row_bytes
      → r.source.read_exact_row row dst ≡ ok (rows row)
  source_read row dst within fits =
      let a = lt→leb r.source.row_count row (omega (arith, w.rows)) in
      let b = eq→== (length dst) r.source.row_bytes (fits ∙ w.width) in
      exact.read row dst ∙ rw (a, b) refl

  row_width : (row : ℕ) → row < r.header.row_count → length (rows row) ≡ r.header.row_bytes
  row_width row within = exact.width row (omega (arith, w.rows)) ∙ sym w.width

  verify_rows-suc :
      (rounds ordinal : ℕ) (e : Entry) (buffer : Bytes)
      → get_elem? entries ordinal ≡ some e
      → length buffer ≡ r.header.row_bytes
      → verify_rows r (suc rounds) ordinal buffer ≡ (
          fail_if (not (equal_bytes (stored r e.1) (rows e.0))) (overlay_data_mismatch e.0)
          >> verify_rows r rounds (ordinal + 1) (rows e.0))
  unfolding verify_rows
  verify_rows-suc rounds ordinal e buffer h fits =
      let inside = All_at (IsEntryOf r.header r.overlay_bytes) entries ordinal w.inside h in
      rw
        (
          index_entry_at r entries w ordinal e h,
          source_read e.0 buffer inside.0 fits,
          overlay_row_in r entries w e.0 e.1 overlay_verification inside,
        )
        refl

  abbrev pub AreCopies : ℕ → Type 0
  AreCopies ordinal =
      (i : ℕ) (e : Entry) → ordinal ≤ i → get_elem? entries i ≡ some e → IsCopy r rows e

  verify_rows_iff :
      (rounds ordinal : ℕ) (buffer : Bytes)
      → ordinal + rounds ≡ length entries
      → length buffer ≡ r.header.row_bytes
      → (verify_rows r rounds ordinal buffer ≡ ok tt) ↔ AreCopies ordinal
  verify_rows_iff zero ordinal buffer all fits = (
    λ _ i e from h. absurd (let below = get_elem?-lt entries i h in omega arith),
    λ _. unfold verify_rows in refl,
  )
  verify_rows_iff (suc rounds) ordinal buffer all fits =
      let e = get_or entries ordinal (0, 0) in
      let here = get_elem?_lt entries ordinal (0, 0) (omega arith) in
      let inside = All_at (IsEntryOf r.header r.overlay_bytes) entries ordinal w.inside here in
      let step = verify_rows-suc rounds ordinal e buffer here fits in
      let rest = verify_rows r rounds (ordinal + 1) (rows e.0) in
      let (to, from) =
        verify_rows_iff rounds (ordinal + 1) (rows e.0) (omega arith) (row_width e.0 inside.0) in
      let (same, back) = equal_bytes_iff (stored r e.1) (rows e.0) in
      (
        λ h.
            let (t, h') =
              fail_if-eq-ok (not (equal_bytes (stored r e.1) (rows e.0)))
                (overlay_data_mismatch e.0) rest (sym step ∙ h) in
            let copies = to h' in
            let first = same (not-eq_false _ t) in
            λ i f low k. elim (Bool-cases (ltb ordinal i)) [
              | inl later ↦ copies i f (omega (arith, ltb→lt ordinal i later)) k
              | inr now ↦
                  let now' : ordinal ≡ i = omega (arith, ltb→le ordinal i now) in
                  let k' : get_elem? entries ordinal ≡ some f =
                    subst (λ (j : ℕ). get_elem? entries j ≡ some f) (sym now') k in
                  let equal : e ≡ f = some-injective (sym here ∙ k') in
                  subst (IsCopy r rows) equal first
            ],
        λ copies.
            step
            ∙ rw (back (copies ordinal e (omega arith) here))
                (from (λ i f low k. copies i f (omega arith) k)),
      )

  -- The verification accepts exactly the overlays in which each entry stores its row of the source;
  -- it then reports how many there are.
  pub verify_hot_overlay_iff :
      (count : ℕ) → (verify_hot_overlay r ≡ ok count) ↔ ((count ≡ r.hot_row_count) × AreCopies 0)
  unfolding verify_hot_overlay
  verify_hot_overlay_iff count =
      let (to, from) =
        verify_rows_iff r.hot_row_count 0 (zeros r.header.row_bytes) (omega (arith, w.count))
          (length-zeros r.header.row_bytes) in
      (
        λ h.
            let (u, verified, e) =
              >>=-eq-ok (verify_rows r r.hot_row_count 0 (zeros r.header.row_bytes))
                (λ _. ok r.hot_row_count) h in
            (sym (ok-injective e), to verified),
        λ (e, copies). rw (from copies, e) refl,
      )

  -- A verified reader over an exact source reads every row, into every buffer, as the source does.
  pub verify_hot_overlay-read_exact_row :
      {count : ℕ}
      → verify_hot_overlay r ≡ ok count
      → (row : ℕ) (dst : Bytes) → read_exact_row r row dst ≡ r.source.read_exact_row row dst
  verify_hot_overlay-read_exact_row {count} verified row dst =
      let copies = ((verify_hot_overlay_iff count).0 verified).1 in
      read_exact_row_total r entries w row dst ∙ (elim (Bool-cases (leb r.source.row_count row)) [
        | inl out ↦ rw (w.rows, out, exact.read row dst, out) refl
        | inr within ↦ elim (Bool-cases (length dst == r.source.row_bytes)) [
          | inr misfit ↦
              rw (w.rows, w.width, within, misfit, exact.read row dst, within, misfit) refl
          | inl fits ↦ elim (Option-cases (lookup row entries)) [
            | inl absent ↦ rw (w.rows, w.width, within, fits, absent) refl
            | inr (offset, present) ↦
                let (i, at) = lookup_at row entries present in
                rw (w.rows, w.width, within, fits, present, exact.read row dst, within, fits)
                  (ap ok (copies i (row, offset) (omega arith) at))
          ]
        ]
      ])
