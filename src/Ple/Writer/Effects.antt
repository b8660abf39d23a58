-- ===== src/Ple/Writer/Effects.antt =====
-- What the writer leaves in the temporary file, and which files it leaves alone.
use gb10x.Prelude.{
  ℕ, ◌+◌, ◌≡◌, ◌∙◌, refl, sym, ap, ap₂, false, List, [], ◌∷◌, ok, ok_or, checked_add, leb, ◌==◌,
  length, arith, Bool-cases, inl, inr, ok-injective,
}
use gb10x.Ple.Bytes.{Bytes}
use gb10x.Ple.Format.{PlePackIoError, format}
use gb10x.Ple.Disk.{encode}
use gb10x.Ple.Layout.{HotOverlayPlacement, LayoutPlan}
use gb10x.Ple.Layout.Placements.{address}
use gb10x.Ple.Source.{ExactPleRowSource}
use gb10x.Ple.Reader.Reads.{IsExact}
use gb10x.Ple.Files.{
  FilePath, Files, Step, and_then, ◌>>=◌, ◌>>◌, pure, same_path, bytes_at, overwrite, resized,
  write_all,
}
use gb10x.Ple.Files.Steps.{Stays, >>=-Stays, and_then-eq-ok}
use gb10x.Ple.Files.Operations.{write_all-Stays, write_all-ok}
use gb10x.Ple.Writer.{Prepared, overlay_offset_of, and_add}
use gb10x.Ple.Writer.Publish.{write_rows}

-- The bytes once the rows of the placements are written over them.
abbrev pub filled : (ℕ → Bytes) → ℕ → ℕ → List HotOverlayPlacement → Bytes → Bytes
filled rows block_bytes data_offset [] bytes = bytes
filled rows block_bytes data_offset (p ∷ placements) bytes =
    filled rows block_bytes data_offset placements
      (overwrite bytes (data_offset + address block_bytes p) (rows p.logical_row))

-- The header and the index, over zeros.
abbrev pub headed : Prepared → Bytes
headed prepared =
    overwrite (overwrite (resized prepared.file_bytes []) 0 (encode prepared.disk_header)) 128
      prepared.index_payload

-- The complete sidecar.
abbrev pub sidecar_of : (ℕ → Bytes) → LayoutPlan → Prepared → Bytes
sidecar_of rows plan prepared =
    filled rows plan.block_bytes prepared.disk_header.data_offset plan.hot_overlay_placements
      (headed prepared)

offset_of :
    (block_bytes : ℕ) (p : HotOverlayPlacement) (e : PlePackIoError) {offset : ℕ}
    → ok_or (overlay_offset_of block_bytes p) e ≡ ok offset
    → offset ≡ address block_bytes p
unfolding overlay_offset_of and_add
offset_of block_bytes p e h = ground arith

sum_of : (a b : ℕ) (e : PlePackIoError) {sum : ℕ} → ok_or (checked_add a b) e ≡ ok sum → sum ≡ a + b
sum_of a b e h = ground arith

module _ (file : FilePath) (source : ExactPleRowSource) where
  module _ (block_bytes data_offset : ℕ) where
    abbrev write_row : List HotOverlayPlacement → Bytes → ℕ → Step (Unit {0})
    write_row placements row absolute =
        write_all file absolute row >> write_rows file source block_bytes data_offset placements row

    abbrev place_row : List HotOverlayPlacement → Bytes → ℕ → Step (Unit {0})
    place_row placements row offset =
        pure
          (ok_or (checked_add data_offset offset) (format "hot overlay absolute offset overflow"))
        >>= write_row placements row

    abbrev copy_row : HotOverlayPlacement → List HotOverlayPlacement → Bytes → Step (Unit {0})
    copy_row p placements row =
        pure (ok_or (overlay_offset_of block_bytes p) (format "hot overlay write offset overflow"))
        >>= place_row placements row

    write_rows_cons :
        (p : HotOverlayPlacement) (placements : List HotOverlayPlacement) (row : Bytes) (fs : Files)
        → write_rows file source block_bytes data_offset (p ∷ placements) row fs
          ≡ and_then (fs, source.read_exact_row p.logical_row row) (copy_row p placements)
    unfolding write_rows
    write_rows_cons p placements row fs = refl

    pub write_rows-Stays :
        (q : FilePath)
        → same_path q file ≡ false
        → (placements : List HotOverlayPlacement) (row : Bytes)
        → Stays q (write_rows file source block_bytes data_offset placements row)
    unfolding write_rows
    write_rows-Stays q other [] row = λ fs. refl
    write_rows-Stays q other (p ∷ placements) row =
        >>=-Stays q (pure (source.read_exact_row p.logical_row row)) (copy_row p placements)
          (λ fs. refl)
          (λ row'.
            >>=-Stays q
              (pure (
                ok_or (overlay_offset_of block_bytes p)
                  (format "hot overlay write offset overflow")))
              (place_row placements row') (λ fs. refl)
              (λ offset.
                >>=-Stays q
                  (pure (
                    ok_or (checked_add data_offset offset)
                      (format "hot overlay absolute offset overflow")))
                  (write_row placements row') (λ fs. refl)
                  (λ absolute.
                    >>=-Stays q (write_all file absolute row')
                      (λ _. write_rows file source block_bytes data_offset placements row')
                      (write_all-Stays q file other absolute row')
                      (λ _. write_rows-Stays q other placements row'))))

    module _ (rows : ℕ → Bytes) (exact : IsExact source rows) where
      exact_row :
          (row : ℕ) (dst : Bytes) {out : Bytes}
          → source.read_exact_row row dst ≡ ok out
          → out ≡ rows row
      exact_row row dst h =
          let e = sym (exact.read row dst) ∙ h in
          elim (Bool-cases (leb source.row_count row)) [
            | inl out ↦ let e' = rw out at e in cc
            | inr within ↦ elim (Bool-cases (length dst == source.row_bytes)) [
              | inl fits ↦ sym (ok-injective (rw (within, fits) at e))
              | inr misfit ↦ let e' = rw (within, misfit) at e in cc
            ]
          ]

      -- Where the loop succeeds, every row is written where its placement says.
      pub write_rows-ok :
          (placements : List HotOverlayPlacement) (row : Bytes) (fs : Files)
          → (write_rows file source block_bytes data_offset placements row fs).1 ≡ ok tt
          → bytes_at file (write_rows file source block_bytes data_offset placements row fs).0
            ≡ filled rows block_bytes data_offset placements (bytes_at file fs)
      unfolding write_rows
      write_rows-ok [] row fs h = refl
      write_rows-ok (p ∷ placements) row fs h =
          let (row', read, h1, e1) =
            and_then-eq-ok (fs, source.read_exact_row p.logical_row row) (copy_row p placements)
              h in
          let (offset, placed, h2, e2) =
            and_then-eq-ok
              (
                fs,
                ok_or (overlay_offset_of block_bytes p)
                    (format "hot overlay write offset overflow"),
              )
              (place_row placements row') h1 in
          let (absolute, summed, h3, e3) =
            and_then-eq-ok
              (
                fs,
                ok_or (checked_add data_offset offset)
                    (format "hot overlay absolute offset overflow"),
              )
              (write_row placements row') h2 in
          let rest =
            λ (_ : Unit {0}). write_rows file source block_bytes data_offset placements row' in
          let (_, written, h4, e4) = and_then-eq-ok (write_all file absolute row' fs) rest h3 in
          let at : absolute ≡ data_offset + address block_bytes p =
            sum_of data_offset offset _ summed
            ∙ ap (λ o. data_offset + o) (offset_of block_bytes p _ placed) in
          ap (λ o. bytes_at file o.0) (e1 ∙ e2 ∙ e3 ∙ e4)
          ∙ write_rows-ok placements row' (write_all file absolute row' fs).0 h4
          ∙ ap (filled rows block_bytes data_offset placements) (
              write_all-ok file absolute row' fs written
              ∙ ap₂ (overwrite (bytes_at file fs)) at (exact_row p.logical_row row read))
