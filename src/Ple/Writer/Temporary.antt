-- ===== src/Ple/Writer/Temporary.antt =====
-- The temporary file of the writer: it is another file than the published one, and complete where the
-- writing of it succeeds.
use gb10x.Prelude.{
  ℕ, ◌<◌, ◌≡◌, ◌∙◌, ap, false, [], ◌∷◌, ◌++◌, ok, length, arith, Bool-cases, inl, inr,
}
use gb10x.Prelude.Texts.{Text}
use gb10x.Ple.Bytes.{Bytes, zeros}
use gb10x.Ple.Disk.{encode}
use gb10x.Ple.Layout.{LayoutPlan}
use gb10x.Ple.Source.{ExactPleRowSource}
use gb10x.Ple.Reader.Reads.{IsExact}
use gb10x.Ple.Files.{
  FilePath, Files, Step, ◌>>◌, same_path, bytes_at, overwrite, resized, touch, create_new, set_len,
  write_all, or_empty,
}
use gb10x.Ple.Files.Paths.{same_path_iff}
use gb10x.Ple.Files.Steps.{Stays, >>=-Stays, and_then-eq-ok}
use gb10x.Ple.Files.Operations.{
  touch-Stays, create_new-Stays, set_len-Stays, write_all-Stays, create_new-ok, set_len-ok,
  write_all-ok,
}
use gb10x.Ple.Writer.{Prepared}
use gb10x.Ple.Writer.Publish.{temporary_path, write_rows, write_file}
use gb10x.Ple.Writer.Effects.{sidecar_of, headed, filled, write_rows-Stays, write_rows-ok}

longer : (a b : Text) (c d : ℕ) → length a < length (c ∷ a ++ (d ∷ b))
longer [] b c d = omega arith
longer (x ∷ a) b c d = let rest = longer a b c d in omega arith

-- The temporary name is longer than the name of the sidecar.
pub temporary_path-other :
    (path : FilePath) (pid nonce : Text) → same_path path (temporary_path path pid nonce) ≡ false
unfolding temporary_path
temporary_path-other path pid nonce =
    elim (Bool-cases (same_path path (temporary_path path pid nonce))) [
      | inr other ↦ other
      | inl same ↦
          let e = (same_path_iff path (temporary_path path pid nonce)).0 same in
          let e' : length path.file_name ≡ length (temporary_path path pid nonce).file_name =
            ap (λ (p : FilePath). length p.file_name) e in
          let l =
            longer path.file_name (b't' ∷ b'm' ∷ b'p' ∷ b'-' ∷ pid ++ (b'-' ∷ nonce)) b'.' b'.' in
          absurd (omega (arith, e', l))
    ]

module _ (file : FilePath) (source : ExactPleRowSource) (plan : LayoutPlan)
    (prepared : Prepared) where
  -- The steps that are left after each one.
  abbrev finish : Step (Unit {0})
  finish =
      write_rows file source plan.block_bytes prepared.disk_header.data_offset
        plan.hot_overlay_placements (zeros source.row_bytes)
      >> touch

  abbrev write_index : Step (Unit {0})
  write_index = write_all file 128 prepared.index_payload >> finish

  abbrev write_header : Step (Unit {0})
  write_header = write_all file 0 (encode prepared.disk_header) >> write_index

  abbrev extend : Step (Unit {0})
  extend = set_len file prepared.file_bytes >> write_header

  pub write_file-Stays :
      (q : FilePath) → same_path q file ≡ false → Stays q (write_file file source plan prepared)
  unfolding write_file
  write_file-Stays q other =
      >>=-Stays q (create_new file) (λ _. extend) (create_new-Stays q file other)
        (λ _.
          >>=-Stays q (set_len file prepared.file_bytes) (λ _. write_header)
            (set_len-Stays q file other prepared.file_bytes)
            (λ _.
              >>=-Stays q (write_all file 0 (encode prepared.disk_header)) (λ _. write_index)
                (write_all-Stays q file other 0 _)
                (λ _.
                  >>=-Stays q (write_all file 128 prepared.index_payload) (λ _. finish)
                    (write_all-Stays q file other 128 _)
                    (λ _.
                      >>=-Stays q
                        (write_rows file source plan.block_bytes prepared.disk_header.data_offset
                          plan.hot_overlay_placements (zeros source.row_bytes))
                        (λ _. touch)
                        (write_rows-Stays file source plan.block_bytes
                          prepared.disk_header.data_offset q other _ _)
                        (λ _. touch-Stays q)))))

  pub write_file-ok :
      (rows : ℕ → Bytes)
      → IsExact source rows
      → (fs : Files) → (write_file file source plan prepared fs).1 ≡ ok tt
      → bytes_at file (write_file file source plan prepared fs).0 ≡ sidecar_of rows plan prepared
  unfolding write_file
  write_file-ok rows exact fs h =
      let copy =
        write_rows file source plan.block_bytes prepared.disk_header.data_offset
          plan.hot_overlay_placements (zeros source.row_bytes) in
      let fs1 = (create_new file fs).0 in
      let fs2 = (set_len file prepared.file_bytes fs1).0 in
      let fs3 = (write_all file 0 (encode prepared.disk_header) fs2).0 in
      let fs4 = (write_all file 128 prepared.index_payload fs3).0 in
      let (_, r1, h1, e1) = and_then-eq-ok (create_new file fs) (λ _. extend) h in
      let (_, r2, h2, e2) =
        and_then-eq-ok (set_len file prepared.file_bytes fs1) (λ _. write_header) h1 in
      let (_, r3, h3, e3) =
        and_then-eq-ok (write_all file 0 (encode prepared.disk_header) fs2) (λ _. write_index) h2 in
      let (_, r4, h4, e4) =
        and_then-eq-ok (write_all file 128 prepared.index_payload fs3) (λ _. finish) h3 in
      let (_, r5, h5, e5) = and_then-eq-ok (copy fs4) (λ _. touch) h4 in
      let b1 = create_new-ok file fs r1 in
      let b2 = set_len-ok file prepared.file_bytes fs1 r2 ∙ ap (resized prepared.file_bytes) b1 in
      let b3 =
        write_all-ok file 0 (encode prepared.disk_header) fs2 r3
        ∙ ap (λ (b : Bytes). overwrite b 0 (encode prepared.disk_header)) b2 in
      let b4 : bytes_at file fs4 ≡ headed prepared =
        write_all-ok file 128 prepared.index_payload fs3 r4
        ∙ ap (λ (b : Bytes). overwrite b 128 prepared.index_payload) b3 in
      let b5 =
        write_rows-ok file source plan.block_bytes prepared.disk_header.data_offset rows exact
          plan.hot_overlay_placements (zeros source.row_bytes) fs4 r5 in
      ap (λ o. bytes_at file o.0) (e1 ∙ e2 ∙ e3 ∙ e4 ∙ e5)
      ∙ ap or_empty (touch-Stays file (copy fs4).0)
      ∙ b5
      ∙ ap
          (filled rows plan.block_bytes prepared.disk_header.data_offset
            plan.hot_overlay_placements)
          b4
