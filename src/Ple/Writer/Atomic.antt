-- ===== src/Ple/Writer/Atomic.antt =====
-- `write_overlay` publishes a whole sidecar or nothing, whatever fails.
use gb10x.Prelude.{ℕ, ◌≡◌, ◌≢◌, ◌⊎◌, ◌∙◌, refl, ap, false, none, some, [], ok, inl, inr}
use gb10x.Prelude.Texts.{Text}
use gb10x.Ple.Bytes.{Bytes}
use gb10x.Ple.Layout.{LayoutPlan}
use gb10x.Ple.Source.{ExactPleRowSource}
use gb10x.Ple.Reader.Reads.{IsExact}
use gb10x.Ple.Files.{FilePath, Files, Step, pure, same_path, find_file, remove_file}
use gb10x.Ple.Files.Steps.{>>=-Stays, and_then-holds, and_then-eq-ok}
use gb10x.Ple.Files.Operations.{remove_file-Stays}
use gb10x.Ple.Writer.{PlePackWriteReport, Prepared, prepare}
use gb10x.Ple.Writer.Publish.{temporary_path, report_of, publish, clean_up, write_overlay}
use gb10x.Ple.Writer.Effects.{sidecar_of}
use gb10x.Ple.Writer.Temporary.{temporary_path-other}
use gb10x.Ple.Writer.Replace.{
  clean_up-holds, clean_up-eq-ok, publish-Stays, kept, IsOldOrNew, publish-IsOldOrNew, publish-ok,
  publish-bare,
}

module _ (sha256 : Bytes → Bytes) (path : FilePath) (pid nonce : Text) (source : ExactPleRowSource)
    (plan : LayoutPlan) where
  abbrev go_on : Prepared → Step PlePackWriteReport
  go_on prepared fs =
      clean_up (temporary_path path pid nonce)
        (publish path (temporary_path path pid nonce) source plan prepared fs)

  -- Whatever fails, and also where it panics, the writer changes no file but the one at the path and the
  -- temporary one.
  pub write_overlay-Stays :
      (q : FilePath)
      → same_path q path ≡ false
      → same_path q (temporary_path path pid nonce) ≡ false
      → (fs : Files)
      → find_file q (write_overlay sha256 path pid nonce source plan fs).0.contents
        ≡ find_file q fs.contents
  unfolding write_overlay
  write_overlay-Stays q h k =
      >>=-Stays q (pure (prepare sha256 source plan)) go_on (λ fs. refl)
        (λ prepared. λ fs.
          clean_up-holds (temporary_path path pid nonce)
            (λ (gs : Files). find_file q gs.contents ≡ find_file q fs.contents)
            (publish path (temporary_path path pid nonce) source plan prepared fs)
            (publish-Stays path (temporary_path path pid nonce)
              (temporary_path-other path pid nonce) source plan prepared q h k fs)
            (λ gs e. remove_file-Stays q (temporary_path path pid nonce) k gs ∙ e))

  module _ (rows : ℕ → Bytes) (exact : IsExact source rows) where
    -- Over an exact source, the path holds afterwards what it held before, or the complete sidecar: the
    -- bytes that the plan, its index and the source's rows determine. That is so whichever of the file
    -- operations fail, and where a write fails half-way.
    pub write_overlay-atomic :
        (fs : Files)
        → (find_file path (write_overlay sha256 path pid nonce source plan fs).0.contents
            ≡ find_file path fs.contents)
          ⊎ ((prepared : Prepared) × (prepare sha256 source plan ≡ ok prepared)
              × (find_file path (write_overlay sha256 path pid nonce source plan fs).0.contents
                  ≡ some (sidecar_of rows plan prepared)))
    unfolding write_overlay
    write_overlay-atomic fs =
        let temp = temporary_path path pid nonce in
        let other = temporary_path-other path pid nonce in
        and_then-holds
          (λ (gs : Files).
            (find_file path gs.contents ≡ find_file path fs.contents)
            ⊎ ((prepared : Prepared) × (prepare sha256 source plan ≡ ok prepared)
                × (find_file path gs.contents ≡ some (sidecar_of rows plan prepared))))
          (fs, prepare sha256 source plan) go_on (inl refl)
          (λ prepared e.
            elim (clean_up-holds temp
              (IsOldOrNew path temp other source plan prepared rows exact fs)
              (publish path temp source plan prepared fs)
              (publish-IsOldOrNew path temp other source plan prepared rows exact fs)
              (λ gs h.
                kept path temp other source plan prepared rows exact fs gs (remove_file temp gs).0
                  (remove_file-Stays path temp other gs) h)) [
                    | inl old ↦ inl old
                    | inr new ↦ inr (prepared, e, new)
                  ])

    -- Where the writer succeeds over an exact source, the path holds the complete sidecar, no temporary
    -- file is left, and the report has the measures of the sidecar.
    pub write_overlay-ok :
        (fs : Files) {r : PlePackWriteReport}
        → (write_overlay sha256 path pid nonce source plan fs).1 ≡ ok r
        → (prepared : Prepared) × (prepare sha256 source plan ≡ ok prepared)
          × (r ≡ report_of prepared)
          × (find_file path (write_overlay sha256 path pid nonce source plan fs).0.contents
              ≡ some (sidecar_of rows plan prepared))
          × (find_file
                (temporary_path path pid nonce)
                (write_overlay sha256 path pid nonce source plan fs).0.contents
              ≡ none)
    unfolding write_overlay
    write_overlay-ok fs h =
        let temp = temporary_path path pid nonce in
        let other = temporary_path-other path pid nonce in
        let (prepared, e, h1, e1) = and_then-eq-ok (fs, prepare sha256 source plan) go_on h in
        let (h2, e2) = clean_up-eq-ok temp (publish path temp source plan prepared fs) h1 in
        let (r, new, gone) = publish-ok path temp other source plan prepared rows exact fs h2 in
        let same = e1 ∙ e2 in
        (
          prepared,
          e,
          r,
          ap (λ o. find_file path o.0.contents) same ∙ new,
          ap (λ o. find_file temp o.0.contents) same ∙ gone,
        )

  -- Of a path without a parent the parent directory cannot be opened to be synced, so that the writer
  -- never reports a success there, whatever the files are, also where it has replaced the file.
  pub write_overlay-bare :
      path.parent ≡ []
      → (fs : Files) (r : PlePackWriteReport)
      → (write_overlay sha256 path pid nonce source plan fs).1 ≢ ok r
  unfolding write_overlay
  write_overlay-bare bare fs r = λ h.
      let temp = temporary_path path pid nonce in
      let other = temporary_path-other path pid nonce in
      let (prepared, _, h1, _) = and_then-eq-ok (fs, prepare sha256 source plan) go_on h in
      let (h2, _) = clean_up-eq-ok temp (publish path temp source plan prepared fs) h1 in
      publish-bare path temp source plan prepared other bare fs r h2
