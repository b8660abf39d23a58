-- ===== src/Ple/Writer/Replace.antt =====
-- The closure of `write_overlay`, from the temporary file to the synced directory: the file at the path
-- is replaced as a whole or not at all.
use gb10x.Prelude.{
  ◌∷◌, ℕ, ◌≡◌, ◌≢◌, ◌⊎◌, ◌∙◌, refl, sym, ap, false, none, some, [], ok, err, panic, inl, inr,
  ok-injective, Bool-cases,
}
use gb10x.Prelude.Texts.{Text}
use gb10x.Ple.Bytes.{Bytes}
use gb10x.Ple.Disk.{IoOutcome}
use gb10x.Ple.Layout.{LayoutPlan}
use gb10x.Ple.Source.{ExactPleRowSource}
use gb10x.Ple.Reader.Reads.{IsExact}
use gb10x.Ple.Files.{
  FilePath, Files, Step, ◌>>=◌, pure, same_path, find_file, bytes_at, create_dir_all,
  open_directory, rename, remove_file, touch,
}
use gb10x.Ple.Files.Paths.{same_path_iff}
use gb10x.Ple.Files.Steps.{Stays, >>=-Stays, and_then-holds, and_then-eq-ok}
use gb10x.Ple.Files.Operations.{
  touch-Stays, create_dir_all-Stays, open_directory-Stays, rename-Stays, rename-ok, rename-cases,
  rename-gone,
}
use gb10x.Ple.Writer.{PlePackWriteReport, Prepared}
use gb10x.Ple.Writer.Publish.{sync_parent_directory, write_file, report_of, publish, clean_up}
use gb10x.Ple.Writer.Effects.{sidecar_of}
use gb10x.Ple.Writer.Temporary.{write_file-Stays, write_file-ok}

same_path_sym : (p q : FilePath) → same_path p q ≡ false → same_path q p ≡ false
same_path_sym p q h = elim (Bool-cases (same_path q p)) [
  | inr other ↦ other
  | inl same ↦ let e = (same_path_iff p q).1 (sym ((same_path_iff q p).0 same)) in cc
]

sync_parent_directory-Stays : (q path : FilePath) → Stays q (sync_parent_directory path)
unfolding sync_parent_directory
sync_parent_directory-Stays q path =
    >>=-Stays q (open_directory path.parent) (λ _. touch) (open_directory-Stays q path.parent)
      (λ _. touch-Stays q)

module _ (temp_path : FilePath) where
  pub clean_up-holds :
      (P : Files → Type 0) (o : Files × IoOutcome PlePackWriteReport)
      → P o.0
      → ((fs : Files) → P fs → P (remove_file temp_path fs).0)
      → P (clean_up temp_path o).0
  unfolding clean_up
  clean_up-holds P (fs, ok report) h k = h
  clean_up-holds P (fs, err e) h k = k fs h
  clean_up-holds P (fs, panic) h k = h

  pub clean_up-eq-ok :
      (o : Files × IoOutcome PlePackWriteReport) {report : PlePackWriteReport}
      → (clean_up temp_path o).1 ≡ ok report
      → (o.1 ≡ ok report) × (clean_up temp_path o ≡ o)
  unfolding clean_up
  clean_up-eq-ok (fs, ok report) h = (h, refl)
  clean_up-eq-ok (fs, err e) h = cc
  clean_up-eq-ok (fs, panic) h = cc

  pub clean_up-ok :
      (o : Files × IoOutcome PlePackWriteReport) {report : PlePackWriteReport}
      → o.1 ≡ ok report
      → (clean_up temp_path o).1 ≡ ok report
  unfolding clean_up
  clean_up-ok (fs, ok report) h = h
  clean_up-ok (fs, err e) h = cc
  clean_up-ok (fs, panic) h = cc

module _ (path temp_path : FilePath) (other : same_path path temp_path ≡ false)
    (source : ExactPleRowSource) (plan : LayoutPlan) (prepared : Prepared) where
  abbrev pub report : Step PlePackWriteReport
  report = pure (ok (report_of prepared))

  abbrev pub sync : Step PlePackWriteReport
  sync = sync_parent_directory path >>= λ _. report

  abbrev pub replace : Step PlePackWriteReport
  replace = rename temp_path path >>= λ _. sync

  abbrev pub write : Step PlePackWriteReport
  write = write_file temp_path source plan prepared >>= λ _. replace

  sync-Stays : (q : FilePath) → Stays q sync
  sync-Stays q =
      >>=-Stays q (sync_parent_directory path) (λ _. report) (sync_parent_directory-Stays q path)
        (λ _. λ fs. refl)

  pub publish-Stays :
      (q : FilePath)
      → same_path q path ≡ false
      → same_path q temp_path ≡ false
      → Stays q (publish path temp_path source plan prepared)
  unfolding publish
  publish-Stays q h k =
      >>=-Stays q (create_dir_all path.parent) (λ _. write) (create_dir_all-Stays q path.parent)
        (λ _.
          >>=-Stays q (write_file temp_path source plan prepared) (λ _. replace)
            (write_file-Stays temp_path source plan prepared q k)
            (λ _.
              >>=-Stays q (rename temp_path path) (λ _. sync) (rename-Stays q temp_path k path h)
                (λ _. sync-Stays q)))

  module _ (rows : ℕ → Bytes) (exact : IsExact source rows) where
    -- What the path held, or the complete sidecar.
    abbrev pub IsOldOrNew : Files → Files → Type 0
    IsOldOrNew fs gs =
        (find_file path gs.contents ≡ find_file path fs.contents)
        ⊎ (find_file path gs.contents ≡ some (sidecar_of rows plan prepared))

    pub kept :
        (fs gs gs' : Files)
        → find_file path gs'.contents ≡ find_file path gs.contents
        → IsOldOrNew fs gs
        → IsOldOrNew fs gs'
    kept fs gs gs' e (inl old) = inl (e ∙ old)
    kept fs gs gs' e (inr new) = inr (e ∙ new)

    replace-IsOldOrNew :
        (fs gs : Files)
        → find_file path gs.contents ≡ find_file path fs.contents
        → bytes_at temp_path gs ≡ sidecar_of rows plan prepared
        → IsOldOrNew fs (replace gs).0
    replace-IsOldOrNew fs gs old complete =
        let renamed : IsOldOrNew fs (rename temp_path path gs).0 =
          elim (rename-cases temp_path path path gs) [
            | inl done ↦ inr (rename-ok temp_path path gs done ∙ ap some complete)
            | inr undone ↦ inl (undone ∙ old)
          ] in
        and_then-holds (IsOldOrNew fs) (rename temp_path path gs) (λ _. sync) renamed
          (λ _ _.
            kept fs (rename temp_path path gs).0 (sync (rename temp_path path gs).0).0
              (sync-Stays path (rename temp_path path gs).0) renamed)

    pub publish-IsOldOrNew :
        (fs : Files) → IsOldOrNew fs (publish path temp_path source plan prepared fs).0
    unfolding publish
    publish-IsOldOrNew fs =
        let fs1 = (create_dir_all path.parent fs).0 in
        let a = create_dir_all-Stays path path.parent fs in
        let b = write_file-Stays temp_path source plan prepared path other fs1 in
        and_then-holds (IsOldOrNew fs) (create_dir_all path.parent fs) (λ _. write) (inl a)
          (λ _ _.
            and_then-holds (IsOldOrNew fs) (write_file temp_path source plan prepared fs1)
              (λ _. replace) (inl (b ∙ a))
              (λ _ done.
                replace-IsOldOrNew fs (write_file temp_path source plan prepared fs1).0 (b ∙ a)
                  (write_file-ok temp_path source plan prepared rows exact fs1 done)))

    pub publish-ok :
        (fs : Files) {r : PlePackWriteReport}
        → (publish path temp_path source plan prepared fs).1 ≡ ok r
        → (r ≡ report_of prepared)
          × (find_file path (publish path temp_path source plan prepared fs).0.contents
              ≡ some (sidecar_of rows plan prepared))
          × (find_file temp_path (publish path temp_path source plan prepared fs).0.contents ≡ none)
    unfolding publish
    publish-ok fs h =
        let fs1 = (create_dir_all path.parent fs).0 in
        let fs2 = (write_file temp_path source plan prepared fs1).0 in
        let fs3 = (rename temp_path path fs2).0 in
        let (_, r1, h1, e1) = and_then-eq-ok (create_dir_all path.parent fs) (λ _. write) h in
        let (_, r2, h2, e2) =
          and_then-eq-ok (write_file temp_path source plan prepared fs1) (λ _. replace) h1 in
        let (_, r3, h3, e3) = and_then-eq-ok (rename temp_path path fs2) (λ _. sync) h2 in
        let (_, r4, h4, e4) = and_then-eq-ok (sync_parent_directory path fs3) (λ _. report) h3 in
        let e = e1 ∙ e2 ∙ e3 in
        (
          sym (ok-injective h4),
          ap (λ o. find_file path o.0.contents) e
              ∙ sync-Stays path fs3
              ∙ rename-ok temp_path path fs2 r3
              ∙ ap some (write_file-ok temp_path source plan prepared rows exact fs1 r2),
          ap (λ o. find_file temp_path o.0.contents) e
              ∙ sync-Stays temp_path fs3
              ∙ rename-gone temp_path path fs2 (same_path_sym path temp_path other) r3,
        )

-- Of a directory without a name there is nothing to open.
open_directory-bare :
    (directory : Text) → directory ≡ [] → (fs : Files) → (open_directory directory fs).1 ≢ ok tt
unfolding open_directory
open_directory-bare [] e fs = λ h. cc
open_directory-bare (c ∷ directory) e fs = λ h. cc

pub publish-bare :
    (path temp_path : FilePath) (source : ExactPleRowSource) (plan : LayoutPlan)
    (prepared : Prepared)
    → same_path path temp_path ≡ false
    → path.parent ≡ []
    → (fs : Files) (r : PlePackWriteReport)
    → (publish path temp_path source plan prepared fs).1 ≢ ok r
unfolding publish sync_parent_directory
publish-bare path temp_path source plan prepared other bare fs r = λ h.
    let fs1 = (create_dir_all path.parent fs).0 in
    let fs2 = (write_file temp_path source plan prepared fs1).0 in
    let fs3 = (rename temp_path path fs2).0 in
    let (_, _, h1, _) =
      and_then-eq-ok (create_dir_all path.parent fs)
        (λ _. write path temp_path other source plan prepared) h in
    let (_, _, h2, _) =
      and_then-eq-ok (write_file temp_path source plan prepared fs1)
        (λ _. replace path temp_path other source plan prepared) h1 in
    let (_, _, h3, _) =
      and_then-eq-ok (rename temp_path path fs2)
        (λ _. sync path temp_path other source plan prepared) h2 in
    let (_, h4, _, _) =
      and_then-eq-ok (sync_parent_directory path fs3)
        (λ _. report path temp_path other source plan prepared) h3 in
    let (_, h5, _, _) = and_then-eq-ok (open_directory path.parent fs3) (λ _. touch) h4 in
    open_directory-bare path.parent bare fs3 h5
