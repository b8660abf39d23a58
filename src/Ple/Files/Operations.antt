-- ===== src/Ple/Files/Operations.antt =====
-- What each operation does to the file at a path: to the files it does not name, and to its own where
-- it succeeds.
use gb10x.Prelude.{◌⊎◌, inl, inr, ℕ, ◌≡◌, ◌∙◌, refl, ap, false, Option, none, some, [], ◌∷◌, ok}
use gb10x.Prelude.Texts.{Text}
use gb10x.Ple.Bytes.{Bytes}
use gb10x.Ple.Files.{
  FilePath, Files, operate, keep, fail_clean, create_over, resized, resize, write_to, write_part,
  move, erase, same_path, find_file, erase_file, or_empty, bytes_at, set_bytes, overwrite, touch,
  create_dir_all, open_directory, create_new, set_len, write_all, rename, remove_file,
}
use gb10x.Ple.Files.Paths.{
  find_file-erase_file, find_file-erase_other, find_file-put_file, find_file-put_other,
}
use gb10x.Ple.Files.Steps.{
  Stays, >>=-Stays, and_then-eq-ok, operate-Stays, operate-ok, fault_taken, operate-cases,
}

pub touch-Stays : (q : FilePath) → Stays q touch
unfolding touch
touch-Stays q = operate-Stays keep fail_clean q (λ fs. refl) (λ fault fs. refl)

pub create_dir_all-Stays : (q : FilePath) (directory : Text) → Stays q (create_dir_all directory)
unfolding create_dir_all
create_dir_all-Stays q [] fs = refl
create_dir_all-Stays q (c ∷ directory) fs = touch-Stays q fs

pub open_directory-Stays : (q : FilePath) (directory : Text) → Stays q (open_directory directory)
unfolding open_directory
open_directory-Stays q [] fs = refl
open_directory-Stays q (c ∷ directory) fs = touch-Stays q fs

module _ (q path : FilePath) (other : same_path q path ≡ false) where
  set_bytes-other :
      (bytes : Bytes) (fs : Files)
      → find_file q (set_bytes path bytes fs).contents ≡ find_file q fs.contents
  set_bytes-other bytes fs = find_file-put_other q path bytes fs.contents other

  pub create_new-Stays : Stays q (create_new path)
  unfolding create_new
  create_new-Stays fs = over (find_file path fs.contents) fs
    where
      over : (held : Option Bytes) → Stays q (create_over path held)
      over none =
          operate-Stays (set_bytes path []) fail_clean q (set_bytes-other []) (λ fault gs. refl)
      over (some bytes) = λ gs. refl

  pub set_len-Stays : (size : ℕ) → Stays q (set_len path size)
  unfolding set_len
  set_len-Stays size =
      operate-Stays (resize path size) fail_clean q (λ fs. set_bytes-other _ fs) (λ fault fs. refl)

  pub write_all-Stays : (position : ℕ) (src : Bytes) → Stays q (write_all path position src)
  unfolding write_all
  write_all-Stays position src =
      let write = operate (write_to path position src) (write_part path position src) in
      >>=-Stays q touch (λ _. write) (touch-Stays q)
        (λ _.
          operate-Stays (write_to path position src) (write_part path position src) q
            (λ fs. set_bytes-other _ fs) (λ fault fs. set_bytes-other _ fs))

  pub remove_file-Stays : Stays q (remove_file path)
  unfolding remove_file
  remove_file-Stays =
      operate-Stays (erase path) fail_clean q (λ fs. find_file-erase_other q path fs.contents other)
        (λ fault fs. refl)

  pub rename-Stays : (to : FilePath) → same_path q to ≡ false → Stays q (rename path to)
  unfolding rename
  rename-Stays to h =
      operate-Stays (move path to) fail_clean q
        (λ fs.
          find_file-put_other q to _ (erase_file path fs.contents) h
          ∙ find_file-erase_other q path fs.contents other)
        (λ fault fs. refl)

module _ (path : FilePath) where
  bytes_at-set_bytes :
      (bytes : Bytes) (fs : Files) → bytes_at path (set_bytes path bytes fs) ≡ bytes
  bytes_at-set_bytes bytes fs = ap or_empty (find_file-put_file path bytes fs.contents)

  pub create_new-ok :
      (fs : Files) → (create_new path fs).1 ≡ ok tt → bytes_at path (create_new path fs).0 ≡ []
  unfolding create_new
  create_new-ok fs h = over (find_file path fs.contents) h
    where
      over :
          (held : Option Bytes)
          → (create_over path held fs).1 ≡ ok tt
          → bytes_at path (create_over path held fs).0 ≡ []
      over none h' =
          ap (bytes_at path) (operate-ok (set_bytes path []) fail_clean fs h')
          ∙ bytes_at-set_bytes [] (fault_taken fs)
      over (some bytes) h' = cc

  pub set_len-ok :
      (size : ℕ) (fs : Files)
      → (set_len path size fs).1 ≡ ok tt
      → bytes_at path (set_len path size fs).0 ≡ resized size (bytes_at path fs)
  unfolding set_len
  set_len-ok size fs h =
      ap (bytes_at path) (operate-ok (resize path size) fail_clean fs h)
      ∙ bytes_at-set_bytes _ (fault_taken fs)

  pub write_all-ok :
      (position : ℕ) (src : Bytes) (fs : Files)
      → (write_all path position src fs).1 ≡ ok tt
      → bytes_at path (write_all path position src fs).0 ≡ overwrite (bytes_at path fs) position src
  unfolding write_all
  write_all-ok position src fs h =
      let write = operate (write_to path position src) (write_part path position src) in
      let (u, _, h', e) = and_then-eq-ok (touch fs) (λ _. write) h in
      ap (λ o. bytes_at path o.0) e
      ∙ ap (bytes_at path)
          (operate-ok (write_to path position src) (write_part path position src) (touch fs).0 h')
      ∙ bytes_at-set_bytes _ (fault_taken (touch fs).0)
      ∙ ap (λ old. overwrite (or_empty old) position src) (touch-Stays path fs)

module _ (from to : FilePath) where
  -- A rename that succeeds leaves the bytes at the new name alone.
  pub rename-ok :
      (fs : Files)
      → (rename from to fs).1 ≡ ok tt
      → find_file to (rename from to fs).0.contents ≡ some (bytes_at from fs)
  unfolding rename
  rename-ok fs h =
      ap (λ (gs : Files). find_file to gs.contents) (operate-ok (move from to) fail_clean fs h)
      ∙ find_file-put_file to (bytes_at from fs) (erase_file from fs.contents)

  -- A rename that fails leaves what the names held.
  pub rename-cases :
      (q : FilePath) (fs : Files)
      → ((rename from to fs).1 ≡ ok tt)
        ⊎ (find_file q (rename from to fs).0.contents ≡ find_file q fs.contents)
  unfolding rename
  rename-cases q fs = elim (operate-cases (move from to) fail_clean fs) [
    | inl done ↦ inl (ap (λ o. o.1) done)
    | inr (fault, done) ↦ inr (ap (λ o. find_file q o.0.contents) done)
  ]

  pub rename-gone :
      (fs : Files)
      → same_path from to ≡ false
      → (rename from to fs).1 ≡ ok tt
      → find_file from (rename from to fs).0.contents ≡ none
  unfolding rename
  rename-gone fs other h =
      ap (λ (gs : Files). find_file from gs.contents) (operate-ok (move from to) fail_clean fs h)
      ∙ find_file-put_other from to _ (erase_file from fs.contents) other
      ∙ find_file-erase_file from fs.contents
