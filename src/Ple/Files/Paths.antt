-- ===== src/Ple/Files/Paths.antt =====
-- What the list of files holds at a path after a file is put or erased.
use gb10x.Prelude.{
  ◌≡◌, ◌↔◌, refl, ap, ap₂, subst, true, false, none, some, List, [], ◌∷◌, Bool-cases, inl, inr,
}
use gb10x.Prelude.Texts.{Text, equal_list, equal_list_iff, and-true_iff}
use gb10x.Ple.Bytes.{Bytes}
use gb10x.Ple.Files.{FilePath, same_path, find_file, erase_file, put_file}

pub same_path_iff : (p q : FilePath) → (same_path p q ≡ true) ↔ (p ≡ q)
unfolding same_path
same_path_iff p q =
    let (to, from) =
      and-true_iff (equal_list p.parent q.parent) (equal_list p.file_name q.file_name) in
    let (to', from') = equal_list_iff p.parent q.parent in
    let (to'', from'') = equal_list_iff p.file_name q.file_name in
    (
      λ h.
          ap₂ (λ (a b : Text). record { parent = a; file_name = b }) (to' (to h).0) (to'' (to h).1),
      λ e. from (
        from' (ap (λ (x : FilePath). x.parent) e),
        from'' (ap (λ (x : FilePath). x.file_name) e),
      ),
    )

pub same_path_refl : (p : FilePath) → same_path p p ≡ true
same_path_refl p = (same_path_iff p p).1 refl

-- Another path than a given one is other than every path that is the same as that.
other_than :
    (q path p : FilePath)
    → same_path q path ≡ false
    → same_path path p ≡ true
    → same_path q p ≡ false
other_than q path p h e =
    subst (λ (x : FilePath). same_path q x ≡ false) ((same_path_iff path p).0 e) h

pub find_file-erase_file :
    (path : FilePath) (files : List (FilePath × Bytes))
    → find_file path (erase_file path files) ≡ none
unfolding find_file erase_file
find_file-erase_file path [] = refl
find_file-erase_file path ((p, bytes) ∷ files) = elim (Bool-cases (same_path path p)) [
  | inl same ↦ rw same (find_file-erase_file path files)
  | inr other ↦ rw (other, other) (find_file-erase_file path files)
]

pub find_file-erase_other :
    (q path : FilePath) (files : List (FilePath × Bytes))
    → same_path q path ≡ false
    → find_file q (erase_file path files) ≡ find_file q files
unfolding find_file erase_file
find_file-erase_other q path [] h = refl
find_file-erase_other q path ((p, bytes) ∷ files) h =
    let rest = find_file-erase_other q path files h in
    elim (Bool-cases (same_path path p)) [
      | inl same ↦ rw (same, other_than q path p h same) rest
      | inr other ↦ rw (other) (elim (Bool-cases (same_path q p)) [
        | inl here ↦ rw here refl
        | inr there ↦ rw there rest
      ])
    ]

pub find_file-put_file :
    (path : FilePath) (bytes : Bytes) (files : List (FilePath × Bytes))
    → find_file path (put_file path bytes files) ≡ some bytes
unfolding find_file put_file
find_file-put_file path bytes files = rw (same_path_refl path) refl

pub find_file-put_other :
    (q path : FilePath) (bytes : Bytes) (files : List (FilePath × Bytes))
    → same_path q path ≡ false
    → find_file q (put_file path bytes files) ≡ find_file q files
unfolding find_file put_file
find_file-put_other q path bytes files h = rw h (find_file-erase_other q path files h)
