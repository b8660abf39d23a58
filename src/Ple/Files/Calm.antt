-- ===== src/Ple/Files/Calm.antt =====
-- Without faults, every operation succeeds; `create_new` wants a free path, and a directory a name.
use gb10x.Prelude.{
  err, panic, ok-injective, subst, ℕ, ◌≡◌, ◌∙◌, refl, sym, ap, Option, none, [], ◌∷◌, ok,
}
use gb10x.Prelude.Texts.{Text, IsNonempty}
use gb10x.Ple.Bytes.{Bytes}
use gb10x.Ple.Disk.{IoOutcome}
use gb10x.Ple.Files.{
  FilePath, Fault, Files, Step, and_then, ◌>>=◌, find_file, next_fault, operate, keep, fail_clean,
  set_bytes, resize, write_to, write_part, move, create_over, touch, create_dir_all, open_directory,
  create_new, set_len, write_all, rename,
}

abbrev pub IsCalm : Files → Type 0
IsCalm fs = fs.faults ≡ []

-- The step succeeds on these files, and leaves no fault behind.
abbrev pub SucceedsOn : Step (Unit {0}) → Files → Type 0
SucceedsOn step fs = ((step fs).1 ≡ ok tt) × IsCalm (step fs).0

abbrev pub Succeeds : Step (Unit {0}) → Type 0
Succeeds step = (fs : Files) → IsCalm fs → SucceedsOn step fs

pub and_then-ok :
    {A B : Type 0} (o : Files × IoOutcome A) (rest : A → Step B) {a : A}
    → o.1 ≡ ok a
    → and_then o rest ≡ rest a o.0
and_then-ok (fs, ok b) rest h = ap (λ c. rest c fs) (ok-injective h)
and_then-ok (fs, err e) rest h = cc
and_then-ok (fs, panic) rest h = cc

-- A sequence succeeds where its first step does, and the others do on what that leaves.
pub >>=-SucceedsOn :
    (step : Step (Unit {0})) (rest : Step (Unit {0})) (fs : Files)
    → SucceedsOn step fs
    → (IsCalm (step fs).0 → SucceedsOn rest (step fs).0)
    → SucceedsOn (step >>= λ _. rest) fs
>>=-SucceedsOn step rest fs (done, calm) h =
    let e = and_then-ok (step fs) (λ _. rest) done in
    let (done', calm') = h calm in (ap (λ o. o.1) e ∙ done', ap (λ o. o.0.faults) e ∙ calm')

operate-Succeeds :
    (effect : Files → Files) (failing : Fault → Files → Files)
    → ((fs : Files) → (effect fs).faults ≡ fs.faults)
    → Succeeds (operate effect failing)
unfolding next_fault
operate-Succeeds effect failing h fs calm = rw calm (refl, h (record fs { faults = [] }))

pub touch-Succeeds : Succeeds touch
unfolding touch
touch-Succeeds = operate-Succeeds keep fail_clean (λ fs. refl)

pub create_dir_all-Succeeds : (directory : Text) → Succeeds (create_dir_all directory)
unfolding create_dir_all
create_dir_all-Succeeds [] = λ fs calm. (refl, calm)
create_dir_all-Succeeds (c ∷ directory) = touch-Succeeds

pub open_directory-Succeeds :
    (directory : Text) → IsNonempty directory → Succeeds (open_directory directory)
unfolding open_directory
open_directory-Succeeds [] named = elim named [ ]
open_directory-Succeeds (c ∷ directory) named = touch-Succeeds

module _ (path : FilePath) where
  pub create_new-SucceedsOn :
      (fs : Files) → IsCalm fs → find_file path fs.contents ≡ none → SucceedsOn (create_new path) fs
  unfolding create_new
  create_new-SucceedsOn fs calm free =
      subst (λ (held : Option Bytes). SucceedsOn (create_over path held) fs) (sym free)
        (operate-Succeeds (set_bytes path []) fail_clean (λ gs. refl) fs calm)

  pub set_len-Succeeds : (size : ℕ) → Succeeds (set_len path size)
  unfolding set_len
  set_len-Succeeds size = operate-Succeeds (resize path size) fail_clean (λ fs. refl)

  pub write_all-Succeeds : (position : ℕ) (src : Bytes) → Succeeds (write_all path position src)
  unfolding write_all
  write_all-Succeeds position src fs calm =
      let write = operate (write_to path position src) (write_part path position src) in
      >>=-SucceedsOn touch write fs (touch-Succeeds fs calm) (
        operate-Succeeds (write_to path position src) (write_part path position src) (λ gs. refl)
          (touch fs).0)

  pub rename-Succeeds : (to : FilePath) → Succeeds (rename path to)
  unfolding rename
  rename-Succeeds to = operate-Succeeds (move path to) fail_clean (λ fs. refl)
