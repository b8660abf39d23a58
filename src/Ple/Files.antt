-- ===== src/Ple/Files.antt =====
-- The file operations that crates/gb10x-ple/src/writer.rs uses: files by their paths, and a list of
-- faults, of which each operation takes the next. An operation without a fault has its effect; one with
-- a fault reports it, and has no effect, but that a write may have written a part. Directories are not
-- kept.
pub mod Paths
pub mod Steps
pub mod Operations
pub mod Ranges
pub mod Calm
use gb10x.Prelude.{
  ℕ, ◌+◌, ◌-◌, Bool, ◌&&◌, Option, none, some, List, [], ◌∷◌, ◌++◌, String, ok, err, panic, length,
  take, if◌then◌else◌,
}
use gb10x.Prelude.Texts.{Text, equal_list}
use gb10x.Ple.Bytes.{Bytes, write_at, zeros}
use gb10x.Ple.Format.{io}
use gb10x.Ple.Disk.{IoOutcome}

-- A path: the text of its parent, which is empty for a bare file name, and a UTF-8 file name. Two
-- paths are the same file when both texts agree; links and other spellings are left out.
pub record FilePath : Type 0 where
  pub parent : Text
  pub file_name : Text

pub record Fault : Type 0 where
  pub message : String
  pub written : ℕ

pub record Files : Type 0 where
  pub contents : List (FilePath × Bytes)
  pub faults : List (Option Fault)

abbrev pub Step : Type 0 → Type 0
Step A = Files → Files × IoOutcome A

abbrev pub and_then : {A B : Type 0} → Files × IoOutcome A → (A → Step B) → Files × IoOutcome B
and_then (fs, ok a) rest = rest a fs
and_then (fs, err e) rest = (fs, err e)
and_then (fs, panic) rest = (fs, panic)

infixl 5 ◌>>=◌ ◌>>◌
abbrev pub ◌>>=◌ : {A B : Type 0} → Step A → (A → Step B) → Step B
(step >>= rest) fs = and_then (step fs) rest

abbrev pub ◌>>◌ : {B : Type 0} → Step (Unit {0}) → Step B → Step B
step >> rest = step >>= λ _. rest

abbrev pub pure : {A : Type 0} → IoOutcome A → Step A
pure result fs = (fs, result)

unfoldable pub same_path : FilePath → FilePath → Bool
same_path p q = equal_list p.parent q.parent && equal_list p.file_name q.file_name

unfoldable pub find_file : FilePath → List (FilePath × Bytes) → Option Bytes
find_file path [] = none
find_file path ((p, bytes) ∷ files) = if same_path path p then some bytes else find_file path files

unfoldable pub erase_file : FilePath → List (FilePath × Bytes) → List (FilePath × Bytes)
erase_file path [] = []
erase_file path ((p, bytes) ∷ files) =
    let rest = erase_file path files in if same_path path p then rest else (p, bytes) ∷ rest

unfoldable pub put_file : FilePath → Bytes → List (FilePath × Bytes) → List (FilePath × Bytes)
put_file path bytes files = (path, bytes) ∷ erase_file path files

abbrev pub or_empty : Option Bytes → Bytes
or_empty none = []
or_empty (some bytes) = bytes

-- The bytes at a path; the files that are written exist.
abbrev pub bytes_at : FilePath → Files → Bytes
bytes_at path fs = or_empty (find_file path fs.contents)

abbrev pub set_bytes : FilePath → Bytes → Files → Files
set_bytes path bytes fs = record fs { contents = put_file path bytes fs.contents }

-- The next fault, and the faults after it.
unfoldable pub next_fault : List (Option Fault) → Option Fault × List (Option Fault)
next_fault [] = (none, [])
next_fault (fault ∷ faults) = (fault, faults)

-- What an operation does where it has no fault, and where it has one.
abbrev pub settle : (Files → Files) → (Fault → Files → Files) → Option Fault → Step (Unit {0})
settle effect failing none fs = (effect fs, ok tt)
settle effect failing (some fault) fs = (failing fault fs, err (io fault.message))

abbrev pub operate : (Files → Files) → (Fault → Files → Files) → Step (Unit {0})
operate effect failing fs =
    let next = next_fault fs.faults in settle effect failing next.0 (record fs { faults = next.1 })

abbrev pub keep : Files → Files
keep fs = fs

abbrev pub fail_clean : Fault → Files → Files
fail_clean fault fs = fs

-- `sync_all`, and `seek`, which has its position later: no effect on names and bytes.
unfoldable pub touch : Step (Unit {0})
touch = operate keep fail_clean

-- `create_dir_all`, which accepts the empty path.
unfoldable pub create_dir_all : Text → Step (Unit {0})
create_dir_all [] = pure (ok tt)
create_dir_all (c ∷ directory) = touch

-- `File::open` of a directory: no directory has the empty path.
unfoldable pub open_directory : Text → Step (Unit {0})
open_directory [] = pure (err (io "No such file or directory"))
open_directory (c ∷ directory) = touch

-- `OpenOptions::new().read(true).write(true).create_new(true).open(path)`, on what the path holds.
abbrev pub create_over : FilePath → Option Bytes → Step (Unit {0})
create_over path (some bytes) = pure (err (io "file exists"))
create_over path none = operate (set_bytes path []) fail_clean

unfoldable pub create_new : FilePath → Step (Unit {0})
create_new path fs = create_over path (find_file path fs.contents) fs

-- The bytes of a file that is cut, or extended by zeros, to a size.
abbrev pub resized : ℕ → Bytes → Bytes
resized size old = take size (old ++ zeros (size - length old))

abbrev pub resize : FilePath → ℕ → Files → Files
resize path size fs = set_bytes path (resized size (bytes_at path fs)) fs

-- `set_len`
unfoldable pub set_len : FilePath → ℕ → Step (Unit {0})
set_len path size = operate (resize path size) fail_clean

-- The bytes of a file after a write at a position, which may lie behind its end.
abbrev pub overwrite : Bytes → ℕ → Bytes → Bytes
overwrite old position src =
    write_at (old ++ zeros (position + length src - length old)) (position, src)

abbrev pub write_to : FilePath → ℕ → Bytes → Files → Files
write_to path position src fs = set_bytes path (overwrite (bytes_at path fs) position src) fs

-- A write that fails may have written a part.
abbrev pub write_part : FilePath → ℕ → Bytes → Fault → Files → Files
write_part path position src fault fs = write_to path position (take fault.written src) fs

-- `seek` and `write_all`
unfoldable pub write_all : FilePath → ℕ → Bytes → Step (Unit {0})
write_all path position src =
    touch >> operate (write_to path position src) (write_part path position src)

abbrev pub move : FilePath → FilePath → Files → Files
move from to fs = record fs {
  contents = put_file to (bytes_at from fs) (erase_file from fs.contents);
}

-- `std::fs::rename`
unfoldable pub rename : FilePath → FilePath → Step (Unit {0})
rename from to = operate (move from to) fail_clean

abbrev pub erase : FilePath → Files → Files
erase path fs = record fs { contents = erase_file path fs.contents }

-- `std::fs::remove_file`
unfoldable pub remove_file : FilePath → Step (Unit {0})
remove_file path = operate (erase path) fail_clean
