-- ===== src/Ple/Files/Ranges.antt =====
-- The ranges of a file after a write inside it: the one that is written, and those it does not meet.
use mathlib.Core.List.{append-nil}
use gb10x.Prelude.{
  ℕ, ◌+◌, ◌-◌, ◌≤◌, ◌≡◌, ◌∙◌, refl, ap, ◌++◌, length, length-append, length-take, length-drop, take,
  drop, arith,
}
use gb10x.Ple.Bytes.{
  Bytes, write_at, take-append_length, drop-append_length, drop-drop, take-drop-take,
  take-drop_append,
}
use gb10x.Ple.Disk.Reads.{part}
use gb10x.Ple.Files.{overwrite}

module _ (old src : Bytes) (position : ℕ) (inside : position + length src ≤ length old) where
  overwrite-write_at : overwrite old position src ≡ write_at old (position, src)
  overwrite-write_at =
      let e : position + length src - length old ≡ 0 = omega arith in rw (e, append-nil old) refl

  front_length : length (take position old) ≡ position
  front_length = omega (arith, length-take position old)

  pub length-overwrite : length (overwrite old position src) ≡ length old
  length-overwrite =
      let back = drop (position + length src) old in
      ap length overwrite-write_at
      ∙ omega (
        arith,
        length-append (take position old) (src ++ back),
        length-append src back,
        front_length,
        length-drop (position + length src) old,
      )

  behind_front : (k : ℕ) (ys : Bytes) → drop (position + k) (take position old ++ ys) ≡ drop k ys
  behind_front k ys = rw front_length at (drop-append_length (take position old) ys k)

  pub overwrite-own : part (overwrite old position src) (length src) position ≡ src
  overwrite-own =
      let back = drop (position + length src) old in
      let here : position + 0 ≡ position = omega arith in
      ap (λ (b : Bytes). part b (length src) position) overwrite-write_at
      ∙ ap (take (length src)) (rw here at (behind_front 0 (src ++ back)))
      ∙ take-append_length src back

  pub overwrite-before :
      (width offset : ℕ)
      → offset + width ≤ position
      → part (overwrite old position src) width offset ≡ part old width offset
  overwrite-before width offset h =
      let back = drop (position + length src) old in
      ap (λ (b : Bytes). part b width offset) overwrite-write_at
      ∙ take-drop_append width offset (take position old) (src ++ back)
          (omega (arith, front_length))
      ∙ take-drop-take width offset position old h

  pub overwrite-after :
      (width offset : ℕ)
      → position + length src ≤ offset
      → part (overwrite old position src) width offset ≡ part old width offset
  overwrite-after width offset h =
      let back = drop (position + length src) old in
      let k = offset - (position + length src) in
      let at : position + (length src + k) ≡ offset = omega arith in
      let at' : position + length src + k ≡ offset = omega arith in
      ap (λ (b : Bytes). part b width offset) overwrite-write_at
      ∙ ap (take width) (
          rw at at (behind_front (length src + k) (src ++ back))
          ∙ drop-append_length src back k
          ∙ drop-drop k (position + length src) old
          ∙ ap (λ (n : ℕ). drop n old) at')
