-- ===== src/Ple/Disk/Writes.antt =====
-- A buffer of zeros that is filled from left to right holds the pieces in a row.
use mathlib.Core.List.{foldl, append_assoc, append-nil}
use gb10x.Prelude.{
  ℕ, zero, suc, ◌+◌, ◌-◌, ◌≡◌, refl, ◌∙◌, List, [], ◌∷◌, ◌++◌, length, length-append, drop, arith,
}
use gb10x.Ple.Bytes.{Bytes, write_at, zeros, take-append_length, drop-append_length}

-- Each write begins where the one before it ends.
abbrev pub IsTiled : ℕ → List (ℕ × Bytes) → Type 0
IsTiled n [] = Unit
IsTiled n ((start, src) ∷ ws) = (start ≡ n) × IsTiled (n + length src) ws

abbrev pub payload : List (ℕ × Bytes) → Bytes
payload [] = []
payload ((start, src) ∷ ws) = src ++ payload ws

drop-zeros : (k n : ℕ) → drop k (zeros n) ≡ zeros (n - k)
drop-zeros zero n = let e : n - 0 ≡ n = omega arith in rw e
drop-zeros (suc k) zero = let e : 0 - suc k ≡ 0 = omega arith in rw e
drop-zeros (suc k) (suc n) = let e : suc n - suc k ≡ n - k = omega arith in rw e (drop-zeros k n)

pub length-zeros : (n : ℕ) → length (zeros n) ≡ n
length-zeros zero = refl
length-zeros (suc n) = omega (arith, length-zeros n)

write_at_next :
    (front src : Bytes) (n : ℕ)
    → write_at (front ++ zeros n) (length front, src) ≡ (front ++ src) ++ zeros (n - length src)
write_at_next front src n =
    rw
      (
        take-append_length front (zeros n),
        drop-append_length front (zeros n) (length src),
        drop-zeros (length src) n,
        append_assoc front src (zeros (n - length src)),
      )
      refl

foldl-write_at_from :
    (front : Bytes) (n : ℕ) (ws : List (ℕ × Bytes))
    → IsTiled (length front) ws
    → foldl write_at (front ++ zeros n) ws
      ≡ (front ++ payload ws) ++ zeros (n - length (payload ws))
foldl-write_at_from front n [] t = let e : n - 0 ≡ n = omega arith in rw (append-nil front, e) refl
foldl-write_at_from front n ((start, src) ∷ ws) (here, rest) =
    rw
      (
        here,
        write_at_next front src n,
        foldl-write_at_from (front ++ src) (n - length src) ws (rw (length-append front src) rest),
        append_assoc front src (payload ws),
        length-append src (payload ws),
      )
      (let e : n - length src - length (payload ws) ≡ n - (length src + length (payload ws)) =
          omega arith in
        rw e refl)

-- Writes that tile the whole buffer leave their payloads in a row.
pub foldl-write_at :
    (n : ℕ) (ws : List (ℕ × Bytes))
    → IsTiled 0 ws
    → length (payload ws) ≡ n
    → foldl write_at (zeros n) ws ≡ payload ws
foldl-write_at n ws t h =
    let e : n - length (payload ws) ≡ 0 = omega arith in
    foldl-write_at_from [] n ws t ∙ rw (e, append-nil (payload ws)) refl
