-- ===== src/Ple/Bytes.antt =====
-- Byte slices: ranges, writes into a buffer, and little-endian numbers.
use gb10x.Prelude.{
  ℕ, zero, suc, ◌+◌, ◌-◌, ◌*◌, ◌/◌, ◌%◌, ◌^◌, ◌≤◌, ◌<◌, ◌≡◌, refl, ap, Option, none, some, List, [],
  ◌∷◌, ◌++◌, All, ◌&&◌, length, take, drop, arith, leb, if◌then◌else◌,
}
use native.Mathlib.Nat.{pow-suc}

abbrev pub Bytes : Type 0
Bytes = List ℕ

abbrev pub IsByte : ℕ → Type 0
IsByte b = b < 256

-- `n.to_le_bytes()` at a width, and `from_le_bytes`.
unfoldable pub le_bytes : ℕ → ℕ → Bytes
le_bytes zero n = []
le_bytes (suc width) n = n % 256 ∷ le_bytes width (n / 256)

unfoldable pub from_le : Bytes → ℕ
from_le [] = 0
from_le (b ∷ bs) = b + 256 * from_le bs

-- `bytes.get(start..end)`
abbrev pub get_range : Bytes → ℕ → ℕ → Option Bytes
get_range bytes start end =
    if leb start end && leb end (length bytes)
    then some (take (end - start) (drop start bytes))
    else none

-- `bytes[start..start + src.len()].copy_from_slice(src)`, on a range within the buffer.
abbrev pub write_at : Bytes → ℕ × Bytes → Bytes
write_at bytes (start, src) = take start bytes ++ (src ++ drop (start + length src) bytes)

abbrev pub zeros : ℕ → Bytes
zeros zero = []
zeros (suc n) = 0 ∷ zeros n

pub length-le_bytes : (width n : ℕ) → length (le_bytes width n) ≡ width
unfolding le_bytes
length-le_bytes zero n = refl
length-le_bytes (suc width) n = ap suc (length-le_bytes width (n / 256))

pub le_bytes-IsByte : (width n : ℕ) → All IsByte (le_bytes width n)
unfolding le_bytes
le_bytes-IsByte zero n = tt
le_bytes-IsByte (suc width) n = (omega arith, le_bytes-IsByte width (n / 256))

pub from_le-le_bytes : (width n : ℕ) → n < 256 ^ width → from_le (le_bytes width n) ≡ n
unfolding le_bytes from_le
from_le-le_bytes zero n h = omega arith
from_le-le_bytes (suc width) n h = omega (arith, from_le-le_bytes width (n / 256) (omega arith))

pub le_bytes-from_le : (bs : Bytes) → All IsByte bs → le_bytes (length bs) (from_le bs) ≡ bs
unfolding le_bytes from_le
le_bytes-from_le [] h = refl
le_bytes-from_le (b ∷ bs) h =
    let low : (b + 256 * from_le bs) % 256 ≡ b = omega arith in
    let high : (b + 256 * from_le bs) / 256 ≡ from_le bs = omega arith in
    rw (low, high, le_bytes-from_le bs h.1) refl

pub from_le-lt : (bs : Bytes) → All IsByte bs → from_le bs < 256 ^ length bs
unfolding from_le
from_le-lt [] h = omega arith
from_le-lt (b ∷ bs) h = omega (arith, pow-suc 256 (length bs), from_le-lt bs h.1)

module _ {ℓ} {A : Type ℓ} where
  pub take-append_length : (xs ys : List A) → take (length xs) (xs ++ ys) ≡ xs
  take-append_length [] ys = refl
  take-append_length (x ∷ xs) ys = ap (◌∷◌ x) (take-append_length xs ys)

  pub drop-append_length : (xs ys : List A) (n : ℕ) → drop (length xs + n) (xs ++ ys) ≡ drop n ys
  drop-append_length [] ys n = let e : 0 + n ≡ n = omega arith in rw e
  drop-append_length (x ∷ xs) ys n =
      let e : suc (length xs) + n ≡ suc (length xs + n) = omega arith in
      rw e (drop-append_length xs ys n)

  take-nil : (n : ℕ) → take {A = A} n [] ≡ []
  take-nil zero = refl
  take-nil (suc n) = refl

  drop-nil : (n : ℕ) → drop {A = A} n [] ≡ []
  drop-nil zero = refl
  drop-nil (suc n) = refl

  take_join : (m n : ℕ) (xs : List A) → take m xs ++ take n (drop m xs) ≡ take (m + n) xs
  take_join zero n xs = let e : 0 + n ≡ n = omega arith in rw e
  take_join (suc m) n [] = rw (take-nil n, take-nil (suc m + n))
  take_join (suc m) n (x ∷ xs) =
      let e : suc m + n ≡ suc (m + n) = omega arith in rw e (ap (◌∷◌ x) (take_join m n xs))

  pub drop-drop : (m k : ℕ) (xs : List A) → drop m (drop k xs) ≡ drop (k + m) xs
  drop-drop m zero xs = let e : 0 + m ≡ m = omega arith in rw e
  drop-drop m (suc k) [] = rw (drop-nil m, drop-nil (suc k + m))
  drop-drop m (suc k) (x ∷ xs) =
      let e : suc k + m ≡ suc (k + m) = omega arith in rw e (drop-drop m k xs)

  -- Two neighbouring ranges make one.
  pub take-drop_join :
      (m n k : ℕ) (xs : List A)
      → take m (drop k xs) ++ take n (drop (k + m) xs) ≡ take (m + n) (drop k xs)
  take-drop_join m n k xs = rw (← drop-drop m k xs) (take_join m n (drop k xs))

  pub take_all : (n : ℕ) (xs : List A) → length xs ≤ n → take n xs ≡ xs
  take_all zero [] h = refl
  take_all zero (x ∷ xs) h = absurd (omega arith)
  take_all (suc n) [] h = refl
  take_all (suc n) (x ∷ xs) h = ap (◌∷◌ x) (take_all n xs (omega arith))

  -- A range inside a prefix, and inside the first of two lists.
  pub take-drop-take :
      (n o l : ℕ) (xs : List A) → o + n ≤ l → take n (drop o (take l xs)) ≡ take n (drop o xs)
  take-drop-take zero o l xs h = refl
  take-drop-take (suc n) o zero xs h = absurd (omega arith)
  take-drop-take (suc n) zero (suc l) [] h = refl
  take-drop-take (suc n) zero (suc l) (x ∷ xs) h =
      ap (◌∷◌ x) (take-drop-take n zero l xs (omega arith))
  take-drop-take (suc n) (suc o) (suc l) [] h = refl
  take-drop-take (suc n) (suc o) (suc l) (x ∷ xs) h = take-drop-take (suc n) o l xs (omega arith)

  pub take-drop_append :
      (n o : ℕ) (xs ys : List A)
      → o + n ≤ length xs
      → take n (drop o (xs ++ ys)) ≡ take n (drop o xs)
  take-drop_append zero o xs ys h = refl
  take-drop_append (suc n) zero [] ys h = absurd (omega arith)
  take-drop_append (suc n) zero (x ∷ xs) ys h =
      ap (◌∷◌ x) (take-drop_append n zero xs ys (omega arith))
  take-drop_append (suc n) (suc o) [] ys h = absurd (omega arith)
  take-drop_append (suc n) (suc o) (x ∷ xs) ys h = take-drop_append (suc n) o xs ys (omega arith)
