-- ===== src/Prelude/Texts.antt =====
-- Rust's `str` as the list of its Unicode scalar values, and `f64` as its 64 bits.
use Prim.Native.Nat.{ℕ, ◌*◌, ◌-◌, ◌/◌, ◌%◌, ◌^◌, ◌<◌}
use mathlib.Core.Path.{◌≡◌, refl, sym, subst}
use mathlib.Core.Logic.{◌↔◌, ◌⊎◌, inl, inr}
use mathlib.Core.Bool.{Bool, true, false, not, ◌&&◌, ◌||◌}
use mathlib.Core.List.{List, [], ◌∷◌}
use native.Mathlib.Omega.{arith}
use gb10x.Prelude.Tests.{leb, ◌==◌, ==_iff, if◌then◌else◌, Bool-cases}

abbrev pub Text : Type 0
Text = List ℕ

-- `char::is_whitespace`
unfoldable pub is_whitespace : ℕ → Bool
is_whitespace c =
    (leb 0x9 c && leb c 0xd)
    || (c == 0x20)
    || (c == 0x85)
    || (c == 0xa0)
    || (c == 0x1680)
    || (leb 0x2000 c && leb c 0x200a)
    || (c == 0x2028)
    || (c == 0x2029)
    || (c == 0x202f)
    || (c == 0x205f)
    || (c == 0x3000)

unfoldable pub is_empty {ℓ} : {A : Type ℓ} → List A → Bool
is_empty [] = true
is_empty (x ∷ xs) = false

abbrev pub IsNonempty {ℓ} : {A : Type ℓ} → List A → Type 0
IsNonempty [] = ⊥
IsNonempty (x ∷ xs) = Unit

pub is_empty_iff {ℓ} : {A : Type ℓ} (xs : List A) → (is_empty xs ≡ false) ↔ IsNonempty xs
unfolding is_empty
is_empty_iff [] = (λ h. cc, λ h. elim h [ ])
is_empty_iff (x ∷ xs) = (λ _. tt, λ _. refl)

unfoldable pub trim_start : Text → Text
trim_start [] = []
trim_start (c ∷ text) = if is_whitespace c then trim_start text else c ∷ text

unfoldable pub trim_end : Text → Text
trim_end [] = []
trim_end (c ∷ text) =
    let rest = trim_end text in if is_empty rest && is_whitespace c then [] else c ∷ rest

-- `str::trim`
unfoldable pub trim : Text → Text
trim text = trim_end (trim_start text)

-- Some character is not white space.
abbrev pub IsWritten : Text → Type 0
IsWritten [] = ⊥
IsWritten (c ∷ text) = (is_whitespace c ≡ false) ⊎ IsWritten text

-- `f64::is_finite`: the exponent is not all ones.
unfoldable pub is_finite : ℕ → Bool
is_finite bits = not (bits / 2 ^ 52 % 2048 == 2047)

-- `value <= 0.0`: not a NaN, and negative or a zero.
unfoldable pub le_zero : ℕ → Bool
le_zero bits = leb (bits % 2 ^ 63) (2047 * 2 ^ 52) && ((bits / 2 ^ 63 == 1) || (bits % 2 ^ 63 == 0))

IsWritten-trim_end : (text : Text) → IsWritten text → is_empty (trim_end text) ≡ false
unfolding trim_end is_empty
IsWritten-trim_end [] w = elim w [ ]
IsWritten-trim_end (c ∷ text) (inl h) = elim (Bool-cases (is_empty (trim_end text))) [
  | inl e ↦ rw (e, h) refl
  | inr e ↦ rw e refl
]
IsWritten-trim_end (c ∷ text) (inr w) = rw (IsWritten-trim_end text w) refl

end_blank :
    (c : ℕ) (text : Text)
    → is_whitespace c ≡ true
    → is_empty (trim_end text) ≡ true
    → is_empty (trim_end (c ∷ text)) ≡ true
unfolding trim_end is_empty
end_blank c text white none = rw (none, white) refl

trim_end-IsWritten : (text : Text) → is_empty (trim_end text) ≡ false → IsWritten text
unfolding trim_end is_empty
trim_end-IsWritten [] h = cc
trim_end-IsWritten (c ∷ text) h = elim (Bool-cases (is_whitespace c)) [
  | inr black ↦ inl black
  | inl white ↦ elim (Bool-cases (is_empty (trim_end text))) [
    | inr rest ↦ inr (trim_end-IsWritten text rest)
    | inl none ↦ let blank = end_blank c text white none in cc
  ]
]

start_white :
    (c : ℕ) (text : Text) → is_whitespace c ≡ true → trim_start (c ∷ text) ≡ trim_start text
unfolding trim_start
start_white c text h = rw h refl

start_black : (c : ℕ) (text : Text) → is_whitespace c ≡ false → trim_start (c ∷ text) ≡ c ∷ text
unfolding trim_start
start_black c text h = rw h refl

trim_start-IsWritten : (text : Text) → IsWritten (trim_start text) → IsWritten text
unfolding trim_start
trim_start-IsWritten [] w = elim w [ ]
trim_start-IsWritten (c ∷ text) w = elim (Bool-cases (is_whitespace c)) [
  | inl white ↦ inr (trim_start-IsWritten text (subst IsWritten (start_white c text white) w))
  | inr black ↦ inl black
]

IsWritten-trim_start : (text : Text) → IsWritten text → IsWritten (trim_start text)
unfolding trim_start
IsWritten-trim_start [] w = elim w [ ]
IsWritten-trim_start (c ∷ text) w = elim (Bool-cases (is_whitespace c)) [
  | inl white ↦
      subst IsWritten (sym (start_white c text white))
        (IsWritten-trim_start text (elim w [ inl black ↦ cc | inr rest ↦ rest ]))
  | inr black ↦ subst IsWritten (sym (start_black c text black)) w
]

-- A text is not blank when some character of it is not white space.
pub trim_iff : (text : Text) → (is_empty (trim text) ≡ false) ↔ IsWritten text
unfolding trim
trim_iff text = (
  λ h. trim_start-IsWritten text (trim_end-IsWritten (trim_start text) h),
  λ w. IsWritten-trim_end (trim_start text) (IsWritten-trim_start text w),
)

-- A double is finite and above zero when its bits are those of a number between zero and infinity.
pub positive_iff :
    (bits : ℕ)
    → bits < 2 ^ 64
    → ((not (is_finite bits) || le_zero bits) ≡ false) ↔ ((0 < bits) × (bits < 2047 * 2 ^ 52))
unfolding is_finite le_zero
positive_iff bits h = ground arith

unfoldable pub equal_list : Text → Text → Bool
equal_list [] [] = true
equal_list (a ∷ as') (b ∷ bs) = (a == b) && equal_list as' bs
equal_list _ _ = false

-- `to_ascii_uppercase`
unfoldable pub to_ascii_uppercase : Text → Text
to_ascii_uppercase [] = []
to_ascii_uppercase (c ∷ text) =
    (if leb 97 c && leb c 122 then c - 32 else c) ∷ to_ascii_uppercase text

pub and-true_iff : (a b : Bool) → ((a && b) ≡ true) ↔ ((a ≡ true) × (b ≡ true))
and-true_iff a b = ground arith

pub equal_list_iff : (a b : Text) → (equal_list a b ≡ true) ↔ (a ≡ b)
unfolding equal_list
equal_list_iff [] [] = (λ _. refl, λ _. refl)
equal_list_iff [] (b ∷ bs) = (λ h. cc, λ h. cc)
equal_list_iff (a ∷ as') [] = (λ h. cc, λ h. cc)
equal_list_iff (a ∷ as') (b ∷ bs) =
    let (to, from) = and-true_iff (a == b) (equal_list as' bs) in
    let (to', from') = ==_iff a b in
    let (to'', from'') = equal_list_iff as' bs in
    (λ h. let e = to' (to h).0 in let e' = to'' (to h).1 in cc, λ h. from (from' (cc), from'' (cc)))
