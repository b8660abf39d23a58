-- ===== src/Prelude/Results.antt =====
-- Rust's `Result`, with a third case for a panic: an index out of bounds, a remainder by zero, or
-- an unchecked operation on machine integers that overflows. (A release build wraps there; where a
-- theorem says that there is no panic, both builds compute the same.)
use Prim.Native.Nat.{ℕ, ◌+◌, ◌-◌, ◌*◌, ◌/◌, ◌%◌, ◌^◌, ◌<◌, ◌≤◌}
use mathlib.Core.Path.{◌≡◌, refl}
use mathlib.Core.Logic.{◌≢◌}
use mathlib.Core.Bool.{Bool, true, false}
use mathlib.Core.List.{List}
use mathlib.Core.Option.{Option, none, some}
use native.Mathlib.Omega.{arith}
use gb10x.Prelude.Tests.{ltb, ◌==◌, if◌then◌else◌}
use gb10x.Prelude.Lists.{length, get_elem?, get_or, get_elem?_lt}

pub data Result (E A : Type 0) : Type 0 where
  ok : A → Result E A
  err : E → Result E A
  panic : Result E A

-- `let x = step?; rest`
infixl 5 ◌>>=◌ ◌>>◌
abbrev pub ◌>>=◌ : {E A B : Type 0} → Result E A → (A → Result E B) → Result E B
panic >>= rest = panic
err e >>= rest = err e
ok a >>= rest = rest a

abbrev pub ◌>>◌ : {E B : Type 0} → Result E (Unit {0}) → Result E B → Result E B
check >> rest = check >>= λ _. rest

-- `if test { return Err(e); }`
abbrev pub fail_if : {E : Type 0} → Bool → E → Result E (Unit {0})
fail_if true e = err e
fail_if false e = ok tt

-- `Option::ok_or`
abbrev pub ok_or : {E A : Type 0} → Option A → E → Result E A
ok_or none e = err e
ok_or (some a) e = ok a

-- `Result::map_err`
abbrev pub map_err : {E F A : Type 0} → (E → F) → Result E A → Result F A
map_err f (ok a) = ok a
map_err f (err e) = err (f e)
map_err f panic = panic

abbrev or_panic : {E A : Type 0} → Option A → Result E A
or_panic none = panic
or_panic (some a) = ok a

-- `xs[i]`
abbrev pub index : {E A : Type 0} → List A → ℕ → Result E A
index xs i = or_panic (get_elem? xs i)

pub index_lt :
    {E A : Type 0} (xs : List A) (i : ℕ) (d : A)
    → i < length xs
    → index {E = E} xs i ≡ ok (get_or xs i d)
index_lt xs i d h = rw (get_elem?_lt xs i d h)

abbrev pub u32_mod : ℕ
u32_mod = 2 ^ 32

abbrev pub u64_mod : ℕ
u64_mod = 2 ^ 64

-- `u64::checked_add`, `u64::checked_mul`, `u32::try_from(u64)`; a `usize` has 64 bits too.
abbrev pub checked_add : ℕ → ℕ → Option ℕ
checked_add a b = if ltb (a + b) u64_mod then some (a + b) else none

abbrev pub checked_mul : ℕ → ℕ → Option ℕ
checked_mul a b = if ltb (a * b) u64_mod then some (a * b) else none

abbrev pub try_u32 : ℕ → Option ℕ
try_u32 a = if ltb a u32_mod then some a else none

-- Two u32 factors have a u64 product.
pub product-lt : (a b : ℕ) → a < u32_mod → b < u32_mod → a * b < u64_mod
product-lt a b ha hb = let step : a * b ≤ a * (u32_mod - 1) = grind arith in omega arith

-- `a + b`, `a % b` and `a / b` on u64.
abbrev pub plain_add : {E : Type 0} → ℕ → ℕ → Result E ℕ
plain_add a b = or_panic (checked_add a b)

abbrev pub plain_rem : {E : Type 0} → ℕ → ℕ → Result E ℕ
plain_rem a b = if b == 0 then panic else ok (a % b)

abbrev pub plain_div : {E : Type 0} → ℕ → ℕ → Result E ℕ
plain_div a b = if b == 0 then panic else ok (a / b)

-- `u64::wrapping_mul`
abbrev pub wrapping_mul : ℕ → ℕ → ℕ
wrapping_mul a b = a * b % u64_mod

pub ok-injective : {E A : Type 0} {a b : A} → ◌≡◌ {A = Result E A} (ok a) (ok b) → a ≡ b
ok-injective h = cc

-- Where two steps succeed, the first gave what the second went on with.
pub >>=-eq-ok :
    {E A B : Type 0} (step : Result E A) (rest : A → Result E B) {out : B}
    → (step >>= rest) ≡ ok out
    → (mid : A) × (step ≡ ok mid) × (rest mid ≡ ok out)
>>=-eq-ok panic rest done = cc
>>=-eq-ok (err e) rest done = cc
>>=-eq-ok (ok mid) rest done = (mid, refl, done)

-- Two steps, then a value.
pub two_steps :
    {E A B C : Type 0} (m : Result E A) (n : Result E B) (k : A → B → C) {out : C}
    → (m >>= λ a. n >>= λ b. ok (k a b)) ≡ ok out
    → (a : A) × (b : B) × (m ≡ ok a) × (n ≡ ok b) × (k a b ≡ out)
two_steps (ok a) (ok b) k h = (a, b, refl, refl, ok-injective h)
two_steps (ok a) (err e) k h = cc
two_steps (ok a) panic k h = cc
two_steps (err e) n k h = cc
two_steps panic n k h = cc

pub fail_if-eq-ok :
    {E B : Type 0} (test : Bool) (e : E) (m : Result E B) {b : B}
    → (fail_if test e >> m) ≡ ok b
    → (test ≡ false) × (m ≡ ok b)
fail_if-eq-ok true e m h = cc
fail_if-eq-ok false e m h = (refl, h)

pub map_err-eq-ok :
    {E F A : Type 0} (f : E → F) (m : Result E A) {a : A} → map_err f m ≡ ok a → m ≡ ok a
map_err-eq-ok f (ok a) h = ground arith
map_err-eq-ok f (err e) h = cc
map_err-eq-ok f panic h = cc

-- Code has no panic where its steps have none.
pub >>=-ne-panic :
    {E A B : Type 0} (m : Result E A) (f : A → Result E B)
    → m ≢ panic
    → ((a : A) → f a ≢ panic)
    → (m >>= f) ≢ panic
>>=-ne-panic (ok a) f h k = k a
>>=-ne-panic (err e) f h k = λ p. cc
>>=-ne-panic panic f h k = absurd (h refl)

pub fail_if-ne-panic :
    {E B : Type 0} (test : Bool) (e : E) (m : Result E B)
    → m ≢ panic
    → (fail_if test e >> m) ≢ panic
fail_if-ne-panic true e m h = λ p. cc
fail_if-ne-panic false e m h = h

pub map_err-ne-panic :
    {E F A : Type 0} (f : E → F) (m : Result E A) → m ≢ panic → map_err f m ≢ panic
map_err-ne-panic f (ok a) h = λ p. cc
map_err-ne-panic f (err e) h = λ p. cc
map_err-ne-panic f panic h = absurd (h refl)
