-- ===== src/Prelude/Decides.antt =====
-- A check that decides a property: it passes where the property holds, and reports an error where it
-- does not.
use mathlib.Core.Path.{◌≡◌, refl}
use mathlib.Core.Logic.{◌↔◌, ◌⊎◌, inl, inr}
use Prim.Native.Nat.{ℕ, ◌<◌, ◌≤◌}
use mathlib.Core.Bool.{Bool, true, false, not, ◌||◌}
use native.Mathlib.Omega.{arith}
use gb10x.Prelude.Tests.{ltb, ◌==◌}
use gb10x.Prelude.Results.{Result, ok, err, ◌>>◌, fail_if}

abbrev pub Check : Type 0 → Type 0
Check E = Result E (Unit {0})

-- It gives `a` where `P` holds.
abbrev pub Gives : {E A : Type 0} → Result E A → A → Type 0 → Type 0
Gives {E} m a P = ((m ≡ ok a) × P) ⊎ ((e : E) × (m ≡ err e) × ¬ P)

abbrev pub Decides : {E : Type 0} → Check E → Type 0 → Type 0
Decides check P = Gives check tt P

module _ {E : Type 0} where
  pub >>-Gives :
      {A P Q : Type 0} {m : Check E} {n : Result E A} {a : A}
      → Decides m P
      → Gives n a Q
      → Gives (m >> n) a (P × Q)
  >>-Gives (inl (h, p)) (inl (k, q)) = inl (rw h k, (p, q))
  >>-Gives (inl (h, p)) (inr (e, k, q)) = inr (e, rw h k, λ pq. q pq.1)
  >>-Gives (inr (e, h, p)) _ = inr (e, rw h, λ pq. p pq.0)

  pub >>-Decides :
      {P Q : Type 0} {m n : Check E} → Decides m P → Decides n Q → Decides (m >> n) (P × Q)
  >>-Decides p q = >>-Gives p q

  pub Decides_iff : {P Q : Type 0} {m : Check E} → P ↔ Q → Decides m P → Decides m Q
  Decides_iff e (inl (h, p)) = inl (h, e.0 p)
  Decides_iff e (inr (x, h, p)) = inr (x, h, λ q. p (e.1 q))

  pub fail_if-Decides : (test : Bool) (e : E) → Decides (fail_if test e) (test ≡ false)
  fail_if-Decides true e = inr (e, refl, λ h. cc)
  fail_if-Decides false e = inl (refl, refl)

  pub ok-Gives : {A : Type 0} (a : A) → Gives {E = E} (ok a) a (Unit {0})
  ok-Gives a = inl (refl, tt)

  pub ok-Decides : Decides {E = E} (ok tt) (Unit {0})
  ok-Decides = inl (refl, tt)

pub or-false_iff : (a b : Bool) → ((a || b) ≡ false) ↔ ((a ≡ false) × (b ≡ false))
or-false_iff a b = ground arith

not-false_iff : (b : Bool) → (not b ≡ false) ↔ (b ≡ true)
not-false_iff true = (λ _. refl, λ _. refl)
not-false_iff false = (λ h. cc, λ h. cc)

pub nonzero-Decides : {E : Type 0} (n : ℕ) (e : E) → Decides (fail_if (n == 0) e) (0 < n)
nonzero-Decides n e = Decides_iff (ground arith) (fail_if-Decides (n == 0) e)

pub le-Decides : {E : Type 0} (a b : ℕ) (e : E) → Decides (fail_if (ltb b a) e) (a ≤ b)
le-Decides a b e = Decides_iff (ground arith) (fail_if-Decides (ltb b a) e)

-- `if !test { return Err(e); }`
pub unless-Decides :
    {E P : Type 0} {test : Bool} (e : E) → (test ≡ true) ↔ P → Decides (fail_if (not test) e) P
unless-Decides {test} e (to, from) =
    let (to', from') = not-false_iff test in
    Decides_iff ((λ h. to (to' h)), λ p. from' (from p)) (fail_if-Decides _ _)
