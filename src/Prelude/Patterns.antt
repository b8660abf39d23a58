-- ===== src/Prelude/Patterns.antt =====
-- Search for a pattern in a text.
use mathlib.Core.Path.{◌≡◌, refl, sym, subst, ap}
use mathlib.Core.Logic.{◌↔◌, inl, inr}
use mathlib.Core.Bool.{Bool, true, false, ◌&&◌, ◌||◌}
use mathlib.Core.List.{[], ◌∷◌, ◌++◌}
use native.Mathlib.Omega.{arith}
use gb10x.Prelude.Tests.{◌==◌, ==_iff, Bool-cases}
use gb10x.Prelude.Texts.{Text, and-true_iff}

unfoldable pub starts_with : Text → Text → Bool
starts_with text [] = true
starts_with [] (p ∷ pattern') = false
starts_with (c ∷ text) (p ∷ pattern') = (c == p) && starts_with text pattern'

-- `str::contains`
unfoldable pub contains_text : Text → Text → Bool
contains_text [] pattern' = starts_with [] pattern'
contains_text (c ∷ text) pattern' = starts_with (c ∷ text) pattern' || contains_text text pattern'

-- The pattern stands at the start, or somewhere, in the text.
abbrev pub IsPrefix : Text → Text → Type 0
IsPrefix text pattern' = (rest : Text) × (text ≡ pattern' ++ rest)

abbrev pub IsWithin : Text → Text → Type 0
IsWithin text pattern' = (before after : Text) × (text ≡ before ++ (pattern' ++ after))

starts_with-IsPrefix :
    (text pattern' : Text) → starts_with text pattern' ≡ true → IsPrefix text pattern'
unfolding starts_with
starts_with-IsPrefix text [] h = (text, refl)
starts_with-IsPrefix [] (p ∷ pattern') h = cc
starts_with-IsPrefix (c ∷ text) (p ∷ pattern') h =
    let (a, b) = (and-true_iff (c == p) (starts_with text pattern')).0 h in
    let same = (==_iff c p).0 a in
    let (rest, e) = starts_with-IsPrefix text pattern' b in (rest, cc)

prefix_starts : (pattern' rest : Text) → starts_with (pattern' ++ rest) pattern' ≡ true
unfolding starts_with
prefix_starts [] rest = refl
prefix_starts (p ∷ pattern') rest = rw ((==_iff p p).1 refl, prefix_starts pattern' rest) refl

contains_text-IsWithin :
    (text pattern' : Text) → contains_text text pattern' ≡ true → IsWithin text pattern'
unfolding contains_text
contains_text-IsWithin [] pattern' h =
    let (rest, e) = starts_with-IsPrefix [] pattern' h in ([], rest, e)
contains_text-IsWithin (c ∷ text) pattern' h = elim (Bool-cases (starts_with (c ∷ text) pattern')) [
  | inl start ↦ let (rest, e) = starts_with-IsPrefix (c ∷ text) pattern' start in ([], rest, e)
  | inr later ↦
      let (before, after, e) = contains_text-IsWithin text pattern' (ground arith) in
      (c ∷ before, after, ap (λ t. c ∷ t) e)
]

or_true : (b : Bool) → (b || true) ≡ true
or_true true = refl
or_true false = refl

starts_contains :
    (text pattern' : Text) → starts_with text pattern' ≡ true → contains_text text pattern' ≡ true
unfolding contains_text
starts_contains [] pattern' h = h
starts_contains (c ∷ text) pattern' h = rw h refl

within_contains :
    (before pattern' after : Text) → contains_text (before ++ (pattern' ++ after)) pattern' ≡ true
unfolding contains_text
within_contains [] pattern' after =
    starts_contains (pattern' ++ after) pattern' (prefix_starts pattern' after)
within_contains (c ∷ before) pattern' after = rw (within_contains before pattern' after) (or_true _)

pub contains_text_iff :
    (text pattern' : Text) → (contains_text text pattern' ≡ true) ↔ IsWithin text pattern'
contains_text_iff text pattern' = (
  contains_text-IsWithin text pattern',
  λ (before, after, e).
      subst (λ t. contains_text t pattern' ≡ true) (sym e) (within_contains before pattern' after),
)
