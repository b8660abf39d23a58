-- ===== src/Prelude/Sorted.antt =====
-- Rust's `sort_unstable` and `dedup` on numbers, and membership as a test. What sorts to one list
-- of distinct numbers is the set of its members.
use gb10x.Prelude.{
  ℕ, ◌≤◌, ◌<◌, ◌≡◌, refl, sym, subst, ap₂, ◌∙◌, Bool, false, ◌||◌, List, [], ◌∷◌, All, arith, ltb,
  leb, ◌==◌, Bool-cases, inl, inr, if◌then◌else◌,
}

unfoldable pub contains : ℕ → List ℕ → Bool
contains x [] = false
contains x (y ∷ ys) = (x == y) || contains x ys

unfoldable pub insert_sorted : ℕ → List ℕ → List ℕ
insert_sorted x [] = x ∷ []
insert_sorted x (y ∷ ys) = if leb x y then x ∷ y ∷ ys else y ∷ insert_sorted x ys

-- The sorted arrangement; on numbers it does not matter how it is reached.
unfoldable pub sort_unstable : List ℕ → List ℕ
unfolding insert_sorted
sort_unstable [] = []
sort_unstable (x ∷ xs) = insert_sorted x (sort_unstable xs)

-- Of equal neighbours only the first is kept.
unfoldable pub dedup : List ℕ → List ℕ
dedup [] = []
dedup (x ∷ []) = x ∷ []
dedup (x ∷ y ∷ ys) = let rest = dedup (y ∷ ys) in if x == y then rest else x ∷ rest

abbrev pub SameMembers : List ℕ → List ℕ → Type 0
SameMembers xs ys = (a : ℕ) → contains a xs ≡ contains a ys

abbrev pub IsSorted : List ℕ → Type 0
IsSorted [] = Unit
IsSorted (x ∷ xs) = All (◌≤◌ x) xs × IsSorted xs

abbrev pub IsAscending : List ℕ → Type 0
IsAscending [] = Unit
IsAscending (x ∷ xs) = All (◌<◌ x) xs × IsAscending xs

pub contains-insert_sorted :
    (a x : ℕ) (xs : List ℕ) → contains a (insert_sorted x xs) ≡ ((a == x) || contains a xs)
unfolding contains insert_sorted
contains-insert_sorted a x [] = refl
contains-insert_sorted a x (y ∷ ys) = ground (arith, contains-insert_sorted a x ys)

pub contains-sort_unstable : (xs : List ℕ) → SameMembers (sort_unstable xs) xs
unfolding contains sort_unstable
contains-sort_unstable [] a = refl
contains-sort_unstable (x ∷ xs) a =
    rw (contains-insert_sorted a x (sort_unstable xs), contains-sort_unstable xs a) refl

pub contains-dedup : (xs : List ℕ) → SameMembers (dedup xs) xs
unfolding contains dedup
contains-dedup [] a = refl
contains-dedup (x ∷ []) a = refl
contains-dedup (x ∷ y ∷ ys) a = ground (arith, contains-dedup (y ∷ ys) a)

module _ (P : ℕ → Type 0) where
  All-insert_sorted : (x : ℕ) (xs : List ℕ) → P x → All P xs → All P (insert_sorted x xs)
  unfolding insert_sorted
  All-insert_sorted x [] p h = (p, tt)
  All-insert_sorted x (y ∷ ys) p h = elim (Bool-cases (leb x y)) [
    | inl before ↦ rw before (p, h)
    | inr after ↦ rw after (h.0, All-insert_sorted x ys p h.1)
  ]

  All-dedup : (xs : List ℕ) → All P xs → All P (dedup xs)
  unfolding dedup
  All-dedup [] h = tt
  All-dedup (x ∷ []) h = h
  All-dedup (x ∷ y ∷ ys) h = elim (Bool-cases (x == y)) [
    | inl same ↦ rw same (All-dedup (y ∷ ys) h.1)
    | inr other ↦ rw other (h.0, All-dedup (y ∷ ys) h.1)
  ]

module _ (P : ℕ → Type 0) where
  All-sort_unstable : (xs : List ℕ) → All P xs → All P (sort_unstable xs)
  unfolding sort_unstable
  All-sort_unstable [] h = tt
  All-sort_unstable (x ∷ xs) (p, ps) =
      All-insert_sorted P x (sort_unstable xs) p (All-sort_unstable xs ps)

  pub All-dedup-sort : (xs : List ℕ) → All P xs → All P (dedup (sort_unstable xs))
  All-dedup-sort xs h = All-dedup P (sort_unstable xs) (All-sort_unstable xs h)

All-le : (x y : ℕ) (ys : List ℕ) → x ≤ y → All (◌≤◌ y) ys → All (◌≤◌ x) ys
All-le x y [] h a = tt
All-le x y (z ∷ zs) h a = (omega arith, All-le x y zs h a.1)

All-lt : (x y : ℕ) (ys : List ℕ) → x < y → All (◌≤◌ y) ys → All (◌<◌ x) ys
All-lt x y [] h a = tt
All-lt x y (z ∷ zs) h a = (omega arith, All-lt x y zs h a.1)

insert_sorted-IsSorted : (x : ℕ) (xs : List ℕ) → IsSorted xs → IsSorted (insert_sorted x xs)
unfolding insert_sorted
insert_sorted-IsSorted x [] s = (tt, tt)
insert_sorted-IsSorted x (y ∷ ys) s = elim (Bool-cases (leb x y)) [
  | inl before ↦ rw before ((ground arith, All-le x y ys (ground arith) s.0), s)
  | inr after ↦
      rw after (All-insert_sorted (◌≤◌ y) x ys (ground arith) s.0, insert_sorted-IsSorted x ys s.1)
]

pub sort_unstable-IsSorted : (xs : List ℕ) → IsSorted (sort_unstable xs)
unfolding sort_unstable
sort_unstable-IsSorted [] = tt
sort_unstable-IsSorted (x ∷ xs) =
    insert_sorted-IsSorted x (sort_unstable xs) (sort_unstable-IsSorted xs)

dedup-IsAscending : (xs : List ℕ) → IsSorted xs → IsAscending (dedup xs)
unfolding dedup
dedup-IsAscending [] s = tt
dedup-IsAscending (x ∷ []) s = (tt, tt)
dedup-IsAscending (x ∷ y ∷ ys) s = elim (Bool-cases (x == y)) [
  | inl same ↦ rw same (dedup-IsAscending (y ∷ ys) s.1)
  | inr other ↦ rw other (
    All-lt x y (dedup (y ∷ ys)) (ground arith) (All-dedup (◌≤◌ y) (y ∷ ys) (omega arith, s.1.0)),
    dedup-IsAscending (y ∷ ys) s.1,
  )
]

pub dedup-sort-IsAscending : (xs : List ℕ) → IsAscending (dedup (sort_unstable xs))
dedup-sort-IsAscending xs = dedup-IsAscending (sort_unstable xs) (sort_unstable-IsSorted xs)

pub contains-dedup-sort : (xs : List ℕ) → SameMembers (dedup (sort_unstable xs)) xs
contains-dedup-sort xs a = contains-dedup (sort_unstable xs) a ∙ contains-sort_unstable xs a

All-trans : (x y : ℕ) (ys : List ℕ) → x < y → All (◌<◌ y) ys → All (◌<◌ x) ys
All-trans x y [] h a = tt
All-trans x y (z ∷ zs) h a = (omega arith, All-trans x y zs h a.1)

not_contains_below : (x : ℕ) (xs : List ℕ) → All (◌<◌ x) xs → contains x xs ≡ false
unfolding contains
not_contains_below x [] h = refl
not_contains_below x (y ∷ ys) h = ground (arith, not_contains_below x ys h.1)

-- The heads of two ascending lists with the same members agree.
heads_eq :
    (x y : ℕ) (xs ys : List ℕ)
    → All (◌<◌ x) xs
    → All (◌<◌ y) ys
    → SameMembers (x ∷ xs) (y ∷ ys)
    → x ≡ y
heads_eq x y xs ys hx hy same = elim (Bool-cases (ltb x y)) [
  | inl below ↦ absurd (
      unfold contains in
      ground (arith, same x, not_contains_below x ys (All-trans x y ys (ground arith) hy)))
  | inr above ↦ elim (Bool-cases (ltb y x)) [
    | inl below ↦ absurd (
        unfold contains in
        ground (arith, same y, not_contains_below y xs (All-trans y x xs (ground arith) hx)))
    | inr equal ↦ ground arith
  ]
]

tails_SameMembers :
    (x : ℕ) (xs ys : List ℕ)
    → All (◌<◌ x) xs
    → All (◌<◌ x) ys
    → SameMembers (x ∷ xs) (x ∷ ys)
    → SameMembers xs ys
unfolding contains
tails_SameMembers x xs ys hx hy same a = elim (Bool-cases (a == x)) [
  | inl here ↦
      let e : a ≡ x = ground arith in
      rw (e, not_contains_below x xs hx, not_contains_below x ys hy) refl
  | inr away ↦ ground (arith, same a)
]

-- Ascending lists are equal when they have the same members.
pub eq_of_SameMembers :
    (xs ys : List ℕ) → IsAscending xs → IsAscending ys → SameMembers xs ys → xs ≡ ys
eq_of_SameMembers [] [] s t same = refl
eq_of_SameMembers [] (y ∷ ys) s t same = absurd (unfold contains in ground (arith, same y))
eq_of_SameMembers (x ∷ xs) [] s t same = absurd (unfold contains in ground (arith, same x))
eq_of_SameMembers (x ∷ xs) (y ∷ ys) s t same =
    let e : x ≡ y = heads_eq x y xs ys s.0 t.0 same in
    let hy : All (◌<◌ x) ys = rw e t.0 in
    let same' : SameMembers (x ∷ xs) (x ∷ ys) =
      subst (λ b. SameMembers (x ∷ xs) (b ∷ ys)) (sym e) same in
    ap₂ ◌∷◌ e (eq_of_SameMembers xs ys s.1 t.1 (tails_SameMembers x xs ys s.0 hy same'))

-- Sorting and deduplicating forgets the order and the repetitions, and nothing else.
pub dedup-sort-eq :
    (xs ys : List ℕ) → SameMembers xs ys → dedup (sort_unstable xs) ≡ dedup (sort_unstable ys)
dedup-sort-eq xs ys same =
    eq_of_SameMembers (dedup (sort_unstable xs)) (dedup (sort_unstable ys))
      (dedup-sort-IsAscending xs) (dedup-sort-IsAscending ys)
      (λ a. contains-dedup-sort xs a ∙ same a ∙ sym (contains-dedup-sort ys a))

pub All-below : (a b : ℕ) (xs : List ℕ) → a < b → All (◌<◌ b) xs → All (◌<◌ a) xs
All-below a b [] h k = tt
All-below a b (x ∷ xs) h (p, k) = (omega arith, All-below a b xs h k)
