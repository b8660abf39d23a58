-- ===== src/Ple/Layout/Placements.antt =====
-- The placement loop: no check of it fails, no row crosses a block, and no two rows overlap.
use gb10x.Prelude.{
  ℕ, zero, suc, ◌+◌, ◌*◌, ◌/◌, ◌%◌, ◌≤◌, ◌<◌, ◌≡◌, refl, List, [], ◌∷◌, map, ok, get_elem?, some,
  arith, u32_mod, ap, Bool-cases, false, ltb, ltb→lt, inl, inr,
}
use native.Mathlib.Nat.{div-add-mod}
use gb10x.Ple.Layout.{HotOverlayPlacement, place, place_all}

-- Where the row of an ordinal goes.
abbrev pub placed : ℕ → ℕ → ℕ → ℕ → HotOverlayPlacement
placed rows_per_block row_bytes ordinal row = record {
  logical_row = row;
  block_id = ordinal / rows_per_block;
  offset_in_block = ordinal % rows_per_block * row_bytes;
}

pub placed_all : ℕ → ℕ → ℕ → List ℕ → List HotOverlayPlacement
placed_all rows_per_block row_bytes ordinal [] = []
placed_all rows_per_block row_bytes ordinal (row ∷ rows) =
    placed rows_per_block row_bytes ordinal row
    ∷ placed_all rows_per_block row_bytes (suc ordinal) rows

module _ (rows_per_block row_bytes : ℕ) (some_rows : 0 < rows_per_block)
    (fits : rows_per_block * row_bytes < u32_mod) where
  slot_fits :
      (ordinal : ℕ) → ordinal % rows_per_block * row_bytes + row_bytes ≤ rows_per_block * row_bytes
  slot_fits ordinal = grind arith

  place-placed :
      (ordinal row : ℕ)
      → 0 < row_bytes
      → place rows_per_block row_bytes ordinal row
        ≡ ok (placed rows_per_block row_bytes ordinal row)
  unfolding place
  place-placed ordinal row h = ground (arith, slot_fits ordinal)

  pub place_all-placed :
      (ordinal : ℕ) (rows : List ℕ)
      → 0 < row_bytes
      → place_all rows_per_block row_bytes ordinal rows
        ≡ ok (placed_all rows_per_block row_bytes ordinal rows)
  unfolding place_all placed_all
  place_all-placed ordinal [] h = refl
  place_all-placed ordinal (row ∷ rows) h =
      let e : ordinal + 1 ≡ suc ordinal = omega arith in
      rw (place-placed ordinal row h, e, place_all-placed (suc ordinal) rows h) refl

pub get_elem?-placed_all :
    (rows_per_block row_bytes ordinal : ℕ) (rows : List ℕ) (i : ℕ) {p : HotOverlayPlacement}
    → get_elem? (placed_all rows_per_block row_bytes ordinal rows) i ≡ some p
    → (row : ℕ) × (get_elem? rows i ≡ some row)
      × (p ≡ placed rows_per_block row_bytes (ordinal + i) row)
unfolding placed_all
get_elem?-placed_all r b k [] i e = cc
get_elem?-placed_all r b k (row ∷ rows) zero {p} e =
    let e0 : k + 0 ≡ k = omega arith in (row, refl, rw e0 (ground arith))
get_elem?-placed_all r b k (row ∷ rows) (suc i) e =
    let e0 : k + suc i ≡ suc k + i = omega arith in
    rw e0 (get_elem?-placed_all r b (suc k) rows i e)

pub logical_rows-placed_all :
    (rows_per_block row_bytes ordinal : ℕ) (rows : List ℕ)
    → map (λ p. p.logical_row) (placed_all rows_per_block row_bytes ordinal rows) ≡ rows
unfolding placed_all
logical_rows-placed_all r b k [] = refl
logical_rows-placed_all r b k (row ∷ rows) = ap (◌∷◌ row) (logical_rows-placed_all r b (suc k) rows)

-- The first byte of a placement in the overlay.
abbrev pub address : ℕ → HotOverlayPlacement → ℕ
address block_bytes p = p.block_id * block_bytes + p.offset_in_block

module _ (r b block : ℕ) (some_rows : 0 < r) (holds : r * b ≤ block) where
  pub placed_inside : (i row : ℕ) → (placed r b i row).offset_in_block + b ≤ block
  placed_inside i row = grind arith

  same_block :
      (i j : ℕ) → i / r ≡ j / r → i < j → i / r * block + i % r * b + b ≤ j / r * block + j % r * b
  same_block i j e h =
      let lt : i % r + 1 ≤ j % r =
        omega (arith, div-add-mod i r, div-add-mod j r, ap (λ (t : ℕ). r * t) e) in
      let step : (i % r + 1) * b ≤ j % r * b = grind arith in rw e (omega arith)

  later_block :
      (i j : ℕ) → i / r < j / r → i / r * block + i % r * b + b ≤ j / r * block + j % r * b
  later_block i j h =
      let inside : i % r * b + b ≤ block = grind arith in
      let step : (i / r + 1) * block ≤ j / r * block = grind arith in omega arith

  pub placed_apart :
      (i j row other : ℕ)
      → i < j
      → address block (placed r b i row) + b ≤ address block (placed r b j other)
  placed_apart i j row other h = elim (Bool-cases (ltb (i / r) (j / r))) [
    | inl later ↦ omega (arith, later_block i j (ltb→lt _ _ later))
    | inr same ↦ omega (arith, same_block i j (omega (arith, monotone, not_later same)) h)
  ]
    where
      not_later : ltb (i / r) (j / r) ≡ false → j / r ≤ i / r
      not_later e = ground arith

      monotone : i / r ≤ j / r
      monotone = grind arith
