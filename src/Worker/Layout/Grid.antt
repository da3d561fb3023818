-- ===== src/Worker/Layout/Grid.antt =====
-- The squares of the grid.
use vks.Common.{
  ℕ, zero, suc, ◌+◌, ◌-◌, ◌*◌, ◌/◌, ◌%◌, ◌≤◌, ◌<◌, ◌≡◌, ◌≢◌, ap, List, [], ◌∷◌, some, arith, length,
  get_elem?,
}
use native.Mathlib.Nat.{div-add-mod, mod-lt}
use vks.Common.GoString.{GoString}
use vks.Common.Int.{pos}
use vks.Common.Float.{Float64}
use vks.Worker.Layout.{Spec, grid_cell, grid_cols, grid_rows, grid_from, grid}

-- IEEE 754 rounds correctly, so that on small integers the root and the quotient do not cross an
-- integer: rounding them up gives the exact ceilings.
pub record HasExactCeilings {F : Type 0} (fl : Float64 F) (limit : ℕ) : Type 0 where
  pub ceil_sqrt :
      (n : ℕ)
      → 0 < n
      → n ≤ limit
      → (c : ℕ) × (fl.to_int (fl.ceil (fl.sqrt (fl.of_int (pos n)))) ≡ pos c)
        × (n ≤ c * c)
        × ((c - 1) * (c - 1) < n)
  pub ceil_div :
      (a b : ℕ)
      → 0 < a
      → a ≤ limit
      → 0 < b
      → (r : ℕ) × (fl.to_int (fl.ceil (fl.div (fl.of_int (pos a)) (fl.of_int (pos b)))) ≡ pos r)
        × (a ≤ r * b)
        × ((r - 1) * b < a)

module _ {F : Type 0} (fl : Float64 F) where
  grid_cols_lem :
      (limit n : ℕ)
      → HasExactCeilings fl limit
      → 0 < n
      → n ≤ limit
      → (n ≤ grid_cols fl n * grid_cols fl n) × ((grid_cols fl n - 1) * (grid_cols fl n - 1) < n)
  unfolding grid_cols
  grid_cols_lem limit n ex h k =
      let (c, e, above, below) = ex.ceil_sqrt n h k in rw (e) (above, below)

  grid_rows_lem :
      (limit n : ℕ)
      → HasExactCeilings fl limit
      → 0 < n
      → n ≤ limit
      → 0 < grid_cols fl n
      → (n ≤ grid_rows fl n * grid_cols fl n) × ((grid_rows fl n - 1) * grid_cols fl n < n)
  unfolding grid_rows
  grid_rows_lem limit n ex h k pos_cols =
      let (r, e, above, below) = ex.ceil_div n (grid_cols fl n) h k pos_cols in
      rw (e) (above, below)

  get_elem?-grid_from :
      (cols : ℕ) (w h : F) (i j m : ℕ) (p : GoString) (ps : List GoString)
      → i + j ≡ m
      → get_elem? ps j ≡ some p
      → get_elem? (grid_from fl cols w h i ps) j ≡ some (grid_cell fl w h (m % cols) (m / cols) p)
  unfolding grid_from
  get_elem?-grid_from cols w h i j m p [] e k = cc
  get_elem?-grid_from cols w h i zero m p (q ∷ ps) e k =
      let e' : i ≡ m = omega arith in rw (e') (cc)
  get_elem?-grid_from cols w h i (suc j) m p (q ∷ ps) e k =
      get_elem?-grid_from cols w h (suc i) j m p ps (omega arith) k

cols_pos : (n c : ℕ) → 0 < n → n ≤ c * c → 0 < c
cols_pos n zero h k = absurd (omega arith)
cols_pos n (suc c) h k = omega arith

div_lt : (i n r c : ℕ) → 0 < c → i < n → n ≤ r * c → i / c < r
div_lt i n r c h k e = grind (arith, div-add-mod i c)

same_square : (i j c : ℕ) → i % c ≡ j % c → i / c ≡ j / c → i ≡ j
same_square i j c e e' = omega (arith, div-add-mod i c, div-add-mod j c, ap (λ (q : ℕ). c * q) e')

module _ {F : Type 0} (fl : Float64 F) where
  -- The participant with number `i` of `n` is drawn in column i % cols and row i / cols, and the row and
  -- the column exist: no cell leaves the grid.
  pub grid_in_range :
      (limit : ℕ) (spec : Spec F) (ps : List GoString) (i : ℕ) (p : GoString)
      → HasExactCeilings fl limit
      → length ps ≤ limit
      → i < length ps
      → get_elem? ps i ≡ some p
      → let cols = grid_cols fl (length ps) in
        let rows = grid_rows fl (length ps) in
        let w = fl.div (fl.of_int spec.width) (fl.of_int (pos cols)) in
        let h = fl.div (fl.of_int spec.height) (fl.of_int (pos rows)) in
        (get_elem? (grid fl spec ps) i ≡ some (grid_cell fl w h (i % cols) (i / cols) p))
        × (i % cols < cols)
        × (i / cols < rows)
  unfolding grid
  grid_in_range limit spec ps i p ex k within e =
      let (above, _) = grid_cols_lem fl limit (length ps) ex (omega arith) k in
      let cp = cols_pos (length ps) (grid_cols fl (length ps)) (omega arith) above in
      let (rows_above, _) = grid_rows_lem fl limit (length ps) ex (omega arith) k cp in
      (
        get_elem?-grid_from fl _ _ _ 0 i i p ps (omega arith) e,
        mod-lt i cp,
        div_lt i (length ps) _ _ cp within rows_above,
      )

  -- Two participants never share a square.
  pub grid_squares_distinct :
      (n i j : ℕ)
      → i ≢ j
      → ¬ ((i % grid_cols fl n ≡ j % grid_cols fl n) × (i / grid_cols fl n ≡ j / grid_cols fl n))
  grid_squares_distinct n i j ne (e, e') = ne (same_square i j (grid_cols fl n) e e')

  -- The grid is as small as it can be: the square with one column less is too small for the
  -- participants, and no row is empty.
  pub grid_tight :
      (limit n : ℕ)
      → HasExactCeilings fl limit
      → 0 < n
      → n ≤ limit
      → (n ≤ grid_rows fl n * grid_cols fl n)
        × ((grid_cols fl n - 1) * (grid_cols fl n - 1) < n)
        × ((grid_rows fl n - 1) * grid_cols fl n < n)
  grid_tight limit n ex h k =
      let (above, below) = grid_cols_lem fl limit n ex h k in
      let (rows_above, rows_below) =
        grid_rows_lem fl limit n ex h k (cols_pos n (grid_cols fl n) h above) in
      (rows_above, below, rows_below)
