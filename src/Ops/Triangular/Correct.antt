-- ===== src/Ops/Triangular/Correct.antt =====
-- The triangular system of `_triangular_solve`, and its solutions.
use nx_tinygrad.Base.{
  ℕ, suc, ◌<◌, ◌≡◌, refl, sym, ◌∙◌, String, Bool, true, false, not, some, List, [], ◌∷◌, All, ◌==◌,
  if◌then◌else◌,
}
use nx_tinygrad.Errors.{ok}
use nx_tinygrad.Ops.Triangular.{
  Rows, Attributes, solving_order, solve_rows, right_hand_side, solve, unwrap, transform,
  triangular_solve,
}
use nx_tinygrad.Ops.Triangular.Solves.{Exact, value, value_found, total, total_cong}
use nx_tinygrad.Ops.Triangular.Stacked.{Stacking, Holds, stack_rows_lem}
use nx_tinygrad.Ops.Triangular.Triangle.{triangle, row_solved, triangle_bounded}

-- A square matrix of `n` rows, and `permute(1, 0)` on it.
pub record IsSquare {M E R : Type 0} (ops : Rows M E R) (n : ℕ) (a : M) : Type 0 where
  pub long : ops.first_dim a ≡ n
  pub long_permuted : ops.first_dim (ops.permute_10 a) ≡ n
  pub entry_permuted : (i j : ℕ) → ops.entry (ops.permute_10 a) i j ≡ ops.entry a j i

-- Row `i`, column `j` of `a`, or of its transpose.
unfoldable pub coefficient : {M E R : Type 0} → Rows M E R → Bool → M → ℕ → ℕ → E
coefficient ops true a i j = ops.entry a j i
coefficient ops false a i j = ops.entry a i j

abbrev pub transform_name : Bool → String
transform_name true = "transpose"
transform_name false = "none"

-- The side of the triangle of `a`, or of its transpose.
abbrev pub side : Bool → Bool → Bool
side true lower = not lower
side false lower = lower

module _ {M E R : Type 0} (ops : Rows M E R) (laws : Exact ops) (stacking : Stacking ops) where
  -- The tensor `y` stands for `n` rows that solve the system of the coefficients `c`.
  pub record Solution (c : ℕ → ℕ → E) (lower : Bool) (n : ℕ) (b y : M) : Type 0 where
    pub long : ops.first_dim y ≡ n
    pub solves :
        (i : ℕ)
        → i < n
        → total ops laws (c i) (ops.row y) (triangle lower n i)
          ≡ ops.row (right_hand_side ops n b) i

  solve-Solution :
      (a b : M) (lower : Bool) (n : ℕ)
      → ops.first_dim a ≡ suc n
      → ((i : ℕ)
          → i < suc n
          → (r : R) → ops.times (ops.entry a i i) (ops.over r (ops.entry a i i)) ≡ r)
      → (y : M) × (solve ops a lower b
          ≡ ok (some (if ops.rank b == 1 then ops.flat (suc n) y else y)))
        × Solution (ops.entry a) lower (suc n) b y
  unfolding solve unwrap
  solve-Solution a b lower n long divides =
      let rhs = right_hand_side ops (suc n) b in
      let full = solve_rows ops a rhs (solving_order lower (suc n)) [] in
      let row_of =
        λ (i : ℕ) (lt : i < suc n). row_solved ops laws a rhs lower (suc n) i lt (divides i lt) in
      let (y, ran, held) =
        stack_rows_lem ops stacking full n (λ i lt. ((row_of i lt).0, (row_of i lt).1)) in
      (
        y,
        rw (solve, long, ran) (unwrapped (ops.rank b == 1) (suc n) y),
        record {
          long = held.long;
          solves = λ i lt.
              total_cong ops laws (ops.entry a i) (ops.entry a i) (ops.row y) (value ops laws full)
                (triangle lower (suc n) i)
                (same full y held (triangle lower (suc n) i) i
                  (triangle_bounded lower (suc n) i lt))
              ∙ (row_of i lt).2;
        },
      )
    where
      unwrapped :
          (vector : Bool) (k : ℕ) (y : M)
          → unwrap ops vector k (some y) ≡ ok (some (if vector then ops.flat k y else y))
      unwrapped true k y = refl
      unwrapped false k y = refl

      same :
          (full : _) (y : M)
          → Holds ops stacking full (suc n) y
          → (js : List ℕ) (i : ℕ) → All (λ j. j < suc n) js
          → All
              (λ j. (ops.entry a i j ≡ ops.entry a i j) × (ops.row y j ≡ value ops laws full j))
              js
      same full y held [] i h = tt
      same full y held (j ∷ js) i (lt, h) = (
        (refl, sym (value_found ops laws full j (ops.row y j) (held.rows j lt))),
        same full y held js i h,
      )

  -- With "left_side", and "none" or "transpose" for "transform_a", `_triangular_solve` on a
  -- square matrix of at least one row returns rows that solve the triangular system of the
  -- matrix, or of its transpose; where `-` undoes the addition of rows, each diagonal entry
  -- times a row over it is the row, and `reshape` and `cat` keep the rows in order.
  pub triangular_solve-Solution :
      (attrs : Attributes) (a b : M) (transposed : Bool) (n : ℕ)
      → attrs.left_side ≡ true
      → attrs.transform_a ≡ transform_name transposed
      → IsSquare ops (suc n) a
      → ((i : ℕ)
          → i < suc n
          → (r : R) → ops.times (ops.entry a i i) (ops.over r (ops.entry a i i)) ≡ r)
      → (y : M) × (triangular_solve ops attrs a b
          ≡ ok (some (if ops.rank b == 1 then ops.flat (suc n) y else y)))
        × Solution (coefficient ops transposed a) (side transposed attrs.lower) (suc n) b y
  unfolding triangular_solve transform coefficient
  triangular_solve-Solution attrs a b false n left name square divides =
      let (y, ran, solved) = solve-Solution a b attrs.lower n square.long divides in
      (y, rw (triangular_solve, left, transform, name) ran, solved)
  triangular_solve-Solution attrs a b true n left name square divides =
      let a' = ops.permute_10 a in
      let (y, ran, solved) =
        solve-Solution a' b (not attrs.lower) n square.long_permuted
          (λ i lt r. rw (square.entry_permuted i i) (divides i lt r)) in
      (
        y,
        rw (triangular_solve, left, transform, name) ran,
        record {
          long = solved.long;
          solves = λ i lt.
              total_cong ops laws (λ j. ops.entry a j i) (ops.entry a' i) (ops.row y) (ops.row y) _
                (each (triangle (not attrs.lower) (suc n) i) (λ j. sym (square.entry_permuted i j))
                  (λ j. refl))
              ∙ solved.solves i lt;
        },
      )
    where
      each :
          {P Q : ℕ → Type 0} (js : List ℕ)
          → ((j : ℕ) → P j)
          → ((j : ℕ) → Q j)
          → All (λ j. P j × Q j) js
      each [] f g = tt
      each (j ∷ js) f g = ((f j, g j), each js f g)
