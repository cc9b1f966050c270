-- ===== src/Ops/Triangular.antt =====
-- `_triangular_solve`: forward and back substitution, over the rows of the tensors.
pub mod Solves
pub mod Order
pub mod Triangle
pub mod Correct
pub mod Stacked
use nx_tinygrad.Base.{
  ℕ, zero, suc, String, str_eq, Bool, true, false, not, Option, none, some, List, [], ◌∷◌, ◌==◌,
  if◌then◌else◌,
}
use nx_tinygrad.Errors.{Result, ok, fail, python_error, unsupported_operation, ◌>>=◌}
use nx_tinygrad.Dict.{Dict, lookup, insert}
use nx_tinygrad.Ops.Axes.{range}

-- What is asked of tinygrad, for tensors `M`, their entries `E` and their rows `R`.
pub record Rows (M E R : Type 0) : Type 0 where
  -- `t.shape[0]`, `len(t.shape)`
  pub first_dim : M → ℕ
  pub rank : M → ℕ
  -- `a.permute(1, 0)`, `b.reshape((n, 1))`, `x.reshape((n,))`
  pub permute_10 : M → M
  pub column : ℕ → M → M
  pub flat : ℕ → M → M
  -- `a[i, j]`, `rhs[i]`
  pub entry : M → ℕ → ℕ → E
  pub row : M → ℕ → R
  -- `acc - r`, `a[i, j] * xj`, `acc / a[i, i]`
  pub minus : R → R → R
  pub times : E → R → R
  pub over : R → E → R
  -- `r.reshape((1,) + r.shape)`, `stacked.cat(row, dim=0)`
  pub block : R → M
  pub cat : M → M → M

pub record Attributes : Type 0 where
  pub left_side : Bool
  pub lower : Bool
  pub transform_a : String

-- `range(n - 1, -1, -1)`
unfoldable pub countdown : ℕ → List ℕ
countdown zero = []
countdown (suc n) = n ∷ countdown n

-- `range(n) if lower else range(n - 1, -1, -1)`
unfoldable pub solving_order : Bool → ℕ → List ℕ
unfolding range countdown
solving_order lower n = if lower then range 0 n else countdown n

module _ {M E R : Type 0} (ops : Rows M E R) where
  -- `for j, xj in solved.items(): acc = acc - a[i, j] * xj`
  unfoldable pub subtract_solved : M → ℕ → Dict R → R → R
  subtract_solved a i [] acc = acc
  subtract_solved a i ((j, xj) ∷ solved) acc =
      subtract_solved a i solved (ops.minus acc (ops.times (ops.entry a i j) xj))

  -- The row `i` of the solution.
  unfoldable pub solve_row : M → M → ℕ → Dict R → R
  unfolding subtract_solved
  solve_row a rhs i solved = ops.over (subtract_solved a i solved (ops.row rhs i)) (ops.entry a i i)

  unfoldable pub solve_rows : M → M → List ℕ → Dict R → Dict R
  unfolding solve_row
  solve_rows a rhs [] solved = solved
  solve_rows a rhs (i ∷ order) solved =
      solve_rows a rhs order (insert i (solve_row a rhs i solved) solved)

  -- `row if stacked is None else stacked.cat(row, dim=0)`
  unfoldable pub add_block : Option M → R → M
  add_block none r = ops.block r
  add_block (some stacked) r = ops.cat stacked (ops.block r)

  unfoldable pub stack_rows : List ℕ → Dict R → Option M → Result (Option M)
  unfolding add_block
  stack_rows [] solved stacked = ok stacked
  stack_rows (i ∷ rest) solved stacked = elim (lookup i solved) [
    | none ↦ fail (python_error "KeyError") "solved"
    | some r ↦ stack_rows rest solved (some (add_block stacked r))
  ]

  -- `stacked.reshape((n,)) if vector else stacked`
  unfoldable pub unwrap : Bool → ℕ → Option M → Result (Option M)
  unwrap true n none =
      fail (python_error "AttributeError") "'NoneType' object has no attribute 'reshape'"
  unwrap true n (some stacked) = ok (some (ops.flat n stacked))
  unwrap false n stacked = ok stacked

  -- The matrix that is solved, and on which side its triangle lies.
  unfoldable pub transform : Attributes → M → Result (M × Bool)
  transform attrs a =
      if str_eq attrs.transform_a "transpose"
      then ok (ops.permute_10 a, not attrs.lower)
      else if str_eq attrs.transform_a "none"
      then ok (a, attrs.lower)
      else fail unsupported_operation "triangular_solve transform_a is not supported"

  unfoldable pub right_hand_side : ℕ → M → M
  right_hand_side n b = if ops.rank b == 1 then ops.column n b else b

  unfoldable pub solve : M → Bool → M → Result (Option M)
  unfolding solving_order solve_rows stack_rows unwrap right_hand_side
  solve a lower b =
      let n = ops.first_dim a in
      let rhs = right_hand_side n b in
      let solved = solve_rows a rhs (solving_order lower n) [] in
      do stacked ← stack_rows (range 0 n) solved none; unwrap (ops.rank b == 1) n stacked

  -- `_triangular_solve`; without a row it returns `None`.
  unfoldable pub triangular_solve : Attributes → M → M → Result (Option M)
  unfolding transform solve
  triangular_solve attrs a b =
      if attrs.left_side
      then (do (a', lower) ← transform attrs a; solve a' lower b)
      else fail unsupported_operation "triangular_solve with left_side=false is not supported"
