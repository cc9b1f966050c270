-- ===== src/Ops/Triangular/Triangle.antt =====
-- The columns of a row in the triangle, and the sum over them of the rows solved.
use nx_tinygrad.Base.{
  ℕ, zero, suc, ◌+◌, ◌-◌, ◌<◌, ◌≡◌, sym, ap, ◌∙◌, subst, Bool, true, false, some, List, [], ◌∷◌,
  ◌++◌, All, arith, if◌then◌else◌,
}
use nx_tinygrad.Dict.{lookup}
use nx_tinygrad.Ops.Axes.{range}
use nx_tinygrad.Ops.Triangular.{Rows, countdown, solving_order, solve_rows}
use nx_tinygrad.Ops.Triangular.Solves.{
  Exact, IsFresh, solved_ids, value, value_found, total, total_snoc, solve_rows-at,
}
use nx_tinygrad.Ops.Triangular.Order.{
  above, range_split, range_snoc, countdown_split, range-IsFresh, countdown-IsFresh, total-above,
}

-- The columns of row `i` in the triangle.
unfoldable pub triangle : Bool → ℕ → ℕ → List ℕ
triangle lower n i = if lower then range 0 (suc i) else range i (n - i)

module _ {M E R : Type 0} (ops : Rows M E R) (laws : Exact ops) where
  at_order :
      (a rhs : M) (order pre : List ℕ) (i : ℕ) (post : List ℕ)
      → order ≡ pre ++ (i ∷ post)
      → IsFresh ops laws [] order
      → ((r : R) → ops.times (ops.entry a i i) (ops.over r (ops.entry a i i)) ≡ r)
      → (v : R) × (lookup i (solve_rows ops a rhs order []) ≡ some v)
        × (laws.plus
              (total ops laws (ops.entry a i) (value ops laws (solve_rows ops a rhs order [])) pre)
              (ops.times (ops.entry a i i) (value ops laws (solve_rows ops a rhs order []) i))
            ≡ ops.row rhs i)
  unfolding solved_ids
  at_order a rhs order pre i post split fresh divides =
      let (v, found, solves) =
        subst
          (λ ks.
            (v : R) × (lookup i (solve_rows ops a rhs ks []) ≡ some v)
            × (laws.plus
                  (total ops laws (ops.entry a i) (value ops laws (solve_rows ops a rhs ks [])) pre)
                  (ops.times (ops.entry a i i) v)
                ≡ ops.row rhs i))
          (sym split)
          (solve_rows-at ops laws a rhs pre i post [] divides
            (subst (IsFresh ops laws []) split fresh) tt) in
      let is = value_found ops laws (solve_rows ops a rhs order []) i v found in
      (
        v,
        found,
        ap
              (λ w.
                laws.plus
                  (total ops laws (ops.entry a i) (value ops laws (solve_rows ops a rhs order []))
                    pre)
                  (ops.times (ops.entry a i i) w))
              is
            ∙ solves,
      )

  lower_row :
      (c : ℕ → E) (x : ℕ → R) (i : ℕ)
      → total ops laws c x (range 0 (suc i))
        ≡ laws.plus (total ops laws c x (range 0 i)) (ops.times (c i) (x i))
  lower_row c x i =
      let e : 0 + i ≡ i = omega arith in
      ap (total ops laws c x) (range_snoc 0 i ∙ ap (λ k. range 0 i ++ (k ∷ [])) e)
      ∙ total_snoc ops laws c x (range 0 i) i

  upper_row :
      (c : ℕ → E) (x : ℕ → R) (i m : ℕ)
      → total ops laws c x (range i (suc m))
        ≡ laws.plus (total ops laws c x (above i m)) (ops.times (c i) (x i))
  unfolding range total
  upper_row c x i m =
      laws.plus_comm _ _
      ∙ ap (λ t. laws.plus t (ops.times (c i) (x i))) (sym (total-above ops laws c x i m))

  pub row_solved :
      (a rhs : M) (lower : Bool) (n i : ℕ)
      → i < n
      → ((r : R) → ops.times (ops.entry a i i) (ops.over r (ops.entry a i i)) ≡ r)
      → (v : R) × (lookup i (solve_rows ops a rhs (solving_order lower n) []) ≡ some v)
        × (total ops laws
              (ops.entry a i)
              (value ops laws (solve_rows ops a rhs (solving_order lower n) []))
              (triangle lower n i)
            ≡ ops.row rhs i)
  unfolding solving_order triangle
  row_solved a rhs true n i lt divides =
      let long : n ≡ i + suc (n - i - 1) = omega arith in
      let e : 0 + i ≡ i = omega arith in
      let split : range 0 n ≡ range 0 i ++ (i ∷ range (suc i) (n - i - 1)) =
        ap (range 0) long
        ∙ range_split 0 i (n - i - 1)
        ∙ ap (λ k. range 0 i ++ (k ∷ range (suc k) (n - i - 1))) e in
      let (v, found, solves) =
        at_order a rhs (range 0 n) (range 0 i) i _ split (range-IsFresh ops laws 0 n) divides in
      (v, found, lower_row (ops.entry a i) _ i ∙ solves)
  row_solved a rhs false n i lt divides =
      let long : n ≡ suc ((n - i - 1) + i) = omega arith in
      let rest : n - i ≡ suc (n - i - 1) = omega arith in
      let split : countdown n ≡ above i (n - i - 1) ++ (i ∷ countdown i) =
        ap countdown long ∙ countdown_split i (n - i - 1) in
      let (v, found, solves) =
        at_order a rhs (countdown n) (above i (n - i - 1)) i _ split (countdown-IsFresh ops laws n)
          divides in
      (
        v,
        found,
        ap
              (λ k.
                total ops laws (ops.entry a i)
                  (value ops laws (solve_rows ops a rhs (countdown n) [])) (range i k))
              rest
            ∙ upper_row (ops.entry a i) _ i (n - i - 1)
            ∙ solves,
      )

range_bounded : (s m n : ℕ) → s + m < suc n → All (λ j. j < n) (range s m)
unfolding range
range_bounded s zero n h = tt
range_bounded s (suc m) n h = (omega arith, range_bounded (suc s) m n (omega arith))

pub triangle_bounded : (lower : Bool) (n i : ℕ) → i < n → All (λ j. j < n) (triangle lower n i)
unfolding triangle
triangle_bounded true n i h = range_bounded 0 (suc i) n (omega arith)
triangle_bounded false n i h = range_bounded i (n - i) n (omega arith)
