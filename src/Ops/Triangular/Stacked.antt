-- ===== src/Ops/Triangular/Stacked.antt =====
-- The rows of the tensor that is stacked from what was solved.
use nx_tinygrad.Base.{
  ℕ, zero, suc, ◌+◌, ◌<◌, ◌≤◌, ◌≡◌, refl, sym, ap, ◌∙◌, subst, List, ◌∷◌, Option, none, some, arith,
  inl, inr, ◌⊎◌,
}
use nx_tinygrad.Errors.{ok}
use nx_tinygrad.Dict.{Dict, lookup}
use nx_tinygrad.Ops.Axes.{range}
use nx_tinygrad.Ops.Triangular.{Rows, stack_rows, add_block}

-- What `reshape` and `cat` do to the rows.
pub record Stacking {M E R : Type 0} (ops : Rows M E R) : Type 0 where
  pub first_dim-block : (r : R) → ops.first_dim (ops.block r) ≡ 1
  pub row-block : (r : R) → ops.row (ops.block r) 0 ≡ r
  pub first_dim-cat : (x y : M) → ops.first_dim (ops.cat x y) ≡ ops.first_dim x + ops.first_dim y
  pub row-cat_left : (x y : M) (i : ℕ) → i < ops.first_dim x → ops.row (ops.cat x y) i ≡ ops.row x i
  pub row-cat_right : (x y : M) (i : ℕ) → ops.row (ops.cat x y) (ops.first_dim x + i) ≡ ops.row y i

module _ {M E R : Type 0} (ops : Rows M E R) (laws : Stacking ops) (solved : Dict R) where
  -- A tensor whose rows are those solved for 0 to `n - 1`.
  pub record Holds (n : ℕ) (m : M) : Type 0 where
    pub long : ops.first_dim m ≡ n
    pub rows : (j : ℕ) → j < n → lookup j solved ≡ some (ops.row m j)

  add_block-Holds :
      (n : ℕ) (m : M) (r : R)
      → Holds n m
      → lookup n solved ≡ some r
      → Holds (suc n) (ops.cat m (ops.block r))
  add_block-Holds n m r h found = record {
    long = laws.first_dim-cat m (ops.block r) ∙ (rw (h.long, laws.first_dim-block r) (omega arith));
    rows = λ j lt. elim (below j n lt) [
      | inl old ↦
          h.rows j old ∙ ap some (sym (laws.row-cat_left m (ops.block r) j (omega (arith, h.long))))
      | inr here ↦
          let at : ops.first_dim m + 0 ≡ j = omega (arith, h.long) in
          ap (λ k. lookup k solved) here
          ∙ found
          ∙ ap some (
              sym (laws.row-block r)
              ∙ sym (laws.row-cat_right m (ops.block r) 0)
              ∙ ap (ops.row (ops.cat m (ops.block r))) at)
    ];
  }
    where
      below : (j n : ℕ) → j < suc n → (j < n) ⊎ (j ≡ n)
      below j n lt = ground arith

  stack_rows_found :
      (i : ℕ) (rest : List ℕ) (stacked : Option M) (r : R)
      → lookup i solved ≡ some r
      → stack_rows ops (i ∷ rest) solved stacked
        ≡ stack_rows ops rest solved (some (add_block ops stacked r))
  unfolding stack_rows
  stack_rows_found i rest stacked r found = rw (stack_rows, found) refl

  stack_rows-from :
      (k n : ℕ) (m : M)
      → Holds n m
      → ((j : ℕ) → n ≤ j → j < n + k → (r : R) × (lookup j solved ≡ some r))
      → (y : M) × (stack_rows ops (range n k) solved (some m) ≡ ok (some y)) × Holds (n + k) y
  unfolding stack_rows range add_block
  stack_rows-from zero n m h all = (m, refl, subst (λ k. Holds k m) (omega arith) h)
  stack_rows-from (suc k) n m h all =
      let (r, found) = all n (omega arith) (omega arith) in
      let (y, ran, held) =
        stack_rows-from k (suc n) (ops.cat m (ops.block r)) (add_block-Holds n m r h found)
          (λ j le lt. all j (omega arith) (omega arith)) in
      (
        y,
        stack_rows_found n (range (suc n) k) (some m) r found ∙ ran,
        subst (λ k'. Holds k' y) (omega arith) held,
      )

  pub stack_rows_lem :
      (n : ℕ)
      → ((j : ℕ) → j < suc n → (r : R) × (lookup j solved ≡ some r))
      → (y : M) × (stack_rows ops (range 0 (suc n)) solved none ≡ ok (some y)) × Holds (suc n) y
  unfolding stack_rows range add_block
  stack_rows_lem n all =
      let (r, found) = all 0 (omega arith) in
      let first : Holds 1 (ops.block r) = record {
        long = laws.first_dim-block r;
        rows = λ j lt.
            let zero_is : 0 ≡ j = omega arith in
            subst (λ k. lookup k solved ≡ some (ops.row (ops.block r) k)) zero_is
              (found ∙ ap some (sym (laws.row-block r)));
      } in
      let (y, ran, held) =
        stack_rows-from n 1 (ops.block r) first (λ j le lt. all j (omega arith)) in
      (
        y,
        stack_rows_found 0 (range 1 n) none r found ∙ ran,
        subst (λ k. Holds k y) (omega arith) held,
      )
