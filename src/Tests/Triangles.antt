-- ===== src/Tests/Triangles.antt =====
-- A triangular system over the field of two elements, by the transpose of its matrix.
use nx_tinygrad.Base.{
  ℕ, ◌+◌, ◌-◌, ◌<◌, ◌≡◌, refl, ap, ◌∙◌, Bool, true, false, some, ltb, lt→ltb, le→ltb, ◌==◌,
  if◌then◌else◌, arith, ◌&&◌,
}
use nx_tinygrad.Errors.{ok}
use nx_tinygrad.Dict.{lookup, insert}
use nx_tinygrad.Ops.Axes.{range}
use nx_tinygrad.Ops.Triangular.{
  Rows, Attributes, solving_order, subtract_solved, solve_row, solve_rows, add_block, stack_rows,
  unwrap, transform, right_hand_side, solve, triangular_solve,
}
use nx_tinygrad.Ops.Triangular.Solves.{Exact}
use nx_tinygrad.Ops.Triangular.Stacked.{Stacking}
use nx_tinygrad.Ops.Triangular.Correct.{Solution, coefficient, triangular_solve-Solution}

-- A matrix of bits, by its entries; a row of the right-hand side has one entry.
record BitMatrix : Type 0 where
  rows : ℕ
  bit : ℕ → ℕ → Bool

abbrev pub xor : Bool → Bool → Bool
xor true true = false
xor true false = true
xor false b = b

abbrev stack_bits : BitMatrix → BitMatrix → BitMatrix
stack_bits x y = record {
  rows = x.rows + y.rows;
  bit = λ i j. if ltb i x.rows then x.bit i j else y.bit (i - x.rows) j;
}

abbrev bits : Rows BitMatrix Bool Bool
bits = record {
  first_dim = λ m. m.rows;
  rank = λ m. 2;
  permute_10 = λ m. record { rows = m.rows; bit = λ i j. m.bit j i };
  column = λ n m. m;
  flat = λ n m. m;
  entry = λ m i j. m.bit i j;
  row = λ m i. m.bit i 0;
  minus = λ x y. xor x y;
  times = λ x y. x && y;
  over = λ x y. x;
  block = λ r. record { rows = 1; bit = λ i j. r };
  cat = stack_bits;
}

pub xor_assoc : (x y z : Bool) → xor (xor x y) z ≡ xor x (xor y z)
xor_assoc true true true = refl
xor_assoc true true false = refl
xor_assoc true false z = refl
xor_assoc false y z = refl

pub xor_comm : (x y : Bool) → xor x y ≡ xor y x
xor_comm true true = refl
xor_comm true false = refl
xor_comm false true = refl
xor_comm false false = refl

xor_nought : (x : Bool) → xor x false ≡ x
xor_nought true = refl
xor_nought false = refl

pub xor-xor : (x y : Bool) → xor (xor x y) y ≡ x
xor-xor true true = refl
xor-xor true false = refl
xor-xor false true = refl
xor-xor false false = refl

abbrev bits_exact : Exact bits
bits_exact = record {
  plus = xor;
  nought = false;
  plus_assoc = xor_assoc;
  plus_comm = xor_comm;
  plus_nought = xor_nought;
  minus-plus = xor-xor;
}

abbrev bits_stacking : Stacking bits
bits_stacking = record {
  first_dim-block = λ r. refl;
  row-block = λ r. refl;
  first_dim-cat = λ x y. refl;
  row-cat_left =
      λ x y i h. ap (λ b. if b then x.bit i 0 else y.bit (i - x.rows) 0) (lt→ltb i x.rows h);
  row-cat_right = λ x y i.
      let far : ltb (x.rows + i) x.rows ≡ false = le→ltb (x.rows + i) x.rows (omega arith) in
      let back : (x.rows + i) - x.rows ≡ i = omega arith in
      ap (λ b. if b then x.bit (x.rows + i) 0 else y.bit ((x.rows + i) - x.rows) 0) far
      ∙ ap (λ k. y.bit k 0) back;
}

-- 1 1 / 0 1, whose transpose is lower.
abbrev upper_bits : BitMatrix
upper_bits = record { rows = 2; bit = λ i j. if i == j then true else ltb i j }

-- 1, 0
abbrev some_bits : BitMatrix
some_bits = record { rows = 2; bit = λ i j. i == 0 }

abbrev transposed_upper : Attributes
transposed_upper = record { left_side = true; lower = false; transform_a = "transpose" }

upper_divides : (i : ℕ) → i < 2 → (r : Bool) → (upper_bits.bit i i && r) ≡ r
upper_divides i h r = ground arith

upper_solved :
    triangular_solve bits transposed_upper upper_bits some_bits
    ≡ ok (
        some (
          stack_bits
            (record { rows = 1; bit = λ i j. true })
            (record { rows = 1; bit = λ i j. true })))
unfolding triangular_solve transform solve right_hand_side solving_order range solve_rows solve_row
    subtract_solved stack_rows add_block unwrap lookup insert
upper_solved = refl

triangular_solve-Solution_example :
    (y : BitMatrix) × (triangular_solve bits transposed_upper upper_bits some_bits ≡ ok (some y))
    × Solution bits bits_exact bits_stacking (coefficient bits true upper_bits) true 2 some_bits y
triangular_solve-Solution_example =
    triangular_solve-Solution bits bits_exact bits_stacking transposed_upper upper_bits some_bits
      true 1 refl refl (record { long = refl; long_permuted = refl; entry_permuted = λ i j. refl })
      upper_divides
