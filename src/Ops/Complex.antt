-- ===== src/Ops/Complex.antt =====
-- `_promote`, `_cxt` and the arithmetic of `_apply_complex`. The branches after `as_type`, which move
-- elements or add them up, are the parameter `rest`.
pub mod Divides
use nx_tinygrad.Base.{ℕ, zero, suc, String, List, [], ◌∷◌, ◌++◌, if◌then◌else◌, str_eq}
use nx_tinygrad.Errors.{Result, ok, fail, python_error, ◌>>=◌}
use nx_tinygrad.Ops.Dispatch.{Operand, real, cx}
use nx_tinygrad.Ops.Elementwise.{Calls, ratio}

-- `t[..., 0]`, `t[..., 1]`, `t.shape`, `t.reshape` and `t.cat(u, dim=-1)`.
pub record Components (T : Type 0) : Type 0 where
  pub re : T → T
  pub im : T → T
  pub shape : T → List ℕ
  pub reshape : List ℕ → T → T
  pub cat_last : T → T → T

-- `ins[i]`
unfoldable pub nth_input : {A : Type 0} → List A → ℕ → Result A
nth_input [] i = fail (python_error "IndexError") "list index out of range"
nth_input (x ∷ xs) zero = ok x
nth_input (x ∷ xs) (suc i) = nth_input xs i

module _ {T : Type 0} (calls : Calls T) (parts : Components T) where
  -- A last axis of length 1.
  abbrev column_of : T → T
  column_of t = parts.reshape (parts.shape t ++ (1 ∷ [])) t

  unfoldable pub cxt : T → T → T
  cxt re im = parts.cat_last (column_of re) (column_of im)

  unfoldable pub promote : Operand T → T
  unfolding cxt
  promote (cx t) = t
  promote (real x) = cxt x (calls.mul x (calls.scalar (ratio 0 1)))

  unfoldable pub multiply_parts : T → T → T
  unfolding cxt
  multiply_parts a b =
      cxt (calls.sub (calls.mul (parts.re a) (parts.re b)) (calls.mul (parts.im a) (parts.im b)))
        (calls.add (calls.mul (parts.re a) (parts.im b)) (calls.mul (parts.im a) (parts.re b)))

  -- `d` of the branch `divide`
  unfoldable pub norm : T → T
  norm b = calls.add (calls.mul (parts.re b) (parts.re b)) (calls.mul (parts.im b) (parts.im b))

  unfoldable pub divide_parts : T → T → T
  unfolding cxt norm
  divide_parts a b =
      let d = norm b in
      cxt
        (calls.div
          (calls.add (calls.mul (parts.re a) (parts.re b)) (calls.mul (parts.im a) (parts.im b))) d)
        (calls.div
          (calls.sub (calls.mul (parts.im a) (parts.re b)) (calls.mul (parts.re a) (parts.im b))) d)

  unfoldable pub conjugate_parts : T → T
  unfolding cxt
  conjugate_parts a = cxt (parts.re a) (calls.neg (parts.im a))

  unfoldable pub exp_parts : T → T
  unfolding cxt
  exp_parts a =
      let e = calls.exp (parts.re a) in
      cxt (calls.mul e (calls.cos (parts.im a))) (calls.mul e (calls.sin (parts.im a)))

  unfoldable pub modulus : T → T
  unfolding norm
  modulus a = calls.sqrt (norm a)

  -- A branch of one operand, or of two.
  unfoldable pub of_one : (T → Operand T) → List (Operand T) → Result (Operand T)
  unfolding nth_input promote
  of_one f ins = do a ← nth_input ins 0; ok (f (promote a))

  unfoldable pub of_two : (T → T → T) → List (Operand T) → Result (Operand T)
  unfolding nth_input promote
  of_two f ins = do a ← nth_input ins 0; b ← nth_input ins 1; ok (cx (f (promote a) (promote b)))

  module _ (rest : String → List (Operand T) → Result (Operand T)) where
    unfoldable pub apply_complex : String → List (Operand T) → Result (Operand T)
    unfolding of_one of_two multiply_parts divide_parts conjugate_parts exp_parts modulus
    apply_complex op ins =
        if str_eq op "add"
        then of_two calls.add ins
        else if str_eq op "subtract"
        then of_two calls.sub ins
        else if str_eq op "negate"
        then of_one (λ a. cx (calls.neg a)) ins
        else if str_eq op "multiply"
        then of_two multiply_parts ins
        else if str_eq op "divide"
        then of_two divide_parts ins
        else if str_eq op "conjugate"
        then of_one (λ a. cx (conjugate_parts a)) ins
        else if str_eq op "exp"
        then of_one (λ a. cx (exp_parts a)) ins
        else if str_eq op "real"
        then of_one (λ a. real (parts.re a)) ins
        else if str_eq op "imag"
        then of_one (λ a. real (parts.im a)) ins
        else if str_eq op "abs"
        then of_one (λ a. real (modulus a)) ins
        else if str_eq op "as_type"
        then of_one (λ a. cx a) ins
        else rest op ins
