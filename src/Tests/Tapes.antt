-- ===== src/Tests/Tapes.antt =====
-- Complex division of tensors of bits, over the field of two elements.
use nx_tinygrad.Base.{
  ℕ, ◌+◌, ◌*◌, ◌/◌, ◌%◌, ◌≡◌, refl, sym, ap, ap₂, ◌∙◌, subst, fun_ext, ◌++◌, Bool, true, false,
  ◌&&◌, List, [], ◌∷◌, String, ◌==◌, if◌then◌else◌, arith,
}
use nx_tinygrad.Errors.{Result, ok, fail, unsupported_operation}
use nx_tinygrad.Ops.Dispatch.{Operand, real, cx}
use nx_tinygrad.Ops.Elementwise.{Number, ratio, Calls}
use nx_tinygrad.Ops.Complex.{Components, cxt, promote, norm, apply_complex}
use nx_tinygrad.Ops.Complex.Divides.{Shaped, ExactCalls, Pairs, apply_complex-divides}
use nx_tinygrad.Tests.Triangles.{xor, xor_assoc, xor_comm, xor-xor}

-- A tensor by its shape and its elements in row-major order; one without axes is broadcast.
abbrev Tape : Type 0
Tape = List ℕ × (ℕ → Bool)

abbrev element : Tape → ℕ → Bool
element ([], x) i = x 0
element (n ∷ dims, x) i = x i

abbrev wider : List ℕ → List ℕ → List ℕ
wider [] dims = dims
wider (n ∷ dims) dims' = n ∷ dims

abbrev is_one : Number → Bool
is_one (ratio p q) = p == q
is_one n = false

abbrev both : (Bool → Bool → Bool) → Tape → Tape → Tape
both f x y = (wider x.0 y.0, λ i. f (element x i) (element y i))

-- The functions that have no meaning on bits leave them.
abbrev tapes : Calls Tape
tapes = record {
  scalar = λ n. ([], λ i. is_one n);
  neg = λ t. t;
  add = both xor;
  sub = both xor;
  mul = both ◌&&◌;
  div = both ◌&&◌;
  abs = λ t. t;
  exp = λ t. t;
  log = λ t. t;
  sqrt = λ t. t;
  rsqrt = λ t. t;
  tanh = λ t. t;
  sigmoid = λ t. t;
  sin = λ t. t;
  cos = λ t. t;
  tan = λ t. t;
  asin = λ t. t;
  acos = λ t. t;
  atan = λ t. t;
  sinh = λ t. t;
  cosh = λ t. t;
  asinh = λ t. t;
  acosh = λ t. t;
  atanh = λ t. t;
  erf = λ t. t;
  sign = λ t. t;
  floor = λ t. t;
  ceil = λ t. t;
  trunc = λ t. t;
  isnan = λ t. t;
  isinf = λ t. t;
  bitwise_not = λ t. t;
  pow = both ◌&&◌;
  maximum = both ◌&&◌;
  minimum = both ◌&&◌;
  bit_and = both ◌&&◌;
  bit_or = both ◌&&◌;
  bit_xor = both ◌&&◌;
  shift_left = both ◌&&◌;
  shift_right = both ◌&&◌;
  eq = both ◌&&◌;
  ne = both ◌&&◌;
  lt = both ◌&&◌;
  le = both ◌&&◌;
  gt = both ◌&&◌;
  ge = both ◌&&◌;
  choose =
      λ c a b. (wider c.0 (wider a.0 b.0), λ i. if element c i then element a i else element b i);
}

abbrev interleave : (ℕ → Bool) → (ℕ → Bool) → ℕ → Bool
interleave x y i = if i % 2 == 0 then x (i / 2) else y (i / 2)

-- The shape without its last axis, and with a last axis of 2.
abbrev front : List ℕ → List ℕ
front [] = []
front (n ∷ []) = []
front (n ∷ m ∷ dims) = n ∷ front (m ∷ dims)

abbrev tape_parts : Components Tape
tape_parts = record {
  re = λ t. (front t.0, λ i. t.1 (2 * i));
  im = λ t. (front t.0, λ i. t.1 (2 * i + 1));
  shape = λ t. t.0;
  reshape = λ dims t. (dims, t.1);
  cat_last = λ x y. (front x.0 ++ (2 ∷ []), interleave x.1 y.1);
}

and_assoc : (x y z : Bool) → ((x && y) && z) ≡ (x && (y && z))
and_assoc true y z = refl
and_assoc false y z = refl

and_comm : (x y : Bool) → (x && y) ≡ (y && x)
and_comm true true = refl
and_comm true false = refl
and_comm false true = refl
and_comm false false = refl

and-xor : (x y z : Bool) → (x && xor y z) ≡ xor (x && y) (x && z)
and-xor true y z = refl
and-xor false y z = refl

abbrev pair : List ℕ
pair = 2 ∷ []

abbrev Two : Type 0
Two = Shaped tapes tape_parts pair

-- What holds of tensors with these very axes holds of all that have this shape.
on_one : (P : Tape → Type 0) → ((f : ℕ → Bool) → P (pair, f)) → (x : Two) → P x.0
on_one P h ((dims, f), e) = subst (λ (d : List ℕ). P (d, f)) (sym e) (h f)

on_two :
    (P : Tape → Tape → Type 0)
    → ((f g : ℕ → Bool) → P (pair, f) (pair, g))
    → (x y : Two) → P x.0 y.0
on_two P h x y = on_one (λ t. P t y.0) (λ f. on_one (P (pair, f)) (h f) y) x

on_three :
    (P : Tape → Tape → Tape → Type 0)
    → ((f g h : ℕ → Bool) → P (pair, f) (pair, g) (pair, h))
    → (x y z : Two) → P x.0 y.0 z.0
on_three P k x y z = on_one (λ t. P t y.0 z.0) (λ f. on_two (P (pair, f)) (k f) y z) x

same_elements : (f g : ℕ → Bool) → ((i : ℕ) → f i ≡ g i) → Path Tape (pair, f) (pair, g)
same_elements f g h = ap (λ (k : ℕ → Bool). (pair, k)) (fun_ext h)

abbrev add : Tape → Tape → Tape
add = both xor

abbrev mul : Tape → Tape → Tape
mul = both ◌&&◌

tapes_exact : ExactCalls tapes tape_parts pair
tapes_exact = record {
  shape-add = on_two (λ x y. (add x y).0 ≡ pair) (λ f g. refl);
  shape-sub = on_two (λ x y. (add x y).0 ≡ pair) (λ f g. refl);
  shape-mul = on_two (λ x y. (mul x y).0 ≡ pair) (λ f g. refl);
  add_assoc =
      on_three (λ x y z. add (add x y) z ≡ add x (add y z))
        (λ f g h. same_elements _ _ (λ i. xor_assoc (f i) (g i) (h i)));
  add_comm =
      on_two (λ x y. add x y ≡ add y x) (λ f g. same_elements _ _ (λ i. xor_comm (f i) (g i)));
  mul_assoc =
      on_three (λ x y z. mul (mul x y) z ≡ mul x (mul y z))
        (λ f g h. same_elements _ _ (λ i. and_assoc (f i) (g i) (h i)));
  mul_comm =
      on_two (λ x y. mul x y ≡ mul y x) (λ f g. same_elements _ _ (λ i. and_comm (f i) (g i)));
  mul-add =
      on_three (λ x y z. mul x (add y z) ≡ add (mul x y) (mul x z))
        (λ f g h. same_elements _ _ (λ i. and-xor (f i) (g i) (h i)));
  sub-add =
      on_two (λ x y. add (add x y) y ≡ x) (λ f g. same_elements _ _ (λ i. xor-xor (f i) (g i)));
  add-sub =
      on_two (λ x y. add (add x y) y ≡ x) (λ f g. same_elements _ _ (λ i. xor-xor (f i) (g i)));
}

even_place : (x y : ℕ → Bool) (i : ℕ) → interleave x y (2 * i) ≡ x i
even_place x y i =
    let even : (2 * i) % 2 ≡ 0 = omega arith in
    let half : (2 * i) / 2 ≡ i = omega arith in ap₂ (λ p h. if p == 0 then x h else y h) even half

odd_place : (x y : ℕ → Bool) (i : ℕ) → interleave x y (2 * i + 1) ≡ y i
odd_place x y i =
    let odd : (2 * i + 1) % 2 ≡ 1 = omega arith in
    let half : (2 * i + 1) / 2 ≡ i = omega arith in
    ap₂ (λ p h. if p == 0 then x h else y h) odd half

tape_parts-Pairs : Pairs tapes tape_parts pair
unfolding cxt
tape_parts-Pairs = record {
  re-cxt =
      on_two (λ x y. tape_parts.re (cxt tapes tape_parts x y) ≡ x)
        (λ f g. same_elements _ _ (even_place f g));
  im-cxt =
      on_two (λ x y. tape_parts.im (cxt tapes tape_parts x y) ≡ y)
        (λ f g. same_elements _ _ (odd_place f g));
}

abbrev ones : Tape
ones = (pair, λ i. true)

abbrev evens : Tape
evens = (2 ∷ 2 ∷ [], λ i. i % 2 == 0)

abbrev one_norm : Tape
one_norm = norm tapes tape_parts (promote tapes tape_parts (real ones))

one_norm-ones : one_norm ≡ ones
unfolding norm promote
one_norm-ones =
    ap₂ (λ r i. add (mul r r) (mul i i))
      (tape_parts-Pairs.re-cxt (ones, refl) ((pair, λ i. false), refl))
      (tape_parts-Pairs.im-cxt (ones, refl) ((pair, λ i. false), refl))

one_divides : (x : Two) → mul (mul x.0 one_norm) one_norm ≡ x.0
one_divides x =
    ap (λ d. mul (mul x.0 d) d) one_norm-ones
    ∙ on_one (λ t. mul (mul t ones) ones ≡ t)
        (λ f. same_elements _ _ (λ i. and_comm (f i && true) true ∙ and_comm (f i) true)) x

abbrev no_rest : String → List (Operand Tape) → Result (Operand Tape)
no_rest op ins = fail unsupported_operation "complex op not supported"

-- A complex tensor of two elements by a real one.
apply_complex-divides_example :
    (p q : Tape) × (apply_complex tapes tape_parts no_rest "multiply" (cx evens ∷ real ones ∷ [])
      ≡ ok (cx p))
    × (apply_complex tapes tape_parts no_rest "divide" (cx p ∷ real ones ∷ []) ≡ ok (cx q))
    × (tape_parts.re q ≡ tape_parts.re (promote tapes tape_parts (cx evens)))
    × (tape_parts.im q ≡ tape_parts.im (promote tapes tape_parts (cx evens)))
unfolding promote cxt
apply_complex-divides_example =
    apply_complex-divides tapes tape_parts pair tapes_exact tape_parts-Pairs no_rest (cx evens)
      (real ones) refl refl refl refl one_divides
