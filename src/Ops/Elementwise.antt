-- ===== src/Ops/Elementwise.antt =====
-- `_UNARY`, `_BINARY` and `_COMPARISON` with their helpers, over the calls of tinygrad.
pub mod Complete
use nx_tinygrad.Base.{ℕ, ◌^◌, String, Option, none, some, List, [], ◌∷◌, if◌then◌else◌, str_eq}

-- The numbers that the source writes next to a tensor: a fraction, and what `math.pi` makes.
pub data Number : Type 0 where
  ratio : ℕ → ℕ → Number
  minus : Number → Number
  pi half_pi : Number

-- `-t`, `+`, `-`, `*`, `/`, the bitwise and the order operators, `t.where`, and the methods; a number
-- next to a tensor is the tensor `scalar` of it.
pub record Calls (T : Type 0) : Type 0 where
  pub scalar : Number → T
  pub neg : T → T
  pub add : T → T → T
  pub sub : T → T → T
  pub mul : T → T → T
  pub div : T → T → T
  pub abs : T → T
  pub exp : T → T
  pub log : T → T
  pub sqrt : T → T
  pub rsqrt : T → T
  pub tanh : T → T
  pub sigmoid : T → T
  pub sin : T → T
  pub cos : T → T
  pub tan : T → T
  pub asin : T → T
  pub acos : T → T
  pub atan : T → T
  pub sinh : T → T
  pub cosh : T → T
  pub asinh : T → T
  pub acosh : T → T
  pub atanh : T → T
  pub erf : T → T
  pub sign : T → T
  pub floor : T → T
  pub ceil : T → T
  pub trunc : T → T
  pub isnan : T → T
  pub isinf : T → T
  pub bitwise_not : T → T
  pub pow : T → T → T
  pub maximum : T → T → T
  pub minimum : T → T → T
  pub bit_and : T → T → T
  pub bit_or : T → T → T
  pub bit_xor : T → T → T
  pub shift_left : T → T → T
  pub shift_right : T → T → T
  pub eq : T → T → T
  pub ne : T → T → T
  pub lt : T → T → T
  pub le : T → T → T
  pub gt : T → T → T
  pub ge : T → T → T
  pub choose : T → T → T → T

abbrev integer : ℕ → Number
integer n = ratio n 1

-- The coefficients of `_erf_inv`.
abbrev central : List Number
central =
    ratio 343273939 (10 ^ 15)
    ∷ minus (ratio 35233877 (10 ^ 13))
    ∷ minus (ratio 439150654 (10 ^ 14))
    ∷ ratio 21858087 (10 ^ 11)
    ∷ minus (ratio 125372503 (10 ^ 11))
    ∷ minus (ratio 417768164 (10 ^ 11))
    ∷ ratio 246640727 (10 ^ 9)
    ∷ ratio 150140941 (10 ^ 8)
    ∷ []

abbrev tail : List Number
tail =
    ratio 100950558 (10 ^ 12)
    ∷ ratio 134934322 (10 ^ 11)
    ∷ minus (ratio 367342844 (10 ^ 11))
    ∷ ratio 573950773 (10 ^ 11)
    ∷ minus (ratio 76224613 (10 ^ 10))
    ∷ ratio 943887047 (10 ^ 11)
    ∷ ratio 100167406 (10 ^ 8)
    ∷ ratio 283297682 (10 ^ 8)
    ∷ []

-- A table of functions by the name of the operation.
abbrev pub Table : Type 0 → Type 0
Table F = List (String × F)

unfoldable pub table_entry : {F : Type 0} → String → Table F → Option F
table_entry op [] = none
table_entry op ((name, f) ∷ table) = if str_eq name op then some f else table_entry op table

module _ {T : Type 0} (calls : Calls T) where
  -- `small` of `_expm1` and of `_log1p`: the polynomials, from the left.
  abbrev expm1_small : T → T
  expm1_small t =
      let x2 = calls.mul t t in
      calls.add
        (calls.add
          (calls.add (calls.add t (calls.mul x2 (calls.scalar (ratio 1 2))))
            (calls.mul (calls.mul x2 t) (calls.scalar (ratio 1 6))))
          (calls.mul (calls.mul x2 x2) (calls.scalar (ratio 1 24))))
        (calls.mul (calls.mul (calls.mul x2 x2) t) (calls.scalar (ratio 1 120)))

  abbrev log1p_small : T → T
  log1p_small t =
      let x2 = calls.mul t t in
      calls.add
        (calls.sub
          (calls.add (calls.sub t (calls.mul x2 (calls.scalar (ratio 1 2))))
            (calls.mul (calls.mul x2 t) (calls.scalar (ratio 1 3))))
          (calls.mul (calls.mul x2 x2) (calls.scalar (ratio 1 4))))
        (calls.mul (calls.mul (calls.mul x2 x2) t) (calls.scalar (ratio 1 5)))

  abbrev is_small : T → T
  is_small t = calls.lt (calls.abs t) (calls.scalar (ratio 1 100))

  abbrev pub expm1 : T → T
  expm1 t =
      calls.choose (is_small t) (expm1_small t) (calls.sub (calls.exp t) (calls.scalar (integer 1)))

  abbrev pub log1p : T → T
  log1p t =
      calls.choose (is_small t) (log1p_small t) (calls.log (calls.add t (calls.scalar (integer 1))))

  abbrev pub abs_value : T → T
  abs_value t =
      calls.choose (calls.eq t (calls.scalar (integer 0))) (calls.scalar (integer 0)) (calls.abs t)

  -- `for c in ...: p = c + p * w`
  horner : List Number → T → T → T
  horner [] p w = p
  horner (c ∷ cs) p w = horner cs (calls.add (calls.scalar c) (calls.mul p w)) w

  unfoldable pub erf_inv : T → T
  unfolding horner
  erf_inv t =
      let one = calls.scalar (integer 1) in
      let w = calls.neg (calls.log (calls.mul (calls.sub one t) (calls.add one t))) in
      let w1 = calls.sub w (calls.scalar (ratio 5 2)) in
      let p1 = horner central (calls.scalar (ratio 281022636 (10 ^ 16))) w1 in
      let w2 = calls.sub (calls.sqrt w) (calls.scalar (integer 3)) in
      let p2 = horner tail (calls.scalar (minus (ratio 200214257 (10 ^ 12)))) w2 in
      calls.mul (calls.choose (calls.lt w (calls.scalar (integer 5))) p1 p2) t

  abbrev pub cbrt : T → T
  cbrt t =
      let r = calls.pow (calls.abs t) (calls.scalar (ratio 1 3)) in
      calls.choose (calls.lt t (calls.scalar (integer 0))) (calls.neg r) r

  -- `t.sign() * (t.abs() + 0.5).floor()`
  abbrev pub round : T → T
  round t =
      calls.mul (calls.sign t) (calls.floor (calls.add (calls.abs t) (calls.scalar (ratio 1 2))))

  abbrev pub unary_table : Table (T → T)
  unary_table =
      ("negate", calls.neg)
      ∷ ("abs", abs_value)
      ∷ ("exp", calls.exp)
      ∷ ("expm1", expm1)
      ∷ ("log", calls.log)
      ∷ ("log1p", log1p)
      ∷ ("sqrt", calls.sqrt)
      ∷ ("rsqrt", calls.rsqrt)
      ∷ ("tanh", calls.tanh)
      ∷ ("sigmoid", calls.sigmoid)
      ∷ ("sin", calls.sin)
      ∷ ("cos", calls.cos)
      ∷ ("tan", calls.tan)
      ∷ ("asin", calls.asin)
      ∷ ("acos", calls.acos)
      ∷ ("atan", calls.atan)
      ∷ ("sinh", calls.sinh)
      ∷ ("cosh", calls.cosh)
      ∷ ("asinh", calls.asinh)
      ∷ ("acosh", calls.acosh)
      ∷ ("atanh", calls.atanh)
      ∷ ("erf", calls.erf)
      ∷ ("erfc", λ t. calls.sub (calls.scalar (integer 1)) (calls.erf t))
      ∷ ("erf_inv", erf_inv)
      ∷ ("conjugate", λ t. t)
      ∷ ("cbrt", cbrt)
      ∷ ("sign", calls.sign)
      ∷ ("round", round)
      ∷ ("is_nan", calls.isnan)
      ∷ ("is_infinity", calls.isinf)
      ∷ ("bitwise_not", calls.bitwise_not)
      ∷ ("floor", calls.floor)
      ∷ ("ceil", calls.ceil)
      ∷ []

  abbrev pub remainder : T → T → T
  remainder a b = calls.sub a (calls.mul b (calls.trunc (calls.div a b)))

  abbrev pub quotient : T → T → T
  quotient a b = calls.trunc (calls.div a b)

  abbrev pub atan2 : T → T → T
  atan2 y x =
      let nought = calls.scalar (integer 0) in
      let base = calls.atan (calls.div y x) in
      let half_turn =
        calls.choose (calls.ge y nought) (calls.scalar pi) (calls.scalar (minus pi)) in
      let adj = calls.choose (calls.lt x nought) half_turn nought in
      let below = calls.choose (calls.lt y nought) (calls.scalar (minus half_pi)) nought in
      let on_axis = calls.choose (calls.gt y nought) (calls.scalar half_pi) below in
      calls.choose (calls.eq x nought) on_axis (calls.add base adj)

  -- `t != 0`
  abbrev nonzero : T → T
  nonzero t = calls.ne t (calls.scalar (integer 0))

  abbrev pub binary_table : Table (T → T → T)
  binary_table =
      ("add", calls.add)
      ∷ ("subtract", calls.sub)
      ∷ ("multiply", calls.mul)
      ∷ ("divide", calls.div)
      ∷ ("pow", calls.pow)
      ∷ ("max", calls.maximum)
      ∷ ("min", calls.minimum)
      ∷ ("remainder", remainder)
      ∷ ("quotient", quotient)
      ∷ ("atan2", atan2)
      ∷ ("bitwise_and", calls.bit_and)
      ∷ ("bitwise_or", calls.bit_or)
      ∷ ("bitwise_xor", calls.bit_xor)
      ∷ ("left_shift", calls.shift_left)
      ∷ ("right_shift", calls.shift_right)
      ∷ ("logical_and", λ a b. calls.bit_and (nonzero a) (nonzero b))
      ∷ ("logical_or", λ a b. calls.bit_or (nonzero a) (nonzero b))
      ∷ ("logical_xor", λ a b. calls.bit_xor (nonzero a) (nonzero b))
      ∷ []

  abbrev pub comparison_table : Table (T → T → T)
  comparison_table =
      ("equal", calls.eq)
      ∷ ("not_equal", calls.ne)
      ∷ ("less", calls.lt)
      ∷ ("less_equal", calls.le)
      ∷ ("greater", calls.gt)
      ∷ ("greater_equal", calls.ge)
      ∷ []
