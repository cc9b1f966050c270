-- ===== src/Executables/Constants.antt =====
-- `_decode_value` and `_make_constant`, over the JSON of a constant. `Tensor.full`, `Tensor` of a
-- number and the join of two components are the fields of `Fills`.
use nx_tinygrad.Base.{str_eq, ◌≡◌, ap, ◌∙◌, Bool, true, false, none, some, List, if◌then◌else◌}
use nx_tinygrad.Errors.{Result, ok, raise, fail, python_error, ◌>>=◌, >>=-eq-ok, ok_inj}
use nx_tinygrad.Json.{Value, int, string, Items, nil, cons, array, pos}
use nx_tinygrad.Wire.Integers.{Bytes}
use nx_tinygrad.Python.{get_value, require, index, iterate}
use nx_tinygrad.Dtype.{
  Scalar, Library, is_complex, component_dtype, numpy_dtype, tinygrad_dtype, wire_tensor,
}
use nx_tinygrad.Ops.Dispatch.{Operand, real, cx}

-- A Python number: one of JSON, or what its name stands for.
pub data Literal : Type 0 where
  plain : Value → Literal
  infinity minus_infinity nan : Literal

unfoldable pub decode_value : Value → Result Literal
decode_value (string s) =
    if str_eq s "Infinity"
    then ok infinity
    else if str_eq s "-Infinity"
    then ok minus_infinity
    else if str_eq s "NaN"
    then ok nan
    else fail (python_error "KeyError") "value"
decode_value v = ok (plain v)

pub record Fills (T : Type 0) : Type 0 where
  -- `Tensor.full(shape, value, dtype=...)`, `Tensor(value, dtype=...)`
  pub full : Items → Literal → Scalar → Result T
  pub single : Literal → Scalar → Result T
  -- `t.reshape(())`, `operations._cxt`
  pub as_scalar : T → Result T
  pub cxt : T → T → Result T

-- `shape or (1,)`
abbrev or_one : Items → Items
or_one nil = cons (int (pos 1)) nil
or_one (cons n shape) = cons n shape

module _ {A T : Type 0} (lib : Library A T) (fills : Fills T) where
  -- `np.frombuffer(blobs[const["data_index"]], ...)`, on the device
  unfoldable pub array_constant : List Bytes → Value → Value → Value → Result T
  array_constant blobs at shape dtype = do
    blob ← index blobs at
    carrier ← numpy_dtype dtype
    flat ← lib.frombuffer blob carrier
    arr ← lib.reshape shape flat
    t ← wire_tensor lib arr dtype
    lib.realize t

  -- `if not shape: ...`
  unfoldable pub scalar_parts : Items → T → T → Result (T × T)
  scalar_parts nil re im = do re' ← fills.as_scalar re; im' ← fills.as_scalar im; ok (re', im')
  scalar_parts (cons n shape) re im = ok (re, im)

  unfoldable pub complex_fill : Items → Scalar → Value → Result T
  unfolding decode_value scalar_parts
  complex_fill shape comp value = do
    re_value ← require value "re"
    re_literal ← decode_value re_value
    re ← fills.full (or_one shape) re_literal comp
    im_value ← require value "im"
    im_literal ← decode_value im_value
    im ← fills.full (or_one shape) im_literal comp
    (re', im') ← scalar_parts shape re im
    t ← fills.cxt re' im'
    lib.realize t

  unfoldable pub real_fill : Items → Scalar → Literal → Result T
  real_fill nil dtype value = do t ← fills.single value dtype; lib.realize t
  real_fill (cons n shape) dtype value = do t ← fills.full (cons n shape) value dtype; lib.realize t

  complex_constant : Value → List Bytes → Items → Value → Result T
  unfolding array_constant complex_fill
  complex_constant const blobs shape dtype = do
    component ← component_dtype dtype
    comp ← tinygrad_dtype component
    data_index ← get_value const "data_index"
    elim data_index [
      | some at ↦ array_constant blobs at (array shape) dtype
      | none ↦ (do value ← require const "value"; complex_fill shape comp value)
    ]

  real_constant : Value → List Bytes → Items → Value → Result T
  unfolding array_constant real_fill
  real_constant const blobs shape dtype = do
    data_index ← get_value const "data_index"
    elim data_index [
      | some at ↦ array_constant blobs at (array shape) dtype
      | none ↦ (do
        value ← require const "value"
        literal ← decode_value value
        scalar ← tinygrad_dtype dtype
        real_fill shape scalar literal)
    ]

  -- `_make_constant`
  unfoldable pub make_constant : Value → List Bytes → Result (Operand T)
  unfolding complex_constant real_constant
  make_constant const blobs = do
    shape_value ← require const "shape"
    shape ← iterate lib.characters shape_value
    dtype ← require const "dtype"
    complex ← is_complex dtype
    if complex
        then (do t ← complex_constant const blobs shape dtype; ok (cx t))
        else (do t ← real_constant const blobs shape dtype; ok (real t))

  abbrev is_cx : Operand T → Bool
  is_cx (real t) = false
  is_cx (cx t) = true

  as_declared :
      (complex : Bool) (as_cx as_real : Result T) (v : Operand T)
      → (if complex then (as_cx >>= λ t. ok (cx t)) else (as_real >>= λ t. ok (real t))) ≡ ok v
      → complex ≡ is_cx v
  as_declared true (ok t) as_real v h = ap is_cx (ok_inj h)
  as_declared true (raise f) as_real v h = cc
  as_declared false as_cx (ok t) v h = ap is_cx (ok_inj h)
  as_declared false as_cx (raise f) v h = cc

  -- A constant is held as a `Cx` just when its dtype is complex.
  make_constant_lem :
      (const : Value) (blobs : List Bytes) (v : Operand T)
      → make_constant const blobs ≡ ok v
      → (dtype : Value) × (require const "dtype" ≡ ok dtype) × (is_complex dtype ≡ ok (is_cx v))
  unfolding make_constant
  make_constant_lem const blobs v h =
      let (shape_value, e1, h1) = >>=-eq-ok (require const "shape") _ h in
      let (shape, e2, h2) = >>=-eq-ok (iterate lib.characters shape_value) _ h1 in
      let (dtype, e3, h3) = >>=-eq-ok (require const "dtype") _ h2 in
      let (complex, e4, h4) = >>=-eq-ok (is_complex dtype) _ h3 in
      (
        dtype,
        e3,
        e4
            ∙ ap ok (
                as_declared complex (complex_constant const blobs shape dtype)
                  (real_constant const blobs shape dtype) v h4),
      )
