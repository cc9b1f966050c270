-- ===== src/Dtype.antt =====
-- priv/worker/dtype.py: the stable dtype names, their numpy and tinygrad types, and the conversions
-- between arrays and tensors at the worker's boundary.
use nx_tinygrad.Base.{
  ℕ, String, Bool, true, false, Option, none, some, List, [], ◌∷◌, if◌then◌else◌, str_eq,
}
use nx_tinygrad.Errors.{Result, ok, fail, unsupported_dtype, python_error, ◌>>=◌}
use nx_tinygrad.Json.{Value, Items, string}
use nx_tinygrad.Python.{as_name}

-- The types of numpy and tinygrad that the tables name.
pub data Scalar : Type 0 where
  float16 float32 float64 bfloat16 complex64 complex128 : Scalar
  int8 int16 int32 int64 uint8 uint16 uint32 uint64 : Scalar

unfoldable pub find : {A : Type 0} → List (String × A) → String → Option A
find [] name = none
find ((k, a) ∷ t) name = if str_eq k name then some a else find t name

-- `_NUMPY`
abbrev pub numpy_table : List (String × Scalar)
numpy_table =
    ("f32", float32)
    ∷ ("f16", float16)
    ∷ ("f64", float64)
    ∷ ("bf16", uint16)
    ∷ ("c64", complex64)
    ∷ ("c128", complex128)
    ∷ ("s8", int8)
    ∷ ("s16", int16)
    ∷ ("s32", int32)
    ∷ ("s64", int64)
    ∷ ("u8", uint8)
    ∷ ("u16", uint16)
    ∷ ("u32", uint32)
    ∷ ("u64", uint64)
    ∷ []

abbrev pub tinygrad_table : List (String × Scalar)
tinygrad_table =
    ("f32", float32)
    ∷ ("f16", float16)
    ∷ ("f64", float64)
    ∷ ("bf16", bfloat16)
    ∷ ("s8", int8)
    ∷ ("s16", int16)
    ∷ ("s32", int32)
    ∷ ("s64", int64)
    ∷ ("u8", uint8)
    ∷ ("u16", uint16)
    ∷ ("u32", uint32)
    ∷ ("u64", uint64)
    ∷ []

-- `_COMPLEX_COMPONENT`
abbrev pub complex_component : List (String × String)
complex_component = ("c64", "f32") ∷ ("c128", "f64") ∷ []

-- `table[name]`, with a name from outside: an unhashable one raises `TypeError`, and `missing` is
-- what the source makes of a `KeyError`.
entry_of : {A : Type 0} → List (String × A) → Result A → Value → Result A
entry_of table missing name = do
  key ← as_name name
  elim key [ none ↦ missing | some s ↦ elim (find table s) [ none ↦ missing | some a ↦ ok a ] ]

unfoldable pub numpy_dtype : Value → Result Scalar
unfolding entry_of as_name find
numpy_dtype name = entry_of numpy_table (fail unsupported_dtype "unsupported dtype") name

unfoldable pub tinygrad_dtype : Value → Result Scalar
unfolding entry_of as_name find
tinygrad_dtype name = entry_of tinygrad_table (fail unsupported_dtype "unsupported dtype") name

found : {A : Type 0} → Option A → Bool
found none = false
found (some a) = true

-- `name in table`
contains_name : {A : Type 0} → List (String × A) → Value → Result Bool
unfolding found
contains_name table name = do
  key ← as_name name
  elim key [ none ↦ ok false | some s ↦ ok (found (find table s)) ]

unfoldable pub is_complex : Value → Result Bool
unfolding contains_name as_name find
is_complex name = contains_name complex_component name

unfoldable pub component_dtype : Value → Result Value
unfolding entry_of as_name find
component_dtype name = do
  component ← entry_of complex_component (fail (python_error "KeyError") "name") name
  ok (string component)

unfoldable pub is_supported : Value → Result Bool
unfolding contains_name as_name find
is_supported name = contains_name numpy_table name

-- The calls of numpy (arrays `A`) and tinygrad (tensors `T`) that the boundary makes.
pub record Library (A T : Type 0) : Type 0 where
  -- np.frombuffer; `.reshape(shape).copy()`; `arr.shape == ()`; `arr.nbytes`
  pub frombuffer : List ℕ → Scalar → Result A
  pub reshape : Value → A → Result A
  pub is_scalar : A → Bool
  pub nbytes : A → ℕ
  -- np.ascontiguousarray; `.tobytes()`; `int(np.prod(shape, dtype="int64"))`; `.itemsize`
  pub contiguous : Scalar → A → Result A
  pub tobytes : A → List ℕ
  pub prod : Items → Result ℕ
  pub itemsize_of : Scalar → ℕ
  -- the real and imaginary parts stacked on a last axis, and folded back
  pub stack_parts : Scalar → A → Result T
  pub fold_parts : Scalar → A → Result A
  -- Tensor(arr), `.bitcast`, `.numpy`, `.clone`, `.realize`, `.contiguous().realize()`, the shape
  pub tensor : A → Result T
  pub bitcast : Scalar → T → Result T
  pub numpy : T → Result A
  pub clone : T → Result T
  pub realize : T → Result T
  pub own : T → Result T
  pub dims : T → List ℕ
  -- The raw copy of a whole buffer, with its preconditions.
  pub transfer : T → Result T
  -- The characters of a string.
  pub characters : String → Items

abbrev is_bf16 : Value → Bool
is_bf16 (string s) = str_eq s "bf16"
is_bf16 v = false

module _ {A T : Type 0} (lib : Library A T) where
  complex_tensor : A → Value → Result T
  complex_tensor arr name = do
    component ← component_dtype name
    comp ← numpy_dtype component
    lib.stack_parts comp arr

  real_tensor : A → Value → Result T
  real_tensor arr name = do
    t ← lib.tensor arr
    if is_bf16 name then lib.bitcast bfloat16 t else ok t

  unfoldable pub wire_tensor : A → Value → Result T
  unfolding complex_tensor real_tensor
  wire_tensor arr name = do
    complex ← is_complex name
    if complex then complex_tensor arr name else real_tensor arr name

  folded : T → Value → Result A
  folded t name = do arr ← lib.numpy t; dtype ← numpy_dtype name; lib.fold_parts dtype arr

  plain_numpy : T → Value → Result A
  unfolding folded
  plain_numpy t name = do complex ← is_complex name; if complex then folded t name else lib.numpy t

  carrier_numpy : T → Result A
  carrier_numpy t = do carrier ← lib.bitcast uint16 t; lib.numpy carrier

  unfoldable pub wire_numpy : T → Value → Result A
  unfolding plain_numpy carrier_numpy
  wire_numpy t name = if is_bf16 name then carrier_numpy t else plain_numpy t name

  unfoldable pub itemsize : Value → Result ℕ
  itemsize name = do dtype ← numpy_dtype name; ok (lib.itemsize_of dtype)
