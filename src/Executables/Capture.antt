-- ===== src/Executables/Capture.antt =====
-- priv/worker/executable.py: `_capture` and `_validate_replay`. The graph's function, its capture,
-- the inputs made for it, and what numpy says of the outputs are the fields of `Replay`.
use nx_tinygrad.Base.{ℕ, Bool, true, false, List, [], ◌∷◌, ◌++◌, length, ◌==◌, if◌then◌else◌}
use nx_tinygrad.Errors.{Result, ok, guard, compile_error, ◌>>=◌, ◌>>◌}
use nx_tinygrad.Json.{Value}
use nx_tinygrad.Dtype.{Scalar, Library, is_complex, numpy_dtype, wire_numpy}
use nx_tinygrad.Validate.{same_shape}

-- An entry of `output_specs`
pub record OutputSpec : Type 0 where
  pub shape : List ℕ
  pub dtype : Value

-- `_expected_shape`
unfoldable pub expected_shape : OutputSpec → Result (List ℕ)
expected_shape s = do
  complex ← is_complex s.dtype
  ok (if complex then s.shape ++ (2 ∷ []) else s.shape)

-- Tensors `V`, arrays `A`, specs of inputs `I`.
pub record Replay (V A I : Type 0) : Type 0 where
  -- `_graph_fn`; the calls of `TinyJit` around it, by their number; `_dummy`
  pub graph_fn : List V → Result (List V)
  pub jit : ℕ → List V → Result (List V)
  pub dummy : I → ℕ → Result V
  -- `tensor.shape`; `array.dtype`; `==` of dtypes; `np.issubdtype(dtype, np.floating)`;
  -- `np.array_equal`, with `equal_nan` or without
  pub dims : V → List ℕ
  pub dtype : A → Scalar
  pub same_dtype : Scalar → Scalar → Bool
  pub floating : Scalar → Bool
  pub array_equal : Bool → A → A → Bool

module _ {V A I : Type 0} (lib : Library A V) (r : Replay V A I) where
  -- `np.ascontiguousarray(wire_numpy(tensor, dtype))`, as the array of its elements
  unfoldable pub wire : V → OutputSpec → Result A
  wire v s = wire_numpy lib v s.dtype

  -- `[self._dummy(spec, seed) for spec in self.input_specs]`
  unfoldable pub dummies : List I → ℕ → Result (List V)
  dummies [] seed = ok []
  dummies (i ∷ is) seed = do v ← r.dummy i seed; vs ← dummies is seed; ok (v ∷ vs)

  -- `reference`
  unfoldable pub wire_all : List V → List OutputSpec → Result (List A)
  wire_all [] specs = ok []
  wire_all (v ∷ vs) [] = ok []
  wire_all (v ∷ vs) (s ∷ specs) = do a ← wire v s; rest ← wire_all vs specs; ok (a ∷ rest)

  unfoldable pub check_shapes : List V → List OutputSpec → Result (Unit {0})
  check_shapes [] specs = ok tt
  check_shapes (v ∷ vs) [] = ok tt
  check_shapes (v ∷ vs) (s ∷ specs) = expected_shape s >>= λ shape.
      guard (same_shape (r.dims v) shape) compile_error "captured output shape"
      >> check_shapes vs specs

  -- `_validate_replay`
  unfoldable pub validate_replay : List A → List V → List OutputSpec → Result (Unit {0})
  validate_replay [] vs specs = ok tt
  validate_replay (e ∷ es) [] specs = ok tt
  validate_replay (e ∷ es) (v ∷ vs) [] = ok tt
  validate_replay (e ∷ es) (v ∷ vs) (s ∷ specs) = do
    actual ← wire v s
    expected_dtype ← numpy_dtype s.dtype
    guard (r.same_dtype (r.dtype actual) expected_dtype) compile_error "captured output dtype"
    guard (r.array_equal (r.floating (r.dtype actual)) actual e) compile_error
        "TinyJit replay mismatch"
    validate_replay es vs specs

  check_outputs : List V → List OutputSpec → Result (Unit {0})
  unfolding check_shapes
  check_outputs outs specs =
      guard (length outs == length specs) compile_error "captured outputs"
      >> check_shapes outs specs

  -- The calls with the third inputs, and the checks of their outputs.
  validated : List I → List OutputSpec → Result (Unit {0})
  unfolding wire_all check_outputs validate_replay dummies
  validated inputs specs = do
    third ← dummies inputs 3
    expected ← r.graph_fn third
    reference ← wire_all expected specs
    outs ← r.jit 2 third
    check_outputs outs specs
    validate_replay reference outs specs

  after_calls : Bool → List I → List OutputSpec → List V → Result Bool
  unfolding validated check_outputs
  after_calls true inputs specs outs = do validated inputs specs; ok true
  after_calls false inputs specs outs = do check_outputs outs specs; ok true

  -- `_capture`: whether there is a capture afterwards.
  unfoldable pub capture : Bool → Bool → List I → List OutputSpec → Result Bool
  unfolding after_calls dummies
  capture validate eager [] specs = ok false
  capture validate true (i ∷ inputs) specs = ok false
  capture validate false (i ∷ inputs) specs = do
    first ← dummies (i ∷ inputs) 1
    discarded ← r.jit 0 first
    second ← dummies (i ∷ inputs) 2
    outs ← r.jit 1 second
    after_calls validate (i ∷ inputs) specs outs
