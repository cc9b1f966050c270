-- ===== src/Worker/Inputs.antt =====
-- The inputs of `cmd_execute` and `cmd_run_node`, and the tensors of `cmd_upload`.
use nx_tinygrad.Base.{ℕ, ◌+◌, Bool, true, false, List, [], ◌∷◌, length, if◌then◌else◌}
use nx_tinygrad.Errors.{Result, ok, fail, protocol_error}
use nx_tinygrad.Json.{Value, null, Items, nil, cons}
use nx_tinygrad.Wire.Integers.{Bytes}
use nx_tinygrad.Dtype.{Library, numpy_dtype, is_complex, wire_tensor}
use nx_tinygrad.Python.{get_or, require, index, is_string}
use nx_tinygrad.Action.{Action, return, lift, ◌>>=◌, ◌>>◌}
use nx_tinygrad.Worker.{Worker, Stats, Operand, real, complex, get_buffer, count_stats}

-- `stats.upload_bytes += n`
abbrev pub count_upload : ℕ → Stats → Stats
count_upload n s = record s { upload_bytes = s.upload_bytes + n }

abbrev pub operand : {T : Type 0} → Bool → T → Operand T
operand true t = complex t
operand false t = real t

module _ {A T E : Type 0} (lib : Library A T) where
  -- `np.frombuffer(blob, dtype=numpy_dtype(dtype)).reshape(shape).copy()`
  unfoldable pub load_array : Bytes → Value → Result Value → Action (Worker T E) A
  load_array blob dtype shape = do
    carrier ← lift (numpy_dtype dtype)
    flat ← lift (lib.frombuffer blob carrier)
    dims ← lift shape
    lift (lib.reshape dims flat)

  -- A scalar is cloned, so that it has a buffer of its own; then it is realized.
  unfoldable pub own_tensor : A → Value → Action (Worker T E) T
  own_tensor arr dtype = do
    t ← lift (wire_tensor lib arr dtype)
    owned ← lift (if lib.is_scalar arr then lib.clone t else ok t)
    lift (lib.realize owned)

  unfoldable pub blob_tensor : Value → List Bytes → Action (Worker T E) T
  unfolding load_array own_tensor
  blob_tensor spec blobs = do
    at ← lift (require spec "blob_index")
    blob ← lift (index blobs at)
    dtype ← lift (require spec "dtype")
    arr ← load_array blob dtype (require spec "shape")
    own_tensor arr dtype

  unfoldable pub handle_tensor : Value → Action (Worker T E) T
  handle_tensor spec = do
    id ← lift (require spec "id")
    buffer ← get_buffer id
    return buffer.tensor

  -- One round of the loop over the inputs of `execute`.
  unfoldable pub input_tensor : Value → List Bytes → Action (Worker T E) T
  unfolding blob_tensor handle_tensor
  input_tensor spec blobs = do
    kind ← lift (get_or spec "kind" null)
    if is_string "handle" kind
        then handle_tensor spec
        else if is_string "blob" kind
        then blob_tensor spec blobs
        else lift (fail protocol_error "unknown input kind")

  unfoldable pub input_tensors : Items → List Bytes → Action (Worker T E) (List T)
  unfolding input_tensor
  input_tensors nil blobs = return []
  input_tensors (cons spec specs) blobs = do
    t ← input_tensor spec blobs
    ts ← input_tensors specs blobs
    return (t ∷ ts)

  unfoldable pub blob_operand : Value → List Bytes → Action (Worker T E) (Operand T)
  unfolding load_array
  blob_operand spec blobs = do
    at ← lift (require spec "blob_index")
    blob ← lift (index blobs at)
    dtype ← lift (require spec "dtype")
    arr ← load_array blob dtype (require spec "shape")
    t ← lift (wire_tensor lib arr dtype)
    owned ← lift (lib.realize t)
    is ← lift (is_complex dtype)
    count_stats (count_upload (length blob))
    return (operand is owned)

  unfoldable pub handle_operand : Value → Action (Worker T E) (Operand T)
  handle_operand spec = do
    id ← lift (require spec "id")
    buffer ← get_buffer id
    is ← lift (is_complex buffer.dtype)
    return (operand is buffer.tensor)

  -- One round of the loop over the inputs of `run_node`.
  unfoldable pub input_operand : Value → List Bytes → Action (Worker T E) (Operand T)
  unfolding blob_operand handle_operand
  input_operand spec blobs = do
    kind ← lift (get_or spec "kind" null)
    if is_string "handle" kind
        then handle_operand spec
        else if is_string "blob" kind
        then blob_operand spec blobs
        else lift (fail protocol_error "unknown input kind")

  unfoldable pub input_operands : Items → List Bytes → Action (Worker T E) (List (Operand T))
  unfolding input_operand
  input_operands nil blobs = return []
  input_operands (cons spec specs) blobs = do
    o ← input_operand spec blobs
    os ← input_operands specs blobs
    return (o ∷ os)
