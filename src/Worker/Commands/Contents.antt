-- ===== src/Worker/Commands/Contents.antt =====
-- The copies of tensors for outputs, and their bytes.
use nx_tinygrad.Base.{ℕ, ◌+◌, ◌*◌, length}
use nx_tinygrad.Errors.{Result, ok, raise}
use nx_tinygrad.Json.{Value, Items}
use nx_tinygrad.Wire.Integers.{Bytes}
use nx_tinygrad.Dtype.{Library, numpy_dtype, itemsize, wire_numpy}
use nx_tinygrad.Action.{Action, return, lift, ◌>>=◌, ◌>>◌}
use nx_tinygrad.Worker.{Stats, Worker, Platform, count_stats}

abbrev pub count_download : ℕ → Stats → Stats
count_download n s = record s { download_bytes = s.download_bytes + n }

module _ {A T E : Type 0} (platform : Platform A T E) where
  abbrev lib : Library A T
  lib = platform.library

  -- `immutable_copy`
  unfoldable pub copied : Result T → T → Action (Worker T E) T
  copied (ok dst) t = do
    count_stats (λ s. record s { immutable_copy_fast = s.immutable_copy_fast + 1 })
    return dst
  copied (raise e) t = do
    count_stats (λ s. record s { immutable_copy_fallback = s.immutable_copy_fallback + 1 })
    copy ← lift (lib.clone t)
    lift (lib.realize copy)

  unfoldable pub immutable_copy : T → Action (Worker T E) T
  unfolding copied
  immutable_copy t = copied (lib.transfer t) t

  -- `np.ascontiguousarray(wire_numpy(t, dtype), dtype=numpy_dtype(dtype)).tobytes()`
  unfoldable pub tensor_bytes : T → Value → Action (Worker T E) Bytes
  tensor_bytes t dtype = do
    arr ← lift (wire_numpy lib t dtype)
    carrier ← lift (numpy_dtype dtype)
    whole ← lift (lib.contiguous carrier arr)
    count_stats (count_download (length (lib.tobytes whole)))
    return (lib.tobytes whole)

  -- `int(np.prod(shape, dtype="int64")) * numpy_dtype(dtype).itemsize`
  unfoldable pub byte_size : Items → Value → Result ℕ
  byte_size shape dtype = elim (lib.prod shape) [
    | raise e ↦ raise e
    | ok n ↦ elim (itemsize lib dtype) [ raise e ↦ raise e | ok k ↦ ok (n * k) ]
  ]
