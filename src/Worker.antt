-- ===== src/Worker.antt =====
-- priv/worker/main.py: the state of the `Handler`, and what its commands stand on.
pub mod Inputs
pub mod Commands
pub mod Handle
pub mod Session
pub mod Shutdown
pub mod Buffers
use nx_tinygrad.Base.{ℕ, ◌+◌, String, Bool, true, false, Option, none, some, List, [], ◌∷◌}
use nx_tinygrad.Errors.{Failure, Result, ok, raise, fail, stale_reference}
use nx_tinygrad.Json.{ℤ, Value, Items, Fields}
use nx_tinygrad.Wire.Integers.{Bytes}
use nx_tinygrad.Registry.{TensorRegistry, Buffer}
use nx_tinygrad.Registry as Registry
use nx_tinygrad.Executables.{Executable, ExecutableRegistry}
use nx_tinygrad.Executables as Executables
use nx_tinygrad.Dtype.{Library}
use nx_tinygrad.Action.{Action}
use nx_tinygrad.Python.{as_key}

-- priv/worker/stats.py
pub record Stats : Type 0 where
  pub compile_count : ℕ
  pub execute_count : ℕ
  pub run_node_count : ℕ
  pub upload_bytes : ℕ
  pub download_bytes : ℕ
  pub duplicate_input_clones : ℕ
  pub immutable_copy_fast : ℕ
  pub immutable_copy_fallback : ℕ

abbrev pub no_stats : Stats
no_stats = record {
  compile_count = 0;
  execute_count = 0;
  run_node_count = 0;
  upload_bytes = 0;
  download_bytes = 0;
  duplicate_input_clones = 0;
  immutable_copy_fast = 0;
  immutable_copy_fallback = 0;
}

-- The state of a `Handler`, with the module-wide `WHILE_STATS`.
pub record Worker (T E : Type 0) : Type 0 where
  pub registry : TensorRegistry T
  pub exec_registry : ExecutableRegistry E
  pub stats : Stats
  pub should_stop : Bool
  pub device_info : Option Value
  pub while_stats : Fields

-- A value that a node reads or computes; `complex` is `Cx`.
pub data Operand (T : Type 0) : Type 0 where
  real complex : T → Operand T

-- A node of `run_node`; its inputs are numbered from 0.
pub record EagerNode : Type 0 where
  pub op : String
  pub attrs : Value
  pub shape : Items
  pub dtype : Value

-- What a worker runs on: the libraries, the executables, and the constants of its process.
-- `compile_ms` stands for the time measured.
pub record Platform (A T E : Type 0) : Type 0 where
  pub library : Library A T
  pub python_version : String
  pub tinygrad_version : String
  pub spec : String
  pub generation : ℤ
  pub compile_ms : Value
  pub probe : Result Value
  pub compile_graph : ℕ → Value → List Bytes → Bool → Result (Executable E)
  pub run : Executable E → List T → Fields → Result (List T) × (Executable E × Fields)
  pub apply : EagerNode → List (Operand T) → Result (Operand T)
  pub supported_ops : List String
  pub synchronize : Result (Unit {0})

-- A lookup by key; no key at all is a missing one.
keyed : {R : Type 0} → (ℕ → Result R) → String → Result (Option ℕ) → Result R
keyed get message (raise e) = raise e
keyed get message (ok none) = fail stale_reference message
keyed get message (ok (some k)) = get k

module _ {T E : Type 0} where
  abbrev pub init : Fields → Worker T E
  init while_stats = record {
    registry = Registry.init;
    exec_registry = Executables.init;
    stats = no_stats;
    should_stop = false;
    device_info = none;
    while_stats = while_stats;
  }

  abbrev pub count_stats : (Stats → Stats) → Action (Worker T E) (Unit {0})
  count_stats f w = (ok tt, record w { stats = f w.stats })

  -- `self.registry.get(v)`
  unfoldable pub get_buffer : Value → Action (Worker T E) (Buffer T)
  unfolding keyed
  get_buffer v w = (
    keyed (λ k. Registry.get k w.registry) "buffer is not resident in this worker generation"
        (as_key v),
    w,
  )

  -- `self.exec_registry.get(v)`
  unfoldable pub get_executable : Value → Action (Worker T E) (Executable E)
  unfolding keyed
  get_executable v w =
      (keyed (λ k. Executables.get k w.exec_registry) "executable not found" (as_key v), w)

  -- `self.registry.put(tensor, shape, dtype, nbytes)`
  unfoldable pub put_buffer : T → Items → Value → ℕ → Action (Worker T E) ℕ
  put_buffer tensor shape dtype nbytes w =
      let (i, r) = Registry.put tensor shape dtype nbytes none w.registry in
      (ok i, record w { registry = r })
