-- ===== src/Worker/Buffers.antt =====
-- What every command does to the buffers' registry: it stays well formed, and its next id never goes
-- back.
use nx_tinygrad.Base.{
  ℕ, ◌≤◌, Bool, true, false, Option, none, some, List, [], ◌∷◌, arith, if◌then◌else◌,
}
use nx_tinygrad.Errors.{Result, ok, raise}
use nx_tinygrad.Json.{Value, Items, nil, cons}
use nx_tinygrad.Wire.Integers.{Bytes}
use nx_tinygrad.Registry.{TensorRegistry, put, release as release_ids}
use nx_tinygrad.Registry.Laws.{IsWellFormed, put-IsWellFormed, release-IsWellFormed}
use nx_tinygrad.Dtype.{Library}
use nx_tinygrad.Executables.{Executable}
use nx_tinygrad.Action.{Action, return, lift, proceed, ◌>>=◌, ◌>>◌}
use nx_tinygrad.Python.{keys_of}
use nx_tinygrad.Worker.{
  Worker, Stats, Platform, get_buffer, get_executable, put_buffer, count_stats,
}
use nx_tinygrad.Worker.Inputs.{
  load_array, own_tensor, blob_tensor, handle_tensor, input_tensor, input_tensors, blob_operand,
  handle_operand, input_operand, input_operands,
}
use nx_tinygrad.Worker.Commands.{
  cmd_hello, cmd_device_info, probe_device, cmd_compile, allocate_executable, put_executable,
  cmd_execute, run_executable, immutable_copy, copied, tensor_bytes, host_outputs, device_outputs,
  cmd_run_node, cmd_upload, upload_blob, cmd_download, cmd_release, release_buffers,
  cmd_release_executable, release_executables, cmd_stats, cmd_synchronize, cmd_shutdown,
}
use nx_tinygrad.Worker.Handle.{
  Command, hello, device_info, compile, execute, run_node, upload, download, release,
  release_executable, stats, synchronize, shutdown, run_command,
}

-- The registry stays well formed, and no id comes back.
abbrev pub Advances : {T : Type 0} → TensorRegistry T → TensorRegistry T → Type 0
Advances r r' = IsWellFormed r → IsWellFormed r' × (r.next_id ≤ r'.next_id)

Advances-trans :
    {T : Type 0} (a b c : TensorRegistry T) → Advances a b → Advances b c → Advances a c
Advances-trans a b c f g w = let (v, h) = f w in let (u, k) = g v in (u, omega arith)

pub record Keeps {T E R : Type 0} (m : Action (Worker T E) R) : Type 0 where
  pub at : (w : Worker T E) → Advances w.registry (m w).1.registry

module _ {T E R : Type 0} where
  Keeps-return : (t : R) → Keeps {T = T} {E = E} (return t)
  unfolding return
  Keeps-return t = record { at = λ w h. (h, omega arith) }

  Keeps-lift : (r : Result R) → Keeps {T = T} {E = E} (lift r)
  unfolding lift
  Keeps-lift r = record { at = λ w h. (h, omega arith) }

  Keeps-if :
      (b : Bool) (m n : Action (Worker T E) R) → Keeps m → Keeps n → Keeps (if b then m else n)
  Keeps-if true m n h k = h
  Keeps-if false m n h k = k

module _ {T E R Q : Type 0} where
  Keeps-proceed :
      (m : Action (Worker T E) R) (next : R → Action (Worker T E) Q)
      → Keeps m
      → ((t : R) → Keeps (next t))
      → Keeps (m >>= next)
  unfolding ◌>>=◌
  Keeps-proceed m next h k = record { at = λ w. step w (m w) (h.at w) }
    where
      step :
          (w : Worker T E) (p : Result R × Worker T E)
          → Advances w.registry p.1.registry
          → Advances w.registry (proceed next p).1.registry
      step w (raise e, w') f = f
      step w (ok t, w') f = Advances-trans _ _ _ f ((k t).at w')

module _ {T E Q : Type 0} where
  Keeps-then :
      (m : Action (Worker T E) (Unit {0})) (next : Action (Worker T E) Q)
      → Keeps m
      → Keeps next
      → Keeps (m >> next)
  unfolding ◌>>◌
  Keeps-then m next h k = Keeps-proceed m (λ done. next) h (λ t. k)

module _ {T E : Type 0} where
  Keeps-count : (f : Stats → Stats) → Keeps {T = T} {E = E} (count_stats f)
  Keeps-count f = record { at = λ w h. (h, omega arith) }

  Keeps-get_buffer : (v : Value) → Keeps {T = T} {E = E} (get_buffer v)
  unfolding get_buffer
  Keeps-get_buffer v = record { at = λ w h. (h, omega arith) }

  Keeps-get_executable : (v : Value) → Keeps {T = T} {E = E} (get_executable v)
  unfolding get_executable
  Keeps-get_executable v = record { at = λ w h. (h, omega arith) }

  Keeps-put_buffer :
      (t : T) (shape : Items) (dtype : Value) (n : ℕ)
      → Keeps {T = T} {E = E} (put_buffer t shape dtype n)
  unfolding put_buffer put
  Keeps-put_buffer t shape dtype n = record {
    at = λ w h. (put-IsWellFormed t shape dtype n w.registry h, omega arith);
  }

ruleset keeps = (
  Keeps-return, Keeps-lift, Keeps-if, Keeps-proceed, Keeps-then, Keeps-count, Keeps-get_buffer,
  Keeps-get_executable, Keeps-put_buffer,
)

module _ {A T E : Type 0} (lib : Library A T) where
  Keeps-blob_tensor :
      (spec : Value) (blobs : List Bytes) → Keeps {T = T} {E = E} (blob_tensor lib spec blobs)
  unfolding blob_tensor load_array own_tensor
  Keeps-blob_tensor spec blobs = search keeps depth 30

  Keeps-input_tensor :
      (spec : Value) (blobs : List Bytes) → Keeps {T = T} {E = E} (input_tensor lib spec blobs)
  unfolding input_tensor handle_tensor
  Keeps-input_tensor spec blobs = search (keeps, Keeps-blob_tensor) depth 30

  Keeps-input_tensors :
      (specs : Items) (blobs : List Bytes) → Keeps {T = T} {E = E} (input_tensors lib specs blobs)
  unfolding input_tensors
  Keeps-input_tensors nil blobs = search keeps
  Keeps-input_tensors (cons spec specs) blobs =
      Keeps-proceed _ _ (Keeps-input_tensor spec blobs)
        (λ t. Keeps-proceed _ _ (Keeps-input_tensors specs blobs) (λ ts. Keeps-return _))

  Keeps-blob_operand :
      (spec : Value) (blobs : List Bytes) → Keeps {T = T} {E = E} (blob_operand lib spec blobs)
  unfolding blob_operand load_array
  Keeps-blob_operand spec blobs = search keeps depth 30

  Keeps-input_operand :
      (spec : Value) (blobs : List Bytes) → Keeps {T = T} {E = E} (input_operand lib spec blobs)
  unfolding input_operand handle_operand
  Keeps-input_operand spec blobs = search (keeps, Keeps-blob_operand) depth 30

  Keeps-input_operands :
      (specs : Items) (blobs : List Bytes) → Keeps {T = T} {E = E} (input_operands lib specs blobs)
  unfolding input_operands
  Keeps-input_operands nil blobs = search keeps
  Keeps-input_operands (cons spec specs) blobs =
      Keeps-proceed _ _ (Keeps-input_operand spec blobs)
        (λ t. Keeps-proceed _ _ (Keeps-input_operands specs blobs) (λ ts. Keeps-return _))

module _ {A T E : Type 0} (platform : Platform A T E) where
  Keeps-probe_device : (info : Option Value) → Keeps (probe_device platform info)
  unfolding probe_device
  Keeps-probe_device (some info) = search keeps
  Keeps-probe_device none =
      Keeps-proceed _ _ (Keeps-lift platform.probe)
        (λ info. record { at = λ w h. (h, omega arith) })

  Keeps-cmd_device_info : Keeps (cmd_device_info platform)
  unfolding cmd_device_info
  Keeps-cmd_device_info = record { at = λ w. (Keeps-probe_device w.device_info).at w }

  Keeps-allocate_executable : Keeps (allocate_executable platform)
  unfolding allocate_executable
  Keeps-allocate_executable = record { at = λ w h. (h, omega arith) }

  Keeps-put_executable : (e : Executable E) → Keeps (put_executable platform e)
  unfolding put_executable
  Keeps-put_executable e = record { at = λ w h. (h, omega arith) }

  Keeps-cmd_compile : (args : Value) (blobs : List Bytes) → Keeps (cmd_compile platform args blobs)
  unfolding cmd_compile
  Keeps-cmd_compile args blobs =
      search (keeps, Keeps-allocate_executable, Keeps-put_executable) depth 30

  Keeps-run_executable :
      (e : Executable E) (inputs : List T) → Keeps (run_executable platform e inputs)
  unfolding run_executable
  Keeps-run_executable e inputs = record { at = λ w h. (h, omega arith) }

  Keeps-copied : (r : Result T) (t : T) → Keeps (copied platform r t)
  unfolding copied
  Keeps-copied (ok dst) t = search keeps depth 12
  Keeps-copied (raise e) t = search keeps depth 12

  Keeps-immutable_copy : (t : T) → Keeps (immutable_copy platform t)
  unfolding immutable_copy
  Keeps-immutable_copy t = Keeps-copied (platform.library.transfer t) t

  Keeps-tensor_bytes : (t : T) (dtype : Value) → Keeps (tensor_bytes platform t dtype)
  unfolding tensor_bytes
  Keeps-tensor_bytes t dtype = search keeps depth 20

  Keeps-host_outputs : (ts : List T) (specs : Items) → Keeps (host_outputs platform ts specs)
  unfolding host_outputs
  Keeps-host_outputs [] specs = Keeps-return _
  Keeps-host_outputs (t ∷ ts) nil = Keeps-return _
  Keeps-host_outputs (t ∷ ts) (cons ospec specs) = Keeps-proceed _ _ (Keeps-lift _) (λ dtype.
      Keeps-proceed _ _ (Keeps-tensor_bytes t dtype) (λ contents.
        Keeps-proceed _ _ (Keeps-lift _)
          (λ shape. Keeps-proceed _ _ (Keeps-host_outputs ts specs) (λ rest. Keeps-return _))))

  Keeps-device_outputs : (ts : List T) (specs : Items) → Keeps (device_outputs platform ts specs)
  unfolding device_outputs
  Keeps-device_outputs [] specs = Keeps-return _
  Keeps-device_outputs (t ∷ ts) nil = Keeps-return _
  Keeps-device_outputs (t ∷ ts) (cons ospec specs) =
      Keeps-proceed _ _ (Keeps-immutable_copy t) (λ copy. Keeps-proceed _ _ (Keeps-lift _) (λ shape.
        Keeps-proceed _ _ (Keeps-lift _) (λ dims. Keeps-proceed _ _ (Keeps-lift _) (λ dtype.
          Keeps-proceed _ _ (Keeps-lift _) (λ nbytes.
            Keeps-proceed _ _ (Keeps-put_buffer copy dims dtype nbytes) (λ bid.
              Keeps-proceed _ _ (Keeps-device_outputs ts specs) (λ rest. Keeps-return _)))))))

  Keeps-cmd_execute : (args : Value) (blobs : List Bytes) → Keeps (cmd_execute platform args blobs)
  unfolding cmd_execute
  Keeps-cmd_execute args blobs =
      search
        (
          keeps,
          Keeps-input_tensors platform.library,
          Keeps-run_executable,
          Keeps-host_outputs,
          Keeps-device_outputs,
        )
        depth 40

  Keeps-cmd_run_node :
      (args : Value) (blobs : List Bytes) → Keeps (cmd_run_node platform args blobs)
  unfolding cmd_run_node
  Keeps-cmd_run_node args blobs = search (keeps, Keeps-input_operands platform.library) depth 60

  Keeps-cmd_upload : (args : Value) (blobs : List Bytes) → Keeps (cmd_upload platform args blobs)
  unfolding cmd_upload upload_blob load_array own_tensor
  Keeps-cmd_upload args [] = search keeps
  Keeps-cmd_upload args (blob ∷ blobs) = search keeps depth 40

  Keeps-cmd_download : (args : Value) → Keeps (cmd_download platform args)
  unfolding cmd_download
  Keeps-cmd_download args = search (keeps, Keeps-tensor_bytes) depth 20

  Keeps-release_buffers : (ids : Items) → Keeps (release_buffers platform ids)
  unfolding release_buffers release_ids
  Keeps-release_buffers ids = record {
    at = λ w h. (release-IsWellFormed (keys_of ids).0 w.registry h, omega arith);
  }

  Keeps-release_executables : (ids : Items) → Keeps (release_executables platform ids)
  unfolding release_executables
  Keeps-release_executables ids = record { at = λ w h. (h, omega arith) }

  Keeps-cmd_stats : Keeps (cmd_stats platform)
  unfolding cmd_stats
  Keeps-cmd_stats = record { at = λ w h. (h, omega arith) }

  Keeps-cmd_shutdown : Keeps (cmd_shutdown platform)
  unfolding cmd_shutdown
  Keeps-cmd_shutdown = record { at = λ w h. (h, omega arith) }

  -- Whatever a command is given, and whether it returns or raises, the buffers' registry stays
  -- well formed if it was, and its next id does not go back.
  pub run_command-Keeps :
      (c : Command) (args : Value) (blobs : List Bytes) → Keeps (run_command platform c args blobs)
  unfolding run_command cmd_hello cmd_synchronize cmd_release cmd_release_executable
  run_command-Keeps hello args blobs = search keeps depth 20
  run_command-Keeps device_info args blobs = Keeps-cmd_device_info
  run_command-Keeps compile args blobs = Keeps-cmd_compile args blobs
  run_command-Keeps execute args blobs = Keeps-cmd_execute args blobs
  run_command-Keeps run_node args blobs = Keeps-cmd_run_node args blobs
  run_command-Keeps upload args blobs = Keeps-cmd_upload args blobs
  run_command-Keeps download args blobs = Keeps-cmd_download args
  run_command-Keeps release args blobs = search (keeps, Keeps-release_buffers) depth 20
  run_command-Keeps release_executable args blobs =
      search (keeps, Keeps-release_executables) depth 20
  run_command-Keeps stats args blobs = Keeps-cmd_stats
  run_command-Keeps synchronize args blobs = search keeps depth 20
  run_command-Keeps shutdown args blobs = Keeps-cmd_shutdown
