-- ===== src/Worker/Commands.antt =====
-- The commands of the `Handler`: each takes `args` and the blobs, changes the state, and returns a
-- result with blobs, or raises.
pub mod Replies
pub mod Contents
pub mod Execute
pub mod RunNode
use nx_tinygrad.Base.{
  ℕ, ◌+◌, Bool, true, false, ◌||◌, Option, none, some, List, [], ◌∷◌, if◌then◌else◌,
}
use nx_tinygrad.Errors.{ok, raise, fail, protocol_error}
use nx_tinygrad.Json.{Value, null, bool, int, string, array, object, Items, nil, Fields, end, field}
use nx_tinygrad.Wire.Integers.{Bytes}
use nx_tinygrad.Registry as Registry
use nx_tinygrad.Executables.{Executable}
use nx_tinygrad.Executables as Executables
use nx_tinygrad.Dtype.{Library}
use nx_tinygrad.Python.{truthy, is_number, get_or, require, iterate, keys_of, update}
use nx_tinygrad.Action.{Action, return, lift, ◌>>=◌, ◌>>◌}
use nx_tinygrad.Worker.{Stats, Worker, Platform, count_stats, get_buffer, put_buffer}
use nx_tinygrad.Worker.Inputs.{count_upload, load_array, own_tensor}
pub use nx_tinygrad.Worker.Commands.Replies.{Reply}
use nx_tinygrad.Worker.Commands.Replies.{num, nothing, handle_spec, array_spec}
unfoldable pub use nx_tinygrad.Worker.Commands.Contents.{immutable_copy, copied, tensor_bytes}
unfoldable pub use nx_tinygrad.Worker.Commands.Execute.{
  run_executable, host_outputs, device_outputs, cmd_execute,
}
unfoldable pub use nx_tinygrad.Worker.Commands.RunNode.{cmd_run_node}

unfoldable pub stats_fields : Stats → Fields
stats_fields s = field "compile_count" (num s.compile_count) (
    field "execute_count" (num s.execute_count) (
      field "run_node_count" (num s.run_node_count) (
        field "upload_bytes" (num s.upload_bytes) (
          field "download_bytes" (num s.download_bytes) (
            field "duplicate_input_clones" (num s.duplicate_input_clones) (
              field "immutable_copy_fast" (num s.immutable_copy_fast)
                (field "immutable_copy_fallback" (num s.immutable_copy_fallback) end)))))))

module _ {A T E : Type 0} (platform : Platform A T E) where
  abbrev lib : Library A T
  lib = platform.library

  hello_reply : Value
  hello_reply = object (
      field "protocol_version" (num 1) (
        field "worker_version" (string "0.1.0") (
          field "python_version" (string platform.python_version) (
            field "tinygrad_version" (string platform.tinygrad_version) (
              field "tinygrad_commit" (string platform.tinygrad_version) (
                field "device" (string platform.spec)
                  (field "generation" (int platform.generation) end)))))))

  abbrev is_null : Value → Bool
  is_null null = true
  is_null v = false

  unfoldable pub cmd_hello : Value → Action (Worker T E) Reply
  unfolding hello_reply
  cmd_hello args = do
    client_version ← lift (get_or args "protocol_version" null)
    if is_null client_version || is_number 1 client_version
        then return (hello_reply, [])
        else lift (fail protocol_error "protocol version mismatch")

  -- The first probe that succeeds is kept.
  unfoldable pub probe_device : Option Value → Action (Worker T E) Reply
  probe_device (some info) = return (info, [])
  probe_device none = do
    info ← lift platform.probe
    λ w. (ok (info, []), record w { device_info = some info })

  unfoldable pub cmd_device_info : Action (Worker T E) Reply
  unfolding probe_device
  cmd_device_info w = probe_device w.device_info w

  compiled : Executable E → Reply
  compiled e = (
    object (
        field "executable_id" (num e.id) (
          field "input_specs" (array e.input_specs) (
            field "output_specs" (array e.output_specs) (
              field "compile_ms" platform.compile_ms
                (field "kernel_count" (num e.kernel_count) end))))),
    [],
  )

  unfoldable pub allocate_executable : Action (Worker T E) ℕ
  allocate_executable w =
      let (i, r) = Executables.allocate_id w.exec_registry in (ok i, record w { exec_registry = r })

  unfoldable pub put_executable : Executable E → Action (Worker T E) (Unit {0})
  put_executable e w = (ok tt, record w { exec_registry = Executables.put e w.exec_registry })

  unfoldable pub cmd_compile : Value → List Bytes → Action (Worker T E) Reply
  unfolding compiled
  cmd_compile args blobs = do
    graph ← lift (require args "graph")
    validate ← lift (get_or args "validate_capture" (bool true))
    exec_id ← allocate_executable
    e ← lift (platform.compile_graph exec_id graph blobs (truthy validate))
    put_executable e
    count_stats (λ s. record s { compile_count = s.compile_count + 1 })
    return (compiled e)

  unfoldable pub upload_blob : Value → Bytes → Action (Worker T E) Reply
  upload_blob args blob = do
    shape_value ← lift (require args "shape")
    shape ← lift (iterate lib.characters shape_value)
    dtype ← lift (require args "dtype")
    arr ← load_array lib blob dtype (ok (array shape))
    t ← own_tensor lib arr dtype
    buffer_id ← put_buffer t shape dtype (lib.nbytes arr)
    count_stats (count_upload (lib.nbytes arr))
    return (handle_spec buffer_id (array shape) dtype, [])

  unfoldable pub cmd_upload : Value → List Bytes → Action (Worker T E) Reply
  unfolding upload_blob
  cmd_upload args [] = lift (fail protocol_error "upload requires a tensor blob")
  cmd_upload args (blob ∷ blobs) = upload_blob args blob

  unfoldable pub cmd_download : Value → Action (Worker T E) Reply
  cmd_download args = do
    id ← lift (require args "id")
    buffer ← get_buffer id
    contents ← tensor_bytes platform buffer.tensor buffer.dtype
    return (array_spec (array buffer.shape) buffer.dtype, contents ∷ [])

  abbrev released : ℕ → Reply
  released n = (object (field "released" (num n) end), [])

  -- `registry.release(ids)`: what comes before an id that raises is released.
  unfoldable pub release_buffers : Items → Action (Worker T E) ℕ
  release_buffers ids w =
      let (ks, outcome) = keys_of ids in
      let (removed, r) = Registry.release ks w.registry in
      (elim outcome [ raise e ↦ raise e | ok done ↦ ok removed ], record w { registry = r })

  unfoldable pub cmd_release : Value → Action (Worker T E) Reply
  cmd_release args = do
    ids ← lift (get_or args "ids" (array nil))
    items ← lift (iterate lib.characters ids)
    removed ← release_buffers items
    return (released removed)

  unfoldable pub release_executables : Items → Action (Worker T E) ℕ
  release_executables ids w =
      let (ks, outcome) = keys_of ids in
      let (removed, r) = Executables.release ks w.exec_registry in
      (elim outcome [ raise e ↦ raise e | ok done ↦ ok removed ], record w { exec_registry = r })

  unfoldable pub cmd_release_executable : Value → Action (Worker T E) Reply
  cmd_release_executable args = do
    ids ← lift (get_or args "ids" (array nil))
    items ← lift (iterate lib.characters ids)
    removed ← release_executables items
    return (released removed)

  unfoldable pub cmd_stats : Action (Worker T E) Reply
  cmd_stats w = (
    ok (
      object (
          update (update (stats_fields w.stats) w.while_stats) (
            field "buffer_count" (num (Registry.count w.registry)) (
              field "buffer_bytes" (num (Registry.total_bytes w.registry)) (
                field "executable_count" (num (Executables.count w.exec_registry))
                  (field "generation" (int platform.generation) end))))),
      [],
    ),
    w,
  )

  unfoldable pub cmd_synchronize : Action (Worker T E) Reply
  cmd_synchronize = do lift platform.synchronize; return (nothing, [])

  unfoldable pub cmd_shutdown : Action (Worker T E) Reply
  cmd_shutdown w = (ok (nothing, []), record w { should_stop = true })
