-- ===== src/Worker/Commands/Execute.antt =====
-- `cmd_execute`
use nx_tinygrad.Base.{ℕ, ◌+◌, ◌-◌, List, [], ◌∷◌, if◌then◌else◌}
use nx_tinygrad.Errors.{ok, raise}
use nx_tinygrad.Json.{Value, string, Items, nil, cons}
use nx_tinygrad.Wire.Integers.{Bytes}
use nx_tinygrad.Dict.{insert}
use nx_tinygrad.Executables.{Executable}
use nx_tinygrad.Dtype.{Library}
use nx_tinygrad.Python.{is_string, get_or, require, iterate}
use nx_tinygrad.Action.{Action, return, lift, ◌>>=◌, ◌>>◌}
use nx_tinygrad.Worker.{Worker, Platform, count_stats, get_executable, put_buffer}
use nx_tinygrad.Worker.Inputs.{input_tensors}
use nx_tinygrad.Worker.Commands.Replies.{Reply, handle_spec, array_spec, outputs_reply}
use nx_tinygrad.Worker.Commands.Contents.{immutable_copy, tensor_bytes, byte_size}

module _ {A T E : Type 0} (platform : Platform A T E) where
  abbrev lib : Library A T
  lib = platform.library

  -- `executable.run(inputs)`, and how many inputs were cloned since. The executable that the
  -- registry holds is the one that changes; its count of clones never goes down.
  unfoldable pub run_executable : Executable E → List T → Action (Worker T E) (List T × ℕ)
  run_executable e inputs w =
      let (outputs, after) = platform.run e inputs w.while_stats in
      let registry = w.exec_registry in
      let clones = after.0.duplicate_input_clones - e.duplicate_input_clones in
      (
        elim outputs [ raise failure ↦ raise failure | ok ts ↦ ok (ts, clones) ],
        record w {
          exec_registry = record registry {
            executables = insert e.id after.0 registry.executables;
          };
          while_stats = after.1;
        },
      )

  -- The loop of host mode over `zip(outputs, output_specs)`.
  unfoldable pub host_outputs : List T → Items → Action (Worker T E) (Items × List Bytes)
  host_outputs [] specs = return (nil, [])
  host_outputs (t ∷ ts) nil = return (nil, [])
  host_outputs (t ∷ ts) (cons ospec specs) = do
    dtype ← lift (require ospec "dtype")
    contents ← tensor_bytes platform t dtype
    shape ← lift (require ospec "shape")
    (rest, blobs) ← host_outputs ts specs
    return (cons (array_spec shape dtype) rest, contents ∷ blobs)

  -- The loop of device mode.
  unfoldable pub device_outputs : List T → Items → Action (Worker T E) Items
  unfolding byte_size
  device_outputs [] specs = return nil
  device_outputs (t ∷ ts) nil = return nil
  device_outputs (t ∷ ts) (cons ospec specs) = do
    copy ← immutable_copy platform t
    shape ← lift (require ospec "shape")
    dims ← lift (iterate lib.characters shape)
    dtype ← lift (require ospec "dtype")
    nbytes ← lift (byte_size platform dims dtype)
    bid ← put_buffer copy dims dtype nbytes
    rest ← device_outputs ts specs
    return (cons (handle_spec bid shape dtype) rest)

  unfoldable pub cmd_execute : Value → List Bytes → Action (Worker T E) Reply
  cmd_execute args blobs = do
    exec_id ← lift (require args "executable_id")
    e ← get_executable exec_id
    output_mode ← lift (get_or args "output" (string "device"))
    inputs ← lift (require args "inputs")
    specs ← lift (iterate lib.characters inputs)
    input ← input_tensors lib specs blobs
    (outputs, clones) ← run_executable e input
    count_stats (λ s. record s {
      duplicate_input_clones = s.duplicate_input_clones + clones;
      execute_count = s.execute_count + 1;
    })
    if is_string "host" output_mode
        then (do
          (shapes, out_blobs) ← host_outputs outputs e.output_specs
          return (outputs_reply shapes, out_blobs))
        else (do
          handles ← device_outputs outputs e.output_specs
          return (outputs_reply handles, []))
