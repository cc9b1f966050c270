-- ===== src/Worker/Commands/RunNode.antt =====
-- `cmd_run_node`
use nx_tinygrad.Base.{
  ◌+◌, String, Bool, true, false, not, ◌||◌, ◌&&◌, Option, none, some, List, [], ◌∷◌, if◌then◌else◌,
  str_eq,
}
use nx_tinygrad.Errors.{Result, ok, fail, protocol_error, unsupported_operation}
use nx_tinygrad.Json.{Value, null, array, Items, nil, cons}
use nx_tinygrad.Wire.Integers.{Bytes}
use nx_tinygrad.Dtype.{Library, is_complex, is_supported}
use nx_tinygrad.Python.{truthy, as_name, get_or, require, iterate, same_numbers}
use nx_tinygrad.Action.{Action, return, lift, ◌>>=◌, ◌>>◌}
use nx_tinygrad.Worker.{Worker, Operand, real, complex, Platform, count_stats, put_buffer}
use nx_tinygrad.Worker.Inputs.{input_operands}
use nx_tinygrad.Worker.Commands.Replies.{Reply, num, nothing, handle_spec}
use nx_tinygrad.Worker.Commands.Contents.{byte_size}

module _ {A T E : Type 0} (platform : Platform A T E) where
  abbrev lib : Library A T
  lib = platform.library

  -- Ops with sub-graphs cannot run as one node.
  abbrev has_subgraph : String → Bool
  has_subgraph op = str_eq op "while" || (str_eq op "reduce" || str_eq op "window_reduce")

  listed : List String → String → Bool
  listed [] op = false
  listed (o ∷ ops) op = str_eq o op || listed ops op

  eager_op : Option String → Result String
  unfolding listed
  eager_op none = fail unsupported_operation "run_node does not support op"
  eager_op (some op) =
      if listed platform.supported_ops op && not (has_subgraph op)
      then ok op
      else fail unsupported_operation "run_node does not support op"

  abbrev operand_tensor : Operand T → T
  operand_tensor (real t) = t
  operand_tensor (complex t) = t

  -- `shape + [2] if is_complex(dtype) else shape`
  abbrev stored_shape : Bool → Items → Items
  stored_shape false shape = shape
  stored_shape true nil = cons (num 2) nil
  stored_shape true (cons d shape) = cons d (stored_shape true shape)

  -- `args.get("attrs") or {}`
  abbrev or_empty : Value → Value
  or_empty v = if truthy v then v else nothing

  unfoldable pub cmd_run_node : Value → List Bytes → Action (Worker T E) Reply
  unfolding eager_op byte_size
  cmd_run_node args blobs = do
    named ← lift (get_or args "op" null)
    key ← lift (as_name named)
    op ← lift (eager_op key)
    shape_value ← lift (require args "shape")
    shape ← lift (iterate lib.characters shape_value)
    dtype ← lift (require args "dtype")
    supported ← lift (is_supported dtype)
    lift (if supported then ok tt else fail protocol_error "unsupported dtype")
    inputs ← lift (require args "inputs")
    specs ← lift (iterate lib.characters inputs)
    env ← input_operands lib specs blobs
    attrs ← lift (get_or args "attrs" null)
    result ← lift (
        platform.apply (record { op = op; attrs = or_empty attrs; shape = shape; dtype = dtype })
          env)
    tensor ← lift (lib.own (operand_tensor result))
    is ← lift (is_complex dtype)
    lift (
        if same_numbers (lib.dims tensor) (stored_shape is shape)
        then ok tt
        else fail protocol_error "run_node produced another shape")
    nbytes ← lift (byte_size platform shape dtype)
    buffer_id ← put_buffer tensor shape dtype nbytes
    count_stats (λ s. record s { run_node_count = s.run_node_count + 1 })
    return (handle_spec buffer_id (array shape) dtype, [])
