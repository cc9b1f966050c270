-- ===== src/Ops/Dispatch.antt =====
-- `apply`: which operation of a node is done where. The operations on tensors are parameters.
pub mod Complete
use nx_tinygrad.Base.{
  String, Bool, true, false, ◌||◌, Option, none, some, List, [], ◌∷◌, if◌then◌else◌, str_eq,
}
use nx_tinygrad.Errors.{Result, ok, fail, unsupported_operation, ◌>>=◌}
use nx_tinygrad.Json.{Value}
use nx_tinygrad.Dtype.{is_complex}
use nx_tinygrad.Validate.SubGraph.{listed, unary_ops, binary_ops, comparison_ops}

-- A branch of `apply`; `table` is the entry of `_UNARY`, `_BINARY` or `_COMPARISON` with as many operands.
pub data Route : Type 0 where
  unary binary comparison select reduce argreduce window window_scatter bit_reduce : Route
  reshape squeeze broadcast transpose reverse concatenate slice pad sort argsort gather : Route
  iota put_slice indexed clip stack eye as_type bitcast dot conv triangular_solve : Route

-- The tests of `apply` after those of the three tables, in their order.
abbrev pub branches : List (List String × Route)
branches =
    ("select" ∷ [], select)
    ∷ ("sum" ∷ "product" ∷ "reduce_max" ∷ "reduce_min" ∷ "all" ∷ "any" ∷ [], reduce)
    ∷ ("argmax" ∷ "argmin" ∷ [], argreduce)
    ∷ ("window_sum" ∷ "window_max" ∷ "window_min" ∷ "window_product" ∷ [], window)
    ∷ ("window_scatter_max" ∷ "window_scatter_min" ∷ [], window_scatter)
    ∷ ("count_leading_zeros" ∷ "population_count" ∷ [], bit_reduce)
    ∷ ("reshape" ∷ [], reshape)
    ∷ ("squeeze" ∷ [], squeeze)
    ∷ ("broadcast" ∷ [], broadcast)
    ∷ ("transpose" ∷ [], transpose)
    ∷ ("reverse" ∷ [], reverse)
    ∷ ("concatenate" ∷ [], concatenate)
    ∷ ("slice" ∷ [], slice)
    ∷ ("pad" ∷ [], pad)
    ∷ ("sort" ∷ [], sort)
    ∷ ("argsort" ∷ [], argsort)
    ∷ ("gather" ∷ [], gather)
    ∷ ("iota" ∷ [], iota)
    ∷ ("put_slice" ∷ [], put_slice)
    ∷ ("indexed_add" ∷ "indexed_put" ∷ [], indexed)
    ∷ ("clip" ∷ [], clip)
    ∷ ("stack" ∷ [], stack)
    ∷ ("eye" ∷ [], eye)
    ∷ ("as_type" ∷ [], as_type)
    ∷ ("bitcast" ∷ [], bitcast)
    ∷ ("dot" ∷ [], dot)
    ∷ ("conv" ∷ [], conv)
    ∷ ("triangular_solve" ∷ [], triangular_solve)
    ∷ []

first_branch : List (List String × Route) → String → Option Route
first_branch [] op = none
first_branch ((ops, r) ∷ rest) op = if listed ops op then some r else first_branch rest op

unfoldable pub route : String → Option Route
unfolding first_branch
route op =
    if listed unary_ops op
    then some unary
    else if listed binary_ops op
    then some binary
    else if listed comparison_ops op
    then some comparison
    else first_branch branches op

-- A value of the environment: a tensor, or a `Cx` around one.
pub data Operand (T : Type 0) : Type 0 where
  real : T → Operand T
  cx : T → Operand T

unfoldable pub any_cx : {T : Type 0} → List (Operand T) → Bool
any_cx [] = false
any_cx (real t ∷ ops) = any_cx ops
any_cx (cx t ∷ ops) = true

module _ {T N : Type 0} (op_of : N → String) (dtype_of : N → Value)
    (apply_complex : N → List (Operand T) → Result (Operand T))
    (run : Route → N → List (Operand T) → Result T) (cast cast_component : N → T → Result T) where
  cast_complex : N → Operand T → Result (Operand T)
  cast_complex node (real t) = do result ← cast node t; ok (real result)
  cast_complex node (cx t) = do result ← cast_component node t; ok (cx result)

  run_route : N → Option Route → List (Operand T) → Result (Operand T)
  run_route node none ins = fail unsupported_operation "unsupported Nx operation"
  run_route node (some r) ins = do t ← run r node ins; result ← cast node t; ok (real result)

  unfoldable pub apply : N → List (Operand T) → Result (Operand T)
  unfolding route any_cx cast_complex run_route
  apply node ins = do
    complex ← is_complex (dtype_of node)
    if complex || any_cx ins
        then (apply_complex node ins >>= cast_complex node)
        else run_route node (route (op_of node)) ins
