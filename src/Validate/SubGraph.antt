-- ===== src/Validate/SubGraph.antt =====
-- priv/worker/graph.py: `_check` and `_validate_subgraph`.
use nx_tinygrad.Base.{
  String, Bool, true, false, ◌||◌, Option, none, some, List, [], ◌∷◌, leb, if◌then◌else◌, str_eq,
}
use nx_tinygrad.Errors.{Result, ok, fail, guard, graph_validation_error, python_error, ◌>>=◌, ◌>>◌}
use nx_tinygrad.Json.{Value, null, array, object, Items, nil, cons, Fields, end, field, get}
use nx_tinygrad.Python.{as_name, items_length}

-- `_check`
abbrev pub check : Bool → String → Result (Unit {0})
check test message = guard test graph_validation_error message

-- `d.get(k)`, where `None` stands for a missing key; of a value that is no dict, too.
abbrev pub value_of : Value → String → Value
value_of (object d) k = elim (get d k) [ none ↦ null | some v ↦ v ]
value_of v k = null

abbrev pub is_list : Value → Bool
is_list (array l) = true
is_list v = false

abbrev pub list_of : Value → Items
list_of (array l) = l
list_of v = nil

unfoldable pub listed : List String → String → Bool
listed [] op = false
listed (o ∷ ops) op = str_eq o op || listed ops op

-- The keys of `_UNARY`, `_BINARY` and `_COMPARISON`, and the other names of `SUPPORTED_OPS`.
abbrev pub unary_ops : List String
unary_ops =
    "negate" ∷ "abs" ∷ "exp" ∷ "expm1" ∷ "log" ∷ "log1p" ∷ "sqrt" ∷ "rsqrt" ∷ "tanh" ∷ "sigmoid"
    ∷ "sin" ∷ "cos" ∷ "tan" ∷ "asin" ∷ "acos" ∷ "atan" ∷ "sinh" ∷ "cosh" ∷ "asinh" ∷ "acosh"
    ∷ "atanh" ∷ "erf" ∷ "erfc" ∷ "erf_inv" ∷ "conjugate" ∷ "cbrt" ∷ "sign" ∷ "round" ∷ "is_nan"
    ∷ "is_infinity" ∷ "bitwise_not" ∷ "floor" ∷ "ceil" ∷ []

abbrev pub binary_ops : List String
binary_ops =
    "add" ∷ "subtract" ∷ "multiply" ∷ "divide" ∷ "pow" ∷ "max" ∷ "min" ∷ "remainder" ∷ "quotient"
    ∷ "atan2" ∷ "bitwise_and" ∷ "bitwise_or" ∷ "bitwise_xor" ∷ "left_shift" ∷ "right_shift"
    ∷ "logical_and" ∷ "logical_or" ∷ "logical_xor" ∷ []

abbrev pub comparison_ops : List String
comparison_ops = "equal" ∷ "not_equal" ∷ "less" ∷ "less_equal" ∷ "greater" ∷ "greater_equal" ∷ []

abbrev pub other_ops : List String
other_ops =
    "select" ∷ "sum" ∷ "product" ∷ "reduce_max" ∷ "reduce_min" ∷ "all" ∷ "any" ∷ "argmax" ∷ "argmin"
    ∷ "window_sum" ∷ "window_max" ∷ "window_min" ∷ "window_product" ∷ "window_scatter_max"
    ∷ "window_scatter_min" ∷ "count_leading_zeros" ∷ "population_count" ∷ "reshape" ∷ "squeeze"
    ∷ "broadcast" ∷ "transpose" ∷ "reverse" ∷ "concatenate" ∷ "slice" ∷ "as_type" ∷ "bitcast"
    ∷ "dot" ∷ "conv" ∷ "triangular_solve" ∷ "pad" ∷ "sort" ∷ "argsort" ∷ "gather" ∷ "iota" ∷ "clip"
    ∷ "stack" ∷ "eye" ∷ "put_slice" ∷ "indexed_add" ∷ "indexed_put" ∷ "while" ∷ "fft" ∷ "ifft"
    ∷ "real" ∷ "imag" ∷ "reduce" ∷ "window_reduce" ∷ []

-- `op in SUPPORTED_OPS`
unfoldable pub is_supported_op : String → Bool
unfolding listed
is_supported_op op =
    listed unary_ops op
    || (listed binary_ops op || (listed comparison_ops op || listed other_ops op))

supported_name : Option String → Result String
supported_name none = fail graph_validation_error "unsupported Nx operation"
supported_name (some op) =
    if is_supported_op op then ok op else fail graph_validation_error "unsupported Nx operation"

-- The check of a node's "op".
unfoldable pub read_op : Value → Result String
unfolding supported_name
read_op v = do key ← as_name v; supported_name key

-- The lists of a sub-graph, and its outputs.
check_lists : Fields → Result (Unit {0})
check_lists d = do
  check (is_list (value_of (object d) "inputs")) "while sub-graph.inputs must be a list"
  check (is_list (value_of (object d) "constants")) "while sub-graph.constants must be a list"
  check (is_list (value_of (object d) "nodes")) "while sub-graph.nodes must be a list"
  check (is_list (value_of (object d) "outputs")) "while sub-graph.outputs must be a list"
  check (leb 1 (items_length (list_of (value_of (object d) "outputs"))))
      "while sub-graph must have at least one output"

-- `_validate_subgraph`. The lookups of "nodes", "attrs", "cond" and "body" walk the dict, so that the
-- recursion is on a part of the value.
unfoldable mutual
  unfolding check_lists

  pub validate_subgraph : Value → Result (Unit {0})
  validate_subgraph (object d) = check_lists d >> validate_nodes d
  validate_subgraph v = fail graph_validation_error "while sub-graph must be an object"

  pub validate_nodes : Fields → Result (Unit {0})
  validate_nodes end = ok tt
  validate_nodes (field k v d) =
      let here = validate_node_list v in
      let later = validate_nodes d in if str_eq k "nodes" then here else later

  pub validate_node_list : Value → Result (Unit {0})
  validate_node_list (array l) = validate_sub_nodes l
  validate_node_list v = ok tt

  pub validate_sub_nodes : Items → Result (Unit {0})
  validate_sub_nodes nil = ok tt
  validate_sub_nodes (cons v l) = validate_sub_node v >> validate_sub_nodes l

  pub validate_sub_node : Value → Result (Unit {0})
  validate_sub_node (object d) =
      let cond = validate_attr "cond" d in
      let body = validate_attr "body" d in
      read_op (value_of (object d) "op") >>= λ op. if str_eq op "while" then cond >> body else ok tt
  validate_sub_node v = fail (python_error "AttributeError") "object has no attribute 'get'"

  -- `_validate_subgraph(node["attrs"].get(key))`
  pub validate_attr : String → Fields → Result (Unit {0})
  validate_attr key end = fail (python_error "KeyError") "attrs"
  validate_attr key (field k v d) =
      let here = validate_in key v in
      let later = validate_attr key d in if str_eq k "attrs" then here else later

  pub validate_in : String → Value → Result (Unit {0})
  validate_in key (object a) = validate_at key a
  validate_in key v = fail (python_error "AttributeError") "object has no attribute 'get'"

  pub validate_at : String → Fields → Result (Unit {0})
  validate_at key end = fail graph_validation_error "while sub-graph must be an object"
  validate_at key (field k v a) =
      let here = validate_subgraph v in
      let later = validate_at key a in if str_eq k key then here else later
