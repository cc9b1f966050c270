-- ===== src/Validate.antt =====
-- priv/worker/graph.py: the checks on a graph that a client sends, over the JSON values that it is
-- made of; and `SUPPORTED_OPS` of priv/worker/operations.py.
pub mod SubGraph
pub mod Entities
pub mod Nodes
pub mod Accepted
pub mod Evaluation
use nx_tinygrad.Base.{
  ℕ, suc, ◌+◌, ◌*◌, String, Bool, true, false, not, ◌&&◌, ◌||◌, Option, none, some, List, [], ◌∷◌,
  ◌++◌, length, leb, ltb, ◌==◌, get_elem?, if◌then◌else◌, str_eq,
}
use nx_tinygrad.Errors.{
  Result, ok, raise, fail, guard, graph_validation_error, python_error, ◌>>=◌, ◌>>◌,
}
use nx_tinygrad.Json.{
  ℤ, pos, negsuc, Value, null, bool, int, float, string, array, object, Items, nil, cons, Fields,
  end, field, get,
}
use nx_tinygrad.Python.{as_key, as_name, is_number, is_string, get_or, items_length}
use nx_tinygrad.Dict.{Dict, lookup, insert}
use nx_tinygrad.Dict.PopAll.{contains}
use nx_tinygrad.Dtype.{Library, is_supported, itemsize}
use nx_tinygrad.Wire.Integers.{Bytes}
use SubGraph.{check, value_of, is_list, list_of, read_op, validate_subgraph}

abbrev pub max_nodes : ℕ
max_nodes = 200000

abbrev pub max_rank : ℕ
max_rank = 16

-- `isinstance(v, int) and v >= 0`; a `bool` is an `int`.
unfoldable pub natural_int : Value → Option ℕ
natural_int (int (pos n)) = some n
natural_int (bool b) = some (if b then 1 else 0)
natural_int v = none

abbrev is_some : {A : Type 0} → Option A → Bool
is_some none = false
is_some (some a) = true

dimensions : Items → Option (List ℕ)
dimensions nil = some []
dimensions (cons v l) = elim (natural_int v) [
  | none ↦ none
  | some n ↦ elim (dimensions l) [ none ↦ none | some ns ↦ some (n ∷ ns) ]
]

-- The sizes of a shape that `_valid_shape` accepts.
unfoldable pub read_shape : Value → Option (List ℕ)
unfolding dimensions
read_shape (array l) = if leb (items_length l) max_rank then dimensions l else none
read_shape v = none

-- What `specs` knows of an id: its shape and its dtype.
abbrev pub Typing : Type 0
Typing = List ℕ × Value

-- `defined` and `specs`
pub record Known : Type 0 where
  pub defined : List ℕ
  pub specs : Dict Typing

abbrev is_object : Value → Bool
is_object (object d) = true
is_object v = false

key_error : {A : Type 0} → Option A → Result A
key_error none = fail (python_error "KeyError") "id"
key_error (some a) = ok a

required : {A : Type 0} → Option A → String → Result A
required none message = fail graph_validation_error message
required (some a) message = ok a

-- `define(entity, ident)`
unfoldable pub define_id : Value → Known → Result (ℕ × Known)
unfolding required
define_id ident k = do
  n ← required (natural_int ident) "invalid id"
  check (not (contains n k.defined)) "duplicate id"
  ok (n, record k { defined = k.defined ++ (n ∷ []) })

-- The checks of an entity's shape and dtype.
unfoldable pub read_typing : Value → Result Typing
unfolding required
read_typing entity = do
  shape ← get_or entity "shape" null
  dims ← required (read_shape shape) "invalid shape"
  dtype ← get_or entity "dtype" null
  supported ← is_supported dtype
  check supported "unsupported dtype"
  ok (dims, dtype)

abbrev with_spec : ℕ → Typing → Known → Known
with_spec n t k = record k { specs = insert n t k.specs }

-- An entity with an id, a shape and a dtype.
unfoldable pub define_entity : Value → Known → Result Known
define_entity entity k = do
  ident ← get_or entity "id" null
  (n, k') ← define_id ident k
  t ← read_typing entity
  ok (with_spec n t k')

unfoldable pub validate_input : Value → Known → Result Known
validate_input inp k = do
  ident ← get_or inp "id" null
  (n, k') ← define_id ident k
  index ← get_or inp "index" null
  check (is_some (natural_int index)) "input index must be a non-negative int"
  t ← read_typing inp
  ok (with_spec n t k')

-- `for entity in entities: ...`
unfoldable pub validate_each : (Value → Known → Result Known) → Items → Known → Result Known
validate_each f nil k = ok k
validate_each f (cons v l) k = do k' ← f v k; validate_each f l k'

input_indices : Items → List ℕ
input_indices nil = []
input_indices (cons v l) =
    let rest = input_indices l in
    elim (natural_int (value_of v "index")) [ none ↦ rest | some n ↦ n ∷ rest ]

-- `len(indices) == len(set(indices))`
unfoldable pub all_distinct : List ℕ → Bool
all_distinct [] = true
all_distinct (n ∷ ns) = not (contains n ns) && all_distinct ns

unfoldable pub product : List ℕ → ℕ
product [] = 1
product (n ∷ ns) = n * product ns

blob_length : List Bytes → Option ℕ → Option ℕ
blob_length blobs none = none
blob_length blobs (some i) = elim (get_elem? blobs i) [ none ↦ none | some b ↦ some (length b) ]

has_key : Fields → String → Bool
has_key d k = is_some (get d k)

differ : Bool → Bool → Bool
differ true b = not b
differ false b = b

module _ {A T : Type 0} (lib : Library A T) (blobs : List Bytes) where
  -- The size of the blob of a constant.
  validate_data : Value → Typing → Result (Unit {0})
  unfolding required blob_length
  validate_data data_index (dims, dtype) = do
    actual ←
        required (blob_length blobs (natural_int data_index)) "constant data_index out of range"
    size ← itemsize lib dtype
    check (actual == product dims * size) "constant blob byte size mismatch"

  -- The payload of a constant: a value, or the index of a blob.
  validate_payload : Fields → Typing → Result (Unit {0})
  unfolding validate_data has_key differ
  validate_payload const t = do
    check (differ (has_key const "value") (has_key const "data_index"))
        "constant must have exactly one of value/data_index"
    elim (get const "data_index") [ none ↦ ok tt | some i ↦ validate_data i t ]

  payload_of : Value → Typing → Result (Unit {0})
  unfolding validate_payload
  payload_of (object const) t = validate_payload const t
  payload_of v t = fail (python_error "TypeError") "argument is not iterable"

  unfoldable pub validate_constant : Value → Known → Result Known
  unfolding payload_of
  validate_constant const k = do
    ident ← get_or const "id" null
    (n, k') ← define_id ident k
    t ← read_typing const
    payload_of const t
    ok (with_spec n t k')

unfoldable pub is_defined : List ℕ → Option ℕ → Bool
is_defined defined none = false
is_defined defined (some n) = contains n defined

-- `for ref in node["inputs"]: _check(ref in defined, ...)`
unfoldable pub validate_refs : Items → List ℕ → Result (Unit {0})
unfolding is_defined
validate_refs nil defined = ok tt
validate_refs (cons ref refs) defined = do
  key ← as_key ref
  check (is_defined defined key) "node references undefined id"
  validate_refs refs defined

-- What a `while` node defines, and its two sub-graphs.
unfoldable pub validate_loop : Value → Known → Result Known
validate_loop node k = do
  let outs = value_of node "outputs"
  check (is_list outs && leb 1 (items_length (list_of outs))) "while node must have outputs"
  k' ← validate_each define_entity (list_of outs) k
  validate_subgraph (value_of (value_of node "attrs") "cond")
  validate_subgraph (value_of (value_of node "attrs") "body")
  ok k'

-- The function of a reduction.
unfoldable pub validate_fn : String → Value → Result (Unit {0})
validate_fn op node =
    if str_eq op "reduce" || str_eq op "window_reduce"
    then validate_subgraph (value_of (value_of node "attrs") "fn")
    else ok tt

-- What any other node defines, and the function of a reduction.
unfoldable pub validate_plain : String → Value → Known → Result Known
validate_plain op node k = do k' ← define_entity node k; validate_fn op node; ok k'

unfoldable pub validate_node : Value → Known → Result Known
validate_node node k = do
  named ← get_or node "op" null
  op ← read_op named
  inputs ← get_or node "inputs" null
  check (is_list inputs) "node inputs must be a list"
  validate_refs (list_of inputs) k.defined
  attrs ← get_or node "attrs" null
  check (is_object attrs) "node attrs must be an object"
  if str_eq op "while" then validate_loop node k else validate_plain op node k

-- `xs == ys` of two lists of sizes
unfoldable pub same_shape : List ℕ → List ℕ → Bool
same_shape [] [] = true
same_shape (m ∷ ms) (n ∷ ns) = m == n && same_shape ms ns
same_shape _ _ = false

-- `d == e` of two dtypes, which are strings by now
abbrev same_dtype : Value → Value → Bool
same_dtype (string s) (string t) = str_eq s t
same_dtype v w = false

spec_at : Dict Typing → Option ℕ → Option Typing
spec_at specs none = none
spec_at specs (some n) = lookup n specs

unfoldable pub validate_output : Value → Known → Result Known
unfolding spec_at is_defined key_error
validate_output out k = do
  ref ← get_or out "node" null
  key ← as_key ref
  check (is_defined k.defined key) "output references undefined id"
  (dims, dtype) ← read_typing out
  (expected_dims, expected_dtype) ← key_error (spec_at k.specs key)
  check (same_shape dims expected_dims) "output shape does not match referenced node"
  check (same_dtype dtype expected_dtype) "output dtype does not match referenced node"
  ok k

-- The lists of a graph, after the checks on the graph itself.
unfoldable pub validate_lists : {A T : Type 0} → Library A T → List Bytes → ℕ → Value → Result Known
unfolding input_indices
validate_lists lib blobs limit graph = do
  let inputs = list_of (value_of graph "inputs")
  let nodes = list_of (value_of graph "nodes")
  let outputs = list_of (value_of graph "outputs")
  check (leb (items_length nodes) limit) "graph exceeds maximum node count"
  k₁ ← validate_each validate_input inputs (record { defined = []; specs = [] })
  check (all_distinct (input_indices inputs)) "input indices must be unique"
  k₂ ← validate_each (validate_constant lib blobs) (list_of (value_of graph "constants")) k₁
  k₃ ← validate_each validate_node nodes k₂
  check (leb 1 (items_length outputs)) "graph must have at least one output"
  validate_each validate_output outputs k₃

-- `validate`; what the checks have found out is returned here for the statements about it.
unfoldable pub validate : {A T : Type 0} → Library A T → List Bytes → ℕ → Value → Result Known
validate lib blobs limit graph = do
  check (is_object graph) "graph must be an object"
  check (is_number 1 (value_of graph "version")) "unsupported graph version"
  check (is_list (value_of graph "inputs")) "graph.inputs must be a list"
  check (is_list (value_of graph "constants")) "graph.constants must be a list"
  check (is_list (value_of graph "nodes")) "graph.nodes must be a list"
  check (is_list (value_of graph "outputs")) "graph.outputs must be a list"
  validate_lists lib blobs limit graph
