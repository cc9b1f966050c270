-- ===== src/Tests/Graphs.antt =====
-- The nodes of `Plans` as the graph that a client sends: accepted, and evaluated by its segments.
use nx_tinygrad.Base.{
  ◌⊎◌, ℕ, ◌+◌, ◌≡◌, refl, ap, String, some, List, [], ◌∷◌, map, length, true, arith, ◌∙◌, sym, ◌==◌,
  inl, inr, Bool-cases, ==_iff, length-map,
}
use nx_tinygrad.Python.{is_number, as_key, as_name, get_value, items_length}
use nx_tinygrad.Errors.{Result, ok, ok_inj}
use nx_tinygrad.Json.{
  pos, Value, int, string, array, object, Items, nil, cons, Fields, end, field, get,
}
use nx_tinygrad.Dict.{Dict, lookup, insert}
use nx_tinygrad.Dict.PopAll.{contains}
use nx_tinygrad.Dtype.{is_supported}
use nx_tinygrad.Graph.{Node, node_inputs, node_defined_ids}
use nx_tinygrad.Segments.{eval_segments}
use nx_tinygrad.Segments.Closed.{HasArity}
use nx_tinygrad.Segments.Complete.{AreKeys}
use nx_tinygrad.Validate.{
  Known, validate, define_id, define_entity, read_typing, read_shape, natural_int, validate_input,
  validate_constant, validate_each, validate_node, validate_refs, validate_plain, validate_fn,
  validate_lists, validate_output, all_distinct, product, is_defined, same_shape,
}
use nx_tinygrad.Validate.SubGraph.{read_op, is_supported_op}
use nx_tinygrad.Validate.Entities.{entity_id, entity_ids}
use nx_tinygrad.Validate.Nodes.{references, reference, defined_ids, node_references}
use nx_tinygrad.Segments.Agree.{Subset}
use nx_tinygrad.Validate.Accepted.{
  Reading, IsScoped, IsAccepted, validate_sound, read_nodes, read_defined, output_ids,
}
use nx_tinygrad.Validate.Evaluation.{Raises, accepted-eval_segments}
use nx_tinygrad.Tests.Plans.{
  some_nodes, some_segments, some_plan, capture_some, capture_some-IsFaithful, some_constants,
  some_env, some_env-Extends, no_progress,
}
use nx_tinygrad.Tests.Sessions.{byte_library}

abbrev number : ℕ → Value
number n = int (pos n)

abbrev typed : Fields → Value
typed d = object (field "shape" (array (cons (number 4) nil)) (field "dtype" (string "s32") d))

abbrev refs : List ℕ → Items
refs [] = nil
refs (n ∷ ns) = cons (number n) (refs ns)

abbrev json_node : String → ℕ → List ℕ → Value
json_node op i inputs = typed (
    field "id" (number i) (
      field "op" (string op)
        (field "inputs" (array (refs inputs)) (field "attrs" (object end) end))))

abbrev some_graph : Value
some_graph = object (
    field "version" (number 1) (
      field "inputs"
        (array (cons (typed (field "id" (number 0) (field "index" (number 0) end))) nil))
        (field "constants"
          (array (cons (typed (field "id" (number 1) (field "value" (number 3) end))) nil))
          (field "nodes"
            (array (
              cons (json_node "add" 2 (0 ∷ 1 ∷ [])) (
                cons (json_node "slice" 3 (2 ∷ 1 ∷ [])) (
                  cons (json_node "add" 4 (3 ∷ 1 ∷ []))
                    (cons (json_node "add" 5 (4 ∷ 4 ∷ [])) nil)))))
            (field "outputs" (array (cons (typed (field "node" (number 5) end)) nil)) end)))))

abbrev entry : List ℕ × Value
entry = (4 ∷ [], string "s32")

abbrev some_known : Known
some_known = record {
  defined = 0 ∷ 1 ∷ 2 ∷ 3 ∷ 4 ∷ 5 ∷ [];
  specs = (0, entry) ∷ (1, entry) ∷ (2, entry) ∷ (3, entry) ∷ (4, entry) ∷ (5, entry) ∷ [];
}

some_graph_accepted : validate byte_library [] 200000 some_graph ≡ ok some_known
unfolding validate get validate_lists validate_each validate_input validate_constant validate_node
    validate_plain validate_fn validate_refs validate_output define_entity define_id read_typing
    read_shape natural_int all_distinct product is_defined same_shape is_supported read_op
    is_supported_op lookup insert is_number as_key as_name get_value items_length
some_graph_accepted = refl

validate_sound_example : IsAccepted 200000 some_graph
validate_sound_example =
    validate_sound byte_library [] 200000 some_graph some_known some_graph_accepted

abbrev some_readings : List Reading
some_readings =
    (0 ∷ 1 ∷ [], 2 ∷ []) ∷ (2 ∷ 1 ∷ [], 3 ∷ []) ∷ (3 ∷ 1 ∷ [], 4 ∷ []) ∷ (4 ∷ 4 ∷ [], 5 ∷ []) ∷ []

some_readings-IsScoped : IsScoped (0 ∷ 1 ∷ []) some_readings
some_readings-IsScoped = (
  λ i c. ground (arith, c),
  (λ i c. ground (arith, c), (λ i c. ground (arith, c), (λ i c. ground (arith, c), tt))),
)

some_outputs-Subset : Subset (5 ∷ []) (0 ∷ 1 ∷ 2 ∷ 3 ∷ 4 ∷ 5 ∷ [])
some_outputs-Subset i c = ground (arith, c)

unfoldable some_IsAccepted : IsAccepted 200000 some_graph
unfolding get entity_id references reference as_key as_name items_length read_op is_supported_op
    get_value is_number entity_ids read_nodes output_ids node_references defined_ids all_distinct
    read_defined natural_int
some_IsAccepted = record {
  inputs = 0 ∷ [];
  constants = 1 ∷ [];
  nodes = some_readings;
  outputs = 5 ∷ [];
  read_inputs = refl;
  read_constants = refl;
  read_nodes' = refl;
  read_outputs = refl;
  small = omega arith;
  scoped = some_readings-IsScoped;
  distinct = refl;
  found = some_outputs-Subset;
}

-- Every node adds up its inputs, for each id that it defines.
unfoldable total : List ℕ → ℕ
total [] = 0
total (v ∷ vs) = v + total vs

unfoldable add_all : Node → List ℕ → Result (List ℕ)
unfolding total
add_all n vs = ok (map (λ (i : ℕ). total vs) (node_defined_ids n))

add_all-HasArity : HasArity add_all
unfolding add_all
add_all-HasArity n args results h =
    ap length (sym (ok_inj h)) ∙ length-map (λ (i : ℕ). total args) (node_defined_ids n)

some_keys : AreKeys (0 ∷ 1 ∷ []) some_env
unfolding lookup
some_keys i c = elim (Bool-cases (i == 0)) [
  | inl here ↦ (10, rw ((==_iff i 0).0 here) refl)
  | inr other ↦ (3, ground (arith, other, c))
]

constants_known : (i v : ℕ) → lookup i some_constants ≡ some v → contains i (1 ∷ []) ≡ true
unfolding lookup
constants_known i v h = ground (arith, h)

accepted-eval_segments_example :
    ((env' : Dict ℕ) × ((eval_segments add_all capture_some some_constants some_segments 0 some_env
          no_progress).0
        ≡ ok env')
      × AreKeys (5 ∷ []) env')
    ⊎ Raises add_all some_nodes some_env
unfolding some_IsAccepted node_inputs node_defined_ids
accepted-eval_segments_example =
    accepted-eval_segments add_all add_all-HasArity some_IsAccepted some_nodes refl capture_some
      some_constants some_env some_segments no_progress capture_some-IsFaithful constants_known
      some_keys some_env-Extends some_plan
