-- ===== src/Validate/Accepted.antt =====
-- What an accepted graph promises, and its evaluation.
use nx_tinygrad.Base.{
  ℕ, ◌≤◌, ◌≡◌, refl, sym, ◌∙◌, subst, true, Option, none, some, List, [], ◌∷◌, ◌++◌, arith, leb,
  leb→le,
}
use nx_tinygrad.Errors.{ok, >>=-eq-ok, guard-eq-ok, ok_inj}
use nx_tinygrad.Json.{Value, null, Items, nil, cons}
use nx_tinygrad.Wire.Integers.{Bytes}
use nx_tinygrad.Python.{as_key, is_number, get_or, items_length}
use nx_tinygrad.Dtype.{Library}
use nx_tinygrad.Dict.PopAll.{contains}
use nx_tinygrad.Segments.Agree.{Subset}
use nx_tinygrad.Validate.SubGraph.{value_of, is_list, list_of}
use nx_tinygrad.Validate.Entities.{
  IsKnown, Adds, Adds-trans, Adds-nil, get_or-value_of, entity_ids, validate_input-Adds,
  validate_constant-Adds, validate_each-Adds,
}
use nx_tinygrad.Validate.Nodes.{
  defined_ids, node_references, validate_node-Adds, is_defined-some, reference,
}
use nx_tinygrad.Validate.{
  Known, spec_at, key_error, same_shape, same_dtype, all_distinct, input_indices, validate_each,
  validate_input, validate_constant, validate_node, validate_output, validate_lists, validate,
  is_object, is_defined, read_typing,
}

-- What a node reads and what it defines.
abbrev pub Reading : Type 0
Reading = List ℕ × List ℕ

unfoldable pub read_nodes : Items → Option (List Reading)
read_nodes nil = some []
read_nodes (cons v l) = elim (node_references v) [
  | none ↦ none
  | some refs ↦ elim (defined_ids v) [
    | none ↦ none
    | some ids ↦ elim (read_nodes l) [ none ↦ none | some ns ↦ some ((refs, ids) ∷ ns) ]
  ]
]

unfoldable pub read_defined : List Reading → List ℕ
read_defined [] = []
read_defined ((refs, ids) ∷ ns) = ids ++ read_defined ns

-- Each node reads ids that are known before it.
abbrev pub IsScoped : List ℕ → List Reading → Type 0
IsScoped known [] = Unit
IsScoped known ((refs, ids) ∷ ns) = Subset refs known × IsScoped (known ++ ids) ns

read_nodes-cons :
    (v : Value) (l : Items) {refs ids : List ℕ} {ns : List Reading}
    → node_references v ≡ some refs
    → defined_ids v ≡ some ids
    → read_nodes l ≡ some ns
    → read_nodes (cons v l) ≡ some ((refs, ids) ∷ ns)
unfolding read_nodes
read_nodes-cons v l e f g = rw (read_nodes, e, f, g) refl

read_nodes-nil : read_nodes nil ≡ some []
unfolding read_nodes
read_nodes-nil = refl

validate_nodes-Adds :
    (l : Items) (k k' : Known)
    → validate_each validate_node l k ≡ ok k'
    → (ns : List Reading) × (read_nodes l ≡ some ns)
      × IsScoped k.defined ns
      × Adds k (read_defined ns) k'
unfolding validate_each read_defined
validate_nodes-Adds nil k k' h = ([], read_nodes-nil, tt, subst (Adds k []) (ok_inj h) (Adds-nil k))
validate_nodes-Adds (cons v l) k k' h =
    let (mid, e, h1) = >>=-eq-ok (validate_node v k) _ h in
    let (refs, ids, r, d, sub, adds) = validate_node-Adds v k mid e in
    let (ns, reads, scoped, more) = validate_nodes-Adds l mid k' h1 in
    (
      (refs, ids) ∷ ns,
      read_nodes-cons v l r d reads,
      (sub, subst (λ (known : List ℕ). IsScoped known ns) adds.defined scoped),
      Adds-trans ids (read_defined ns) adds more,
    )

-- The node that an output names.
output_id : Value → Option ℕ
output_id v = reference (value_of v "node")

unfoldable pub output_ids : Items → Option (List ℕ)
unfolding output_id
output_ids nil = some []
output_ids (cons v l) = elim (output_id v) [
  | none ↦ none
  | some n ↦ elim (output_ids l) [ none ↦ none | some ns ↦ some (n ∷ ns) ]
]

output_ids-cons :
    (v : Value) (l : Items) {ref : Value} {key : Option ℕ} {n : ℕ} {ns : List ℕ}
    → value_of v "node" ≡ ref
    → as_key ref ≡ ok key
    → key ≡ some n
    → output_ids l ≡ some ns
    → output_ids (cons v l) ≡ some (n ∷ ns)
unfolding output_ids reference
output_ids-cons v l e f g h = rw (output_ids, e, f, g, h) refl

-- An accepted output names a known id, with the shape and the dtype of that id; nothing is added.
validate_output-known :
    (v : Value) (k k' : Known)
    → validate_output v k ≡ ok k'
    → (ref : Value) × (key : Option ℕ) × (n : ℕ) × (value_of v "node" ≡ ref)
      × (as_key ref ≡ ok key)
      × (key ≡ some n)
      × (contains n k.defined ≡ true)
      × (k ≡ k')
unfolding validate_output
validate_output-known v k k' h =
    let (ref, e, h1) = >>=-eq-ok (get_or v "node" null) _ h in
    let (key, e1, h2) = >>=-eq-ok (as_key ref) _ h1 in
    let (known, h3) = guard-eq-ok (is_defined k.defined key) _ _ _ h2 in
    let ((dims, dtype), e3, h4) = >>=-eq-ok (read_typing v) _ h3 in
    let ((dims', dtype'), e4, h5) = >>=-eq-ok (key_error (spec_at k.specs key)) _ h4 in
    let (same, h6) = guard-eq-ok (same_shape dims dims') _ _ _ h5 in
    let (same', h7) = guard-eq-ok (same_dtype dtype dtype') _ _ _ h6 in
    let (n, is, there) = is_defined-some k.defined key known in
    (ref, key, n, get_or-value_of v "node" e, e1, is, there, ok_inj h7)

output_ids-nil : output_ids nil ≡ some []
unfolding output_ids
output_ids-nil = refl

validate_outputs-known :
    (l : Items) (k k' : Known)
    → validate_each validate_output l k ≡ ok k'
    → (ns : List ℕ) × (output_ids l ≡ some ns) × Subset ns k.defined × (k ≡ k')
unfolding validate_each
validate_outputs-known nil k k' h = ([], output_ids-nil, λ i c. cc, ok_inj h)
validate_outputs-known (cons v l) k k' h =
    let (mid, e, h1) = >>=-eq-ok (validate_output v k) _ h in
    let (ref, key, n, e1, e2, e3, there, same) = validate_output-known v k mid e in
    let (ns, reads, sub, same') = validate_outputs-known l mid k' h1 in
    let sub' : Subset ns k.defined = subst (λ (m : Known). Subset ns m.defined) (sym same) sub in
    (n ∷ ns, output_ids-cons v l e1 e2 e3 reads, λ i c. ground (arith, sub' i), same ∙ same')

-- An accepted graph, as the ids that it reads and defines.
pub record IsAccepted (limit : ℕ) (graph : Value) : Type 0 where
  pub inputs : List ℕ
  pub constants : List ℕ
  pub nodes : List Reading
  pub outputs : List ℕ
  pub read_inputs : entity_ids (list_of (value_of graph "inputs")) ≡ some inputs
  pub read_constants : entity_ids (list_of (value_of graph "constants")) ≡ some constants
  pub read_nodes' : read_nodes (list_of (value_of graph "nodes")) ≡ some nodes
  pub read_outputs : output_ids (list_of (value_of graph "outputs")) ≡ some outputs
  pub small : items_length (list_of (value_of graph "nodes")) ≤ limit
  pub scoped : IsScoped (inputs ++ constants) nodes
  pub distinct : all_distinct ((inputs ++ constants) ++ read_defined nodes) ≡ true
  pub found : Subset outputs ((inputs ++ constants) ++ read_defined nodes)

nothing-IsKnown : IsKnown (record { defined = []; specs = [] })
unfolding all_distinct
nothing-IsKnown = record { distinct = refl; typed = λ i c. cc }

module _ {A T : Type 0} (lib : Library A T) (blobs : List Bytes) (limit : ℕ) (graph : Value) where
  validate_lists_sound :
      (k : Known) → validate_lists lib blobs limit graph ≡ ok k → IsAccepted limit graph
  unfolding validate_lists
  validate_lists_sound k h =
      let inputs = list_of (value_of graph "inputs") in
      let constants = list_of (value_of graph "constants") in
      let nodes = list_of (value_of graph "nodes") in
      let outputs = list_of (value_of graph "outputs") in
      let k₀ : Known = record { defined = []; specs = [] } in
      let (few, h1) = guard-eq-ok (leb (items_length nodes) limit) _ _ _ h in
      let (k₁, e1, h2) = >>=-eq-ok (validate_each validate_input inputs k₀) _ h1 in
      let (unique, h3) = guard-eq-ok (all_distinct (input_indices inputs)) _ _ _ h2 in
      let (k₂, e2, h4) =
        >>=-eq-ok (validate_each (validate_constant lib blobs) constants k₁) _ h3 in
      let (k₃, e3, h5) = >>=-eq-ok (validate_each validate_node nodes k₂) _ h4 in
      let (some_output, h6) = guard-eq-ok (leb 1 (items_length outputs)) _ _ _ h5 in
      let (is, r1, a1) = validate_each-Adds validate_input validate_input-Adds inputs k₀ k₁ e1 in
      let (cs, r2, a2) =
        validate_each-Adds (validate_constant lib blobs) (validate_constant-Adds lib blobs)
          constants k₁ k₂ e2 in
      let (ns, r3, scoped, a3) = validate_nodes-Adds nodes k₂ k₃ e3 in
      let (os, r4, sub, same) = validate_outputs-known outputs k₃ k h6 in
      let all = Adds-trans is cs a1 a2 in
      let whole = Adds-trans (is ++ cs) (read_defined ns) all a3 in
      record {
        inputs = is;
        constants = cs;
        nodes = ns;
        outputs = os;
        read_inputs = r1;
        read_constants = r2;
        read_nodes' = r3;
        read_outputs = r4;
        small = leb→le (items_length nodes) limit few;
        scoped = subst (λ (known : List ℕ). IsScoped known ns) all.defined scoped;
        distinct =
            subst (λ (ids : List ℕ). all_distinct ids ≡ true) whole.defined
              (whole.keeps nothing-IsKnown).distinct;
        found = subst (λ (ids : List ℕ). Subset os ids) whole.defined sub;
      }

  -- A graph that `validate` accepts has at most `max_nodes` nodes; no two of its inputs,
  -- constants and nodes define the same id; each node reads only ids of inputs, constants and
  -- nodes before it; and each output names an id that is defined.
  pub validate_sound : (k : Known) → validate lib blobs limit graph ≡ ok k → IsAccepted limit graph
  unfolding validate
  validate_sound k h =
      let (c1, h1) = guard-eq-ok (is_object graph) _ _ _ h in
      let (c2, h2) = guard-eq-ok (is_number 1 (value_of graph "version")) _ _ _ h1 in
      let (c3, h3) = guard-eq-ok (is_list (value_of graph "inputs")) _ _ _ h2 in
      let (c4, h4) = guard-eq-ok (is_list (value_of graph "constants")) _ _ _ h3 in
      let (c5, h5) = guard-eq-ok (is_list (value_of graph "nodes")) _ _ _ h4 in
      let (c6, h6) = guard-eq-ok (is_list (value_of graph "outputs")) _ _ _ h5 in
      validate_lists_sound k h6
