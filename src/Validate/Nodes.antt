-- ===== src/Validate/Nodes.antt =====
-- What an accepted node reads, and what it adds to the ids that are known.
use nx_tinygrad.Base.{
  ℕ, ◌≡◌, refl, subst, String, Bool, true, false, Option, none, some, List, [], ◌∷◌, arith,
  if◌then◌else◌, Bool-cases, inl, inr, str_eq,
}
use nx_tinygrad.Errors.{ok, raise, >>=-eq-ok, guard-eq-ok, ok_inj}
use nx_tinygrad.Json.{Value, null, Items, nil, cons}
use nx_tinygrad.Python.{as_key, get_or}
use nx_tinygrad.Dict.PopAll.{contains}
use nx_tinygrad.Segments.Agree.{Subset}
use nx_tinygrad.Validate.SubGraph.{value_of, is_list, list_of, read_op, validate_subgraph}
use nx_tinygrad.Validate.{
  Known, validate_refs, is_defined, validate_each, validate_loop, validate_plain, validate_fn,
  validate_node, is_object, define_entity,
}
use nx_tinygrad.Validate.Entities.{
  Adds, get_or-value_of, entity_ids, entity_ids-nil, entity_ids-cons, define_entity-Adds,
  validate_each-Adds,
}

-- The ids that a node reads.
unfoldable pub reference : Value → Option ℕ
reference v = elim (as_key v) [ raise e ↦ none | ok key ↦ key ]

unfoldable pub references : Items → Option (List ℕ)
unfolding reference
references nil = some []
references (cons v l) = elim (reference v) [
  | none ↦ none
  | some n ↦ elim (references l) [ none ↦ none | some ns ↦ some (n ∷ ns) ]
]

pub is_defined-some :
    (defined : List ℕ) (key : Option ℕ)
    → is_defined defined key ≡ true
    → (n : ℕ) × (key ≡ some n) × (contains n defined ≡ true)
unfolding is_defined
is_defined-some defined none h = cc
is_defined-some defined (some n) h = (n, refl, h)

references-cons :
    (v : Value) (l : Items) {n : ℕ} {ns : List ℕ} {key : Option ℕ}
    → as_key v ≡ ok key
    → key ≡ some n
    → references l ≡ some ns
    → references (cons v l) ≡ some (n ∷ ns)
unfolding references reference
references-cons v l e is f = rw (references, e, is, f) refl

pub validate_refs-Subset :
    (l : Items) (defined : List ℕ)
    → validate_refs l defined ≡ ok tt
    → (ns : List ℕ) × (references l ≡ some ns) × Subset ns defined
unfolding validate_refs references
validate_refs-Subset nil defined h = ([], refl, λ i c. cc)
validate_refs-Subset (cons v l) defined h =
    let (key, e, h1) = >>=-eq-ok (as_key v) _ h in
    let (known, h2) = guard-eq-ok (is_defined defined key) _ _ _ h1 in
    let (n, is, there) = is_defined-some defined key known in
    let (ns, reads, sub) = validate_refs-Subset l defined h2 in
    (n ∷ ns, references-cons v l e is reads, λ i c. ground (arith, sub i))

-- The ids that a node defines.
unfoldable pub defined_ids : Value → Option (List ℕ)
unfolding entity_ids
defined_ids v = elim (read_op (value_of v "op")) [
  | raise e ↦ none
  | ok op ↦
      if str_eq op "while"
      then entity_ids (list_of (value_of v "outputs"))
      else entity_ids (cons v nil)
]

unfoldable pub node_references : Value → Option (List ℕ)
node_references v = references (list_of (value_of v "inputs"))

validate_loop-Adds :
    (v : Value) (k k' : Known)
    → validate_loop v k ≡ ok k'
    → (ids : List ℕ) × (entity_ids (list_of (value_of v "outputs")) ≡ some ids) × Adds k ids k'
unfolding validate_loop
validate_loop-Adds v k k' h =
    let (lists, h1) = guard-eq-ok _ _ _ _ h in
    let (mid, e, h2) =
      >>=-eq-ok (validate_each define_entity (list_of (value_of v "outputs")) k) _ h1 in
    let (c, e1, h3) = >>=-eq-ok (validate_subgraph (value_of (value_of v "attrs") "cond")) _ h2 in
    let (b, e2, h4) = >>=-eq-ok (validate_subgraph (value_of (value_of v "attrs") "body")) _ h3 in
    let (ids, read, adds) =
      validate_each-Adds define_entity define_entity-Adds (list_of (value_of v "outputs")) k mid
        e in
    (ids, read, subst (Adds k ids) (ok_inj h4) adds)

validate_plain-Adds :
    (op : String) (v : Value) (k k' : Known)
    → validate_plain op v k ≡ ok k'
    → (ids : List ℕ) × (entity_ids (cons v nil) ≡ some ids) × Adds k ids k'
unfolding validate_plain
validate_plain-Adds op v k k' h =
    let (mid, e, h1) = >>=-eq-ok (define_entity v k) _ h in
    let (done, e1, h2) = >>=-eq-ok (validate_fn op v) _ h1 in
    let (n, read, adds) = define_entity-Adds v k mid e in
    (n ∷ [], entity_ids-cons v nil read entity_ids-nil, subst (Adds k (n ∷ [])) (ok_inj h2) adds)

defined_ids-read :
    (v : Value) {named : Value} {op : String} {ids : List ℕ} (t : Bool)
    → value_of v "op" ≡ named
    → read_op named ≡ ok op
    → str_eq op "while" ≡ t
    → entity_ids (if t then list_of (value_of v "outputs") else cons v nil) ≡ some ids
    → defined_ids v ≡ some ids
unfolding defined_ids
defined_ids-read v true e f g h = rw (defined_ids, e, f, g) h
defined_ids-read v false e f g h = rw (defined_ids, e, f, g) h

node_references-read :
    (v : Value) {inputs : Value} {refs : List ℕ}
    → value_of v "inputs" ≡ inputs
    → references (list_of inputs) ≡ some refs
    → node_references v ≡ some refs
unfolding node_references
node_references-read v e f = rw (node_references, e) f

-- An accepted node reads known ids, and adds the ids that it defines.
pub validate_node-Adds :
    (v : Value) (k k' : Known)
    → validate_node v k ≡ ok k'
    → (refs ids : List ℕ) × (node_references v ≡ some refs)
      × (defined_ids v ≡ some ids)
      × Subset refs k.defined
      × Adds k ids k'
unfolding validate_node
validate_node-Adds v k k' h =
    let (named, e, h1) = >>=-eq-ok (get_or v "op" null) _ h in
    let (op, e1, h2) = >>=-eq-ok (read_op named) _ h1 in
    let (inputs, e2, h3) = >>=-eq-ok (get_or v "inputs" null) _ h2 in
    let (is, h4) = guard-eq-ok (is_list inputs) _ _ _ h3 in
    let (done, e5, h5) = >>=-eq-ok (validate_refs (list_of inputs) k.defined) _ h4 in
    let (attrs, e6, h6) = >>=-eq-ok (get_or v "attrs" null) _ h5 in
    let (dict, h7) = guard-eq-ok (is_object attrs) _ _ _ h6 in
    let (refs, reads, sub) = validate_refs-Subset (list_of inputs) k.defined e5 in
    let named' = get_or-value_of v "op" e in
    let inputs' = get_or-value_of v "inputs" e2 in
    elim (Bool-cases (str_eq op "while")) [
      | inl is_loop ↦
          let (ids, read, adds) = validate_loop-Adds v k k' (rw is_loop at h7) in
          (
            refs,
            ids,
            node_references-read v inputs' reads,
            defined_ids-read v true named' e1 is_loop read,
            sub,
            adds,
          )
      | inr other ↦
          let (ids, read, adds) = validate_plain-Adds op v k k' (rw other at h7) in
          (
            refs,
            ids,
            node_references-read v inputs' reads,
            defined_ids-read v false named' e1 other read,
            sub,
            adds,
          )
    ]
