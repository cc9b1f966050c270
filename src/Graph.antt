-- ===== src/Graph.antt =====
-- The graph IR that the executor runs: nodes, sub-graphs and their specs, as the dicts of a
-- validated graph hold them.
use nx_tinygrad.Base.{ℕ, String, List, [], ◌∷◌, map}
use nx_tinygrad.Json.{Value, ℤ}

-- A start of a `slice` or `put_slice`: `{"static": n}`, `{"input": k}` (the k-th start operand), or
-- `{"symbolic": k}` (the k-th bound variable of a rewritten loop body).
pub data Start : Type 0 where
  static : ℤ → Start
  input : ℕ → Start
  symbolic : ℕ → Start

pub record Spec : Type 0 where
  pub id : ℕ
  pub shape : List ℕ
  pub dtype : String

-- An entry of "inputs".
pub record Input : Type 0 where
  pub spec : Spec
  pub open spec use *
  pub index : ℕ

-- An entry of "constants"; `payload` is its "value" or "data_index".
pub record Constant : Type 0 where
  pub spec : Spec
  pub open spec use *
  pub payload : Value

-- What every node but a `while` has. `starts` and `lengths` are the attributes of those names;
-- `attrs` is all the others.
pub record Entry : Type 0 where
  pub op : String
  pub inputs : List ℕ
  pub starts : List Start
  pub lengths : List ℕ
  pub attrs : Value
  pub spec : Spec
  pub open spec use *

-- `fold` is a `reduce` or `window_reduce` with its `fn`; `plain` is any other op but `while`.
mutual
  pub data Node : Type 0 where
    plain : Entry → Node
    fold : Entry → Sub → Node
    loop : List ℕ → Sub → Sub → List Spec → Node

  pub data Sub : Type 0 where
    sub : List Input → List Constant → Nodes → List ℕ → Sub

  pub data Nodes : Type 0 where
    nil : Nodes
    cons : Node → Nodes → Nodes

abbrev pub members : Nodes → List Node
members nil = []
members (cons n ns) = n ∷ members ns

abbrev pub spec_id : Spec → ℕ
spec_id s = s.id

-- `node["inputs"]`
unfoldable pub node_inputs : Node → List ℕ
node_inputs (plain e) = e.inputs
node_inputs (fold e fn) = e.inputs
node_inputs (loop inputs cond body outs) = inputs

-- `_node_defined_ids`
unfoldable pub node_defined_ids : Node → List ℕ
node_defined_ids (plain e) = e.id ∷ []
node_defined_ids (fold e fn) = e.id ∷ []
node_defined_ids (loop inputs cond body outs) = map spec_id outs

abbrev pub sub_nodes : Sub → Nodes
sub_nodes (sub inputs constants ns outputs) = ns

abbrev pub sub_inputs : Sub → List Input
sub_inputs (sub inputs constants ns outputs) = inputs

abbrev pub sub_outputs : Sub → List ℕ
sub_outputs (sub inputs constants ns outputs) = outputs
