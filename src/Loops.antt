-- ===== src/Loops.antt =====
-- priv/worker/executable.py: `_symbolic_while_plan`, that turns the dynamic starts of a `while` body
-- into bound variables.
pub mod Starts
pub mod Ancestors
pub mod Run
use nx_tinygrad.Base.{
  ℕ, suc, ◌+◌, ◌-◌, String, Bool, true, false, Option, none, some, List, [], ◌∷◌, ◌++◌, length,
  drop, get_elem?, ◌==◌, if◌then◌else◌, str_eq,
}
use nx_tinygrad.Errors.{Result, ok, fail, python_error, ◌>>=◌}
use nx_tinygrad.Json.{ℤ, pos}
use nx_tinygrad.Dict.{Dict, lookup, insert}
use nx_tinygrad.Dict.PopAll.{contains}
use nx_tinygrad.Graph.{
  Start, static, input, symbolic, Input, Constant, Entry, Node, plain, fold, loop, node_inputs,
}
use nx_tinygrad.Plan.{dyn_first, dyn_start_count}

-- A variable: the id of the start that it stands for, and its upper bound. Its name is made of its
-- position.
pub record Use : Type 0 where
  pub id : ℕ
  pub hi : ℕ

unfoldable pub at : List ℕ → ℕ → Result ℕ
at l i = elim (get_elem? l i) [
  | none ↦ fail (python_error "IndexError") "list index out of range"
  | some n ↦ ok n
]

-- The loop over the starts of a node, from `axis` on. A difference that is not positive is 0 here.
unfoldable pub rewrite_starts :
    List ℕ → List ℕ → List ℕ → List Start → ℕ → List Use → Result (List Start × List Use)
unfolding at
rewrite_starts dims spans dyn [] axis uses = ok ([], uses)
rewrite_starts dims spans dyn (static n ∷ starts) axis uses = do
  (rest, after) ← rewrite_starts dims spans dyn starts (suc axis) uses
  ok (static n ∷ rest, after)
rewrite_starts dims spans dyn (input k ∷ starts) axis uses = do
  dim ← at dims axis
  span ← at spans axis
  let hi = dim - span
  start_id ← if hi == 0 then ok 0 else at dyn k
  let fresh = if hi == 0 then uses else uses ++ (record { id = start_id; hi = hi } ∷ [])
  (rest, after) ← rewrite_starts dims spans dyn starts (suc axis) fresh
  ok ((if hi == 0 then static (pos 0) else symbolic (length uses)) ∷ rest, after)
rewrite_starts dims spans dyn (symbolic k ∷ starts) axis uses = do
  dim ← at dims axis
  span ← at spans axis
  pinned ← if dim - span == 0 then ok (static (pos 0)) else fail (python_error "KeyError") "input"
  (rest, after) ← rewrite_starts dims spans dyn starts (suc axis) uses
  ok (pinned ∷ rest, after)

-- `shapes[id]`
shape_of : Dict (List ℕ) → ℕ → Result (List ℕ)
shape_of shapes i = elim (lookup i shapes) [
  | none ↦ fail (python_error "KeyError") "id"
  | some shape ↦ ok shape
]

first_dyn : Option ℕ → ℕ
first_dyn none = 0
first_dyn (some n) = n

-- A node with dynamic starts.
rewrite_entry : Dict (List ℕ) → Entry → List Use → Result (Entry × List Use)
unfolding shape_of first_dyn
rewrite_entry shapes e uses = do
  let dyn = drop (first_dyn (dyn_first e.op)) e.inputs
  target ← at e.inputs 0
  dims ← shape_of shapes target
  source ← at e.inputs 1
  spans ← if str_eq e.op "slice" then ok e.lengths else shape_of shapes source
  (starts, after) ← rewrite_starts dims spans dyn e.starts 0 uses
  ok (record e { starts = starts }, after)

rewrite_node : Dict (List ℕ) → Node → List Use → Result (Node × List Use)
unfolding rewrite_entry
rewrite_node shapes (plain e) uses =
    if dyn_start_count e == 0
    then ok (plain e, uses)
    else do (e', after) ← rewrite_entry shapes e uses; ok (plain e', after)
rewrite_node shapes n uses = ok (n, uses)

unfoldable pub rewrite_nodes : Dict (List ℕ) → List Node → List Use → Result (List Node × List Use)
unfolding rewrite_node
rewrite_nodes shapes [] uses = ok ([], uses)
rewrite_nodes shapes (n ∷ ns) uses = do
  (n', uses') ← rewrite_node shapes n uses
  (ns', after) ← rewrite_nodes shapes ns uses'
  ok (n' ∷ ns', after)

input_shapes : List Input → Dict (List ℕ) → Dict (List ℕ)
input_shapes [] shapes = shapes
input_shapes (i ∷ is) shapes = input_shapes is (insert i.id i.shape shapes)

constant_shapes : List Constant → Dict (List ℕ) → Dict (List ℕ)
constant_shapes [] shapes = shapes
constant_shapes (c ∷ cs) shapes = constant_shapes cs (insert c.id c.shape shapes)

-- A `while` has no "shape".
node_shapes : List Node → Dict (List ℕ) → Result (Dict (List ℕ))
node_shapes [] shapes = ok shapes
node_shapes (plain e ∷ ns) shapes = node_shapes ns (insert e.id e.shape shapes)
node_shapes (fold e fn ∷ ns) shapes = node_shapes ns (insert e.id e.shape shapes)
node_shapes (loop inputs cond body outs ∷ ns) shapes = fail (python_error "KeyError") "shape"

-- `node.get("id") in needed`
abbrev pub is_needed : Node → List ℕ → Bool
is_needed (plain e) needed = contains e.id needed
is_needed (fold e fn) needed = contains e.id needed
is_needed (loop inputs cond body outs) needed = false

-- The backward loop: the nodes that the ids in `needed` depend on, and all ids needed before them.
unfoldable pub ancestors : List Node → List ℕ → List Node × List ℕ
unfolding node_inputs
ancestors [] needed = ([], needed)
ancestors (n ∷ ns) needed =
    let (kept, before) = ancestors ns needed in
    if is_needed n before then (n ∷ kept, before ++ node_inputs n) else (kept, before)

keep_constants : List Constant → List ℕ → List Constant
keep_constants [] needed = []
keep_constants (c ∷ cs) needed =
    let rest = keep_constants cs needed in if contains c.id needed then c ∷ rest else rest

use_ids : List Use → List ℕ
use_ids [] = []
use_ids (u ∷ us) = u.id ∷ use_ids us

-- What `_symbolic_while_plan` returns.
pub record WhilePlan : Type 0 where
  pub nodes : List Node
  pub uses : List Use
  pub anc_nodes : List Node
  pub anc_consts : List Constant

unfoldable pub symbolic_while_plan : List Input → List Constant → List Node → Result WhilePlan
unfolding rewrite_nodes ancestors input_shapes constant_shapes node_shapes keep_constants use_ids
symbolic_while_plan inputs constants nodes = do
  shapes ← node_shapes nodes (constant_shapes constants (input_shapes inputs []))
  (new_nodes, uses) ← rewrite_nodes shapes nodes []
  let (anc_nodes, needed) = ancestors nodes (use_ids uses)
  ok (record {
    nodes = new_nodes;
    uses = uses;
    anc_nodes = anc_nodes;
    anc_consts = keep_constants constants needed;
  })
