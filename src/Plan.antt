-- ===== src/Plan.antt =====
-- priv/worker/executable.py: which nodes need a runtime scalar, and the split of a graph into
-- jit-safe segments.
pub mod Ids
pub mod Pieces
use nx_tinygrad.Base.{
  ℕ, zero, suc, ◌+◌, ◌-◌, String, Bool, true, false, not, ◌&&◌, ◌||◌, Option, none, some, List, [],
  ◌∷◌, ◌++◌, length, ltb, leb, ◌==◌, if◌then◌else◌, str_eq,
}
use nx_tinygrad.Dict.PopAll.{contains}
use nx_tinygrad.Graph.{
  Node, plain, fold, loop, Sub, sub, Nodes, nil, cons, Entry, node_inputs, node_defined_ids,
  sub_nodes,
}

-- `_DYN_FIRST.get(op)`
pub dyn_first : String → Option ℕ
dyn_first op = if str_eq op "slice" then some 1 else if str_eq op "put_slice" then some 2 else none

-- `_dyn_start_count` of a node that is no `while`
unfoldable pub dyn_start_count : Entry → ℕ
unfolding dyn_first
dyn_start_count e = elim (dyn_first e.op) [ none ↦ 0 | some first ↦ length e.inputs - first ]

-- `_requires_eager`
unfoldable pub requires_eager : Node → Bool
requires_eager (loop inputs cond body outs) = true
requires_eager (fold e fn) = false
requires_eager (plain e) =
    if str_eq e.op "slice" && ltb 1 (length e.inputs)
    then true
    else if str_eq e.op "put_slice" && ltb 2 (length e.inputs)
    then true
    else false

-- `any(_dyn_start_count(n) for n in fn["nodes"])`
unfoldable pub any_dyn_start : Nodes → Bool
unfolding dyn_start_count
any_dyn_start nil = false
any_dyn_start (cons (plain e) ns) = ltb 0 (dyn_start_count e) || any_dyn_start ns
any_dyn_start (cons (fold e fn) ns) = any_dyn_start ns
any_dyn_start (cons (loop inputs cond body outs) ns) = any_dyn_start ns

-- `_sub_requires_eager`: on a node, on a sub-graph and on its node list
unfoldable mutual
  unfolding any_dyn_start

  pub node_blocks : Node → Bool
  node_blocks (plain e) = false
  node_blocks (fold e fn) = sub_requires_eager fn || any_dyn_start (sub_nodes fn)
  node_blocks (loop inputs cond body outs) = true

  pub sub_requires_eager : Sub → Bool
  sub_requires_eager (sub inputs constants ns outputs) = nodes_block ns

  pub nodes_block : Nodes → Bool
  nodes_block nil = false
  nodes_block (cons n ns) = node_blocks n || nodes_block ns

-- `_node_jit_safe`
unfoldable pub node_jit_safe : Node → Bool
unfolding requires_eager
node_jit_safe (fold e fn) = not (sub_requires_eager fn) && not (any_dyn_start (sub_nodes fn))
node_jit_safe n = not (requires_eager n)

-- An element of the plan, before and after its ids are known.
pub data Piece : Type 0 where
  run : List Node → Piece
  single : Node → Piece

pub data Segment : Type 0 where
  jit : List Node → List ℕ → List ℕ → Segment
  eager : Node → Segment

-- `flush()`
abbrev pub flush : List Node → List Piece → List Piece
flush [] rest = rest
flush (n ∷ ns) rest = run (n ∷ ns) ∷ rest

-- The loop that splits the node list; `current` is the segment under way.
unfoldable pub split : List Node → List Node → List Piece
unfolding node_jit_safe
split [] current = flush current []
split (n ∷ ns) current =
    let grown = split ns (current ++ (n ∷ [])) in
    let cut = flush current (single n ∷ split ns []) in if node_jit_safe n then grown else cut

abbrev pub piece_nodes : Piece → List Node
piece_nodes (run ns) = ns
piece_nodes (single n) = n ∷ []

-- `inputs` of several nodes, joined
unfoldable pub all_inputs : List Node → List ℕ
unfolding node_inputs
all_inputs [] = []
all_inputs (n ∷ ns) = node_inputs n ++ all_inputs ns

-- The backward loop: the ids needed at the start of the pieces, for graph outputs `outs`. A set is
-- the list of what was put into it.
unfoldable pub needed_before : List Piece → List ℕ → List ℕ
unfolding all_inputs
needed_before [] outs = outs
needed_before (p ∷ ps) outs = needed_before ps outs ++ all_inputs (piece_nodes p)

-- The inner loop that collects a segment's inputs: refs that are neither defined in it, nor
-- constants, nor collected already.
unfoldable pub add_inputs : List ℕ → List ℕ → List ℕ → List ℕ → List ℕ
add_inputs [] defined constants inputs = inputs
add_inputs (ref ∷ refs) defined constants inputs = add_inputs refs defined constants (
    if contains ref defined || (contains ref constants || contains ref inputs)
    then inputs
    else inputs ++ (ref ∷ []))

unfoldable pub segment_inputs : List Node → List ℕ → List ℕ → List ℕ → List ℕ
unfolding add_inputs node_inputs node_defined_ids
segment_inputs [] defined constants inputs = inputs
segment_inputs (n ∷ ns) defined constants inputs =
    segment_inputs ns (defined ++ node_defined_ids n) constants
      (add_inputs (node_inputs n) defined constants inputs)

-- `sorted` of a set: each element once, in order.
insert_sorted : ℕ → List ℕ → List ℕ
insert_sorted i [] = i ∷ []
insert_sorted i (j ∷ js) =
    if ltb i j then i ∷ j ∷ js else if i == j then j ∷ js else j ∷ insert_sorted i js

unfoldable pub sort_set : List ℕ → List ℕ
unfolding insert_sorted
sort_set [] = []
sort_set (i ∷ is) = insert_sorted i (sort_set is)

unfoldable pub keep_in : List ℕ → List ℕ → List ℕ
keep_in set [] = []
keep_in set (i ∷ is) = if contains i set then i ∷ keep_in set is else keep_in set is

unfoldable pub all_defined : List Node → List ℕ
unfolding node_defined_ids
all_defined [] = []
all_defined (n ∷ ns) = node_defined_ids n ++ all_defined ns

-- The ids that a segment hands on.
unfoldable pub segment_outputs : List Node → List ℕ → List ℕ
unfolding sort_set keep_in all_defined
segment_outputs ns after = keep_in after (sort_set (all_defined ns))

-- One round of the loop that gives each jit piece its ids; `after` is what is needed after it.
unfoldable pub segment_of : Piece → List ℕ → List ℕ → Segment
unfolding segment_inputs segment_outputs
segment_of (run ns) constants after =
    jit ns (segment_inputs ns [] constants []) (segment_outputs ns after)
segment_of (single n) constants after = eager n

unfoldable pub with_ids : List Piece → List ℕ → List ℕ → List Segment
unfolding segment_of needed_before
with_ids [] constants outs = []
with_ids (p ∷ ps) constants outs =
    segment_of p constants (needed_before ps outs) ∷ with_ids ps constants outs

abbrev pub has_run : List Piece → Bool
has_run [] = false
has_run (run ns ∷ ps) = true
has_run (single n ∷ ps) = has_run ps

-- `_plan_segments`: `none` where nothing can be captured.
unfoldable pub plan_segments : List Node → List ℕ → List ℕ → Option (List Segment)
unfolding split with_ids
plan_segments nodes constants outs =
    let pieces = split nodes [] in
    if has_run pieces then some (with_ids pieces constants outs) else none
