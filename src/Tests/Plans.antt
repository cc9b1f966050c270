-- ===== src/Tests/Plans.antt =====
-- A graph that is cut by a slice with a dynamic start, run by its segments.
use nx_tinygrad.Base.{
  ℕ, ◌+◌, ◌≡◌, refl, String, false, some, List, [], ◌∷◌, arith, ◌==◌, if◌then◌else◌,
}
use nx_tinygrad.Errors.{Result, ok, fail, compile_error, ok_inj}
use nx_tinygrad.Json.{null}
use nx_tinygrad.Dict.{Dict, lookup, insert}
use nx_tinygrad.Graph.{Node, plain, fold, loop, input, node_inputs, node_defined_ids}
use nx_tinygrad.Plan.{
  Segment, jit, eager, all_defined, segment_inputs, segment_outputs, plan_segments, split,
}
use nx_tinygrad.Plan.Pieces.{join_nodes, IsMaximal, split_lem}
use nx_tinygrad.Segments.{Progress, read_all, eval_nodes, segment_fn, eval_segments}
use nx_tinygrad.Segments.Agree.{Extends}
use nx_tinygrad.Segments.Refine.{IsFaithful, InStep}
use nx_tinygrad.Segments.Closed.{HasArity}
use nx_tinygrad.Segments.Complete.{AreKeys, segment_fn-eval_nodes}
use nx_tinygrad.Segments.Outputs.{LeavesAlone, eval_segments-outputs}

abbrev pub node : String → ℕ → List ℕ → Node
node op i inputs = plain (record {
  op = op;
  inputs = inputs;
  starts = input 0 ∷ [];
  lengths = 1 ∷ [];
  attrs = null;
  spec = record { id = i; shape = 4 ∷ []; dtype = "s32" };
})

-- Id 0 is an input and id 1 a constant.
abbrev pub some_nodes : List Node
some_nodes =
    node "add" 2 (0 ∷ 1 ∷ [])
    ∷ node "slice" 3 (2 ∷ 1 ∷ [])
    ∷ node "add" 4 (3 ∷ 1 ∷ [])
    ∷ node "add" 5 (4 ∷ 4 ∷ [])
    ∷ []

abbrev pub some_segments : List Segment
some_segments =
    jit (node "add" 2 (0 ∷ 1 ∷ []) ∷ []) (0 ∷ []) (2 ∷ [])
    ∷ eager (node "slice" 3 (2 ∷ 1 ∷ []))
    ∷ jit (node "add" 4 (3 ∷ 1 ∷ []) ∷ node "add" 5 (4 ∷ 4 ∷ []) ∷ []) (3 ∷ []) (5 ∷ [])
    ∷ []

pub some_plan : plan_segments some_nodes (1 ∷ []) (5 ∷ []) ≡ some some_segments
unfolding plan_segments
some_plan = refl

-- Every node adds up its inputs.
unfoldable total : List ℕ → ℕ
total [] = 0
total (v ∷ vs) = v + total vs

unfoldable pub add_up : Node → List ℕ → Result (List ℕ)
unfolding total
add_up (plain e) vs = ok (total vs ∷ [])
add_up n vs = fail compile_error "loop"

add_up-HasArity : HasArity add_up
unfolding add_up node_defined_ids
add_up-HasArity (plain e) args results h = rw (← ok_inj h) refl
add_up-HasArity (fold e fn) args results h = cc
add_up-HasArity (loop inputs cond body outs) args results h = cc

-- The capture of the third segment fails.
abbrev pub capture_some : ℕ → (List ℕ → Result (List ℕ)) → List ℕ → Result (List ℕ)
capture_some idx f args = if idx == 2 then fail compile_error "capture failed" else f args

pub capture_some-IsFaithful : IsFaithful capture_some
capture_some-IsFaithful idx f args results h = ground arith

abbrev pub some_constants : Dict ℕ
some_constants = (1, 3) ∷ []

abbrev pub some_env : Dict ℕ
some_env = (1, 3) ∷ (0, 10) ∷ []

abbrev pub some_result : Dict ℕ
some_result = (1, 3) ∷ (0, 10) ∷ (2, 13) ∷ (3, 16) ∷ (4, 19) ∷ (5, 38) ∷ []

pub some_result-eval_nodes : eval_nodes add_up some_nodes some_env ≡ ok some_result
unfolding eval_nodes add_up node_inputs node_defined_ids lookup insert
some_result-eval_nodes = refl

pub some_env-Extends : Extends some_constants some_env
unfolding lookup
some_env-Extends i v h = ground arith

some_nodes-LeavesAlone : LeavesAlone some_constants some_nodes
unfolding lookup all_defined node_defined_ids
some_nodes-LeavesAlone i v h = ground arith

abbrev pub no_progress : Progress
no_progress = record {
  steps = [];
  segments_jit = 0;
  segments_interpreted = 0;
  segment_fallbacks = 0;
}

eval_segments-outputs_example :
    InStep
      (5 ∷ [])
      some_result
      (eval_segments add_up capture_some some_constants some_segments 0 some_env no_progress).0
eval_segments-outputs_example =
    eval_segments-outputs add_up capture_some some_constants capture_some-IsFaithful some_nodes
      (1 ∷ []) (5 ∷ []) some_segments some_env some_result no_progress some_plan some_env-Extends
      some_nodes-LeavesAlone some_result-eval_nodes

constant_keys : AreKeys (1 ∷ []) some_constants
unfolding lookup
constant_keys i h = (3, ground arith)

segment_fn-eval_nodes_example :
    (args results : List ℕ) × (read_all (segment_inputs some_nodes [] (1 ∷ []) []) some_env
      ≡ ok args)
    × (segment_fn add_up some_constants some_nodes
          (segment_inputs some_nodes [] (1 ∷ []) [])
          (segment_outputs some_nodes (5 ∷ []))
          args
        ≡ ok results)
    × (read_all (segment_outputs some_nodes (5 ∷ [])) some_result ≡ ok results)
segment_fn-eval_nodes_example =
    segment_fn-eval_nodes add_up add_up-HasArity some_constants (1 ∷ []) constant_keys some_nodes
      (5 ∷ []) some_env some_result some_env-Extends some_result-eval_nodes

split_lem_example :
    (join_nodes (split some_nodes []) ≡ some_nodes) × IsMaximal false (split some_nodes [])
split_lem_example = split_lem some_nodes
