-- ===== src/Segments.antt =====
-- priv/worker/executable.py: evaluation node by node, and by segments. What a node computes from the
-- values of its inputs is the parameter `run` (`operations.apply`, `_run_while`, `_run_reduce` and
-- `_run_window_reduce` over tinygrad); `capture` is tinygrad's `TinyJit` around a segment's
-- function. Here a value is the content of its buffer.
pub mod Agree
pub mod Eval
pub mod Refine
pub mod Outputs
pub mod Closed
pub mod Complete
pub mod Step
use nx_tinygrad.Base.{
  ℕ, zero, suc, ◌+◌, String, Bool, true, false, Option, none, some, List, [], ◌∷◌, ◌++◌, length,
}
use nx_tinygrad.Errors.{Failure, Result, ok, raise, fail, python_error, ◌>>=◌}
use nx_tinygrad.Dict.{Dict, lookup, insert}
use nx_tinygrad.Graph.{Node, node_inputs, node_defined_ids}
use nx_tinygrad.Plan.{Segment, jit, eager}

module _ {V : Type 0} where
  from_entry : Option V → Result V
  from_entry (some v) = ok v
  from_entry none = fail (python_error "KeyError") "id"

  -- `[env[i] for i in ids]`
  unfoldable pub read_all : List ℕ → Dict V → Result (List V)
  unfolding from_entry
  read_all [] env = ok []
  read_all (i ∷ ids) env = do v ← from_entry (lookup i env); vs ← read_all ids env; ok (v ∷ vs)

  -- `for i, v in zip(ids, values): env[i] = v`
  unfoldable pub bind_all : List ℕ → List V → Dict V → Dict V
  bind_all [] vs env = env
  bind_all (i ∷ ids) [] env = env
  bind_all (i ∷ ids) (v ∷ vs) env = bind_all ids vs (insert i v env)

  module _ (compute : Node → List V → Result (List V)) where
    -- `_eval_nodes`
    unfoldable pub eval_nodes : List Node → Dict V → Result (Dict V)
    unfolding read_all bind_all
    eval_nodes [] env = ok env
    eval_nodes (n ∷ ns) env = do
      args ← read_all (node_inputs n) env
      results ← compute n args
      eval_nodes ns (bind_all (node_defined_ids n) results env)

    -- The function `fn` of a segment, that `TinyJit` captures.
    unfoldable pub segment_fn : Dict V → List Node → List ℕ → List ℕ → List V → Result (List V)
    segment_fn constants ns input_ids output_ids args = do
      env ← eval_nodes ns (bind_all input_ids args constants)
      read_all output_ids env

-- How a segment runs: as captured, or node by node since a capture has failed.
pub data Mode : Type 0 where
  captured interpreted : Mode

-- `_segment_steps` and the counters of `WHILE_STATS` that segments move.
pub record Progress : Type 0 where
  pub steps : Dict Mode
  pub segments_jit : ℕ
  pub segments_interpreted : ℕ
  pub segment_fallbacks : ℕ

-- `_segment_step`: the cached mode, or a new capture.
abbrev pub cached_mode : Option Mode → Mode
cached_mode none = captured
cached_mode (some m) = m

module _ {V : Type 0} (compute : Node → List V → Result (List V))
    (capture : ℕ → (List V → Result (List V)) → List V → Result (List V)) (constants : Dict V) where
  -- The capture of segment `idx` failed: the mode is remembered, and the nodes are interpreted.
  abbrev fall_back : ℕ → Progress → Progress
  fall_back idx p = record p {
    steps = insert idx interpreted p.steps;
    segment_fallbacks = p.segment_fallbacks + 1;
  }

  after_step :
      ℕ → List Node → List ℕ → Result (List V) → Dict V → Progress → Result (Dict V) × Progress
  after_step idx ns output_ids (ok results) env p =
      (ok (bind_all output_ids results env), record p { segments_jit = p.segments_jit + 1 })
  after_step idx ns output_ids (raise e) env p = (eval_nodes compute ns env, fall_back idx p)

  -- The call of the captured step, inside the `try`.
  attempt : ℕ → List Node → List ℕ → List ℕ → Dict V → Result (List V)
  attempt idx ns input_ids output_ids env = do
    args ← read_all input_ids env
    capture idx (segment_fn compute constants ns input_ids output_ids) args

  run_segment :
      ℕ → List Node → List ℕ → List ℕ → Mode → Dict V → Progress → Result (Dict V) × Progress
  unfolding after_step attempt
  run_segment idx ns input_ids output_ids interpreted env p =
      (eval_nodes compute ns env, record p { segments_interpreted = p.segments_interpreted + 1 })
  run_segment idx ns input_ids output_ids captured env p =
      after_step idx ns output_ids (attempt idx ns input_ids output_ids env) env
        (record p { steps = insert idx captured p.steps })

  -- One round of the loop of `_eval_segments`.
  unfoldable pub eval_segment : ℕ → Segment → Dict V → Progress → Result (Dict V) × Progress
  unfolding run_segment
  eval_segment idx (eager n) env p = (eval_nodes compute (n ∷ []) env, p)
  eval_segment idx (jit ns input_ids []) env p = (ok env, p)
  eval_segment idx (jit ns input_ids (o ∷ os)) env p =
      run_segment idx ns input_ids (o ∷ os) (cached_mode (lookup idx p.steps)) env p

  -- `_eval_segments`, from position `idx` on.
  unfoldable pub eval_segments : List Segment → ℕ → Dict V → Progress → Result (Dict V) × Progress
  unfolding eval_segment
  eval_segments [] idx env p = (ok env, p)
  eval_segments (s ∷ ss) idx env p =
      let (r, p') = eval_segment idx s env p in
      elim r [ ok env' ↦ eval_segments ss (suc idx) env' p' | raise e ↦ (raise e, p') ]
