-- ===== src/Executables/Run.antt =====
-- priv/worker/executable.py: `Executable.__init__`, `_graph_fn` and `run`. What a node computes is the
-- parameter `compute`; `capture_segment` is tinygrad's `TinyJit` around a segment, and `replay` the
-- one around `_graph_fn`. A tensor is its identity and the content of its buffer, so the copies of
-- `_graph_fn` are not seen here.
pub mod Computes
use nx_tinygrad.Base.{
  ℕ, Bool, true, false, ◌||◌, ◌&&◌, Option, none, some, List, [], ◌∷◌, map, if◌then◌else◌,
}
use nx_tinygrad.Errors.{Result, ok, raise, ◌>>=◌}
use nx_tinygrad.Json.{string}
use nx_tinygrad.Dict.{Dict, insert}
use nx_tinygrad.Dtype.{is_complex, Library}
use nx_tinygrad.Graph.{Input, Constant, Node}
use nx_tinygrad.Plan.{Segment, requires_eager, plan_segments}
use nx_tinygrad.Segments.{Progress, read_all, eval_nodes, eval_segments}
use nx_tinygrad.Ops.Dispatch.{Operand, real, cx}
use nx_tinygrad.Executables.Dedup.{Tensor, Clones, dedup, values}
use nx_tinygrad.Executables.Capture.{OutputSpec, Replay, capture}

-- `any(_requires_eager(node) for node in graph["nodes"])`
unfoldable pub any_eager : List Node → Bool
any_eager [] = false
any_eager (n ∷ ns) = requires_eager n || any_eager ns

unfoldable pub constant_ids : List Constant → List ℕ
constant_ids [] = []
constant_ids (c ∷ cs) = c.id ∷ constant_ids cs

abbrev pub fresh_progress : Progress
fresh_progress = record {
  steps = [];
  segments_jit = 0;
  segments_interpreted = 0;
  segment_fallbacks = 0;
}

pub record Compiled (T : Type 0) : Type 0 where
  pub inputs : List Input
  pub nodes : List Node
  pub outputs : List ℕ
  pub constants : Dict (Operand T)
  pub is_eager : Bool
  pub segments : Option (List Segment)
  pub has_jit : Bool

module _ {T : Type 0} where
  -- `tensor.t` of a `Cx`
  abbrev pub transport : Operand T → T
  transport (real t) = t
  transport (cx t) = t

  -- `Cx(tensor) if is_complex(spec["dtype"]) else tensor`
  unfoldable pub wrap : Input → T → Result (Operand T)
  wrap spec t = do complex ← is_complex (string spec.dtype); ok (if complex then cx t else real t)

  -- `for spec, tensor in zip(self.input_specs, inputs): env[spec["id"]] = ...`
  unfoldable pub bind_tensors : List Input → List T → Dict (Operand T) → Result (Dict (Operand T))
  bind_tensors [] ts env = ok env
  bind_tensors (spec ∷ specs) [] env = ok env
  bind_tensors (spec ∷ specs) (t ∷ ts) env = do
    v ← wrap spec t
    bind_tensors specs ts (insert spec.id v env)

  -- `{c["id"]: _make_constant(c, blobs, device) for c in graph["constants"]}`
  unfoldable pub make_constants :
      (Constant → Result (Operand T)) → List Constant → Dict (Operand T) → Result (Dict (Operand T))
  make_constants make [] env = ok env
  make_constants make (c ∷ cs) env = do v ← make c; make_constants make cs (insert c.id v env)

  -- The fields that `__init__` sets before `_capture`.
  unfoldable pub initialise :
      (Constant → Result (Operand T))
      → List Input
      → List Constant
      → List Node
      → List ℕ
      → Result (Compiled T)
  unfolding any_eager make_constants constant_ids
  initialise make inputs constants nodes outputs = do
    env ← make_constants make constants []
    let eager = any_eager nodes
    ok (record {
      inputs = inputs;
      nodes = nodes;
      outputs = outputs;
      constants = env;
      is_eager = eager;
      segments = if eager then plan_segments nodes (constant_ids constants) outputs else none;
      has_jit = false;
    })

  module _ (compute : Node → List (Operand T) → Result (List (Operand T)))
      (capture_segment : ℕ
        → (List (Operand T) → Result (List (Operand T)))
        → List (Operand T)
        → Result (List (Operand T))) where
    -- The nodes, by segments or one by one.
    unfoldable pub eval_graph :
        Compiled T → Dict (Operand T) → Progress → Result (Dict (Operand T)) × Progress
    eval_graph e env progress = elim e.segments [
      | none ↦ (eval_nodes compute e.nodes env, progress)
      | some segments ↦
          if e.is_eager
          then eval_segments compute capture_segment e.constants segments 0 env progress
          else (eval_nodes compute e.nodes env, progress)
    ]

    -- `for out in self.output_specs: ...`
    unfoldable pub read_outputs : Compiled T → Result (Dict (Operand T)) → Result (List T)
    read_outputs e evaluated = do
      env ← evaluated
      vs ← read_all e.outputs env
      ok (map transport vs)

    unfoldable pub graph_fn : Compiled T → List T → Progress → Result (List T) × Progress
    unfolding eval_graph read_outputs
    graph_fn e ts progress = elim (bind_tensors e.inputs ts e.constants) [
      | raise f ↦ (raise f, progress)
      | ok env ↦
          let (evaluated, progress') = eval_graph e env progress in
          (read_outputs e evaluated, progress')
    ]

    -- `run`: the outputs, and what it leaves of the counters.
    unfoldable pub run :
        (List T → Result (List T))
        → Compiled T
        → List (Tensor T)
        → Clones
        → Progress
        → Result (List T) × (Clones × Progress)
    unfolding graph_fn
    run replay e ts clones progress =
        if e.has_jit
        then (let (ts', clones') = dedup ts clones in (replay (values ts'), (clones', progress)))
        else (let (r, progress') = graph_fn e (values ts) progress in (r, (clones, progress')))

    -- `__init__`: with `_capture`, on the fields before it.
    unfoldable pub compile_executable :
        {A : Type 0}
        → Library A T
        → Replay T A Input
        → Bool
        → (Constant → Result (Operand T))
        → List Input
        → List Constant
        → List Node
        → List ℕ
        → List OutputSpec
        → Result (Compiled T)
    unfolding initialise graph_fn
    compile_executable lib r validate make inputs constants nodes outputs specs = do
      e ← initialise make inputs constants nodes outputs
      captured ←
          capture lib (record r { graph_fn = λ ts. (graph_fn e ts fresh_progress).0 }) validate
            e.is_eager inputs specs
      ok (record e { has_jit = captured })
