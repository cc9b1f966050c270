-- ===== src/Loops/Run.antt =====
-- priv/worker/executable.py: `_interpret`, `_make_while_step` and `_run_while`. What a node computes
-- is the parameter `compute`, given the variables that the environment has under "__sym__";
-- `constant` is `_make_constant`, `item` is `int(t.item())`, `truth` is `bool(t.item())`, and
-- `capture` is tinygrad's `TinyJit` around a function of the state and the bound variables. The
-- copies of tensors are not modelled: a value is the content of its buffer.
pub mod Invariants
pub mod Plain
pub mod Static
use nx_tinygrad.Base.{
  ℕ, zero, suc, ◌+◌, String, Bool, true, false, Option, none, some, List, [], ◌∷◌, get_elem?, ◌==◌,
  if◌then◌else◌,
}
use nx_tinygrad.Errors.{Result, ok, raise, fail, python_error, ◌>>=◌}
use nx_tinygrad.Json.{ℤ}
use nx_tinygrad.Dict.{Dict, insert}
use nx_tinygrad.Graph.{Input, Constant, Node, Sub, sub, members, sub_inputs, sub_outputs, Nodes}
use nx_tinygrad.Plan.{sub_requires_eager}
use nx_tinygrad.Segments.{read_all, eval_nodes}
use nx_tinygrad.Loops.{Use, WhilePlan, symbolic_while_plan}
use nx_tinygrad.Loops.Starts.{clamp}

abbrev sub_constants : Sub → List Constant
sub_constants (sub inputs constants ns outputs) = constants

abbrev sub_members : Sub → List Node
sub_members (sub inputs constants ns outputs) = members ns

-- `input_id_by_index.get(j)`: a later input replaces an earlier one of the same index.
unfoldable pub input_at : List Input → ℕ → Option ℕ
input_at [] j = none
input_at (i ∷ is) j = elim (input_at is j) [
  | some n ↦ some n
  | none ↦ if i.index == j then some i.id else none
]

abbrev pub same_id : Option ℕ → ℕ → Bool
same_id none out = false
same_id (some n) out = n == out

-- For each output from the j-th on, whether `j in invariant`.
unfoldable pub invariant_flags : List Input → ℕ → List ℕ → List Bool
invariant_flags inputs j [] = []
invariant_flags inputs j (out ∷ outs) =
    same_id (input_at inputs j) out ∷ invariant_flags inputs (suc j) outs

module _ {V : Type 0} where
  -- `params[index]`
  unfoldable pub param : List V → ℕ → Result V
  param params j = elim (get_elem? params j) [
    | none ↦ fail (python_error "IndexError") "list index out of range"
    | some v ↦ ok v
  ]

  -- `for inp in inputs: env[inp["id"]] = params[inp["index"]]`
  unfoldable pub bind_inputs : List Input → List V → Dict V → Result (Dict V)
  unfolding param
  bind_inputs [] params env = ok env
  bind_inputs (i ∷ is) params env = do
    v ← param params i.index
    bind_inputs is params (insert i.id v env)

  -- The outputs of `fn`: the invariant ones are left out.
  unfoldable pub varying : List Bool → List V → List V
  varying [] outs = outs
  varying (flag ∷ flags) [] = []
  varying (flag ∷ flags) (out ∷ outs) =
      let rest = varying flags outs in if flag then rest else out ∷ rest

  -- `next(outs)`
  unfoldable pub next : List V → Result (V × List V)
  next [] = fail (python_error "StopIteration") ""
  next (v ∷ vs) = ok (v, vs)

  -- `[state[j] if j in invariant else next(outs) for j in range(n_state)]`
  unfoldable pub merge : List Bool → List V → List V → Result (List V)
  unfolding next
  merge flags [] outs = ok []
  merge [] (v ∷ state) outs = do (w, after) ← next outs; rest ← merge [] state after; ok (w ∷ rest)
  merge (true ∷ flags) (v ∷ state) outs = do rest ← merge flags state outs; ok (v ∷ rest)
  merge (false ∷ flags) (v ∷ state) outs = do
    (w, after) ← next outs
    rest ← merge flags state after
    ok (w ∷ rest)

  -- The first value of a list, by `item` or `truth`.
  unfoldable pub head_by : {X : Type 0} → (V → Result X) → List V → Result X
  head_by read [] = fail (python_error "IndexError") "list index out of range"
  head_by read (v ∷ vs) = read v

-- The step of a body, as `_while_steps` remembers it.
pub data Step : Type 0 where
  interpreted : Step
  captured : WhilePlan → Step

-- The counters of `WHILE_STATS` that loops move.
pub record WhileStats : Type 0 where
  pub while_jit_fallbacks : ℕ
  pub while_steps_interpreted : ℕ
  pub while_steps_jit : ℕ
  pub while_steps_symbolic : ℕ

-- The counter that a step of the kind moves.
unfoldable pub count_step : Step → WhileStats → WhileStats
count_step interpreted s = record s { while_steps_interpreted = s.while_steps_interpreted + 1 }
count_step (captured p) s = elim p.uses [
  | [] ↦ record s { while_steps_jit = s.while_steps_jit + 1 }
  | u ∷ us ↦ record s { while_steps_symbolic = s.while_steps_symbolic + 1 }
]

-- The loop is under way when the fuel is out.
pub data Outcome (V : Type 0) : Type 0 where
  running : Outcome V
  done : Result (List V) → Outcome V

-- `_make_while_step`
unfoldable pub make_while_step : Sub → Result Step
make_while_step body = if sub_requires_eager body then ok interpreted else do
  p ← symbolic_while_plan (sub_inputs body) (sub_constants body) (sub_members body)
  ok (captured p)

module _ {V : Type 0} (constant : Constant → V) where
  unfoldable pub bind_constants : List Constant → Dict V → Dict V
  bind_constants [] env = env
  bind_constants (c ∷ cs) env = bind_constants cs (insert c.id (constant c) env)

  module _ (compute : List ℤ → Node → List V → Result (List V)) where
    -- `_interpret`, on the parts of a sub-graph
    unfoldable pub interpret_nodes :
        List ℤ → List Input → List Constant → List Node → List ℕ → List V → Result (List V)
    unfolding bind_constants
    interpret_nodes syms inputs constants ns outputs params = do
      env ← bind_inputs inputs params (bind_constants constants [])
      env' ← eval_nodes (compute syms) ns env
      read_all outputs env'

    unfoldable pub interpret : Sub → List V → Result (List V)
    unfolding interpret_nodes
    interpret s params =
        interpret_nodes [] (sub_inputs s) (sub_constants s) (sub_members s) (sub_outputs s) params

    module _ (item : V → Result ℤ) (truth : V → Result Bool)
        (capture : (List V → List ℤ → Result (List V)) → List V → List ℤ → Result (List V)) where
      -- `for use in uses: ...`
      unfoldable pub bind_each : List Use → Dict V → Result (List ℤ)
      unfolding head_by
      bind_each [] scratch = ok []
      bind_each (u ∷ us) scratch = do
        vs ← read_all (u.id ∷ []) scratch
        raw ← head_by item vs
        bound ← bind_each us scratch
        ok (clamp raw u.hi ∷ bound)

      -- The bound variables of an iteration.
      unfoldable pub start_bindings : WhilePlan → List Input → List Use → List V → Result (List ℤ)
      unfolding bind_constants bind_each
      start_bindings p inputs [] state = ok []
      start_bindings p inputs (u ∷ us) state = do
        scratch ← bind_inputs inputs state (bind_constants p.anc_consts [])
        scratch' ← eval_nodes (compute []) p.anc_nodes scratch
        bind_each (u ∷ us) scratch'

      -- The function `fn` that is captured.
      unfoldable pub step_fn : WhilePlan → Sub → List Bool → List V → List ℤ → Result (List V)
      unfolding interpret_nodes
      step_fn p body flags state bound = do
        outs ←
            interpret_nodes bound (sub_inputs body) (sub_constants body) p.nodes (sub_outputs body)
              state
        ok (varying flags outs)

      -- `step`
      unfoldable pub captured_step : WhilePlan → Sub → List V → Result (List V)
      unfolding start_bindings step_fn
      captured_step p body state = do
        let flags = invariant_flags (sub_inputs body) 0 (sub_outputs body)
        bound ← start_bindings p (sub_inputs body) p.uses state
        outs ← capture (step_fn p body flags) state bound
        merge flags state outs

      -- One iteration: the new state, the step for the next one, and the counters.
      abbrev pub after_attempt :
          Sub
          → List V
          → WhilePlan
          → Result (List V)
          → WhileStats
          → Result (List V) × (Step × WhileStats)
      after_attempt body state p (ok new) stats = (ok new, (captured p, stats))
      after_attempt body state p (raise e) stats = (
        interpret body state,
        (interpreted, record stats { while_jit_fallbacks = stats.while_jit_fallbacks + 1 }),
      )

      unfoldable pub while_step :
          Sub → Step → List V → WhileStats → Result (List V) × (Step × WhileStats)
      unfolding captured_step
      while_step body interpreted state stats = (interpret body state, (interpreted, stats))
      while_step body (captured p) state stats =
          after_attempt body state p (captured_step p body state) stats

      unfoldable pub while_test : Sub → List V → Result Bool
      unfolding head_by
      while_test cond state = do outs ← interpret cond state; head_by truth outs

      -- The loop of `_run_while`.
      unfoldable pub while_loop :
          ℕ → Sub → Sub → Step → List V → WhileStats → Outcome V × (Step × WhileStats)
      unfolding while_step while_test count_step
      while_loop zero cond body step state stats = (running, (step, stats))
      while_loop (suc fuel) cond body step state stats = elim (while_test cond state) [
        | raise e ↦ (done (raise e), (step, stats))
        | ok false ↦ (done (ok state), (step, stats))
        | ok true ↦
            let (r, (step', stats')) = while_step body step state stats in
            elim r [
              | raise e ↦ (done (raise e), (step', stats'))
              | ok new ↦ while_loop fuel cond body step' new (count_step step' stats')
            ]
      ]

      -- `_run_while`: the step is the one that is remembered, or a new one.
      abbrev pub cached_step : Option Step → Sub → Result Step
      cached_step none body = make_while_step body
      cached_step (some step) body = ok step

      unfoldable pub run_while :
          ℕ → Sub → Sub → Option Step → List V → WhileStats → Outcome V × (Option Step × WhileStats)
      unfolding make_while_step while_loop
      run_while fuel cond body cached state stats = elim (cached_step cached body) [
        | raise e ↦ (done (raise e), (cached, stats))
        | ok step ↦
            let (r, (step', stats')) = while_loop fuel cond body step state stats in
            (r, (some step', stats'))
      ]
