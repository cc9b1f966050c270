-- ===== src/Loops/Run/Static.antt =====
-- A loop body without dynamic starts is captured as it is.
use nx_tinygrad.Base.{
  ℕ, ◌≡◌, refl, sym, ap, subst, Bool, none, List, [], ◌∷◌, length, Bool-cases, inl, inr,
}
use nx_tinygrad.Errors.{Result, ok, >>=-eq-ok, ok_inj}
use nx_tinygrad.Json.{ℤ}
use nx_tinygrad.Dict.{Dict}
use nx_tinygrad.Graph.{Input, Constant, Node, plain, fold, loop, Sub, sub_inputs, sub_outputs}
use nx_tinygrad.Plan.{dyn_start_count, sub_requires_eager}
use nx_tinygrad.Loops.{
  Use, WhilePlan, symbolic_while_plan, rewrite_nodes, rewrite_node, input_shapes, constant_shapes,
  node_shapes,
}
use nx_tinygrad.Loops.Run.{
  sub_constants, sub_members, Step, interpreted, WhileStats, interpret, interpret_nodes,
  start_bindings, make_while_step, run_while,
}
use nx_tinygrad.Loops.Run.Invariants.{KeepsInputs}
use nx_tinygrad.Loops.Run.Plain.{IsFaithfulJit, Matches, plain_loop, while_loop-plain_loop}

-- No node has a dynamic start.
abbrev pub IsStatic : List Node → Type 0
IsStatic [] = Unit
IsStatic (plain e ∷ ns) = (dyn_start_count e ≡ 0) × IsStatic ns
IsStatic (fold e fn ∷ ns) = IsStatic ns
IsStatic (loop inputs cond body outs ∷ ns) = IsStatic ns

rewrite_nodes-IsStatic :
    (shapes : Dict (List ℕ)) (ns : List Node) (uses : List Use)
    → IsStatic ns
    → rewrite_nodes shapes ns uses ≡ ok (ns, uses)
unfolding rewrite_nodes rewrite_node
rewrite_nodes-IsStatic shapes [] uses h = refl
rewrite_nodes-IsStatic shapes (plain e ∷ ns) uses (none_here, h) =
    rw (none_here, rewrite_nodes-IsStatic shapes ns uses h) refl
rewrite_nodes-IsStatic shapes (fold e fn ∷ ns) uses h =
    rw (rewrite_nodes-IsStatic shapes ns uses h) refl
rewrite_nodes-IsStatic shapes (loop inputs cond body outs ∷ ns) uses h =
    rw (rewrite_nodes-IsStatic shapes ns uses h) refl

symbolic_while_plan-IsStatic :
    (inputs : List Input) (constants : List Constant) (ns : List Node) (p : WhilePlan)
    → IsStatic ns
    → symbolic_while_plan inputs constants ns ≡ ok p
    → (p.nodes ≡ ns) × (p.uses ≡ [])
unfolding symbolic_while_plan
symbolic_while_plan-IsStatic inputs constants ns p static h =
    let (shapes, e, h1) =
      >>=-eq-ok (node_shapes ns (constant_shapes constants (input_shapes inputs []))) _ h in
    let h2 = rw (rewrite_nodes-IsStatic shapes ns [] static) at h1 in
    let same = ok_inj h2 in
    (sym (ap (λ (q : WhilePlan). q.nodes) same), sym (ap (λ (q : WhilePlan). q.uses) same))

module _ {V : Type 0} (constant : Constant → V) (compute : List ℤ → Node → List V → Result (List V))
    (item : V → Result ℤ) (truth : V → Result Bool)
    (capture : (List V → List ℤ → Result (List V)) → List V → List ℤ → Result (List V)) where
  make_while_step-Matches :
      (body : Sub) (step : Step)
      → IsStatic (sub_members body)
      → KeepsInputs (sub_inputs body) (sub_members body)
      → make_while_step body ≡ ok step
      → Matches constant compute item truth capture step body
  unfolding make_while_step start_bindings
  make_while_step-Matches body step static keeps h = elim (Bool-cases (sub_requires_eager body)) [
    | inl eager ↦
        let same : interpreted ≡ step = ok_inj (rw eager at h) in
        subst (λ (s : Step). Matches constant compute item truth capture s body) same tt
    | inr jit ↦
        let h' = rw jit at h in
        let (p, planned, made) =
          >>=-eq-ok (symbolic_while_plan (sub_inputs body) (sub_constants body) (sub_members body))
            _ h' in
        let (nodes, uses) =
          symbolic_while_plan-IsStatic (sub_inputs body) (sub_constants body) (sub_members body) p
            static planned in
        subst (λ (s : Step). Matches constant compute item truth capture s body) (ok_inj made)
          (
            agree p nodes uses,
            subst (λ (ns : List Node). KeepsInputs (sub_inputs body) ns) (sym nodes) keeps,
          )
  ]
    where
      agree :
          (p : WhilePlan)
          → p.nodes ≡ sub_members body
          → p.uses ≡ []
          → (state outs : List V) (bound : List ℤ)
          → start_bindings constant compute item truth capture p (sub_inputs body) p.uses state
            ≡ ok bound
          → interpret_nodes constant compute bound
              (sub_inputs body)
              (sub_constants body)
              p.nodes
              (sub_outputs body)
              state
            ≡ ok outs
          → interpret constant compute body state ≡ ok outs
      agree p nodes uses state outs bound b h =
          let none_bound : ok [] ≡ ok bound = rw (uses, start_bindings) at b in
          let h' = rw (nodes, ← ok_inj none_bound) at h in unfold interpret in h'

  -- For a body without dynamic starts, whose step `_make_while_step` makes, `_run_while` ends
  -- as the loop that interprets the body in each iteration, after as many iterations: with the
  -- captured step, with what it leaves out as invariant, and with the fallback from a step that
  -- raises; provided that the captures that return have the results of their functions, that
  -- the body has as many outputs as there are loop variables, that its inputs have distinct
  -- ids, and that none of its nodes defines one of these.
  pub run_while-plain_loop :
      (fuel : ℕ) (cond body : Sub) (step : Step) (state : List V) (stats : WhileStats)
      → IsFaithfulJit capture
      → IsStatic (sub_members body)
      → KeepsInputs (sub_inputs body) (sub_members body)
      → length (sub_outputs body) ≡ length state
      → make_while_step body ≡ ok step
      → (run_while constant compute item truth capture fuel cond body none state stats).0
        ≡ plain_loop constant compute item truth capture fuel cond body state
  unfolding run_while
  run_while-plain_loop fuel cond body step state stats faithful static keeps l made =
      rw (run_while, made)
        (while_loop-plain_loop constant compute item truth capture faithful fuel cond body step
          state stats (make_while_step-Matches body step static keeps made) l)
