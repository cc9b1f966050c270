-- ===== src/Loops/Run/Plain.antt =====
-- The loop of `_run_while` against the loop that interprets the body in each iteration.
use nx_tinygrad.Base.{
  ℕ, zero, suc, ◌≡◌, refl, sym, ap, ◌∙◌, Bool, true, false, List, [], length, Bool-cases, inl, inr,
}
use nx_tinygrad.Errors.{Result, ok, raise, >>=-eq-ok, ok_inj, Result-cases}
use nx_tinygrad.Json.{ℤ}
use nx_tinygrad.Graph.{Constant, Node, Sub, sub_inputs, sub_outputs}
use nx_tinygrad.Segments.{eval_nodes}
use nx_tinygrad.Segments.Closed.{length-read_all}
use nx_tinygrad.Loops.{WhilePlan}
use nx_tinygrad.Loops.Run.{
  sub_constants, sub_members, invariant_flags, bind_inputs, merge, Step, interpreted, captured,
  WhileStats, Outcome, running, done, interpret_nodes, interpret, start_bindings, step_fn,
  captured_step, while_step, while_test, while_loop,
}
use nx_tinygrad.Loops.Run.Invariants.{KeepsInputs, interpret_nodes-merge}

-- A captured function that returns has the result of the function.
abbrev pub IsFaithfulJit :
    {V : Type 0}
    → ((List V → List ℤ → Result (List V)) → List V → List ℤ → Result (List V))
    → Type 0
IsFaithfulJit {V} capture =
    (f : List V → List ℤ → Result (List V)) (state : List V) (bound : List ℤ) (results : List V)
    → capture f state bound ≡ ok results
    → f state bound ≡ ok results

module _ {V : Type 0} (constant : Constant → V) (compute : List ℤ → Node → List V → Result (List V))
    (item : V → Result ℤ) (truth : V → Result Bool)
    (capture : (List V → List ℤ → Result (List V)) → List V → List ℤ → Result (List V)) where
  -- The loop without captured steps.
  unfoldable pub plain_loop : ℕ → Sub → Sub → List V → Outcome V
  plain_loop zero cond body state = running
  plain_loop (suc fuel) cond body state =
      elim (while_test constant compute item truth capture cond state) [
        | raise e ↦ done (raise e)
        | ok false ↦ done (ok state)
        | ok true ↦ elim (interpret constant compute body state) [
          | raise e ↦ done (raise e)
          | ok new ↦ plain_loop fuel cond body new
        ]
      ]

  -- With its variables bound, the rewritten body gives no other outputs than the original one.
  abbrev pub Agrees : WhilePlan → Sub → Type 0
  Agrees p body =
      (state outs : List V) (bound : List ℤ)
      → start_bindings constant compute item truth capture p (sub_inputs body) p.uses state
        ≡ ok bound
      → interpret_nodes constant compute bound (sub_inputs body) (sub_constants body) p.nodes
          (sub_outputs body) state
        ≡ ok outs
      → interpret constant compute body state ≡ ok outs

  abbrev pub Matches : Step → Sub → Type 0
  Matches interpreted body = Unit
  Matches (captured p) body = Agrees p body × KeepsInputs (sub_inputs body) p.nodes

  length-interpret :
      (body : Sub) (state outs : List V)
      → interpret constant compute body state ≡ ok outs
      → length outs ≡ length (sub_outputs body)
  unfolding interpret interpret_nodes
  length-interpret body state outs h =
      let (env, e, h1) = >>=-eq-ok (bind_inputs (sub_inputs body) state _) _ h in
      let (env', e', h2) = >>=-eq-ok (eval_nodes (compute []) (sub_members body) env) _ h1 in
      length-read_all (sub_outputs body) env' h2

  module _ (faithful : IsFaithfulJit capture) where
    captured_step-interpret :
        (p : WhilePlan) (body : Sub) (state new : List V)
        → Matches (captured p) body
        → length (sub_outputs body) ≡ length state
        → captured_step constant compute item truth capture p body state ≡ ok new
        → interpret constant compute body state ≡ ok new
    unfolding captured_step step_fn
    captured_step-interpret p body state new (agrees, keeps) l h =
        let flags = invariant_flags (sub_inputs body) 0 (sub_outputs body) in
        let (bound, e, h1) =
          >>=-eq-ok
            (start_bindings constant compute item truth capture p (sub_inputs body) p.uses state) _
            h in
        let (some_outs, e1, h2) =
          >>=-eq-ok (capture (step_fn constant compute item truth capture p body flags) state bound)
            _ h1 in
        let ran =
          faithful (step_fn constant compute item truth capture p body flags) state bound some_outs
            e1 in
        let (outs, e2, h3) =
          >>=-eq-ok
            (interpret_nodes constant compute bound (sub_inputs body) (sub_constants body) p.nodes
              (sub_outputs body) state)
            _ ran in
        let merged =
          interpret_nodes-merge constant compute bound (sub_inputs body) (sub_constants body)
            p.nodes (sub_outputs body) state outs keeps l e2 in
        let same : merge flags state some_outs ≡ ok outs =
          ap (merge flags state) (sym (ok_inj h3)) ∙ merged in
        agrees state outs bound e e2 ∙ sym same ∙ h2

    while_step-interpret :
        (body : Sub) (step : Step) (state : List V) (stats : WhileStats)
        → Matches step body
        → length (sub_outputs body) ≡ length state
        → ((while_step constant compute item truth capture body step state stats).0
            ≡ interpret constant compute body state)
          × Matches (while_step constant compute item truth capture body step state stats).1.0 body
    unfolding while_step
    while_step-interpret body interpreted state stats m l = (refl, tt)
    while_step-interpret body (captured p) state stats m l =
        elim (Result-cases (captured_step constant compute item truth capture p body state)) [
          | inl (new, e) ↦ rw e (sym (captured_step-interpret p body state new m l e), m)
          | inr (f, e) ↦ rw e (refl, tt)
        ]

    -- Whatever step the loop starts with, it ends as the plain loop does with the same fuel.
    pub while_loop-plain_loop :
        (fuel : ℕ) (cond body : Sub) (step : Step) (state : List V) (stats : WhileStats)
        → Matches step body
        → length (sub_outputs body) ≡ length state
        → (while_loop constant compute item truth capture fuel cond body step state stats).0
          ≡ plain_loop fuel cond body state
    unfolding while_loop plain_loop
    while_loop-plain_loop zero cond body step state stats m l = refl
    while_loop-plain_loop (suc fuel) cond body step state stats m l =
        elim (Result-cases (while_test constant compute item truth capture cond state)) [
          | inr (f, e) ↦ rw (while_loop, plain_loop, e) refl
          | inl (going, e) ↦ elim (Bool-cases going) [
            | inr stop ↦ rw (while_loop, plain_loop, e, stop) refl
            | inl on ↦
                let (same, m') = while_step-interpret body step state stats m l in
                elim (Result-cases (interpret constant compute body state)) [
                  | inr (f, e') ↦ rw (while_loop, plain_loop, e, on, same, e') refl
                  | inl (new, e') ↦
                      let l' : length (sub_outputs body) ≡ length new =
                        sym (length-interpret body state new e') in
                      rw (while_loop, plain_loop, e, on, same, e')
                        (while_loop-plain_loop fuel cond body _ new _ m' l')
                ]
          ]
        ]
