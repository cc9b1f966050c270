-- ===== src/Segments/Refine.antt =====
-- Evaluation by segments gives the graph outputs that evaluation node by node gives.
use nx_tinygrad.Base.{
  ℕ, ◌≡◌, refl, sym, ap, ◌∙◌, subst, true, false, some, List, [], ◌∷◌, arith, Bool-cases, inl, inr,
}
use nx_tinygrad.Errors.{Result, ok, raise, >>=-eq-ok, ok_inj}
use nx_tinygrad.Dict.{Dict, lookup}
use nx_tinygrad.Dict.PopAll.{contains}
use nx_tinygrad.Graph.{Node}
use nx_tinygrad.Plan.{jit, all_inputs, all_defined, segment_outputs}
use nx_tinygrad.Plan.Ids.{contains-segment_outputs}
use nx_tinygrad.Segments.{
  Progress, Mode, captured, interpreted, cached_mode, read_all, bind_all, eval_nodes, segment_fn,
  attempt, after_step, run_segment, eval_segment,
}
use nx_tinygrad.Segments.Agree.{
  Subset, lookup-bind_all, bound-read_all, read_all_found, Extends, EqOn,
}
use nx_tinygrad.Segments.Eval.{eval_nodes-Extends, eval_nodes-EqOn, eval_nodes_unchanged}

-- The contract of `TinyJit`: a call of the captured function fails, or returns what the function
-- returns.
abbrev pub IsFaithful :
    {V : Type 0} → (ℕ → (List V → Result (List V)) → List V → Result (List V)) → Type 0
IsFaithful {V} capture =
    (idx : ℕ) (f : List V → Result (List V)) (args results : List V)
    → capture idx f args ≡ ok results
    → f args ≡ ok results

-- The evaluation returns, in an environment that agrees with the full one on what is needed.
abbrev pub InStep : {V : Type 0} → List ℕ → Dict V → Result (Dict V) → Type 0
InStep {V} after full r = (env : Dict V) × (r ≡ ok env) × EqOn after full env

module _ {V : Type 0} (compute : Node → List V → Result (List V)) (constants : Dict V) where
  -- What the captured function sees is part of the full environment.
  fresh-Extends :
      (input_ids set : List ℕ) (full env : Dict V) (args : List V)
      → Extends constants full
      → Subset input_ids set
      → EqOn set full env
      → read_all input_ids env ≡ ok args
      → Extends (bind_all input_ids args constants) full
  fresh-Extends input_ids set full env args consts sub same read i v p = ground (
    arith,
    lookup-bind_all i input_ids args constants,
    bound-read_all i input_ids env read,
    sub i,
    same i,
    consts i v,
  )

  -- The values that a segment's function returns are those of full evaluation.
  outputs-EqOn :
      (ns : List Node) (input_ids set after : List ℕ) (full env full' : Dict V)
      (args results : List V)
      → Extends constants full
      → Subset input_ids set
      → Subset after set
      → EqOn set full env
      → eval_nodes compute ns full ≡ ok full'
      → read_all input_ids env ≡ ok args
      → segment_fn compute constants ns input_ids (segment_outputs ns after) args ≡ ok results
      → EqOn after full' (bind_all (segment_outputs ns after) results env)
  unfolding segment_fn
  outputs-EqOn ns input_ids set after full env full' args results consts sub sub' same evaluated
        read returned i wanted =
      let outs = segment_outputs ns after in
      let fresh = bind_all input_ids args constants in
      let (inner, inside, got) = >>=-eq-ok (eval_nodes compute ns fresh) _ returned in
      let (full'', again, larger) =
        eval_nodes-Extends compute ns fresh full
          (fresh-Extends input_ids set full env args consts sub same read) inside in
      let one : full'' ≡ full' = ok_inj (sym again ∙ evaluated) in
      let exact = contains-segment_outputs i ns after in
      let given = bound-read_all i outs inner got in
      let written = lookup-bind_all i outs results env in
      elim (Bool-cases (contains i (all_defined ns))) [
        | inl defined ↦
            let handed_on : contains i outs ≡ true = ground arith in
            let (v, found) = read_all_found i outs inner handed_on got in
            let there : lookup i full' ≡ some v = ap (lookup i) (sym one) ∙ larger i v found in
            there ∙ ground (arith, given, written, handed_on, found)
        | inr kept ↦
            let absent : contains i outs ≡ false = ground arith in
            eval_nodes_unchanged compute i ns full kept evaluated
            ∙ same i (sub' i wanted)
            ∙ ground (arith, given, written, absent)
      ]

module _ {V : Type 0} (compute : Node → List V → Result (List V))
    (capture : ℕ → (List V → Result (List V)) → List V → Result (List V)) (constants : Dict V)
    (faithful : IsFaithful capture) where
  module _ (idx : ℕ) (ns : List Node) (input_ids set after : List ℕ) (full env full' : Dict V)
      (p : Progress) (consts : Extends constants full) (sub : Subset input_ids set)
      (reads : Subset (all_inputs ns) set) (sub' : Subset after set) (same : EqOn set full env)
      (evaluated : eval_nodes compute ns full ≡ ok full') where
    interpreted-InStep : InStep after full' (eval_nodes compute ns env)
    interpreted-InStep =
        let (env', again, h) = eval_nodes-EqOn compute set ns full env reads same evaluated in
        (env', again, λ i c. h i (sub' i c))

    after_step-InStep :
        (q : Progress) (r : Result (List V))
        → attempt compute capture constants idx ns input_ids (segment_outputs ns after) env ≡ r
        → InStep after full'
            (after_step compute capture constants idx ns (segment_outputs ns after) r env q).0
    unfolding after_step attempt
    after_step-InStep q (raise e) h = interpreted-InStep
    after_step-InStep q (ok results) h =
        let (args, read, called) = >>=-eq-ok (read_all input_ids env) _ h in
        (
          _,
          refl,
          outputs-EqOn compute constants ns input_ids set after full env full' args results consts
              sub sub' same evaluated read (faithful idx _ args results called),
        )

    -- A segment, captured, fallen back or interpreted, keeps the environments in step.
    run_segment-InStep :
        (m : Mode)
        → InStep after full'
            (run_segment compute capture constants idx ns input_ids
              (segment_outputs ns after)
              m
              env
              p).0
    unfolding run_segment
    run_segment-InStep interpreted = interpreted-InStep
    run_segment-InStep captured = after_step-InStep _ _ refl

    -- So does skipping a segment of which nothing is needed later.
    skipped-EqOn : segment_outputs ns after ≡ [] → EqOn after full' env
    skipped-EqOn dead i wanted =
        let undefined : contains i (all_defined ns) ≡ false =
          ground (arith, contains-segment_outputs i ns after, ap (contains i) dead) in
        eval_nodes_unchanged compute i ns full undefined evaluated ∙ same i (sub' i wanted)

    pub eval_jit-InStep :
        (outs : List ℕ)
        → segment_outputs ns after ≡ outs
        → InStep after full'
            (eval_segment compute capture constants idx (jit ns input_ids outs) env p).0
    unfolding eval_segment
    eval_jit-InStep [] e = (env, refl, skipped-EqOn e)
    eval_jit-InStep (o ∷ os) e =
        subst
          (λ (outs : List ℕ).
            InStep after full'
              (run_segment compute capture constants idx ns input_ids outs
                (cached_mode (lookup idx p.steps)) env p).0)
          e (run_segment-InStep (cached_mode (lookup idx p.steps)))
