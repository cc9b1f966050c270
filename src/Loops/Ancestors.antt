-- ===== src/Loops/Ancestors.antt =====
-- The start values: evaluation of the ancestors alone gives what evaluation of the whole body gives.
use nx_tinygrad.Base.{
  ℕ, ◌≡◌, refl, Bool, true, false, List, [], ◌∷◌, ◌++◌, arith, Bool-cases, inl, inr,
}
use nx_tinygrad.Errors.{Result, ok, ok_inj}
use nx_tinygrad.Dict.{Dict}
use nx_tinygrad.Dict.PopAll.{contains}
use nx_tinygrad.Graph.{Node, plain, fold, loop, node_inputs, node_defined_ids}
use nx_tinygrad.Plan.Ids.{contains-append}
use nx_tinygrad.Segments.{bind_all, eval_nodes}
use nx_tinygrad.Segments.Agree.{EqOn, bound_absent, lookup-bind_all, bind_all-EqOn, read_all-EqOn}
use nx_tinygrad.Segments.Eval.{eval_nodes-cons}
use nx_tinygrad.Loops.{is_needed, ancestors}

-- No node is a `while`.
abbrev pub has_loop : List Node → Bool
has_loop [] = false
has_loop (loop inputs cond body outs ∷ ns) = true
has_loop (plain e ∷ ns) = has_loop ns
has_loop (fold e fn ∷ ns) = has_loop ns

is_needed-node_defined_ids :
    (n : Node) (ns : List Node) (needed : List ℕ) (i : ℕ)
    → has_loop (n ∷ ns) ≡ false
    → is_needed n needed ≡ false
    → contains i needed ≡ true
    → (contains i (node_defined_ids n) ≡ false) × (has_loop ns ≡ false)
unfolding node_defined_ids
is_needed-node_defined_ids (plain e) ns needed i h k c = (ground arith, h)
is_needed-node_defined_ids (fold e fn) ns needed i h k c = (ground arith, h)
is_needed-node_defined_ids (loop inputs cond body outs) ns needed i h k c = cc

has_loop-rest : (n : Node) (ns : List Node) → has_loop (n ∷ ns) ≡ false → has_loop ns ≡ false
has_loop-rest (plain e) ns h = h
has_loop-rest (fold e fn) ns h = h
has_loop-rest (loop inputs cond body outs) ns h = cc

module _ {V : Type 0} (compute : Node → List V → Result (List V)) where
  -- Where evaluation of a list of nodes with no `while` returns, evaluation of only the
  -- ancestors of some ids returns too, from any environment that agrees on what is needed
  -- before them, and gives these ids the same values.
  pub eval_nodes-ancestors :
      (ns : List Node) (needed : List ℕ) (full env full' : Dict V)
      → has_loop ns ≡ false
      → EqOn (ancestors ns needed).1 full env
      → eval_nodes compute ns full ≡ ok full'
      → (env' : Dict V) × (eval_nodes compute (ancestors ns needed).0 env ≡ ok env')
        × EqOn needed full' env'
  unfolding ancestors eval_nodes
  eval_nodes-ancestors [] needed full env full' flat same evaluated =
      (env, refl, λ i c. rw (← ok_inj evaluated) (same i c))
  eval_nodes-ancestors (n ∷ ns) needed full env full' flat same evaluated =
      let (args, results, read, computed, rest) = eval_nodes-cons compute n ns full evaluated in
      let before = (ancestors ns needed).1 in
      let full₁ = bind_all (node_defined_ids n) results full in
      let env₁ = bind_all (node_defined_ids n) results env in
      let flat' = has_loop-rest n ns flat in
      elim (Bool-cases (is_needed n before)) [
        | inl kept ↦
            let set = before ++ node_inputs n in
            let same' : EqOn set full env = λ i c. same i (rw kept c) in
            let agree =
              read_all-EqOn set (node_inputs n) full env
                (λ i c. ground (arith, contains-append i before (node_inputs n))) same' in
            let later : EqOn before full₁ env₁ =
              bind_all-EqOn before (node_defined_ids n) results full env
                (λ i c. same' i (ground (arith, contains-append i before (node_inputs n)))) in
            let (env', ended, h) =
              eval_nodes-ancestors ns needed full₁ env₁ full' flat' later rest in
            (env', rw (kept, ← agree, read, computed) ended, h)
        | inr dropped ↦
            let later : EqOn before full₁ env = λ i c. ground (
              arith,
              lookup-bind_all i (node_defined_ids n) results full,
              bound_absent i (node_defined_ids n) results
                  (is_needed-node_defined_ids n ns before i flat dropped c).0,
              same i (rw dropped c),
            ) in
            let (env', ended, h) =
              eval_nodes-ancestors ns needed full₁ env full' flat' later rest in
            (env', rw dropped ended, h)
      ]
