-- ===== src/Segments/Complete.antt =====
-- The function of a segment returns what full evaluation computes, and finds every id it reads.
use nx_tinygrad.Base.{
  ℕ, ◌≡◌, refl, sym, ◌∙◌, true, some, List, [], ◌∷◌, ◌++◌, arith, Bool-cases, inl, inr,
}
use nx_tinygrad.Errors.{Result, ok}
use nx_tinygrad.Dict.{Dict, lookup}
use nx_tinygrad.Dict.PopAll.{contains}
use nx_tinygrad.Graph.{Node, node_defined_ids}
use nx_tinygrad.Plan.{all_defined, segment_inputs, segment_outputs}
use nx_tinygrad.Plan.Ids.{contains-append, contains-segment_outputs}
use nx_tinygrad.Segments.{read_all, bind_all, eval_nodes, segment_fn}
use nx_tinygrad.Segments.Agree.{
  Subset, lookup-bind_all, bound-read_all, Extends, EqOn, read_all-EqOn,
}
use nx_tinygrad.Segments.Eval.{eval_nodes-cons, eval_nodes_unchanged}
use nx_tinygrad.Segments.Closed.{
  HasArity, bound_present, read_all-total, eval_nodes-closed, inputs_found,
}

-- `ids` are keys of `d`.
abbrev pub AreKeys : {V : Type 0} → List ℕ → Dict V → Type 0
AreKeys {V} ids d = (i : ℕ) → contains i ids ≡ true → (v : V) × (lookup i d ≡ some v)

module _ {V : Type 0} (compute : Node → List V → Result (List V)) (arity : HasArity compute) where
  -- A defined id has a value afterwards.
  defined_found :
      (i : ℕ) (ns : List Node) (env : Dict V) {env' : Dict V}
      → contains i (all_defined ns) ≡ true
      → eval_nodes compute ns env ≡ ok env'
      → (v : V) × (lookup i env' ≡ some v)
  unfolding eval_nodes all_defined
  defined_found i [] env c p = cc
  defined_found i (n ∷ ns) env c p =
      let (args, results, read, computed, rest) = eval_nodes-cons compute n ns env p in
      let env₁ = bind_all (node_defined_ids n) results env in
      elim (Bool-cases (contains i (all_defined ns))) [
        | inl later ↦ defined_found i ns env₁ later rest
        | inr last ↦
            let here : contains i (node_defined_ids n) ≡ true =
              ground (arith, contains-append i (node_defined_ids n) (all_defined ns)) in
            let (v, given) =
              bound_present i (node_defined_ids n) results (arity n args results computed) here in
            (
              v,
              eval_nodes_unchanged compute i ns env₁ last rest
                  ∙ rw (lookup-bind_all i (node_defined_ids n) results env, given),
            )
      ]

  module _ (constants : Dict V) (ids : List ℕ) (keys : AreKeys ids constants) where
    fresh-EqOn :
        (input_ids : List ℕ) (full : Dict V) (args : List V)
        → Extends constants full
        → AreKeys input_ids full
        → read_all input_ids full ≡ ok args
        → EqOn (ids ++ input_ids) full (bind_all input_ids args constants)
    fresh-EqOn input_ids full args consts found read i c =
        let given = bound-read_all i input_ids full read in
        let written = lookup-bind_all i input_ids args constants in
        elim (Bool-cases (contains i input_ids)) [
          | inl here ↦ let (v, e) = found i here in ground (arith, given, written, e)
          | inr other ↦
              let (v, e) = keys i (ground (arith, contains-append i ids input_ids)) in
              ground (arith, given, written, e, consts i v e)
        ]

    -- On the values of its inputs, the function of a segment returns, without a missing id,
    -- exactly the values that node-by-node evaluation gives the segment's outputs, where that
    -- evaluation returns, each node computes a value for each id it defines, and the
    -- environment holds the constants.
    pub segment_fn-eval_nodes :
        (ns : List Node) (after : List ℕ) (full full' : Dict V)
        → Extends constants full
        → eval_nodes compute ns full ≡ ok full'
        → (args results : List V) × (read_all (segment_inputs ns [] ids []) full ≡ ok args)
          × (segment_fn compute constants ns
                (segment_inputs ns [] ids [])
                (segment_outputs ns after)
                args
              ≡ ok results)
          × (read_all (segment_outputs ns after) full' ≡ ok results)
    unfolding segment_fn
    segment_fn-eval_nodes ns after full full' consts evaluated =
        let input_ids = segment_inputs ns [] ids [] in
        let outs = segment_outputs ns after in
        let found : AreKeys input_ids full = λ i c.
          elim (inputs_found compute arity i ns [] ids [] full full (λ j d. refl) evaluated c) [
            | inl nothing ↦ cc
            | inr there ↦ there
          ] in
        let (args, read) = read_all-total input_ids full found in
        let fresh = bind_all input_ids args constants in
        let (inner, inside, same) =
          eval_nodes-closed compute arity ns [] ids [] full fresh
            (fresh-EqOn input_ids full args consts found read) evaluated in
        let defined : Subset outs (all_defined ns) =
          λ i c. ground (arith, contains-segment_outputs i ns after) in
        let (results, got) =
          read_all-total outs full' (λ i c. defined_found i ns full (defined i c) evaluated) in
        (
          args,
          results,
          read,
          rw inside (sym (read_all-EqOn (all_defined ns) outs full' inner defined same) ∙ got),
          got,
        )
