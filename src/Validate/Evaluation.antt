-- ===== src/Validate/Evaluation.antt =====
-- The evaluation of an accepted graph by `Executable`: no id is missing.
use nx_tinygrad.Base.{
  ℕ, ◌≡◌, refl, sym, ap, ◌∙◌, subst, true, false, some, List, [], ◌∷◌, ◌++◌, map, arith, length,
  append_assoc, Bool-cases, inl, inr, ◌⊎◌, Option-cases, ==_iff,
}
use nx_tinygrad.Errors.{Failure, Result, ok, raise, Result-cases}
use nx_tinygrad.Json.{Value}
use nx_tinygrad.Dict.{Dict, lookup}
use nx_tinygrad.Dict.PopAll.{contains}
use nx_tinygrad.Graph.{Node, node_inputs, node_defined_ids}
use nx_tinygrad.Plan.{Segment, all_defined, plan_segments}
use nx_tinygrad.Plan.Ids.{contains-append}
use nx_tinygrad.Segments.{Progress, bind_all, read_all, eval_nodes, eval_segments}
use nx_tinygrad.Segments.Agree.{Extends, bound, lookup-bind_all}
use nx_tinygrad.Segments.Closed.{HasArity, bound_present, read_all-total}
use nx_tinygrad.Segments.Complete.{AreKeys}
use nx_tinygrad.Segments.Refine.{IsFaithful}
use nx_tinygrad.Segments.Outputs.{LeavesAlone, eval_segments-outputs}
use nx_tinygrad.Validate.{all_distinct}
use nx_tinygrad.Validate.Accepted.{Reading, read_defined, IsScoped, IsAccepted}

abbrev pub reading : Node → Reading
reading n = (node_inputs n, node_defined_ids n)

-- The nodes up to one are evaluated, and that one has all its inputs, but its computation raises.
abbrev pub Raises : {V : Type 0} → (Node → List V → Result (List V)) → List Node → Dict V → Type 0
Raises {V} compute ns env =
    (before after : List Node) × (n : Node) × (env' : Dict V) × (args : List V) × (e : Failure)
    × (ns ≡ before ++ (n ∷ after))
    × (eval_nodes compute before env ≡ ok env')
    × (read_all (node_inputs n) env' ≡ ok args)
    × (compute n args ≡ raise e)

read_defined-reading : (ns : List Node) → read_defined (map reading ns) ≡ all_defined ns
unfolding read_defined all_defined
read_defined-reading [] = refl
read_defined-reading (n ∷ ns) =
    ap (λ (ids : List ℕ). node_defined_ids n ++ ids) (read_defined-reading ns)

all_distinct-append :
    (xs ys : List ℕ) (i : ℕ)
    → all_distinct (xs ++ ys) ≡ true
    → contains i xs ≡ true
    → contains i ys ≡ false
unfolding all_distinct
all_distinct-append [] ys i h c = cc
all_distinct-append (x ∷ xs) ys i h c = elim (Bool-cases (contains i xs)) [
  | inl later ↦ all_distinct-append xs ys i (ground arith) later
  | inr first ↦
      let same : i ≡ x = (==_iff i x).0 (ground arith) in
      rw same (ground (arith, contains-append x xs ys))
]

module _ {V : Type 0} (compute : Node → List V → Result (List V)) (arity : HasArity compute) where
  AreKeys-bind_all :
      (known ids : List ℕ) (vs : List V) (env : Dict V)
      → length vs ≡ length ids
      → AreKeys known env
      → AreKeys (known ++ ids) (bind_all ids vs env)
  AreKeys-bind_all known ids vs env l keys i c = elim (Bool-cases (contains i ids)) [
    | inl new ↦
        let (v, e) = bound_present i ids vs l new in (v, rw (lookup-bind_all i ids vs env, e) refl)
    | inr old ↦
        let (v, e) = keys i (ground (arith, contains-append i known ids)) in
        elim (Option-cases (bound i ids vs)) [
          | inl free ↦ (v, rw (lookup-bind_all i ids vs env, free) e)
          | inr (w, taken) ↦ (w, rw (lookup-bind_all i ids vs env, taken) refl)
        ]
  ]

  Raises-cons :
      (n : Node) (ns : List Node) (env : Dict V) (args results : List V)
      → read_all (node_inputs n) env ≡ ok args
      → compute n args ≡ ok results
      → Raises compute ns (bind_all (node_defined_ids n) results env)
      → Raises compute (n ∷ ns) env
  unfolding eval_nodes
  Raises-cons n ns env args results read computed
        (before, after, m, env', args', e, at, ran, reads, raises) =
      (n ∷ before, after, m, env', args', e, ap (n ∷◌) at, rw (read, computed) ran, reads, raises)

  -- All nodes are evaluated, or the computation of one raises: no id is missing.
  eval_nodes-Raises :
      (ns : List Node) (known : List ℕ) (env : Dict V)
      → IsScoped known (map reading ns)
      → AreKeys known env
      → ((env' : Dict V) × (eval_nodes compute ns env ≡ ok env')
          × AreKeys (known ++ all_defined ns) env')
        ⊎ Raises compute ns env
  unfolding eval_nodes all_defined
  eval_nodes-Raises [] known env scoped keys =
      inl (env, refl, λ i c. keys i (ground (arith, contains-append i known [])))
  eval_nodes-Raises (n ∷ ns) known env (sub, scoped) keys =
      let (args, read) = read_all-total (node_inputs n) env (λ i c. keys i (sub i c)) in
      elim (Result-cases (compute n args)) [
        | inr (e, raised) ↦ inr ([], ns, n, env, args, e, refl, refl, read, raised)
        | inl (results, computed) ↦
            let after = bind_all (node_defined_ids n) results env in
            let known' = known ++ node_defined_ids n in
            let keys' =
              AreKeys-bind_all known (node_defined_ids n) results env
                (arity n args results computed) keys in
            elim (eval_nodes-Raises ns known' after scoped keys') [
              | inr raises ↦ inr (Raises-cons n ns env args results read computed raises)
              | inl (env', ended, found) ↦ inl (
                env',
                rw (read, computed) ended,
                λ i c. found i (
                    ap (contains i) (append_assoc known (node_defined_ids n) (all_defined ns)) ∙ c),
              )
            ]
      ]

  -- The whole of a graph: node by node, and by segments.
  module _ {limit : ℕ} {graph : Value} (a : IsAccepted limit graph) (ns : List Node)
      (same : map reading ns ≡ a.nodes) where
    accepted-eval_nodes :
        (env : Dict V)
        → AreKeys (a.inputs ++ a.constants) env
        → ((full : Dict V) × (eval_nodes compute ns env ≡ ok full) × AreKeys a.outputs full)
          ⊎ Raises compute ns env
    accepted-eval_nodes env keys =
        let known = a.inputs ++ a.constants in
        let start = subst (λ (rs : List Reading). IsScoped known rs) (sym same) a.scoped in
        let defined : read_defined a.nodes ≡ all_defined ns =
          ap read_defined (sym same) ∙ read_defined-reading ns in
        elim (eval_nodes-Raises ns known env start keys) [
          | inr raises ↦ inr raises
          | inl (full, ended, keys') ↦ inl (
            full,
            ended,
            λ i c.
                keys' i
                  (ap (λ (ids : List ℕ). contains i (known ++ ids)) (sym defined) ∙ a.found i c),
          )
        ]

    accepted-LeavesAlone :
        (constants : Dict V)
        → ((i : ℕ) (v : V) → lookup i constants ≡ some v → contains i a.constants ≡ true)
        → LeavesAlone constants ns
    accepted-LeavesAlone constants known i v there =
        let defined : read_defined a.nodes ≡ all_defined ns =
          ap read_defined (sym same) ∙ read_defined-reading ns in
        ap (contains i) (sym defined)
        ∙ all_distinct-append (a.inputs ++ a.constants) (read_defined a.nodes) i a.distinct
            (ground (arith, contains-append i a.inputs a.constants, known i v there))

    -- An accepted graph is evaluated by its segments without a missing id, and each of its
    -- outputs has a value afterwards; or else there is a node such that the nodes before it
    -- are evaluated one by one and all its inputs have values, but its own computation
    -- raises. The nodes are those read off the graph, a computation that returns has a value
    -- for each id of its node, the captures that return have the results of their functions,
    -- and the inputs and the constants are bound at the start.
    pub accepted-eval_segments :
        (capture : ℕ → (List V → Result (List V)) → List V → Result (List V))
        (constants env : Dict V) (segments : List Segment) (progress : Progress)
        → IsFaithful capture
        → ((i : ℕ) (v : V) → lookup i constants ≡ some v → contains i a.constants ≡ true)
        → AreKeys (a.inputs ++ a.constants) env
        → Extends constants env
        → plan_segments ns a.constants a.outputs ≡ some segments
        → ((env' : Dict V) × ((eval_segments compute capture constants segments 0 env progress).0
              ≡ ok env')
            × AreKeys a.outputs env')
          ⊎ Raises compute ns env
    accepted-eval_segments capture constants env segments progress faithful known keys consts
          planned =
        elim (accepted-eval_nodes env keys) [
          | inr raises ↦ inr raises
          | inl (full, ended, found) ↦
              let (env', ended', agree) =
                eval_segments-outputs compute capture constants faithful ns a.constants a.outputs
                  segments env full progress planned consts (accepted-LeavesAlone constants known)
                  ended in
              inl (env', ended', λ i c. let (v, e) = found i c in (v, sym (agree i c) ∙ e))
        ]
