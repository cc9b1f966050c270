-- ===== src/Segments/Closed.antt =====
-- A segment's function finds every id that it reads: the inputs of the segment are enough.
use nx_tinygrad.Base.{
  ℕ, suc, ◌≡◌, refl, sym, ap, ◌∙◌, true, false, ◌||◌, some, List, [], ◌∷◌, ◌++◌, length, arith,
  Bool-cases, inl, inr, ◌⊎◌,
}
use nx_tinygrad.Errors.{Result, ok, ok_inj, >>=-eq-ok}
use nx_tinygrad.Dict.{Dict, lookup}
use nx_tinygrad.Dict.PopAll.{contains}
use nx_tinygrad.Graph.{Node, node_inputs, node_defined_ids}
use nx_tinygrad.Plan.{all_defined, add_inputs, segment_inputs}
use nx_tinygrad.Plan.Ids.{contains-append, contains-add_inputs}
use nx_tinygrad.Segments.{from_entry, read_all, bind_all, eval_nodes}
use nx_tinygrad.Segments.Agree.{
  lookup-bind_all, bound, bound_absent, read_all_found, EqOn, or_else, read_all-EqOn,
}
use nx_tinygrad.Segments.Eval.{eval_nodes-cons}

contains-append₃ :
    (i : ℕ) (xs ys zs : List ℕ)
    → contains i (xs ++ (ys ++ zs)) ≡ (contains i xs || (contains i ys || contains i zs))
contains-append₃ i xs ys zs =
    ground (arith, contains-append i xs (ys ++ zs), contains-append i ys zs)

-- What was collected stays collected.
segment_inputs_keep :
    (i : ℕ) (ns : List Node) (defined constants inputs : List ℕ)
    → contains i inputs ≡ true
    → contains i (segment_inputs ns defined constants inputs) ≡ true
unfolding segment_inputs
segment_inputs_keep i [] defined constants inputs h = h
segment_inputs_keep i (n ∷ ns) defined constants inputs h =
    segment_inputs_keep i ns (defined ++ node_defined_ids n) constants
      (add_inputs (node_inputs n) defined constants inputs)
      (ground (arith, contains-add_inputs i (node_inputs n) defined constants inputs))

-- The ids that the first node reads are defined, constants, or collected.
segment_inputs_cover :
    (i : ℕ) (n : Node) (ns : List Node) (defined constants inputs : List ℕ)
    → contains i (node_inputs n) ≡ true
    → (contains i defined
        || (contains i constants || contains i (segment_inputs (n ∷ ns) defined constants inputs)))
      ≡ true
unfolding segment_inputs
segment_inputs_cover i n ns defined constants inputs h =
    let inputs' = add_inputs (node_inputs n) defined constants inputs in
    ground (
      arith,
      contains-add_inputs i (node_inputs n) defined constants inputs,
      segment_inputs_keep i ns (defined ++ node_defined_ids n) constants inputs',
    )

module _ {V : Type 0} where
  pub bound_present :
      (i : ℕ) (ids : List ℕ) (vs : List V)
      → length vs ≡ length ids
      → contains i ids ≡ true
      → (v : V) × (bound i ids vs ≡ some v)
  unfolding bound
  bound_present i [] vs l h = cc
  bound_present i (j ∷ ids) [] l h = absurd (omega arith)
  bound_present i (j ∷ ids) (v ∷ vs) l h = elim (Bool-cases (contains i ids)) [
    | inl later ↦ let (w, e) = bound_present i ids vs (omega arith) later in (w, rw e)
    | inr last ↦ (v, ground (arith, bound_absent i ids vs last))
  ]

  pub read_all-total :
      (ids : List ℕ) (env : Dict V)
      → ((i : ℕ) → contains i ids ≡ true → (v : V) × (lookup i env ≡ some v))
      → (vs : List V) × (read_all ids env ≡ ok vs)
  unfolding read_all
  read_all-total [] env h = ([], refl)
  read_all-total (i ∷ ids) env h =
      let (v, e) = h i (ground arith) in
      let (vs, es) = read_all-total ids env (λ j c. h j (ground arith)) in
      (v ∷ vs, rw (e, from_entry, es))

  pub length-read_all :
      (ids : List ℕ) (env : Dict V) {vs : List V}
      → read_all ids env ≡ ok vs
      → length vs ≡ length ids
  unfolding read_all
  length-read_all [] env h = ap length (sym (ok_inj h))
  length-read_all (i ∷ ids) env h =
      let (v, e, h1) = >>=-eq-ok (from_entry (lookup i env)) _ h in
      let (vs, e1, h2) = >>=-eq-ok (read_all ids env) _ h1 in
      ap length (sym (ok_inj h2)) ∙ ap suc (length-read_all ids env e1)

-- Each node computes a value for each id that it defines.
abbrev pub HasArity : {V : Type 0} → (Node → List V → Result (List V)) → Type 0
HasArity {V} compute =
    (n : Node) (args results : List V)
    → compute n args ≡ ok results
    → length results ≡ length (node_defined_ids n)

module _ {V : Type 0} (compute : Node → List V → Result (List V)) (arity : HasArity compute) where
  bind_all-EqOn_defined :
      (set ids : List ℕ) (vs : List V) (e₁ e₂ : Dict V) (i : ℕ)
      → length vs ≡ length ids
      → EqOn set e₁ e₂
      → (contains i ids || contains i set) ≡ true
      → lookup i (bind_all ids vs e₁) ≡ lookup i (bind_all ids vs e₂)
  bind_all-EqOn_defined set ids vs e₁ e₂ i l h c = elim (Bool-cases (contains i ids)) [
    | inl here ↦
        let (v, given) = bound_present i ids vs l here in
        rw (lookup-bind_all i ids vs e₁, lookup-bind_all i ids vs e₂, given)
    | inr other ↦
        rw (lookup-bind_all i ids vs e₁, lookup-bind_all i ids vs e₂)
          (ap (or_else (bound i ids vs)) (h i (rw other at c)))
  ]

  -- Two environments that agree on what is defined, constant or collected stay so.
  pub eval_nodes-closed :
      (ns : List Node) (defined ids inputs : List ℕ) (e₁ e₂ : Dict V) {e₁' : Dict V}
      → EqOn (defined ++ (ids ++ segment_inputs ns defined ids inputs)) e₁ e₂
      → eval_nodes compute ns e₁ ≡ ok e₁'
      → (e₂' : Dict V) × (eval_nodes compute ns e₂ ≡ ok e₂')
        × EqOn (defined ++ all_defined ns) e₁' e₂'
  unfolding eval_nodes all_defined segment_inputs
  eval_nodes-closed [] defined ids inputs e₁ e₂ h p = (
    e₂,
    refl,
    λ i c.
        ap (lookup i) (sym (ok_inj p))
        ∙ h i (ground (arith, contains-append i defined [], contains-append₃ i defined ids inputs)),
  )
  eval_nodes-closed (n ∷ ns) defined ids inputs e₁ e₂ h p =
      let (args, results, read, computed, rest) = eval_nodes-cons compute n ns e₁ p in
      let inputs' = add_inputs (node_inputs n) defined ids inputs in
      let defined' = defined ++ node_defined_ids n in
      let final = segment_inputs ns defined' ids inputs' in
      let set = defined ++ (ids ++ final) in
      let same =
        read_all-EqOn set (node_inputs n) e₁ e₂
          (λ i c.
            contains-append₃ i defined ids final ∙ segment_inputs_cover i n ns defined ids inputs c)
          h in
      let (e₂', evaluated, h') =
        eval_nodes-closed ns defined' ids inputs' (bind_all (node_defined_ids n) results e₁)
          (bind_all (node_defined_ids n) results e₂)
          (λ i c.
            bind_all-EqOn_defined set (node_defined_ids n) results e₁ e₂ i
              (arity n args results computed) h
              (ground (
                arith,
                contains-append₃ i defined' ids final,
                contains-append i defined (node_defined_ids n),
                contains-append₃ i defined ids final,
              )))
          rest in
      (
        e₂',
        rw (sym same ∙ read, computed) evaluated,
        λ i c. h' i (
            ground (
              arith,
              contains-append₃ i defined (node_defined_ids n) (all_defined ns),
              contains-append i defined' (all_defined ns),
              contains-append i defined (node_defined_ids n),
            )),
      )

  -- What a segment takes in was there before it.
  pub inputs_found :
      (i : ℕ) (ns : List Node) (defined ids inputs : List ℕ) (start env : Dict V) {env' : Dict V}
      → ((j : ℕ) → contains j defined ≡ false → lookup j env ≡ lookup j start)
      → eval_nodes compute ns env ≡ ok env'
      → contains i (segment_inputs ns defined ids inputs) ≡ true
      → (contains i inputs ≡ true) ⊎ ((v : V) × (lookup i start ≡ some v))
  unfolding eval_nodes segment_inputs
  inputs_found i [] defined ids inputs start env h p c = inl c
  inputs_found i (n ∷ ns) defined ids inputs start env h p c =
      let (args, results, read, computed, rest) = eval_nodes-cons compute n ns env p in
      let defined' = defined ++ node_defined_ids n in
      let inputs' = add_inputs (node_inputs n) defined ids inputs in
      let env₁ = bind_all (node_defined_ids n) results env in
      let kept : (j : ℕ) → contains j defined' ≡ false → lookup j env₁ ≡ lookup j start = λ j d.
        let split = contains-append j defined (node_defined_ids n) in
        ground (
          arith,
          split,
          h j,
          lookup-bind_all j (node_defined_ids n) results env,
          bound_absent j (node_defined_ids n) results,
        ) in
      elim (inputs_found i ns defined' ids inputs' start env₁ kept rest c) [
        | inr found ↦ inr found
        | inl collected ↦ elim (Bool-cases (contains i inputs)) [
          | inl old ↦ inl old
          | inr new ↦
              let exact = contains-add_inputs i (node_inputs n) defined ids inputs in
              let reads : contains i (node_inputs n) ≡ true = ground arith in
              let outside : contains i defined ≡ false = ground arith in
              let (v, found) = read_all_found i (node_inputs n) env reads read in
              inr (v, sym (h i outside) ∙ found)
        ]
      ]
