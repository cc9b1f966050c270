-- ===== src/Segments/Eval.antt =====
-- `_eval_nodes` in two environments.
use nx_tinygrad.Base.{ℕ, ◌≡◌, refl, sym, ap, ◌∙◌, false, List, [], ◌∷◌, ◌++◌, arith, inl, inr}
use nx_tinygrad.Errors.{Result, ok, ◌>>=◌, >>=-eq-ok, ok_inj, Result-cases}
use nx_tinygrad.Dict.{Dict, lookup}
use nx_tinygrad.Dict.PopAll.{contains}
use nx_tinygrad.Graph.{Node, node_inputs, node_defined_ids}
use nx_tinygrad.Plan.{all_inputs, all_defined}
use nx_tinygrad.Plan.Ids.{contains-append}
use nx_tinygrad.Segments.{read_all, bind_all, eval_nodes}
use nx_tinygrad.Segments.Agree.{
  Subset, Subset-append_left, Subset-append_right, lookup-bind_all, bound_absent, Extends, EqOn,
  bind_all-Extends, bind_all-EqOn, read_all-Extends, read_all-EqOn,
}

module _ {V : Type 0} (compute : Node → List V → Result (List V)) where
  -- One node of a successful evaluation.
  pub eval_nodes-cons :
      (n : Node) (ns : List Node) (env : Dict V) {env' : Dict V}
      → eval_nodes compute (n ∷ ns) env ≡ ok env'
      → (args results : List V) × (read_all (node_inputs n) env ≡ ok args)
        × (compute n args ≡ ok results)
        × (eval_nodes compute ns (bind_all (node_defined_ids n) results env) ≡ ok env')
  unfolding eval_nodes
  eval_nodes-cons n ns env h =
      let (args, e1, h1) = >>=-eq-ok (read_all (node_inputs n) env) _ h in
      let (results, e2, h2) = >>=-eq-ok (compute n args) _ h1 in (args, results, e1, e2, h2)

  -- A larger environment does not change what is computed.
  pub eval_nodes-Extends :
      (ns : List Node) (e₁ e₂ : Dict V) {e₁' : Dict V}
      → Extends e₁ e₂
      → eval_nodes compute ns e₁ ≡ ok e₁'
      → (e₂' : Dict V) × (eval_nodes compute ns e₂ ≡ ok e₂') × Extends e₁' e₂'
  unfolding eval_nodes
  eval_nodes-Extends [] e₁ e₂ h p = (e₂, refl, λ i v q. h i v (rw (ok_inj p) q))
  eval_nodes-Extends (n ∷ ns) e₁ e₂ h p =
      let (args, results, read, computed, rest) = eval_nodes-cons n ns e₁ p in
      let (e₂', evaluated, h') =
        eval_nodes-Extends ns (bind_all (node_defined_ids n) results e₁)
          (bind_all (node_defined_ids n) results e₂)
          (bind_all-Extends (node_defined_ids n) results e₁ e₂ h) rest in
      (e₂', rw (read_all-Extends (node_inputs n) e₁ e₂ h read, computed) evaluated, h')

  -- Environments that agree on what the nodes read agree on it afterwards.
  pub eval_nodes-EqOn :
      (set : List ℕ) (ns : List Node) (e₁ e₂ : Dict V) {e₁' : Dict V}
      → Subset (all_inputs ns) set
      → EqOn set e₁ e₂
      → eval_nodes compute ns e₁ ≡ ok e₁'
      → (e₂' : Dict V) × (eval_nodes compute ns e₂ ≡ ok e₂') × EqOn set e₁' e₂'
  unfolding eval_nodes all_inputs
  eval_nodes-EqOn set [] e₁ e₂ s h p = (e₂, refl, λ i q. rw (← ok_inj p) (h i q))
  eval_nodes-EqOn set (n ∷ ns) e₁ e₂ s h p =
      let (args, results, read, computed, rest) = eval_nodes-cons n ns e₁ p in
      let same =
        read_all-EqOn set (node_inputs n) e₁ e₂
          (Subset-append_left (node_inputs n) (all_inputs ns) set s) h in
      let (e₂', evaluated, h') =
        eval_nodes-EqOn set ns (bind_all (node_defined_ids n) results e₁)
          (bind_all (node_defined_ids n) results e₂)
          (Subset-append_right (node_inputs n) (all_inputs ns) set s)
          (bind_all-EqOn set (node_defined_ids n) results e₁ e₂ h) rest in
      (e₂', rw (sym same ∙ read, computed) evaluated, h')

  -- An id that no node defines keeps its value.
  pub eval_nodes_unchanged :
      (i : ℕ) (ns : List Node) (env : Dict V) {env' : Dict V}
      → contains i (all_defined ns) ≡ false
      → eval_nodes compute ns env ≡ ok env'
      → lookup i env' ≡ lookup i env
  unfolding eval_nodes all_defined
  eval_nodes_unchanged i [] env h p = ap (lookup i) (sym (ok_inj p))
  eval_nodes_unchanged i (n ∷ ns) env h p =
      let (args, results, read, computed, rest) = eval_nodes-cons n ns env p in
      let split = contains-append i (node_defined_ids n) (all_defined ns) in
      let ih =
        eval_nodes_unchanged i ns (bind_all (node_defined_ids n) results env)
          (ground (arith, split)) rest in
      ih
      ∙ ground (
        arith,
        split,
        lookup-bind_all i (node_defined_ids n) results env,
        bound_absent i (node_defined_ids n) results,
      )

  pub eval_nodes-append :
      (ns ms : List Node) (env : Dict V)
      → eval_nodes compute (ns ++ ms) env
        ≡ (eval_nodes compute ns env >>= λ env'. eval_nodes compute ms env')
  unfolding eval_nodes
  eval_nodes-append [] ms env = refl
  eval_nodes-append (n ∷ ns) ms env = elim (Result-cases (read_all (node_inputs n) env)) [
    | inr (e, failed) ↦ rw failed
    | inl (args, read) ↦ rw read (elim (Result-cases (compute n args)) [
      | inr (e, failed) ↦ rw failed
      | inl (results, computed) ↦
          rw computed (eval_nodes-append ns ms (bind_all (node_defined_ids n) results env))
    ])
  ]
