-- ===== src/Loops/Run/Invariants.antt =====
-- The outputs of a loop body that are its inputs: what the captured step leaves out and puts back.
use nx_tinygrad.Base.{
  subst, ℕ, suc, ◌+◌, ◌≡◌, refl, sym, ap, ◌∙◌, Bool, true, false, Option, none, some, List, [], ◌∷◌,
  length, get_elem?, arith, Bool-cases, Option-cases, inl, inr, ◌==◌, ==_iff, if◌then◌else◌,
}
use nx_tinygrad.Errors.{Result, ok, >>=-eq-ok, ok_inj}
use nx_tinygrad.Json.{ℤ}
use nx_tinygrad.Dict.{Dict, lookup, insert, lookup-insert, lookup-insert_self}
use nx_tinygrad.Dict.PopAll.{contains}
use nx_tinygrad.Graph.{Input, Node, Constant}
use nx_tinygrad.Plan.{all_defined}
use nx_tinygrad.Segments.{read_all, eval_nodes}
use nx_tinygrad.Segments.Eval.{eval_nodes_unchanged}
use nx_tinygrad.Segments.Agree.{read_all-cons}
use nx_tinygrad.Validate.{all_distinct}
use nx_tinygrad.Loops.Run.{
  input_at, same_id, invariant_flags, param, bind_inputs, varying, next, merge, bind_constants,
  interpret_nodes,
}

unfoldable pub input_ids : List Input → List ℕ
input_ids [] = []
input_ids (i ∷ is) = i.id ∷ input_ids is

-- No two inputs have the same id, and no node defines the id of an input.
abbrev pub KeepsInputs : List Input → List Node → Type 0
KeepsInputs inputs ns =
    (all_distinct (input_ids inputs) ≡ true)
    × ((i : ℕ) → contains i (input_ids inputs) ≡ true → contains i (all_defined ns) ≡ false)

input_at-contains :
    (is : List Input) (j n : ℕ) → input_at is j ≡ some n → contains n (input_ids is) ≡ true
unfolding input_at input_ids
input_at-contains [] j n h = cc
input_at-contains (i ∷ is) j n h = elim (Option-cases (input_at is j)) [
  | inl none_later ↦ ground (arith, rw none_later at h)
  | inr (m, later) ↦ ground (arith, input_at-contains is j n (cc (later, rw later at h)))
]

module _ {V : Type 0} where
  bind_inputs-cons :
      (i : Input) (is : List Input) (params : List V) (env : Dict V) {env' : Dict V}
      → bind_inputs (i ∷ is) params env ≡ ok env'
      → (v : V) × (get_elem? params i.index ≡ some v)
        × (bind_inputs is params (insert i.id v env) ≡ ok env')
  unfolding bind_inputs param
  bind_inputs-cons i is params env h =
      let (v, e, h1) = >>=-eq-ok (param params i.index) _ h in
      elim (Option-cases (get_elem? params i.index)) [
        | inl missing ↦ cc (rw (param, missing) at e)
        | inr (w, there) ↦
            let same : ok w ≡ ok v = rw (param, there) at e in
            (v, there ∙ ap some (ok_inj same), h1)
      ]

  bind_inputs_unchanged :
      (n : ℕ) (is : List Input) (params : List V) (env : Dict V) {env' : Dict V}
      → contains n (input_ids is) ≡ false
      → bind_inputs is params env ≡ ok env'
      → lookup n env' ≡ lookup n env
  unfolding input_ids bind_inputs
  bind_inputs_unchanged n [] params env c h = ap (lookup n) (sym (ok_inj h))
  bind_inputs_unchanged n (i ∷ is) params env c h =
      let (v, there, rest) = bind_inputs-cons i is params env h in
      let apart : (i.id == n) ≡ false = ground (arith, c) in
      bind_inputs_unchanged n is params (insert i.id v env) (ground (arith, c)) rest
      ∙ lookup-insert n i.id v env
      ∙ (rw apart refl)

  -- The id that `input_at` finds has the value of the input.
  bind_inputs-input_at :
      (is : List Input) (j n : ℕ) (params : List V) (env env' : Dict V)
      → all_distinct (input_ids is) ≡ true
      → bind_inputs is params env ≡ ok env'
      → input_at is j ≡ some n
      → lookup n env' ≡ get_elem? params j
  unfolding input_ids all_distinct input_at
  bind_inputs-input_at [] j n params env env' d h e = cc
  bind_inputs-input_at (i ∷ is) j n params env env' d h e =
      let (v, there, rest) = bind_inputs-cons i is params env h in
      elim (Option-cases (input_at is j)) [
        | inr (m, later) ↦
            let same : some m ≡ some n = rw later at e in
            bind_inputs-input_at is j n params (insert i.id v env) env' (ground (arith, d)) rest
              (later ∙ same)
        | inl none_later ↦
            let e' : (if i.index == j then some i.id else none) ≡ some n = rw none_later at e in
            elim (Bool-cases (i.index == j)) [
              | inr other ↦ cc (rw other at e')
              | inl this ↦
                  let same : some i.id ≡ some n = rw this at e' in
                  let id_is : i.id ≡ n = cc same in
                  let index_is : i.index ≡ j = (==_iff i.index j).0 this in
                  let gone : contains i.id (input_ids is) ≡ false = ground (arith, d) in
                  ap (λ z. lookup z env') (sym id_is)
                  ∙ bind_inputs_unchanged i.id is params (insert i.id v env) gone rest
                  ∙ lookup-insert_self i.id v env
                  ∙ sym there
                  ∙ ap (get_elem? params) index_is
            ]
      ]

  -- Where a flag is set, the state and the outputs have the same value.
  abbrev pub Fixed : List Bool → List V → List V → Type 0
  Fixed [] [] [] = Unit
  Fixed (true ∷ flags) (s ∷ state) (out ∷ outs) = (s ≡ out) × Fixed flags state outs
  Fixed (false ∷ flags) (s ∷ state) (out ∷ outs) = Fixed flags state outs
  Fixed _ _ _ = ⊥

  pub merge-varying :
      (flags : List Bool) (state outs : List V)
      → Fixed flags state outs
      → merge flags state (varying flags outs) ≡ ok outs
  unfolding merge varying next
  merge-varying [] [] [] h = refl
  merge-varying (true ∷ flags) (s ∷ state) (out ∷ outs) (e, h) =
      rw (merge-varying flags state outs h, e) refl
  merge-varying (false ∷ flags) (s ∷ state) (out ∷ outs) h =
      rw (merge-varying flags state outs h) refl
  merge-varying [] [] (out ∷ outs) h = absurd h
  merge-varying [] (s ∷ state) outs h = absurd h
  merge-varying (true ∷ flags) [] outs h = absurd h
  merge-varying (false ∷ flags) [] outs h = absurd h
  merge-varying (true ∷ flags) (s ∷ state) [] h = absurd h
  merge-varying (false ∷ flags) (s ∷ state) [] h = absurd h

  invariant_flags-Fixed :
      (inputs : List Input) (j : ℕ) (outputs : List ℕ) (state outs : List V) (env : Dict V)
      → length outputs ≡ length state
      → read_all outputs env ≡ ok outs
      → ((k n : ℕ) → input_at inputs (j + k) ≡ some n → lookup n env ≡ get_elem? state k)
      → Fixed (invariant_flags inputs j outputs) state outs
  unfolding invariant_flags read_all
  invariant_flags-Fixed inputs j [] [] [] env l r h = tt
  invariant_flags-Fixed inputs j [] [] (o ∷ outs) env l r h = cc (ok_inj r)
  invariant_flags-Fixed inputs j [] (s ∷ state) outs env l r h = absurd (omega arith)
  invariant_flags-Fixed inputs j (n ∷ outputs) [] outs env l r h = absurd (omega arith)
  invariant_flags-Fixed inputs j (n ∷ outputs) (s ∷ state) outs env l r h =
      let (v, rest, there, read, split) = read_all-cons n outputs env r in
      let later =
        invariant_flags-Fixed inputs (suc j) outputs state rest env (omega arith) read
          (λ k m e. h (suc k) m (ap (input_at inputs) (omega arith) ∙ e)) in
      subst
        (λ (vs : List V).
          Fixed (same_id (input_at inputs j) n ∷ invariant_flags inputs (suc j) outputs) (s ∷ state)
            vs)
        (sym split) (front v rest (input_at inputs j) (λ e. here e there) later)
    where
      here : {v : V} → input_at inputs j ≡ some n → lookup n env ≡ some v → s ≡ v
      here e there =
          let f : input_at inputs (j + 0) ≡ some n = ap (input_at inputs) (omega arith) ∙ e in
          let same : lookup n env ≡ some s = h 0 n f in cc (same, there)

      front :
          (v : V) (rest : List V) (o : Option ℕ)
          → (o ≡ some n → s ≡ v)
          → Fixed (invariant_flags inputs (suc j) outputs) state rest
          → Fixed (same_id o n ∷ invariant_flags inputs (suc j) outputs) (s ∷ state) (v ∷ rest)
      front v rest none same later = later
      front v rest (some m) same later = elim (Bool-cases (m == n)) [
        | inl hit ↦ rw hit (same (ap some ((==_iff m n).0 hit)), later)
        | inr miss ↦ rw miss later
      ]

module _ {V : Type 0} (constant : Constant → V)
    (compute : List ℤ → Node → List V → Result (List V)) where
  -- Where the interpretation of a body returns, its outputs are those that vary, put back among the
  -- invariant ones.
  pub interpret_nodes-merge :
      (syms : List ℤ) (inputs : List Input) (constants : List Constant) (ns : List Node)
      (outputs : List ℕ) (state outs : List V)
      → KeepsInputs inputs ns
      → length outputs ≡ length state
      → interpret_nodes constant compute syms inputs constants ns outputs state ≡ ok outs
      → merge
          (invariant_flags inputs 0 outputs)
          state
          (varying (invariant_flags inputs 0 outputs) outs)
        ≡ ok outs
  unfolding interpret_nodes
  interpret_nodes-merge syms inputs constants ns outputs state outs (distinct, apart) l h =
      let start = bind_constants constant constants [] in
      let (env, bound, h1) = >>=-eq-ok (bind_inputs inputs state start) _ h in
      let (env', evaluated, read) = >>=-eq-ok (eval_nodes (compute syms) ns env) _ h1 in
      merge-varying (invariant_flags inputs 0 outputs) state outs (
        invariant_flags-Fixed inputs 0 outputs state outs env' l read (λ k n e.
          let e' : input_at inputs k ≡ some n = ap (input_at inputs) (omega arith) ∙ e in
          eval_nodes_unchanged (compute syms) n ns env (apart n (input_at-contains inputs k n e'))
            evaluated
          ∙ bind_inputs-input_at inputs k n state start env distinct bound e'))
