-- ===== src/Executables/Run/Computes.antt =====
-- What `run` returns, against evaluation node by node.
use nx_tinygrad.Base.{
  ℕ, ◌<◌, ◌≡◌, refl, sym, ◌∙◌, subst, Bool, true, none, some, List, [], ◌∷◌, map, All, Bool-cases,
  Option-cases, inl, inr, ◌⊎◌, ◌==◌, ==_iff, if◌then◌else◌,
}
use nx_tinygrad.Errors.{Failure, Result, ok, raise, >>=-eq-ok, ok_inj, Result-cases}
use nx_tinygrad.Dict.{Dict, lookup, insert, lookup-insert}
use nx_tinygrad.Dtype.{Library}
use nx_tinygrad.Graph.{Input, Constant, Node}
use nx_tinygrad.Plan.{plan_segments}
use nx_tinygrad.Segments.{Progress, read_all, eval_nodes}
use nx_tinygrad.Segments.Agree.{Extends, EqOn, read_all-EqOn}
use nx_tinygrad.Segments.Refine.{IsFaithful}
use nx_tinygrad.Segments.Outputs.{LeavesAlone, eval_segments-outputs}
use nx_tinygrad.Ops.Dispatch.{Operand}
use nx_tinygrad.Executables.Dedup.{Tensor, Clones, dedup, dedup_lem, values}
use nx_tinygrad.Executables.Capture.{OutputSpec, Replay, capture}
use nx_tinygrad.Executables.Run.{
  Compiled, constant_ids, fresh_progress, transport, wrap, bind_tensors, make_constants, initialise,
  eval_graph, read_outputs, graph_fn, run, compile_executable,
}

module _ {T : Type 0} where
  -- No input has the id of a constant.
  abbrev pub AreApart : List Input → Dict (Operand T) → Type 0
  AreApart [] constants = Unit
  AreApart (spec ∷ specs) constants = (lookup spec.id constants ≡ none) × AreApart specs constants

  bind_tensors-Extends :
      (constants : Dict (Operand T)) (specs : List Input) (ts : List T)
      (env env' : Dict (Operand T))
      → AreApart specs constants
      → Extends constants env
      → bind_tensors specs ts env ≡ ok env'
      → Extends constants env'
  unfolding bind_tensors
  bind_tensors-Extends constants [] ts env env' apart h e = subst (Extends constants) (ok_inj e) h
  bind_tensors-Extends constants (spec ∷ specs) [] env env' apart h e =
      subst (Extends constants) (ok_inj e) h
  bind_tensors-Extends constants (spec ∷ specs) (t ∷ ts) env env' (free, apart) h e =
      let (v, e1, e2) = >>=-eq-ok (wrap spec t) _ e in
      bind_tensors-Extends constants specs ts (insert spec.id v env) env' apart
        (λ i w found. elim (Bool-cases (spec.id == i)) [
          | inl same ↦ let here : spec.id ≡ i = (==_iff spec.id i).0 same in cc (free, here, found)
          | inr other ↦ lookup-insert i spec.id v env ∙ (rw other (h i w found))
        ])
        e2

  -- What `__init__` leaves of the plan.
  abbrev pub IsPlanned : List ℕ → Compiled T → Type 0
  IsPlanned ids e = e.segments ≡ (if e.is_eager then plan_segments e.nodes ids e.outputs else none)

  initialise-IsPlanned :
      (make : Constant → Result (Operand T)) (inputs : List Input) (constants : List Constant)
      (nodes : List Node) (outputs : List ℕ) (e : Compiled T)
      → initialise make inputs constants nodes outputs ≡ ok e
      → IsPlanned (constant_ids constants) e
  unfolding initialise
  initialise-IsPlanned make inputs constants nodes outputs e h =
      let (env, e1, made) = >>=-eq-ok (make_constants make constants []) _ h in
      subst (IsPlanned (constant_ids constants)) (ok_inj made) refl

  module _ (compute : Node → List (Operand T) → Result (List (Operand T)))
      (capture_segment : ℕ
        → (List (Operand T) → Result (List (Operand T)))
        → List (Operand T)
        → Result (List (Operand T)))
      (faithful : IsFaithful capture_segment) where
    module _ (e : Compiled T) (ids : List ℕ) (planned : IsPlanned ids e)
        (apart : AreApart e.inputs e.constants) (alone : LeavesAlone e.constants e.nodes)
        (env full : Dict (Operand T)) (vs : List (Operand T))
        (evaluated : eval_nodes compute e.nodes env ≡ ok full)
        (found : read_all e.outputs full ≡ ok vs) where
      eval_graph-outputs :
          (progress : Progress)
          → Extends e.constants env
          → (env' : Dict (Operand T)) × ((eval_graph compute capture_segment e env progress).0
              ≡ ok env')
            × EqOn e.outputs full env'
      unfolding eval_graph
      eval_graph-outputs progress consts = elim (Option-cases e.segments) [
        | inl whole ↦ (full, rw (eval_graph, whole) evaluated, λ i c. refl)
        | inr (segments, split) ↦ elim (Bool-cases e.is_eager) [
          | inr static ↦ (full, rw (eval_graph, split, static) evaluated, λ i c. refl)
          | inl eager ↦
              let plan : plan_segments e.nodes ids e.outputs ≡ some segments =
                sym (rw eager at planned) ∙ split in
              let (env', ended, same) =
                eval_segments-outputs compute capture_segment e.constants faithful e.nodes ids
                  e.outputs segments env full progress plan consts alone evaluated in
              (env', rw (eval_graph, split, eager) ended, same)
        ]
      ]

      graph_fn-outputs :
          (ts : List T) (progress : Progress)
          → bind_tensors e.inputs ts e.constants ≡ ok env
          → (graph_fn compute capture_segment e ts progress).0 ≡ ok (map transport vs)
      unfolding graph_fn read_outputs
      graph_fn-outputs ts progress bound =
          let consts =
            bind_tensors-Extends e.constants e.inputs ts e.constants env apart (λ i v c. c) bound in
          let (env', ended, same) = eval_graph-outputs progress consts in
          let read : read_all e.outputs env' ≡ ok vs =
            sym (read_all-EqOn e.outputs e.outputs full env' (λ i c. c) same) ∙ found in
          rw (graph_fn, bound, ended, read) refl

      run-outputs :
          (replay : List T → Result (List T)) (ts : List (Tensor T)) (clones : Clones)
          (progress : Progress)
          → ((us outs : List T)
              → replay us ≡ ok outs
              → (graph_fn compute capture_segment e us fresh_progress).0 ≡ ok outs)
          → All (λ (t : Tensor T). t.ident < clones.fresh) ts
          → bind_tensors e.inputs (values ts) e.constants ≡ ok env
          → ((run compute capture_segment replay e ts clones progress).0 ≡ ok (map transport vs))
            ⊎ ((e.has_jit ≡ true)
                × (f : Failure) × ((run compute capture_segment replay e ts clones progress).0
                    ≡ raise f))
      unfolding run
      run-outputs replay ts clones progress same old bound = elim (Bool-cases e.has_jit) [
        | inr eager ↦ inl (rw (run, eager) (graph_fn-outputs (values ts) progress bound))
        | inl jit ↦
            let kept : values (dedup ts clones).0 ≡ values ts = (dedup_lem ts clones old).1 in
            elim (Result-cases (replay (values ts))) [
              | inr (f, failed) ↦ inr (jit, f, rw (run, jit, kept) failed)
              | inl (outs, replayed) ↦
                  let is : ok outs ≡ ok (map transport vs) =
                    sym (same (values ts) outs replayed)
                    ∙ graph_fn-outputs (values ts) fresh_progress bound in
                  inl (rw (run, jit, kept) (replayed ∙ is))
            ]
      ]

    compile_executable-IsPlanned :
        {A : Type 0} (lib : Library A T) (r : Replay T A Input) (validate : Bool)
        (make : Constant → Result (Operand T)) (inputs : List Input) (constants : List Constant)
        (nodes : List Node) (outputs : List ℕ) (specs : List OutputSpec) (e : Compiled T)
        → compile_executable compute capture_segment lib r validate make inputs constants nodes
            outputs specs
          ≡ ok e
        → IsPlanned (constant_ids constants) e
    unfolding compile_executable
    compile_executable-IsPlanned lib r validate make inputs constants nodes outputs specs e h =
        let (e₀, made, h1) = >>=-eq-ok (initialise make inputs constants nodes outputs) _ h in
        let first = initialise-IsPlanned make inputs constants nodes outputs e₀ made in
        let (captured, e1, done) =
          >>=-eq-ok
            (capture lib
              (record r {
                graph_fn = λ ts. (graph_fn compute capture_segment e₀ ts fresh_progress).0;
              })
              validate e₀.is_eager inputs specs)
            _ h1 in
        subst (IsPlanned (constant_ids constants)) (ok_inj done) first

    -- Where `__init__` leaves an executable, no input or node redefines a constant, the input
    -- tensors are older than the clones to come, and evaluating the nodes one by one on them
    -- gives values to the outputs, `run` returns these values, or the captured function
    -- raises; where what tinygrad replays is what `_graph_fn` gives, of a segment and of the
    -- whole.
    pub compile_executable-run :
        {A : Type 0} (lib : Library A T) (r : Replay T A Input) (validate : Bool)
        (make : Constant → Result (Operand T)) (inputs : List Input) (constants : List Constant)
        (nodes : List Node) (outputs : List ℕ) (specs : List OutputSpec) (e : Compiled T)
        (replay : List T → Result (List T)) (ts : List (Tensor T)) (clones : Clones)
        (progress : Progress) (env full : Dict (Operand T)) (vs : List (Operand T))
        → compile_executable compute capture_segment lib r validate make inputs constants nodes
            outputs specs
          ≡ ok e
        → AreApart e.inputs e.constants
        → LeavesAlone e.constants e.nodes
        → ((us outs : List T)
            → replay us ≡ ok outs
            → (graph_fn compute capture_segment e us fresh_progress).0 ≡ ok outs)
        → All (λ (t : Tensor T). t.ident < clones.fresh) ts
        → bind_tensors e.inputs (values ts) e.constants ≡ ok env
        → eval_nodes compute e.nodes env ≡ ok full
        → read_all e.outputs full ≡ ok vs
        → ((run compute capture_segment replay e ts clones progress).0 ≡ ok (map transport vs))
          ⊎ ((e.has_jit ≡ true)
              × (f : Failure) × ((run compute capture_segment replay e ts clones progress).0
                  ≡ raise f))
    compile_executable-run lib r validate make inputs constants nodes outputs specs e replay ts
          clones progress env full vs compiled apart alone same old bound evaluated found =
        run-outputs e (constant_ids constants)
          (compile_executable-IsPlanned lib r validate make inputs constants nodes outputs specs e
            compiled)
          apart alone env full vs evaluated found replay ts clones progress same old bound
