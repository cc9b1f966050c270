-- ===== src/Segments/Step/Typed.antt =====
-- The step of a segment against its function on the values of the environment.
use nx_tinygrad.Base.{
  ℕ, ◌<◌, ◌≡◌, refl, sym, ap, ◌∙◌, Bool, true, false, List, [], ◌∷◌, map, All, inl, inr, ◌⊎◌,
}
use nx_tinygrad.Errors.{Failure, Result, ok, raise, ◌>>=◌, Result-cases}
use nx_tinygrad.Json.{Value}
use nx_tinygrad.Dict.{Dict}
use nx_tinygrad.Dtype.{is_complex}
use nx_tinygrad.Graph.{Node}
use nx_tinygrad.Validate.{all_distinct}
use nx_tinygrad.Segments.{segment_fn}
use nx_tinygrad.Ops.Dispatch.{Operand, real, cx}
use nx_tinygrad.Segments.Step.{
  Buffered, step_args, bases, contents, unwrapped, wrap_each, tensor_fn, step,
}
use nx_tinygrad.Segments.Step.Apart.{IsOwned, step_args_lem}

module _ {T : Type 0} where
  abbrev is_cx : Operand T → Bool
  is_cx (real t) = false
  is_cx (cx t) = true

  -- A value for each recorded dtype, a `Cx` just where it is complex.
  abbrev pub AreTyped : List Value → List (Operand T) → Type 0
  AreTyped [] [] = Unit
  AreTyped (d ∷ dtypes) (v ∷ vs) = (is_complex d ≡ ok (is_cx v)) × AreTyped dtypes vs
  AreTyped _ _ = ⊥

  wrap_each-unwrapped :
      (dtypes : List Value) (vs : List (Operand T))
      → AreTyped dtypes vs
      → wrap_each dtypes (map unwrapped vs) ≡ ok vs
  unfolding wrap_each
  wrap_each-unwrapped [] [] h = refl
  wrap_each-unwrapped (d ∷ dtypes) [] h = absurd h
  wrap_each-unwrapped [] (v ∷ vs) h = absurd h
  wrap_each-unwrapped (d ∷ dtypes) (real t ∷ vs) (e, h) =
      rw (e, wrap_each-unwrapped dtypes vs h) refl
  wrap_each-unwrapped (d ∷ dtypes) (cx t ∷ vs) (e, h) = rw (e, wrap_each-unwrapped dtypes vs h) refl

  module _ (compute : Node → List (Operand T) → Result (List (Operand T)))
      (constants : Dict (Operand T)) (nodes : List Node) (input_ids output_ids : List ℕ)
      (in_dtypes out_dtypes : List Value) where
    tensor_fn-segment_fn :
        (vs rs : List (Operand T))
        → AreTyped in_dtypes vs
        → segment_fn compute constants nodes input_ids output_ids vs ≡ ok rs
        → tensor_fn compute constants nodes input_ids output_ids in_dtypes out_dtypes
            (map unwrapped vs)
          ≡ ok (map unwrapped rs)
    unfolding tensor_fn
    tensor_fn-segment_fn vs rs typed ran = rw (wrap_each-unwrapped in_dtypes vs typed, ran) refl

    -- For tensors that are older than the buffers to come and hold values of the recorded
    -- dtypes, the tensors that the step of a segment hands to the captured function are
    -- realized and contiguous, no two on one base buffer, and the step returns what the
    -- function of the segment returns on the values, where the dtypes of the results are as
    -- recorded, or the captured function raises; where what tinygrad replays is what `fn`
    -- gives.
    pub step-segment_fn :
        (jit : List T → Result (List T)) (tensors : List (Buffered T)) (fresh : ℕ)
        (vs rs : List (Operand T))
        → ((us outs : List T)
            → jit us ≡ ok outs
            → tensor_fn compute constants nodes input_ids output_ids in_dtypes out_dtypes us
              ≡ ok outs)
        → All (λ (t : Buffered T). t.base < fresh) tensors
        → contents tensors ≡ map unwrapped vs
        → AreTyped in_dtypes vs
        → AreTyped out_dtypes rs
        → segment_fn compute constants nodes input_ids output_ids vs ≡ ok rs
        → (all_distinct (bases (step_args tensors [] fresh)) ≡ true)
          × All IsOwned (step_args tensors [] fresh)
          × ((step compute constants nodes input_ids output_ids in_dtypes out_dtypes jit tensors
                  fresh
                ≡ ok rs)
              ⊎ ((f : Failure) × (step compute constants nodes input_ids output_ids in_dtypes
                      out_dtypes jit tensors fresh
                    ≡ raise f)))
    unfolding step
    step-segment_fn jit tensors fresh vs rs faithful old stand typed typed' ran =
        let (distinct, owned, values) = step_args_lem tensors [] fresh old in
        let given : contents (step_args tensors [] fresh) ≡ map unwrapped vs = values ∙ stand in
        (
          distinct,
          owned,
          elim (Result-cases (jit (map unwrapped vs))) [
            | inr (f, failed) ↦ inr (f, rw (given, failed) refl)
            | inl (outs, replayed) ↦
                let is : ok outs ≡ ok (map unwrapped rs) =
                  sym (faithful (map unwrapped vs) outs replayed)
                  ∙ tensor_fn-segment_fn vs rs typed ran in
                inl (
                  rw given (
                    ap (λ r. r >>= wrap_each out_dtypes) (replayed ∙ is)
                    ∙ wrap_each-unwrapped out_dtypes rs typed'))
          ],
        )
