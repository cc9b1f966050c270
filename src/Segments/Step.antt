-- ===== src/Segments/Step.antt =====
-- `fn` and `step` of `_segment_step`: the buffers that a segment's function is captured on. A tensor
-- is the identity of its base buffer (`id(tensor.uop.base)`), whether that is realized, whether
-- `contiguous()` leaves the tensor as it is, and its value; `fresh` is the next identity. The clone
-- of an output that is realized in the trace has the same value.
pub mod Apart
pub mod Typed
use nx_tinygrad.Base.{ℕ, suc, Bool, true, false, List, [], ◌∷◌, map, if◌then◌else◌}
use nx_tinygrad.Errors.{Result, ok, ◌>>=◌}
use nx_tinygrad.Json.{Value}
use nx_tinygrad.Dict.{Dict}
use nx_tinygrad.Dict.PopAll.{contains}
use nx_tinygrad.Dtype.{is_complex}
use nx_tinygrad.Graph.{Node}
use nx_tinygrad.Segments.{segment_fn}
use nx_tinygrad.Ops.Dispatch.{Operand, real, cx}

pub record Buffered (T : Type 0) : Type 0 where
  pub base : ℕ
  pub is_realized : Bool
  pub is_contiguous : Bool
  pub value : T

module _ {T : Type 0} where
  -- `tensor.clone().realize()`, and `contiguous.realize()` of a view
  abbrev pub own_buffer : Buffered T → ℕ → Buffered T
  own_buffer t fresh = record {
    base = fresh;
    is_realized = true;
    is_contiguous = true;
    value = t.value;
  }

  -- A constant or a view gets a buffer of its own.
  unfoldable pub materialize : Buffered T → ℕ → Buffered T × ℕ
  materialize t fresh = elim t.is_realized [
    | false ↦ (own_buffer t fresh, suc fresh)
    | true ↦ elim t.is_contiguous [ false ↦ (own_buffer t fresh, suc fresh) | true ↦ (t, fresh) ]
  ]

  -- The loop over the values; a base that was seen before is copied.
  unfoldable pub step_args : List (Buffered T) → List ℕ → ℕ → List (Buffered T)
  unfolding materialize
  step_args [] seen fresh = []
  step_args (t ∷ ts) seen fresh =
      let (m, fresh') = materialize t fresh in
      elim (contains m.base seen) [
        | true ↦ own_buffer m fresh' ∷ step_args ts seen (suc fresh')
        | false ↦ m ∷ step_args ts (m.base ∷ seen) fresh'
      ]

  abbrev pub bases : List (Buffered T) → List ℕ
  bases = map (λ (t : Buffered T). t.base)

  abbrev pub contents : List (Buffered T) → List T
  contents = map (λ (t : Buffered T). t.value)

  -- `value.t if isinstance(value, Cx) else value`
  abbrev pub unwrapped : Operand T → T
  unwrapped (real t) = t
  unwrapped (cx t) = t

  -- `Cx(t) if is_complex(dtype) else t for t, dtype in zip(...)`
  unfoldable pub wrap_each : List Value → List T → Result (List (Operand T))
  wrap_each [] ts = ok []
  wrap_each (d ∷ dtypes) [] = ok []
  wrap_each (d ∷ dtypes) (t ∷ ts) = do
    complex ← is_complex d
    rest ← wrap_each dtypes ts
    ok ((if complex then cx t else real t) ∷ rest)

  module _ (compute : Node → List (Operand T) → Result (List (Operand T)))
      (constants : Dict (Operand T)) (nodes : List Node) (input_ids output_ids : List ℕ)
      (in_dtypes out_dtypes : List Value) where
    -- `fn`
    unfoldable pub tensor_fn : List T → Result (List T)
    unfolding wrap_each
    tensor_fn args = do
      values ← wrap_each in_dtypes args
      outs ← segment_fn compute constants nodes input_ids output_ids values
      ok (map unwrapped outs)

    -- `step`, where `jit` is `TinyJit(fn)`
    unfoldable pub step :
        (List T → Result (List T)) → List (Buffered T) → ℕ → Result (List (Operand T))
    unfolding step_args wrap_each
    step jit tensors fresh = do
      outs ← jit (contents (step_args tensors [] fresh))
      wrap_each out_dtypes outs
