-- ===== src/Ops/Handlers/Total.antt =====
-- The branches of `_pad` and `_stack` that return.
use nx_tinygrad.Base.{ℕ, false, List, [], ◌∷◌, map, ◌≡◌, refl}
use nx_tinygrad.Errors.{ok}
use nx_tinygrad.Json.{ℤ, pos}
use nx_tinygrad.Ops.Handlers.{
  TensorCalls, any_of, is_interior, is_cropping, pad_tensor, stack, concatenate, insert_one,
}

abbrev outer : ℕ × ℕ → (ℤ × ℤ) × ℤ
outer (lo, hi) = ((pos lo, pos hi), pos 0)

none-interior : (pads : List (ℕ × ℕ)) → any_of is_interior (map outer pads) ≡ false
unfolding any_of
none-interior [] = refl
none-interior (p ∷ pads) = none-interior pads

none-cropping : (pads : List (ℕ × ℕ)) → any_of is_cropping (map outer pads) ≡ false
unfolding any_of
none-cropping [] = refl
none-cropping (p ∷ pads) = none-cropping pads

module _ {T F : Type 0} (calls : TensorCalls T F) where
  -- A configuration of sizes outside only, none of them negative, is handed to tinygrad as it is.
  pad_tensor-ok :
      (pads : List (ℕ × ℕ)) (value : F) (t : T)
      → pad_tensor calls (map outer pads) value t
        ≡ ok (calls.pad (map (λ (c : (ℤ × ℤ) × ℤ). c.0) (map outer pads)) value t)
  unfolding pad_tensor
  pad_tensor-ok pads value t = rw (none-interior pads, none-cropping pads) refl

  -- One tensor is stacked by its reshape alone.
  stack_one :
      (axis : ℕ) (t : T)
      → stack calls axis (t ∷ []) ≡ ok (calls.reshape (insert_one axis (calls.dims t)) t)
  unfolding stack concatenate
  stack_one axis t = refl
