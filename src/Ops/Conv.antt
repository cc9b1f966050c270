-- ===== src/Ops/Conv.antt =====
-- `_dilate` and `_conv`, over the calls of tinygrad.
pub mod Laws
pub mod Axis
pub mod Dilated
use nx_tinygrad.Base.{
  ℕ, zero, suc, ◌+◌, ◌-◌, ◌*◌, Bool, true, false, not, List, [], ◌∷◌, ◌++◌, length, take, drop,
  if◌then◌else◌, Option, none, some, leb, ◌==◌,
}
use nx_tinygrad.Errors.{Result, ok, fail, unsupported_operation, ◌>>=◌}
use nx_tinygrad.Json.{ℤ, pos, negsuc}
use nx_tinygrad.Ops.Axes.{assign, inverse_permutation}
use nx_tinygrad.Ops.Handlers.{any_of}
use nx_tinygrad.Loops.Run.{param}

pub record ConvAttrs : Type 0 where
  pub batch_group_size : ℕ
  pub feature_group_size : ℕ
  pub input_permutation : List ℕ
  pub kernel_permutation : List ℕ
  pub output_permutation : List ℕ
  pub input_dilation : List ℕ
  pub kernel_dilation : List ℕ
  pub strides : List ℕ
  pub padding : List (ℤ × ℤ)

pub record ConvCalls (T : Type 0) : Type 0 where
  pub shape : T → List ℕ
  pub reshape : List ℕ → T → T
  pub permute : List ℕ → T → T
  -- `.pad`, with zeros
  pub pad : List (ℤ × ℤ) → T → T
  -- `t[...]` with `slice(0, stop)` or `slice(None)` for each axis
  pub cut : List (Option ℤ) → T → T
  -- `.conv2d` with `groups`, `stride`, `dilation` and no padding
  pub conv2d : ℕ → List ℕ → List ℕ → T → T → T

-- `(n - 1) * d + 1`, where `d` is not 0
unfoldable pub stop_of : ℕ → ℕ → ℤ
stop_of (suc n) d = pos (n * d + 1)
stop_of zero (suc zero) = pos 0
stop_of zero d = negsuc (d - 2)

-- `[value] * n`
unfoldable pub repeat {ℓ} : {A : Type ℓ} → ℕ → A → List A
repeat zero value = []
repeat (suc n) value = value ∷ repeat n value

-- `lo or hi`
abbrev pub is_padded : ℤ × ℤ → Bool
is_padded (pos zero, pos zero) = false
is_padded low_high = true

module _ {T : Type 0} (calls : ConvCalls T) where
  -- The body of the loop of `_dilate`.
  unfoldable pub dilate_axis : ℕ → ℕ → T → Result T
  unfolding param assign repeat stop_of
  dilate_axis axis d t =
      let shape = calls.shape t in
      do
        n ← param shape axis
        let spread = calls.reshape (take (axis + 1) shape ++ (1 ∷ drop (axis + 1) shape)) t
        padding ←
            assign (repeat (length (calls.shape spread)) (pos 0, pos 0)) (axis + 1)
              (pos 0, pos (d - 1))
        let joined =
            calls.reshape (take axis shape ++ (n * d ∷ drop (axis + 1) shape))
              (calls.pad padding spread)
        stops ← assign (repeat (length (calls.shape joined)) none) axis (some (stop_of n d))
        ok (calls.cut stops joined)

  -- `axis` is that of the first entry, 2 at the start.
  unfoldable pub dilate : ℕ → List ℕ → T → Result T
  unfolding dilate_axis
  dilate axis [] t = ok t
  dilate axis (d ∷ ds) t =
      (if leb d 1 then ok t else dilate_axis axis d t) >>= λ t'. dilate (suc axis) ds t'

  unfoldable pub conv : ConvAttrs → T → T → Result T
  unfolding dilate any_of inverse_permutation
  conv a t kernel =
      let x = calls.permute a.input_permutation t in
      let w = calls.permute a.kernel_permutation kernel in
      let pad_config = (pos 0, pos 0) ∷ (pos 0, pos 0) ∷ a.padding in
      if not (a.batch_group_size == 1)
      then fail unsupported_operation "conv batch_group_size != 1 is not supported"
      else do
        dilated ←
            (if any_of (λ d. not (d == 1)) a.input_dilation
              then dilate 2 a.input_dilation x
              else ok x)
        let padded = if any_of is_padded pad_config then calls.pad pad_config dilated else dilated
        let out = calls.conv2d a.feature_group_size a.strides a.kernel_dilation padded w
        inverse ← inverse_permutation (length a.output_permutation) a.output_permutation
        ok (calls.permute inverse out)
