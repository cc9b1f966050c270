-- ===== src/Ops/Handlers.antt =====
-- `_reduce`, `_pad`, `_clip`, `_stack`, `_concatenate`, `_iota`, `_eye` and `_window`, over the
-- calls of tinygrad.
pub mod Total
use nx_tinygrad.Base.{
  ℕ, zero, suc, ◌-◌, String, str_eq, Bool, true, false, ◌||◌, List, [], ◌∷◌, ◌++◌, map, length,
  if◌then◌else◌, Option, none, some,
}
use nx_tinygrad.Errors.{Result, ok, fail, python_error, unsupported_operation, ◌>>=◌}
use nx_tinygrad.Json.{ℤ, pos, negsuc}
use nx_tinygrad.Validate.{product}
use nx_tinygrad.Ops.Axes.{assign, ones_shape, range}
use nx_tinygrad.Loops.Run.{param}
use nx_tinygrad.Folds.{any_padding}

-- What a window is padded with: 0.0, 1.0, `-math.inf` or `math.inf`.
pub data Identity : Type 0 where
  nought one lowest highest : Identity

pub record TensorCalls (T F : Type 0) : Type 0 where
  pub dims : T → List ℕ
  pub reshape : List ℕ → T → T
  pub expand : List ℕ → T → T
  pub cat : ℕ → T → List T → T
  -- `.sum`, `.prod`, `.max` and `.min` with `axis` and `keepdim`
  pub sum : List ℕ → Bool → T → T
  pub prod : List ℕ → Bool → T → T
  pub max_over : List ℕ → Bool → T → T
  pub min_over : List ℕ → Bool → T → T
  -- `(t != 0).cast(dtypes.int32)`
  pub mask : T → T
  -- `.pad` with a number, and with an identity
  pub pad : List (ℤ × ℤ) → F → T → T
  pub pad_identity : List (ℕ × ℕ) → Identity → T → T
  pub pool : List ℕ → List ℕ → List ℕ → T → T
  pub maximum : T → T → T
  pub minimum : T → T → T
  pub arange : ℕ → T
  pub equals : T → T → T

-- `interior != 0`, `lo < 0 or hi < 0`
abbrev pub is_interior : (ℤ × ℤ) × ℤ → Bool
is_interior (low_high, pos zero) = false
is_interior (low_high, interior) = true

abbrev pub is_cropping : (ℤ × ℤ) × ℤ → Bool
is_cropping ((pos lo, pos hi), interior) = false
is_cropping (low_high, interior) = true

unfoldable pub any_of {ℓ} : {A : Type ℓ} → (A → Bool) → List A → Bool
any_of test [] = false
any_of test (x ∷ xs) = test x || any_of test xs

-- `shp.insert(axis, 1)`
unfoldable pub insert_one : ℕ → List ℕ → List ℕ
insert_one zero dims = 1 ∷ dims
insert_one (suc axis) [] = 1 ∷ []
insert_one (suc axis) (n ∷ dims) = n ∷ insert_one axis dims

module _ {T F : Type 0} (calls : TensorCalls T F) where
  unfoldable pub reduce : String → List ℕ → Bool → T → Result T
  reduce op [] keep t = ok t
  reduce op (a ∷ rest) keep t =
      let axes = a ∷ rest in
      if str_eq op "sum"
      then ok (calls.sum axes keep t)
      else if str_eq op "product"
      then ok (calls.prod axes keep t)
      else if str_eq op "reduce_max"
      then ok (calls.max_over axes keep t)
      else if str_eq op "reduce_min"
      then ok (calls.min_over axes keep t)
      else if str_eq op "all"
      then ok (calls.min_over axes keep (calls.mask t))
      else if str_eq op "any"
      then ok (calls.max_over axes keep (calls.mask t))
      else fail unsupported_operation "unsupported reduction"

  -- `value` is `float(_num(...))`.
  unfoldable pub pad_tensor : List ((ℤ × ℤ) × ℤ) → F → T → Result T
  unfolding any_of
  pad_tensor config value t =
      if any_of is_interior config
      then fail unsupported_operation "interior padding is not supported"
      else if any_of is_cropping config
      then fail unsupported_operation "negative (cropping) padding is not supported"
      else ok (calls.pad (map (λ (c : (ℤ × ℤ) × ℤ). c.0) config) value t)

  unfoldable pub clip : T → T → T → T
  clip t low high = calls.minimum (calls.maximum t low) high

  -- `parts[0].cat(*parts[1:], dim=axis) if len(parts) > 1 else parts[0]`
  unfoldable pub concatenate : ℕ → List T → Result T
  concatenate axis [] = fail (python_error "IndexError") "list index out of range"
  concatenate axis (t ∷ []) = ok t
  concatenate axis (t ∷ u ∷ ts) = ok (calls.cat axis t (u ∷ ts))

  unfoldable pub stack : ℕ → List T → Result T
  unfolding insert_one concatenate
  stack axis ts = concatenate axis (map (λ t. calls.reshape (insert_one axis (calls.dims t)) t) ts)

  unfoldable pub iota : List ℕ → Option ℕ → Result T
  unfolding assign ones_shape param
  iota shape none = ok (calls.reshape shape (calls.arange (product shape)))
  iota shape (some axis) = do
    n ← param shape axis
    view ← assign (ones_shape (length shape)) axis n
    ok (calls.expand shape (calls.reshape view (calls.arange n)))

  -- `shape[-2], shape[-1]`
  unfoldable pub last_two : List ℕ → Result (ℕ × ℕ)
  last_two [] = fail (python_error "IndexError") "list index out of range"
  last_two (n ∷ []) = fail (python_error "IndexError") "list index out of range"
  last_two (n ∷ m ∷ []) = ok (n, m)
  last_two (n ∷ m ∷ k ∷ ns) = last_two (m ∷ k ∷ ns)

  unfoldable pub eye : List ℕ → Result T
  unfolding last_two ones_shape
  eye shape = do
    (r, c) ← last_two shape
    let diag =
        calls.equals (calls.reshape (r ∷ 1 ∷ []) (calls.arange r))
          (calls.reshape (1 ∷ c ∷ []) (calls.arange c))
    ok (calls.expand shape (calls.reshape (ones_shape (length shape - 2) ++ (r ∷ c ∷ [])) diag))

  unfoldable pub window_identity : String → Result Identity
  window_identity op =
      if str_eq op "window_sum"
      then ok nought
      else if str_eq op "window_max"
      then ok lowest
      else if str_eq op "window_min"
      then ok highest
      else if str_eq op "window_product"
      then ok one
      else fail (python_error "KeyError") "op"

  unfoldable pub padded_with : String → List (ℕ × ℕ) → T → Result T
  unfolding any_padding window_identity
  padded_with op padding t =
      if any_padding padding
      then (do identity ← window_identity op; ok (calls.pad_identity padding identity t))
      else ok t

  unfoldable pub window : String → List ℕ → List ℕ → List ℕ → List (ℕ × ℕ) → T → Result T
  unfolding padded_with range
  window op sizes strides dilations padding t =
      let rank = length (calls.dims t) in
      do
        t' ← padded_with op padding t
        let pooled = calls.pool sizes strides dilations t'
        let axes = range rank rank
        ok (
            if str_eq op "window_sum"
            then calls.sum axes false pooled
            else if str_eq op "window_max"
            then calls.max_over axes false pooled
            else if str_eq op "window_min"
            then calls.min_over axes false pooled
            else calls.prod axes false pooled)
