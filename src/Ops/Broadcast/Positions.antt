-- ===== src/Ops/Broadcast/Positions.antt =====
-- Where the `reshape` of `_broadcast` puts the elements.
use nx_tinygrad.Base.{
  ℕ, zero, suc, ◌*◌, ◌<◌, ◌≤◌, ◌≡◌, refl, sym, ap, ◌∙◌, List, [], ◌∷◌, map, length, length-map,
  arith, inl, inr,
}
use nx_tinygrad.Errors.{ok, Result-cases, ◌>>=◌}
use nx_tinygrad.Validate.{product}
use nx_tinygrad.Ops.Axes.{assign, ones_shape}
use nx_tinygrad.Ops.Strides.{position}
use nx_tinygrad.Ops.Broadcast.{set_dims, intermediate_shape}

abbrev pred : ℕ → ℕ
pred zero = zero
pred (suc a) = a

-- The values at their axes, and `d` on the others.
unfoldable pub spread_over : ℕ → ℕ → List ℕ → List ℕ → List ℕ
spread_over d zero axes vals = []
spread_over d (suc rank) [] vals = d ∷ spread_over d rank [] vals
spread_over d (suc rank) (zero ∷ axes) [] = d ∷ spread_over d rank (map pred axes) []
spread_over d (suc rank) (zero ∷ axes) (v ∷ vals) = v ∷ spread_over d rank (map pred axes) vals
spread_over d (suc rank) (suc a ∷ axes) vals = d ∷ spread_over d rank (a ∷ map pred axes) vals

-- Axes in increasing order, from `low` on and below the rank.
abbrev pub IsIncreasing : ℕ → ℕ → List ℕ → Type 0
IsIncreasing low rank [] = Unit
IsIncreasing low rank (a ∷ axes) = (low ≤ a) × (a < rank) × IsIncreasing (suc a) rank axes

pred-IsIncreasing :
    (low rank : ℕ) (axes : List ℕ)
    → IsIncreasing (suc low) (suc rank) axes
    → IsIncreasing low rank (map pred axes)
pred-IsIncreasing low rank [] h = tt
pred-IsIncreasing low rank (zero ∷ axes) (le, lt, h) = absurd (omega arith)
pred-IsIncreasing low rank (suc a ∷ axes) (le, lt, h) =
    (omega arith, omega arith, pred-IsIncreasing (suc a) rank axes h)

-- The loop leaves a size that no axis names.
set_dims-cons :
    (x : ℕ) (xs : List ℕ) (low rank : ℕ) (axes vals : List ℕ)
    → IsIncreasing (suc low) rank axes
    → set_dims axes vals (x ∷ xs) ≡ (set_dims (map pred axes) vals xs >>= λ ys. ok (x ∷ ys))
unfolding set_dims assign
set_dims-cons x xs low rank [] vals h = refl
set_dims-cons x xs low rank (zero ∷ axes) vals (le, lt, h) = absurd (omega arith)
set_dims-cons x xs low rank (suc a ∷ axes) [] h = refl
set_dims-cons x xs low rank (suc a ∷ axes) (v ∷ vals) (le, lt, h) =
    elim (Result-cases (assign xs a v)) [
      | inl (ys, ran) ↦ rw ran (set_dims-cons x ys (suc a) rank axes vals h)
      | inr (f, failed) ↦ rw failed refl
    ]

spread_over-nil : (rank : ℕ) (vals : List ℕ) → spread_over 1 rank [] vals ≡ ones_shape rank
unfolding spread_over ones_shape
spread_over-nil zero vals = refl
spread_over-nil (suc rank) vals = ap (λ ys. 1 ∷ ys) (spread_over-nil rank vals)

set_dims-spread_over :
    (rank : ℕ) (axes vals : List ℕ)
    → IsIncreasing 0 rank axes
    → length axes ≡ length vals
    → set_dims axes vals (ones_shape rank) ≡ ok (spread_over 1 rank axes vals)
unfolding set_dims spread_over ones_shape assign
set_dims-spread_over zero [] vals h long = refl
set_dims-spread_over zero (a ∷ axes) vals (le, lt, h) long = absurd (omega arith)
set_dims-spread_over (suc rank) [] vals h long =
    ap (λ ys. ok (1 ∷ ys)) (sym (spread_over-nil rank vals))
set_dims-spread_over (suc rank) (zero ∷ axes) [] h long = absurd (omega arith)
set_dims-spread_over (suc rank) (zero ∷ axes) (v ∷ vals) (le, lt, h) long =
    set_dims-cons v (ones_shape rank) 0 (suc rank) axes vals h
    ∙ ap (λ r. r >>= λ ys. ok (v ∷ ys))
        (set_dims-spread_over rank (map pred axes) vals (pred-IsIncreasing 0 rank axes h)
          (omega (arith, long, length-map pred axes)))
set_dims-spread_over (suc rank) (suc a ∷ axes) vals (le, lt, h) long =
    set_dims-cons 1 (ones_shape rank) 0 (suc rank) (suc a ∷ axes) vals (omega arith, lt, h)
    ∙ ap (λ r. r >>= λ ys. ok (1 ∷ ys))
        (set_dims-spread_over rank (a ∷ map pred axes) vals
          (omega arith, omega arith, pred-IsIncreasing (suc a) rank axes h)
          (omega (arith, long, length-map pred axes)))

product-spread_over :
    (rank : ℕ) (axes vals : List ℕ)
    → IsIncreasing 0 rank axes
    → length axes ≡ length vals
    → product (spread_over 1 rank axes vals) ≡ product vals
unfolding spread_over product
product-spread_over zero [] [] h long = refl
product-spread_over zero [] (v ∷ vals) h long = absurd (omega arith)
product-spread_over zero (a ∷ axes) vals (le, lt, h) long = absurd (omega arith)
product-spread_over (suc rank) [] vals h long =
    let ih = product-spread_over rank [] vals h long in omega (arith, ih)
product-spread_over (suc rank) (zero ∷ axes) [] h long = absurd (omega arith)
product-spread_over (suc rank) (zero ∷ axes) (v ∷ vals) (le, lt, h) long =
    ap (λ p. v * p)
      (product-spread_over rank (map pred axes) vals (pred-IsIncreasing 0 rank axes h)
        (omega (arith, long, length-map pred axes)))
product-spread_over (suc rank) (suc a ∷ axes) vals (le, lt, h) long =
    let ih =
      product-spread_over rank (a ∷ map pred axes) vals
        (omega arith, omega arith, pred-IsIncreasing (suc a) rank axes h)
        (omega (arith, long, length-map pred axes)) in
    omega (arith, ih)

position-spread_over :
    (rank : ℕ) (axes dims idx : List ℕ)
    → IsIncreasing 0 rank axes
    → length axes ≡ length dims
    → length axes ≡ length idx
    → position (spread_over 1 rank axes dims) (spread_over 0 rank axes idx) ≡ position dims idx
unfolding spread_over position
position-spread_over zero [] [] [] h long long' = refl
position-spread_over zero [] (n ∷ dims) idx h long long' = absurd (omega arith)
position-spread_over zero [] [] (i ∷ idx) h long long' = absurd (omega arith)
position-spread_over zero (a ∷ axes) dims idx (le, lt, h) long long' = absurd (omega arith)
position-spread_over (suc rank) [] dims idx h long long' =
    let ih = position-spread_over rank [] dims idx h long long' in omega (arith, ih)
position-spread_over (suc rank) (zero ∷ axes) [] idx h long long' = absurd (omega arith)
position-spread_over (suc rank) (zero ∷ axes) (n ∷ dims) [] h long long' = absurd (omega arith)
position-spread_over (suc rank) (zero ∷ axes) (n ∷ dims) (i ∷ idx) (le, lt, h) long long' =
    let lower = pred-IsIncreasing 0 rank axes h in
    let fewer = length-map pred axes in
    let sizes = product-spread_over rank (map pred axes) dims lower (omega (arith, long, fewer)) in
    let ih =
      position-spread_over rank (map pred axes) dims idx lower (omega (arith, long, fewer))
        (omega (arith, long', fewer)) in
    rw (sizes, ih) refl
position-spread_over (suc rank) (suc a ∷ axes) dims idx (le, lt, h) long long' =
    let fewer = length-map pred axes in
    let ih =
      position-spread_over rank (a ∷ map pred axes) dims idx
        (omega arith, omega arith, pred-IsIncreasing (suc a) rank axes h)
        (omega (arith, long, fewer)) (omega (arith, long', fewer)) in
    omega (arith, ih)

-- For axes in increasing order below the rank of the output, one for each axis of the tensor, the
-- loop of `_broadcast` finds a shape with as many elements as the tensor, and there the element
-- at some coordinates of the tensor has those coordinates on the axes and 0 on the others.
pub intermediate_shape_lem :
    (rank : ℕ) (axes dims idx : List ℕ)
    → IsIncreasing 0 rank axes
    → length axes ≡ length dims
    → length axes ≡ length idx
    → (inter : List ℕ) × (intermediate_shape rank axes dims ≡ ok inter)
      × (product inter ≡ product dims)
      × (position inter (spread_over 0 rank axes idx) ≡ position dims idx)
unfolding intermediate_shape
intermediate_shape_lem rank axes dims idx h long long' = (
  spread_over 1 rank axes dims,
  set_dims-spread_over rank axes dims h long,
  product-spread_over rank axes dims h long,
  position-spread_over rank axes dims idx h long long',
)
