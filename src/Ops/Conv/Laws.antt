-- ===== src/Ops/Conv/Laws.antt =====
-- What the calls of `_dilate` do with shapes and elements, as tinygrad documents it, and the
-- positions of elements when an axis is split.
use nx_tinygrad.Base.{
  ℕ, suc, ◌+◌, ◌-◌, ◌*◌, ◌<◌, ◌≤◌, ◌≡◌, refl, ap, List, [], ◌∷◌, ◌++◌, length, min, none, some,
  arith,
}
use nx_tinygrad.Json.{ℤ, pos, negsuc}
use nx_tinygrad.Validate.{product}
use nx_tinygrad.Ops.Strides.{position, InBounds}
use nx_tinygrad.Ops.Conv.{ConvCalls, repeat}

-- A list with `value` but for one entry.
abbrev pub single {ℓ} : {A : Type ℓ} → ℕ → A → A → ℕ → List A
single before value entry after = repeat before value ++ (entry ∷ repeat after value)

-- The size of `slice(0, stop)` of an axis.
abbrev pub slice_size : ℕ → ℤ → ℕ
slice_size n (pos stop) = min n stop
slice_size n (negsuc k) = n - suc k

-- `nought` is the element that `pad` adds.
pub record DilationLaws {T V : Type 0} (calls : ConvCalls T) (element : T → List ℕ → V) (nought : V)
    : Type 0 where
  pub shape-reshape :
      (dims : List ℕ) (t : T)
      → product dims ≡ product (calls.shape t)
      → calls.shape (calls.reshape dims t) ≡ dims
  -- The elements keep their row-major order.
  pub element-reshape :
      (dims : List ℕ) (t : T) (xs ys : List ℕ)
      → product dims ≡ product (calls.shape t)
      → InBounds dims xs
      → InBounds (calls.shape t) ys
      → position dims xs ≡ position (calls.shape t) ys
      → element (calls.reshape dims t) xs ≡ element t ys
  -- `h` zeros after the entries of one axis.
  pub shape-pad :
      (t : T) (front back : List ℕ) (n h : ℕ)
      → calls.shape t ≡ front ++ (n ∷ back)
      → calls.shape
          (calls.pad (single (length front) (pos 0, pos 0) (pos 0, pos h) (length back)) t)
        ≡ front ++ ((n + h) ∷ back)
  pub element-pad_old :
      (t : T) (front back xs ys : List ℕ) (n h i : ℕ)
      → calls.shape t ≡ front ++ (n ∷ back)
      → InBounds front xs
      → InBounds back ys
      → i < n
      → element
          (calls.pad (single (length front) (pos 0, pos 0) (pos 0, pos h) (length back)) t)
          (xs ++ (i ∷ ys))
        ≡ element t (xs ++ (i ∷ ys))
  pub element-pad_new :
      (t : T) (front back xs ys : List ℕ) (n h i : ℕ)
      → calls.shape t ≡ front ++ (n ∷ back)
      → InBounds front xs
      → InBounds back ys
      → n ≤ i
      → i < n + h
      → element
          (calls.pad (single (length front) (pos 0, pos 0) (pos 0, pos h) (length back)) t)
          (xs ++ (i ∷ ys))
        ≡ nought
  -- The entries of one axis before `stop`.
  pub shape-cut :
      (t : T) (front back : List ℕ) (n : ℕ) (stop : ℤ)
      → calls.shape t ≡ front ++ (n ∷ back)
      → calls.shape (calls.cut (single (length front) none (some stop) (length back)) t)
        ≡ front ++ (slice_size n stop ∷ back)
  pub element-cut :
      (t : T) (front back xs ys : List ℕ) (n i : ℕ) (stop : ℤ)
      → calls.shape t ≡ front ++ (n ∷ back)
      → InBounds front xs
      → InBounds back ys
      → i < slice_size n stop
      → element
          (calls.cut (single (length front) none (some stop) (length back)) t)
          (xs ++ (i ∷ ys))
        ≡ element t (xs ++ (i ∷ ys))

pub InBounds-append :
    (front back xs ys : List ℕ)
    → InBounds front xs
    → InBounds back ys
    → InBounds (front ++ back) (xs ++ ys)
InBounds-append [] back [] ys h k = k
InBounds-append [] back (x ∷ xs) ys h k = absurd h
InBounds-append (n ∷ front) back [] ys h k = absurd h
InBounds-append (n ∷ front) back (x ∷ xs) ys (lt, h) k = (lt, InBounds-append front back xs ys h k)

pub product-split :
    (front back : List ℕ) (n d : ℕ)
    → product (front ++ (n * d ∷ back)) ≡ product (front ++ (n ∷ d ∷ back))
unfolding product
product-split [] back n d = grind arith
product-split (m ∷ front) back n d = ap (m *◌) (product-split front back n d)

-- Entry `q * d + r` of an axis is entry `r` of row `q` after the axis is split in rows of `d`.
pub position-split :
    (front back xs ys : List ℕ) (n d q r : ℕ)
    → InBounds front xs
    → position (front ++ (n * d ∷ back)) (xs ++ ((q * d + r) ∷ ys))
      ≡ position (front ++ (n ∷ d ∷ back)) (xs ++ (q ∷ r ∷ ys))
unfolding position product
position-split [] back [] ys n d q r h = grind arith
position-split [] back (x ∷ xs) ys n d q r h = absurd h
position-split (m ∷ front) back [] ys n d q r h = absurd h
position-split (m ∷ front) back (x ∷ xs) ys n d q r (lt, h) =
    rw (product-split front back n d, position-split front back xs ys n d q r h) refl
