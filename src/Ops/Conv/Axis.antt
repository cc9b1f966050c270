-- ===== src/Ops/Conv/Axis.antt =====
-- One round of the loop of `_dilate`: the shape and the elements of the tensor it makes.
use nx_tinygrad.Base.{
  ℕ, zero, suc, ◌+◌, ◌-◌, ◌*◌, ◌<◌, ◌≤◌, ◌≡◌, refl, sym, ap, ◌∙◌, List, [], ◌∷◌, ◌++◌, length, take,
  drop, none, some, arith, if◌then◌else◌, ◌==◌, append_assoc, length-append, subst, ap₂, false,
  Bool-cases, ltb, ltb→lt, not-ltb→le, inl, inr,
}
use nx_tinygrad.Errors.{ok}
use nx_tinygrad.Json.{ℤ, pos}
use nx_tinygrad.Validate.{product}
use nx_tinygrad.Loops.Run.{param}
use nx_tinygrad.Ops.Axes.{assign}
use nx_tinygrad.Ops.Strides.{position, InBounds}
use nx_tinygrad.Ops.Conv.{ConvCalls, repeat, stop_of, dilate_axis}
use nx_tinygrad.Ops.Conv.Laws.{
  DilationLaws, single, slice_size, InBounds-append, product-split, position-split,
}

-- The size of an axis of `n` entries with `d - 1` zeros between each two.
unfoldable pub dilated_size : ℕ → ℕ → ℕ
dilated_size zero d = 0
dilated_size (suc n) d = n * d + 1

slice_size-stop_of : (n d : ℕ) → 2 ≤ d → slice_size (n * d) (stop_of n d) ≡ dilated_size n d
unfolding stop_of dilated_size
slice_size-stop_of zero zero h = absurd (omega arith)
slice_size-stop_of zero (suc zero) h = absurd (omega arith)
slice_size-stop_of zero (suc (suc d)) h = omega arith
slice_size-stop_of (suc n) d h = grind arith

assign-repeat :
    {A : Type 0} (k m : ℕ) (v w : A) → assign (repeat (k + suc m) v) k w ≡ ok (single k v w m)
unfolding assign repeat
assign-repeat zero m v w = let e : 0 + suc m ≡ suc m = omega arith in rw e refl
assign-repeat (suc k) m v w =
    let e : suc k + suc m ≡ suc (k + suc m) = omega arith in rw (e, assign-repeat k m v w) refl

-- Entry `q * d + r` of the axis is in row `q`.
pub row_bound : (n d q r : ℕ) → 2 ≤ d → q * d + r < dilated_size n d → q < n
unfolding dilated_size
row_bound zero d q r large h = absurd (omega arith)
row_bound (suc n) d q r large h = elim (Bool-cases (ltb n q)) [
  | inl above ↦
      let k = q - suc n in
      let e : q ≡ suc n + k = omega (arith, ltb→lt n q above) in absurd (grind arith)
  | inr below ↦ omega (arith, not-ltb→le n q below)
]

dilated_size_bound : (n d i : ℕ) → 2 ≤ d → i < dilated_size n d → i < n * d
unfolding dilated_size
dilated_size_bound zero d i large h = absurd (omega arith)
dilated_size_bound (suc n) d i large h = grind arith

param-append : (front back : List ℕ) (n : ℕ) → param (front ++ (n ∷ back)) (length front) ≡ ok n
unfolding param
param-append [] back n = refl
param-append (m ∷ front) back n = param-append front back n

-- `shape[: axis + 1] + [v] + shape[axis + 1 :]`
row_dims :
    (front back : List ℕ) (n v : ℕ)
    → take (length front + 1) (front ++ (n ∷ back))
        ++ (v ∷ drop (length front + 1) (front ++ (n ∷ back)))
      ≡ front ++ (n ∷ v ∷ back)
row_dims [] back n v = refl
row_dims (m ∷ front) back n v =
    let e : suc (length front) + 1 ≡ suc (length front + 1) = omega arith in
    rw e (ap (◌∷◌ m) (row_dims front back n v))

-- `shape[:axis] + [v] + shape[axis + 1 :]`
axis_dims :
    (front back : List ℕ) (n v : ℕ)
    → take (length front) (front ++ (n ∷ back))
        ++ (v ∷ drop (length front + 1) (front ++ (n ∷ back)))
      ≡ front ++ (v ∷ back)
axis_dims [] back n v = refl
axis_dims (m ∷ front) back n v =
    let e : suc (length front) + 1 ≡ suc (length front + 1) = omega arith in
    rw e (ap (◌∷◌ m) (axis_dims front back n v))

rows_length :
    (front back : List ℕ) (n : ℕ) → length (front ++ (n ∷ back)) ≡ (length front + 1) + length back
rows_length front back n = omega (arith, length-append front (n ∷ back))

module _ {T V : Type 0} (calls : ConvCalls T) (element : T → List ℕ → V) (nought : V)
    (laws : DilationLaws calls element nought) (t : T) (front back : List ℕ) (n d : ℕ)
    (sized : calls.shape t ≡ front ++ (n ∷ back)) (large : 2 ≤ d) where
  -- The four tensors of a round: rows of one, each followed by zeros, in one axis, the last zeros cut.
  abbrev spread : T
  spread = calls.reshape (front ++ (n ∷ 1 ∷ back)) t

  abbrev padded : T
  padded =
      calls.pad
        (single (length (front ++ (n ∷ []))) (pos 0, pos 0) (pos 0, pos (d - 1)) (length back))
        spread

  abbrev joined : T
  joined = calls.reshape (front ++ (n * d ∷ back)) padded

  abbrev pub dilated : T
  dilated = calls.cut (single (length front) none (some (stop_of n d)) (length back)) joined

  product-spread : product (front ++ (n ∷ 1 ∷ back)) ≡ product (calls.shape t)
  product-spread =
      let one : n * 1 ≡ n = omega arith in sym (product-split front back n 1) ∙ rw (one, sized) refl

  shape-spread : calls.shape spread ≡ front ++ (n ∷ 1 ∷ back)
  shape-spread = laws.shape-reshape (front ++ (n ∷ 1 ∷ back)) t product-spread

  shape-spread_apart : calls.shape spread ≡ (front ++ (n ∷ [])) ++ (1 ∷ back)
  shape-spread_apart = shape-spread ∙ sym (append_assoc front (n ∷ []) (1 ∷ back))

  shape-padded : calls.shape padded ≡ front ++ (n ∷ d ∷ back)
  shape-padded =
      let row : 1 + (d - 1) ≡ d = omega arith in
      laws.shape-pad spread (front ++ (n ∷ [])) back 1 (d - 1) shape-spread_apart
      ∙ rw row (append_assoc front (n ∷ []) (d ∷ back))

  product-joined : product (front ++ (n * d ∷ back)) ≡ product (calls.shape padded)
  product-joined = rw shape-padded (product-split front back n d)

  shape-joined : calls.shape joined ≡ front ++ (n * d ∷ back)
  shape-joined = laws.shape-reshape (front ++ (n * d ∷ back)) padded product-joined

  pub shape-dilated : calls.shape dilated ≡ front ++ (dilated_size n d ∷ back)
  shape-dilated =
      laws.shape-cut joined front back (n * d) (stop_of n d) shape-joined
      ∙ rw (slice_size-stop_of n d large) refl

  pub dilate_axis-run : dilate_axis calls (length front) d t ≡ ok dilated
  unfolding dilate_axis
  dilate_axis-run =
      let wide = rows_length front (1 ∷ back) n in
      let long = length-append front (n * d ∷ back) in
      let same = length-append front (n ∷ []) in
      rw
        (
          sized,
          param-append front back n,
          row_dims front back n 1,
          axis_dims front back n (n * d),
          shape-spread,
          wide,
          assign-repeat {A = ℤ × ℤ} (length front + 1) (length back) (pos 0, pos 0)
              (pos 0, pos (d - 1)),
          sym same,
          shape-joined,
          long,
          assign-repeat (length front) (length back) none (some (stop_of n d)),
        )
        refl

  element-spread :
      (xs ys : List ℕ) (q : ℕ)
      → InBounds front xs
      → InBounds back ys
      → q < n
      → element spread (xs ++ (q ∷ 0 ∷ ys)) ≡ element t (xs ++ (q ∷ ys))
  element-spread xs ys q h k row =
      let one : n * 1 ≡ n = omega arith in
      let here : q * 1 + 0 ≡ q = omega arith in
      let same : position (front ++ (n ∷ back)) (xs ++ (q ∷ ys))
          ≡ position (front ++ (n ∷ 1 ∷ back)) (xs ++ (q ∷ 0 ∷ ys)) =
        ap₂ (λ m i. position (front ++ (m ∷ back)) (xs ++ (i ∷ ys))) (sym one) (sym here)
        ∙ position-split front back xs ys n 1 q 0 h in
      laws.element-reshape (front ++ (n ∷ 1 ∷ back)) t (xs ++ (q ∷ 0 ∷ ys)) (xs ++ (q ∷ ys))
        product-spread
        (InBounds-append front (n ∷ 1 ∷ back) xs (q ∷ 0 ∷ ys) h (row, (omega arith, k)))
        (rw sized (InBounds-append front (n ∷ back) xs (q ∷ ys) h (row, k))) (rw sized (sym same))

  -- The rows of the padded tensor: the entry, then zeros.
  element-padded :
      (xs ys : List ℕ) (q r : ℕ)
      → InBounds front xs
      → InBounds back ys
      → q < n
      → r < d
      → element padded (xs ++ (q ∷ r ∷ ys))
        ≡ (if r == 0 then element t (xs ++ (q ∷ ys)) else nought)
  element-padded xs ys q zero h k row small =
      let inside = InBounds-append front (n ∷ []) xs (q ∷ []) h (row, tt) in
      ap (element padded) (sym (append_assoc xs (q ∷ []) (0 ∷ ys)))
      ∙ laws.element-pad_old spread (front ++ (n ∷ [])) back (xs ++ (q ∷ [])) ys 1 (d - 1) 0
          shape-spread_apart inside k (omega arith)
      ∙ ap (element spread) (append_assoc xs (q ∷ []) (0 ∷ ys))
      ∙ element-spread xs ys q h k row
  element-padded xs ys q (suc r) h k row small =
      let inside = InBounds-append front (n ∷ []) xs (q ∷ []) h (row, tt) in
      let later : (suc r == 0) ≡ false = ground arith in
      rw later (
        ap (element padded) (sym (append_assoc xs (q ∷ []) (suc r ∷ ys)))
        ∙ laws.element-pad_new spread (front ++ (n ∷ [])) back (xs ++ (q ∷ [])) ys 1 (d - 1) (suc r)
            shape-spread_apart inside k (omega arith) (omega arith))

  -- What entry `q * d + r` of the axis is.
  pub element-dilated :
      (xs ys : List ℕ) (q r : ℕ)
      → InBounds front xs
      → InBounds back ys
      → r < d
      → q * d + r < dilated_size n d
      → element dilated (xs ++ ((q * d + r) ∷ ys))
        ≡ (if r == 0 then element t (xs ++ (q ∷ ys)) else nought)
  element-dilated xs ys q r h k small lt =
      let row = row_bound n d q r large lt in
      let cut =
        laws.element-cut joined front back xs ys (n * d) (q * d + r) (stop_of n d) shape-joined h k
          (rw (slice_size-stop_of n d large) lt) in
      let wide =
        InBounds-append front (n * d ∷ back) xs ((q * d + r) ∷ ys) h
          (dilated_size_bound n d (q * d + r) large lt, k) in
      let rows = InBounds-append front (n ∷ d ∷ back) xs (q ∷ r ∷ ys) h (row, (small, k)) in
      let joined_at =
        laws.element-reshape (front ++ (n * d ∷ back)) padded (xs ++ ((q * d + r) ∷ ys))
          (xs ++ (q ∷ r ∷ ys)) product-joined wide
          (subst (λ dims. InBounds dims (xs ++ (q ∷ r ∷ ys))) (sym shape-padded) rows)
          (rw shape-padded (position-split front back xs ys n d q r h)) in
      cut ∙ joined_at ∙ element-padded xs ys q r h k row small
