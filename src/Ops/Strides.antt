-- ===== src/Ops/Strides.antt =====
-- The linear index of `_indexed`, in int32, and of `_gather` where it has a coordinate for each
-- indexed axis.
use nx_tinygrad.Base.{
  ℕ, ◌+◌, ◌*◌, ◌%◌, ◌^◌, ◌<◌, ◌≡◌, refl, ap, ◌∙◌, List, [], ◌∷◌, arith, ltb, ltb→lt, not-ltb→le,
  Bool-cases, inl, inr,
}
use nx_tinygrad.Errors.{Result, ok, fail, python_error}
use nx_tinygrad.Validate.{product}

-- The loop from the last axis to the first: the strides, and the value of `acc` after it.
unfoldable pub strides_loop : List ℕ → List ℕ × ℕ
strides_loop [] = ([], 1)
strides_loop (size ∷ sizes) = let (strides, acc) = strides_loop sizes in (acc ∷ strides, acc * size)

unfoldable pub row_major_strides : List ℕ → List ℕ
unfolding strides_loop
row_major_strides sizes = (strides_loop sizes).0

-- The products and sums of int32 tensors, on bit patterns.
abbrev pub word : ℕ → ℕ
word n = n % 2 ^ 32

-- `idx[:, j] * strides[j]`
abbrev pub term : ℕ → ℕ → ℕ
term i s = word (word i * word s)

-- The loop from the second axis on. What is left of the coordinates is not read.
unfoldable pub add_terms : ℕ → List ℕ → List ℕ → Result ℕ
add_terms lin idx [] = ok lin
add_terms lin [] (s ∷ strides) = fail (python_error "IndexError") "index out of bounds"
add_terms lin (i ∷ idx) (s ∷ strides) = add_terms (word (lin + term i s)) idx strides

-- `idx[:, 0] * strides[0]`, and the loop
unfoldable pub first_term : List ℕ → List ℕ → Result ℕ
unfolding add_terms
first_term [] strides = fail (python_error "IndexError") "index out of bounds"
first_term (i ∷ idx) [] = fail (python_error "IndexError") "list index out of range"
first_term (i ∷ idx) (s ∷ strides) = add_terms (term i s) idx strides

-- `lin` for one row of coordinates
unfoldable pub linear_index : List ℕ → List ℕ → Result ℕ
unfolding first_term row_major_strides
linear_index sizes idx = first_term idx (row_major_strides sizes)

-- The position of an element of a row-major array, by its nested rows.
unfoldable pub position : List ℕ → List ℕ → ℕ
position sizes [] = 0
position [] (i ∷ idx) = 0
position (size ∷ sizes) (i ∷ idx) = i * product sizes + position sizes idx

-- As many coordinates as axes, each in range.
abbrev pub InBounds : List ℕ → List ℕ → Type 0
InBounds [] [] = Unit
InBounds (size ∷ sizes) (i ∷ idx) = (i < size) × InBounds sizes idx
InBounds _ _ = ⊥

strides_loop-product : (sizes : List ℕ) → (strides_loop sizes).1 ≡ product sizes
unfolding strides_loop product
strides_loop-product [] = refl
strides_loop-product (size ∷ sizes) = rw (strides_loop-product sizes) (grind arith)

pub position_bound : (sizes idx : List ℕ) → InBounds sizes idx → position sizes idx < product sizes
unfolding position product
position_bound [] [] h = omega arith
position_bound (size ∷ sizes) (i ∷ idx) (lt, rest) =
    let ih = position_bound sizes idx rest in grind arith
position_bound [] (i ∷ idx) h = absurd h
position_bound (size ∷ sizes) [] h = absurd h

-- Two positions in rows of one length.
row_lt : (m i j p : ℕ) → p < m → i < j → i * m + p < j * m
row_lt m i j p h k = grind arith

pub row_inj : (m i j p q : ℕ) → p < m → q < m → i * m + p ≡ j * m + q → (i ≡ j) × (p ≡ q)
row_inj m i j p q hp hq e = elim (Bool-cases (ltb i j)) [
  | inl below ↦ absurd (omega (arith, row_lt m i j p hp (ltb→lt i j below)))
  | inr not_below ↦ elim (Bool-cases (ltb j i)) [
    | inl above ↦ absurd (omega (arith, row_lt m j i q hq (ltb→lt j i above)))
    | inr not_above ↦
        let same : i ≡ j = omega (arith, not-ltb→le i j not_below, not-ltb→le j i not_above) in
        (same, omega (arith, ap (λ (k : ℕ). k * m) same))
  ]
]

word_small : (n : ℕ) → n < 2 ^ 32 → word n ≡ n
word_small n h = omega arith

term_small : (size i p q : ℕ) → i < size → q < p → size * p < 2 ^ 32 → term i p ≡ i * p
term_small size i p q h k few =
    let fits_i : i < 2 ^ 32 = grind arith in
    let fits_p : p < 2 ^ 32 = grind arith in
    let fits : i * p < 2 ^ 32 = grind arith in
    rw (word_small i fits_i, word_small p fits_p) (word_small (i * p) fits)

add_terms-position :
    (sizes idx : List ℕ) (lin : ℕ)
    → InBounds sizes idx
    → product sizes < 2 ^ 32
    → lin + position sizes idx < 2 ^ 32
    → add_terms lin idx (strides_loop sizes).0 ≡ ok (lin + position sizes idx)
unfolding add_terms strides_loop position product
add_terms-position [] [] lin h few fits = ap ok (omega arith)
add_terms-position [] (i ∷ idx) lin h few fits = absurd h
add_terms-position (size ∷ sizes) [] lin h few fits = absurd h
add_terms-position (size ∷ sizes) (i ∷ idx) lin (lt, h) few fits =
    let bound = position_bound sizes idx h in
    let small = term_small size i (product sizes) (position sizes idx) lt bound few in
    let here : word (lin + i * product sizes) ≡ lin + i * product sizes =
      word_small (lin + i * product sizes) (omega arith) in
    let fewer : product sizes < 2 ^ 32 = grind arith in
    rw (strides_loop-product sizes, small, here)
      (add_terms-position sizes idx (lin + i * product sizes) h fewer (omega arith)
        ∙ ap ok (omega arith))

-- For the coordinates along the indexed axes, one axis at least, each below the size of its axis,
-- where the axes have fewer than `2 ^ 31` elements, the linear index that `_gather` and
-- `_indexed` make in int32 is the position of the element in the row-major array of these axes,
-- and is below the number of its elements.
pub linear_index_lem :
    (size : ℕ) (sizes idx : List ℕ)
    → InBounds (size ∷ sizes) idx
    → product (size ∷ sizes) < 2 ^ 31
    → (p : ℕ) × (linear_index (size ∷ sizes) idx ≡ ok p)
      × (p ≡ position (size ∷ sizes) idx)
      × (p < product (size ∷ sizes))
unfolding linear_index row_major_strides first_term strides_loop position product
linear_index_lem size sizes [] h few = absurd h
linear_index_lem size sizes (i ∷ idx) (lt, h) few =
    let below = position_bound (size ∷ sizes) (i ∷ idx) (lt, h) in
    let bound = position_bound sizes idx h in
    let small = term_small size i (product sizes) (position sizes idx) lt bound (omega arith) in
    let fewer : product sizes < 2 ^ 32 = grind arith in
    (
      position (size ∷ sizes) (i ∷ idx),
      rw (strides_loop-product sizes, small)
          (add_terms-position sizes idx (i * product sizes) h fewer (omega arith)),
      refl,
      below,
    )
