-- ===== src/Tests/Shapes.antt =====
-- The arithmetic of the operations, at concrete shapes, axes and words.
use nx_tinygrad.Base.{
  ℕ, zero, suc, ◌<◌, ◌≡◌, refl, ap, ◌∙◌, true, ◌||◌, Option, none, some, List, [], ◌∷◌, length,
  get_elem?, arith, ◌==◌,
}
use nx_tinygrad.Errors.{ok}
use nx_tinygrad.Dtype.{find}
use nx_tinygrad.Ops.Strides.{linear_index, position, linear_index_lem}
use nx_tinygrad.Validate.{product}
use nx_tinygrad.Ops.Bits.{Word, bit_width, bit_reduce}
use nx_tinygrad.Ops.Bits.Smear.{IsWord, leading_zeros, bit_reduce_lem}
use nx_tinygrad.Ops.Axes.{elem, front_permutation, inverse_permutation}
use nx_tinygrad.Ops.Axes.Inverse.{IsPermutation}
use nx_tinygrad.Ops.Axes.Back.{axes_back}
use nx_tinygrad.Ops.Broadcast.{intermediate_shape}
use nx_tinygrad.Ops.Broadcast.Positions.{spread_over, intermediate_shape_lem}

linear_index_lem_example :
    (p : ℕ) × (linear_index (2 ∷ 3 ∷ 4 ∷ []) (1 ∷ 2 ∷ 3 ∷ []) ≡ ok p)
    × (p ≡ position (2 ∷ 3 ∷ 4 ∷ []) (1 ∷ 2 ∷ 3 ∷ []))
    × (p < product (2 ∷ 3 ∷ 4 ∷ []))
unfolding product
linear_index_lem_example =
    linear_index_lem 2 (3 ∷ 4 ∷ []) (1 ∷ 2 ∷ 3 ∷ []) (omega arith, (omega arith, (omega arith, tt)))
      (omega arith)

abbrev five : Word
five i = (i == 0) || (i == 2)

five-IsWord : IsWord 8 five
five-IsWord i h e = ground (arith, e)

u8_known : find bit_width "u8" ≡ some 8
unfolding find
u8_known = refl

bit_reduce_lem_example : bit_reduce true "u8" five ≡ ok (leading_zeros 8 five)
bit_reduce_lem_example = bit_reduce_lem true "u8" 8 five u8_known (omega arith) five-IsWord

module _ {A : Type 0} where
  abbrev kept : Option A → List A → List A
  kept none rest = rest
  kept (some x) rest = x ∷ rest

  unfoldable reorder : List ℕ → List A → List A
  reorder [] xs = []
  reorder (a ∷ order) xs = kept (get_elem? xs a) (reorder order xs)

  within : (xs : List A) (a : ℕ) → a < length xs → (x : A) × (get_elem? xs a ≡ some x)
  within [] a h = absurd (omega arith)
  within (x ∷ xs) zero h = (x, refl)
  within (x ∷ xs) (suc a) h = within xs a (omega arith)

  reorder_bounded :
      (order : List ℕ) (xs : List A)
      → ((pos a : ℕ) → get_elem? order pos ≡ some a → a < length xs)
      → (length (reorder order xs) ≡ length order)
        × ((pos a : ℕ)
            → get_elem? order pos ≡ some a
            → get_elem? (reorder order xs) pos ≡ get_elem? xs a)
  unfolding reorder
  reorder_bounded [] xs h = (refl, λ pos a k. cc k)
  reorder_bounded (b ∷ order) xs h =
      let (x, there) = within xs b (h 0 b refl) in
      let (long, entry) = reorder_bounded order xs (λ pos a k. h (suc pos) a k) in
      (rw there (ap suc long), λ pos a k. rw there (entries x there entry pos a k))
    where
      entries :
          (x : A)
          → get_elem? xs b ≡ some x
          → ((pos a : ℕ)
              → get_elem? order pos ≡ some a
              → get_elem? (reorder order xs) pos ≡ get_elem? xs a)
          → (pos a : ℕ) → get_elem? (b ∷ order) pos ≡ some a
          → get_elem? (x ∷ reorder order xs) pos ≡ get_elem? xs a
      entries x there entry zero a k = let same : b ≡ a = cc k in cc (there, same)
      entries x there entry (suc pos) a k = entry pos a k

  length-reorder :
      (xs : List A) (order : List ℕ)
      → IsPermutation (length xs) order
      → length (reorder order xs) ≡ length xs
  length-reorder xs order is = (reorder_bounded order xs is.bounded).0 ∙ is.long

  get_elem?-reorder :
      (xs : List A) (order : List ℕ)
      → IsPermutation (length xs) order
      → (pos a : ℕ) → get_elem? order pos ≡ some a
      → get_elem? (reorder order xs) pos ≡ get_elem? xs a
  get_elem?-reorder xs order is = (reorder_bounded order xs is.bounded).1

abbrev sizes : List ℕ
sizes = 5 ∷ 6 ∷ 7 ∷ 8 ∷ []

axes_back_example :
    (inverse : List ℕ) × (inverse_permutation 4 (front_permutation 4 (2 ∷ 0 ∷ [])) ≡ ok inverse)
    × (reorder inverse (reorder (front_permutation 4 (2 ∷ 0 ∷ [])) sizes) ≡ sizes)
unfolding elem
axes_back_example =
    axes_back reorder length-reorder get_elem?-reorder sizes (2 ∷ 0 ∷ []) (refl, (refl, tt))
      (omega arith, (omega arith, tt))

-- A 2 x 3 tensor on the axes 1 and 3 of four.
intermediate_shape_lem_example :
    (inter : List ℕ) × (intermediate_shape 4 (1 ∷ 3 ∷ []) (2 ∷ 3 ∷ []) ≡ ok inter)
    × (product inter ≡ product (2 ∷ 3 ∷ []))
    × (position inter (0 ∷ 1 ∷ 0 ∷ 2 ∷ []) ≡ position (2 ∷ 3 ∷ []) (1 ∷ 2 ∷ []))
unfolding spread_over
intermediate_shape_lem_example =
    intermediate_shape_lem 4 (1 ∷ 3 ∷ []) (2 ∷ 3 ∷ []) (1 ∷ 2 ∷ [])
      (omega arith, omega arith, (omega arith, omega arith, tt)) refl refl
