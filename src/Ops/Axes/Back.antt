-- ===== src/Ops/Axes/Back.antt =====
-- The tensor that is permuted by `perm` and then by `inverse` is the one from before. `permute` is
-- tinygrad's, on the list that has one entry for each axis, its shape or the index of an element:
-- the entry at a position of the result is the entry of the axis that the order has there.
use nx_tinygrad.Base.{
  ℕ, zero, suc, ◌<◌, ◌≡◌, refl, sym, ap₂, subst, ◌∙◌, List, [], ◌∷◌, length, some, get_elem?, arith,
  All,
}
use nx_tinygrad.Errors.{ok}
use nx_tinygrad.Ops.Axes.{front_permutation, inverse_permutation}
use nx_tinygrad.Ops.Axes.Members.{Distinct}
use nx_tinygrad.Ops.Axes.Inverse.{IsPermutation, inverse_permutation_lem}
use nx_tinygrad.Ops.Axes.Front.{front_permutation-IsPermutation}

get_elem?-ext :
    {A : Type 0} (xs ys : List A)
    → length xs ≡ length ys
    → ((i : ℕ) → i < length xs → get_elem? xs i ≡ get_elem? ys i)
    → xs ≡ ys
get_elem?-ext [] [] h k = refl
get_elem?-ext [] (y ∷ ys) h k = absurd (omega arith)
get_elem?-ext (x ∷ xs) [] h k = absurd (omega arith)
get_elem?-ext (x ∷ xs) (y ∷ ys) h k =
    let first : x ≡ y = cc (k 0 (omega arith)) in
    ap₂ (λ z zs. z ∷ zs) first (get_elem?-ext xs ys (omega arith) (λ i b. k (suc i) (omega arith)))

get_elem?_total :
    {A : Type 0} (xs : List A) (i : ℕ) → i < length xs → (x : A) × (get_elem? xs i ≡ some x)
get_elem?_total [] i h = absurd (omega arith)
get_elem?_total (x ∷ xs) zero h = (x, refl)
get_elem?_total (x ∷ xs) (suc i) h = get_elem?_total xs i (omega arith)

get_elem?-length :
    {A : Type 0} (xs : List A) (i : ℕ) (x : A) → get_elem? xs i ≡ some x → i < length xs
get_elem?-length [] i x h = cc
get_elem?-length (y ∷ xs) zero x h = omega arith
get_elem?-length (y ∷ xs) (suc i) x h = omega (arith, get_elem?-length xs i x h)

inverse-IsPermutation :
    (rank : ℕ) (perm inverse : List ℕ)
    → IsPermutation rank perm
    → length inverse ≡ rank
    → ((pos a : ℕ) → get_elem? perm pos ≡ some a → get_elem? inverse a ≡ some pos)
    → IsPermutation rank inverse
inverse-IsPermutation rank perm inverse is long back = record {
  long = long;
  bounded = λ a pos h.
      let (pos', at) = is.covers a (omega (arith, long, get_elem?-length inverse a pos h)) in
      let same : pos ≡ pos' = cc (h, back pos' a at) in
      omega (arith, is.long, get_elem?-length perm pos' a at);
  injective = λ a b pos h k.
      let (p, at) = is.covers a (omega (arith, long, get_elem?-length inverse a pos h)) in
      let (q, at') = is.covers b (omega (arith, long, get_elem?-length inverse b pos k)) in
      let one : p ≡ pos = cc (h, back p a at) in
      let two : q ≡ pos = cc (k, back q b at') in cc (at, at', one, two);
  covers = λ pos h.
      let (a, at) = get_elem?_total perm pos (omega (arith, is.long)) in (a, back pos a at);
}

module _ {A : Type 0} (permute : List ℕ → List A → List A)
    (permute_length : (xs : List A) (order : List ℕ)
      → IsPermutation (length xs) order
      → length (permute order xs) ≡ length xs)
    (permute_entry : (xs : List A) (order : List ℕ)
      → IsPermutation (length xs) order
      → (pos a : ℕ) → get_elem? order pos ≡ some a
      → get_elem? (permute order xs) pos ≡ get_elem? xs a) where
  permute_back :
      (xs : List A) (perm : List ℕ)
      → IsPermutation (length xs) perm
      → (inverse : List ℕ) × (inverse_permutation (length xs) perm ≡ ok inverse)
        × (permute inverse (permute perm xs) ≡ xs)
  permute_back xs perm is =
      let (inverse, ran, long, back) = inverse_permutation_lem (length xs) perm is in
      let is' = inverse-IsPermutation (length xs) perm inverse is long back in
      let same = permute_length xs perm is in
      let is'' : IsPermutation (length (permute perm xs)) inverse =
        subst (λ n. IsPermutation n inverse) (sym same) is' in
      let long' = permute_length (permute perm xs) inverse is'' in
      (
        inverse,
        ran,
        get_elem?-ext (permute inverse (permute perm xs)) xs (long' ∙ same) (λ a h.
            let (pos, at) = is.covers a (omega (arith, long', same)) in
            permute_entry (permute perm xs) inverse is'' a pos (back pos a at)
            ∙ permute_entry xs perm is pos a at),
      )

  -- For distinct axes below the rank, the loop of `_indexed` over the order that has these axes
  -- first finds an inverse, and a tensor that is permuted by the order and then by the inverse
  -- has its axes where they were; where `permute` keeps the number of axes and puts at each
  -- position the axis that the order names there.
  pub axes_back :
      (xs : List A) (axes : List ℕ)
      → Distinct axes
      → All (λ a. a < length xs) axes
      → (inverse : List ℕ) × (inverse_permutation (length xs) (front_permutation (length xs) axes)
          ≡ ok inverse)
        × (permute inverse (permute (front_permutation (length xs) axes) xs) ≡ xs)
  axes_back xs axes d b =
      permute_back xs (front_permutation (length xs) axes)
        (front_permutation-IsPermutation (length xs) axes d b)
