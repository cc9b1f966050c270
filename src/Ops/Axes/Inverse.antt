-- ===== src/Ops/Axes/Inverse.antt =====
-- What the loop over `enumerate(perm)` leaves in `inverse`.
use nx_tinygrad.Base.{
  ℕ, zero, suc, ◌+◌, ◌<◌, ◌≡◌, ◌≢◌, refl, sym, ap, ◌∙◌, List, [], ◌∷◌, length, some, get_elem?,
  arith,
}
use nx_tinygrad.Errors.{ok}
use nx_tinygrad.Ops.Axes.{assign, assign_each, zeros, inverse_permutation}

-- An order of the axes below `rank`: each of them stands at one position.
pub record IsPermutation (rank : ℕ) (perm : List ℕ) : Type 0 where
  pub long : length perm ≡ rank
  pub bounded : (pos a : ℕ) → get_elem? perm pos ≡ some a → a < rank
  pub injective : (p q a : ℕ) → get_elem? perm p ≡ some a → get_elem? perm q ≡ some a → p ≡ q
  pub covers : (a : ℕ) → a < rank → (pos : ℕ) × (get_elem? perm pos ≡ some a)

pub assign_lem :
    {A : Type 0} (xs : List A) (i : ℕ) (v : A)
    → i < length xs
    → (ys : List A) × (assign xs i v ≡ ok ys)
      × (length ys ≡ length xs)
      × (get_elem? ys i ≡ some v)
      × ((j : ℕ) → i ≢ j → get_elem? ys j ≡ get_elem? xs j)
unfolding assign
assign_lem [] i v h = absurd (omega arith)
assign_lem (x ∷ xs) zero v h = (v ∷ xs, refl, refl, refl, other)
  where
    other : (j : ℕ) → zero ≢ j → get_elem? (v ∷ xs) j ≡ get_elem? (x ∷ xs) j
    other zero k = absurd (k refl)
    other (suc j) k = refl
assign_lem {A = A} (x ∷ xs) (suc i) v h =
    let (ys, ran, long, here, others) = assign_lem xs i v (omega arith) in
    (x ∷ ys, rw ran refl, ap suc long, here, other ys others)
  where
    other :
        (ys : List A)
        → ((j : ℕ) → i ≢ j → get_elem? ys j ≡ get_elem? xs j)
        → (j : ℕ) → suc i ≢ j
        → get_elem? (x ∷ ys) j ≡ get_elem? (x ∷ xs) j
    other ys others zero k = refl
    other ys others (suc j) k = others j (λ e. k (ap suc e))

assign_each_lem :
    (k : ℕ) (perm inverse : List ℕ)
    → ((pos a : ℕ) → get_elem? perm pos ≡ some a → a < length inverse)
    → ((p q a : ℕ) → get_elem? perm p ≡ some a → get_elem? perm q ≡ some a → p ≡ q)
    → (out : List ℕ) × (assign_each k perm inverse ≡ ok out)
      × (length out ≡ length inverse)
      × ((pos a : ℕ) → get_elem? perm pos ≡ some a → get_elem? out a ≡ some (k + pos))
      × ((b : ℕ)
          → ((pos : ℕ) → get_elem? perm pos ≢ some b)
          → get_elem? out b ≡ get_elem? inverse b)
unfolding assign_each
assign_each_lem k [] inverse bounded injective = (inverse, refl, refl, λ pos a h. cc, λ b h. refl)
assign_each_lem k (axis ∷ perm) inverse bounded injective =
    let (inverse', ran, long, here, others) = assign_lem inverse axis k (bounded 0 axis refl) in
    let (out, ran', long', placed, kept) =
      assign_each_lem (suc k) perm inverse' (λ pos a h. omega (arith, bounded (suc pos) a h))
        (λ p q a h h'. suc_injective p q (injective (suc p) (suc q) a h h')) in
    (
      out,
      rw ran ran',
      long' ∙ long,
      place out placed (kept axis (λ pos h. differ pos (injective 0 (suc pos) axis refl h)) ∙ here),
      λ b h. kept b (λ pos. h (suc pos)) ∙ others b (λ e. h 0 (ap some e)),
    )
  where
    suc_injective : (p q : ℕ) → suc p ≡ suc q → p ≡ q
    suc_injective p q h = omega arith

    differ : (p : ℕ) → 0 ≢ suc p
    differ p h = omega arith

    place :
        (out : List ℕ)
        → ((pos a : ℕ) → get_elem? perm pos ≡ some a → get_elem? out a ≡ some (suc k + pos))
        → get_elem? out axis ≡ some k
        → (pos a : ℕ) → get_elem? (axis ∷ perm) pos ≡ some a
        → get_elem? out a ≡ some (k + pos)
    place out placed here zero a h =
        let e : axis ≡ a = cc h in
        let f : k ≡ k + 0 = omega arith in ap (get_elem? out) (sym e) ∙ here ∙ ap some f
    place out placed here (suc pos) a h = placed pos a h ∙ ap some (omega arith)

zeros-length : (n : ℕ) → length (zeros n) ≡ n
unfolding zeros
zeros-length zero = refl
zeros-length (suc n) = ap suc (zeros-length n)

-- The loop gives each axis its position in the order.
pub inverse_permutation_lem :
    (rank : ℕ) (perm : List ℕ)
    → IsPermutation rank perm
    → (inverse : List ℕ) × (inverse_permutation rank perm ≡ ok inverse)
      × (length inverse ≡ rank)
      × ((pos a : ℕ) → get_elem? perm pos ≡ some a → get_elem? inverse a ≡ some pos)
unfolding inverse_permutation
inverse_permutation_lem rank perm is =
    let (out, ran, long, placed, _) =
      assign_each_lem 0 perm (zeros rank)
        (λ pos a h. omega (arith, is.bounded pos a h, zeros-length rank)) is.injective in
    (out, ran, long ∙ zeros-length rank, λ pos a h. placed pos a h ∙ ap some (omega arith))
