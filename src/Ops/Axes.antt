-- ===== src/Ops/Axes.antt =====
-- `_gather`, `_indexed`, `_dft` and `_conv`: the axes brought to the front, and the loop
-- `inverse[orig_axis] = new_pos` that finds the permutation to bring them back.
pub mod Members
pub mod Inverse
pub mod Back
pub mod Front
use nx_tinygrad.Base.{ℕ, zero, suc, List, [], ◌∷◌, ◌++◌, Bool, true, false, if◌then◌else◌, ◌==◌}
use nx_tinygrad.Errors.{Result, ok, fail, python_error, ◌>>=◌}

-- `a in axes`
unfoldable pub elem : ℕ → List ℕ → Bool
elem a [] = false
elem a (b ∷ axes) = if a == b then true else elem a axes

-- `range(start, start + count)`
unfoldable pub range : ℕ → ℕ → List ℕ
range start zero = []
range start (suc count) = start ∷ range (suc start) count

-- `[d for d in range(rank) if d not in axes]`
unfoldable pub without : List ℕ → List ℕ → List ℕ
without axes [] = []
without axes (d ∷ rest) = let kept = without axes rest in if elem d axes then kept else d ∷ kept

-- `tuple(axes) + tuple(non_axes)`
unfoldable pub front_permutation : ℕ → List ℕ → List ℕ
unfolding range without
front_permutation rank axes = axes ++ without axes (range 0 rank)

-- `inverse[i] = value`
unfoldable pub assign : {A : Type 0} → List A → ℕ → A → Result (List A)
assign [] i value = fail (python_error "IndexError") "list assignment index out of range"
assign (x ∷ xs) zero value = ok (value ∷ xs)
assign (x ∷ xs) (suc i) value = do rest ← assign xs i value; ok (x ∷ rest)

-- `(1,) * n`
unfoldable pub ones_shape : ℕ → List ℕ
ones_shape zero = []
ones_shape (suc n) = 1 ∷ ones_shape n

unfoldable pub zeros : ℕ → List ℕ
zeros zero = []
zeros (suc n) = 0 ∷ zeros n

-- `for new_pos, orig_axis in enumerate(perm): inverse[orig_axis] = new_pos`
unfoldable pub assign_each : ℕ → List ℕ → List ℕ → Result (List ℕ)
assign_each new_pos [] inverse = ok inverse
assign_each new_pos (orig_axis ∷ perm) inverse = do
  inverse' ← assign inverse orig_axis new_pos
  assign_each (suc new_pos) perm inverse'

unfoldable pub inverse_permutation : ℕ → List ℕ → Result (List ℕ)
unfolding assign_each zeros
inverse_permutation rank perm = assign_each 0 perm (zeros rank)
