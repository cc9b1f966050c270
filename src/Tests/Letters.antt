-- ===== src/Tests/Letters.antt =====
-- The formula of a batched product of matrices.
use nx_tinygrad.Base.{ℕ, zero, suc, ◌<◌, ◌≡◌, refl, some, [], ◌∷◌, get_elem?, arith}
use nx_tinygrad.Errors.{ok}
use nx_tinygrad.Ops.Axes.{assign}
use nx_tinygrad.Ops.Einsum.{Formula, unset, letter, share, name_free, einsum_formula}
use nx_tinygrad.Ops.Einsum.Shared.{AreAxes}
use nx_tinygrad.Ops.Einsum.Letters.{IsFormula, einsum_formula-IsFormula}

-- acb,abd->acd
product_formula :
    einsum_formula 3 3 (2 ∷ []) (1 ∷ []) (0 ∷ []) (0 ∷ [])
    ≡ ok (record { left = 0 ∷ 2 ∷ 1 ∷ []; right = 0 ∷ 1 ∷ 3 ∷ []; out = 0 ∷ 2 ∷ 3 ∷ [] })
unfolding einsum_formula share name_free unset letter assign
product_formula = refl

two_axes : (a b : ℕ) → a < b → b < 3 → AreAxes 3 (a ∷ b ∷ [])
two_axes a b lt low = record { bounded = bounded; injective = injective }
  where
    bounded : (pos c : ℕ) → get_elem? (a ∷ b ∷ []) pos ≡ some c → c < 3
    bounded zero c e = let is : a ≡ c = cc e in omega (arith, is)
    bounded (suc zero) c e = let is : b ≡ c = cc e in omega (arith, is)
    bounded (suc (suc pos)) c e = cc e

    injective :
        (p q c : ℕ) → get_elem? (a ∷ b ∷ []) p ≡ some c → get_elem? (a ∷ b ∷ []) q ≡ some c → p ≡ q
    injective zero zero c e f = refl
    injective zero (suc zero) c e f = let same : a ≡ b = cc (e, f) in absurd (omega (arith, same))
    injective (suc zero) zero c e f = let same : a ≡ b = cc (e, f) in absurd (omega (arith, same))
    injective (suc zero) (suc zero) c e f = refl
    injective (suc (suc p)) q c e f = cc e
    injective p (suc (suc q)) c e f = cc f

einsum_formula-IsFormula_example :
    (f : Formula) × (einsum_formula 3 3 (2 ∷ []) (1 ∷ []) (0 ∷ []) (0 ∷ []) ≡ ok f)
    × IsFormula 3 3 1 (0 ∷ 2 ∷ []) (0 ∷ 1 ∷ []) f
einsum_formula-IsFormula_example =
    einsum_formula-IsFormula 3 3 (2 ∷ []) (1 ∷ []) (0 ∷ []) (0 ∷ []) refl refl
      (two_axes 0 2 (omega arith) (omega arith)) (two_axes 0 1 (omega arith) (omega arith))
      (omega arith)
