-- ===== src/Ops/Triangular/Order.antt =====
-- The orders in which the rows are solved.
use nx_tinygrad.Base.{
  ℕ, zero, suc, ◌+◌, ◌<◌, ◌≤◌, ◌≡◌, ◌≢◌, refl, sym, ap, ◌∙◌, List, [], ◌∷◌, ◌++◌, All, arith,
}
use nx_tinygrad.Dict.{lookup}
use nx_tinygrad.Ops.Axes.{range}
use nx_tinygrad.Ops.Triangular.{Rows, countdown}
use nx_tinygrad.Ops.Triangular.Solves.{Exact, IsFresh, total, total_snoc}

-- `i + m` down to `i + 1`
unfoldable pub above : ℕ → ℕ → List ℕ
above i zero = []
above i (suc m) = (suc m + i) ∷ above i m

pub range_split : (s i m : ℕ) → range s (i + suc m) ≡ range s i ++ ((s + i) ∷ range (suc (s + i)) m)
unfolding range
range_split s zero m =
    let e : s ≡ s + 0 = omega arith in
    let one : 0 + suc m ≡ suc m = omega arith in ap (range s) one ∙ ap (λ k. k ∷ range (suc k) m) e
range_split s (suc i) m =
    let e : suc s + i ≡ s + suc i = omega arith in
    let one : suc i + suc m ≡ suc (i + suc m) = omega arith in
    ap (range s) one
    ∙ ap (λ ks. s ∷ ks)
        (range_split (suc s) i m ∙ ap (λ k. range (suc s) i ++ (k ∷ range (suc k) m)) e)

pub range_snoc : (s m : ℕ) → range s (suc m) ≡ range s m ++ ((s + m) ∷ [])
unfolding range
range_snoc s zero = let e : s ≡ s + 0 = omega arith in ap (λ k. k ∷ []) e
range_snoc s (suc m) =
    let e : suc s + m ≡ s + suc m = omega arith in
    ap (λ ks. s ∷ ks) (range_snoc (suc s) m ∙ ap (λ k. range (suc s) m ++ (k ∷ [])) e)

pub countdown_split : (i m : ℕ) → countdown (suc (m + i)) ≡ above i m ++ (i ∷ countdown i)
unfolding countdown above
countdown_split i zero = let e : suc (0 + i) ≡ suc i = omega arith in ap countdown e
countdown_split i (suc m) =
    let e : suc m + i ≡ suc (m + i) = omega arith in
    ap (λ ks. (suc m + i) ∷ ks) (ap countdown e ∙ countdown_split i m)

range_above : (s t m : ℕ) → t < s → All (λ j. t ≢ j) (range s m)
unfolding range
range_above s t zero h = tt
range_above s t (suc m) h = (omega arith, range_above (suc s) t m (omega arith))

countdown_below : (t n : ℕ) → n ≤ t → All (λ j. t ≢ j) (countdown n)
unfolding countdown
countdown_below t zero h = tt
countdown_below t (suc n) h = (omega arith, countdown_below t n (omega arith))

pub range-IsFresh :
    {M E R : Type 0} (ops : Rows M E R) (laws : Exact ops) (s m : ℕ)
    → IsFresh ops laws [] (range s m)
unfolding range lookup
range-IsFresh ops laws s zero = tt
range-IsFresh ops laws s (suc m) =
    (refl, range_above (suc s) s m (omega arith), range-IsFresh ops laws (suc s) m)

pub countdown-IsFresh :
    {M E R : Type 0} (ops : Rows M E R) (laws : Exact ops) (n : ℕ)
    → IsFresh ops laws [] (countdown n)
unfolding countdown lookup
countdown-IsFresh ops laws zero = tt
countdown-IsFresh ops laws (suc n) =
    (refl, countdown_below n n (omega arith), countdown-IsFresh ops laws n)

-- The rows above, from the last or from the first.
pub total-above :
    {M E R : Type 0} (ops : Rows M E R) (laws : Exact ops) (c : ℕ → E) (x : ℕ → R) (i m : ℕ)
    → total ops laws c x (above i m) ≡ total ops laws c x (range (suc i) m)
unfolding total above range
total-above ops laws c x i zero = refl
total-above ops laws c x i (suc m) =
    let e : suc m + i ≡ suc i + m = omega arith in
    laws.plus_comm _ _
    ∙ ap (λ t. laws.plus t (ops.times (c (suc m + i)) (x (suc m + i))))
        (total-above ops laws c x i m)
    ∙ ap (λ k. laws.plus (total ops laws c x (range (suc i) m)) (ops.times (c k) (x k))) e
    ∙ sym (
        ap (total ops laws c x) (range_snoc (suc i) m)
        ∙ total_snoc ops laws c x (range (suc i) m) (suc i + m))
