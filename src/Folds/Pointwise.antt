-- ===== src/Folds/Pointwise.antt =====
-- The loop of `_run_reduce` and `_run_window_reduce`, place by place.
use nx_tinygrad.Base.{ℕ, ◌≡◌, refl, ap, ◌∙◌, List, [], ◌∷◌, map}
use nx_tinygrad.Errors.{Result, ok}
use nx_tinygrad.Loops.Run.{param}
use nx_tinygrad.Folds.{FoldCalls, fold_entries}

unfoldable pub fold_left : {V W : Type 0} → (V → W → V) → V → List W → V
fold_left f v [] = v
fold_left f v (w ∷ ws) = fold_left f (f v w) ws

module _ {T Ix V : Type 0} (calls : FoldCalls T) (interpret : List T → Result (List T))
    (entry : T → Ix → V) (f : V → V → V) where
  -- A function of two scalars, on tensors.
  abbrev pub IsPointwise : Type 0
  IsPointwise =
      (x y : T)
      → (z : T) × (interpret (x ∷ y ∷ []) ≡ ok (z ∷ []))
        × ((ix : Ix) → entry z ix ≡ f (entry x ix) (entry y ix))

  -- Where the function of the node works place by place, the loop ends, and each place of the result
  -- has the left fold of the function over the entries there, in their order, from that of `acc`.
  pub fold_entries_lem :
      (pointwise : IsPointwise) (flat : T) (is : List ℕ) (acc : T)
      → (r : T) × (fold_entries calls interpret flat is acc ≡ ok r)
        × ((ix : Ix)
            → entry r ix ≡ fold_left f (entry acc ix) (map (λ i. entry (calls.last flat i) ix) is))
  unfolding fold_entries fold_left param
  fold_entries_lem pointwise flat [] acc = (acc, refl, λ ix. refl)
  fold_entries_lem pointwise flat (i ∷ is) acc =
      let (acc', ran, at) = pointwise acc (calls.last flat i) in
      let (r, ran', at') = fold_entries_lem pointwise flat is acc' in
      (
        r,
        rw (fold_entries, ran) ran',
        λ ix. at' ix ∙ ap (λ v. fold_left f v (map (λ k. entry (calls.last flat k) ix) is)) (at ix),
      )
