-- ===== src/Segments/Step/Apart.antt =====
-- The arguments that `step` hands to the captured function.
use nx_tinygrad.Base.{
  ℕ, suc, ◌<◌, ◌≤◌, ◌≡◌, refl, ap₂, true, false, ◌||◌, List, [], ◌∷◌, All, arith, Bool-cases, inl,
  inr, ◌==◌,
}
use nx_tinygrad.Dict.PopAll.{contains}
use nx_tinygrad.Validate.{all_distinct}
use nx_tinygrad.Executables.Dedup.{absent}
use nx_tinygrad.Segments.Step.{Buffered, materialize, step_args, bases, contents}

module _ {T : Type 0} where
  abbrev pub IsOwned : Buffered T → Type 0
  IsOwned t = (t.is_realized ≡ true) × (t.is_contiguous ≡ true)

  abbrev AreOld : ℕ → List (Buffered T) → Type 0
  AreOld fresh = All (λ (t : Buffered T). t.base < fresh)

  -- A tensor that is materialized has its value, and its base or a new one.
  materialize_lem :
      (t : Buffered T) (fresh : ℕ)
      → t.base < fresh
      → IsOwned (materialize t fresh).0
        × ((materialize t fresh).0.value ≡ t.value)
        × (fresh ≤ (materialize t fresh).1)
        × ((materialize t fresh).0.base < (materialize t fresh).1)
        × ((i : ℕ) → i < fresh → (i == (materialize t fresh).0.base) ≡ true → (i == t.base) ≡ true)
  unfolding materialize
  materialize_lem t fresh old = elim (Bool-cases t.is_realized) [
    | inr lazy ↦
        rw (materialize, lazy)
          ((refl, refl), refl, omega arith, omega arith, λ i lt e. ground (arith, lt, e))
    | inl done ↦ elim (Bool-cases t.is_contiguous) [
      | inr view ↦
          rw (materialize, done, view)
            ((refl, refl), refl, omega arith, omega arith, λ i lt e. ground (arith, lt, e))
      | inl whole ↦
          rw (materialize, done, whole) ((done, whole), refl, omega arith, old, λ i lt e. e)
    ]
  ]

  is_old :
      (fresh : ℕ) (ts : List (Buffered T)) (i : ℕ)
      → AreOld fresh ts
      → contains i (bases ts) ≡ true
      → i < fresh
  is_old fresh [] i h k = cc
  is_old fresh (t ∷ ts) i (b, bs) k = elim (Bool-cases (i == t.base)) [
    | inl here ↦ ground (arith, b, here)
    | inr later ↦ is_old fresh ts i bs (rw later at k)
  ]

  older : (m n : ℕ) (ts : List (Buffered T)) → m ≤ n → AreOld m ts → AreOld n ts
  older m n [] le h = tt
  older m n (t ∷ ts) le (b, bs) = (omega arith, older m n ts le bs)

  -- A base of the arguments is new, or that of a value and not seen before.
  step_args-base :
      (ts : List (Buffered T)) (seen : List ℕ) (fresh i : ℕ)
      → AreOld fresh ts
      → contains i (bases (step_args ts seen fresh)) ≡ true
      → i < fresh
      → (contains i seen ≡ false) × (contains i (bases ts) ≡ true)
  unfolding step_args
  step_args-base [] seen fresh i old h lt = cc
  step_args-base (t ∷ ts) seen fresh i (b, bs) h lt =
      let (owned, same, le, below, kept) = materialize_lem t fresh b in
      let m = (materialize t fresh).0 in
      let fresh' = (materialize t fresh).1 in
      let bs' = older fresh fresh' ts le bs in
      elim (Bool-cases (contains m.base seen)) [
        | inl again ↦
            let apart : (i == fresh') ≡ false = ground (arith, lt, le) in
            let h' : (i == fresh' || contains i (bases (step_args ts seen (suc fresh')))) ≡ true =
              rw (step_args, again) at h in
            let (unseen, there) =
              step_args-base ts seen (suc fresh') i (older fresh' (suc fresh') ts (omega arith) bs')
                (rw apart at h') (omega arith) in
            (unseen, ground (arith, there))
        | inr new ↦
            let h' : (i == m.base || contains i (bases (step_args ts (m.base ∷ seen) fresh')))
                ≡ true =
              rw (step_args, new) at h in
            elim (Bool-cases (i == m.base)) [
              | inl here ↦ (ground (arith, here, new), ground (arith, kept i lt here))
              | inr later ↦
                  let (unseen, there) =
                    step_args-base ts (m.base ∷ seen) fresh' i bs' (rw later at h') (omega arith) in
                  (ground (arith, unseen), ground (arith, there))
            ]
      ]

  pub step_args_lem :
      (ts : List (Buffered T)) (seen : List ℕ) (fresh : ℕ)
      → AreOld fresh ts
      → (all_distinct (bases (step_args ts seen fresh)) ≡ true)
        × All IsOwned (step_args ts seen fresh)
        × (contents (step_args ts seen fresh) ≡ contents ts)
  unfolding step_args all_distinct
  step_args_lem [] seen fresh old = (refl, tt, refl)
  step_args_lem (t ∷ ts) seen fresh (b, bs) =
      let (owned, same, le, below, kept) = materialize_lem t fresh b in
      let m = (materialize t fresh).0 in
      let fresh' = (materialize t fresh).1 in
      let bs' = older fresh fresh' ts le bs in
      elim (Bool-cases (contains m.base seen)) [
        | inl again ↦
            let bs'' = older fresh' (suc fresh') ts (omega arith) bs' in
            let (distinct, rest, values) = step_args_lem ts seen (suc fresh') bs'' in
            let new_one : contains fresh' (bases (step_args ts seen (suc fresh'))) ≡ false =
              absent fresh' (bases (step_args ts seen (suc fresh'))) (λ there.
                let (unseen, input) =
                  step_args-base ts seen (suc fresh') fresh' bs'' there (omega arith) in
                omega (arith, is_old fresh' ts fresh' bs' input)) in
            rw (step_args, again) (rw new_one distinct, ((refl, refl), rest), ap₂ ◌∷◌ same values)
        | inr new ↦
            let (distinct, rest, values) = step_args_lem ts (m.base ∷ seen) fresh' bs' in
            let unseen : contains m.base (bases (step_args ts (m.base ∷ seen) fresh')) ≡ false =
              absent m.base (bases (step_args ts (m.base ∷ seen) fresh')) (λ there.
                let (gone, input) =
                  step_args-base ts (m.base ∷ seen) fresh' m.base bs' there below in
                let seen_now : contains m.base (m.base ∷ seen) ≡ true = ground arith in
                cc (gone, seen_now)) in
            rw (step_args, new) (rw unseen distinct, (owned, rest), ap₂ ◌∷◌ same values)
      ]
