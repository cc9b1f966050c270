-- ===== src/Dict/PopAll.antt =====
-- Popping a list of keys keeps the entries of the other keys, in their order.
use nx_tinygrad.Base.{
  ℕ, ◌+◌, ◌-◌, ◌≤◌, ◌≡◌, refl, ap, Bool, false, ◌||◌, none, List, [], ◌∷◌, arith, length, ◌==◌,
  if◌then◌else◌, Option-cases, inl, inr,
}
use nx_tinygrad.Dict.{Dict, lookup, erase, pop_all}
use nx_tinygrad.Dict.Keys.{NodupKeys, erase-NodupKeys, length-erase, erase_absent}

abbrev pub contains : ℕ → List ℕ → Bool
contains k [] = false
contains k (j ∷ js) = k == j || contains k js

module _ {ℓ} {V : Type ℓ} where
  -- The entries whose keys are not listed.
  unfoldable pub without : List ℕ → Dict V → Dict V
  without ids [] = []
  without ids ((k, v) ∷ d) = if contains k ids then without ids d else (k, v) ∷ without ids d

  without-nil : (d : Dict V) → without [] d ≡ d
  unfolding without
  without-nil [] = refl
  without-nil ((k, v) ∷ d) = rw (without-nil d)

  pub lookup-without :
      (j : ℕ) (ids : List ℕ) (d : Dict V)
      → lookup j (without ids d) ≡ (if contains j ids then none else lookup j d)
  unfolding lookup without
  lookup-without j ids [] = ground arith
  lookup-without j ids ((k, v) ∷ d) = ground (arith, lookup-without j ids d)

  without_absent :
      (k : ℕ) (ids : List ℕ) (d : Dict V) → lookup k d ≡ none → without (k ∷ ids) d ≡ without ids d
  unfolding lookup without
  without_absent k ids [] h = refl
  without_absent k ids ((j, v) ∷ d) h = ground (arith, without_absent k ids d)

  without-erase :
      (k : ℕ) (ids : List ℕ) (d : Dict V)
      → NodupKeys d
      → without ids (erase k d) ≡ without (k ∷ ids) d
  unfolding lookup without erase
  without-erase k ids [] h = refl
  without-erase k ids ((j, v) ∷ d) (fresh, h) =
      ground (arith, without-erase k ids d h, without_absent k ids d)

  length-without : (ids : List ℕ) (d : Dict V) → length (without ids d) ≤ length d
  unfolding without
  length-without ids [] = omega arith
  length-without ids ((k, v) ∷ d) = ground (arith, length-without ids d)

  -- What is left, and how many entries went.
  pub pop_all-without :
      (ids : List ℕ) (removed : ℕ) (d : Dict V)
      → NodupKeys d
      → pop_all ids removed d ≡ (removed + (length d - length (without ids d)), without ids d)
  unfolding pop_all
  pop_all-without [] removed d h =
      let e : removed + (length d - length d) ≡ removed = omega arith in rw (without-nil, e)
  pop_all-without (k ∷ ids) removed d h = elim (Option-cases (lookup k d)) [
    | inl absent ↦
        rw
          (
            absent,
            erase_absent k d absent,
            pop_all-without ids (removed + 0) d h,
            without_absent k ids d absent,
          )
          (ap (λ (n : ℕ). (n, without ids d)) (omega arith))
    | inr (v, here) ↦
        let counted = length-erase k d v here in
        let shorter = length-without ids (erase k d) in
        rw
          (
            here,
            pop_all-without ids (removed + 1) (erase k d) (erase-NodupKeys k d h),
            without-erase k ids d h,
          )
          (ap (λ (n : ℕ). (n, without (k ∷ ids) d))
            (omega (arith, counted, rw without-erase at shorter)))
  ]

  pub without-NodupKeys : (ids : List ℕ) (d : Dict V) → NodupKeys d → NodupKeys (without ids d)
  unfolding without
  without-NodupKeys ids [] h = tt
  without-NodupKeys ids ((k, v) ∷ d) (fresh, h) =
      ground (arith, without-NodupKeys ids d h, lookup-without k ids d)

  -- Popping the same keys again finds nothing.
  pub without-without : (ids : List ℕ) (d : Dict V) → without ids (without ids d) ≡ without ids d
  unfolding without
  without-without ids [] = refl
  without-without ids ((k, v) ∷ d) = ground (arith, without-without ids d)
