-- ===== src/Executables/Dedup.antt =====
-- priv/worker/executable.py: `_dedup`. A tensor is its identity (`id`) and its value; `clone` makes a
-- tensor with an identity that no tensor has had.
use nx_tinygrad.Base.{
  ℕ, suc, ◌+◌, ◌<◌, ◌≡◌, refl, ap, true, false, ◌||◌, List, [], ◌∷◌, map, arith, All, Bool-cases,
  inl, inr, ◌==◌,
}
use nx_tinygrad.Dict.PopAll.{contains}
use nx_tinygrad.Validate.{all_distinct}

pub record Tensor (V : Type 0) : Type 0 where
  pub ident : ℕ
  pub value : V

-- The next identity, and `duplicate_input_clones`.
pub record Clones : Type 0 where
  pub fresh : ℕ
  pub duplicate_input_clones : ℕ

abbrev pub count_clone : Clones → Clones
count_clone c = record c { duplicate_input_clones = c.duplicate_input_clones + 1 }

pub absent : (i : ℕ) (is : List ℕ) → (contains i is ≡ true → ⊥) → contains i is ≡ false
absent i is h = elim (Bool-cases (contains i is)) [ inl c ↦ absurd (h c) | inr c ↦ c ]

module _ {V : Type 0} where
  abbrev pub clone : Tensor V → Clones → Tensor V × Clones
  clone t c = (record { ident = c.fresh; value = t.value }, record c { fresh = suc c.fresh })

  -- The loop of `_dedup`.
  unfoldable pub dedup_loop : List (Tensor V) → List ℕ → Clones → List (Tensor V) × Clones
  dedup_loop [] seen c = ([], c)
  dedup_loop (t ∷ ts) seen c = elim (contains t.ident seen) [
    | true ↦
        let (copy, c') = clone t c in
        let (rest, after) = dedup_loop ts seen (count_clone c') in (copy ∷ rest, after)
    | false ↦ let (rest, after) = dedup_loop ts (t.ident ∷ seen) c in (t ∷ rest, after)
  ]

  unfoldable pub dedup : List (Tensor V) → Clones → List (Tensor V) × Clones
  unfolding dedup_loop
  dedup ts c = dedup_loop ts [] c

  abbrev pub idents : List (Tensor V) → List ℕ
  idents = map (λ (t : Tensor V). t.ident)

  abbrev pub values : List (Tensor V) → List V
  values = map (λ (t : Tensor V). t.value)

  -- Each identity of the result is new, or that of an input that was not seen before.
  dedup_loop-ident :
      (ts : List (Tensor V)) (seen : List ℕ) (c : Clones) (i : ℕ)
      → contains i (idents (dedup_loop ts seen c).0) ≡ true
      → i < c.fresh
      → (contains i seen ≡ false) × (contains i (idents ts) ≡ true)
  unfolding dedup_loop
  dedup_loop-ident [] seen c i h k = cc
  dedup_loop-ident (t ∷ ts) seen c i h k = elim (Bool-cases (contains t.ident seen)) [
    | inl old ↦
        let c' = count_clone (clone t c).1 in
        let apart : (i == c.fresh) ≡ false = ground (arith, k) in
        let h' : (i == c.fresh || contains i (idents (dedup_loop ts seen c').0)) ≡ true =
          rw (dedup_loop, old) at h in
        let (unseen, there) = dedup_loop-ident ts seen c' i (rw apart at h') (omega arith) in
        (unseen, ground (arith, there))
    | inr new ↦
        let h' : (i == t.ident || contains i (idents (dedup_loop ts (t.ident ∷ seen) c).0)) ≡ true =
          rw (dedup_loop, new) at h in
        elim (Bool-cases (i == t.ident)) [
          | inl here ↦ (ground (arith, here, new), ground (arith, here))
          | inr later ↦
              let (unseen, there) = dedup_loop-ident ts (t.ident ∷ seen) c i (rw later at h') k in
              (ground (arith, unseen), ground (arith, there))
        ]
  ]

  idents_bounded :
      (n : ℕ) (ts : List (Tensor V)) (i : ℕ)
      → All (λ (t : Tensor V). t.ident < n) ts
      → contains i (idents ts) ≡ true
      → i < n
  idents_bounded n [] i h k = cc
  idents_bounded n (t ∷ ts) i (b, bs) k = elim (Bool-cases (i == t.ident)) [
    | inl here ↦ ground (arith, b, here)
    | inr later ↦ idents_bounded n ts i bs (rw later at k)
  ]

  bound_suc :
      (n : ℕ) (ts : List (Tensor V))
      → All (λ (t : Tensor V). t.ident < n) ts
      → All (λ (t : Tensor V). t.ident < suc n) ts
  bound_suc n [] h = tt
  bound_suc n (t ∷ ts) (b, bs) = (omega arith, bound_suc n ts bs)

  dedup_loop_lem :
      (ts : List (Tensor V)) (seen : List ℕ) (c : Clones)
      → All (λ (t : Tensor V). t.ident < c.fresh) ts
      → (all_distinct (idents (dedup_loop ts seen c).0) ≡ true)
        × (values (dedup_loop ts seen c).0 ≡ values ts)
  unfolding dedup_loop all_distinct
  dedup_loop_lem [] seen c h = (refl, refl)
  dedup_loop_lem (t ∷ ts) seen c (b, bs) = elim (Bool-cases (contains t.ident seen)) [
    | inl old ↦
        let c' = count_clone (clone t c).1 in
        let (distinct, same) = dedup_loop_lem ts seen c' (bound_suc c.fresh ts bs) in
        let new_one : contains c.fresh (idents (dedup_loop ts seen c').0) ≡ false =
          absent c.fresh (idents (dedup_loop ts seen c').0) (λ there.
            let (unseen, input) = dedup_loop-ident ts seen c' c.fresh there (omega arith) in
            omega (arith, idents_bounded c.fresh ts c.fresh bs input)) in
        rw (dedup_loop, old) (rw new_one distinct, ap (◌∷◌ t.value) same)
    | inr new ↦
        let seen' = t.ident ∷ seen in
        let (distinct, same) = dedup_loop_lem ts seen' c bs in
        let unseen : contains t.ident (idents (dedup_loop ts seen' c).0) ≡ false =
          absent t.ident (idents (dedup_loop ts seen' c).0) (λ there.
            let (gone, input) = dedup_loop-ident ts seen' c t.ident there b in
            let seen_now : contains t.ident (t.ident ∷ seen) ≡ true = ground arith in
            cc (gone, seen_now)) in
        rw (dedup_loop, new) (rw unseen distinct, ap (◌∷◌ t.value) same)
  ]

  -- The tensors that `_dedup` hands to the captured function are distinct objects, and have the
  -- values of the inputs in their order; where `clone` makes a tensor that is none of those
  -- before it.
  pub dedup_lem :
      (ts : List (Tensor V)) (c : Clones)
      → All (λ (t : Tensor V). t.ident < c.fresh) ts
      → (all_distinct (idents (dedup ts c).0) ≡ true) × (values (dedup ts c).0 ≡ values ts)
  unfolding dedup
  dedup_lem ts c h = dedup_loop_lem ts [] c h
