-- ===== src/Segments/Agree.antt =====
-- Environments that agree on a set of ids, or of which one extends the other, and evaluation.
use nx_tinygrad.Base.{
  sym, ℕ, ◌≡◌, refl, ap, ◌∙◌, subst, true, false, Option, none, some, List, [], ◌∷◌, ◌++◌, arith,
  ◌==◌, if◌then◌else◌, Option-cases, inl, inr, Bool-cases, ==_iff,
}
use nx_tinygrad.Errors.{ok, >>=-eq-ok, ok_inj}
use nx_tinygrad.Dict.{Dict, lookup, insert, lookup-insert}
use nx_tinygrad.Dict.PopAll.{contains}
use nx_tinygrad.Plan.Ids.{contains-append}
use nx_tinygrad.Segments.{from_entry, read_all, bind_all}

abbrev pub Subset : List ℕ → List ℕ → Type 0
Subset xs ys = (i : ℕ) → contains i xs ≡ true → contains i ys ≡ true

pub Subset-append_left : (xs ys zs : List ℕ) → Subset (xs ++ ys) zs → Subset xs zs
Subset-append_left xs ys zs h i p = h i (rw (contains-append i xs ys, p))

pub Subset-append_right : (xs ys zs : List ℕ) → Subset (xs ++ ys) zs → Subset ys zs
Subset-append_right xs ys zs h i p = h i (ground (arith, contains-append i xs ys))

module _ {V : Type 0} where
  abbrev pub or_else : Option V → Option V → Option V
  or_else (some v) d = some v
  or_else none d = d

  -- The value that a `zip` of ids and values gives an id.
  unfoldable pub bound : ℕ → List ℕ → List V → Option V
  bound i [] vs = none
  bound i (j ∷ ids) [] = none
  bound i (j ∷ ids) (v ∷ vs) = or_else (bound i ids vs) (if j == i then some v else none)

  pub lookup-bind_all :
      (i : ℕ) (ids : List ℕ) (vs : List V) (env : Dict V)
      → lookup i (bind_all ids vs env) ≡ or_else (bound i ids vs) (lookup i env)
  unfolding bound bind_all
  lookup-bind_all i [] vs env = refl
  lookup-bind_all i (j ∷ ids) [] env = refl
  lookup-bind_all i (j ∷ ids) (v ∷ vs) env =
      ground (arith, lookup-bind_all i ids vs (insert j v env), lookup-insert i j v env)

  pub bound_absent :
      (i : ℕ) (ids : List ℕ) (vs : List V) → contains i ids ≡ false → bound i ids vs ≡ none
  unfolding bound
  bound_absent i [] vs h = refl
  bound_absent i (j ∷ ids) [] h = refl
  bound_absent i (j ∷ ids) (v ∷ vs) h = ground (arith, bound_absent i ids vs)

  -- What was read at an id is what a `zip` of the ids and the values read gives it.
  pub bound-read_all :
      (i : ℕ) (ids : List ℕ) (env : Dict V) {vs : List V}
      → read_all ids env ≡ ok vs
      → bound i ids vs ≡ (if contains i ids then lookup i env else none)
  unfolding bound read_all
  bound-read_all i [] env h = refl
  bound-read_all i (j ∷ ids) env h = elim (Option-cases (lookup j env)) [
    | inl missing ↦ cc (rw (missing, from_entry) at h)
    | inr (v, found) ↦
        let h' = rw (found, from_entry) at h in
        let (us, all, q) = >>=-eq-ok (read_all ids env) (λ us. ok (v ∷ us)) h' in
        subst
          (λ (ws : List V).
            bound i (j ∷ ids) ws ≡ (if contains i (j ∷ ids) then lookup i env else none))
          (ok_inj q) (ground (arith, bound-read_all i ids env all, found))
  ]

  -- The parts of a successful read.
  pub read_all-cons :
      (i : ℕ) (ids : List ℕ) (env : Dict V) {vs : List V}
      → read_all (i ∷ ids) env ≡ ok vs
      → (v : V) × (rest : List V) × (lookup i env ≡ some v)
        × (read_all ids env ≡ ok rest)
        × (vs ≡ v ∷ rest)
  unfolding read_all from_entry
  read_all-cons i ids env h =
      let (v, e, h1) = >>=-eq-ok (from_entry (lookup i env)) _ h in
      let (rest, e1, h2) = >>=-eq-ok (read_all ids env) _ h1 in
      elim (Option-cases (lookup i env)) [
        | inl missing ↦ cc (rw (from_entry, missing) at e)
        | inr (w, there) ↦
            let same : ok w ≡ ok v = rw (from_entry, there) at e in
            (v, rest, there ∙ ap some (ok_inj same), e1, sym (ok_inj h2))
      ]

  -- What is read is there.
  pub read_all_found :
      (i : ℕ) (ids : List ℕ) (env : Dict V) {vs : List V}
      → contains i ids ≡ true
      → read_all ids env ≡ ok vs
      → (v : V) × (lookup i env ≡ some v)
  unfolding read_all
  read_all_found i [] env c h = cc
  read_all_found i (j ∷ ids) env c h = elim (Option-cases (lookup j env)) [
    | inl missing ↦ cc (rw (missing, from_entry) at h)
    | inr (v, found) ↦
        let h' = rw (found, from_entry) at h in
        let (us, all, q) = >>=-eq-ok (read_all ids env) (λ us. ok (v ∷ us)) h' in
        elim (Bool-cases (i == j)) [
          | inl here ↦ (v, ap (λ (k : ℕ). lookup k env) ((==_iff i j).0 here) ∙ found)
          | inr other ↦ read_all_found i ids env (rw other at c) all
        ]
  ]

  -- `e₂` has what `e₁` has.
  abbrev pub Extends : Dict V → Dict V → Type 0
  Extends e₁ e₂ = (i : ℕ) (v : V) → lookup i e₁ ≡ some v → lookup i e₂ ≡ some v

  abbrev pub EqOn : List ℕ → Dict V → Dict V → Type 0
  EqOn ids e₁ e₂ = (i : ℕ) → contains i ids ≡ true → lookup i e₁ ≡ lookup i e₂

  pub bind_all-Extends :
      (ids : List ℕ) (vs : List V) (e₁ e₂ : Dict V)
      → Extends e₁ e₂
      → Extends (bind_all ids vs e₁) (bind_all ids vs e₂)
  bind_all-Extends ids vs e₁ e₂ h i v p =
      ground (arith, lookup-bind_all i ids vs e₁, lookup-bind_all i ids vs e₂, h i v)

  pub bind_all-EqOn :
      (set ids : List ℕ) (vs : List V) (e₁ e₂ : Dict V)
      → EqOn set e₁ e₂
      → EqOn set (bind_all ids vs e₁) (bind_all ids vs e₂)
  bind_all-EqOn set ids vs e₁ e₂ h i p =
      ground (arith, lookup-bind_all i ids vs e₁, lookup-bind_all i ids vs e₂, h i)

  pub read_all-Extends :
      (ids : List ℕ) (e₁ e₂ : Dict V) {vs : List V}
      → Extends e₁ e₂
      → read_all ids e₁ ≡ ok vs
      → read_all ids e₂ ≡ ok vs
  unfolding read_all
  read_all-Extends [] e₁ e₂ h p = p
  read_all-Extends (i ∷ ids) e₁ e₂ h p = elim (Option-cases (lookup i e₁)) [
    | inl missing ↦ cc (rw (missing, from_entry) at p)
    | inr (v, found) ↦
        let p' = rw (found, from_entry) at p in
        let (us, all, q) = >>=-eq-ok (read_all ids e₁) (λ us. ok (v ∷ us)) p' in
        rw (h i v found, from_entry, read_all-Extends ids e₁ e₂ h all) q
  ]

  pub read_all-EqOn :
      (set ids : List ℕ) (e₁ e₂ : Dict V)
      → Subset ids set
      → EqOn set e₁ e₂
      → read_all ids e₁ ≡ read_all ids e₂
  unfolding read_all
  read_all-EqOn set [] e₁ e₂ s h = refl
  read_all-EqOn set (i ∷ ids) e₁ e₂ s h =
      rw (h i (s i (ground arith)), read_all-EqOn set ids e₁ e₂ (λ j p. s j (ground arith)) h)
