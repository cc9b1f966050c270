-- ===== src/Device/Cut.antt =====
-- The parts of a string around the first of a character.
use nx_tinygrad.Base.{
  ℕ, ◌≡◌, refl, sym, ap, ◌∙◌, true, false, none, some, [], ◌∷◌, ◌++◌, arith, Bool-cases,
  Option-cases, inl, inr, ◌==◌, ==_iff, ==_refl,
}
use nx_tinygrad.Dict.PopAll.{contains}
use nx_tinygrad.Device.{Text, cut, same_text}

pub cut_absent : (c : ℕ) (t : Text) → contains c t ≡ false → cut c t ≡ none
unfolding cut
cut_absent c [] h = refl
cut_absent c (d ∷ t) h =
    let apart : (c == d) ≡ false = ground (arith, h) in
    rw (apart, cut_absent c t (ground (arith, h))) refl

pub cut-append : (c : ℕ) (s t : Text) → contains c s ≡ false → cut c (s ++ (c ∷ t)) ≡ some (s, t)
unfolding cut
cut-append c [] t h = rw (==_refl c) refl
cut-append c (d ∷ s) t h =
    let apart : (c == d) ≡ false = ground (arith, h) in
    rw (apart, cut-append c s t (ground (arith, h))) refl

pub cut-none : (c : ℕ) (t : Text) → cut c t ≡ none → contains c t ≡ false
unfolding cut
cut-none c [] h = refl
cut-none c (d ∷ t) h = elim (Bool-cases (c == d)) [
  | inl here ↦ cc (rw here at h)
  | inr apart ↦ elim (Option-cases (cut c t)) [
    | inl later ↦ ground (arith, apart, cut-none c t later)
    | inr ((a, b), later) ↦ cc (rw (apart, later) at h)
  ]
]

pub cut-some : (c : ℕ) (t a b : Text) → cut c t ≡ some (a, b) → contains c a ≡ false
unfolding cut
cut-some c [] a b h = cc
cut-some c (d ∷ t) a b h = elim (Bool-cases (c == d)) [
  | inl here ↦
      let e : some ([], t) ≡ some (a, b) = rw here at h in
      let same : [] ≡ a = cc e in ap (contains c) (sym same)
  | inr apart ↦ elim (Option-cases (cut c t)) [
    | inl later ↦ cc (rw (apart, later) at h)
    | inr ((a', b'), later) ↦
        let e : some (d ∷ a', b') ≡ some (a, b) = rw (apart, later) at h in
        let same : d ∷ a' ≡ a = cc e in
        ap (contains c) (sym same) ∙ ground (arith, apart, cut-some c t a' b' later)
  ]
]

pub contains_append :
    (c : ℕ) (s t : Text) → contains c s ≡ false → contains c t ≡ false → contains c (s ++ t) ≡ false
contains_append c [] t h k = k
contains_append c (d ∷ s) t h k = ground (arith, h, contains_append c s t (ground (arith, h)) k)

pub same_text-eq : (s t : Text) → same_text s t ≡ true → s ≡ t
unfolding same_text
same_text-eq [] [] h = refl
same_text-eq [] (b ∷ t) h = cc
same_text-eq (a ∷ s) [] h = cc
same_text-eq (a ∷ s) (b ∷ t) h =
    let first : a ≡ b = (==_iff a b).0 (ground (arith, h)) in
    rw (first, same_text-eq s t (ground (arith, h))) refl

pub cut_join : (c : ℕ) (t a b : Text) → cut c t ≡ some (a, b) → t ≡ a ++ (c ∷ b)
unfolding cut
cut_join c [] a b h = cc
cut_join c (d ∷ t) a b h = elim (Bool-cases (c == d)) [
  | inl here ↦
      let e : some ([], t) ≡ some (a, b) = rw here at h in
      let same : [] ≡ a = cc e in
      let same' : t ≡ b = cc e in
      let same'' : d ≡ c = sym ((==_iff c d).0 here) in rw (same'', same', ← same) refl
  | inr apart ↦ elim (Option-cases (cut c t)) [
    | inl later ↦ cc (rw (apart, later) at h)
    | inr ((a', b'), later) ↦
        let e : some (d ∷ a', b') ≡ some (a, b) = rw (apart, later) at h in
        let same : d ∷ a' ≡ a = cc e in
        let same' : b' ≡ b = cc e in rw (← same, ← same') (ap (◌∷◌ d) (cut_join c t a' b' later))
  ]
]

pub contains_parts :
    (c : ℕ) (s t : Text)
    → contains c (s ++ t) ≡ false
    → (contains c s ≡ false) × (contains c t ≡ false)
contains_parts c [] t h = (refl, h)
contains_parts c (d ∷ s) t h =
    let (a, b) = contains_parts c s t (ground (arith, h)) in (ground (arith, h, a), b)
