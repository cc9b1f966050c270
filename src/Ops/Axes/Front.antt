-- ===== src/Ops/Axes/Front.antt =====
-- `tuple(axes) + tuple(non_axes)` is an order of all axes.
use nx_tinygrad.Base.{
  ℕ, zero, suc, ◌+◌, ◌≤◌, ◌<◌, ◌≡◌, refl, ap, ◌∙◌, List, [], ◌∷◌, length, length-append, Bool, true,
  false, not, ◌&&◌, ◌||◌, ◌↔◌, Bool-cases, inl, inr, arith, ◌==◌, All,
}
use nx_tinygrad.Ops.Axes.{elem, range, without, front_permutation}
use nx_tinygrad.Ops.Axes.Inverse.{IsPermutation}
use nx_tinygrad.Ops.Axes.Members.{
  Distinct, Distinct-injective, Distinct-append, Distinct-range, Distinct-without, elem-append,
  elem-get_elem?, elem-position, elem-range, elem-range_bounds, elem-without,
}

abbrev bit : Bool → ℕ
bit true = 1
bit false = 0

-- How many entries of the list stand among the axes, and how many are `a`.
unfoldable hits : List ℕ → List ℕ → ℕ
hits axes [] = 0
hits axes (d ∷ l) = bit (elem d axes) + hits axes l

unfoldable occurs : ℕ → List ℕ → ℕ
occurs a [] = 0
occurs a (d ∷ l) = bit (d == a) + occurs a l

length-without : (axes l : List ℕ) → length (without axes l) + hits axes l ≡ length l
unfolding without hits
length-without axes [] = refl
length-without axes (d ∷ l) = elim (Bool-cases (elem d axes)) [
  | inl h ↦ rw h (omega (arith, length-without axes l))
  | inr h ↦ rw h (omega (arith, length-without axes l))
]

bit-elem :
    (d a : ℕ) (axes : List ℕ)
    → elem a axes ≡ false
    → bit (elem d (a ∷ axes)) ≡ bit (d == a) + bit (elem d axes)
unfolding elem
bit-elem d a axes h = elim (Bool-cases (d == a)) [
  | inl e ↦
      let same : d ≡ a = ground (arith, e) in
      let away : elem d axes ≡ false = ap (λ z. elem z axes) same ∙ h in rw (e, away) refl
  | inr e ↦ rw e (omega arith)
]

hits-nil : (l : List ℕ) → hits [] l ≡ 0
unfolding hits elem
hits-nil [] = refl
hits-nil (d ∷ l) = omega (arith, hits-nil l)

hits-cons :
    (a : ℕ) (axes l : List ℕ) → elem a axes ≡ false → hits (a ∷ axes) l ≡ occurs a l + hits axes l
unfolding hits occurs
hits-cons a axes [] h = refl
hits-cons a axes (d ∷ l) h = omega (arith, bit-elem d a axes h, hits-cons a axes l h)

occurs_before : (a start n : ℕ) → a < start → occurs a (range start n) ≡ 0
unfolding occurs range
occurs_before a start zero h = refl
occurs_before a start (suc n) h =
    let e : (start == a) ≡ false = ground arith in
    rw e (omega (arith, occurs_before a (suc start) n (omega arith)))

occurs-range : (a start n : ℕ) → start ≤ a → a < start + n → occurs a (range start n) ≡ 1
unfolding occurs range
occurs-range a start zero h k = absurd (omega arith)
occurs-range a start (suc n) h k = elim (Bool-cases (start == a)) [
  | inl e ↦
      let same : start ≡ a = ground (arith, e) in
      rw e (omega (arith, occurs_before a (suc start) n (omega arith)))
  | inr e ↦
      let other : suc start ≤ a = ground (arith, e, h) in
      rw e (omega (arith, occurs-range a (suc start) n other (omega arith)))
]

hits-range :
    (axes : List ℕ) (rank : ℕ)
    → Distinct axes
    → All (λ a. a < rank) axes
    → hits axes (range 0 rank) ≡ length axes
hits-range [] rank d b = hits-nil (range 0 rank)
hits-range (a ∷ axes) rank (d, ds) (b, bs) = omega (
  arith,
  hits-cons a axes (range 0 rank) d,
  occurs-range a 0 rank (omega arith) (omega arith),
  hits-range axes rank ds bs,
)

length-range : (start n : ℕ) → length (range start n) ≡ n
unfolding range
length-range start zero = refl
length-range start (suc n) = ap suc (length-range (suc start) n)

pub length-front_permutation :
    (rank : ℕ) (axes : List ℕ)
    → Distinct axes
    → All (λ a. a < rank) axes
    → length (front_permutation rank axes) ≡ rank
unfolding front_permutation
length-front_permutation rank axes d b = omega (
  arith,
  length-append axes (without axes (range 0 rank)),
  length-without axes (range 0 rank),
  hits-range axes rank d b,
  length-range 0 rank,
)

elem_bounded :
    (n : ℕ) (axes : List ℕ) → All (λ a. a < n) axes → (a : ℕ) → elem a axes ≡ true → a < n
unfolding elem
elem_bounded n [] b a h = cc
elem_bounded n (x ∷ axes) (b, bs) a h = elim (Bool-cases (a == x)) [
  | inl e ↦ ground (arith, b, e)
  | inr e ↦ elem_bounded n axes bs a (cc (e, h))
]

elem-front_permutation :
    (rank : ℕ) (axes : List ℕ)
    → All (λ a. a < rank) axes
    → (a : ℕ) → (elem a (front_permutation rank axes) ≡ true) ↔ (a < rank)
unfolding front_permutation
elem-front_permutation rank axes b a = (below, above)
  where
    split :
        elem a (front_permutation rank axes)
        ≡ (elem a axes || (not (elem a axes) && elem a (range 0 rank)))
    split =
        elem-append a axes (without axes (range 0 rank))
        ∙ ap (λ z. elem a axes || z) (elem-without axes (range 0 rank) a)

    below : elem a (front_permutation rank axes) ≡ true → a < rank
    below h = elim (Bool-cases (elem a axes)) [
      | inl e ↦ elem_bounded rank axes b a e
      | inr e ↦
          let there : elem a (range 0 rank) ≡ true = cc (e, split, h) in
          let (low, high) = elem-range_bounds 0 rank a there in omega arith
    ]

    above : a < rank → elem a (front_permutation rank axes) ≡ true
    above h = split ∙ (elim (Bool-cases (elem a axes)) [
      | inl e ↦ rw e refl
      | inr e ↦ rw (e, elem-range 0 rank a (omega arith) (omega arith)) refl
    ])

-- Distinct axes below the rank, followed by the others, are an order of all axes.
pub front_permutation-IsPermutation :
    (rank : ℕ) (axes : List ℕ)
    → Distinct axes
    → All (λ a. a < rank) axes
    → IsPermutation rank (front_permutation rank axes)
unfolding front_permutation
front_permutation-IsPermutation rank axes d b = record {
  long = length-front_permutation rank axes d b;
  bounded = λ pos a h.
      (elem-front_permutation rank axes b a).0
        (elem-get_elem? (front_permutation rank axes) pos a h);
  injective = Distinct-injective (front_permutation rank axes) (
      Distinct-append axes (without axes (range 0 rank)) d
        (Distinct-without axes (range 0 rank) (Distinct-range 0 rank)) apart);
  covers = λ a h.
      elem-position (front_permutation rank axes) a ((elem-front_permutation rank axes b a).1 h);
}
  where
    apart : (a : ℕ) → elem a axes ≡ true → elem a (without axes (range 0 rank)) ≡ false
    apart a h = elem-without axes (range 0 rank) a ∙ (rw h refl)
