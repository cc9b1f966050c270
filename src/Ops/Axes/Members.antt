-- ===== src/Ops/Axes/Members.antt =====
-- Membership in lists of axes: positions, appended lists, ranges, and what `without` leaves.
use nx_tinygrad.Base.{
  ℕ, zero, suc, ◌+◌, ◌≤◌, ◌<◌, ◌≡◌, refl, ap, ◌∙◌, List, [], ◌∷◌, ◌++◌, true, false, not, ◌&&◌,
  ◌||◌, Bool-cases, inl, inr, some, get_elem?, arith, ◌==◌,
}
use nx_tinygrad.Ops.Axes.{elem, range, without}

-- No axis stands twice.
abbrev pub Distinct : List ℕ → Type 0
Distinct [] = Unit
Distinct (a ∷ axes) = (elem a axes ≡ false) × Distinct axes

pub elem-get_elem? : (l : List ℕ) (p a : ℕ) → get_elem? l p ≡ some a → elem a l ≡ true
unfolding elem
elem-get_elem? [] p a h = cc
elem-get_elem? (b ∷ l) zero a h =
    let e : b ≡ a = cc h in let here : (a == b) ≡ true = ground (arith, e) in rw here refl
elem-get_elem? (b ∷ l) (suc p) a h = elim (Bool-cases (a == b)) [
  | inl e ↦ rw e refl
  | inr e ↦ rw e (elem-get_elem? l p a h)
]

pub elem-position : (l : List ℕ) (a : ℕ) → elem a l ≡ true → (pos : ℕ) × (get_elem? l pos ≡ some a)
unfolding elem
elem-position [] a h = cc
elem-position (b ∷ l) a h = elim (Bool-cases (a == b)) [
  | inl e ↦ let same : b ≡ a = ground (arith, e) in (0, ap some same)
  | inr e ↦
      let rest : elem a l ≡ true = cc (e, h) in
      let (pos, found) = elem-position l a rest in (suc pos, found)
]

pub Distinct-injective :
    (l : List ℕ)
    → Distinct l
    → (p q a : ℕ) → get_elem? l p ≡ some a
    → get_elem? l q ≡ some a
    → p ≡ q
Distinct-injective [] d p q a h k = cc h
Distinct-injective (b ∷ l) (away, d) zero zero a h k = refl
Distinct-injective (b ∷ l) (away, d) zero (suc q) a h k =
    let e : b ≡ a = cc h in absurd (cc (away, e, elem-get_elem? l q a k))
Distinct-injective (b ∷ l) (away, d) (suc p) zero a h k =
    let e : b ≡ a = cc k in absurd (cc (away, e, elem-get_elem? l p a h))
Distinct-injective (b ∷ l) (away, d) (suc p) (suc q) a h k =
    ap suc (Distinct-injective l d p q a h k)

pub elem-append : (a : ℕ) (xs ys : List ℕ) → elem a (xs ++ ys) ≡ (elem a xs || elem a ys)
unfolding elem
elem-append a [] ys = refl
elem-append a (x ∷ xs) ys = elim (Bool-cases (a == x)) [
  | inl e ↦ rw e refl
  | inr e ↦ rw e (elem-append a xs ys)
]

pub Distinct-append :
    (xs ys : List ℕ)
    → Distinct xs
    → Distinct ys
    → ((a : ℕ) → elem a xs ≡ true → elem a ys ≡ false)
    → Distinct (xs ++ ys)
unfolding elem
Distinct-append [] ys d d' apart = d'
Distinct-append (x ∷ xs) ys (away, d) d' apart =
    let here : elem x (x ∷ xs) ≡ true = elem-get_elem? (x ∷ xs) 0 x refl in
    let away' : elem x (xs ++ ys) ≡ false = elem-append x xs ys ∙ (rw (away, apart x here) refl) in
    (away', Distinct-append xs ys d d' (λ a h. apart a (later a h)))
  where
    later : (a : ℕ) → elem a xs ≡ true → elem a (x ∷ xs) ≡ true
    later a h = elim (Bool-cases (a == x)) [ inl e ↦ rw e refl | inr e ↦ rw e h ]

pub elem-without :
    (axes l : List ℕ) (a : ℕ) → elem a (without axes l) ≡ (not (elem a axes) && elem a l)
unfolding elem without
elem-without axes [] a = elim (Bool-cases (elem a axes)) [ inl h ↦ rw h refl | inr h ↦ rw h refl ]
elem-without axes (d ∷ l) a = elim (Bool-cases (elem d axes)) [
  | inl h ↦ elim (Bool-cases (a == d)) [
    | inl e ↦
        let same : a ≡ d = ground (arith, e) in
        let h' : elem a axes ≡ true = ap (λ z. elem z axes) same ∙ h in
        cc (h, h', elem-without axes l a)
    | inr e ↦ rw (h, e) (elem-without axes l a)
  ]
  | inr h ↦ elim (Bool-cases (a == d)) [
    | inl e ↦
        let same : a ≡ d = ground (arith, e) in
        let h' : elem a axes ≡ false = ap (λ z. elem z axes) same ∙ h in rw (h, e, h') refl
    | inr e ↦ rw (h, e) (elem-without axes l a)
  ]
]

pub elem-range : (start n a : ℕ) → start ≤ a → a < start + n → elem a (range start n) ≡ true
unfolding elem range
elem-range start zero a h k = absurd (omega arith)
elem-range start (suc n) a h k = elim (Bool-cases (a == start)) [
  | inl e ↦ rw e refl
  | inr e ↦
      let other : suc start ≤ a = ground (arith, e, h) in
      rw e (elem-range (suc start) n a other (omega arith))
]

pub elem-range_bounds :
    (start n a : ℕ) → elem a (range start n) ≡ true → (start ≤ a) × (a < start + n)
unfolding elem range
elem-range_bounds start zero a h = cc
elem-range_bounds start (suc n) a h = elim (Bool-cases (a == start)) [
  | inl e ↦ let same : a ≡ start = ground (arith, e) in (omega arith, omega arith)
  | inr e ↦
      let rest : elem a (range (suc start) n) ≡ true = cc (e, h) in
      let (low, high) = elem-range_bounds (suc start) n a rest in (omega arith, omega arith)
]

pub Distinct-range : (start n : ℕ) → Distinct (range start n)
unfolding range
Distinct-range start zero = tt
Distinct-range start (suc n) = (away, Distinct-range (suc start) n)
  where
    away : elem start (range (suc start) n) ≡ false
    away = elim (Bool-cases (elem start (range (suc start) n))) [
      | inl h ↦ let (low, high) = elem-range_bounds (suc start) n start h in absurd (omega arith)
      | inr h ↦ h
    ]

pub Distinct-without : (axes l : List ℕ) → Distinct l → Distinct (without axes l)
unfolding without
Distinct-without axes [] d = tt
Distinct-without axes (x ∷ l) (away, d) = elim (Bool-cases (elem x axes)) [
  | inl h ↦ rw h (Distinct-without axes l d)
  | inr h ↦
      let gone : elem x (without axes l) ≡ false = elem-without axes l x ∙ (rw (h, away) refl) in
      rw h (gone, Distinct-without axes l d)
]
