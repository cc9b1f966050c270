-- ===== src/Ops/Einsum/Free.antt =====
-- What the loop over the axes without a letter leaves.
use nx_tinygrad.Base.{
  ℕ, zero, suc, ◌+◌, ◌-◌, ◌<◌, ◌≤◌, ◌≡◌, refl, ap, none, some, List, [], ◌∷◌, length, get_elem?,
  arith, ◌⊎◌, inl, inr,
}
use nx_tinygrad.Errors.{ok}
use nx_tinygrad.Ops.Axes.{range}
use nx_tinygrad.Ops.Einsum.{letters, Subscripts, name_free}
use nx_tinygrad.Ops.Einsum.Shared.{letter_ok}

-- Every axis keeps its letter, and those without one have those from `n` to `m - 1`, in order.
pub record IsNamed (n : ℕ) (sub : Subscripts) (named : List ℕ) (m : ℕ) : Type 0 where
  pub long : length named ≡ length sub
  pub some_new : n ≤ m
  pub few : m ≤ n + length sub
  pub old : (i c : ℕ) → get_elem? sub i ≡ some (some c) → get_elem? named i ≡ some c
  pub new :
      (i : ℕ)
      → get_elem? sub i ≡ some none
      → (c : ℕ) × (get_elem? named i ≡ some c) × (n ≤ c) × (c < m)
  pub rising :
      (i j c d : ℕ)
      → i < j
      → get_elem? sub i ≡ some none
      → get_elem? sub j ≡ some none
      → get_elem? named i ≡ some c
      → get_elem? named j ≡ some d
      → c < d
  pub onto :
      (c : ℕ)
      → n ≤ c
      → c < m
      → (i : ℕ) × (get_elem? sub i ≡ some none) × (get_elem? named i ≡ some c)

nil-IsNamed : (n : ℕ) → IsNamed n [] [] n
nil-IsNamed n = record {
  long = refl;
  some_new = omega arith;
  few = omega arith;
  old = λ i c h. cc;
  new = λ i h. cc;
  rising = λ i j c d lt h k e f. cc;
  onto = λ c le lt. absurd (omega arith);
}

kept_letter :
    (n k : ℕ) (sub : Subscripts) (named : List ℕ) (m : ℕ)
    → IsNamed n sub named m
    → IsNamed n (some k ∷ sub) (k ∷ named) m
kept_letter n k sub named m h = record {
  long = ap suc h.long;
  some_new = h.some_new;
  few = omega (arith, h.few);
  old = old;
  new = new;
  rising = rising;
  onto = λ c le lt. let (i, blank, at) = h.onto c le lt in (suc i, blank, at);
}
  where
    old : (i c : ℕ) → get_elem? (some k ∷ sub) i ≡ some (some c) → get_elem? (k ∷ named) i ≡ some c
    old zero c e = let is : k ≡ c = cc e in ap some is
    old (suc i) c e = h.old i c e

    new :
        (i : ℕ)
        → get_elem? (some k ∷ sub) i ≡ some none
        → (c : ℕ) × (get_elem? (k ∷ named) i ≡ some c) × (n ≤ c) × (c < m)
    new zero e = cc e
    new (suc i) e = h.new i e

    rising :
        (i j c d : ℕ)
        → i < j
        → get_elem? (some k ∷ sub) i ≡ some none
        → get_elem? (some k ∷ sub) j ≡ some none
        → get_elem? (k ∷ named) i ≡ some c
        → get_elem? (k ∷ named) j ≡ some d
        → c < d
    rising zero j c d lt a b e f = cc a
    rising (suc i) zero c d lt a b e f = absurd (omega arith)
    rising (suc i) (suc j) c d lt a b e f = h.rising i j c d (omega arith) a b e f

new_letter :
    (n : ℕ) (sub : Subscripts) (named : List ℕ) (m : ℕ)
    → IsNamed (suc n) sub named m
    → IsNamed n (none ∷ sub) (n ∷ named) m
new_letter n sub named m h = record {
  long = ap suc h.long;
  some_new = omega (arith, h.some_new);
  few = omega (arith, h.few);
  old = old;
  new = new;
  rising = rising;
  onto = onto;
}
  where
    old : (i c : ℕ) → get_elem? (none ∷ sub) i ≡ some (some c) → get_elem? (n ∷ named) i ≡ some c
    old zero c e = cc e
    old (suc i) c e = h.old i c e

    new :
        (i : ℕ)
        → get_elem? (none ∷ sub) i ≡ some none
        → (c : ℕ) × (get_elem? (n ∷ named) i ≡ some c) × (n ≤ c) × (c < m)
    new zero e = (n, refl, omega arith, omega (arith, h.some_new))
    new (suc i) e = let (c, at, le, lt) = h.new i e in (c, at, omega arith, lt)

    rising :
        (i j c d : ℕ)
        → i < j
        → get_elem? (none ∷ sub) i ≡ some none
        → get_elem? (none ∷ sub) j ≡ some none
        → get_elem? (n ∷ named) i ≡ some c
        → get_elem? (n ∷ named) j ≡ some d
        → c < d
    rising i zero c d lt a b e f = absurd (omega arith)
    rising zero (suc j) c d lt a b e f =
        let is : n ≡ c = cc e in
        let (d', at, le, lt') = h.new j b in let same : d' ≡ d = cc (at, f) in omega arith
    rising (suc i) (suc j) c d lt a b e f = h.rising i j c d (omega arith) a b e f

    at_or_after : (n c : ℕ) → n ≤ c → (n ≡ c) ⊎ (suc n ≤ c)
    at_or_after n c le = ground arith

    onto :
        (c : ℕ)
        → n ≤ c
        → c < m
        → (i : ℕ) × (get_elem? (none ∷ sub) i ≡ some none) × (get_elem? (n ∷ named) i ≡ some c)
    onto c le lt = elim (at_or_after n c le) [
      | inl here ↦ (0, refl, ap some here)
      | inr after ↦ let (i, blank, at) = h.onto c after lt in (suc i, blank, at)
    ]

pub name_free_lem :
    (sub : Subscripts) (n : ℕ)
    → n + length sub ≤ letters
    → (named : List ℕ) × (m : ℕ) × (name_free sub n ≡ ok (named, range n (m - n), m))
      × IsNamed n sub named m
unfolding name_free range
name_free_lem [] n few =
    let none_new : n - n ≡ 0 = omega arith in ([], n, rw none_new refl, nil-IsNamed n)
name_free_lem (some k ∷ sub) n few =
    let (named, m, ran, h) = name_free_lem sub n (omega arith) in
    (k ∷ named, m, rw (name_free, ran) refl, kept_letter n k sub named m h)
name_free_lem (none ∷ sub) n few =
    let (named, m, ran, h) = name_free_lem sub (suc n) (omega arith) in
    let one_more : m - n ≡ suc (m - suc n) = omega (arith, h.some_new) in
    let named_one = letter_ok n (omega arith) in
    (n ∷ named, m, rw (name_free, named_one, ran, one_more) refl, new_letter n sub named m h)
