-- ===== src/Ops/Einsum/Both.antt =====
-- The two loops over pairs, of the batch axes and of the contracted ones.
use nx_tinygrad.Base.{
  ℕ, zero, suc, ◌+◌, ◌-◌, ◌<◌, ◌≤◌, ◌≡◌, refl, sym, ap, ◌∙◌, subst, none, some, List, ◌++◌, length,
  length-append, get_elem?, get_elem_bound, get_elem_left, get_elem_right, arith, ltb, ltb→lt,
  not-ltb→le, Bool-cases, ◌⊎◌, inl, inr,
}
use nx_tinygrad.Errors.{ok}
use nx_tinygrad.Ops.Axes.{range}
use nx_tinygrad.Ops.Einsum.{letters, Subscripts, unset, Naming, share}
use nx_tinygrad.Ops.Einsum.Shared.{AreAxes, IsMarked, share_lem}

pub length-unset : (rank : ℕ) → length (unset rank) ≡ rank
unfolding unset
length-unset zero = refl
length-unset (suc rank) = ap suc (length-unset rank)

pub get_elem-unset : (rank i : ℕ) → i < rank → get_elem? (unset rank) i ≡ some none
unfolding unset
get_elem-unset zero i h = absurd (omega arith)
get_elem-unset (suc rank) zero h = refl
get_elem-unset (suc rank) (suc i) h = get_elem-unset rank i (omega arith)

before_or_in : (n p : ℕ) → (p < n) ⊎ ((q : ℕ) × (p ≡ n + q))
before_or_in n p = elim (Bool-cases (ltb p n)) [
  | inl below ↦ inl (ltb→lt p n below)
  | inr over ↦ let le = not-ltb→le p n over in inr (p - n, omega arith)
]

left-AreAxes : (rank : ℕ) (xs ys : List ℕ) → AreAxes rank (xs ++ ys) → AreAxes rank xs
left-AreAxes rank xs ys h = record {
  bounded = λ p a e. h.bounded p a (get_elem_left xs ys p (get_elem_bound xs p a e) ∙ e);
  injective = λ p q a e f.
      h.injective p q a (get_elem_left xs ys p (get_elem_bound xs p a e) ∙ e)
        (get_elem_left xs ys q (get_elem_bound xs q a f) ∙ f);
}

right-AreAxes : (rank : ℕ) (xs ys : List ℕ) → AreAxes rank (xs ++ ys) → AreAxes rank ys
right-AreAxes rank xs ys h = record {
  bounded = λ p a e. h.bounded (length xs + p) a (get_elem_right xs ys p ∙ e);
  injective = λ p q a e f.
      let same =
        h.injective (length xs + p) (length xs + q) a (get_elem_right xs ys p ∙ e)
          (get_elem_right xs ys q ∙ f) in
      omega (arith, same);
}

-- The batch axes and then the contracted ones.
append-IsMarked :
    (rank : ℕ) (xs ys : List ℕ) (sub sub1 sub2 : Subscripts)
    → AreAxes rank (xs ++ ys)
    → IsMarked 0 xs sub sub1
    → IsMarked (length xs) ys sub1 sub2
    → IsMarked 0 (xs ++ ys) sub sub2
append-IsMarked rank xs ys sub sub1 sub2 h m1 m2 = record {
  long = m2.long ∙ m1.long;
  placed = λ p a e. elim (before_or_in (length xs) p) [
    | inl below ↦
        let there = sym (get_elem_left xs ys p below) ∙ e in
        m2.kept a (λ q f.
          let same = h.injective p (length xs + q) a e (get_elem_right xs ys q ∙ f) in
          omega (arith, same, below))
        ∙ m1.placed p a there
    | inr (q, is) ↦
        let there = sym (get_elem_right xs ys q) ∙ ap (get_elem? (xs ++ ys)) (sym is) ∙ e in
        let at : length xs + q ≡ 0 + p = omega (arith, is) in
        m2.placed q a there ∙ ap (λ n. some (some n)) at
  ];
  kept = λ i apart.
      m2.kept i (λ q f. apart (length xs + q) (get_elem_right xs ys q ∙ f))
      ∙ m1.kept i (λ p f. apart p (get_elem_left xs ys p (get_elem_bound xs p i f) ∙ f));
}

-- Both loops over pairs.
pub share_both :
    (ra rb : ℕ) (ca cb ba bb : List ℕ)
    → length ba ≡ length bb
    → length ca ≡ length cb
    → AreAxes ra (ba ++ ca)
    → AreAxes rb (bb ++ cb)
    → length (ba ++ ca) ≤ letters
    → (s1 s2 : Naming) × (cs : List ℕ) × (share ba bb
          (record { sub_a = unset ra; sub_b = unset rb; nxt = 0 })
        ≡ ok (s1, range 0 (length ba)))
      × (share ca cb s1 ≡ ok (s2, cs))
      × (s2.nxt ≡ length (ba ++ ca))
      × IsMarked 0 (ba ++ ca) (unset ra) s2.sub_a
      × IsMarked 0 (bb ++ cb) (unset rb) s2.sub_b
share_both ra rb ca cb ba bb batch contracted axes_a axes_b few =
    let many = length-append ba ca in
    let long_a = length-unset ra in
    let long_b = length-unset rb in
    let (s1, ran1, ma1, mb1, end1) =
      share_lem ba bb (record { sub_a = unset ra; sub_b = unset rb; nxt = 0 }) batch
        (rw long_a (left-AreAxes ra ba ca axes_a)) (rw long_b (left-AreAxes rb bb cb axes_b))
        (omega arith) in
    let at : s1.nxt ≡ length ba = omega (arith, end1) in
    let long1a : length s1.sub_a ≡ ra = ma1.long ∙ long_a in
    let long1b : length s1.sub_b ≡ rb = mb1.long ∙ long_b in
    let (s2, ran2, ma2, mb2, end2) =
      share_lem ca cb s1 contracted (rw long1a (right-AreAxes ra ba ca axes_a))
        (rw long1b (right-AreAxes rb bb cb axes_b)) (omega arith) in
    (
      s1,
      s2,
      _,
      ran1,
      ran2,
      omega (arith, end2, at, many),
      append-IsMarked ra ba ca (unset ra) s1.sub_a s2.sub_a axes_a ma1
          (subst (λ n. IsMarked n ca s1.sub_a s2.sub_a) at ma2),
      append-IsMarked rb bb cb (unset rb) s1.sub_b s2.sub_b axes_b mb1
          (subst (λ n. IsMarked n cb s1.sub_b s2.sub_b) (at ∙ batch) mb2),
    )
