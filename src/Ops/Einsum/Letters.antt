-- ===== src/Ops/Einsum/Letters.antt =====
-- Which axes share a letter of the formula, and which letters its result has.
use nx_tinygrad.Base.{
  ℕ, zero, suc, ◌+◌, ◌-◌, ◌<◌, ◌≤◌, ◌≡◌, ◌≢◌, refl, sym, ap, ◌∙◌, some, List, [], ◌∷◌, ◌++◌, length,
  length-append, get_elem?, get_elem_bound, arith, ◌==◌, ==_iff, false, Bool-cases, ◌⊎◌, inl, inr,
}
use nx_tinygrad.Errors.{Result, ok, ◌>>=◌}
use nx_tinygrad.Ops.Axes.{range}
use nx_tinygrad.Ops.Einsum.{letters, Subscripts, unset, name_free, Formula, einsum_formula}
use nx_tinygrad.Ops.Einsum.Shared.{AreAxes, IsMarked}
use nx_tinygrad.Ops.Einsum.Free.{IsNamed, name_free_lem}
use nx_tinygrad.Ops.Einsum.Both.{length-unset, get_elem-unset, share_both}

abbrev pub IsApart : List ℕ → ℕ → Type 0
IsApart axes i = (pos : ℕ) → get_elem? axes pos ≢ some i

-- The letters of one operand: its paired axes have the letters from 0 on, in the order of the pairs,
-- and the others those from `n` to `m - 1`, in their own order.
pub record IsLettered (rank : ℕ) (axes : List ℕ) (n m : ℕ) (named : List ℕ) : Type 0 where
  pub long : length named ≡ rank
  pub paired : (pos a : ℕ) → get_elem? axes pos ≡ some a → get_elem? named a ≡ some pos
  pub free :
      (i : ℕ)
      → i < rank
      → IsApart axes i
      → (c : ℕ) × (get_elem? named i ≡ some c) × (n ≤ c) × (c < m)
  pub rising :
      (i j c d : ℕ)
      → i < j
      → j < rank
      → IsApart axes i
      → IsApart axes j
      → get_elem? named i ≡ some c
      → get_elem? named j ≡ some d
      → c < d
  pub onto :
      (c : ℕ) → n ≤ c → c < m → (i : ℕ) × (i < rank) × IsApart axes i × (get_elem? named i ≡ some c)

lettered :
    (rank : ℕ) (axes : List ℕ) (n m : ℕ) (sub : Subscripts) (named : List ℕ)
    → IsMarked 0 axes (unset rank) sub
    → IsNamed n sub named m
    → IsLettered rank axes n m named
lettered rank axes n m sub named marked h = record {
  long = h.long ∙ marked.long ∙ length-unset rank;
  paired = λ p a e.
      let at : 0 + p ≡ p = omega arith in
      h.old a p (marked.placed p a e ∙ ap (λ k. some (some k)) at);
  free = λ i lt apart. h.new i (marked.kept i apart ∙ get_elem-unset rank i lt);
  rising = λ i j c d lt low apart apart' e f.
      h.rising i j c d lt (marked.kept i apart ∙ get_elem-unset rank i (omega arith))
        (marked.kept j apart' ∙ get_elem-unset rank j low) e f;
  onto = λ c le lt.
      let (i, blank, at) = h.onto c le lt in
      let long : length named ≡ rank = h.long ∙ marked.long ∙ length-unset rank in
      (
        i,
        omega (arith, long, get_elem_bound named i c at),
        λ p e. cc (marked.placed p i e, blank),
        at,
      );
}

-- An axis is paired, or it is not.
paired_or_IsApart :
    (axes : List ℕ) (i : ℕ) → ((pos : ℕ) × (get_elem? axes pos ≡ some i)) ⊎ IsApart axes i
paired_or_IsApart [] i = inr (λ pos e. cc e)
paired_or_IsApart (a ∷ axes) i = elim (Bool-cases (a == i)) [
  | inl here ↦ inl (0, ap some ((==_iff a i).0 here))
  | inr other ↦ elim (paired_or_IsApart axes i) [
    | inl (pos, e) ↦ inl (suc pos, e)
    | inr apart ↦ inr (absent other apart)
  ]
]
  where
    absent : (a == i) ≡ false → IsApart axes i → IsApart (a ∷ axes) i
    absent other apart zero e = let same : a ≡ i = cc e in cc (other, (==_iff a i).1 same)
    absent other apart (suc pos) e = apart pos e

-- The letter of an axis: that of its pair, or one of its own.
letter_cases :
    (rank : ℕ) (axes : List ℕ) (n m : ℕ) (named : List ℕ)
    → IsLettered rank axes n m named
    → (i c : ℕ) → get_elem? named i ≡ some c
    → ((get_elem? axes c ≡ some i) × (c < length axes)) ⊎ (IsApart axes i × (n ≤ c) × (c < m))
letter_cases rank axes n m named h i c e = elim (paired_or_IsApart axes i) [
  | inl (pos, at) ↦
      let is : pos ≡ c = cc (h.paired pos i at, e) in
      inl (ap (get_elem? axes) (sym is) ∙ at, omega (arith, is, get_elem_bound axes pos i at))
  | inr apart ↦
      let (d, at, le, lt) = h.free i (omega (arith, get_elem_bound named i c e, h.long)) apart in
      let is : d ≡ c = cc (at, e) in inr (apart, omega (arith, is, le), omega (arith, is, lt))
]

-- One letter for one axis.
IsLettered-apart :
    (rank : ℕ) (axes : List ℕ) (n m : ℕ) (named : List ℕ)
    → length axes ≤ n
    → IsLettered rank axes n m named
    → (i j c : ℕ) → get_elem? named i ≡ some c
    → get_elem? named j ≡ some c
    → i ≡ j
IsLettered-apart rank axes n m named few h i j c e f =
    elim (letter_cases rank axes n m named h i c e) [
      | inl (at, lt) ↦ elim (letter_cases rank axes n m named h j c f) [
        | inl (at', lt') ↦ cc (at, at')
        | inr (apart, le, lt') ↦ absurd (omega (arith, lt, le, few))
      ]
      | inr (apart, le, lt) ↦ elim (letter_cases rank axes n m named h j c f) [
        | inl (at', lt') ↦ absurd (omega (arith, lt', le, few))
        | inr (apart', le', lt') ↦ elim (three_ways i j) [
          | inl below ↦
              let wrong : c < c =
                h.rising i j c c below (omega (arith, get_elem_bound named j c f, h.long)) apart
                  apart' e f in
              absurd (omega (arith, wrong))
          | inr (inl same) ↦ same
          | inr (inr above) ↦
              let wrong : c < c =
                h.rising j i c c above (omega (arith, get_elem_bound named i c e, h.long)) apart'
                  apart f e in
              absurd (omega (arith, wrong))
        ]
      ]
    ]
  where
    three_ways : (i j : ℕ) → (i < j) ⊎ ((i ≡ j) ⊎ (j < i))
    three_ways i j = ground arith

-- The formula of operands of ranks `ra` and `rb` with the axes `ps` and `qs` paired, the first `batch`
-- of them kept.
pub record IsFormula (ra rb batch : ℕ) (ps qs : List ℕ) (f : Formula) : Type 0 where
  pub middle : ℕ
  pub end : ℕ
  pub left : IsLettered ra ps (length ps) middle f.left
  pub right : IsLettered rb qs middle end f.right
  pub left_apart : (i j c : ℕ) → get_elem? f.left i ≡ some c → get_elem? f.left j ≡ some c → i ≡ j
  pub right_apart :
      (i j c : ℕ) → get_elem? f.right i ≡ some c → get_elem? f.right j ≡ some c → i ≡ j
  pub shared :
      (i j c : ℕ)
      → get_elem? f.left i ≡ some c
      → get_elem? f.right j ≡ some c
      → (get_elem? ps c ≡ some i) × (get_elem? qs c ≡ some j)
  pub out :
      f.out
      ≡ range 0 batch ++ (range (length ps) (middle - length ps) ++ range middle (end - middle))

formula_lem :
    (ra rb batch middle end : ℕ) (ps qs left right : List ℕ)
    → length ps ≡ length qs
    → length ps ≤ middle
    → IsLettered ra ps (length ps) middle left
    → IsLettered rb qs middle end right
    → IsFormula ra rb batch ps qs (record {
      left = left;
      right = right;
      out =
          range 0 batch ++ (range (length ps) (middle - length ps) ++ range middle (end - middle));
    })
formula_lem ra rb batch middle end ps qs left right pairs le hl hr = record {
  middle = middle;
  end = end;
  left = hl;
  right = hr;
  left_apart = IsLettered-apart ra ps (length ps) middle left (omega arith) hl;
  right_apart = IsLettered-apart rb qs middle end right (omega arith) hr;
  shared = λ i j c e f. elim (letter_cases ra ps (length ps) middle left hl i c e) [
    | inl (at, lt) ↦ elim (letter_cases rb qs middle end right hr j c f) [
      | inl (at', lt') ↦ (at, at')
      | inr (apart, le', lt') ↦ absurd (omega (arith, lt, le', le))
    ]
    | inr (apart, le', lt) ↦ elim (letter_cases rb qs middle end right hr j c f) [
      | inl (at', lt') ↦ absurd (omega (arith, lt', le', pairs))
      | inr (apart', le'', lt') ↦ absurd (omega (arith, lt, le''))
    ]
  ];
  out = refl;
}

then_ok :
    {T U : Type 0} {first : Result T} {t : T} (rest : T → Result U)
    → first ≡ ok t
    → (first >>= rest) ≡ rest t
then_ok rest h = ap (λ r. r >>= rest) h

-- For batch and contraction axes in pairs, distinct in each operand and below its rank, and
-- within the 52 letters by the ranks and the pairs together, `_einsum_dot` finds a formula: no
-- two axes of an operand have one letter, axes of the two operands have one letter just when they
-- are a pair, and the result has the letters of the batch axes, then those of the free axes of
-- the first operand and of the second, in their order, and no letter that no axis has.
pub einsum_formula-IsFormula :
    (ra rb : ℕ) (ca cb ba bb : List ℕ)
    → length ba ≡ length bb
    → length ca ≡ length cb
    → AreAxes ra (ba ++ ca)
    → AreAxes rb (bb ++ cb)
    → length (ba ++ ca) + ra + rb ≤ letters
    → (f : Formula) × (einsum_formula ra rb ca cb ba bb ≡ ok f)
      × IsFormula ra rb (length ba) (ba ++ ca) (bb ++ cb) f
unfolding einsum_formula
einsum_formula-IsFormula ra rb ca cb ba bb batch contracted axes_a axes_b few =
    let (s1, s2, cs, ran1, ran2, at, marked_a, marked_b) =
      share_both ra rb ca cb ba bb batch contracted axes_a axes_b (omega arith) in
    let long_a : length s2.sub_a ≡ ra = marked_a.long ∙ length-unset ra in
    let long_b : length s2.sub_b ≡ rb = marked_b.long ∙ length-unset rb in
    let (left, middle, ran3, ha) = name_free_lem s2.sub_a (length (ba ++ ca)) (omega arith) in
    let (right, end, ran4, hb) = name_free_lem s2.sub_b middle (omega (arith, ha.few)) in
    (
      _,
      then_ok _ ran1
          ∙ then_ok _ ran2
          ∙ then_ok _ (ap (name_free s2.sub_a) at ∙ ran3)
          ∙ then_ok _ ran4,
      formula_lem ra rb (length ba) middle end (ba ++ ca) (bb ++ cb) left right
          (omega (arith, length-append ba ca, length-append bb cb)) ha.some_new
          (lettered ra (ba ++ ca) (length (ba ++ ca)) middle s2.sub_a left marked_a ha)
          (lettered rb (bb ++ cb) middle end s2.sub_b right marked_b hb),
    )
