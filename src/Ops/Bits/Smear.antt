-- ===== src/Ops/Bits/Smear.antt =====
-- The counts of `_bit_reduce`, against the counts from the top of a word.
use nx_tinygrad.Base.{
  ℕ, zero, suc, ◌+◌, ◌-◌, ◌*◌, ◌<◌, ◌≤◌, ◌≡◌, refl, sym, ap, ap₂, ◌∙◌, Bool, true, false, ◌||◌,
  arith, ltb, ltb→lt, not-ltb→le, Bool-cases, inl, inr, if◌then◌else◌, String, some,
}
use nx_tinygrad.Errors.{ok}
use nx_tinygrad.Dtype.{find}
use nx_tinygrad.Ops.Bits.{
  bit_width, bit_reduce, width_of, Word, bit, shift_right, bit_or, smear, add_bits, total_bits,
  count_leading_zeros, population_count,
}

-- The zeros above the highest one among the lowest `n` bits.
unfoldable pub leading_zeros : ℕ → Word → ℕ
leading_zeros zero x = 0
leading_zeros (suc n) x = let rest = leading_zeros n x in if x n then 0 else suc rest

-- The ones among the lowest `n` bits.
unfoldable pub ones : ℕ → Word → ℕ
ones zero x = 0
ones (suc n) x = ones n x + bit (x n)

-- Beyond its width a word has zeros, or its highest bit.
abbrev pub IsWord : ℕ → Word → Type 0
IsWord width x = (i : ℕ) → width ≤ i → x i ≡ true → x (width - 1) ≡ true

or_assoc : (a b c : Bool) → (a || (b || c)) ≡ ((a || b) || c)
or_assoc true b c = refl
or_assoc false b c = refl

or_false : (a : Bool) → (a || false) ≡ a
or_false true = refl
or_false false = refl

or_true : (a b : Bool) → b ≡ true → (a || b) ≡ true
or_true true b h = refl
or_true false b h = h

-- Some bit of `n` from the i-th on.
unfoldable any : ℕ → Word → ℕ → Bool
any zero x i = false
any (suc n) x i = x i || any n x (suc i)

any-ext : (m n i j : ℕ) (x : Word) → m ≡ n → i ≡ j → any m x i ≡ any n x j
any-ext m n i j x h k = ap₂ (λ a b. any a x b) h k

any-append : (m n : ℕ) (x : Word) (i : ℕ) → any (m + n) x i ≡ (any m x i || any n x (i + m))
unfolding any
any-append zero n x i = any-ext (zero + n) n i (i + zero) x (omega arith) (omega arith)
any-append (suc m) n x i =
    let carry = any-ext (suc m + n) (suc (m + n)) i i x (omega arith) refl in
    let there = any-ext n n (suc i + m) (i + suc m) x refl (omega arith) in
    let rest = any-append m n x (suc i) in
    carry
    ∙ ap (λ b. x i || b) rest
    ∙ or_assoc (x i) (any m x (suc i)) (any n x (suc i + m))
    ∙ ap (λ b. (x i || any m x (suc i)) || b) there

any_here : (n i j : ℕ) (x : Word) → i ≤ j → j < i + n → x j ≡ true → any n x i ≡ true
unfolding any
any_here zero i j x h k e = absurd (omega arith)
any_here (suc n) i j x h k e = elim (Bool-cases (ltb i j)) [
  | inl later ↦
      or_true (x i) (any n x (suc i))
        (any_here n (suc i) j x (omega (arith, ltb→lt i j later)) (omega arith) e)
  | inr now ↦
      let same : i ≡ j = omega (arith, not-ltb→le i j now) in
      ap (λ b. b || any n x (suc i)) (ap x same ∙ e)
]

any_found : (n i : ℕ) (x : Word) → any n x i ≡ true → (j : ℕ) × (i ≤ j) × (j < i + n) × (x j ≡ true)
unfolding any
any_found zero i x h = cc
any_found (suc n) i x h = elim (Bool-cases (x i)) [
  | inl here ↦ (i, omega arith, omega arith, here)
  | inr not_here ↦
      let (j, a, b, e) = any_found n (suc i) x (ground arith) in (j, omega arith, omega arith, e)
]

ones-ext : (n : ℕ) (x y : Word) → ((i : ℕ) → i < n → x i ≡ y i) → ones n x ≡ ones n y
unfolding ones
ones-ext zero x y h = refl
ones-ext (suc n) x y h =
    ap₂ (λ a b. a + bit b) (ones-ext n x y (λ i k. h i (omega arith))) (h n (omega arith))

ones_full : (n : ℕ) (x : Word) → ((i : ℕ) → i < n → x i ≡ true) → ones n x ≡ n
unfolding ones
ones_full zero x h = refl
ones_full (suc n) x h =
    rw (h n (omega arith)) (omega (arith, ones_full n x (λ i k. h i (omega arith))))

-- What the loop of shifts leaves: each bit tells if some bit from it on is set.
smear-any :
    (fuel shift width : ℕ) (x y : Word)
    → 0 < shift
    → width ≤ shift + fuel
    → ((i : ℕ) → y i ≡ any shift x i)
    → (m : ℕ) × (width ≤ m) × ((i : ℕ) → smear fuel shift width y i ≡ any m x i)
unfolding smear
smear-any zero shift width x y pos enough h = (shift, omega arith, h)
smear-any (suc fuel) shift width x y pos enough h = elim (Bool-cases (ltb shift width)) [
  | inr done ↦
      let stop : smear (suc fuel) shift width y ≡ y = rw (smear, done) refl in
      (shift, not-ltb→le shift width done, λ i. ap (λ z. z i) stop ∙ h i)
  | inl more ↦
      let (m, wide, rest) =
        smear-any fuel (shift * 2) width x (bit_or y (shift_right y shift)) (omega arith)
          (omega arith)
          (λ i.
            ap₂ (λ a b. a || b) (h i) (h (i + shift))
            ∙ sym (any-append shift shift x i)
            ∙ any-ext (shift + shift) (shift * 2) i i x (omega arith) refl) in
      let step : smear (suc fuel) shift width y
          ≡ smear fuel (shift * 2) width (bit_or y (shift_right y shift)) =
        rw (smear, more) refl in
      (m, wide, λ i. ap (λ z. z i) step ∙ rest i)
]

-- A window that reaches beyond the word sees no more than the word.
any_word :
    (width m : ℕ) (x : Word) (i : ℕ)
    → IsWord width x
    → i < width
    → width ≤ m
    → any m x i ≡ any (width - i) x i
any_word width m x i word h k = elim (Bool-cases (any (width - i) x i)) [
  | inl set ↦
      let (j, a, b, e) = any_found (width - i) i x set in
      any_here m i j x a (omega arith) e ∙ sym set
  | inr clear ↦ elim (Bool-cases (any m x i)) [
    | inr clear' ↦ clear' ∙ sym clear
    | inl set ↦
        let (j, a, b, e) = any_found m i x set in
        elim (Bool-cases (ltb j width)) [
          | inl inside ↦
              absurd
                (cc (clear, any_here (width - i) i j x a (omega (arith, ltb→lt j width inside)) e))
          | inr outside ↦ absurd (
              cc (
                clear,
                any_here (width - i) i (width - 1) x (omega arith) (omega arith)
                    (word j (not-ltb→le j width outside) e),
              ))
        ]
  ]
]

any_top : (n i : ℕ) (x : Word) → i < n → x n ≡ false → any (suc n - i) x i ≡ any (n - i) x i
any_top n i x h clear =
    let last : any 1 x (i + (n - i)) ≡ false =
      any-ext 1 1 (i + (n - i)) n x refl (omega arith)
      ∙ (unfold any in ap (λ b. b || false) clear) in
    any-ext (suc n - i) (n - i + 1) i i x (omega arith) refl
    ∙ any-append (n - i) 1 x i
    ∙ ap (λ b. any (n - i) x i || b) last
    ∙ or_false (any (n - i) x i)

-- The bits below the highest one, and the zeros above it.
ones-leading_zeros : (n : ℕ) (x : Word) → ones n (λ i. any (n - i) x i) + leading_zeros n x ≡ n
unfolding ones leading_zeros
ones-leading_zeros zero x = refl
ones-leading_zeros (suc n) x =
    let top : any (suc n - n) x n ≡ (x n || false) =
      any-ext (suc n - n) 1 n n x (omega arith) refl ∙ (unfold any in refl) in
    elim (Bool-cases (x n)) [
      | inl set ↦
          let all : ones n (λ i. any (suc n - i) x i) ≡ n =
            ones_full n (λ i. any (suc n - i) x i)
              (λ i k. any_here (suc n - i) i n x (omega arith) (omega arith) set) in
          rw (top, set, all) (omega arith)
      | inr clear ↦
          let same : ones n (λ i. any (suc n - i) x i) ≡ ones n (λ i. any (n - i) x i) =
            ones-ext n (λ i. any (suc n - i) x i) (λ i. any (n - i) x i)
              (λ i k. any_top n i x k clear) in
          rw (top, clear, same) (omega (arith, ones-leading_zeros n x))
    ]

add_bits-ones :
    (rounds start : ℕ) (x : Word) (total : ℕ)
    → total ≡ ones start x
    → add_bits rounds start x total ≡ ones (start + rounds) x
unfolding add_bits ones
add_bits-ones zero start x total h = h ∙ ap (λ k. ones k x) (omega arith)
add_bits-ones (suc rounds) start x total h =
    add_bits-ones rounds (suc start) x (total + bit (x (0 + start)))
      (ap₂ (λ a i. a + bit (x i)) h (omega arith))
    ∙ ap (λ k. ones k x) (omega arith)

total_bits-ones : (width : ℕ) (x : Word) → 0 < width → total_bits width x ≡ ones width x
unfolding total_bits
total_bits-ones width x h =
    add_bits-ones (width - 1) 1 x (bit (x 0)) (unfold ones in omega arith)
    ∙ ap (λ k. ones k x) (omega arith)

counts :
    (width : ℕ) (x : Word)
    → 0 < width
    → IsWord width x
    → count_leading_zeros width x ≡ leading_zeros width x
unfolding count_leading_zeros
counts width x pos word =
    let (m, wide, smeared) =
      smear-any width 1 width x x (omega arith) (omega arith)
        (λ i. unfold any in sym (or_false (x i))) in
    let ext : ones width (smear width 1 width x) ≡ ones width (λ i. any (width - i) x i) =
      ones-ext width (smear width 1 width x) (λ i. any (width - i) x i)
        (λ i k. smeared i ∙ any_word width m x i word k wide) in
    omega
      (arith, total_bits-ones width (smear width 1 width x) pos, ext, ones-leading_zeros width x)

-- For a dtype of the table `_BIT_WIDTH` and a word of its width, continued by zeros or by its
-- highest bit, the shifts and sums of `_bit_reduce` give the number of zeros above the highest
-- one, or the number of ones.
pub bit_reduce_lem :
    (leading : Bool) (dtype : String) (width : ℕ) (x : Word)
    → find bit_width dtype ≡ some width
    → 0 < width
    → IsWord width x
    → bit_reduce leading dtype x ≡ ok (if leading then leading_zeros width x else ones width x)
unfolding bit_reduce population_count
bit_reduce_lem true dtype width x known pos word =
    rw (known, width_of) (ap ok (counts width x pos word))
bit_reduce_lem false dtype width x known pos word =
    rw (known, width_of) (ap ok (total_bits-ones width x pos))
