-- ===== src/Ops/Bits.antt =====
-- `_bit_reduce`: the counts of leading zeros and of ones. A word is the sequence of its bits, from the
-- lowest, that goes on beyond its width with the bits that a right shift brings in: zeros for an
-- unsigned type, the sign for a signed one.
pub mod Smear
use nx_tinygrad.Base.{
  ℕ, zero, suc, ◌+◌, ◌-◌, ◌*◌, String, Bool, true, false, ◌||◌, Option, none, some, List, [], ◌∷◌,
  ltb, if◌then◌else◌,
}
use nx_tinygrad.Errors.{Result, ok, fail, python_error, ◌>>=◌}
use nx_tinygrad.Dtype.{find}

abbrev pub Word : Type 0
Word = ℕ → Bool

-- `_BIT_WIDTH`
abbrev pub bit_width : List (String × ℕ)
bit_width =
    ("u8", 8)
    ∷ ("s8", 8)
    ∷ ("u16", 16)
    ∷ ("s16", 16)
    ∷ ("u32", 32)
    ∷ ("s32", 32)
    ∷ ("u64", 64)
    ∷ ("s64", 64)
    ∷ []

abbrev pub bit : Bool → ℕ
bit false = 0
bit true = 1

-- `x >> n` and `x | y`
abbrev pub shift_right : Word → ℕ → Word
shift_right x n i = x (i + n)

abbrev pub bit_or : Word → Word → Word
bit_or x y i = x i || y i

-- The loop `while shift < width`, with fuel.
unfoldable pub smear : ℕ → ℕ → ℕ → Word → Word
smear zero shift width x = x
smear (suc fuel) shift width x = elim (ltb shift width) [
  | true ↦ smear fuel (shift * 2) width (bit_or x (shift_right x shift))
  | false ↦ x
]

-- `for i in range(start, start + rounds): total = total + ((highest >> i) & 1)`
unfoldable pub add_bits : ℕ → ℕ → Word → ℕ → ℕ
add_bits zero start highest total = total
add_bits (suc rounds) start highest total =
    add_bits rounds (suc start) highest (total + bit (shift_right highest start 0))

unfoldable pub total_bits : ℕ → Word → ℕ
unfolding add_bits
total_bits width highest = add_bits (width - 1) 1 highest (bit (highest 0))

unfoldable pub count_leading_zeros : ℕ → Word → ℕ
unfolding smear total_bits
count_leading_zeros width x = width - total_bits width (smear width 1 width x)

unfoldable pub population_count : ℕ → Word → ℕ
unfolding total_bits
population_count width x = total_bits width x

width_of : Option ℕ → Result ℕ
width_of none = fail (python_error "KeyError") "dtype"
width_of (some w) = ok w

-- `_bit_reduce` on one element
unfoldable pub bit_reduce : Bool → String → Word → Result ℕ
unfolding width_of
bit_reduce leading dtype x = do
  width ← width_of (find bit_width dtype)
  ok (if leading then count_leading_zeros width x else population_count width x)
