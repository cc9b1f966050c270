-- ===== src/Wire/Integers.antt =====
-- Unsigned big-endian integers, as `struct.pack` and `struct.unpack` read and write them.
use nx_tinygrad.Base.{
  ℕ, zero, suc, ◌+◌, ◌*◌, ◌/◌, ◌%◌, ◌^◌, ◌<◌, ◌≡◌, refl, ap, ◌∙◌, List, [], ◌∷◌, reverse,
  reverse-reverse, arith, length, length-reverse, All, All-reverse, ltb, if◌then◌else◌,
}
use nx_tinygrad.Errors.{Result, ok, fail, python_error}
use native.Mathlib.Nat.{pow-suc, mul_comm}

abbrev pub IsByte : ℕ → Type 0
IsByte b = b < 256

abbrev pub Bytes : Type 0
Bytes = List ℕ

-- Lowest byte first.
digits : ℕ → ℕ → Bytes
digits zero n = []
digits (suc w) n = (n % 256) ∷ digits w (n / 256)

undigits : Bytes → ℕ
undigits [] = 0
undigits (b ∷ bs) = b + 256 * undigits bs

-- `w` bytes, highest first.
unfoldable pub to_bytes : ℕ → ℕ → Bytes
unfolding digits
to_bytes w n = reverse (digits w n)

unfoldable pub from_bytes : Bytes → ℕ
unfolding undigits
from_bytes bs = undigits (reverse bs)

-- `struct.pack(">I", n)` and the like: a number that does not fit raises `struct.error`.
unfoldable pub pack : ℕ → ℕ → Result Bytes
unfolding to_bytes
pack w n = if ltb n (256 ^ w) then ok (to_bytes w n) else fail (python_error "error") "pack"

length-digits : (w n : ℕ) → length (digits w n) ≡ w
unfolding digits
length-digits zero n = refl
length-digits (suc w) n = ap suc (length-digits w (n / 256))

pub length-to_bytes : (w n : ℕ) → length (to_bytes w n) ≡ w
unfolding to_bytes
length-to_bytes w n = length-reverse (digits w n) ∙ length-digits w n

digits-IsByte : (w n : ℕ) → All IsByte (digits w n)
unfolding digits
digits-IsByte zero n = tt
digits-IsByte (suc w) n = (omega arith, digits-IsByte w (n / 256))

pub to_bytes-IsByte : (w n : ℕ) → All IsByte (to_bytes w n)
unfolding to_bytes
to_bytes-IsByte w n = All-reverse IsByte (digits w n) (digits-IsByte w n)

pow_step : (w : ℕ) → 256 ^ suc w ≡ 256 * 256 ^ w
pow_step w = pow-suc 256 w ∙ mul_comm (256 ^ w) 256

undigits-digits : (w n : ℕ) → n < 256 ^ w → undigits (digits w n) ≡ n
unfolding digits undigits
undigits-digits zero n h = omega arith
undigits-digits (suc w) n h =
    omega (arith, pow_step w, undigits-digits w (n / 256) (omega (arith, pow_step w)))

digits-undigits : (bs : Bytes) → All IsByte bs → digits (length bs) (undigits bs) ≡ bs
unfolding digits undigits
digits-undigits [] h = refl
digits-undigits (b ∷ bs) (hb, h) =
    let low : (b + 256 * undigits bs) % 256 ≡ b = omega arith in
    let high : (b + 256 * undigits bs) / 256 ≡ undigits bs = omega arith in
    rw (low, high, digits-undigits bs h)

-- A number that fits is read back.
pub from_bytes-to_bytes : (w n : ℕ) → n < 256 ^ w → from_bytes (to_bytes w n) ≡ n
unfolding from_bytes to_bytes
from_bytes-to_bytes w n h = rw reverse-reverse (undigits-digits w n h)

-- The bytes read are the bytes of the number.
pub to_bytes-from_bytes : (bs : Bytes) → All IsByte bs → to_bytes (length bs) (from_bytes bs) ≡ bs
unfolding from_bytes to_bytes
to_bytes-from_bytes bs h =
    rw
      (← length-reverse bs, digits-undigits (reverse bs) (All-reverse IsByte bs h), reverse-reverse)

undigits-lt : (bs : Bytes) → All IsByte bs → undigits bs < 256 ^ length bs
unfolding undigits
undigits-lt [] h = omega arith
undigits-lt (b ∷ bs) (hb, h) = omega (arith, pow_step (length bs), undigits-lt bs h)

pub from_bytes-lt : (bs : Bytes) → All IsByte bs → from_bytes bs < 256 ^ length bs
unfolding from_bytes
from_bytes-lt bs h = rw (← length-reverse bs) (undigits-lt (reverse bs) (All-reverse IsByte bs h))
