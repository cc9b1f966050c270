-- ===== src/Wire/Cut.antt =====
-- What a cut of a payload at an offset gives, when the bytes behind the offset are known.
use nx_tinygrad.Base.{
  ℕ, ◌+◌, ◌≤◌, ◌≡◌, ◌++◌, arith, length, drop, length-take, length-drop, take-append, drop-append,
  drop-drop, take-append-drop, All, All-take, All-drop,
}
use nx_tinygrad.Wire.Integers.{Bytes, IsByte}
use nx_tinygrad.Wire.{bytes_at}

module _ (p : Bytes) (offset n : ℕ) where
  -- The cut and what follows it are the bytes behind the offset.
  pub bytes_at-append-drop : bytes_at p offset n ++ drop (offset + n) p ≡ drop offset p
  unfolding bytes_at
  bytes_at-append-drop = rw (← drop-drop n offset p) (take-append-drop n (drop offset p))

  pub length-bytes_at : offset + n ≤ length p → length (bytes_at p offset n) ≡ n
  unfolding bytes_at
  length-bytes_at h = omega (arith, length-take n (drop offset p), length-drop offset p)

  module _ (xs ys : Bytes) (split : drop offset p ≡ xs ++ ys) (fits : length xs ≡ n) where
    pub bytes_at-eq : bytes_at p offset n ≡ xs
    unfolding bytes_at
    bytes_at-eq = rw split (take-append n xs ys fits)

    pub drop_behind : drop (offset + n) p ≡ ys
    drop_behind = rw (← drop-drop n offset p, split) (drop-append n xs ys fits)

pub bytes_at-IsByte : (p : Bytes) (offset n : ℕ) → All IsByte p → All IsByte (bytes_at p offset n)
unfolding bytes_at
bytes_at-IsByte p offset n h = All-take IsByte n (drop offset p) (All-drop IsByte offset p h)
