-- ===== src/Tests/Arrays.antt =====
-- Arrays of numbers with the calls of `_dilate`, as a concrete tinygrad.
use nx_tinygrad.Base.{
  ℕ, ◌+◌, ◌*◌, ◌/◌, ◌%◌, ◌≤◌, ◌≡◌, refl, sym, ap, ap₂, subst, ◌∙◌, List, [], ◌∷◌, ◌++◌, length,
  Option, none, some, arith, if◌then◌else◌, ltb, Bool, true, false, lt→ltb, le→ltb,
}
use native.Mathlib.Nat.{mod-lt, div-add-mod'}
use nx_tinygrad.Json.{ℤ, pos, negsuc}
use nx_tinygrad.Validate.{product}
use nx_tinygrad.Ops.Strides.{position, position_bound, row_inj, InBounds}
use nx_tinygrad.Ops.Conv.{ConvCalls, repeat}
use nx_tinygrad.Ops.Conv.Laws.{DilationLaws, single, slice_size, InBounds-append}

pub record Array : Type 0 where
  pub dims : List ℕ
  pub at : List ℕ → ℕ

-- The coordinates of the element at a row-major position.
abbrev coordinates : List ℕ → ℕ → List ℕ
coordinates [] p = []
coordinates (n ∷ dims) p = (p / product dims) ∷ coordinates dims (p % product dims)

abbrev inside : List ℕ → List ℕ → Bool
inside [] [] = true
inside (n ∷ dims) (i ∷ xs) = if ltb i n then inside dims xs else false
inside dims xs = false

-- The sizes with the zeros after the entries.
abbrev widened : ℕ → ℤ × ℤ → ℕ
widened n (low, pos h) = n + h
widened n (low, negsuc k) = n

abbrev sliced : ℕ → Option ℤ → ℕ
sliced n none = n
sliced n (some stop) = slice_size n stop

abbrev sizes_with : {A : Type 0} → (ℕ → A → ℕ) → List ℕ → List A → List ℕ
sizes_with f [] entries = []
sizes_with f (n ∷ dims) [] = n ∷ dims
sizes_with f (n ∷ dims) (entry ∷ entries) = f n entry ∷ sizes_with f dims entries

abbrev pub arrays : ConvCalls Array
arrays = record {
  shape = λ t. t.dims;
  reshape =
      λ dims t. record { dims = dims; at = λ xs. t.at (coordinates t.dims (position dims xs)) };
  permute = λ order t. t;
  pad = λ widths t. record {
    dims = sizes_with widened t.dims widths;
    at = λ xs. if inside t.dims xs then t.at xs else 0;
  };
  cut = λ stops t. record { dims = sizes_with sliced t.dims stops; at = t.at };
  conv2d = λ groups strides dilations t kernel. t;
}

coordinates-position :
    (dims xs : List ℕ) → InBounds dims xs → coordinates dims (position dims xs) ≡ xs
unfolding position
coordinates-position [] [] h = refl
coordinates-position [] (i ∷ xs) h = absurd h
coordinates-position (n ∷ dims) [] h = absurd h
coordinates-position (n ∷ dims) (i ∷ xs) (lt, h) =
    let p = i * product dims + position dims xs in
    let bound = position_bound dims xs h in
    let (row, rest) =
      row_inj (product dims) (p / product dims) i (p % product dims) (position dims xs)
        (mod-lt p (omega arith)) bound (div-add-mod' p (product dims)) in
    ap₂ (λ k ks. k ∷ ks) row (ap (coordinates dims) rest ∙ coordinates-position dims xs h)

sizes_with-repeat :
    {A : Type 0} (f : ℕ → A → ℕ) (v : A) (dims : List ℕ)
    → ((n : ℕ) → f n v ≡ n)
    → sizes_with f dims (repeat (length dims) v) ≡ dims
unfolding repeat
sizes_with-repeat f v [] same = refl
sizes_with-repeat f v (n ∷ dims) same =
    ap₂ (λ m ms. m ∷ ms) (same n) (sizes_with-repeat f v dims same)

sizes_with-single :
    {A : Type 0} (f : ℕ → A → ℕ) (v w : A) (front back : List ℕ) (n : ℕ)
    → ((m : ℕ) → f m v ≡ m)
    → sizes_with f (front ++ (n ∷ back)) (single (length front) v w (length back))
      ≡ front ++ (f n w ∷ back)
unfolding repeat
sizes_with-single f v w [] back n same = ap (f n w ∷◌) (sizes_with-repeat f v back same)
sizes_with-single f v w (m ∷ front) back n same =
    ap₂ (λ k ks. k ∷ ks) (same m) (sizes_with-single f v w front back n same)

inside-InBounds : (dims xs : List ℕ) → InBounds dims xs → inside dims xs ≡ true
inside-InBounds [] [] h = refl
inside-InBounds [] (i ∷ xs) h = absurd h
inside-InBounds (n ∷ dims) [] h = absurd h
inside-InBounds (n ∷ dims) (i ∷ xs) (lt, h) = rw (lt→ltb i n lt) (inside-InBounds dims xs h)

inside-over :
    (front back xs ys : List ℕ) (n i : ℕ)
    → InBounds front xs
    → n ≤ i
    → inside (front ++ (n ∷ back)) (xs ++ (i ∷ ys)) ≡ false
inside-over [] back [] ys n i h le = rw (le→ltb i n le) refl
inside-over [] back (x ∷ xs) ys n i h le = absurd h
inside-over (m ∷ front) back [] ys n i h le = absurd h
inside-over (m ∷ front) back (x ∷ xs) ys n i (lt, h) le =
    rw (lt→ltb x m lt, inside-over front back xs ys n i h le) refl

coordinates-reshape :
    (dims sizes xs ys : List ℕ)
    → InBounds sizes ys
    → position dims xs ≡ position sizes ys
    → coordinates sizes (position dims xs) ≡ ys
coordinates-reshape dims sizes xs ys h e =
    ap (coordinates sizes) e ∙ coordinates-position sizes ys h

widened_none : (m : ℕ) → widened m (pos 0, pos 0) ≡ m
widened_none m = omega arith

-- An entry of `t`, when the test of `pad` is known.
chosen :
    (t : Array) (test b : Bool) (xs : List ℕ)
    → test ≡ b
    → (if test then t.at xs else 0) ≡ (if b then t.at xs else 0)
chosen t test b xs e = rw e refl

pub arrays-DilationLaws : DilationLaws arrays (λ t. t.at) 0
arrays-DilationLaws = record {
  shape-reshape = λ dims t h. refl;
  element-reshape = λ dims t xs ys h k l e. ap t.at (coordinates-reshape dims t.dims xs ys l e);
  shape-pad = λ t front back n h e.
      ap
        (λ dims.
          sizes_with widened dims
            (single (length front) (pos 0, pos 0) (pos 0, pos h) (length back)))
        e
      ∙ sizes_with-single widened (pos 0, pos 0) (pos 0, pos h) front back n widened_none;
  element-pad_old = λ t front back xs ys n h i e k l lt.
      chosen t (inside t.dims (xs ++ (i ∷ ys))) true (xs ++ (i ∷ ys)) (
        inside-InBounds t.dims (xs ++ (i ∷ ys)) (
          subst (λ dims. InBounds dims (xs ++ (i ∷ ys))) (sym e)
            (InBounds-append front (n ∷ back) xs (i ∷ ys) k (lt, l))));
  element-pad_new = λ t front back xs ys n h i e k l le lt.
      chosen t (inside t.dims (xs ++ (i ∷ ys))) false (xs ++ (i ∷ ys))
        (ap (λ dims. inside dims (xs ++ (i ∷ ys))) e ∙ inside-over front back xs ys n i k le);
  shape-cut = λ t front back n stop e.
      ap (λ dims. sizes_with sliced dims (single (length front) none (some stop) (length back))) e
      ∙ sizes_with-single sliced none (some stop) front back n (λ m. refl);
  element-cut = λ t front back xs ys n i stop e k l lt. refl;
}
