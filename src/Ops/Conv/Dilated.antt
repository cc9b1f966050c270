-- ===== src/Ops/Conv/Dilated.antt =====
-- `_dilate`: zeros stand between the entries of each spatial axis, and the entries are the old ones.
use nx_tinygrad.Base.{
  ℕ, suc, ◌/◌, ◌%◌, ◌<◌, ◌≤◌, ◌≡◌, refl, sym, ap, subst, ◌∙◌, List, [], ◌∷◌, ◌++◌, length, Option,
  none, some, arith, if◌then◌else◌, ◌==◌, leb, Bool, true, false, append_assoc, length-append,
  Bool-cases, inl, inr,
}
use mathlib.Core.Option.{some-injective}
use native.Mathlib.Nat.{mod-lt, div-add-mod'}
use nx_tinygrad.Errors.{ok, ◌>>=◌}
use nx_tinygrad.Ops.Strides.{InBounds}
use nx_tinygrad.Ops.Conv.{ConvCalls, dilate_axis, dilate}
use nx_tinygrad.Ops.Conv.Laws.{DilationLaws, InBounds-append}
use nx_tinygrad.Ops.Conv.Axis.{
  dilated_size, dilated, dilate_axis-run, shape-dilated, element-dilated, row_bound,
}

abbrev pub next_size : ℕ → ℕ → ℕ
next_size n d = if leb d 1 then n else dilated_size n d

unfoldable pub dilated_sizes : List ℕ → List ℕ → List ℕ
dilated_sizes [] sizes = sizes
dilated_sizes (d ∷ ds) [] = []
dilated_sizes (d ∷ ds) (n ∷ sizes) = next_size n d ∷ dilated_sizes ds sizes

-- The coordinate `i` on an axis, where it is a multiple, before those on the next axes.
abbrev pub prepend : ℕ → ℕ → Option (List ℕ) → Option (List ℕ)
prepend d i none = none
prepend d i (some rest) =
    if leb d 1 then some (i ∷ rest) else if (i % d) == 0 then some ((i / d) ∷ rest) else none

-- The coordinates of the entry element nought that a dilated tensor has at `idx`, where they are all multiples.
unfoldable pub source : List ℕ → List ℕ → Option (List ℕ)
source [] idx = some idx
source (d ∷ ds) [] = none
source (d ∷ ds) (i ∷ idx) = prepend d i (source ds idx)

not-leb→lt : (a b : ℕ) → leb a b ≡ false → b < a
not-leb→lt a b h = ground arith

multiple_bound : (n d i : ℕ) → 2 ≤ d → i < dilated_size n d → i / d < n
multiple_bound n d i large h =
    row_bound n d (i / d) (i % d) large
      (subst (λ j. j < dilated_size n d) (sym (div-add-mod' i d)) h)

prepend_bounds :
    (d n i : ℕ) (sizes : List ℕ) (o : Option (List ℕ)) (idx : List ℕ)
    → i < next_size n d
    → ((rest : List ℕ) → o ≡ some rest → InBounds sizes rest)
    → prepend d i o ≡ some idx
    → InBounds (n ∷ sizes) idx
prepend_bounds d n i sizes none idx h k e = cc
prepend_bounds d n i sizes (some rest) idx h k e = elim (Bool-cases (leb d 1)) [
  | inl small ↦
      subst (InBounds (n ∷ sizes)) (some-injective (i ∷ rest) idx (rw small at e))
        (rw small at h, k rest refl)
  | inr large ↦ elim (Bool-cases ((i % d) == 0)) [
    | inl multiple ↦
        subst (InBounds (n ∷ sizes))
          (some-injective ((i / d) ∷ rest) idx (rw (large, multiple) at e))
          (multiple_bound n d i (not-leb→lt d 1 large) (rw large at h), k rest refl)
    | inr between ↦ cc (rw (large, between) at e)
  ]
]

source_bounds :
    (ds sizes idx rest : List ℕ)
    → InBounds (dilated_sizes ds sizes) idx
    → source ds idx ≡ some rest
    → InBounds sizes rest
unfolding dilated_sizes source
source_bounds [] sizes idx rest h e = subst (InBounds sizes) (some-injective idx rest e) h
source_bounds (d ∷ ds) [] [] rest h e = cc
source_bounds (d ∷ ds) [] (i ∷ idx) rest h e = absurd h
source_bounds (d ∷ ds) (n ∷ sizes) [] rest h e = cc
source_bounds (d ∷ ds) (n ∷ sizes) (i ∷ idx) rest (lt, h) e =
    prepend_bounds d n i sizes (source ds idx) rest lt
      (λ tail found. source_bounds ds sizes idx tail h found) e

-- The entry of `t` on these coordinates, or a zero.
abbrev pub entry : {T V : Type 0} → (T → List ℕ → V) → V → T → List ℕ → Option (List ℕ) → V
entry element nought t xs none = nought
entry element nought t xs (some idx) = element t (xs ++ idx)

module _ {T V : Type 0} (calls : ConvCalls T) (element : T → List ℕ → V) (nought : V)
    (laws : DilationLaws calls element nought) where
  abbrev Round : T → T → List ℕ → List ℕ → ℕ → ℕ → Type 0
  Round t t' front back n d =
      (calls.shape t' ≡ front ++ (next_size n d ∷ back))
      × ((xs ys : List ℕ) (i : ℕ)
          → InBounds front xs
          → InBounds back ys
          → i < next_size n d
          → element t' (xs ++ (i ∷ ys)) ≡ entry element nought t xs (prepend d i (some ys)))

  entry-if :
      (b : Bool) (t : T) (xs idx : List ℕ)
      → (if b then element t (xs ++ idx) else nought)
        ≡ entry element nought t xs (if b then some idx else none)
  entry-if true t xs idx = refl
  entry-if false t xs idx = refl

  element-entry :
      (t : T) (front back : List ℕ) (n d : ℕ) (sized : calls.shape t ≡ front ++ (n ∷ back))
      (large : 2 ≤ d) (xs ys : List ℕ) (i : ℕ)
      → InBounds front xs
      → InBounds back ys
      → i < dilated_size n d
      → element (dilated calls element nought laws t front back n d sized large) (xs ++ (i ∷ ys))
        ≡ entry element nought t xs (if (i % d) == 0 then some ((i / d) ∷ ys) else none)
  element-entry t front back n d sized large xs ys i h k lt =
      let parts = div-add-mod' i d in
      ap
        (λ j.
          element (dilated calls element nought laws t front back n d sized large) (xs ++ (j ∷ ys)))
        (sym parts)
      ∙ element-dilated calls element nought laws t front back n d sized large xs ys (i / d) (i % d)
          h k (mod-lt i (omega arith)) (subst (λ j. j < dilated_size n d) (sym parts) lt)
      ∙ entry-if ((i % d) == 0) t xs ((i / d) ∷ ys)

  dilate_axis-Round :
      (t : T) (front back : List ℕ) (n d : ℕ)
      → calls.shape t ≡ front ++ (n ∷ back)
      → (t' : T) × ((if leb d 1 then ok t else dilate_axis calls (length front) d t) ≡ ok t')
        × Round t t' front back n d
  dilate_axis-Round t front back n d sized = elim (Bool-cases (leb d 1)) [
    | inl small ↦ rw small (t, refl, (sized, λ xs ys i h k lt. refl))
    | inr large ↦
        let two = not-leb→lt d 1 large in
        rw large (
          dilated calls element nought laws t front back n d sized two,
          dilate_axis-run calls element nought laws t front back n d sized two,
          (
            shape-dilated calls element nought laws t front back n d sized two,
            λ xs ys i h k lt. element-entry t front back n d sized two xs ys i h k lt,
          ),
        )
  ]

  entry-prepend :
      (t t' : T) (front back : List ℕ) (n d i : ℕ) (xs : List ℕ) (o : Option (List ℕ))
      → Round t t' front back n d
      → InBounds front xs
      → i < next_size n d
      → ((rest : List ℕ) → o ≡ some rest → InBounds back rest)
      → entry element nought t' (xs ++ (i ∷ [])) o ≡ entry element nought t xs (prepend d i o)
  entry-prepend t t' front back n d i xs none is h lt k = refl
  entry-prepend t t' front back n d i xs (some rest) (sized, at) h lt k =
      ap (element t') (append_assoc xs (i ∷ []) rest) ∙ at xs rest i h (k rest refl) lt

  -- The elements after the rounds, when `t''` is what the later ones make of `t'`.
  element-later :
      (t t' t'' : T) (front sizes : List ℕ) (n d : ℕ) (ds : List ℕ)
      → Round t t' front sizes n d
      → ((xs idx : List ℕ)
          → InBounds (front ++ (next_size n d ∷ [])) xs
          → InBounds (dilated_sizes ds sizes) idx
          → element t'' (xs ++ idx) ≡ entry element nought t' xs (source ds idx))
      → (xs idx : List ℕ) → InBounds front xs
      → InBounds (next_size n d ∷ dilated_sizes ds sizes) idx
      → element t'' (xs ++ idx) ≡ entry element nought t xs (source (d ∷ ds) idx)
  unfolding source
  element-later t t' t'' front sizes n d ds is later xs [] h k = absurd k
  element-later t t' t'' front sizes n d ds is later xs (i ∷ idx) h (lt, k) =
      let inside = InBounds-append front (next_size n d ∷ []) xs (i ∷ []) h (lt, tt) in
      ap (element t'') (sym (append_assoc xs (i ∷ []) idx))
      ∙ later (xs ++ (i ∷ [])) idx inside k
      ∙ entry-prepend t t' front sizes n d i xs (source ds idx) is h lt
          (λ rest found. source_bounds ds sizes idx rest k found)

  abbrev Dilated : T → List ℕ → List ℕ → List ℕ → Type 0
  Dilated t front ds sizes =
      (t' : T) × (dilate calls (length front) ds t ≡ ok t')
      × (calls.shape t' ≡ front ++ dilated_sizes ds sizes)
      × ((xs idx : List ℕ)
          → InBounds front xs
          → InBounds (dilated_sizes ds sizes) idx
          → element t' (xs ++ idx) ≡ entry element nought t xs (source ds idx))

  dilate-Dilated :
      (ds sizes front : List ℕ) (t : T)
      → calls.shape t ≡ front ++ sizes
      → length ds ≤ length sizes
      → Dilated t front ds sizes
  unfolding dilate dilated_sizes source
  dilate-Dilated [] sizes front t sized long = (t, refl, sized, λ xs idx h k. refl)
  dilate-Dilated (d ∷ ds) [] front t sized long = absurd (omega arith)
  dilate-Dilated (d ∷ ds) (n ∷ sizes) front t sized long =
      let (t', ran, (sized', at)) = dilate_axis-Round t front sizes n d sized in
      let m = next_size n d in
      let (t'', ran', sized'', at') =
        dilate-Dilated ds sizes (front ++ (m ∷ [])) t'
          (sized' ∙ sym (append_assoc front (m ∷ []) sizes)) (omega arith) in
      let next : length (front ++ (m ∷ [])) ≡ suc (length front) =
        length-append front (m ∷ []) ∙ omega arith in
      (
        t'',
        ap (λ r. r >>= dilate calls (suc (length front)) ds) ran
            ∙ ap (λ axis. dilate calls axis ds t') (sym next)
            ∙ ran',
        sized'' ∙ append_assoc front (m ∷ []) (dilated_sizes ds sizes),
        element-later t t' t'' front sizes n d ds (sized', at) at',
      )

  -- For a tensor of batches, channels and spatial axes, at least as many as the dilations,
  -- `_dilate` returns a tensor of as many batches and channels where each spatial axis of `n`
  -- entries that is dilated by `d`, 1 for 0, has `(n - 1) * d + 1`, none where it had none. Its
  -- element at coordinates in range that are all multiples of the dilations is the element of
  -- the given tensor at the quotients, and any other is the zero that `pad` adds; where
  -- tinygrad's reshape, pad and slices have the shapes and elements that it documents.
  pub dilate_lem :
      (ds sizes : List ℕ) (batches channels : ℕ) (t : T) (b c : ℕ) (idx : List ℕ)
      → calls.shape t ≡ batches ∷ channels ∷ sizes
      → length ds ≤ length sizes
      → b < batches
      → c < channels
      → InBounds (dilated_sizes ds sizes) idx
      → (t' : T) × (dilate calls 2 ds t ≡ ok t')
        × (calls.shape t' ≡ batches ∷ channels ∷ dilated_sizes ds sizes)
        × (element t' (b ∷ c ∷ idx) ≡ entry element nought t (b ∷ c ∷ []) (source ds idx))
  dilate_lem ds sizes batches channels t b c idx sized long lt lt' k =
      let (t', ran, sized', at) = dilate-Dilated ds sizes (batches ∷ channels ∷ []) t sized long in
      (t', ran, sized', at (b ∷ c ∷ []) idx (lt, (lt', tt)) k)
