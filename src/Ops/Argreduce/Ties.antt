-- ===== src/Ops/Argreduce/Ties.antt =====
-- Which of several best elements `_argreduce` names.
use nx_tinygrad.Base.{
  ℕ, zero, suc, ◌-◌, ◌<◌, ◌≤◌, ◌≡◌, refl, sym, ap, ◌∙◌, subst, String, str_eq, Bool, true, false,
  Option, none, some, List, [], ◌∷◌, ◌++◌, length, reverse, get_elem?, get_elem_bound,
  get_elem_left, length-reverse, reverse-append, arith, if◌then◌else◌,
}
use nx_tinygrad.Ops.Argreduce.{ArgCalls, Argreduce, arg_best, first_index, last_index, argreduce}

module _ {V : Type 0} where
  -- `v` at index `i` is not beaten, and beats all before it.
  pub record IsFirstBest (Beats : V → V → Type 0) (xs : List V) (i : ℕ) : Type 0 where
    pub best : V
    pub here : get_elem? xs i ≡ some best
    pub unbeaten : (j : ℕ) (w : V) → get_elem? xs j ≡ some w → Beats w best → ⊥
    pub first : (j : ℕ) (w : V) → get_elem? xs j ≡ some w → j < i → Beats best w

  pub record IsLastBest (Beats : V → V → Type 0) (xs : List V) (i : ℕ) : Type 0 where
    pub best : V
    pub here : get_elem? xs i ≡ some best
    pub unbeaten : (j : ℕ) (w : V) → get_elem? xs j ≡ some w → Beats w best → ⊥
    pub last : (j : ℕ) (w : V) → get_elem? xs j ≡ some w → i < j → Beats best w

  get_elem_end :
      (xs : List V) (x : V) (i : ℕ) → i ≡ length xs → get_elem? (xs ++ (x ∷ [])) i ≡ some x
  get_elem_end [] x zero h = refl
  get_elem_end [] x (suc i) h = absurd (omega arith)
  get_elem_end (y ∷ xs) x zero h = absurd (omega arith)
  get_elem_end (y ∷ xs) x (suc i) h = get_elem_end xs x i (omega arith)

  get_elem-reverse :
      (xs : List V) (i : ℕ)
      → i < length xs
      → get_elem? (reverse xs) (length xs - 1 - i) ≡ get_elem? xs i
  get_elem-reverse [] i h = absurd (omega arith)
  get_elem-reverse (x ∷ xs) zero h =
      let at : suc (length xs) - 1 - 0 ≡ length (reverse xs) = omega (arith, length-reverse xs) in
      ap (λ ys. get_elem? ys (suc (length xs) - 1 - 0)) (reverse-append (x ∷ []) xs)
      ∙ get_elem_end (reverse xs) x (suc (length xs) - 1 - 0) at
  get_elem-reverse (x ∷ xs) (suc i) h =
      let at : suc (length xs) - 1 - suc i ≡ length xs - 1 - i = omega arith in
      ap (λ ys. get_elem? ys (suc (length xs) - 1 - suc i)) (reverse-append (x ∷ []) xs)
      ∙ ap (get_elem? (reverse xs ++ (x ∷ []))) at
      ∙ get_elem_left (reverse xs) (x ∷ []) (length xs - 1 - i)
          (omega (arith, length-reverse xs, h))
      ∙ get_elem-reverse xs i (omega arith)

  -- The first best of the reverse is the last best.
  first-reverse :
      (Beats : V → V → Type 0) (xs : List V) (k : ℕ)
      → IsFirstBest Beats (reverse xs) k
      → (k < length xs) × IsLastBest Beats xs (length xs - 1 - k)
  first-reverse Beats xs k win =
      let short : k < length xs =
        omega (arith, get_elem_bound (reverse xs) k win.best win.here, length-reverse xs) in
      let back : length xs - 1 - (length xs - 1 - k) ≡ k = omega arith in
      let turned = λ (j : ℕ) (w : V) (e : get_elem? xs j ≡ some w).
        get_elem-reverse xs j (get_elem_bound xs j w e) ∙ e in
      (
        short,
        record {
          best = win.best;
          here =
              sym (get_elem-reverse xs (length xs - 1 - k) (omega arith))
              ∙ ap (get_elem? (reverse xs)) back
              ∙ win.here;
          unbeaten = λ j w e. win.unbeaten (length xs - 1 - j) w (turned j w e);
          last = λ j w e lt.
              win.first (length xs - 1 - j) w (turned j w e)
                (omega (arith, lt, short, get_elem_bound xs j w e));
        },
      )

-- The elements over which each entry of the result is found, and what the calls do to them.
pub record Lanes {T : Type 0} (calls : ArgCalls T) (Ix V : Type 0) : Type 1 where
  pub lane : T → Option ℕ → Ix → List V
  pub entry : T → Ix → ℕ
  pub Greater : V → V → Type 0
  pub Less : V → V → Type 0
  pub argmax_first :
      (x : T) (axis : Option ℕ) (keep : Bool) (ix : Ix)
      → 0 < length (lane x axis ix)
      → IsFirstBest Greater (lane x axis ix) (entry (calls.argmax x axis keep) ix)
  pub argmin_first :
      (x : T) (axis : Option ℕ) (keep : Bool) (ix : Ix)
      → 0 < length (lane x axis ix)
      → IsFirstBest Less (lane x axis ix) (entry (calls.argmin x axis keep) ix)
  pub lane-flip :
      (t : T) (axis : ℕ) (ix : Ix)
      → lane (calls.flip t axis) (some axis) ix ≡ reverse (lane t (some axis) ix)
  pub lane-flip_flat :
      (t : T) (ix : Ix)
      → lane (calls.flip (calls.reshape_flat t (calls.numel t)) 0) none ix
        ≡ reverse (lane t none ix)
  pub size-lane : (t : T) (axis : ℕ) (ix : Ix) → calls.size t axis ≡ length (lane t (some axis) ix)
  pub size-lane_flat :
      (t : T) (ix : Ix)
      → calls.size (calls.reshape_flat t (calls.numel t)) 0 ≡ length (lane t none ix)
  pub entry-from_number :
      (n : ℕ) (t : T) (ix : Ix) → entry t ix ≤ n → entry (calls.from_number n t) ix ≡ n - entry t ix

module _ {T Ix V : Type 0} (calls : ArgCalls T) (lanes : Lanes calls Ix V) where
  -- Greater elements win for `argmax`, and lesser ones for `argmin`.
  abbrev pub BestBy : String → V → V → Type 0
  BestBy op = if str_eq op "argmax" then lanes.Greater else lanes.Less

  -- The first best, or the last.
  abbrev pub IsWinner : Bool → String → List V → ℕ → Type 0
  IsWinner true op xs i = IsFirstBest (BestBy op) xs i
  IsWinner false op xs i = IsLastBest (BestBy op) xs i

  arg_best_first :
      (op : String) (x : T) (axis : Option ℕ) (keep : Bool) (ix : Ix)
      → 0 < length (lanes.lane x axis ix)
      → IsFirstBest
          (BestBy op)
          (lanes.lane x axis ix)
          (lanes.entry (arg_best calls op x axis keep) ix)
  unfolding arg_best
  arg_best_first op x axis keep ix h = by_test (str_eq op "argmax")
    where
      by_test :
          (is_max : Bool)
          → IsFirstBest (if is_max then lanes.Greater else lanes.Less) (lanes.lane x axis ix) (
              lanes.entry
                (if is_max then calls.argmax x axis keep else calls.argmin x axis keep)
                ix)
      by_test true = lanes.argmax_first x axis keep ix h
      by_test false = lanes.argmin_first x axis keep ix h

  flipped_last :
      (op : String) (xs : List V) (x : T) (axis : Option ℕ) (keep : Bool) (n : ℕ) (ix : Ix)
      → 0 < length xs
      → lanes.lane x axis ix ≡ reverse xs
      → n ≡ length xs
      → IsLastBest
          (BestBy op)
          xs
          (lanes.entry (calls.from_number (n - 1) (arg_best calls op x axis keep)) ix)
  flipped_last op xs x axis keep n ix h turned long =
      let r = arg_best calls op x axis keep in
      let win =
        arg_best_first op x axis keep ix (omega (arith, h, length-reverse xs, ap length turned)) in
      let (short, best) =
        first-reverse (BestBy op) xs (lanes.entry r ix)
          (subst (λ ys. IsFirstBest (BestBy op) ys (lanes.entry r ix)) turned win) in
      let at : lanes.entry (calls.from_number (n - 1) r) ix ≡ length xs - 1 - lanes.entry r ix =
        lanes.entry-from_number (n - 1) r ix (omega arith) ∙ (rw long refl) in
      subst (IsLastBest (BestBy op) xs) (sym at) best

  abbrev on_axis : Argreduce → Option ℕ → Argreduce
  on_axis node axis = record node { axis = axis }

  first_index_lem :
      (node : Argreduce) (axis : Option ℕ) (t : T) (ix : Ix)
      → 0 < length (lanes.lane t axis ix)
      → IsFirstBest
          (BestBy node.op)
          (lanes.lane t axis ix)
          (lanes.entry (first_index calls (on_axis node axis) t) ix)
  unfolding first_index
  first_index_lem node none t ix h = arg_best_first node.op t none false ix h
  first_index_lem node (some axis) t ix h = arg_best_first node.op t (some axis) node.keep_axis ix h

  last_index_lem :
      (node : Argreduce) (axis : Option ℕ) (t : T) (ix : Ix)
      → 0 < length (lanes.lane t axis ix)
      → IsLastBest
          (BestBy node.op)
          (lanes.lane t axis ix)
          (lanes.entry (last_index calls (on_axis node axis) t) ix)
  unfolding last_index
  last_index_lem node none t ix h =
      flipped_last node.op (lanes.lane t none ix) _ none false _ ix h (lanes.lane-flip_flat t ix)
        (lanes.size-lane_flat t ix)
  last_index_lem node (some axis) t ix h =
      flipped_last node.op (lanes.lane t (some axis) ix) _ (some axis) node.keep_axis _ ix h
        (lanes.lane-flip t axis ix) (lanes.size-lane t axis ix)

  -- With the tie break "low", `_argreduce` names the first of the best elements, and with any
  -- other the last, along its axis or over all elements, where there is one at least; where
  -- `argmax` and `argmin` name the first, and `flip` reverses the elements.
  pub argreduce-IsWinner :
      (node : Argreduce) (t : T) (ix : Ix)
      → 0 < length (lanes.lane t node.axis ix)
      → IsWinner
          (str_eq node.tie_break "low")
          node.op
          (lanes.lane t node.axis ix)
          (lanes.entry (argreduce calls node t) ix)
  unfolding argreduce
  argreduce-IsWinner node t ix h = by_test (str_eq node.tie_break "low")
    where
      by_test :
          (low : Bool)
          → IsWinner low node.op
              (lanes.lane t node.axis ix)
              (lanes.entry (if low then first_index calls node t else last_index calls node t) ix)
      by_test true = first_index_lem node node.axis t ix h
      by_test false = last_index_lem node node.axis t ix h
