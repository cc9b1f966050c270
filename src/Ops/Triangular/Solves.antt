-- ===== src/Ops/Triangular/Solves.antt =====
-- What the substitution solves, in exact arithmetic.
use nx_tinygrad.Base.{
  ℕ, ◌≡◌, ◌≢◌, refl, sym, ap, ap₂, ◌∙◌, subst, none, some, List, [], ◌∷◌, ◌++◌, All, arith,
  append_assoc, append-nil,
}
use nx_tinygrad.Dict.{Dict, lookup, insert, lookup-insert_self, lookup-insert_ne}
use nx_tinygrad.Ops.Triangular.{Rows, subtract_solved, solve_row, solve_rows}

-- Addition of rows, and what `-` undoes of it.
pub record Exact {M E R : Type 0} (ops : Rows M E R) : Type 0 where
  pub plus : R → R → R
  pub nought : R
  pub plus_assoc : (x y z : R) → plus (plus x y) z ≡ plus x (plus y z)
  pub plus_comm : (x y : R) → plus x y ≡ plus y x
  pub plus_nought : (x : R) → plus x nought ≡ x
  pub minus-plus : (x y : R) → plus (ops.minus x y) y ≡ x

-- The keys of a dict, in their order.
unfoldable pub solved_ids {ℓ} : {V : Type ℓ} → Dict V → List ℕ
solved_ids [] = []
solved_ids ((k, v) ∷ d) = k ∷ solved_ids d

module _ {M E R : Type 0} (ops : Rows M E R) (laws : Exact ops) where
  unfoldable pub value : Dict R → ℕ → R
  value solved j = elim (lookup j solved) [ none ↦ laws.nought | some r ↦ r ]

  -- The sum of `c[j] * x[j]` over the columns `js`.
  unfoldable pub total : (ℕ → E) → (ℕ → R) → List ℕ → R
  total c x [] = laws.nought
  total c x (j ∷ js) = laws.plus (ops.times (c j) (x j)) (total c x js)

  pub total-append :
      (c : ℕ → E) (x : ℕ → R) (js ks : List ℕ)
      → total c x (js ++ ks) ≡ laws.plus (total c x js) (total c x ks)
  unfolding total
  total-append c x [] ks = sym (laws.plus_comm laws.nought _ ∙ laws.plus_nought _)
  total-append c x (j ∷ js) ks = rw (total-append c x js ks) (sym (laws.plus_assoc _ _ _))

  pub total_snoc :
      (c : ℕ → E) (x : ℕ → R) (js : List ℕ) (k : ℕ)
      → total c x (js ++ (k ∷ [])) ≡ laws.plus (total c x js) (ops.times (c k) (x k))
  unfolding total
  total_snoc c x js k =
      total-append c x js (k ∷ []) ∙ ap (laws.plus (total c x js)) (laws.plus_nought _)

  pub total_cong :
      (c c' : ℕ → E) (x x' : ℕ → R) (js : List ℕ)
      → All (λ j. (c j ≡ c' j) × (x j ≡ x' j)) js
      → total c x js ≡ total c' x' js
  unfolding total
  total_cong c c' x x' [] h = refl
  total_cong c c' x x' (j ∷ js) ((ec, ex), h) =
      ap₂ laws.plus (ap₂ ops.times ec ex) (total_cong c c' x x' js h)

  subtract_solved-total :
      (a : M) (i : ℕ) (x : ℕ → R) (solved : Dict R) (acc : R)
      → All (λ (e : ℕ × R). x e.0 ≡ e.1) solved
      → laws.plus (subtract_solved ops a i solved acc) (total (ops.entry a i) x (solved_ids solved))
        ≡ acc
  unfolding subtract_solved total solved_ids
  subtract_solved-total a i x [] acc h = laws.plus_nought acc
  subtract_solved-total a i x ((j, xj) ∷ solved) acc (e, h) =
      let t = ops.times (ops.entry a i j) (x j) in
      let rest = subtract_solved ops a i solved (ops.minus acc (ops.times (ops.entry a i j) xj)) in
      ap (laws.plus rest) (laws.plus_comm t (total (ops.entry a i) x (solved_ids solved)))
      ∙ sym (laws.plus_assoc rest (total (ops.entry a i) x (solved_ids solved)) t)
      ∙ ap (λ s. laws.plus s t)
          (subtract_solved-total a i x solved (ops.minus acc (ops.times (ops.entry a i j) xj)) h)
      ∙ (rw e (laws.minus-plus acc (ops.times (ops.entry a i j) xj)))

  -- The dict of a key that is new.
  solved_ids-insert :
      (k : ℕ) (r : R) (d : Dict R)
      → lookup k d ≡ none
      → solved_ids (insert k r d) ≡ solved_ids d ++ (k ∷ [])
  unfolding solved_ids insert lookup
  solved_ids-insert k r [] h = refl
  solved_ids-insert k r ((j, w) ∷ d) h = ground (arith, solved_ids-insert k r d)

  All-insert :
      (P : ℕ × R → Type 0) (k : ℕ) (r : R) (d : Dict R)
      → lookup k d ≡ none
      → All P d
      → P (k, r)
      → All P (insert k r d)
  unfolding insert lookup
  All-insert P k r [] h all p = (p, tt)
  All-insert P k r ((j, w) ∷ d) h (q, all) p = ground (arith, All-insert P k r d, q, all, p)

  -- Every entry is the one of its key.
  abbrev pub Settled : Dict R → Dict R → Type 0
  Settled full d = All (λ (e : ℕ × R). lookup e.0 full ≡ some e.1) d

  -- Keys that are new to the dict, each once.
  abbrev pub IsFresh : Dict R → List ℕ → Type 0
  IsFresh d [] = Unit
  IsFresh d (k ∷ ks) = (lookup k d ≡ none) × All (λ j. k ≢ j) ks × IsFresh d ks

  IsFresh-insert :
      (k : ℕ) (r : R) (d : Dict R) (ks : List ℕ)
      → All (λ j. k ≢ j) ks
      → IsFresh d ks
      → IsFresh (insert k r d) ks
  IsFresh-insert k r d [] h f = tt
  IsFresh-insert k r d (j ∷ ks) (ne, h) (new, once, f) =
      (lookup-insert_ne j k r d ne ∙ new, once, IsFresh-insert k r d ks h f)

  All-map {ℓ} :
      {A : Type 0} {P Q : A → Type ℓ} (f : (a : A) → P a → Q a) (xs : List A) → All P xs → All Q xs
  All-map f [] h = tt
  All-map f (x ∷ xs) (p, h) = (f x p, All-map f xs h)

  lookup-insert_old :
      (j k : ℕ) (v r : R) (d : Dict R)
      → lookup k d ≡ none
      → lookup j d ≡ some v
      → lookup j (insert k r d) ≡ some v
  lookup-insert_old j k v r d new found =
      lookup-insert_ne j k r d (λ same. clash (sym new ∙ ap (λ i. lookup i d) same ∙ found)) ∙ found
    where
      clash : {v : R} → none ≢ some v
      clash h = cc

  -- Once a row is solved, it stays.
  pub solve_rows_keeps :
      (a rhs : M) (order : List ℕ) (d : Dict R) (j : ℕ) (v : R)
      → IsFresh d order
      → lookup j d ≡ some v
      → lookup j (solve_rows ops a rhs order d) ≡ some v
  unfolding solve_rows
  solve_rows_keeps a rhs [] d j v f found = found
  solve_rows_keeps a rhs (k ∷ order) d j v (new, once, f) found =
      let r = solve_row ops a rhs k d in
      solve_rows_keeps a rhs order (insert k r d) j v (IsFresh-insert k r d order once f)
        (lookup-insert_old j k v r d new found)

  pub value_found :
      (solved : Dict R) (j : ℕ) (r : R) → lookup j solved ≡ some r → value solved j ≡ r
  unfolding value
  value_found solved j r found = rw (value, found) refl

  Settled-insert :
      (k : ℕ) (r : R) (d : Dict R)
      → lookup k d ≡ none
      → Settled d d
      → Settled (insert k r d) (insert k r d)
  Settled-insert k r d new h =
      All-insert (λ (e : ℕ × R). lookup e.0 (insert k r d) ≡ some e.1) k r d new
        (All-map (λ (e : ℕ × R) old. lookup-insert_old e.0 k e.1 r d new old) d h)
        (lookup-insert_self k r d)

  -- The row that is solved first, over the rows solved before it.
  solve_rows-first :
      (a rhs : M) (i : ℕ) (post : List ℕ) (d : Dict R)
      → ((r : R) → ops.times (ops.entry a i i) (ops.over r (ops.entry a i i)) ≡ r)
      → IsFresh d (i ∷ post)
      → Settled d d
      → (v : R) × (lookup i (solve_rows ops a rhs (i ∷ post) d) ≡ some v)
        × (laws.plus
              (total (ops.entry a i) (value (solve_rows ops a rhs (i ∷ post) d)) (solved_ids d))
              (ops.times (ops.entry a i i) v)
            ≡ ops.row rhs i)
  unfolding solve_rows solve_row
  solve_rows-first a rhs i post d divides (new, once, f) h =
      let r = solve_row ops a rhs i d in
      let full = solve_rows ops a rhs post (insert i r d) in
      let f' = IsFresh-insert i r d post once f in
      let found = solve_rows_keeps a rhs post (insert i r d) i r f' (lookup-insert_self i r d) in
      let olds : All (λ (e : ℕ × R). value full e.0 ≡ e.1) d =
        All-map
          (λ (e : ℕ × R) old. value_found full e.0 e.1 (
            solve_rows_keeps a rhs post (insert i r d) e.0 e.1 f'
              (lookup-insert_old e.0 i e.1 r d new old)))
          d h in
      (
        r,
        found,
        ap (laws.plus (total (ops.entry a i) (value full) (solved_ids d))) (divides _)
            ∙ laws.plus_comm _ _
            ∙ subtract_solved-total a i (value full) d (ops.row rhs i) olds,
      )

  pub solve_rows-at :
      (a rhs : M) (pre : List ℕ) (i : ℕ) (post : List ℕ) (d : Dict R)
      → ((r : R) → ops.times (ops.entry a i i) (ops.over r (ops.entry a i i)) ≡ r)
      → IsFresh d (pre ++ (i ∷ post))
      → Settled d d
      → (v : R) × (lookup i (solve_rows ops a rhs (pre ++ (i ∷ post)) d) ≡ some v)
        × (laws.plus
              (total
                (ops.entry a i)
                (value (solve_rows ops a rhs (pre ++ (i ∷ post)) d))
                (solved_ids d ++ pre))
              (ops.times (ops.entry a i i) v)
            ≡ ops.row rhs i)
  unfolding solve_rows
  solve_rows-at a rhs [] i post d divides f h =
      subst
        (λ js.
          (v : R) × (lookup i (solve_rows ops a rhs (i ∷ post) d) ≡ some v)
          × (laws.plus (total (ops.entry a i) (value (solve_rows ops a rhs (i ∷ post) d)) js)
                (ops.times (ops.entry a i i) v)
              ≡ ops.row rhs i))
        (sym (append-nil (solved_ids d))) (solve_rows-first a rhs i post d divides f h)
  solve_rows-at a rhs (k ∷ pre) i post d divides (new, once, f) h =
      let r = solve_row ops a rhs k d in
      let d' = insert k r d in
      let (v, found, solves) =
        solve_rows-at a rhs pre i post d' divides (IsFresh-insert k r d (pre ++ (i ∷ post)) once f)
          (Settled-insert k r d new h) in
      let js : solved_ids d' ++ pre ≡ solved_ids d ++ (k ∷ pre) =
        ap (λ ks. ks ++ pre) (solved_ids-insert k r d new)
        ∙ append_assoc (solved_ids d) (k ∷ []) pre in
      (
        v,
        found,
        subst
            (λ ks.
              laws.plus
                (total (ops.entry a i) (value (solve_rows ops a rhs (pre ++ (i ∷ post)) d')) ks)
                (ops.times (ops.entry a i i) v)
              ≡ ops.row rhs i)
            js solves,
      )
