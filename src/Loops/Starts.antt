-- ===== src/Loops/Starts.antt =====
-- The starts of a slice: those that a rewritten body reads from its bound variables are those that the
-- original body reads from tensors (`_slice` of priv/worker/operations.py).
use nx_tinygrad.Base.{
  ℕ, suc, ◌-◌, min, ◌≡◌, refl, sym, ap, ◌∙◌, subst, none, some, List, [], ◌∷◌, ◌++◌, map,
  append_assoc, append-nil, length, get_elem?, ◌==◌, ==_iff, if◌then◌else◌, arith, Bool-cases, inl,
  inr,
}
use nx_tinygrad.Errors.{Result, ok, fail, python_error, ◌>>=◌, >>=-eq-ok, ok_inj}
use nx_tinygrad.Json.{ℤ, pos, negsuc}
use nx_tinygrad.Graph.{Start, static, input, symbolic}
use nx_tinygrad.Loops.{Use, at, rewrite_starts}

-- `max(0, min(raw, hi))`
abbrev pub clamp : ℤ → ℕ → ℤ
clamp (pos n) hi = pos (min n hi)
clamp (negsuc n) hi = pos 0

-- The values to which the variables are bound, where `raw` is the value of a start's tensor.
abbrev pub bind_uses : (ℕ → ℤ) → List Use → List ℤ
bind_uses raw = map (λ u. clamp (raw u.id) u.hi)

read_symbol : List ℤ → ℕ → Result ℤ
read_symbol syms k = elim (get_elem? syms k) [
  | none ↦ fail (python_error "IndexError") "list index out of range"
  | some z ↦ ok z
]

get_elem?-append :
    {X : Type 0} (xs ys : List X) (x : X) → get_elem? (xs ++ (x ∷ ys)) (length xs) ≡ some x
get_elem?-append [] ys x = refl
get_elem?-append (y ∷ xs) ys x = get_elem?-append xs ys x

length-map-uses : (f : Use → ℤ) (us : List Use) → length (map f us) ≡ length us
length-map-uses f [] = refl
length-map-uses f (u ∷ us) = ap suc (length-map-uses f us)

map-append-uses : (f : Use → ℤ) (us vs : List Use) → map f (us ++ vs) ≡ map f us ++ map f vs
map-append-uses f [] vs = refl
map-append-uses f (u ∷ us) vs = ap (λ t. f u ∷ t) (map-append-uses f us vs)

clamp_zero : (z : ℤ) → clamp z 0 ≡ pos 0
clamp_zero (pos n) = ap pos (omega arith)
clamp_zero (negsuc n) = refl

module _ (raw : ℕ → ℤ) (dims spans dyn : List ℕ) where
  dynamic_start : ℕ → ℕ → Result ℤ
  dynamic_start k axis = do
    id ← at dyn k
    dim ← at dims axis
    span ← at spans axis
    ok (clamp (raw id) (dim - span))

  start_value : List ℤ → Start → ℕ → Result ℤ
  unfolding dynamic_start read_symbol
  start_value syms (static z) axis = ok z
  start_value syms (symbolic k) axis = read_symbol syms k
  start_value syms (input k) axis = dynamic_start k axis

  -- The loop of `_slice` over the starts of a node.
  unfoldable pub start_values : List ℤ → List Start → ℕ → Result (List ℤ)
  unfolding start_value
  start_values syms [] axis = ok []
  start_values syms (s ∷ starts) axis = do
    z ← start_value syms s axis
    rest ← start_values syms starts (suc axis)
    ok (z ∷ rest)

  read_symbol_fresh :
      (us vs : List Use) (u : Use)
      → read_symbol (bind_uses raw (us ++ (u ∷ vs))) (length us) ≡ ok (clamp (raw u.id) u.hi)
  unfolding read_symbol
  read_symbol_fresh us vs u =
      let bind = λ (u : Use). clamp (raw u.id) u.hi in
      let there : get_elem? (bind_uses raw (us ++ (u ∷ vs))) (length us) ≡ some (bind u) =
        ap (λ (zs : List ℤ). get_elem? zs (length us)) (map-append-uses bind us (u ∷ vs))
        ∙ ap (λ (n : ℕ). get_elem? (map bind us ++ (bind u ∷ map bind vs)) n)
            (sym (length-map-uses bind us))
        ∙ get_elem?-append (map bind us) (map bind vs) (bind u) in
      rw (read_symbol, there) refl

  module _ (k : ℕ) (starts : List Start) (axis : ℕ) (uses : List Use) where
    abbrev fresh : ℕ → ℕ → List Use
    fresh hi start_id = if hi == 0 then uses else uses ++ (record { id = start_id; hi = hi } ∷ [])

    abbrev new_start : ℕ → Start
    new_start hi = if hi == 0 then static (pos 0) else symbolic (length uses)

    -- The parts of the rewriting of a dynamic start.
    input_parts :
        (starts' : List Start) (uses' : List Use)
        → rewrite_starts dims spans dyn (input k ∷ starts) axis uses ≡ ok (starts', uses')
        → (dim span start_id : ℕ) × (rest : List Start) × (at dims axis ≡ ok dim)
          × (at spans axis ≡ ok span)
          × ((if dim - span == 0 then ok 0 else at dyn k) ≡ ok start_id)
          × (rewrite_starts dims spans dyn starts (suc axis) (fresh (dim - span) start_id)
              ≡ ok (rest, uses'))
          × (new_start (dim - span) ∷ rest ≡ starts')
    unfolding rewrite_starts
    input_parts starts' uses' h =
        let (dim, e1, h1) = >>=-eq-ok (at dims axis) _ h in
        let (span, e2, h2) = >>=-eq-ok (at spans axis) _ h1 in
        let (start_id, e3, h3) = >>=-eq-ok (if dim - span == 0 then ok 0 else at dyn k) _ h2 in
        let ((rest, after), e4, done) =
          >>=-eq-ok (rewrite_starts dims spans dyn starts (suc axis) (fresh (dim - span) start_id))
            _ h3 in
        (
          dim,
          span,
          start_id,
          rest,
          e1,
          e2,
          e3,
          e4
              ∙ ap (λ (us : List Use). ok (rest, us))
                  (ap (λ (p : List Start × List Use). p.1) (ok_inj done)),
          ap (λ (p : List Start × List Use). p.0) (ok_inj done),
        )

  static_parts :
      (z : ℤ) (starts : List Start) (axis : ℕ) (uses uses' : List Use) (starts' : List Start)
      → rewrite_starts dims spans dyn (static z ∷ starts) axis uses ≡ ok (starts', uses')
      → (rest : List Start) × (rewrite_starts dims spans dyn starts (suc axis) uses
          ≡ ok (rest, uses'))
        × (static z ∷ rest ≡ starts')
  unfolding rewrite_starts
  static_parts z starts axis uses uses' starts' h =
      let ((rest, after), e, done) =
        >>=-eq-ok (rewrite_starts dims spans dyn starts (suc axis) uses) _ h in
      (
        rest,
        e
            ∙ ap (λ (us : List Use). ok (rest, us))
                (ap (λ (p : List Start × List Use). p.1) (ok_inj done)),
        ap (λ (p : List Start × List Use). p.0) (ok_inj done),
      )

  symbolic_parts :
      (k : ℕ) (starts : List Start) (axis : ℕ) (uses uses' : List Use) (starts' : List Start)
      → rewrite_starts dims spans dyn (symbolic k ∷ starts) axis uses ≡ ok (starts', uses')
      → (rest : List Start) × (rewrite_starts dims spans dyn starts (suc axis) uses
          ≡ ok (rest, uses'))
  unfolding rewrite_starts
  symbolic_parts k starts axis uses uses' starts' h =
      let (dim, e1, h1) = >>=-eq-ok (at dims axis) _ h in
      let (span, e2, h2) = >>=-eq-ok (at spans axis) _ h1 in
      let (pinned, e3, h3) =
        >>=-eq-ok
          (if dim - span == 0 then ok (static (pos 0)) else fail (python_error "KeyError") "input")
          _ h2 in
      let ((rest, after), e4, done) =
        >>=-eq-ok (rewrite_starts dims spans dyn starts (suc axis) uses) _ h3 in
      (
        rest,
        e4
            ∙ ap (λ (us : List Use). ok (rest, us))
                (ap (λ (p : List Start × List Use). p.1) (ok_inj done)),
      )

  fresh_extend :
      (uses : List Use) (hi start_id : ℕ) (more : List Use)
      → (rest : List Use) × (fresh 0 [] 0 uses hi start_id ++ more ≡ uses ++ rest)
  fresh_extend uses hi start_id more = elim (Bool-cases (hi == 0)) [
    | inl pinned ↦ (more, rw pinned refl)
    | inr free ↦ (
      record { id = start_id; hi = hi } ∷ more,
      rw free (append_assoc uses (record { id = start_id; hi = hi } ∷ []) more),
    )
  ]

  rewrite_starts_extend :
      (starts : List Start) (axis : ℕ) (uses uses' : List Use) (starts' : List Start)
      → rewrite_starts dims spans dyn starts axis uses ≡ ok (starts', uses')
      → (more : List Use) × (uses' ≡ uses ++ more)
  unfolding rewrite_starts
  rewrite_starts_extend [] axis uses uses' starts' h =
      ([], sym (ap (λ (p : List Start × List Use). p.1) (ok_inj h)) ∙ sym (append-nil uses))
  rewrite_starts_extend (static z ∷ starts) axis uses uses' starts' h =
      let (rest, e, done) = static_parts z starts axis uses uses' starts' h in
      rewrite_starts_extend starts (suc axis) uses uses' rest e
  rewrite_starts_extend (symbolic k ∷ starts) axis uses uses' starts' h =
      let (rest, e) = symbolic_parts k starts axis uses uses' starts' h in
      rewrite_starts_extend starts (suc axis) uses uses' rest e
  rewrite_starts_extend (input k ∷ starts) axis uses uses' starts' h =
      let (dim, span, start_id, rest, e1, e2, e3, e4, done) =
        input_parts k starts axis uses starts' uses' h in
      let (more, eq) = rewrite_starts_extend starts (suc axis) _ uses' rest e4 in
      let (more', eq') = fresh_extend uses (dim - span) start_id more in (more', eq ∙ eq')

  dynamic_start_parts :
      (k axis dim span : ℕ) {z : ℤ}
      → at dims axis ≡ ok dim
      → at spans axis ≡ ok span
      → dynamic_start k axis ≡ ok z
      → (id : ℕ) × (at dyn k ≡ ok id) × (clamp (raw id) (dim - span) ≡ z)
  unfolding dynamic_start
  dynamic_start_parts k axis dim span e1 e2 v =
      let (id, d, v1) = >>=-eq-ok (at dyn k) _ v in (id, d, ok_inj (rw (e1, e2) at v1))

  -- The rewritten start has the value of the original one.
  new_start_value :
      (k : ℕ) (starts : List Start) (axis : ℕ) (uses more : List Use) (dim span start_id : ℕ)
      {z : ℤ}
      → at dims axis ≡ ok dim
      → at spans axis ≡ ok span
      → (if dim - span == 0 then ok 0 else at dyn k) ≡ ok start_id
      → dynamic_start k axis ≡ ok z
      → start_value
          (bind_uses raw (fresh k starts axis uses (dim - span) start_id ++ more))
          (new_start k starts axis uses (dim - span))
          axis
        ≡ ok z
  unfolding start_value
  new_start_value k starts axis uses more dim span start_id e1 e2 e3 v =
      let (id, d, e) = dynamic_start_parts k axis dim span e1 e2 v in
      elim (Bool-cases (dim - span == 0)) [
        | inl pinned ↦
            let none_left = (==_iff (dim - span) 0).0 pinned in
            rw pinned (ap ok (sym (clamp_zero (raw id)) ∙ ap (clamp (raw id)) (sym none_left) ∙ e))
        | inr free ↦
            let same : id ≡ start_id = ok_inj (sym d ∙ rw free at e3) in
            let u : Use = record { id = start_id; hi = dim - span } in
            rw (free, append_assoc uses (u ∷ []) more)
              (read_symbol_fresh uses more u
                ∙ ap (λ (i : ℕ). ok (clamp (raw i) (dim - span))) (sym same)
                ∙ ap ok e)
      ]

  -- The starts that `_symbolic_while_plan` gives a node have, with each variable bound to the
  -- clamped value of its start, the values that `_slice` reads for the original starts, where
  -- it reads them without an exception; whatever variables are added later.
  pub rewrite_starts-start_values :
      (starts : List Start) (axis : ℕ) (uses uses' later : List Use) (starts' : List Start)
      (values : List ℤ)
      → rewrite_starts dims spans dyn starts axis uses ≡ ok (starts', uses')
      → start_values [] starts axis ≡ ok values
      → start_values (bind_uses raw (uses' ++ later)) starts' axis ≡ ok values
  unfolding rewrite_starts start_values start_value dynamic_start
  rewrite_starts-start_values [] axis uses uses' later starts' values h v =
      rw (← ap (λ (p : List Start × List Use). p.0) (ok_inj h)) v
  rewrite_starts-start_values (static z ∷ starts) axis uses uses' later starts' values h v =
      let (rest, e, done) = static_parts z starts axis uses uses' starts' h in
      let (zs, e2, v2) = >>=-eq-ok (start_values [] starts (suc axis)) _ v in
      rw (← done, rewrite_starts-start_values starts (suc axis) uses uses' later rest zs e e2) v2
  rewrite_starts-start_values (symbolic k ∷ starts) axis uses uses' later starts' values h v = cc
  rewrite_starts-start_values (input k ∷ starts) axis uses uses' later starts' values h v =
      let (dim, span, start_id, rest, e1, e2, e3, e4, done) =
        input_parts k starts axis uses starts' uses' h in
      let (more, eq) = rewrite_starts_extend starts (suc axis) _ uses' rest e4 in
      let now = fresh k starts axis uses (dim - span) start_id in
      let (z, v1, v2) = >>=-eq-ok (dynamic_start k axis) _ v in
      let (zs, v3, v4) = >>=-eq-ok (start_values [] starts (suc axis)) _ v2 in
      let all : uses' ++ later ≡ now ++ (more ++ later) =
        ap (λ (us : List Use). us ++ later) eq ∙ append_assoc now more later in
      let first =
        new_start_value k starts axis uses (more ++ later) dim span start_id e1 e2 e3 v1 in
      let ih = rewrite_starts-start_values starts (suc axis) _ uses' later rest zs e4 v3 in
      subst (λ (ss : List Start). start_values (bind_uses raw (uses' ++ later)) ss axis ≡ ok values)
        done (rw (start_values, ih, all, first) v4)
