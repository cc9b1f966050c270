-- ===== src/Plan/Ids.antt =====
-- Which ids a segment takes in and hands on.
use nx_tinygrad.Base.{
  ℕ, ◌≡◌, refl, Bool, true, not, ◌||◌, ◌&&◌, List, [], ◌∷◌, ◌++◌, arith, ◌==◌, Bool-cases, inl, inr,
}
use nx_tinygrad.Dict.PopAll.{contains}
use nx_tinygrad.Graph.{Node, node_inputs, node_defined_ids}
use nx_tinygrad.Plan.{
  all_inputs, all_defined, add_inputs, segment_inputs, insert_sorted, sort_set, keep_in,
  segment_outputs,
}

pub contains-append :
    (i : ℕ) (xs ys : List ℕ) → contains i (xs ++ ys) ≡ (contains i xs || contains i ys)
contains-append i [] ys = refl
contains-append i (x ∷ xs) ys = ground (arith, contains-append i xs ys)

contains-insert_sorted :
    (i j : ℕ) (xs : List ℕ) → contains i (insert_sorted j xs) ≡ (i == j || contains i xs)
unfolding insert_sorted
contains-insert_sorted i j [] = refl
contains-insert_sorted i j (x ∷ xs) = ground (arith, contains-insert_sorted i j xs)

contains-sort_set : (i : ℕ) (xs : List ℕ) → contains i (sort_set xs) ≡ contains i xs
unfolding sort_set
contains-sort_set i [] = refl
contains-sort_set i (x ∷ xs) =
    ground (arith, contains-insert_sorted i x (sort_set xs), contains-sort_set i xs)

contains-keep_in :
    (i : ℕ) (set xs : List ℕ) → contains i (keep_in set xs) ≡ (contains i xs && contains i set)
unfolding keep_in
contains-keep_in i set [] = refl
contains-keep_in i set (x ∷ xs) = ground (arith, contains-keep_in i set xs)

-- A segment hands on exactly the ids that it defines and that are needed after it.
pub contains-segment_outputs :
    (i : ℕ) (ns : List Node) (after : List ℕ)
    → contains i (segment_outputs ns after) ≡ (contains i (all_defined ns) && contains i after)
unfolding segment_outputs
contains-segment_outputs i ns after = ground (
  arith,
  contains-keep_in i after (sort_set (all_defined ns)),
  contains-sort_set i (all_defined ns),
)

abbrev skip : ℕ → List ℕ → List ℕ → List ℕ → Bool
skip r defined constants inputs = contains r defined || (contains r constants || contains r inputs)

pub contains-add_inputs :
    (i : ℕ) (refs defined constants inputs : List ℕ)
    → contains i (add_inputs refs defined constants inputs) ≡ (
        contains i inputs
        || (contains i refs && (not (contains i defined) && not (contains i constants))))
unfolding add_inputs
contains-add_inputs i [] defined constants inputs = ground arith
contains-add_inputs i (r ∷ refs) defined constants inputs =
    elim (Bool-cases (skip r defined constants inputs)) [
      | inl out ↦ rw out (ground (arith, contains-add_inputs i refs defined constants inputs))
      | inr new ↦ rw new (
          ground (
            arith,
            contains-add_inputs i refs defined constants (inputs ++ (r ∷ [])),
            contains-append i inputs (r ∷ []),
          ))
    ]

-- A segment takes in only what its nodes read.
pub segment_inputs_sound :
    (i : ℕ) (ns : List Node) (defined constants inputs : List ℕ)
    → contains i (segment_inputs ns defined constants inputs) ≡ true
    → (contains i (all_inputs ns) || contains i inputs) ≡ true
unfolding segment_inputs all_inputs
segment_inputs_sound i [] defined constants inputs h = h
segment_inputs_sound i (n ∷ ns) defined constants inputs h =
    let inputs' = add_inputs (node_inputs n) defined constants inputs in
    ground (
      arith,
      segment_inputs_sound i ns (defined ++ node_defined_ids n) constants inputs' h,
      contains-add_inputs i (node_inputs n) defined constants inputs,
      contains-append i (node_inputs n) (all_inputs ns),
    )
