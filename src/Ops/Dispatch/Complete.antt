-- ===== src/Ops/Dispatch/Complete.antt =====
-- The branches of `apply` against `SUPPORTED_OPS`.
use nx_tinygrad.Base.{
  String, ◌≡◌, refl, ap, sym, ◌∙◌, Bool, true, false, ◌&&◌, ◌||◌, Option, none, some, List, [], ◌∷◌,
  Bool-cases, Option-cases, inl, inr, ◌⊎◌, str_eq, eq_iff, arith,
}
use nx_tinygrad.Errors.{Result, ok, fail, unsupported_operation, ◌>>=◌}
use nx_tinygrad.Json.{Value}
use nx_tinygrad.Dtype.{is_complex}
use nx_tinygrad.Validate.SubGraph.{
  listed, unary_ops, binary_ops, comparison_ops, other_ops, is_supported_op,
}
use nx_tinygrad.Ops.Dispatch.{
  Route, unary, binary, comparison, select, reduce, argreduce, window, window_scatter, bit_reduce,
  reshape, squeeze, broadcast, transpose, reverse, concatenate, slice, pad, sort, argsort, gather,
  iota, put_slice, indexed, clip, stack, eye, as_type, bitcast, dot, conv, triangular_solve, route,
  first_branch, Operand, real, any_cx, run_route, apply,
}

-- `while`, `reduce` and `window_reduce` are evaluated by the executor, and the others only on the
-- complex path.
abbrev pub unrouted : List String
unrouted = "while" ∷ "fft" ∷ "ifft" ∷ "real" ∷ "imag" ∷ "reduce" ∷ "window_reduce" ∷ []

-- The operations that each branch is for, by what its handler does.
abbrev pub names : Route → List String
names unary = unary_ops
names binary = binary_ops
names comparison = comparison_ops
names select = "select" ∷ []
names reduce = "sum" ∷ "product" ∷ "reduce_max" ∷ "reduce_min" ∷ "all" ∷ "any" ∷ []
names argreduce = "argmax" ∷ "argmin" ∷ []
names window = "window_sum" ∷ "window_max" ∷ "window_min" ∷ "window_product" ∷ []
names window_scatter = "window_scatter_max" ∷ "window_scatter_min" ∷ []
names bit_reduce = "count_leading_zeros" ∷ "population_count" ∷ []
names reshape = "reshape" ∷ []
names squeeze = "squeeze" ∷ []
names broadcast = "broadcast" ∷ []
names transpose = "transpose" ∷ []
names reverse = "reverse" ∷ []
names concatenate = "concatenate" ∷ []
names slice = "slice" ∷ []
names pad = "pad" ∷ []
names sort = "sort" ∷ []
names argsort = "argsort" ∷ []
names gather = "gather" ∷ []
names iota = "iota" ∷ []
names put_slice = "put_slice" ∷ []
names indexed = "indexed_add" ∷ "indexed_put" ∷ []
names clip = "clip" ∷ []
names stack = "stack" ∷ []
names eye = "eye" ∷ []
names as_type = "as_type" ∷ []
names bitcast = "bitcast" ∷ []
names dot = "dot" ∷ []
names conv = "conv" ∷ []
names triangular_solve = "triangular_solve" ∷ []

-- The branch is one for the operation.
abbrev is_for : String → Option Route → Bool
is_for op none = false
is_for op (some r) = listed (names r) op

abbrev is_none : Option Route → Bool
is_none none = true
is_none (some r) = false

all_hold : (String → Bool) → List String → Bool
all_hold f [] = true
all_hold f (o ∷ ops) = f o && all_hold f ops

listed-all_hold :
    (f : String → Bool) (ops : List String) (op : String)
    → all_hold f ops ≡ true
    → listed ops op ≡ true
    → f op ≡ true
unfolding all_hold listed
listed-all_hold f [] op h k = cc
listed-all_hold f (o ∷ ops) op h k = elim (Bool-cases (str_eq o op)) [
  | inl here ↦
      let same : o ≡ op = (eq_iff o op).0 here in
      let first : f o ≡ true = ground (arith, h) in ap f (sym same) ∙ first
  | inr later ↦ listed-all_hold f ops op (ground (arith, h)) (ground (arith, later, k))
]

-- A supported name has a branch that is for it or is one of the others.
abbrev accounted : String → Bool
accounted op = is_for op (route op) || listed unrouted op

route-accounted : (op : String) → is_supported_op op ≡ true → accounted op ≡ true
unfolding is_supported_op route first_branch all_hold listed
route-accounted op h = elim (Bool-cases (listed unary_ops op)) [
  | inl in_unary ↦ listed-all_hold accounted unary_ops op refl in_unary
  | inr no_unary ↦ elim (Bool-cases (listed binary_ops op)) [
    | inl in_binary ↦ listed-all_hold accounted binary_ops op refl in_binary
    | inr no_binary ↦ elim (Bool-cases (listed comparison_ops op)) [
      | inl in_comparison ↦ listed-all_hold accounted comparison_ops op refl in_comparison
      | inr no_comparison ↦
          listed-all_hold accounted other_ops op refl (cc (h, no_unary, no_binary, no_comparison))
    ]
  ]
]

route-unrouted : (op : String) → listed unrouted op ≡ true → is_none (route op) ≡ true
unfolding route first_branch all_hold listed
route-unrouted op h = listed-all_hold (λ o. is_none (route o)) unrouted op refl h

is_for_own :
    (op : String) → listed unrouted op ≡ false → accounted op ≡ true → is_for op (route op) ≡ true
is_for_own op within h = ground (arith, within, h)

module _ {T N : Type 0} (op_of : N → String) (dtype_of : N → Value)
    (apply_complex : N → List (Operand T) → Result (Operand T))
    (run : Route → N → List (Operand T) → Result T) (cast cast_component : N → T → Result T) where
  -- For a node that is not complex, has no complex operand and has an operation of
  -- `SUPPORTED_OPS`, `apply` runs a handler that `names` has for the operation and casts its
  -- result, except for `while`, `reduce`, `window_reduce`, `fft`, `ifft`, `real` and `imag`,
  -- for which it raises `UnsupportedOperation`.
  pub apply-route :
      (node : N) (ins : List (Operand T))
      → is_complex (dtype_of node) ≡ ok false
      → any_cx ins ≡ false
      → is_supported_op (op_of node) ≡ true
      → ((listed unrouted (op_of node) ≡ true)
          × (apply op_of dtype_of apply_complex run cast cast_component node ins
              ≡ fail unsupported_operation "unsupported Nx operation"))
        ⊎ ((listed unrouted (op_of node) ≡ false)
            × (r : Route) × (listed (names r) (op_of node) ≡ true)
            × (apply op_of dtype_of apply_complex run cast cast_component node ins
                ≡ (run r node ins >>= λ t. cast node t >>= λ u. ok (real u))))
  unfolding apply run_route
  apply-route node ins plain no_cx supported = elim (Bool-cases (listed unrouted (op_of node))) [
    | inl out ↦ elim (Option-cases (route (op_of node))) [
      | inl missing ↦ inl (out, rw (plain, no_cx, missing) refl)
      | inr (r, there) ↦ cc (there, route-unrouted (op_of node) out)
    ]
    | inr within ↦ elim (Option-cases (route (op_of node))) [
      | inl missing ↦ cc (missing, within, route-accounted (op_of node) supported)
      | inr (r, there) ↦
          let own : listed (names r) (op_of node) ≡ true =
            ap (is_for (op_of node)) (sym there)
            ∙ is_for_own (op_of node) within (route-accounted (op_of node) supported) in
          inr (within, r, own, rw (plain, no_cx, there) refl)
    ]
  ]
