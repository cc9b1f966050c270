-- ===== src/Tests/Routes.antt =====
-- The branch of `apply` that a node takes.
use nx_tinygrad.Base.{ℕ, String, ◌≡◌, refl, true, false, List, [], ◌∷◌, ◌⊎◌}
use nx_tinygrad.Errors.{Result, ok, fail, unsupported_operation, ◌>>=◌}
use nx_tinygrad.Json.{Value, string}
use nx_tinygrad.Dtype.{is_complex}
use nx_tinygrad.Validate.SubGraph.{listed, is_supported_op}
use nx_tinygrad.Ops.Dispatch.{Route, Operand, real, any_cx, apply}
use nx_tinygrad.Ops.Dispatch.Complete.{unrouted, names, apply-route}

abbrev op_of : String → String
op_of node = node

abbrev dtype_of : String → Value
dtype_of node = string "f32"

abbrev apply_complex : String → List (Operand ℕ) → Result (Operand ℕ)
apply_complex node ins = fail unsupported_operation "complex op not supported"

abbrev run : Route → String → List (Operand ℕ) → Result ℕ
run r node (real t ∷ ins) = ok t
run r node ins = fail unsupported_operation "no operand"

abbrev cast : String → ℕ → Result ℕ
cast node t = ok t

f32_is_complex : is_complex (string "f32") ≡ ok false
unfolding is_complex
f32_is_complex = refl

gather_supported : is_supported_op "gather" ≡ true
unfolding is_supported_op
gather_supported = refl

apply-route_example :
    ((listed unrouted "gather" ≡ true)
      × (apply op_of dtype_of apply_complex run cast cast "gather" (real 7 ∷ [])
          ≡ fail unsupported_operation "unsupported Nx operation"))
    ⊎ ((listed unrouted "gather" ≡ false)
        × (r : Route) × (listed (names r) "gather" ≡ true)
        × (apply op_of dtype_of apply_complex run cast cast "gather" (real 7 ∷ [])
            ≡ (run r "gather" (real 7 ∷ []) >>= λ t. cast "gather" t >>= λ u. ok (real u))))
unfolding any_cx
apply-route_example =
    apply-route op_of dtype_of apply_complex run cast cast "gather" (real 7 ∷ []) f32_is_complex
      refl gather_supported
