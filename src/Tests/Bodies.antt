-- ===== src/Tests/Bodies.antt =====
-- The plan of a `while` body, at concrete starts and nodes.
use nx_tinygrad.Base.{ℕ, zero, suc, ◌≡◌, refl, List, [], ◌∷◌, ◌++◌}
use nx_tinygrad.Errors.{ok}
use nx_tinygrad.Json.{ℤ, pos, negsuc}
use nx_tinygrad.Dict.{Dict}
use nx_tinygrad.Graph.{Start, static, input, symbolic}
use nx_tinygrad.Segments.{eval_nodes}
use nx_tinygrad.Segments.Agree.{EqOn}
use nx_tinygrad.Loops.{Use, at, rewrite_starts, ancestors}
use nx_tinygrad.Loops.Starts.{bind_uses, start_values, rewrite_starts-start_values}
use nx_tinygrad.Loops.Ancestors.{eval_nodes-ancestors}
use nx_tinygrad.Tests.Plans.{
  node, add_up, some_nodes, some_env, some_result, some_result-eval_nodes,
}

-- Id 7 holds 9, and every other id -1.
abbrev raw : ℕ → ℤ
raw (suc (suc (suc (suc (suc (suc (suc zero))))))) = pos 9
raw n = negsuc 0

abbrev dims : List ℕ
dims = 4 ∷ 5 ∷ 2 ∷ 6 ∷ []

abbrev spans : List ℕ
spans = 1 ∷ 2 ∷ 2 ∷ 2 ∷ []

abbrev starts : List Start
starts = input 0 ∷ static (pos 3) ∷ input 0 ∷ input 1 ∷ []

abbrev new_starts : List Start
new_starts = symbolic 0 ∷ static (pos 3) ∷ static (pos 0) ∷ symbolic 1 ∷ []

abbrev uses : List Use
uses = record { id = 7; hi = 3 } ∷ record { id = 8; hi = 4 } ∷ []

rewritten : rewrite_starts dims spans (7 ∷ 8 ∷ []) starts 0 [] ≡ ok (new_starts, uses)
unfolding rewrite_starts
rewritten = refl

valued :
    start_values raw dims spans (7 ∷ 8 ∷ []) [] starts 0 ≡ ok (pos 3 ∷ pos 3 ∷ pos 0 ∷ pos 0 ∷ [])
unfolding start_values at
valued = refl

rewrite_starts-start_values_example :
    start_values raw dims spans (7 ∷ 8 ∷ []) (bind_uses raw (uses ++ [])) new_starts 0
    ≡ ok (pos 3 ∷ pos 3 ∷ pos 0 ∷ pos 0 ∷ [])
rewrite_starts-start_values_example =
    rewrite_starts-start_values raw dims spans (7 ∷ 8 ∷ []) starts 0 [] uses [] new_starts
      (pos 3 ∷ pos 3 ∷ pos 0 ∷ pos 0 ∷ []) rewritten valued

ancestors_kept :
    ancestors some_nodes (3 ∷ [])
    ≡ (node "add" 2 (0 ∷ 1 ∷ []) ∷ node "slice" 3 (2 ∷ 1 ∷ []) ∷ [], 3 ∷ 2 ∷ 1 ∷ 0 ∷ 1 ∷ [])
unfolding ancestors
ancestors_kept = refl

eval_nodes-ancestors_example :
    (env' : Dict ℕ) × (eval_nodes add_up (ancestors some_nodes (3 ∷ [])).0 some_env ≡ ok env')
    × EqOn (3 ∷ []) some_result env'
eval_nodes-ancestors_example =
    eval_nodes-ancestors add_up some_nodes (3 ∷ []) some_env some_env some_result refl (λ i c. refl)
      some_result-eval_nodes
