-- ===== src/Tests/Loops.antt =====
-- A `while` that counts down from 3, with a loop variable that does not change, and a capture that
-- fails when one iteration is left.
use nx_tinygrad.Base.{ℕ, ◌-◌, ◌≡◌, refl, Bool, none, List, [], ◌∷◌, arith, ltb, ◌==◌, if◌then◌else◌}
use nx_tinygrad.Errors.{Result, ok, fail, compile_error}
use nx_tinygrad.Json.{ℤ, pos}
use nx_tinygrad.Dict.{lookup, insert}
use nx_tinygrad.Graph.{Input, Constant, Node, Sub, sub, nil, cons}
use nx_tinygrad.Plan.{sub_requires_eager, dyn_start_count, all_defined}
use nx_tinygrad.Loops.{WhilePlan, symbolic_while_plan}
use nx_tinygrad.Loops.Run.{captured, WhileStats, make_while_step, run_while}
use nx_tinygrad.Loops.Run.Invariants.{KeepsInputs, input_ids}
use nx_tinygrad.Validate.{all_distinct}
use nx_tinygrad.Loops.Run.Plain.{IsFaithfulJit, plain_loop}
use nx_tinygrad.Loops.Run.Static.{IsStatic, run_while-plain_loop}
use nx_tinygrad.Tests.Plans.{node}

-- Constants are 1.
abbrev one : Constant → ℕ
one c = 1

-- The first input less the others.
abbrev subtract : List ℤ → Node → List ℕ → Result (List ℕ)
subtract syms n (a ∷ b ∷ vs) = ok ((a - b) ∷ [])
subtract syms n vs = fail compile_error "inputs"

abbrev item : ℕ → Result ℤ
item v = ok (pos v)

abbrev truth : ℕ → Result Bool
truth v = ok (ltb 0 v)

abbrev replayed : ℕ → Result (List ℕ) → Result (List ℕ)
replayed count r = if count == 1 then fail compile_error "replay" else r

abbrev some_capture : (List ℕ → List ℤ → Result (List ℕ)) → List ℕ → List ℤ → Result (List ℕ)
some_capture f [] bound = f [] bound
some_capture f (count ∷ rest) bound = replayed count (f (count ∷ rest) bound)

some_capture-IsFaithfulJit : IsFaithfulJit some_capture
some_capture-IsFaithfulJit f [] bound results h = h
some_capture-IsFaithfulJit f (count ∷ rest) bound results h = ground (arith, h)

abbrev loop_input : ℕ → Input
loop_input i = record { spec = record { id = i; shape = []; dtype = "s32" }; index = i }

abbrev cond : Sub
cond = sub (loop_input 0 ∷ loop_input 1 ∷ []) [] nil (0 ∷ [])

abbrev body : Sub
body =
    sub (loop_input 0 ∷ loop_input 1 ∷ []) [] (cons (node "subtract" 2 (0 ∷ 1 ∷ [])) nil)
      (2 ∷ 1 ∷ [])

abbrev plan : WhilePlan
plan = record {
  nodes = node "subtract" 2 (0 ∷ 1 ∷ []) ∷ [];
  uses = [];
  anc_nodes = [];
  anc_consts = [];
}

body_made : make_while_step body ≡ ok (captured plan)
unfolding make_while_step sub_requires_eager symbolic_while_plan dyn_start_count lookup insert
body_made = refl

body-IsStatic : IsStatic (node "subtract" 2 (0 ∷ 1 ∷ []) ∷ [])
unfolding dyn_start_count
body-IsStatic = (refl, tt)

body-KeepsInputs :
    KeepsInputs (loop_input 0 ∷ loop_input 1 ∷ []) (node "subtract" 2 (0 ∷ 1 ∷ []) ∷ [])
unfolding all_defined all_distinct input_ids
body-KeepsInputs = (refl, λ i c. ground (arith, c))

abbrev no_steps : WhileStats
no_steps = record {
  while_jit_fallbacks = 0;
  while_steps_interpreted = 0;
  while_steps_jit = 0;
  while_steps_symbolic = 0;
}

run_while-plain_loop_example :
    (run_while one subtract item truth some_capture 5 cond body none (3 ∷ 1 ∷ []) no_steps).0
    ≡ plain_loop one subtract item truth some_capture 5 cond body (3 ∷ 1 ∷ [])
run_while-plain_loop_example =
    run_while-plain_loop one subtract item truth some_capture 5 cond body (captured plan)
      (3 ∷ 1 ∷ []) no_steps some_capture-IsFaithfulJit body-IsStatic body-KeepsInputs refl body_made
