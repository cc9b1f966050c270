-- ===== src/Tests/Runs.antt =====
-- An executable that is compiled, captured and run on one tensor of two bytes.
use nx_tinygrad.Base.{ℕ, ◌≡◌, refl, true, false, none, List, [], ◌∷◌, arith, ◌⊎◌, All}
use nx_tinygrad.Errors.{Failure, Result, ok, raise, fail, compile_error}
use nx_tinygrad.Wire.Integers.{Bytes}
use nx_tinygrad.Dict.{lookup, insert}
use nx_tinygrad.Dtype.{is_complex, numpy_dtype, wire_numpy}
use nx_tinygrad.Graph.{Input, Constant, Node, node_inputs, node_defined_ids}
use nx_tinygrad.Plan.{requires_eager}
use nx_tinygrad.Segments.{read_all, bind_all, eval_nodes, segment_fn}
use nx_tinygrad.Segments.Refine.{IsFaithful}
use nx_tinygrad.Segments.Outputs.{LeavesAlone}
use nx_tinygrad.Json.{Value, string}
use nx_tinygrad.Validate.{same_shape, all_distinct}
use nx_tinygrad.Segments.Step.{Buffered, step_args, bases, tensor_fn, step}
use nx_tinygrad.Segments.Step.Apart.{IsOwned}
use nx_tinygrad.Segments.Step.Typed.{AreTyped, step-segment_fn}
use nx_tinygrad.Ops.Dispatch.{cx, Operand, real}
use nx_tinygrad.Executables.Dedup.{Tensor, Clones}
use nx_tinygrad.Executables.Capture.{
  Replay, capture, dummies, wire, wire_all, check_shapes, validate_replay, expected_shape,
}
use nx_tinygrad.Executables.Run.{
  Compiled, any_eager, make_constants, constant_ids, initialise, fresh_progress, wrap, bind_tensors,
  graph_fn, eval_graph, read_outputs, run, compile_executable,
}
use nx_tinygrad.Executables.Run.Computes.{compile_executable-run}
use nx_tinygrad.Tests.Sessions.{byte_library}
use nx_tinygrad.Tests.Plans.{node}
use nx_tinygrad.Tests.Captures.{some_replay, some_specs}

-- Every node passes its first input on.
abbrev first_input : Node → List (Operand Bytes) → Result (List (Operand Bytes))
first_input n (v ∷ vs) = ok (v ∷ [])
first_input n [] = fail compile_error "no input"

abbrev some_capture :
    ℕ
    → (List (Operand Bytes) → Result (List (Operand Bytes)))
    → List (Operand Bytes)
    → Result (List (Operand Bytes))
some_capture idx f args = f args

some_capture-IsFaithful : IsFaithful some_capture
some_capture-IsFaithful idx f args results h = h

abbrev byte_input : Input
byte_input = record { spec = record { id = 0; shape = 2 ∷ []; dtype = "u8" }; index = 0 }

abbrev input_replay : Replay Bytes Bytes Input
input_replay = record {
  graph_fn = some_replay.graph_fn;
  jit = some_replay.jit;
  dummy = λ spec seed. ok (seed ∷ seed ∷ []);
  dims = some_replay.dims;
  dtype = some_replay.dtype;
  same_dtype = some_replay.same_dtype;
  floating = some_replay.floating;
  array_equal = some_replay.array_equal;
}

abbrev no_constant : Constant → Result (Operand Bytes)
no_constant c = fail compile_error "no constants"

abbrev some_nodes : List Node
some_nodes = node "reverse" 1 (0 ∷ []) ∷ []

abbrev some_compiled : Compiled Bytes
some_compiled = record {
  inputs = byte_input ∷ [];
  nodes = some_nodes;
  outputs = 1 ∷ [];
  constants = [];
  is_eager = false;
  segments = none;
  has_jit = true;
}

compiles :
    compile_executable first_input some_capture byte_library input_replay true no_constant
      (byte_input ∷ [])
      []
      some_nodes
      (1 ∷ [])
      some_specs
    ≡ ok some_compiled
unfolding compile_executable initialise any_eager make_constants constant_ids requires_eager capture
    dummies wire wire_all check_shapes validate_replay expected_shape same_shape numpy_dtype
    wire_numpy is_complex graph_fn eval_graph read_outputs eval_nodes read_all bind_all bind_tensors
    wrap node_inputs node_defined_ids lookup insert
compiles = refl

abbrev some_tensor : Tensor Bytes
some_tensor = record { ident = 3; value = 8 ∷ 9 ∷ [] }

abbrev some_clones : Clones
some_clones = record { fresh = 4; duplicate_input_clones = 0 }

abbrev replay : List Bytes → Result (List Bytes)
replay us = (graph_fn first_input some_capture some_compiled us fresh_progress).0

some_compiled-LeavesAlone : LeavesAlone {V = Operand Bytes} [] some_nodes
unfolding lookup
some_compiled-LeavesAlone i v h = cc

some_bound :
    bind_tensors {T = Bytes} (byte_input ∷ []) ((8 ∷ 9 ∷ []) ∷ []) []
    ≡ ok ((0, real (8 ∷ 9 ∷ [])) ∷ [])
unfolding bind_tensors wrap is_complex insert
some_bound = refl

some_evaluated :
    eval_nodes first_input some_nodes ((0, real (8 ∷ 9 ∷ [])) ∷ [])
    ≡ ok ((0, real (8 ∷ 9 ∷ [])) ∷ (1, real (8 ∷ 9 ∷ [])) ∷ [])
unfolding eval_nodes read_all bind_all node_inputs node_defined_ids lookup insert
some_evaluated = refl

some_found :
    read_all {V = Operand Bytes} (1 ∷ []) ((0, real (8 ∷ 9 ∷ [])) ∷ (1, real (8 ∷ 9 ∷ [])) ∷ [])
    ≡ ok (real (8 ∷ 9 ∷ []) ∷ [])
unfolding read_all lookup
some_found = refl

compile_executable-run_example :
    ((run first_input some_capture replay some_compiled
        (some_tensor ∷ [])
        some_clones
        fresh_progress).0
      ≡ ok ((8 ∷ 9 ∷ []) ∷ []))
    ⊎ ((true ≡ true)
        × (f : Failure) × ((run first_input some_capture replay some_compiled
              (some_tensor ∷ [])
              some_clones
              fresh_progress).0
            ≡ raise f))
compile_executable-run_example =
    compile_executable-run first_input some_capture some_capture-IsFaithful byte_library
      input_replay true no_constant (byte_input ∷ []) [] some_nodes (1 ∷ []) some_specs
      some_compiled replay (some_tensor ∷ []) some_clones fresh_progress
      ((0, real (8 ∷ 9 ∷ [])) ∷ []) ((0, real (8 ∷ 9 ∷ [])) ∷ (1, real (8 ∷ 9 ∷ [])) ∷ [])
      (real (8 ∷ 9 ∷ []) ∷ []) compiles (unfold lookup in (refl, tt)) some_compiled-LeavesAlone
      (λ us outs h. h) (omega arith, tt) some_bound some_evaluated some_found

-- A captured segment of two inputs, whose tensors are views of one buffer.
abbrev shared_views : List (Buffered Bytes)
shared_views =
    record { base = 7; is_realized = true; is_contiguous = true; value = 8 ∷ 9 ∷ [] }
    ∷ record { base = 7; is_realized = true; is_contiguous = true; value = 1 ∷ 2 ∷ [] }
    ∷ []

abbrev operands : List (Operand Bytes)
operands = real (8 ∷ 9 ∷ []) ∷ cx (1 ∷ 2 ∷ []) ∷ []

abbrev two_inputs : List Node
two_inputs = node "reverse" 3 (0 ∷ 1 ∷ []) ∷ []

abbrev in_dtypes : List Value
in_dtypes = string "u8" ∷ string "c64" ∷ []

abbrev out_dtypes : List Value
out_dtypes = string "u8" ∷ []

abbrev run_again : List Bytes → Result (List Bytes)
run_again us = tensor_fn first_input [] two_inputs (0 ∷ 1 ∷ []) (3 ∷ []) in_dtypes out_dtypes us

typed_in : AreTyped in_dtypes operands
unfolding is_complex
typed_in = (refl, (refl, tt))

typed_out : AreTyped {T = Bytes} out_dtypes (real (8 ∷ 9 ∷ []) ∷ [])
unfolding is_complex
typed_out = (refl, tt)

two_inputs_ran :
    segment_fn first_input [] two_inputs (0 ∷ 1 ∷ []) (3 ∷ []) operands
    ≡ ok (real (8 ∷ 9 ∷ []) ∷ [])
unfolding segment_fn eval_nodes read_all bind_all node_inputs node_defined_ids lookup insert
two_inputs_ran = refl

second_copied : bases (step_args shared_views [] 20) ≡ 7 ∷ 20 ∷ []
unfolding step_args
second_copied = refl

step-segment_fn_example :
    (all_distinct (bases (step_args shared_views [] 20)) ≡ true)
    × All IsOwned (step_args shared_views [] 20)
    × ((step first_input [] two_inputs
            (0 ∷ 1 ∷ [])
            (3 ∷ [])
            in_dtypes
            out_dtypes
            run_again
            shared_views
            20
          ≡ ok (real (8 ∷ 9 ∷ []) ∷ []))
        ⊎ ((f : Failure) × (step first_input [] two_inputs
                (0 ∷ 1 ∷ [])
                (3 ∷ [])
                in_dtypes
                out_dtypes
                run_again
                shared_views
                20
              ≡ raise f)))
step-segment_fn_example =
    step-segment_fn first_input [] two_inputs (0 ∷ 1 ∷ []) (3 ∷ []) in_dtypes out_dtypes run_again
      shared_views 20 operands (real (8 ∷ 9 ∷ []) ∷ []) (λ us outs h. h)
      (omega arith, (omega arith, tt)) refl typed_in typed_out two_inputs_ran
