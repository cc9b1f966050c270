-- ===== src/Tests/Captures.antt =====
-- A capture that is validated, and inputs of an executable of which two are the same tensor.
use nx_tinygrad.Base.{ℕ, ◌≡◌, refl, Bool, true, false, List, [], ◌∷◌, arith}
use nx_tinygrad.Errors.{ok}
use nx_tinygrad.Json.{string}
use nx_tinygrad.Wire.Integers.{Bytes}
use nx_tinygrad.Dtype.{Scalar, uint8, numpy_dtype, wire_numpy, is_complex}
use nx_tinygrad.Tests.Sessions.{byte_library}
use nx_tinygrad.Validate.{all_distinct, same_shape}
use nx_tinygrad.Executables.Dedup.{Tensor, Clones, dedup, dedup_lem, idents, values}
use nx_tinygrad.Executables.Capture.{
  OutputSpec, expected_shape, wire, Replay, dummies, wire_all, check_shapes, validate_replay,
  capture,
}

abbrev some_tensors : List (Tensor ℕ)
some_tensors =
    record { ident = 4; value = 10 }
    ∷ record { ident = 2; value = 20 }
    ∷ record { ident = 4; value = 10 }
    ∷ []

abbrev some_clones : Clones
some_clones = record { fresh = 9; duplicate_input_clones = 0 }

dedup_lem_example :
    (all_distinct (idents (dedup some_tensors some_clones).0) ≡ true)
    × (values (dedup some_tensors some_clones).0 ≡ values some_tensors)
dedup_lem_example =
    dedup_lem some_tensors some_clones (omega arith, (omega arith, (omega arith, tt)))

-- Tensors and arrays are lists of bytes, and the graph has its inputs as outputs.
abbrev pub both_uint8 : Scalar → Scalar → Bool
both_uint8 uint8 uint8 = true
both_uint8 d e = false

abbrev pub some_replay : Replay Bytes Bytes ℕ
some_replay = record {
  graph_fn = λ vs. ok vs;
  jit = λ n vs. ok vs;
  dummy = λ i seed. ok (i ∷ seed ∷ []);
  dims = λ v. 2 ∷ [];
  dtype = λ a. uint8;
  same_dtype = both_uint8;
  floating = λ d. false;
  array_equal = λ nan a b. same_shape a b;
}

abbrev pub some_specs : List OutputSpec
some_specs = record { shape = 2 ∷ []; dtype = string "u8" } ∷ []

replay_captured : capture byte_library some_replay true false (5 ∷ []) some_specs ≡ ok true
unfolding capture dummies wire wire_all check_shapes validate_replay expected_shape same_shape
    numpy_dtype wire_numpy is_complex
replay_captured = refl
