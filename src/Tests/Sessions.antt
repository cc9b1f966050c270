-- ===== src/Tests/Sessions.antt =====
-- A session of three requests, on a platform whose arrays and tensors are bytes.
use nx_tinygrad.Base.{
  ℕ, zero, suc, ◌≤◌, ◌<◌, ◌≡◌, ◌≢◌, ◌↔◌, ◌⊎◌, refl, String, true, ◌==◌, Option, none, some, List,
  [], ◌∷◌, ◌++◌, length, take, drop, arith, if◌then◌else◌, take-append-drop,
}
use nx_tinygrad.Errors.{Failure, ok, fail, compile_error}
use nx_tinygrad.Json.{Value, null, string, object, pos, Fields, field, end, nil, get}
use nx_tinygrad.Wire.Integers.{Bytes, pack, from_bytes}
use nx_tinygrad.Wire.{Request, decode_frame, encode_frame}
use nx_tinygrad.Python.{as_name}
use nx_tinygrad.Worker.Commands.{cmd_stats}
use nx_tinygrad.Packet.{write_packet}
use nx_tinygrad.Packet.Stream.{IsStream}
use nx_tinygrad.Dtype.{Library}
use nx_tinygrad.Worker.{Worker, Platform, init}
use nx_tinygrad.Worker.Handle.{
  upload, handle, answer, find_command, dispatch, unfinished, closed, shut_down, crashed,
  value_or_null, main_loop, run_command,
}
use nx_tinygrad.Worker.Session.{
  is_hashable, handle_total_iff, serve_all, IsSession, main_loop-serve_all, main_loop-ends,
}
use nx_tinygrad.Worker.Shutdown.{main_loop-shutdown}
use nx_tinygrad.Worker.Buffers.{Keeps, run_command-Keeps}

abbrev pub byte_library : Library Bytes Bytes
byte_library = record {
  frombuffer = λ b d. ok b;
  reshape = λ v a. ok a;
  is_scalar = λ a. length a == 1;
  nbytes = λ a. length a;
  contiguous = λ d a. ok a;
  tobytes = λ a. a;
  prod = λ l. ok 1;
  itemsize_of = λ d. 1;
  stack_parts = λ d a. ok a;
  fold_parts = λ d a. ok a;
  tensor = λ a. ok a;
  bitcast = λ d t. ok t;
  numpy = λ t. ok t;
  clone = λ t. ok t;
  realize = λ t. ok t;
  own = λ t. ok t;
  dims = λ t. length t ∷ [];
  transfer = λ t. ok t;
  characters = λ s. nil;
}

abbrev byte_platform : Platform Bytes Bytes (Unit {0})
byte_platform = record {
  library = byte_library;
  python_version = "3.12";
  tinygrad_version = "0.13";
  spec = "CPU";
  generation = pos 1;
  compile_ms = null;
  probe = ok null;
  compile_graph = λ i g b v. fail compile_error "no graphs";
  run = λ e ts stats. (ok ts, (e, stats));
  apply = λ n os. fail compile_error "no nodes";
  supported_ops = "add" ∷ [];
  synchronize = ok tt;
}

abbrev describe : Failure → Value
describe e = string e.message

abbrev command : String → Fields
command name = field "command" (string name) end

-- The metadata of this test's frames is one byte.
unfoldable parse : Bytes → Option Value
parse (b ∷ []) =
    if b == 1 then some (object (command "stats")) else some (object (command "shutdown"))
parse bs = none

abbrev print : Value → Bytes
print v = 0 ∷ []

abbrev frame : ℕ → ℕ → Bytes
frame req_id meta =
    b'X' ∷ b'T' ∷ b'G' ∷ b'1' ∷ 0 ∷ 0 ∷ 0 ∷ 0 ∷ 0 ∷ 0 ∷ 0 ∷ req_id ∷ 0 ∷ 0 ∷ 0 ∷ 1 ∷ 0 ∷ 0 ∷ 0 ∷ 0
    ∷ meta ∷ []

abbrev packet : ℕ → ℕ → Bytes
packet req_id meta = 0 ∷ 0 ∷ 0 ∷ 21 ∷ frame req_id meta

abbrev request : ℕ → String → Request
request req_id name = record { req_id = req_id; meta = command name; blobs = [] }

abbrev some_requests : List Request
some_requests = request 5 "stats" ∷ request 6 "shutdown" ∷ []

abbrev some_bytes : Bytes
some_bytes = packet 5 1 ++ (packet 6 2 ++ [])

abbrev read_all_at_once : ℕ → Bytes → Bytes × Bytes
read_all_at_once n s = (take n s, drop n s)

abbrev rest_of : Bytes → Bytes
rest_of s = s

read_all_at_once-IsStream : IsStream read_all_at_once rest_of
read_all_at_once-IsStream = record {
  front = λ n s. take-append-drop n s;
  at_most = short;
  progress = something;
}
  where
    short : (n : ℕ) (s : Bytes) → length (take n s) ≤ n
    short zero s = omega arith
    short (suc n) [] = omega arith
    short (suc n) (b ∷ s) = omega (arith, short n s)

    something : (n : ℕ) (s : Bytes) → 0 < n → take n s ≡ [] → s ≡ []
    something zero s h e = absurd (omega arith)
    something (suc n) [] h e = refl
    something (suc n) (b ∷ s) h e = cc

written : (req_id meta : ℕ) → write_packet (frame req_id meta) ≡ ok (packet req_id meta)
unfolding write_packet pack
written req_id meta = refl

stats_decoded : decode_frame parse (frame 5 1) ≡ ok (request 5 "stats")
unfolding decode_frame parse from_bytes
stats_decoded = refl

shutdown_decoded : decode_frame parse (frame 6 2) ≡ ok (request 6 "shutdown")
unfolding decode_frame parse from_bytes
shutdown_decoded = refl

some-IsSession : IsSession parse some_requests some_bytes
some-IsSession = (
  frame 5 1,
  packet 5 1,
  packet 6 2 ++ [],
  written 5 1,
  omega arith,
  stats_decoded,
  refl,
  (frame 6 2, packet 6 2, [], written 6 2, omega arith, shutdown_decoded, refl, refl),
)

main_loop-serve_all_example :
    main_loop byte_platform describe parse print read_all_at_once 3 some_bytes (init end)
    ≡ serve_all byte_platform describe print some_requests (init end)
main_loop-serve_all_example =
    main_loop-serve_all byte_platform describe parse print read_all_at_once rest_of
      read_all_at_once-IsStream some_requests 3 some_bytes (init end) (omega arith) some-IsSession

main_loop-ends_example :
    (main_loop byte_platform describe parse print read_all_at_once 51 some_bytes (init end)).1
    ≢ unfinished
main_loop-ends_example =
    main_loop-ends byte_platform describe parse print read_all_at_once rest_of
      read_all_at_once-IsStream 51 some_bytes (init end) (omega arith)

handle_total_iff_example :
    ((r : (Fields × List Bytes) × Worker Bytes (Unit {0})) × (handle byte_platform describe
          (command "stats")
          []
          (init end)
        ≡ ok r))
    ↔ (is_hashable (value_or_null (get (command "stats") "command")) ≡ true)
handle_total_iff_example = handle_total_iff byte_platform describe (command "stats") [] (init end)

run_command-Keeps_example :
    Keeps (run_command byte_platform upload (object end) ((1 ∷ 2 ∷ []) ∷ []))
run_command-Keeps_example = run_command-Keeps byte_platform upload (object end) ((1 ∷ 2 ∷ []) ∷ [])

abbrev before_shutdown : List Request
before_shutdown = request 5 "stats" ∷ []

abbrev stats_packets : List Bytes
stats_packets = (serve_all byte_platform describe print before_shutdown (init end)).0

stats_served :
    serve_all byte_platform describe print before_shutdown (init end) ≡ (stats_packets, closed)
unfolding serve_all answer handle find_command as_name get encode_frame pack dispatch cmd_stats
    write_packet
stats_served = refl

shutdown_named : get (request 6 "shutdown").meta "command" ≡ some (string "shutdown")
unfolding get
shutdown_named = refl

main_loop-shutdown_example :
    ((last : Bytes) × (main_loop byte_platform describe parse print read_all_at_once 3 some_bytes
          (init end)
        ≡ (stats_packets ++ (last ∷ []), shut_down)))
    ⊎ ((f : Failure) × (main_loop byte_platform describe parse print read_all_at_once 3 some_bytes
            (init end)
          ≡ (stats_packets, crashed f)))
main_loop-shutdown_example =
    main_loop-shutdown byte_platform describe parse print read_all_at_once rest_of
      read_all_at_once-IsStream before_shutdown (request 6 "shutdown") [] 3 some_bytes (init end)
      stats_packets (omega arith) some-IsSession stats_served shutdown_named
