-- ===== src/Worker/Handle.antt =====
-- priv/worker/main.py: `Handler.handle`, and the loop of `main`.
use nx_tinygrad.Base.{
  ℕ, zero, suc, String, true, false, Option, none, some, List, [], ◌∷◌, if◌then◌else◌, str_eq,
}
use nx_tinygrad.Errors.{Failure, Result, ok, raise, protocol_error, ◌>>=◌}
use nx_tinygrad.Json.{Value, null, bool, object, Fields, end, field, get}
use nx_tinygrad.Wire.Integers.{Bytes}
use nx_tinygrad.Wire.{Request, decode_frame, encode_frame}
use nx_tinygrad.Packet.{eof, bytes, error, out_of_fuel, read_packet, write_packet}
use nx_tinygrad.Python.{truthy, as_name}
use nx_tinygrad.Action.{Action}
use nx_tinygrad.Worker.{Worker, Platform}
use nx_tinygrad.Worker.Commands.{
  Reply, cmd_hello, cmd_device_info, cmd_compile, cmd_execute, cmd_run_node, cmd_upload,
  cmd_download, cmd_release, cmd_release_executable, cmd_stats, cmd_synchronize, cmd_shutdown,
}

-- The names that `self._dispatch` has.
pub data Command : Type 0 where
  hello device_info compile execute run_node upload : Command
  download release release_executable stats synchronize shutdown : Command

find : List (String × Command) → String → Option Command
find [] name = none
find ((k, c) ∷ table) name = if str_eq k name then some c else find table name

unfoldable pub dispatch : String → Option Command
unfolding find
dispatch = find (
    ("hello", hello)
    ∷ ("device_info", device_info)
    ∷ ("compile", compile)
    ∷ ("execute", execute)
    ∷ ("run_node", run_node)
    ∷ ("upload", upload)
    ∷ ("download", download)
    ∷ ("release", release)
    ∷ ("release_executable", release_executable)
    ∷ ("stats", stats)
    ∷ ("synchronize", synchronize)
    ∷ ("shutdown", shutdown)
    ∷ [])

named : Option String → Option Command
named none = none
named (some name) = dispatch name

-- `self._dispatch.get(command)`
unfoldable pub find_command : Value → Result (Option Command)
unfolding named
find_command v = do key ← as_name v; ok (named key)

abbrev pub value_or_null : Option Value → Value
value_or_null none = null
value_or_null (some v) = v

-- `meta.get("args") or {}`
unfoldable pub args_of : Fields → Value
args_of meta =
    let args = value_or_null (get meta "args") in if truthy args then args else object end

-- `_error`; `describe` is the JSON object of an exception's class, message, details and traceback.
abbrev pub error_reply : (Failure → Value) → Failure → Fields × List Bytes
error_reply describe e = (field "ok" (bool false) (field "error" (describe e) end), [])

abbrev pub response : (Failure → Value) → Result Reply → Fields × List Bytes
response describe (ok (result, blobs)) = (field "ok" (bool true) (field "result" result end), blobs)
response describe (raise e) = error_reply describe e

module _ {A T E : Type 0} (platform : Platform A T E) where
  unfoldable pub run_command : Command → Value → List Bytes → Action (Worker T E) Reply
  run_command hello args blobs = cmd_hello platform args
  run_command device_info args blobs = cmd_device_info platform
  run_command compile args blobs = cmd_compile platform args blobs
  run_command execute args blobs = cmd_execute platform args blobs
  run_command run_node args blobs = cmd_run_node platform args blobs
  run_command upload args blobs = cmd_upload platform args blobs
  run_command download args blobs = cmd_download platform args
  run_command release args blobs = cmd_release platform args
  run_command release_executable args blobs = cmd_release_executable platform args
  run_command stats args blobs = cmd_stats platform
  run_command synchronize args blobs = cmd_synchronize platform
  run_command shutdown args blobs = cmd_shutdown platform

module _ {A T E : Type 0} (platform : Platform A T E) (describe : Failure → Value) where
  unfoldable pub serve_command :
      Option Command → Value → List Bytes → Worker T E → (Fields × List Bytes) × Worker T E
  unfolding run_command
  serve_command none args blobs w = (
    error_reply describe (record { error_class = protocol_error; message = "unknown command" }),
    w,
  )
  serve_command (some c) args blobs w =
      let (r, w') = run_command platform c args blobs w in (response describe r, w')

  -- `handle`; an exception that leaves it is a `raise` here.
  unfoldable pub handle :
      Fields → List Bytes → Worker T E → Result ((Fields × List Bytes) × Worker T E)
  unfolding serve_command args_of
  handle meta blobs w = do
    command ← find_command (value_or_null (get meta "command"))
    ok (serve_command command (args_of meta) blobs w)

-- How `main` ends. `crashed` is an exception that leaves it; `unfinished` is no outcome of the
-- program: the loop of the model ran out of rounds.
pub data Exit : Type 0 where
  closed protocol_failure shut_down unfinished : Exit
  crashed : Failure → Exit

module _ {A T E : Type 0} (platform : Platform A T E) (describe : Failure → Value)
    (dumps : Value → Bytes) where
  -- The response to a request, as the bytes written to stdout, with the state after it.
  unfoldable pub answer : Request → Worker T E → Result (Bytes × Worker T E)
  answer request w = do
    ((meta, blobs), w') ← handle platform describe request.meta request.blobs w
    payload ← encode_frame dumps request.req_id meta blobs
    packet ← write_packet payload
    ok (packet, w')

module _ {A T E S : Type 0} (platform : Platform A T E) (describe : Failure → Value)
    (loads : Bytes → Option Value) (dumps : Value → Bytes) (read : ℕ → S → Bytes × S) where
  -- The loop of `main`: what it writes, packet by packet, and how it ends.
  unfoldable pub main_loop : ℕ → S → Worker T E → List Bytes × Exit
  main_loop zero s w = ([], unfinished)
  main_loop (suc fuel) s w =
      let (o, s') = read_packet read s in
      elim o [
        | eof ↦ ([], closed)
        | error e ↦ ([], protocol_failure)
        | out_of_fuel ↦ ([], unfinished)
        | bytes payload ↦ elim (decode_frame loads payload) [
          | raise e ↦ ([], protocol_failure)
          | ok request ↦ elim (answer platform describe dumps request w) [
            | raise e ↦ ([], crashed e)
            | ok (packet, w') ↦
                let (rest, exit) = main_loop fuel s' w' in
                if w'.should_stop then (packet ∷ [], shut_down) else (packet ∷ rest, exit)
          ]
        ]
      ]
