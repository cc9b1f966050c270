-- ===== src/Worker/Session.antt =====
-- A whole session of the worker: the loop of `main` over a byte stream, against the answers to a list
-- of requests.
use nx_tinygrad.Base.{
  ℕ, zero, suc, ◌≤◌, ◌<◌, ◌≡◌, ◌≢◌, ◌↔◌, refl, ◌∙◌, Bool, true, false, Option, List, [], ◌∷◌, ◌++◌,
  length, arith, if◌then◌else◌, inl, inr,
}
use nx_tinygrad.Errors.{Failure, ok, raise, >>=-eq-ok, Result-cases}
use nx_tinygrad.Json.{Value, null, bool, int, float, string, array, object, Fields, get}
use nx_tinygrad.Wire.Integers.{Bytes}
use nx_tinygrad.Wire.{Request, decode_frame, max_frame_bytes}
use nx_tinygrad.Packet.{eof, read_packet, write_packet, Outcome-cases}
use nx_tinygrad.Packet.Stream.{IsStream}
use nx_tinygrad.Packet.Framing.{
  packet_outcome, read_packet-eq, read_packet-write_packet, read_packet-shrinks, read_packet-ends,
}
use nx_tinygrad.Python.{as_name}
use nx_tinygrad.Worker.{Worker, Platform}
use nx_tinygrad.Worker.Handle.{
  Command, find_command, serve_command, args_of, handle, value_or_null, Exit, closed, shut_down,
  unfinished, crashed, answer, main_loop,
}

last_exit :
    (stop : Bool) (xs ys : List Bytes) (x y : Exit)
    → x ≢ unfinished
    → y ≢ unfinished
    → (if◌then◌else◌ {A = List Bytes × Exit} stop (xs, x) (ys, y)).1 ≢ unfinished
last_exit true xs ys x y h k = h
last_exit false xs ys x y h k = k

-- Only a list or a dict cannot be looked up as a command.
abbrev pub is_hashable : Value → Bool
is_hashable (array l) = false
is_hashable (object d) = false
is_hashable v = true

find_command_found :
    (v : Value) → is_hashable v ≡ true → (c : Option Command) × (find_command v ≡ ok c)
unfolding find_command as_name
find_command_found null h = (_, refl)
find_command_found (bool b) h = (_, refl)
find_command_found (int n) h = (_, refl)
find_command_found (float b) h = (_, refl)
find_command_found (string s) h = (_, refl)
find_command_found (array l) h = cc
find_command_found (object d) h = cc

find_command_hashable :
    (v : Value) (c : Option Command) → find_command v ≡ ok c → is_hashable v ≡ true
unfolding find_command as_name
find_command_hashable null c h = refl
find_command_hashable (bool b) c h = refl
find_command_hashable (int n) c h = refl
find_command_hashable (float b) c h = refl
find_command_hashable (string s) c h = refl
find_command_hashable (array l) c h = cc
find_command_hashable (object d) c h = cc

module _ {A T E : Type 0} (platform : Platform A T E) (describe : Failure → Value) where
  -- `handle` returns a response, whatever goes wrong in the command, exactly when the command
  -- is a value that a dict can look up: a list or an object as the command raises out of it.
  pub handle_total_iff :
      (meta : Fields) (blobs : List Bytes) (w : Worker T E)
      → ((r : (Fields × List Bytes) × Worker T E) × (handle platform describe meta blobs w ≡ ok r))
        ↔ (is_hashable (value_or_null (get meta "command")) ≡ true)
  unfolding handle
  handle_total_iff meta blobs w =
      let v = value_or_null (get meta "command") in
      (
        λ (r, h). let (c, e, rest) = >>=-eq-ok (find_command v) _ h in find_command_hashable v c e,
        λ h.
            let (c, e) = find_command_found v h in
            (serve_command platform describe c (args_of meta) blobs w, rw e),
      )

module _ {A T E : Type 0} (platform : Platform A T E) (describe : Failure → Value)
    (dumps : Value → Bytes) where
  -- The answers to requests, one after another, until one shuts the worker down.
  unfoldable pub serve_all : List Request → Worker T E → List Bytes × Exit
  serve_all [] w = ([], closed)
  serve_all (r ∷ rs) w = elim (answer platform describe dumps r w) [
    | raise e ↦ ([], crashed e)
    | ok (packet, w') ↦
        let (rest, exit) = serve_all rs w' in
        if w'.should_stop then (packet ∷ [], shut_down) else (packet ∷ rest, exit)
  ]

-- `xs` is the packets of the requests, in order, and nothing else.
abbrev pub IsSession : (Bytes → Option Value) → List Request → Bytes → Type 0
IsSession loads [] xs = xs ≡ []
IsSession loads (r ∷ rs) xs =
    (payload : Bytes) × (packet : Bytes) × (rest : Bytes) × (write_packet payload ≡ ok packet)
    × (length payload ≤ max_frame_bytes)
    × (decode_frame loads payload ≡ ok r)
    × (xs ≡ packet ++ rest)
    × IsSession loads rs rest

module _ {A T E S : Type 0} (platform : Platform A T E) (describe : Failure → Value)
    (loads : Bytes → Option Value) (dumps : Value → Bytes) (read : ℕ → S → Bytes × S)
    (remaining : S → Bytes) (stream : IsStream read remaining) where
  packet_outcome-nil : (s : S) → remaining s ≡ [] → (read_packet read s).0 ≡ eof
  unfolding packet_outcome
  packet_outcome-nil s e = read_packet-eq read remaining stream s ∙ rw e refl

  -- On a stream that keeps the contract of `read` and holds the packets of a list of requests,
  -- each of at most `MAX_FRAME_BYTES` and accepted by `decode_frame`, the loop of `main` writes
  -- the answers to these requests, one packet each, in their order, and ends as they say, given
  -- more rounds than requests.
  pub main_loop-serve_all :
      (requests : List Request) (fuel : ℕ) (s : S) (w : Worker T E)
      → length requests < fuel
      → IsSession loads requests (remaining s)
      → main_loop platform describe loads dumps read fuel s w
        ≡ serve_all platform describe dumps requests w
  unfolding main_loop serve_all
  main_loop-serve_all requests zero s w h session = absurd (omega arith)
  main_loop-serve_all [] (suc fuel) s w h session =
      rw (main_loop, packet_outcome-nil s session) refl
  main_loop-serve_all (r ∷ rs) (suc fuel) s w h
        (payload, packet, rest, written, small, decoded, e, more) =
      let (got, left) =
        read_packet-write_packet read remaining stream payload rest packet s written small e in
      let s' = (read_packet read s).1 in
      elim (Result-cases (answer platform describe dumps r w)) [
        | inr (failure, failed) ↦ rw (main_loop, serve_all, got, decoded, failed) refl
        | inl ((out, w'), answered) ↦
            rw
              (
                main_loop,
                got,
                decoded,
                answered,
                main_loop-serve_all rs fuel s' w' (omega arith) (rw left more),
                serve_all,
              )
              refl
      ]

  -- The loop of `main` ends: on whatever bytes, from a stream that keeps the contract of
  -- `read`, it takes at most as many rounds as there are bytes to come, and one more.
  pub main_loop-ends :
      (fuel : ℕ) (s : S) (w : Worker T E)
      → length (remaining s) < fuel
      → (main_loop platform describe loads dumps read fuel s w).1 ≢ unfinished
  unfolding main_loop
  main_loop-ends zero s w h = absurd (omega arith)
  main_loop-ends (suc fuel) s w h = elim (Outcome-cases (read_packet read s).0) [
    | inr (inl over) ↦ rw (main_loop, over) (λ e. cc)
    | inr (inr (inl (e, failed))) ↦ rw (main_loop, failed) (λ e. cc)
    | inr (inr (inr ran_out)) ↦ absurd (read_packet-ends read remaining stream s ran_out)
    | inl (payload, got) ↦ elim (Result-cases (decode_frame loads payload)) [
      | inr (e, bad) ↦ rw (main_loop, got, bad) (λ e. cc)
      | inl (request, good) ↦ elim (Result-cases (answer platform describe dumps request w)) [
        | inr (e, failed) ↦ rw (main_loop, got, good, failed) (λ e. cc)
        | inl ((packet, w'), answered) ↦
            let less = read_packet-shrinks read remaining stream s payload got in
            let ih = main_loop-ends fuel (read_packet read s).1 w' (omega arith) in
            rw (main_loop, got, good, answered) (last_exit w'.should_stop _ _ _ _ (λ e. cc) ih)
      ]
    ]
  ]
