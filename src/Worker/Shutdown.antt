-- ===== src/Worker/Shutdown.antt =====
-- What a request for `shutdown` does to the loop of `main`.
use nx_tinygrad.Base.{
  ℕ, ◌<◌, ◌≡◌, ◌≢◌, refl, sym, ap, ◌∙◌, true, false, Option, some, List, [], ◌∷◌, ◌++◌, length, inl,
  inr, ◌⊎◌, Bool-cases,
}
use nx_tinygrad.Errors.{Failure, ok, raise, >>=-eq-ok, Result-cases, ok_inj}
use nx_tinygrad.Json.{Value, string, object, end, get}
use nx_tinygrad.Wire.Integers.{Bytes}
use nx_tinygrad.Wire.{Request, encode_frame}
use nx_tinygrad.Packet.{write_packet}
use nx_tinygrad.Packet.Stream.{IsStream}
use nx_tinygrad.Python.{as_name}
use nx_tinygrad.Worker.{Worker, Platform}
use nx_tinygrad.Worker.Commands.{cmd_shutdown}
use nx_tinygrad.Worker.Handle.{
  find_command, dispatch, response, run_command, serve_command, handle, Exit, closed, shut_down,
  crashed, answer, main_loop,
}
use nx_tinygrad.Worker.Session.{serve_all, IsSession, main_loop-serve_all}

module _ {A T E : Type 0} (platform : Platform A T E) (describe : Failure → Value)
    (dumps : Value → Bytes) where
  -- An answer to `shutdown` leaves a worker that is to stop.
  answer-stops :
      (r : Request) (w w' : Worker T E) (packet : Bytes)
      → get r.meta "command" ≡ some (string "shutdown")
      → answer platform describe dumps r w ≡ ok (packet, w')
      → w'.should_stop ≡ true
  unfolding answer handle find_command as_name serve_command run_command cmd_shutdown dispatch
  answer-stops r w w' packet named answered =
      let ((reply, w1), handled, e1) =
        >>=-eq-ok (handle platform describe r.meta r.blobs w) _ answered in
      let (payload, encoded, e2) = >>=-eq-ok (encode_frame dumps r.req_id reply.0 reply.1) _ e1 in
      let (written, framed, e3) = >>=-eq-ok (write_packet payload) _ e2 in
      let is : handle platform describe r.meta r.blobs w
          ≡ ok (response describe (ok (object end, [])), record w { should_stop = true }) =
        rw (handle, named) refl in
      let same : record w { should_stop = true } ≡ w' =
        ap (λ p. p.1) (ok_inj (sym is ∙ handled)) ∙ ap (λ p. p.1) (ok_inj e3) in
      ap (λ v. v.should_stop) (sym same)

  fails :
      (r : Request) (rs : List Request) (w : Worker T E) (f : Failure)
      → answer platform describe dumps r w ≡ raise f
      → serve_all platform describe dumps (r ∷ rs) w ≡ ([], crashed f)
  unfolding serve_all
  fails r rs w f failed = rw (serve_all, failed) refl

  stopped :
      (r : Request) (rs : List Request) (w w' : Worker T E) (packet : Bytes)
      → answer platform describe dumps r w ≡ ok (packet, w')
      → w'.should_stop ≡ true
      → serve_all platform describe dumps (r ∷ rs) w ≡ (packet ∷ [], shut_down)
  unfolding serve_all
  stopped r rs w w' packet answered stops = rw (serve_all, answered, stops) refl

  goes_on :
      (r : Request) (rs : List Request) (w w' : Worker T E) (packet : Bytes)
      → answer platform describe dumps r w ≡ ok (packet, w')
      → w'.should_stop ≡ false
      → serve_all platform describe dumps (r ∷ rs) w ≡ (
        packet ∷ (serve_all platform describe dumps rs w').0,
        (serve_all platform describe dumps rs w').1,
      )
  unfolding serve_all
  goes_on r rs w w' packet answered goes = rw (serve_all, answered, goes) refl

  -- What is served before a `shutdown` is served as if nothing followed.
  serve_all-shutdown :
      (before : List Request) (r : Request) (after : List Request) (w : Worker T E)
      (packets : List Bytes)
      → serve_all platform describe dumps before w ≡ (packets, closed)
      → get r.meta "command" ≡ some (string "shutdown")
      → ((packet : Bytes) × (serve_all platform describe dumps (before ++ (r ∷ after)) w
            ≡ (packets ++ (packet ∷ []), shut_down)))
        ⊎ ((f : Failure) × (serve_all platform describe dumps (before ++ (r ∷ after)) w
              ≡ (packets, crashed f)))
  unfolding serve_all
  serve_all-shutdown [] r after w packets served named =
      elim (Result-cases (answer platform describe dumps r w)) [
        | inl ((packet, w'), answered) ↦
            let stops = answer-stops r w w' packet named answered in
            inl (
              packet,
              rw (serve_all, answered, stops)
                  (ap (λ ps. (ps ++ (packet ∷ []), shut_down)) (ap (λ p. p.0) served)),
            )
        | inr (f, failed) ↦
            inr (f, rw (serve_all, failed) (ap (λ ps. (ps, crashed f)) (ap (λ p. p.0) served)))
      ]
  serve_all-shutdown (b ∷ before) r after w packets served named =
      elim (Result-cases (answer platform describe dumps b w)) [
        | inr (f, failed) ↦
            absurd (
              not_closed [] packets (crashed f) (λ e. cc)
                (sym (fails b before w f failed) ∙ served))
        | inl ((packet, w'), answered) ↦ elim (Bool-cases w'.should_stop) [
          | inl stops ↦ absurd (
              not_closed (packet ∷ []) packets shut_down (λ e. cc)
                (sym (stopped b before w w' packet answered stops) ∙ served))
          | inr goes ↦
              let here = sym (goes_on b before w w' packet answered goes) ∙ served in
              let ih =
                serve_all-shutdown before r after w' (serve_all platform describe dumps before w').0
                  (ap (λ e. ((serve_all platform describe dumps before w').0, e))
                    (ap (λ p. p.1) here))
                  named in
              elim ih [
                | inl (last, ended) ↦ inl (
                  last,
                  goes_on b (before ++ (r ∷ after)) w w' packet answered goes
                      ∙ ap (λ p. (packet ∷ p.0, p.1)) ended
                      ∙ ap (λ ps. (ps ++ (last ∷ []), shut_down)) (ap (λ p. p.0) here),
                )
                | inr (f, failed) ↦ inr (
                  f,
                  goes_on b (before ++ (r ∷ after)) w w' packet answered goes
                      ∙ ap (λ p. (packet ∷ p.0, p.1)) failed
                      ∙ ap (λ ps. (ps, crashed f)) (ap (λ p. p.0) here),
                )
              ]
        ]
      ]
    where
      not_closed :
          (xs ys : List Bytes) (x : Exit)
          → x ≢ closed
          → ◌≡◌ {A = List Bytes × Exit} (xs, x) (ys, closed)
          → ⊥
      not_closed xs ys x h e = h (ap (λ p. p.1) e)

module _ {A T E S : Type 0} (platform : Platform A T E) (describe : Failure → Value)
    (loads : Bytes → Option Value) (dumps : Value → Bytes) (read : ℕ → S → Bytes × S)
    (remaining : S → Bytes) (stream : IsStream read remaining) where
  -- On a stream that keeps the contract of `read` and holds a session with a request for
  -- `shutdown`, given more rounds than requests, the loop of `main` writes what it writes for
  -- the requests before it, answers it with one packet more and ends there, or ends where an
  -- exception leaves the answer; where the requests before it end neither the worker nor the
  -- loop.
  pub main_loop-shutdown :
      (before : List Request) (r : Request) (after : List Request) (fuel : ℕ) (s : S)
      (w : Worker T E) (packets : List Bytes)
      → length (before ++ (r ∷ after)) < fuel
      → IsSession loads (before ++ (r ∷ after)) (remaining s)
      → serve_all platform describe dumps before w ≡ (packets, closed)
      → get r.meta "command" ≡ some (string "shutdown")
      → ((packet : Bytes) × (main_loop platform describe loads dumps read fuel s w
            ≡ (packets ++ (packet ∷ []), shut_down)))
        ⊎ ((f : Failure) × (main_loop platform describe loads dumps read fuel s w
              ≡ (packets, crashed f)))
  main_loop-shutdown before r after fuel s w packets enough session served named =
      let run =
        main_loop-serve_all platform describe loads dumps read remaining stream
          (before ++ (r ∷ after)) fuel s w enough session in
      elim (serve_all-shutdown platform describe dumps before r after w packets served named) [
        | inl (packet, ended) ↦ inl (packet, run ∙ ended)
        | inr (f, failed) ↦ inr (f, run ∙ failed)
      ]
