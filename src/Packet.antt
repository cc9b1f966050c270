-- ===== src/Packet.antt =====
-- priv/worker/protocol.py: the 4-byte length prefix of each packet, `read_exact`, `read_packet` and
-- `write_packet`. A Python stream is a parameter: its state, and `read`.
pub mod Stream
pub mod Framing
use nx_tinygrad.Base.{
  ◌≡◌, refl, ◌⊎◌, inl, inr, ℕ, zero, suc, ◌-◌, String, List, [], ◌∷◌, ◌++◌, length, ltb,
  if◌then◌else◌, Bool, true, false,
}
use nx_tinygrad.Errors.{Failure, Result, ok, protocol_error, ◌>>=◌}
use nx_tinygrad.Wire.Integers.{Bytes, pack, from_bytes}
use nx_tinygrad.Wire.{max_frame_bytes}

-- What a reader returns or raises; `eof` is Python's `None`. `out_of_fuel` is no outcome of the
-- program: the loop of `read_exact` ran out of rounds.
pub data Outcome : Type 0 where
  eof : Outcome
  bytes : Bytes → Outcome
  error : Failure → Outcome
  out_of_fuel : Outcome

abbrev pub raised : String → Outcome
raised m = error (record { error_class = protocol_error; message = m })

abbrev pub is_empty : Bytes → Bool
is_empty [] = true
is_empty (b ∷ bs) = false

-- The packet body, on what `read_exact` returned for it.
abbrev body_outcome : Outcome → Outcome
body_outcome eof = raised "truncated frame: EOF inside packet body"
body_outcome o = o

module _ {S : Type 0} (read : ℕ → S → Bytes × S) where
  -- The loop of `read_exact`, with fuel.
  unfoldable pub read_loop : ℕ → ℕ → Bytes → S → Outcome × S
  read_loop zero n buf s = if ltb (length buf) n then (out_of_fuel, s) else (bytes buf, s)
  read_loop (suc fuel) n buf s =
      let (chunk, s') = read (n - length buf) s in
      let more = read_loop fuel n (buf ++ chunk) s' in
      if ltb (length buf) n then (if is_empty chunk then (eof, s') else more) else (bytes buf, s)

  -- Each round takes a byte at least, so `n` rounds are enough.
  unfoldable pub read_exact : ℕ → S → Outcome × S
  read_exact n s = read_loop n n [] s

  read_body : ℕ → S → Outcome × S
  read_body len s =
      if ltb max_frame_bytes len
      then (raised "incoming frame too large", s)
      else let (o, s') = read_exact len s in (body_outcome o, s')

  on_header : Outcome → S → Outcome × S
  unfolding read_body
  on_header (bytes header) s = read_body (from_bytes header) s
  on_header o s = (o, s)

  unfoldable pub read_packet : S → Outcome × S
  unfolding on_header
  read_packet s = let (o, s') = read_exact 4 s in on_header o s'

-- What `write_packet` writes to the stream.
unfoldable pub write_packet : Bytes → Result Bytes
write_packet payload = do len ← pack 4 (length payload); ok (len ++ payload)

pub Outcome-cases :
    (o : Outcome)
    → ((payload : Bytes) × (o ≡ bytes payload))
      ⊎ ((o ≡ eof) ⊎ (((e : Failure) × (o ≡ error e)) ⊎ (o ≡ out_of_fuel)))
Outcome-cases (bytes payload) = inl (payload, refl)
Outcome-cases eof = inr (inl refl)
Outcome-cases (error e) = inr (inr (inl (e, refl)))
Outcome-cases out_of_fuel = inr (inr (inr refl))
