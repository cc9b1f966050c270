-- ===== src/Packet/Framing.antt =====
-- `read_packet` as a function of the bytes to come, and packets written and read back.
use nx_tinygrad.Base.{
  ℕ, ◌^◌, ◌≤◌, ◌<◌, ◌≡◌, refl, sym, ap, ◌∙◌, [], ◌++◌, arith, ◌≢◌, length-drop, length, take, drop,
  ltb, if◌then◌else◌, Bool-cases, inl, inr, length-append, append_assoc, take-append, drop-append,
  le→ltb, not-ltb→le,
}
use nx_tinygrad.Errors.{ok, >>=-eq-ok, ok_inj}
use nx_tinygrad.Wire.Layout.{pack-eq-ok}
use nx_tinygrad.Wire.Integers.{
  Bytes, from_bytes, pack, to_bytes, length-to_bytes, from_bytes-to_bytes,
}
use nx_tinygrad.Wire.{max_frame_bytes}
use nx_tinygrad.Packet.Stream.{IsStream, exact_outcome, read_exact-Meets}
use nx_tinygrad.Packet.{
  Outcome, eof, bytes, out_of_fuel, raised, read_exact, read_packet, on_header, read_body,
  write_packet, body_outcome,
}

-- What the packet body makes of the bytes behind the length prefix.
body_spec : ℕ → Bytes → Outcome
body_spec len ys =
    if ltb max_frame_bytes len
    then raised "incoming frame too large"
    else if ltb (length ys) len
    then raised "truncated frame: EOF inside packet body"
    else bytes (take len ys)

-- What `read_packet` makes of the bytes still to come.
unfoldable pub packet_outcome : Bytes → Outcome
unfolding body_spec
packet_outcome xs =
    if ltb (length xs) 4 then eof else body_spec (from_bytes (take 4 xs)) (drop 4 xs)

body_outcome-exact :
    (len : ℕ) (ys : Bytes)
    → body_outcome (exact_outcome len [] ys) ≡ (
        if ltb (length ys) len
        then raised "truncated frame: EOF inside packet body"
        else bytes (take len ys))
body_outcome-exact len ys = elim (Bool-cases (ltb (length ys) len)) [
  | inl short ↦ rw short
  | inr long ↦ rw long
]

module _ {S : Type 0} (read : ℕ → S → Bytes × S) (remaining : S → Bytes)
    (stream : IsStream read remaining) where
  read_body-eq : (len : ℕ) (s : S) → (read_body read len s).0 ≡ body_spec len (remaining s)
  unfolding read_body body_spec
  read_body-eq len s = elim (Bool-cases (ltb max_frame_bytes len)) [
    | inl large ↦ rw large
    | inr fits ↦
        rw (fits, (read_exact-Meets read remaining stream len s).0)
          (body_outcome-exact len (remaining s))
  ]

  read_body-rest :
      (len : ℕ) (s : S)
      → len ≤ max_frame_bytes
      → len ≤ length (remaining s)
      → remaining (read_body read len s).1 ≡ drop len (remaining s)
  unfolding read_body
  read_body-rest len s h l =
      rw (le→ltb max_frame_bytes len h) ((read_exact-Meets read remaining stream len s).1 l)

  -- On a stream that keeps the contract of `read`, the outcome of `read_packet` is a function
  -- of the bytes still to come, and does not depend on the portions in which `read` hands them
  -- over: `eof` below four bytes, the two errors, or the packet body.
  pub read_packet-eq : (s : S) → (read_packet read s).0 ≡ packet_outcome (remaining s)
  unfolding read_packet packet_outcome on_header
  read_packet-eq s =
      let (e4, r4) = read_exact-Meets read remaining stream 4 s in
      elim (Bool-cases (ltb (length (remaining s)) 4)) [
        | inl short ↦ rw (e4, on_header, short)
        | inr long ↦
            rw (e4, on_header, long, read_body-eq)
              (ap (body_spec (from_bytes (take 4 (remaining s)))) (r4 (not-ltb→le _ 4 long)))
      ]

  read_packet-step :
      (s : S)
      → 4 ≤ length (remaining s)
      → (read_packet read s)
        ≡ read_body read (from_bytes (take 4 (remaining s))) (read_exact read 4 s).1
  unfolding read_packet on_header
  read_packet-step s l =
      let (e4, r4) = read_exact-Meets read remaining stream 4 s in
      rw (e4, on_header, le→ltb (length (remaining s)) 4 l)

body_spec-append :
    (payload rest : Bytes)
    → length payload ≤ max_frame_bytes
    → body_spec (length payload) (payload ++ rest) ≡ bytes payload
unfolding body_spec
body_spec-append payload rest h = rw (
  le→ltb max_frame_bytes (length payload) h,
  le→ltb (length (payload ++ rest)) (length payload) (omega (arith, length-append payload rest)),
  take-append (length payload) payload rest refl,
)

write_packet-eq-ok :
    (payload : Bytes) {w : Bytes}
    → write_packet payload ≡ ok w
    → (length payload < 256 ^ 4) × (w ≡ to_bytes 4 (length payload) ++ payload)
unfolding write_packet
write_packet-eq-ok payload h =
    let (l, e, h1) = >>=-eq-ok (pack 4 (length payload)) _ h in
    let (lt, l_eq) = pack-eq-ok 4 (length payload) e in
    (lt, sym (ok_inj h1) ∙ ap (λ (t : Bytes). t ++ payload) l_eq)

module _ {S : Type 0} (read : ℕ → S → Bytes × S) (remaining : S → Bytes)
    (stream : IsStream read remaining) where
  -- A written packet of at most `MAX_FRAME_BYTES` is read back whole, from a stream that keeps
  -- the contract of `read`, with whatever follows it left on the stream.
  pub read_packet-write_packet :
      (payload rest w : Bytes) (s : S)
      → write_packet payload ≡ ok w
      → length payload ≤ max_frame_bytes
      → remaining s ≡ w ++ rest
      → ((read_packet read s).0 ≡ bytes payload) × (remaining (read_packet read s).1 ≡ rest)
  read_packet-write_packet payload rest w s written small e =
      let (fits, w_eq) = write_packet-eq-ok payload written in
      let header = to_bytes 4 (length payload) in
      let four = length-to_bytes 4 (length payload) in
      let to_come : remaining s ≡ header ++ (payload ++ rest) =
        e ∙ ap (λ (t : Bytes). t ++ rest) w_eq ∙ append_assoc header payload rest in
      let len : from_bytes (take 4 (remaining s)) ≡ length payload =
        rw (to_come, take-append 4 header (payload ++ rest) four)
          (from_bytes-to_bytes 4 (length payload) fits) in
      let behind : drop 4 (remaining s) ≡ payload ++ rest =
        rw to_come (drop-append 4 header (payload ++ rest) four) in
      let whole = length-append payload rest in
      let long : 4 ≤ length (remaining s) =
        rw to_come (omega (arith, length-append header (payload ++ rest), four)) in
      let left = (read_exact-Meets read remaining stream 4 s).1 long ∙ behind in
      (
        read_packet-eq read remaining stream s
            ∙ unfold packet_outcome in
              rw (le→ltb _ 4 long, len, behind) (body_spec-append payload rest small),
        rw (read_packet-step read remaining stream s long, len)
            (read_body-rest read remaining stream (length payload) _ small
                (rw left (omega (arith, whole)))
              ∙ rw left (drop-append (length payload) payload rest refl)),
      )

module _ {S : Type 0} (read : ℕ → S → Bytes × S) (remaining : S → Bytes)
    (stream : IsStream read remaining) where
  body_spec-fits :
      (len : ℕ) (ys payload : Bytes)
      → body_spec len ys ≡ bytes payload
      → (len ≤ max_frame_bytes) × (len ≤ length ys)
  unfolding body_spec
  body_spec-fits len ys payload h = elim (Bool-cases (ltb max_frame_bytes len)) [
    | inl large ↦ cc (rw large at h)
    | inr fits ↦ elim (Bool-cases (ltb (length ys) len)) [
      | inl short ↦ cc (rw (fits, short) at h)
      | inr long ↦ (not-ltb→le max_frame_bytes len fits, not-ltb→le (length ys) len long)
    ]
  ]

  -- A packet that was read leaves less on the stream.
  pub read_packet-shrinks :
      (s : S) (payload : Bytes)
      → (read_packet read s).0 ≡ bytes payload
      → length (remaining (read_packet read s).1) < length (remaining s)
  unfolding packet_outcome
  read_packet-shrinks s payload h =
      let xs = remaining s in
      let h' = sym (read_packet-eq read remaining stream s) ∙ h in
      elim (Bool-cases (ltb (length xs) 4)) [
        | inl short ↦ cc (rw short at h')
        | inr more ↦
            let four = not-ltb→le (length xs) 4 more in
            let (small, long) =
              body_spec-fits (from_bytes (take 4 xs)) (drop 4 xs) payload (rw more at h') in
            let left = (read_exact-Meets read remaining stream 4 s).1 four in
            rw
              (
                read_packet-step read remaining stream s four,
                read_body-rest read remaining stream (from_bytes (take 4 xs))
                    (read_exact read 4 s).1 small (rw left long),
                left,
              )
              (omega (arith, length-drop (from_bytes (take 4 xs)) (drop 4 xs), length-drop 4 xs))
      ]

  -- `read_packet` never runs out of rounds.
  pub read_packet-ends : (s : S) → (read_packet read s).0 ≢ out_of_fuel
  unfolding packet_outcome body_spec
  read_packet-ends s h = let h' = sym (read_packet-eq read remaining stream s) ∙ h in ground arith
