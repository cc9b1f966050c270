-- ===== src/Tests/Frames.antt =====
-- Frames and packets: a request with one blob, on a stream that holds its bytes in a list.
use nx_tinygrad.Base.{
  ℕ, zero, suc, ◌≤◌, ◌<◌, ◌≡◌, refl, ◌↔◌, Option, none, some, List, [], ◌∷◌, ◌++◌, arith, length,
  take, drop, All, take-append-drop, Bool, true, ◌&&◌, ltb, ltb→lt, ◌==◌, if◌then◌else◌,
}
use nx_tinygrad.Errors.{ok}
use nx_tinygrad.Json.{Value, object, end}
use nx_tinygrad.Wire.Integers.{Bytes, IsByte, pack, from_bytes}
use nx_tinygrad.Wire.Layout.{layout, Fits, encode_frame_iff}
use nx_tinygrad.Wire.Decode.{decode_frame-layout}
use nx_tinygrad.Wire.Sound.{IsFrameOf, decode_frame_sound}
use nx_tinygrad.Wire.{Request, decode_frame, encode_frame}
use nx_tinygrad.Packet.Stream.{IsStream, Meets, read_exact-Meets}
use nx_tinygrad.Packet.Framing.{packet_outcome, read_packet-eq, read_packet-write_packet}
use nx_tinygrad.Packet.{bytes, read_exact, read_packet, write_packet}

abbrev braces : Bytes
braces = b'{' ∷ b'}' ∷ []

unfoldable parse : Bytes → Option Value
parse (b ∷ c ∷ []) = if b == b'{' && c == b'}' then some (object end) else none
parse bs = none

abbrev print : Value → Bytes
print v = braces

abbrev some_blobs : List Bytes
some_blobs = (1 ∷ 2 ∷ 3 ∷ []) ∷ []

abbrev some_request : Request
some_request = record { req_id = 7; meta = end; blobs = some_blobs }

abbrev some_frame : Bytes
some_frame =
    b'X' ∷ b'T' ∷ b'G' ∷ b'1' ∷ 0 ∷ 0 ∷ 0 ∷ 0 ∷ 0 ∷ 0 ∷ 0 ∷ 7 ∷ 0 ∷ 0 ∷ 0 ∷ 2 ∷ 0 ∷ 1 ∷ 0 ∷ 0 ∷ 0
    ∷ 0 ∷ 0 ∷ 0 ∷ 0 ∷ 0 ∷ 0 ∷ 3 ∷ b'{' ∷ b'}' ∷ 1 ∷ 2 ∷ 3 ∷ []

some_frame-decode : decode_frame parse some_frame ≡ ok some_request
unfolding decode_frame parse from_bytes
some_frame-decode = refl

abbrev all_below : Bytes → Bool
all_below [] = true
all_below (b ∷ bs) = ltb b 256 && all_below bs

all_below-IsByte : (bs : Bytes) → all_below bs ≡ true → All IsByte bs
all_below-IsByte [] h = tt
all_below-IsByte (b ∷ bs) h = (ltb→lt b 256 (ground arith), all_below-IsByte bs (ground arith))

some_frame-bytes : All IsByte some_frame
some_frame-bytes = all_below-IsByte some_frame refl

some-Fits : Fits 7 braces some_blobs
some-Fits = record {
  id = omega arith;
  json_len = omega arith;
  blob_count = omega arith;
  lengths = (omega arith, tt);
}

decode_frame_sound_example : IsFrameOf parse some_request some_frame
decode_frame_sound_example =
    decode_frame_sound parse some_frame some_request some_frame-bytes some_frame-decode

parse-braces : parse braces ≡ some (object end)
unfolding parse
parse-braces = refl

decode_frame-layout_example :
    decode_frame parse (layout (0 ∷ 9 ∷ []) 7 braces some_blobs) ≡ ok some_request
decode_frame-layout_example =
    decode_frame-layout parse (0 ∷ 9 ∷ []) 7 braces end some_blobs refl some-Fits parse-braces

encode_frame_iff_example :
    (encode_frame print 7 end some_blobs ≡ ok some_frame)
    ↔ (Fits 7 braces some_blobs × (layout (0 ∷ 0 ∷ []) 7 braces some_blobs ≡ some_frame))
encode_frame_iff_example = encode_frame_iff print 7 end some_blobs some_frame

-- A stream that hands over at most two bytes at a time.
abbrev read_two : ℕ → Bytes → Bytes × Bytes
read_two zero s = ([], s)
read_two (suc zero) s = (take 1 s, drop 1 s)
read_two (suc (suc n)) s = (take 2 s, drop 2 s)

abbrev rest_of : Bytes → Bytes
rest_of s = s

read_two-IsStream : IsStream read_two rest_of
read_two-IsStream = record { front = front_two; at_most = at_most_two; progress = progress_two }
  where
    front_two : (n : ℕ) (s : Bytes) → (read_two n s).0 ++ rest_of (read_two n s).1 ≡ rest_of s
    front_two zero s = refl
    front_two (suc zero) s = take-append-drop 1 s
    front_two (suc (suc n)) s = take-append-drop 2 s

    at_most_two : (n : ℕ) (s : Bytes) → length (read_two n s).0 ≤ n
    at_most_two zero s = omega arith
    at_most_two (suc zero) [] = omega arith
    at_most_two (suc zero) (b ∷ s) = omega arith
    at_most_two (suc (suc n)) [] = omega arith
    at_most_two (suc (suc n)) (b ∷ []) = omega arith
    at_most_two (suc (suc n)) (b ∷ c ∷ s) = omega arith

    progress_two : (n : ℕ) (s : Bytes) → 0 < n → (read_two n s).0 ≡ [] → rest_of s ≡ []
    progress_two zero s h e = absurd (omega arith)
    progress_two (suc n) [] h e = refl
    progress_two (suc zero) (b ∷ s) h e = cc
    progress_two (suc (suc n)) (b ∷ s) h e = cc

read_exact-Meets_example :
    Meets 3 [] some_frame (read_exact read_two 3 some_frame).0 (read_exact read_two 3 some_frame).1
read_exact-Meets_example = read_exact-Meets read_two rest_of read_two-IsStream 3 some_frame

-- A packet of three bytes, with one more byte behind it.
abbrev some_packet : Bytes
some_packet = 0 ∷ 0 ∷ 0 ∷ 3 ∷ 1 ∷ 2 ∷ 3 ∷ []

read_packet-eq_example :
    (read_packet read_two (some_packet ++ (9 ∷ []))).0 ≡ packet_outcome (some_packet ++ (9 ∷ []))
read_packet-eq_example = read_packet-eq read_two rest_of read_two-IsStream (some_packet ++ (9 ∷ []))

some_packet-write : write_packet (1 ∷ 2 ∷ 3 ∷ []) ≡ ok some_packet
unfolding write_packet pack
some_packet-write = refl

read_packet-write_packet_example :
    ((read_packet read_two (some_packet ++ (9 ∷ []))).0 ≡ bytes (1 ∷ 2 ∷ 3 ∷ []))
    × ((read_packet read_two (some_packet ++ (9 ∷ []))).1 ≡ 9 ∷ [])
read_packet-write_packet_example =
    read_packet-write_packet read_two rest_of read_two-IsStream (1 ∷ 2 ∷ 3 ∷ []) (9 ∷ [])
      some_packet (some_packet ++ (9 ∷ [])) some_packet-write (omega arith) refl
