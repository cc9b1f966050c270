-- ===== src/Wire.antt =====
-- priv/worker/protocol.py: the XTG1 frame inside each packet. Python's `json` is the pair of
-- functions `loads` (with the UTF-8 decoding; `none` for a `ValueError`) and `dumps` (with the
-- encoding).
pub mod Integers
mod Cut
pub mod Layout
pub mod Decode
pub mod Sound
use nx_tinygrad.Base.{
  ℕ, zero, suc, ◌+◌, ◌*◌, ◌^◌, Option, none, some, List, [], ◌∷◌, ◌++◌, length, take, drop, leb,
  ◌==◌, Bool, true, false,
}
use nx_tinygrad.Errors.{Result, ok, raise, fail, guard, protocol_error, ◌>>=◌, ◌>>◌}
use nx_tinygrad.Json.{Value, Fields, object}
use Integers.{Bytes, pack, from_bytes}

abbrev pub magic : Bytes
magic = b'X' ∷ b'T' ∷ b'G' ∷ b'1' ∷ []

-- `_HEADER.size`
abbrev pub header_size : ℕ
header_size = 20

abbrev pub max_frame_bytes : ℕ
max_frame_bytes = 2 * 1024 * 1024 * 1024

-- What `decode_frame` returns.
pub record Request : Type 0 where
  pub req_id : ℕ
  pub meta : Fields
  pub blobs : List Bytes

-- `payload[offset : offset + n]`
unfoldable pub bytes_at : Bytes → ℕ → ℕ → Bytes
bytes_at payload offset n = take n (drop offset payload)

pub same_bytes : Bytes → Bytes → Bool
same_bytes [] [] = true
same_bytes (a ∷ as') (b ∷ bs) = elim (a == b) [ true ↦ same_bytes as' bs | false ↦ false ]
same_bytes _ _ = false

-- The loop over the blob length table: the lengths, and the offset behind them.
unfoldable pub read_lengths : ℕ → Bytes → ℕ → List ℕ × ℕ
unfolding bytes_at
read_lengths zero payload offset = ([], offset)
read_lengths (suc n) payload offset =
    let (rest, end) = read_lengths n payload (offset + 8) in
    (from_bytes (bytes_at payload offset 8) ∷ rest, end)

-- The loop that cuts the blobs out.
unfoldable pub read_blobs : List ℕ → Bytes → ℕ → Result (List Bytes × ℕ)
unfolding bytes_at
read_blobs [] payload offset = ok ([], offset)
read_blobs (blen ∷ rest) payload offset = do
  let blob = bytes_at payload offset blen
  guard (length blob == blen) protocol_error "truncated blob"
  (blobs, end) ← read_blobs rest payload (offset + blen)
  ok (blob ∷ blobs, end)

-- `isinstance(meta, dict)`
as_object : Option Value → Result Fields
as_object none = fail protocol_error "invalid JSON metadata"
as_object (some (object d)) = ok d
as_object (some _) = fail protocol_error "metadata must be a JSON object"

module _ (loads : Bytes → Option Value) where
  -- What follows the header.
  decode_body : ℕ → ℕ → ℕ → Bytes → Result Request
  unfolding read_lengths read_blobs as_object
  decode_body req_id json_len blob_count payload = do
    guard (leb (header_size + blob_count * 8) (length payload)) protocol_error
        "truncated blob length table"
    let table = read_lengths blob_count payload header_size
    let meta_bytes = bytes_at payload table.1 json_len
    guard (length meta_bytes == json_len) protocol_error "truncated metadata"
    meta ← as_object (loads meta_bytes)
    (blobs, end) ← read_blobs table.0 payload (table.1 + json_len)
    guard (end == length payload) protocol_error "trailing bytes after frame"
    ok (record { req_id = req_id; meta = meta; blobs = blobs })

  unfoldable pub decode_frame : Bytes → Result Request
  unfolding decode_body same_bytes
  decode_frame payload = do
    guard (leb header_size (length payload)) protocol_error "frame shorter than header"
    guard (same_bytes (bytes_at payload 0 4) magic) protocol_error "bad magic"
    decode_body (from_bytes (bytes_at payload 4 8)) (from_bytes (bytes_at payload 12 4))
        (from_bytes (bytes_at payload 16 2)) payload

-- `[struct.pack(">Q", len(b)) for b in blobs]`, joined
unfoldable pub pack_lengths : List Bytes → Result Bytes
pack_lengths [] = ok []
pack_lengths (b ∷ bs) = do l ← pack 8 (length b); rest ← pack_lengths bs; ok (l ++ rest)

unfoldable pub join : List Bytes → Bytes
join [] = []
join (b ∷ bs) = b ++ join bs

unfoldable pub encode_frame : (Value → Bytes) → ℕ → Fields → List Bytes → Result Bytes
unfolding pack_lengths join
encode_frame dumps req_id meta blobs = do
  let meta_bytes = dumps (object meta)
  id ← pack 8 req_id
  json_len ← pack 4 (length meta_bytes)
  blob_count ← pack 2 (length blobs)
  lengths ← pack_lengths blobs
  ok (
      magic
      ++ (id ++ (json_len ++ (blob_count ++ (0 ∷ 0 ∷ (lengths ++ (meta_bytes ++ join blobs)))))))
