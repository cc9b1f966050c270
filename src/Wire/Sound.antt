-- ===== src/Wire/Sound.antt =====
-- What an accepted payload looks like: it is the layout of what `decode_frame` returns.
use nx_tinygrad.Base.{
  ℕ, zero, suc, ◌+◌, ◌*◌, ◌^◌, ◌≤◌, ◌<◌, ◌≡◌, refl, sym, ◌∙◌, ap, subst, Option, none, some, List,
  [], ◌∷◌, ◌++◌, map, append_assoc, append-nil, arith, length, drop, All, length-append, length-map,
  drop_all, leb, leb→le, ◌==◌, ==_iff,
}
use nx_tinygrad.Errors.{ok, protocol_error, >>=-eq-ok, guard-eq-ok, ok_inj}
use nx_tinygrad.Json.{Value, Fields, object}
use nx_tinygrad.Wire.Integers.{
  Bytes, IsByte, to_bytes, from_bytes, to_bytes-from_bytes, from_bytes-lt,
}
use nx_tinygrad.Wire.Cut.{bytes_at-append-drop, length-bytes_at, bytes_at-IsByte}
use nx_tinygrad.Wire.Layout.{table, layout, IsShort, Fits}
use nx_tinygrad.Wire.Decode.{same_bytes→eq}
use nx_tinygrad.Wire.{
  magic, Request, bytes_at, same_bytes, read_lengths, read_blobs, as_object, decode_body,
  decode_frame, join,
}

as_object-eq-ok : (o : Option Value) {d : Fields} → as_object o ≡ ok d → o ≡ some (object d)
unfolding as_object
as_object-eq-ok none h = cc
as_object-eq-ok (some (object d)) h = cc
as_object-eq-ok (some v) h = ground arith

-- An integer field of `w` bytes, read back as bytes.
field_bytes :
    (p : Bytes) (offset w : ℕ)
    → All IsByte p
    → offset + w ≤ length p
    → (to_bytes w (from_bytes (bytes_at p offset w)) ≡ bytes_at p offset w)
      × (from_bytes (bytes_at p offset w) < 256 ^ w)
field_bytes p offset w h long =
    let n = length-bytes_at p offset w long in
    let bytes = bytes_at-IsByte p offset w h in
    (
      rw n at (to_bytes-from_bytes (bytes_at p offset w) bytes),
      rw n at (from_bytes-lt (bytes_at p offset w) bytes),
    )

read_lengths_end : (n : ℕ) (p : Bytes) (offset : ℕ) → (read_lengths n p offset).1 ≡ offset + 8 * n
unfolding read_lengths
read_lengths_end zero p offset = omega arith
read_lengths_end (suc n) p offset = omega (arith, read_lengths_end n p (offset + 8))

read_lengths_count : (n : ℕ) (p : Bytes) (offset : ℕ) → length (read_lengths n p offset).0 ≡ n
unfolding read_lengths
read_lengths_count zero p offset = refl
read_lengths_count (suc n) p offset = ap suc (read_lengths_count n p (offset + 8))

-- If the blobs have the lengths that were read, then the bytes read are the blobs' table.
read_lengths_sound :
    (n : ℕ) (p : Bytes) (offset : ℕ) (bs : List Bytes)
    → All IsByte p
    → offset + 8 * n ≤ length p
    → map length bs ≡ (read_lengths n p offset).0
    → All IsShort bs × (table bs ++ drop (offset + 8 * n) p ≡ drop offset p)
unfolding read_lengths table
read_lengths_sound zero p offset [] h long e =
    let same : offset + 0 ≡ offset = omega arith in (tt, rw same)
read_lengths_sound zero p offset (b ∷ bs) h long e = cc
read_lengths_sound (suc n) p offset [] h long e = cc
read_lengths_sound (suc n) p offset (b ∷ bs) h long e =
    let (bytes, short) = field_bytes p offset 8 h (omega arith) in
    let here : length b ≡ from_bytes (bytes_at p offset 8) = cc in
    let (all, ih) = read_lengths_sound n p (offset + 8) bs h (omega arith) (cc) in
    let same : offset + 8 * suc n ≡ offset + 8 + 8 * n = omega arith in
    (
      (rw here short, all),
      rw (same, here, bytes, append_assoc, ih) (bytes_at-append-drop p offset 8),
    )

-- The blobs `r.0` fill the payload from `offset` to `r.1`.
abbrev Cuts : List ℕ → Bytes → ℕ → List Bytes × ℕ → Type 0
Cuts ls p offset r =
    (map length r.0 ≡ ls)
    × (r.1 ≡ offset + length (join r.0))
    × (join r.0 ++ drop r.1 p ≡ drop offset p)

read_blobs_sound :
    (ls : List ℕ) (p : Bytes) (offset : ℕ) (r : List Bytes × ℕ)
    → read_blobs ls p offset ≡ ok r
    → Cuts ls p offset r
unfolding read_blobs join
read_blobs_sound [] p offset r h = subst (Cuts [] p offset) (ok_inj h) (refl, omega arith, refl)
read_blobs_sound (l ∷ ls) p offset r h =
    let (fit, h1) =
      guard-eq-ok (length (bytes_at p offset l) == l) protocol_error "truncated blob" _ h in
    let (q, e, h2) = >>=-eq-ok (read_blobs ls p (offset + l)) _ h1 in
    let (lengths, ended, filled) = read_blobs_sound ls p (offset + l) q e in
    let whole : length (bytes_at p offset l) ≡ l = (==_iff _ l).0 fit in
    subst (Cuts (l ∷ ls) p offset) (ok_inj h2) (
      cc (whole, lengths),
      omega (arith, ended, whole, length-append (bytes_at p offset l) (join q.0)),
      rw (append_assoc, filled) (bytes_at-append-drop p offset l),
    )

abbrev lengths_of : ℕ → Bytes → List ℕ
lengths_of blob_count p = (read_lengths blob_count p 20).0

abbrev meta_at : ℕ → ℕ → Bytes → Bytes
meta_at json_len blob_count p = bytes_at p (20 + 8 * blob_count) json_len

-- What the tests of `decode_body` passed on, for the metadata `meta` and the blobs `r`.
record Accepted (json_len blob_count : ℕ) (p : Bytes) (o : Option Value) (meta : Fields)
    (r : List Bytes × ℕ) : Type 0 where
  long : 20 + blob_count * 8 ≤ length p
  whole : length (meta_at json_len blob_count p) ≡ json_len
  parsed : o ≡ some (object meta)
  cuts : Cuts (lengths_of blob_count p) p (20 + 8 * blob_count + json_len) r
  ended : r.1 ≡ length p

module _ (loads : Bytes → Option Value) where
  decode_body-eq-ok :
      (req_id json_len blob_count : ℕ) (p : Bytes) {f : Request}
      → decode_body loads req_id json_len blob_count p ≡ ok f
      → (meta : Fields) × (r : List Bytes × ℕ) × Accepted json_len blob_count p
          (loads (meta_at json_len blob_count p))
          meta
          r
        × (record { req_id = req_id; meta = meta; blobs = r.0 } ≡ f)
  unfolding decode_body
  decode_body-eq-ok req_id json_len blob_count p h =
      let h0 = rw (read_lengths_end blob_count p 20) at h in
      let (long, h1) = guard-eq-ok (leb (20 + blob_count * 8) (length p)) _ _ _ h0 in
      let (whole, h2) = guard-eq-ok (length (meta_at json_len blob_count p) == json_len) _ _ _ h1 in
      let (meta, e3, h3) = >>=-eq-ok (as_object (loads (meta_at json_len blob_count p))) _ h2 in
      let (r, e4, h4) =
        >>=-eq-ok (read_blobs (lengths_of blob_count p) p (20 + 8 * blob_count + json_len)) _ h3 in
      let (ended, h5) = guard-eq-ok (r.1 == length p) _ _ _ h4 in
      (
        meta,
        r,
        record {
          long = leb→le _ _ long;
          whole = (==_iff _ json_len).0 whole;
          parsed = as_object-eq-ok _ e3;
          cuts = read_blobs_sound _ p _ r e4;
          ended = (==_iff r.1 _).0 ended;
        },
        ok_inj h5,
      )

module _ {json_len blob_count : ℕ} {p : Bytes} {o : Option Value} {meta : Fields}
    {r : List Bytes × ℕ} (bytes : All IsByte p) (a : Accepted json_len blob_count p o meta r) where
  blobs_count : length r.0 ≡ blob_count
  blobs_count =
      sym (length-map length r.0) ∙ ap length a.cuts.0 ∙ read_lengths_count blob_count p 20

  body-eq : All IsShort r.0 × (table r.0 ++ (meta_at json_len blob_count p ++ join r.0) ≡ drop 20 p)
  body-eq =
      let (short, tabled) =
        read_lengths_sound blob_count p 20 r.0 bytes (omega (arith, a.long)) a.cuts.0 in
      let nothing : drop r.1 p ≡ [] = drop_all r.1 p (omega (arith, a.ended)) in
      let filled = a.cuts.2 in
      let after : join r.0 ≡ drop (20 + 8 * blob_count + json_len) p =
        sym (append-nil (join r.0)) ∙ ap (λ (t : Bytes). join r.0 ++ t) (sym nothing) ∙ filled in
      (short, rw (after, bytes_at-append-drop p (20 + 8 * blob_count) json_len) tabled)

-- The header, field by field.
header-eq :
    (p : Bytes)
    → magic ≡ bytes_at p 0 4
    → magic
        ++ (bytes_at p 4 8
            ++ (bytes_at p 12 4 ++ (bytes_at p 16 2 ++ (bytes_at p 18 2 ++ drop 20 p))))
      ≡ p
header-eq p m =
    rw
      (
        bytes_at-append-drop p 18 2,
        bytes_at-append-drop p 16 2,
        bytes_at-append-drop p 12 4,
        bytes_at-append-drop p 4 8,
      )
      (ap (λ (t : Bytes). t ++ drop 4 p) m ∙ bytes_at-append-drop p 0 4)

-- A payload is the layout of a request, with some metadata bytes and reserved bytes.
pub record IsFrameOf (loads : Bytes → Option Value) (f : Request) (p : Bytes) : Type 0 where
  pub reserved : Bytes
  pub meta_bytes : Bytes
  pub two : length reserved ≡ 2
  pub parsed : loads meta_bytes ≡ some (object f.meta)
  pub fits : Fits f.req_id meta_bytes f.blobs
  pub frame : layout reserved f.req_id meta_bytes f.blobs ≡ p

module _ (loads : Bytes → Option Value) where
  -- Every payload of bytes that `decode_frame` accepts is, byte for byte, the layout of the
  -- request that it returns: the id, the lengths and the blobs are read from their fields, the
  -- metadata bytes parse to the metadata, and nothing is left over.
  pub decode_frame_sound :
      (p : Bytes) (f : Request) → All IsByte p → decode_frame loads p ≡ ok f → IsFrameOf loads f p
  unfolding decode_frame layout
  decode_frame_sound p f bytes h =
      let (long, h1) = guard-eq-ok (leb 20 (length p)) _ _ _ h in
      let (good, h2) = guard-eq-ok (same_bytes (bytes_at p 0 4) magic) _ _ _ h1 in
      let enough = leb→le 20 (length p) long in
      let (id_bytes, id_fits) = field_bytes p 4 8 bytes (omega arith) in
      let (len_bytes, len_fits) = field_bytes p 12 4 bytes (omega arith) in
      let (count_bytes, count_fits) = field_bytes p 16 2 bytes (omega arith) in
      let (meta, r, a, e) = decode_body-eq-ok loads _ _ _ p h2 in
      let (short, body) = body-eq bytes a in
      subst (λ g. IsFrameOf loads g p) e
        (record {
          reserved = bytes_at p 18 2;
          meta_bytes = _;
          two = length-bytes_at p 18 2 enough;
          parsed = a.parsed;
          fits = record {
            id = id_fits;
            json_len = rw a.whole len_fits;
            blob_count = rw (blobs_count bytes a) count_fits;
            lengths = short;
          };
          frame =
              rw (a.whole, blobs_count bytes a, id_bytes, len_bytes, count_bytes, body)
                (header-eq p (sym (same_bytes→eq _ _ good)));
        })
