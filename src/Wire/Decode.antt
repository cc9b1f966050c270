-- ===== src/Wire/Decode.antt =====
-- `decode_frame` reads the layout back, and accepts nothing else.
use nx_tinygrad.Base.{
  ℕ, suc, ◌+◌, ◌*◌, ◌≡◌, refl, sym, Option, some, List, [], ◌∷◌, ◌++◌, map, append_assoc, arith,
  length, drop, All, length-append, leb, ◌==◌, ==_iff, ==_refl, true,
}
use nx_tinygrad.Errors.{ok}
use nx_tinygrad.Json.{Value, Fields, object}
use nx_tinygrad.Wire.Integers.{Bytes, to_bytes, length-to_bytes, from_bytes-to_bytes}
use nx_tinygrad.Wire.Cut.{bytes_at-eq, drop_behind}
use nx_tinygrad.Wire.Layout.{table, layout, length-layout, IsShort, Fits}
use nx_tinygrad.Wire.{
  magic, bytes_at, same_bytes, read_lengths, read_blobs, decode_body, decode_frame, join,
}

same_bytes_refl : (p : Bytes) → same_bytes p p ≡ true
unfolding same_bytes
same_bytes_refl [] = refl
same_bytes_refl (b ∷ p) = rw (==_refl b, same_bytes) (same_bytes_refl p)

pub same_bytes→eq : (p q : Bytes) → same_bytes p q ≡ true → p ≡ q
unfolding same_bytes
same_bytes→eq [] [] h = refl
same_bytes→eq (a ∷ p) (b ∷ q) h = ground (arith, same_bytes→eq p q)
same_bytes→eq [] (b ∷ q) h = cc
same_bytes→eq (a ∷ p) [] h = cc

read_lengths-table :
    (bs : List Bytes) (p : Bytes) (offset : ℕ) (rest : Bytes)
    → All IsShort bs
    → drop offset p ≡ table bs ++ rest
    → (read_lengths (length bs) p offset ≡ (map length bs, offset + 8 * length bs))
      × (drop (offset + 8 * length bs) p ≡ rest)
unfolding read_lengths table
read_lengths-table [] p offset rest h e =
    let same : offset + 0 ≡ offset = omega arith in rw same (refl, e)
read_lengths-table (b ∷ bs) p offset rest (hb, h) e =
    let split = rw append_assoc at e in
    let cut = bytes_at-eq p offset 8 _ _ split (length-to_bytes 8 (length b)) in
    let behind = drop_behind p offset 8 _ _ split (length-to_bytes 8 (length b)) in
    let (ih, ihd) = read_lengths-table bs p (offset + 8) rest h behind in
    let same : offset + 8 * suc (length bs) ≡ offset + 8 + 8 * length bs = omega arith in
    rw (same, ih, cut, from_bytes-to_bytes 8 (length b) hb) (refl, ihd)

read_blobs-join :
    (bs : List Bytes) (p : Bytes) (offset : ℕ)
    → drop offset p ≡ join bs
    → read_blobs (map length bs) p offset ≡ ok (bs, offset + length (join bs))
unfolding read_blobs join
read_blobs-join [] p offset e = let same : offset + 0 ≡ offset = omega arith in rw same
read_blobs-join (b ∷ bs) p offset e =
    let cut = bytes_at-eq p offset (length b) b (join bs) e refl in
    let behind = drop_behind p offset (length b) b (join bs) e refl in
    let same : offset + length (b ++ join bs) ≡ offset + length b + length (join bs) =
      omega (arith, length-append b (join bs)) in
    rw (cut, ==_refl (length b), read_blobs-join bs p (offset + length b) behind, same)

-- The pieces of the layout, by their offsets.
module _ (reserved : Bytes) (i : ℕ) (m : Bytes) (bs : List Bytes) (two : length reserved ≡ 2) where
  abbrev body : Bytes
  body = table bs ++ (m ++ join bs)

  abbrev after_id : Bytes
  after_id = to_bytes 4 (length m) ++ (to_bytes 2 (length bs) ++ (reserved ++ body))

  at_id : drop 4 (layout reserved i m bs) ≡ to_bytes 8 i ++ after_id
  unfolding layout
  at_id = refl

  at_json_len : drop 12 (layout reserved i m bs) ≡ after_id
  at_json_len = drop_behind (layout reserved i m bs) 4 8 _ _ at_id (length-to_bytes 8 i)

  at_blob_count : drop 16 (layout reserved i m bs) ≡ to_bytes 2 (length bs) ++ (reserved ++ body)
  at_blob_count =
      drop_behind (layout reserved i m bs) 12 4 _ _ at_json_len (length-to_bytes 4 (length m))

  at_body : drop 20 (layout reserved i m bs) ≡ body
  at_body =
      let p = layout reserved i m bs in
      let at_reserved = drop_behind p 16 2 _ _ at_blob_count (length-to_bytes 2 (length bs)) in
      drop_behind p 18 2 reserved body at_reserved two

  starts_with_magic : bytes_at (layout reserved i m bs) 0 4 ≡ magic
  unfolding layout bytes_at
  starts_with_magic = refl

module _ (loads : Bytes → Option Value) where
  decode_body-layout :
      (req_id : ℕ) (meta_bytes : Bytes) (meta : Fields) (blobs : List Bytes) (p : Bytes)
      → drop 20 p ≡ table blobs ++ (meta_bytes ++ join blobs)
      → length p ≡ 20 + 8 * length blobs + length meta_bytes + length (join blobs)
      → All IsShort blobs
      → loads meta_bytes ≡ some (object meta)
      → decode_body loads req_id (length meta_bytes) (length blobs) p
        ≡ ok (record { req_id = req_id; meta = meta; blobs = blobs })
  unfolding decode_body
  decode_body-layout req_id meta_bytes meta blobs p split long short parsed =
      let (lengths, at_meta) = read_lengths-table blobs p 20 _ short split in
      let offset = 20 + 8 * length blobs in
      let cut = bytes_at-eq p offset (length meta_bytes) meta_bytes _ at_meta refl in
      let at_blobs = drop_behind p offset (length meta_bytes) meta_bytes _ at_meta refl in
      let fit : leb (20 + length blobs * 8) (length p) ≡ true = rw long (ground arith) in
      let ended : (offset + length meta_bytes + length (join blobs) == length p) ≡ true =
        (==_iff _ _).1 (sym long) in
      rw (
        fit,
        lengths,
        cut,
        ==_refl (length meta_bytes),
        parsed,
        read_blobs-join blobs p (offset + length meta_bytes) at_blobs,
        ended,
      )

  -- Decoding a frame that follows the layout, where each number fits its field and the metadata
  -- bytes parse to an object, gives back its request id, metadata and blobs, whatever the two
  -- reserved bytes are.
  pub decode_frame-layout :
      (reserved : Bytes) (req_id : ℕ) (meta_bytes : Bytes) (meta : Fields) (blobs : List Bytes)
      → length reserved ≡ 2
      → Fits req_id meta_bytes blobs
      → loads meta_bytes ≡ some (object meta)
      → decode_frame loads (layout reserved req_id meta_bytes blobs)
        ≡ ok (record { req_id = req_id; meta = meta; blobs = blobs })
  unfolding decode_frame
  decode_frame-layout reserved req_id meta_bytes meta blobs two fits parsed =
      let p = layout reserved req_id meta_bytes blobs in
      let id =
        bytes_at-eq p 4 8 _ _ (at_id reserved req_id meta_bytes blobs two)
          (length-to_bytes 8 req_id) in
      let json_len =
        bytes_at-eq p 12 4 _ _ (at_json_len reserved req_id meta_bytes blobs two)
          (length-to_bytes 4 (length meta_bytes)) in
      let blob_count =
        bytes_at-eq p 16 2 _ _ (at_blob_count reserved req_id meta_bytes blobs two)
          (length-to_bytes 2 (length blobs)) in
      let long = length-layout reserved req_id meta_bytes blobs in
      let fit : leb 20 (length p) ≡ true = ground (arith, long) in
      rw
        (
          fit,
          starts_with_magic reserved req_id meta_bytes blobs two,
          id,
          json_len,
          blob_count,
          from_bytes-to_bytes 8 req_id fits.id,
          from_bytes-to_bytes 4 (length meta_bytes) fits.json_len,
          from_bytes-to_bytes 2 (length blobs) fits.blob_count,
        )
        (unfold same_bytes in
          decode_body-layout req_id meta_bytes meta blobs p
            (at_body reserved req_id meta_bytes blobs two) (omega (arith, long)) fits.lengths
            parsed)
