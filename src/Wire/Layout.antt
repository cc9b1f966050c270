-- ===== src/Wire/Layout.antt =====
-- The frame as one list of bytes, and what `encode_frame` writes.
use nx_tinygrad.Base.{
  ℕ, ◌+◌, ◌*◌, ◌^◌, ◌<◌, ◌≡◌, refl, ◌↔◌, List, [], ◌∷◌, ◌++◌, arith, length, All, length-append,
  lt→ltb, ltb→lt, ltb, Bool-cases, inl, inr,
}
use nx_tinygrad.Errors.{ok, >>=-eq-ok}
use nx_tinygrad.Json.{Value, Fields, object}
use nx_tinygrad.Wire.Integers.{Bytes, to_bytes, pack, length-to_bytes}
use nx_tinygrad.Wire.{magic, pack_lengths, join, encode_frame}

-- The length table.
unfoldable pub table : List Bytes → Bytes
table [] = []
table (b ∷ bs) = to_bytes 8 (length b) ++ table bs

unfoldable pub layout : Bytes → ℕ → Bytes → List Bytes → Bytes
layout reserved req_id meta_bytes blobs =
    magic
    ++ (to_bytes 8 req_id
        ++ (to_bytes 4 (length meta_bytes)
            ++ (to_bytes 2 (length blobs)
                ++ (reserved ++ (table blobs ++ (meta_bytes ++ join blobs))))))

abbrev pub IsShort : Bytes → Type 0
IsShort b = length b < 256 ^ 8

-- Every number of the frame fits its field.
pub record Fits (req_id : ℕ) (meta_bytes : Bytes) (blobs : List Bytes) : Type 0 where
  pub id : req_id < 256 ^ 8
  pub json_len : length meta_bytes < 256 ^ 4
  pub blob_count : length blobs < 256 ^ 2
  pub lengths : All IsShort blobs

pub length-table : (bs : List Bytes) → length (table bs) ≡ 8 * length bs
unfolding table
length-table [] = refl
length-table (b ∷ bs) = omega (
  arith,
  length-append (to_bytes 8 (length b)) (table bs),
  length-to_bytes 8 (length b),
  length-table bs,
)

pub length-layout :
    (r : Bytes) (i : ℕ) (m : Bytes) (bs : List Bytes)
    → length (layout r i m bs) ≡ 18 + length r + 8 * length bs + length m + length (join bs)
unfolding layout
length-layout r i m bs = simp (length-append, length-to_bytes, length-table) (omega arith)

pub pack-eq-ok : (w n : ℕ) {b : Bytes} → pack w n ≡ ok b → (n < 256 ^ w) × (b ≡ to_bytes w n)
unfolding pack
pack-eq-ok w n h = elim (Bool-cases (ltb n (256 ^ w))) [
  | inl t ↦ (ltb→lt n (256 ^ w) t, ground arith)
  | inr f ↦ cc (rw f at h)
]

pack_fits : (w n : ℕ) → n < 256 ^ w → pack w n ≡ ok (to_bytes w n)
unfolding pack
pack_fits w n h = rw (lt→ltb n (256 ^ w) h)

pack_lengths-fits : (bs : List Bytes) → All IsShort bs → pack_lengths bs ≡ ok (table bs)
unfolding pack_lengths table
pack_lengths-fits [] h = refl
pack_lengths-fits (b ∷ bs) (hb, h) = rw (pack_fits 8 (length b) hb, pack_lengths-fits bs h)

pack_lengths-eq-ok :
    (bs : List Bytes) {t : Bytes} → pack_lengths bs ≡ ok t → All IsShort bs × (t ≡ table bs)
unfolding pack_lengths table
pack_lengths-eq-ok [] h = (tt, cc)
pack_lengths-eq-ok (b ∷ bs) h =
    let (l, el, h1) = >>=-eq-ok (pack 8 (length b)) _ h in
    let (r, er, h2) = >>=-eq-ok (pack_lengths bs) _ h1 in
    let (lt, e) = pack-eq-ok 8 (length b) el in
    let (all, e') = pack_lengths-eq-ok bs er in ((lt, all), cc (h2, e, e'))

module _ (dumps : Value → Bytes) (req_id : ℕ) (meta : Fields) (blobs : List Bytes) where
  encode_frame-Fits :
      Fits req_id (dumps (object meta)) blobs
      → encode_frame dumps req_id meta blobs
        ≡ ok (layout (0 ∷ 0 ∷ []) req_id (dumps (object meta)) blobs)
  unfolding encode_frame layout
  encode_frame-Fits h = rw (
    pack_fits 8 req_id h.id,
    pack_fits 4 (length (dumps (object meta))) h.json_len,
    pack_fits 2 (length blobs) h.blob_count,
    pack_lengths-fits blobs h.lengths,
  )

  encode_frame-eq-ok :
      {p : Bytes}
      → encode_frame dumps req_id meta blobs ≡ ok p
      → Fits req_id (dumps (object meta)) blobs
  unfolding encode_frame
  encode_frame-eq-ok h =
      let (_, e1, h1) = >>=-eq-ok (pack 8 req_id) _ h in
      let (_, e2, h2) = >>=-eq-ok (pack 4 (length (dumps (object meta)))) _ h1 in
      let (_, e3, h3) = >>=-eq-ok (pack 2 (length blobs)) _ h2 in
      let (_, e4, h4) = >>=-eq-ok (pack_lengths blobs) _ h3 in
      record {
        id = (pack-eq-ok 8 req_id e1).0;
        json_len = (pack-eq-ok 4 (length (dumps (object meta))) e2).0;
        blob_count = (pack-eq-ok 2 (length blobs) e3).0;
        lengths = (pack_lengths-eq-ok blobs e4).0;
      }

  -- `encode_frame` returns a frame exactly when each number fits its field, and then the frame
  -- is the documented layout with zero reserved bytes.
  pub encode_frame_iff :
      (p : Bytes)
      → (encode_frame dumps req_id meta blobs ≡ ok p) ↔ (
          Fits req_id (dumps (object meta)) blobs
          × (layout (0 ∷ 0 ∷ []) req_id (dumps (object meta)) blobs ≡ p))
  encode_frame_iff p = (
    λ h. let fits = encode_frame-eq-ok h in (fits, cc (encode_frame-Fits fits, h)),
    λ h. cc (encode_frame-Fits h.0, h.1),
  )
