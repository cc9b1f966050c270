-- ===== src/Ops/Complex/Divides.antt =====
-- Complex division against complex multiplication, in exact arithmetic.
use nx_tinygrad.Base.{ℕ, ◌≡◌, refl, sym, ap, ap₂, ◌∙◌, String, List, [], ◌∷◌}
use nx_tinygrad.Errors.{Result, ok}
use nx_tinygrad.Ops.Dispatch.{Operand, cx}
use nx_tinygrad.Ops.Elementwise.{Calls}
use nx_tinygrad.Ops.Complex.{
  Components, cxt, promote, nth_input, multiply_parts, divide_parts, norm, of_two, apply_complex,
}

module _ {T : Type 0} (calls : Calls T) (parts : Components T) (s : List ℕ) where
  -- A tensor of the shape `s`, for which nothing is broadcast.
  abbrev pub Shaped : Type 0
  Shaped = (t : T) × (parts.shape t ≡ s)

  -- What `+`, `-` and `*` satisfy on exact numbers, elementwise.
  pub record ExactCalls : Type 0 where
    pub shape-add : (x y : Shaped) → parts.shape (calls.add x.0 y.0) ≡ s
    pub shape-sub : (x y : Shaped) → parts.shape (calls.sub x.0 y.0) ≡ s
    pub shape-mul : (x y : Shaped) → parts.shape (calls.mul x.0 y.0) ≡ s
    pub add_assoc :
        (x y z : Shaped) → calls.add (calls.add x.0 y.0) z.0 ≡ calls.add x.0 (calls.add y.0 z.0)
    pub add_comm : (x y : Shaped) → calls.add x.0 y.0 ≡ calls.add y.0 x.0
    pub mul_assoc :
        (x y z : Shaped) → calls.mul (calls.mul x.0 y.0) z.0 ≡ calls.mul x.0 (calls.mul y.0 z.0)
    pub mul_comm : (x y : Shaped) → calls.mul x.0 y.0 ≡ calls.mul y.0 x.0
    pub mul-add :
        (x y z : Shaped)
        → calls.mul x.0 (calls.add y.0 z.0) ≡ calls.add (calls.mul x.0 y.0) (calls.mul x.0 z.0)
    pub sub-add : (x y : Shaped) → calls.add (calls.sub x.0 y.0) y.0 ≡ x.0
    pub add-sub : (x y : Shaped) → calls.sub (calls.add x.0 y.0) y.0 ≡ x.0

  -- The components of `_cxt`.
  pub record Pairs : Type 0 where
    pub re-cxt : (x y : Shaped) → parts.re (cxt calls parts x.0 y.0) ≡ x.0
    pub im-cxt : (x y : Shaped) → parts.im (cxt calls parts x.0 y.0) ≡ y.0

module _ {T : Type 0} (calls : Calls T) (parts : Components T) (s : List ℕ)
    (laws : ExactCalls calls parts s) where
  abbrev Of : Type 0
  Of = Shaped calls parts s

  abbrev plus : Of → Of → Of
  plus x y = (calls.add x.0 y.0, laws.shape-add x y)

  abbrev minus : Of → Of → Of
  minus x y = (calls.sub x.0 y.0, laws.shape-sub x y)

  abbrev times : Of → Of → Of
  times x y = (calls.mul x.0 y.0, laws.shape-mul x y)

  add-mul : (x y z : Of) → (times (plus x y) z).0 ≡ (plus (times x z) (times y z)).0
  add-mul x y z =
      laws.mul_comm (plus x y) z
      ∙ laws.mul-add z x y
      ∙ ap₂ calls.add (laws.mul_comm z x) (laws.mul_comm z y)

  sub-mul : (x y z : Of) → (times (minus x y) z).0 ≡ (minus (times x z) (times y z)).0
  sub-mul x y z =
      sym (laws.add-sub (times (minus x y) z) (times y z))
      ∙ ap (λ t. calls.sub t (calls.mul y.0 z.0))
          (sym (add-mul (minus x y) y z) ∙ ap (λ t. calls.mul t z.0) (laws.sub-add x y))

  mul_swap : (x y z : Of) → (times (times x y) z).0 ≡ (times (times x z) y).0
  mul_swap x y z =
      laws.mul_assoc x y z ∙ ap (calls.mul x.0) (laws.mul_comm y z) ∙ sym (laws.mul_assoc x z y)

  -- `(p - q) + (r + q)` and `(r + p) - (r - q)`
  sub_add : (p q r : Of) → (plus (minus p q) (plus r q)).0 ≡ (plus p r).0
  sub_add p q r =
      ap (calls.add (calls.sub p.0 q.0)) (laws.add_comm r q)
      ∙ sym (laws.add_assoc (minus p q) q r)
      ∙ ap (λ t. calls.add t r.0) (laws.sub-add p q)

  add_sub : (p q r : Of) → (minus (plus r p) (minus r q)).0 ≡ (plus p q).0
  add_sub p q r =
      ap (λ t. calls.sub t (calls.sub r.0 q.0))
        (laws.add_comm r p
          ∙ ap (calls.add p.0) (sym (laws.sub-add r q) ∙ laws.add_comm (minus r q) q)
          ∙ sym (laws.add_assoc p q (minus r q)))
      ∙ laws.add-sub (plus p q) (minus r q)

  -- `x y y + x z z`
  mul_norm :
      (x y z : Of)
      → (plus (times (times x y) y) (times (times x z) z)).0
        ≡ (times x (plus (times y y) (times z z))).0
  mul_norm x y z =
      ap₂ calls.add (laws.mul_assoc x y y) (laws.mul_assoc x z z)
      ∙ sym (laws.mul-add x (times y y) (times z z))

  -- The numerators of the quotient, of `(x + iy) (u + iv)` by `u + iv`.
  re_product : (x y u v : Of) → Of
  re_product x y u v = minus (times x u) (times y v)

  im_product : (x y u v : Of) → Of
  im_product x y u v = plus (times x v) (times y u)

  re_numerator :
      (x y u v : Of)
      → (plus (times (re_product x y u v) u) (times (im_product x y u v) v)).0
        ≡ (times x (plus (times u u) (times v v))).0
  unfolding re_product im_product
  re_numerator x y u v =
      ap₂ calls.add
        (sub-mul (times x u) (times y v) u
          ∙ ap (calls.sub (times (times x u) u).0) (mul_swap y v u))
        (add-mul (times x v) (times y u) v)
      ∙ sub_add (times (times x u) u) (times (times y u) v) (times (times x v) v)
      ∙ mul_norm x u v

  im_numerator :
      (x y u v : Of)
      → (minus (times (im_product x y u v) u) (times (re_product x y u v) v)).0
        ≡ (times y (plus (times u u) (times v v))).0
  unfolding re_product im_product
  im_numerator x y u v =
      ap₂ calls.sub
        (add-mul (times x v) (times y u) u
          ∙ ap (λ t. calls.add t (times (times y u) u).0) (mul_swap x v u))
        (sub-mul (times x u) (times y v) v)
      ∙ add_sub (times (times y u) u) (times (times y v) v) (times (times x u) v)
      ∙ mul_norm y u v

  module _ (pairs : Pairs calls parts s) where
    divide-multiply :
        (a b : T)
        → parts.shape (parts.re a) ≡ s
        → parts.shape (parts.im a) ≡ s
        → parts.shape (parts.re b) ≡ s
        → parts.shape (parts.im b) ≡ s
        → ((x : Of) → calls.div (calls.mul x.0 (norm calls parts b)) (norm calls parts b) ≡ x.0)
        → (parts.re (divide_parts calls parts (multiply_parts calls parts a b) b) ≡ parts.re a)
          × (parts.im (divide_parts calls parts (multiply_parts calls parts a b) b) ≡ parts.im a)
    unfolding divide_parts multiply_parts norm re_product im_product
    divide-multiply a b ha ha' hb hb' divides =
        let x : Of = (parts.re a, ha) in
        let y : Of = (parts.im a, ha') in
        let u : Of = (parts.re b, hb) in
        let v : Of = (parts.im b, hb') in
        let d = norm calls parts b in
        let r = pairs.re-cxt (re_product x y u v) (im_product x y u v) in
        let i = pairs.im-cxt (re_product x y u v) (im_product x y u v) in
        let first =
          ap (λ t. calls.div t d)
            (ap₂ (λ p q. calls.add (calls.mul p u.0) (calls.mul q v.0)) r i ∙ re_numerator x y u v)
          ∙ divides x in
        let second =
          ap (λ t. calls.div t d)
            (ap₂ (λ p q. calls.sub (calls.mul q u.0) (calls.mul p v.0)) r i ∙ im_numerator x y u v)
          ∙ divides y in
        (
          ap₂ (λ p q. parts.re (cxt calls parts p q)) first second ∙ pairs.re-cxt x y,
          ap₂ (λ p q. parts.im (cxt calls parts p q)) first second ∙ pairs.im-cxt x y,
        )

    -- The complex branch `multiply` on two operands, real or complex, whose components all
    -- have one shape, and then `divide` by the second, give the two components of the first;
    -- where `+`, `-` and `*` are exact on tensors of this shape and keep it, dividing by the
    -- squared modulus of the second operand undoes multiplying by it, and `_re` and `_im`
    -- give back what `_cxt` joined, for tensors of this shape.
    pub apply_complex-divides :
        (rest : String → List (Operand T) → Result (Operand T)) (a b : Operand T)
        → parts.shape (parts.re (promote calls parts a)) ≡ s
        → parts.shape (parts.im (promote calls parts a)) ≡ s
        → parts.shape (parts.re (promote calls parts b)) ≡ s
        → parts.shape (parts.im (promote calls parts b)) ≡ s
        → ((x : Shaped calls parts s)
            → calls.div
                (calls.mul x.0 (norm calls parts (promote calls parts b)))
                (norm calls parts (promote calls parts b))
              ≡ x.0)
        → (p q : T) × (apply_complex calls parts rest "multiply" (a ∷ b ∷ []) ≡ ok (cx p))
          × (apply_complex calls parts rest "divide" (cx p ∷ b ∷ []) ≡ ok (cx q))
          × (parts.re q ≡ parts.re (promote calls parts a))
          × (parts.im q ≡ parts.im (promote calls parts a))
    unfolding apply_complex of_two nth_input promote
    apply_complex-divides rest a b ha ha' hb hb' divides =
        let x = promote calls parts a in
        let y = promote calls parts b in
        let p = multiply_parts calls parts x y in
        let (same_re, same_im) = divide-multiply x y ha ha' hb hb' divides in
        (p, divide_parts calls parts p y, refl, refl, same_re, same_im)
