-- ===== src/Json.antt =====
-- The Python values that `json.loads` makes and `json.dumps` writes: the metadata of a frame and
-- the graphs inside it. The codec itself is Python's `json`, and enters where it is used as a pair
-- of functions.
use nx_tinygrad.Base.{
  ℕ, ◌+◌, ◌-◌, ◌*◌, ◌/◌, ◌%◌, ◌^◌, String, Bool, true, false, Option, none, some, List, [], ◌∷◌,
  leb, ◌==◌, if◌then◌else◌, str_eq,
}

-- `negsuc n` is -(n + 1).
pub data ℤ : Type 0 where
  pos : ℕ → ℤ
  negsuc : ℕ → ℤ

-- A `float` is its 64-bit pattern.
mutual
  pub data Value : Type 0 where
    null : Value
    bool : Bool → Value
    int : ℤ → Value
    float : ℕ → Value
    string : String → Value
    array : Items → Value
    object : Fields → Value

  pub data Items : Type 0 where
    nil : Items
    cons : Value → Items → Items

  pub data Fields : Type 0 where
    end : Fields
    field : String → Value → Fields → Fields

-- `d.get(k)` of a dict; `none` where the key is missing.
unfoldable pub get : Fields → String → Option Value
get end k = none
get (field j v d) k = if str_eq j k then some v else get d k

-- A `list` as a list of values.
abbrev pub elements : Items → List Value
elements nil = []
elements (cons v l) = v ∷ elements l

-- The integer that a float is equal to, if there is one: ±(2^52 + m) * 2^(e - 1075), with the
-- exponent `e` and the fraction `m` of a normal number; a subnormal one is integral only at 0.
unfoldable pub float_integer : ℕ → Option ℤ
float_integer b =
    let m = b % 2 ^ 52 in
    let e = b / 2 ^ 52 % 2 ^ 11 in
    let negative = leb 1 (b / 2 ^ 63) in
    let whole =
      if leb 1075 e
      then some ((2 ^ 52 + m) * 2 ^ (e - 1075))
      else if (2 ^ 52 + m) % 2 ^ (1075 - e) == 0
      then some ((2 ^ 52 + m) / 2 ^ (1075 - e))
      else none in
    if e == 2047
    then none
    else if e == 0
    then (if m == 0 then some (pos 0) else none)
    else signed negative whole
  where
    signed : Bool → Option ℕ → Option ℤ
    signed b none = none
    signed true (some n) = some (if n == 0 then pos 0 else negsuc (n - 1))
    signed false (some n) = some (pos n)
