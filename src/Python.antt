-- ===== src/Python.antt =====
-- What the worker's Python does with a JSON value: truth, keys, indices, iteration and the lookups
-- that raise.
use nx_tinygrad.Base.{
  ℕ, zero, suc, ◌-◌, ◌%◌, ◌^◌, String, Bool, true, false, not, ◌&&◌, Option, none, some, List, [],
  ◌∷◌, length, ltb, ◌==◌, if◌then◌else◌, str_eq, get_elem?,
}
use nx_tinygrad.Errors.{Result, ok, raise, fail, python_error, ◌>>=◌}
use nx_tinygrad.Json.{
  ℤ, pos, negsuc, Value, null, bool, int, float, string, array, object, Items, nil, cons, Fields,
  end, field, get, float_integer,
}

-- `bool(v)`
unfoldable pub truthy : Value → Bool
truthy null = false
truthy (bool b) = b
truthy (int (pos zero)) = false
truthy (int n) = true
truthy (float bits) = not (bits % 2 ^ 63 == 0)
truthy (string s) = not (str_eq s "")
truthy (array nil) = false
truthy (array (cons v l)) = true
truthy (object end) = false
truthy (object (field k v d)) = true

-- The integer that a number is equal to; `True` is 1.
number : Value → Option ℤ
number (bool b) = some (pos (if b then 1 else 0))
number (int n) = some n
number (float bits) = float_integer bits
number v = none

natural : Option ℤ → Option ℕ
natural (some (pos n)) = some n
natural o = none

-- A value as the key of a dict with non-negative integer keys: `none` if it equals no such key.
unfoldable pub as_key : Value → Result (Option ℕ)
unfolding number natural
as_key (array l) = fail (python_error "TypeError") "unhashable type: 'list'"
as_key (object d) = fail (python_error "TypeError") "unhashable type: 'dict'"
as_key v = ok (natural (number v))

-- `v == n`
unfoldable pub is_number : ℕ → Value → Bool
unfolding number natural
is_number n v = elim (natural (number v)) [ none ↦ false | some m ↦ n == m ]

-- `v == s`
abbrev pub is_string : String → Value → Bool
is_string s (string t) = str_eq s t
is_string s v = false

-- A value as the key of a dict with string keys.
unfoldable pub as_name : Value → Result (Option String)
as_name (array l) = fail (python_error "TypeError") "unhashable type: 'list'"
as_name (object d) = fail (python_error "TypeError") "unhashable type: 'dict'"
as_name (string s) = ok (some s)
as_name v = ok none

-- `args.get(k)` where `args` need not be a dict
unfoldable pub get_value : Value → String → Result (Option Value)
get_value (object d) k = ok (get d k)
get_value v k = fail (python_error "AttributeError") "object has no attribute 'get'"

abbrev pub or_default : Value → Option Value → Value
or_default d none = d
or_default d (some v) = v

-- `args.get(k, d)`; `d` is `None` where the source gives none.
abbrev pub get_or : Value → String → Value → Result Value
get_or args k d = do v ← get_value args k; ok (or_default d v)

present : Option Value → Result Value
present none = fail (python_error "KeyError") "key"
present (some v) = ok v

-- `args[k]`
unfoldable pub require : Value → String → Result Value
unfolding present
require (object d) k = present (get d k)
require v k = fail (python_error "TypeError") "indices must be integers"

in_range : {A : Type 0} → Option A → Result A
in_range none = fail (python_error "IndexError") "list index out of range"
in_range (some a) = ok a

item_at : {A : Type 0} → List A → ℤ → Result A
unfolding in_range
item_at l (pos n) = in_range (get_elem? l n)
item_at l (negsuc n) =
    if ltb n (length l) then in_range (get_elem? l (length l - suc n)) else in_range none

-- `l[v]` of a list: only an `int` or a `bool` is an index, and a negative one counts from the end.
unfoldable pub index : {A : Type 0} → List A → Value → Result A
unfolding item_at
index l (int n) = item_at l n
index l (bool b) = item_at l (pos (if b then 1 else 0))
index l v = fail (python_error "TypeError") "list indices must be integers or slices"

keys : Fields → Items
keys end = nil
keys (field k v d) = cons (string k) (keys d)

-- What a `for` loop goes over; `characters` are those of a string.
unfoldable pub iterate : (String → Items) → Value → Result Items
unfolding keys
iterate characters (array l) = ok l
iterate characters (object d) = ok (keys d)
iterate characters (string s) = ok (characters s)
iterate characters v = fail (python_error "TypeError") "object is not iterable"

-- The keys among what a loop goes over, up to the first value that cannot be one.
unfoldable pub keys_of : Items → List ℕ × Result (Unit {0})
unfolding as_key
keys_of nil = ([], ok tt)
keys_of (cons v l) =
    let (ks, r) = keys_of l in
    elim (as_key v) [ raise e ↦ ([], raise e) | ok none ↦ (ks, r) | ok (some k) ↦ (k ∷ ks, r) ]

-- `d[k] = v`
unfoldable pub set_field : Fields → String → Value → Fields
set_field end k v = field k v end
set_field (field j w d) k v = if str_eq j k then field j v d else field j w (set_field d k v)

-- `d.update(e)`
unfoldable pub update : Fields → Fields → Fields
unfolding set_field
update d end = d
update d (field k v e) = update (set_field d k v) e

unfoldable pub items_length : Items → ℕ
items_length nil = 0
items_length (cons v l) = suc (items_length l)

-- `xs == l` for a list of numbers
unfoldable pub same_numbers : List ℕ → Items → Bool
unfolding is_number
same_numbers [] nil = true
same_numbers (n ∷ ns) (cons v l) = is_number n v && same_numbers ns l
same_numbers _ _ = false
