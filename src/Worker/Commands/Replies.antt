-- ===== src/Worker/Commands/Replies.antt =====
-- The results that the commands of the `Handler` share.
use nx_tinygrad.Base.{ℕ, List}
use nx_tinygrad.Json.{pos, Value, int, array, object, Items, end, field}
use nx_tinygrad.Wire.Integers.{Bytes}

abbrev pub num : ℕ → Value
num n = int (pos n)

-- What a command returns.
abbrev pub Reply : Type 0
Reply = Value × List Bytes

abbrev pub nothing : Value
nothing = object end

-- `{"id": id, "shape": shape, "dtype": dtype}`
abbrev pub handle_spec : ℕ → Value → Value → Value
handle_spec id shape dtype =
    object (field "id" (num id) (field "shape" shape (field "dtype" dtype end)))

abbrev pub array_spec : Value → Value → Value
array_spec shape dtype = object (field "shape" shape (field "dtype" dtype end))

abbrev pub outputs_reply : Items → Value
outputs_reply specs = object (field "outputs" (array specs) end)
