-- ===== src/Registry.antt =====
-- priv/worker/registry.py: the device buffers of a worker generation.
pub mod Laws
pub mod Ids
use nx_tinygrad.Base.{ℕ, suc, ◌+◌, Option, none, some, List, [], ◌∷◌, length}
use nx_tinygrad.Json.{Value, Items}
use nx_tinygrad.Errors.{Result, ok, fail, stale_reference}
use nx_tinygrad.Dict.{Dict, lookup, insert, pop_all}

-- `T` stands for tinygrad's tensors.
pub record Buffer (T : Type 0) : Type 0 where
  pub id : ℕ
  pub tensor : T
  pub shape : Items
  pub dtype : Value
  pub nbytes : ℕ

pub record TensorRegistry (T : Type 0) : Type 0 where
  pub buffers : Dict (Buffer T)
  pub next_id : ℕ

module _ {T : Type 0} where
  abbrev pub init : TensorRegistry T
  init = record { buffers = []; next_id = 1 }

  unfoldable pub allocate_id : TensorRegistry T → ℕ × TensorRegistry T
  allocate_id r = (r.next_id, record r { next_id = r.next_id + 1 })

  -- The id that `put` stores under: the caller's, or a new one.
  choose_id : Option ℕ → TensorRegistry T → ℕ × TensorRegistry T
  unfolding allocate_id
  choose_id none r = allocate_id r
  choose_id (some buffer_id) r = (buffer_id, r)

  unfoldable pub put : T → Items → Value → ℕ → Option ℕ → TensorRegistry T → ℕ × TensorRegistry T
  unfolding choose_id
  put tensor shape dtype nbytes buffer_id r =
      let (i, r') = choose_id buffer_id r in
      let buffer : Buffer T = record {
        id = i;
        tensor = tensor;
        shape = shape;
        dtype = dtype;
        nbytes = nbytes;
      } in
      (i, record r' { buffers = insert i buffer r'.buffers })

  found : Option (Buffer T) → Result (Buffer T)
  found (some b) = ok b
  found none = fail stale_reference "buffer is not resident in this worker generation"

  unfoldable pub get : ℕ → TensorRegistry T → Result (Buffer T)
  unfolding found
  get buffer_id r = found (lookup buffer_id r.buffers)

  unfoldable pub release : List ℕ → TensorRegistry T → ℕ × TensorRegistry T
  release ids r = let (removed, d) = pop_all ids 0 r.buffers in (removed, record r { buffers = d })

  abbrev pub count : TensorRegistry T → ℕ
  count r = length r.buffers

  unfoldable pub sum_bytes : Dict (Buffer T) → ℕ
  sum_bytes [] = 0
  sum_bytes ((k, b) ∷ d) = b.nbytes + sum_bytes d

  abbrev pub total_bytes : TensorRegistry T → ℕ
  total_bytes r = sum_bytes r.buffers

  unfoldable pub clear : TensorRegistry T → TensorRegistry T
  clear r = record r { buffers = [] }
