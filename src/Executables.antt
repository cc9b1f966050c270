-- ===== src/Executables.antt =====
-- priv/worker/executable.py: `ExecutableRegistry`, and what the handler sees of an `Executable`.
pub mod Dedup
pub mod Capture
pub mod Run
pub mod Constants
use nx_tinygrad.Base.{ℕ, ◌+◌, Option, none, some, List, [], length}
use nx_tinygrad.Errors.{Result, ok, fail, stale_reference}
use nx_tinygrad.Json.{Items}
use nx_tinygrad.Dict.{Dict, lookup, insert, pop_all}

-- `body` is the graph with its captures.
pub record Executable (E : Type 0) : Type 0 where
  pub id : ℕ
  pub input_specs : Items
  pub output_specs : Items
  pub kernel_count : ℕ
  pub duplicate_input_clones : ℕ
  pub body : E

pub record ExecutableRegistry (E : Type 0) : Type 0 where
  pub executables : Dict (Executable E)
  pub next_id : ℕ

module _ {E : Type 0} where
  abbrev pub init : ExecutableRegistry E
  init = record { executables = []; next_id = 1 }

  abbrev pub allocate_id : ExecutableRegistry E → ℕ × ExecutableRegistry E
  allocate_id r = (r.next_id, record r { next_id = r.next_id + 1 })

  abbrev pub put : Executable E → ExecutableRegistry E → ExecutableRegistry E
  put e r = record r { executables = insert e.id e r.executables }

  found : Option (Executable E) → Result (Executable E)
  found (some e) = ok e
  found none = fail stale_reference "executable not found"

  unfoldable pub get : ℕ → ExecutableRegistry E → Result (Executable E)
  unfolding found
  get exec_id r = found (lookup exec_id r.executables)

  abbrev pub count : ExecutableRegistry E → ℕ
  count r = length r.executables

  unfoldable pub release : List ℕ → ExecutableRegistry E → ℕ × ExecutableRegistry E
  release ids r =
      let (removed, d) = pop_all ids 0 r.executables in (removed, record r { executables = d })
