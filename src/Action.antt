-- ===== src/Action.antt =====
-- Code that changes the worker's state and may raise: what was changed before an exception stays.
use nx_tinygrad.Errors.{Result, ok, raise}

abbrev pub Action : Type 0 → Type 0 → Type 0
Action W T = W → Result T × W

module _ {W T : Type 0} where
  unfoldable pub return : T → Action W T
  return t w = (ok t, w)

  -- A computation that leaves the state alone.
  unfoldable pub lift : Result T → Action W T
  lift r w = (r, w)

module _ {W T U : Type 0} where
  abbrev pub proceed : (T → Action W U) → Result T × W → Result U × W
  proceed next (raise e, w) = (raise e, w)
  proceed next (ok t, w) = next t w

  infixl 5 ◌>>=◌
  unfoldable pub ◌>>=◌ : Action W T → (T → Action W U) → Action W U
  ◌>>=◌ first next w = proceed next (first w)

module _ {W U : Type 0} where
  infixl 5 ◌>>◌
  unfoldable pub ◌>>◌ : Action W (Unit {0}) → Action W U → Action W U
  first >> next = first >>= λ done. next
