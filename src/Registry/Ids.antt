-- ===== src/Registry/Ids.antt =====
-- Ids over a whole worker generation.
use nx_tinygrad.Base.{ℕ, suc, ◌≤◌, none, List, [], ◌∷◌, arith}
use nx_tinygrad.Json.{Value, Items}
use nx_tinygrad.Registry.{TensorRegistry, put, release, clear}
use nx_tinygrad.Registry.Laws.{
  IsWellFormed, put-IsWellFormed, release-IsWellFormed, clear-IsWellFormed,
}

-- What the handler asks of the registry: a new buffer, a release, or `clear`.
pub data Request (T : Type 0) : Type 0 where
  store : T → Items → Value → ℕ → Request T
  drop : List ℕ → Request T
  wipe : Request T

-- The ids handed out, in order.
abbrev pub Increasing : ℕ → List ℕ → Type 0
Increasing n [] = Unit
Increasing n (i ∷ ids) = (n ≤ i) × Increasing (suc i) ids

Increasing-down : (m n : ℕ) (ids : List ℕ) → m ≤ n → Increasing n ids → Increasing m ids
Increasing-down m n [] h k = tt
Increasing-down m n (i ∷ ids) h (k, rest) = (omega arith, rest)

module _ {T : Type 0} where
  unfoldable pub serve : List (Request T) → TensorRegistry T → List ℕ × TensorRegistry T
  serve [] r = ([], r)
  serve (store t shape dtype nbytes ∷ rest) r =
      let (i, r') = put t shape dtype nbytes none r in
      let (ids, r'') = serve rest r' in (i ∷ ids, r'')
  serve (drop gone ∷ rest) r = serve rest (release gone r).1
  serve (wipe ∷ rest) r = serve rest (clear r)

  -- Whatever is stored, released and cleared in a well-formed registry, the ids come in
  -- strictly increasing order from the next id on, so none is used twice; and the registry
  -- stays well formed.
  pub serve-Increasing :
      (requests : List (Request T)) (r : TensorRegistry T)
      → IsWellFormed r
      → Increasing r.next_id (serve requests r).0 × IsWellFormed (serve requests r).1
  unfolding serve put release clear
  serve-Increasing [] r w = (tt, w)
  serve-Increasing (store t shape dtype nbytes ∷ rest) r w =
      let (ih, w') =
        serve-Increasing rest (put t shape dtype nbytes none r).1
          (put-IsWellFormed t shape dtype nbytes r w) in
      ((omega arith, Increasing-down _ _ _ (omega arith) ih), w')
  serve-Increasing (drop gone ∷ rest) r w =
      serve-Increasing rest (release gone r).1 (release-IsWellFormed gone r w)
  serve-Increasing (wipe ∷ rest) r w = serve-Increasing rest (clear r) (clear-IsWellFormed r)
