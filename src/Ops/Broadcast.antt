-- ===== src/Ops/Broadcast.antt =====
-- `_broadcast`, over the calls of tinygrad.
pub mod Positions
use nx_tinygrad.Base.{ℕ, zero, suc, List, [], ◌∷◌, length}
use nx_tinygrad.Errors.{Result, ok, fail, python_error, ◌>>=◌}
use nx_tinygrad.Ops.Axes.{assign, ones_shape}

-- `for src_dim, out_dim in enumerate(axes): inter[out_dim] = t.shape[src_dim]`
unfoldable pub set_dims : List ℕ → List ℕ → List ℕ → Result (List ℕ)
set_dims [] dims inter = ok inter
set_dims (a ∷ axes) [] inter = fail (python_error "IndexError") "tuple index out of range"
set_dims (a ∷ axes) (n ∷ dims) inter = do inter' ← assign inter a n; set_dims axes dims inter'

-- `inter`, of an output of this rank.
unfoldable pub intermediate_shape : ℕ → List ℕ → List ℕ → Result (List ℕ)
unfolding set_dims ones_shape
intermediate_shape rank axes dims = set_dims axes dims (ones_shape rank)

-- `t.shape`, `t.reshape`, `t.expand`
pub record ShapeCalls (T : Type 0) : Type 0 where
  pub shape : T → List ℕ
  pub reshape : List ℕ → T → T
  pub expand : List ℕ → T → T

unfoldable pub broadcast_to : {T : Type 0} → ShapeCalls T → List ℕ → List ℕ → T → Result T
unfolding intermediate_shape
broadcast_to calls out_shape axes t = do
  inter ← intermediate_shape (length out_shape) axes (calls.shape t)
  ok (calls.expand out_shape (calls.reshape inter t))
