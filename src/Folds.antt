-- ===== src/Folds.antt =====
-- priv/worker/executable.py: `_run_reduce` and `_run_window_reduce`. `interpret` is `_interpret` of
-- the node's function; the calls of tinygrad are the fields of `FoldCalls`.
pub mod Pointwise
use nx_tinygrad.Base.{
  ℕ, zero, suc, Bool, true, false, not, ◌&&◌, ◌||◌, Option, none, some, List, [], ◌∷◌, ◌++◌, length,
  get_elem?, take, drop, ◌==◌, if◌then◌else◌,
}
use nx_tinygrad.Errors.{Result, ok, fail, guard, python_error, compile_error, ◌>>=◌, ◌>>◌}
use nx_tinygrad.Validate.{product}
use nx_tinygrad.Ops.Axes.{elem, range, without, ones_shape}
use nx_tinygrad.Loops.Run.{param}

pub record FoldCalls (T : Type 0) : Type 0 where
  -- `t.shape`, `t.permute`, `t.reshape`, `t.expand`, `flat[..., i]`
  pub shape : T → List ℕ
  pub permute : List ℕ → T → T
  pub reshape : List ℕ → T → T
  pub expand : List ℕ → T → T
  pub last : T → ℕ → T
  -- `t._pool` with a window, strides and dilations
  pub pool : List ℕ → List ℕ → List ℕ → T → T

pub record ReduceAttributes : Type 0 where
  pub axes : List ℕ
  pub keep_axes : Bool

pub record WindowAttributes : Type 0 where
  pub window : List ℕ
  pub strides : List ℕ
  pub window_dilations : List ℕ
  pub padding : List (ℕ × ℕ)

-- `[dims[a] for a in axes]`
unfoldable pub sizes_at : List ℕ → List ℕ → Result (List ℕ)
unfolding param
sizes_at dims [] = ok []
sizes_at dims (a ∷ axes) = do n ← param dims a; rest ← sizes_at dims axes; ok (n ∷ rest)

-- `1 if a in axes else t.shape[a] for a in range(rank)`
unfoldable pub kept_shape : List ℕ → ℕ → List ℕ → List ℕ
kept_shape axes a [] = []
kept_shape axes a (n ∷ dims) =
    let rest = kept_shape axes (suc a) dims in if elem a axes then 1 ∷ rest else n ∷ rest

-- `any(lo or hi for (lo, hi) in padding)`
unfoldable pub any_padding : List (ℕ × ℕ) → Bool
any_padding [] = false
any_padding ((lo, hi) ∷ padding) = not (lo == 0) || not (hi == 0) || any_padding padding

abbrev pub has_no_dims : List ℕ → Bool
has_no_dims [] = true
has_no_dims (n ∷ ns) = false

module _ {T : Type 0} (calls : FoldCalls T) (interpret : List T → Result (List T)) where
  -- `for i in range(count): acc = self._interpret(body, [acc, flat[..., i]])[0]`
  unfoldable pub fold_entries : T → List ℕ → T → Result T
  unfolding param
  fold_entries flat [] acc = ok acc
  fold_entries flat (i ∷ rest) acc = do
    outs ← interpret (acc ∷ calls.last flat i ∷ [])
    acc' ← param outs 0
    fold_entries flat rest acc'

  -- `acc.reshape((1,) * len(dims)).expand(dims)`, of a scalar
  unfoldable pub spread : List ℕ → T → T
  unfolding ones_shape
  spread dims acc =
      if has_no_dims (calls.shape acc)
      then calls.expand dims (calls.reshape (ones_shape (length dims)) acc)
      else acc

  unfoldable pub run_reduce : ReduceAttributes → T → T → Result T
  unfolding sizes_at range without spread fold_entries kept_shape
  run_reduce a t acc =
      let dims = calls.shape t in
      let non_axes = without a.axes (range 0 (length dims)) in
      do
        batch ← sizes_at dims non_axes
        reduced ← sizes_at dims a.axes
        let count = product reduced
        let flat = calls.reshape (batch ++ (count ∷ [])) (calls.permute (non_axes ++ a.axes) t)
        result ←
            fold_entries flat (range 0 count) (if has_no_dims batch then acc else spread batch acc)
        ok (if a.keep_axes then calls.reshape (kept_shape a.axes 0 dims) result else result)

  unfoldable pub run_window_reduce : WindowAttributes → T → T → Result T
  unfolding any_padding range spread fold_entries
  run_window_reduce a t acc =
      let rank = length (calls.shape t) in
      let pooled = calls.pool a.window a.strides a.window_dilations t in
      let out_dims = take rank (calls.shape pooled) in
      let count = product (drop rank (calls.shape pooled)) in
      let flat = calls.reshape (out_dims ++ (count ∷ [])) pooled in
      guard (not (any_padding a.padding)) compile_error
        "window_reduce with padding is not supported"
      >> fold_entries flat (range 0 count) (spread out_dims acc)
