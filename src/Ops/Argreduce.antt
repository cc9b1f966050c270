-- ===== src/Ops/Argreduce.antt =====
-- `_argreduce`, over the calls of tinygrad.
pub mod Ties
use nx_tinygrad.Base.{
  ℕ, ◌-◌, String, Bool, false, Option, none, some, List, [], ◌∷◌, if◌then◌else◌, str_eq,
}

pub record ArgCalls (T : Type 0) : Type 0 where
  -- `x.argmax(axis, keepdim)`, `x.argmin(axis, keepdim)`; without an axis, over all elements
  pub argmax : T → Option ℕ → Bool → T
  pub argmin : T → Option ℕ → Bool → T
  -- `t.flip(axis)`, `t.reshape((n,))`, `t.numel()`, `t.shape[axis]`
  pub flip : T → ℕ → T
  pub reshape_flat : T → ℕ → T
  pub numel : T → ℕ
  pub size : T → ℕ → ℕ
  -- `n - t`, of a number and a tensor of indices
  pub from_number : ℕ → T → T

pub record Argreduce : Type 0 where
  pub op : String
  pub axis : Option ℕ
  pub keep_axis : Bool
  pub tie_break : String

module _ {T : Type 0} (calls : ArgCalls T) where
  -- The local `reduce`.
  unfoldable pub arg_best : String → T → Option ℕ → Bool → T
  arg_best op x axis keep =
      if str_eq op "argmax" then calls.argmax x axis keep else calls.argmin x axis keep

  -- The branches of `axis is None`, and of an axis.
  unfoldable pub first_index : Argreduce → T → T
  unfolding arg_best
  first_index node t = elim node.axis [
    | none ↦ arg_best node.op t none false
    | some axis ↦ arg_best node.op t (some axis) node.keep_axis
  ]

  unfoldable pub last_index : Argreduce → T → T
  unfolding arg_best
  last_index node t = elim node.axis [
    | none ↦
        let flat = calls.reshape_flat t (calls.numel t) in
        calls.from_number (calls.size flat 0 - 1) (arg_best node.op (calls.flip flat 0) none false)
    | some axis ↦
        calls.from_number (calls.size t axis - 1)
          (arg_best node.op (calls.flip t axis) (some axis) node.keep_axis)
  ]

  unfoldable pub argreduce : Argreduce → T → T
  unfolding first_index last_index
  argreduce node t = if str_eq node.tie_break "low" then first_index node t else last_index node t
