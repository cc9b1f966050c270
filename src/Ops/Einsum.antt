-- ===== src/Ops/Einsum.antt =====
-- `_einsum_dot`: the letters of its formula. A letter is its position in `_LETTERS`.
pub mod Shared
pub mod Free
pub mod Both
pub mod Letters
use nx_tinygrad.Base.{ℕ, zero, suc, Bool, Option, none, some, List, [], ◌∷◌, ◌++◌, ltb}
use nx_tinygrad.Errors.{Result, ok, guard, python_error, ◌>>=◌, ◌>>◌}
use nx_tinygrad.Ops.Axes.{assign}

-- `len(_LETTERS)`
abbrev pub letters : ℕ
letters = 52

-- The letters of an operand so far.
abbrev pub Subscripts : Type 0
Subscripts = List (Option ℕ)

-- `[None] * rank`
unfoldable pub unset : ℕ → Subscripts
unset zero = []
unset (suc rank) = none ∷ unset rank

-- `_LETTERS[nxt]`
unfoldable pub letter : ℕ → Result ℕ
letter nxt =
    guard (ltb nxt letters) (python_error "IndexError") "string index out of range" >> ok nxt

-- `sub_a`, `sub_b` and `nxt`
pub record Naming : Type 0 where
  pub sub_a : Subscripts
  pub sub_b : Subscripts
  pub nxt : ℕ

-- `for la, lb in zip(...)`: one letter for both axes; with the letters in their order.
unfoldable pub share : List ℕ → List ℕ → Naming → Result (Naming × List ℕ)
unfolding letter
share [] lbs s = ok (s, [])
share (la ∷ las) [] s = ok (s, [])
share (la ∷ las) (lb ∷ lbs) s = do
  c ← letter s.nxt
  sub_a ← assign s.sub_a la (some c)
  sub_b ← assign s.sub_b lb (some c)
  (s', cs) ← share las lbs (record { sub_a = sub_a; sub_b = sub_b; nxt = suc s.nxt })
  ok (s', c ∷ cs)

-- `for i in range(rank): if sub[i] is None: ...`: all letters, those that are new, and `nxt`.
unfoldable pub name_free : Subscripts → ℕ → Result (List ℕ × List ℕ × ℕ)
unfolding letter
name_free [] nxt = ok ([], [], nxt)
name_free (some c ∷ sub) nxt = do
  (named, free, nxt') ← name_free sub nxt
  ok (c ∷ named, free, nxt')
name_free (none ∷ sub) nxt = do
  c ← letter nxt
  (named, free, nxt') ← name_free sub (suc nxt)
  ok (c ∷ named, c ∷ free, nxt')

pub record Formula : Type 0 where
  pub left : List ℕ
  pub right : List ℕ
  pub out : List ℕ

-- The formula that `einsum` is given.
unfoldable pub einsum_formula : ℕ → ℕ → List ℕ → List ℕ → List ℕ → List ℕ → Result Formula
unfolding share name_free unset
einsum_formula ra rb ca cb ba bb = do
  (s, batch_letters) ← share ba bb (record { sub_a = unset ra; sub_b = unset rb; nxt = 0 })
  (s', contracted) ← share ca cb s
  (left, free_a, nxt) ← name_free s'.sub_a s'.nxt
  (right, free_b, end) ← name_free s'.sub_b nxt
  ok (record { left = left; right = right; out = batch_letters ++ (free_a ++ free_b) })
