-- ===== src/Ops/Einsum/Shared.antt =====
-- What the loops over paired axes leave in the subscripts.
use nx_tinygrad.Base.{
  ℕ, zero, suc, ◌+◌, ◌<◌, ◌≤◌, ◌≡◌, ◌≢◌, refl, sym, ap, ◌∙◌, some, List, [], ◌∷◌, length, get_elem?,
  arith, lt→ltb,
}
use nx_tinygrad.Errors.{ok}
use nx_tinygrad.Ops.Axes.{assign, range}
use nx_tinygrad.Ops.Axes.Inverse.{assign_lem}
use nx_tinygrad.Ops.Einsum.{letters, Subscripts, letter, Naming, share}

-- Distinct axes below the rank.
pub record AreAxes (rank : ℕ) (axes : List ℕ) : Type 0 where
  pub bounded : (pos a : ℕ) → get_elem? axes pos ≡ some a → a < rank
  pub injective : (p q a : ℕ) → get_elem? axes p ≡ some a → get_elem? axes q ≡ some a → p ≡ q

-- The letters from `k` on stand at the axes, and the rest is as it was.
pub record IsMarked (k : ℕ) (axes : List ℕ) (sub sub' : Subscripts) : Type 0 where
  pub long : length sub' ≡ length sub
  pub placed : (pos a : ℕ) → get_elem? axes pos ≡ some a → get_elem? sub' a ≡ some (some (k + pos))
  pub kept :
      (i : ℕ) → ((pos : ℕ) → get_elem? axes pos ≢ some i) → get_elem? sub' i ≡ get_elem? sub i

tail-AreAxes : (rank a : ℕ) (axes : List ℕ) → AreAxes rank (a ∷ axes) → AreAxes rank axes
tail-AreAxes rank a axes h = record {
  bounded = λ pos b e. h.bounded (suc pos) b e;
  injective = λ p q b e f.
      let same : suc p ≡ suc q = h.injective (suc p) (suc q) b e f in omega (arith, same);
}

unmarked : (k : ℕ) (sub : Subscripts) → IsMarked k [] sub sub
unmarked k sub = record { long = refl; placed = λ pos a h. cc; kept = λ i h. refl }

pub letter_ok : (n : ℕ) → n < letters → letter n ≡ ok n
unfolding letter
letter_ok n h = rw (lt→ltb n letters h) refl

-- One axis more.
mark :
    (k a : ℕ) (axes : List ℕ) (sub : Subscripts)
    → AreAxes (length sub) (a ∷ axes)
    → (sub1 : Subscripts) × (assign sub a (some k) ≡ ok sub1)
      × (length sub1 ≡ length sub)
      × ((sub' : Subscripts) → IsMarked (suc k) axes sub1 sub' → IsMarked k (a ∷ axes) sub sub')
mark k a axes sub h =
    let (sub1, ran, long, here, others) = assign_lem sub a (some k) (h.bounded 0 a refl) in
    (
      sub1,
      ran,
      long,
      λ sub' m. record {
        long = m.long ∙ long;
        placed =
            placed sub' m
              (m.kept a (λ pos e. first_apart pos (h.injective 0 (suc pos) a refl e)) ∙ here);
        kept = λ i no. m.kept i (λ pos. no (suc pos)) ∙ others i (λ e. no 0 (ap some e));
      },
    )
  where
    first_apart : (p : ℕ) → 0 ≢ suc p
    first_apart p e = omega arith

    placed :
        {sub1 : Subscripts} (sub' : Subscripts)
        → IsMarked (suc k) axes sub1 sub'
        → get_elem? sub' a ≡ some (some k)
        → (pos b : ℕ) → get_elem? (a ∷ axes) pos ≡ some b
        → get_elem? sub' b ≡ some (some (k + pos))
    placed sub' m first zero b e =
        let is : a ≡ b = cc e in
        let at : k ≡ k + 0 = omega arith in
        ap (get_elem? sub') (sym is) ∙ first ∙ ap (λ n. some (some n)) at
    placed sub' m first (suc pos) b e =
        let at : suc k + pos ≡ k + suc pos = omega arith in
        m.placed pos b e ∙ ap (λ n. some (some n)) at

pub share_lem :
    (las lbs : List ℕ) (s : Naming)
    → length las ≡ length lbs
    → AreAxes (length s.sub_a) las
    → AreAxes (length s.sub_b) lbs
    → s.nxt + length las ≤ letters
    → (s' : Naming) × (share las lbs s ≡ ok (s', range s.nxt (length las)))
      × IsMarked s.nxt las s.sub_a s'.sub_a
      × IsMarked s.nxt lbs s.sub_b s'.sub_b
      × (s'.nxt ≡ s.nxt + length las)
unfolding share range
share_lem [] [] s long ha hb few =
    (s, refl, unmarked s.nxt s.sub_a, unmarked s.nxt s.sub_b, omega arith)
share_lem [] (lb ∷ lbs) s long ha hb few = absurd (omega arith)
share_lem (la ∷ las) [] s long ha hb few = absurd (omega arith)
share_lem (la ∷ las) (lb ∷ lbs) s long ha hb few =
    let (a1, ran_a, long_a, mark_a) = mark s.nxt la las s.sub_a ha in
    let (b1, ran_b, long_b, mark_b) = mark s.nxt lb lbs s.sub_b hb in
    let named = letter_ok s.nxt (omega arith) in
    let s1 : Naming = record { sub_a = a1; sub_b = b1; nxt = suc s.nxt } in
    let (s', ran, ma, mb, ends) =
      share_lem las lbs s1 (omega arith) (rw long_a (tail-AreAxes (length s.sub_a) la las ha))
        (rw long_b (tail-AreAxes (length s.sub_b) lb lbs hb)) (omega arith) in
    (
      s',
      rw (share, named, ran_a, ran_b, ran) refl,
      mark_a s'.sub_a ma,
      mark_b s'.sub_b mb,
      omega arith,
    )
