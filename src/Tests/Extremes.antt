-- ===== src/Tests/Extremes.antt =====
-- The last of two greatest elements of a tensor of bits.
use nx_tinygrad.Base.{
  ℕ, zero, suc, ◌-◌, ◌<◌, ◌≡◌, refl, sym, ◌∙◌, Bool, true, false, not, Option, none, some, List, [],
  ◌∷◌, length, reverse, get_elem?, arith, if◌then◌else◌,
}
use nx_tinygrad.Ops.Argreduce.{ArgCalls, Argreduce, arg_best, last_index, argreduce}
use nx_tinygrad.Ops.Argreduce.Ties.{IsFirstBest, Lanes, IsWinner, argreduce-IsWinner}

-- A tensor of one axis, of bits, or of one index.
record Sample : Type 0 where
  bits : List Bool
  index : ℕ

abbrev same : Bool → Bool → Bool
same true b = b
same false b = not b

abbrev next : Option ℕ → Option ℕ
next none = none
next (some i) = some (suc i)

first_of : Bool → List Bool → Option ℕ
first_of b [] = none
first_of b (x ∷ xs) = let rest = first_of b xs in if same x b then some 0 else next rest

abbrev or_zero : Option ℕ → ℕ
or_zero none = 0
or_zero (some i) = i

abbrev Wins : Bool → Bool → Bool → Type 0
Wins b v w = (v ≡ b) × (w ≡ not b)

-- What is before the index is the other bit; without an index, all is.
abbrev Misses : Bool → List Bool → Option ℕ → Type 0
Misses b xs none = (j : ℕ) (w : Bool) → get_elem? xs j ≡ some w → w ≡ not b
Misses b xs (some i) =
    (get_elem? xs i ≡ some b) × ((j : ℕ) (w : Bool) → get_elem? xs j ≡ some w → j < i → w ≡ not b)

later :
    (b : Bool) (xs : List Bool) (x : Bool)
    → x ≡ not b
    → (o : Option ℕ) → Misses b xs o
    → Misses b (x ∷ xs) (next o)
later b xs x other none h = misses
  where
    misses : (j : ℕ) (w : Bool) → get_elem? (x ∷ xs) j ≡ some w → w ≡ not b
    misses zero w e = let is : x ≡ w = cc e in sym is ∙ other
    misses (suc j) w e = h j w e
later b xs x other (some i) (here, h) = (here, misses)
  where
    misses : (j : ℕ) (w : Bool) → get_elem? (x ∷ xs) j ≡ some w → j < suc i → w ≡ not b
    misses zero w e lt = let is : x ≡ w = cc e in sym is ∙ other
    misses (suc j) w e lt = h j w e (omega arith)

first_of-Misses : (b : Bool) (xs : List Bool) → Misses b xs (first_of b xs)
unfolding first_of
first_of-Misses b [] = λ j w e. cc
first_of-Misses true (true ∷ xs) = (refl, λ j w e lt. absurd (omega arith))
first_of-Misses false (false ∷ xs) = (refl, λ j w e lt. absurd (omega arith))
first_of-Misses true (false ∷ xs) =
    later true xs false refl (first_of true xs) (first_of-Misses true xs)
first_of-Misses false (true ∷ xs) =
    later false xs true refl (first_of false xs) (first_of-Misses false xs)

not_itself : (b : Bool) → b ≡ not b → ⊥
not_itself true e = cc
not_itself false e = cc

first_of_best :
    (b : Bool) (xs : List Bool) → 0 < length xs → IsFirstBest (Wins b) xs (or_zero (first_of b xs))
first_of_best b xs h = best (first_of b xs) (first_of-Misses b xs) xs refl h
  where
    best :
        (o : Option ℕ)
        → Misses b xs o
        → (ys : List Bool) → xs ≡ ys
        → 0 < length ys
        → IsFirstBest (Wins b) xs (or_zero o)
    best (some i) (here, misses) ys e lt = record {
      best = b;
      here = here;
      unbeaten = λ j w found (is, clash). not_itself b clash;
      first = λ j w found before. (refl, misses j w found before);
    }
    best none misses [] e lt = absurd (omega arith)
    best none misses (y ∷ ys) e lt = record {
      best = y;
      here = rw e refl;
      unbeaten = λ j w found (is, clash). not_itself b (sym is ∙ misses j w found);
      first = λ j w found before. absurd (omega arith);
    }

abbrev bit_calls : ArgCalls Sample
bit_calls = record {
  argmax = λ x axis keep. record { bits = []; index = or_zero (first_of true x.bits) };
  argmin = λ x axis keep. record { bits = []; index = or_zero (first_of false x.bits) };
  flip = λ t axis. record t { bits = reverse t.bits };
  reshape_flat = λ t n. t;
  numel = λ t. length t.bits;
  size = λ t axis. length t.bits;
  from_number = λ n t. record t { index = n - t.index };
}

abbrev bit_lanes : Lanes bit_calls (Unit {0}) Bool
bit_lanes = record {
  lane = λ t axis ix. t.bits;
  entry = λ t ix. t.index;
  Greater = Wins true;
  Less = Wins false;
  argmax_first = λ x axis keep ix h. first_of_best true x.bits h;
  argmin_first = λ x axis keep ix h. first_of_best false x.bits h;
  lane-flip = λ t axis ix. refl;
  lane-flip_flat = λ t ix. refl;
  size-lane = λ t axis ix. refl;
  size-lane_flat = λ t ix. refl;
  entry-from_number = λ n t ix h. refl;
}

abbrev last_max : Argreduce
last_max = record { op = "argmax"; axis = none; keep_axis = false; tie_break = "high" }

abbrev some_sample : Sample
some_sample = record { bits = false ∷ true ∷ true ∷ false ∷ []; index = 0 }

last_of_two : (argreduce bit_calls last_max some_sample).index ≡ 2
unfolding argreduce last_index arg_best first_of
last_of_two = refl

argreduce-IsWinner_example :
    IsWinner bit_calls bit_lanes false "argmax"
      (false ∷ true ∷ true ∷ false ∷ [])
      (argreduce bit_calls last_max some_sample).index
argreduce-IsWinner_example =
    argreduce-IsWinner bit_calls bit_lanes last_max some_sample tt (omega arith)
