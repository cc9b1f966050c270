-- ===== src/Packet/Stream.antt =====
-- `read_exact` and `read_packet` on any stream that keeps Python's contract of `read`.
use nx_tinygrad.Base.{
  ℕ, zero, suc, ◌+◌, ◌-◌, ◌≤◌, ◌<◌, ◌≡◌, refl, sym, ◌∙◌, [], ◌∷◌, ◌++◌, arith, length, take, drop,
  ltb, if◌then◌else◌, Bool-cases, inl, inr, true, false, length-append, append_assoc,
  take-append_over, drop-append_over, append-nil, List-cases, le→ltb, lt→ltb, ltb→lt, not-ltb→le,
  ◌≢◌,
}
use nx_tinygrad.Wire.Integers.{Bytes}
use nx_tinygrad.Packet.{Outcome, eof, bytes, is_empty, read_loop, read_exact}

-- `stream.read(n)` of a binary stream: it takes at most `n` bytes off the front of what is still to
-- come, in whatever portions, and returns none of them only at the end.
pub record IsStream {S : Type 0} (read : ℕ → S → Bytes × S) (remaining : S → Bytes) : Type 0 where
  pub front : (n : ℕ) (s : S) → (read n s).0 ++ remaining (read n s).1 ≡ remaining s
  pub at_most : (n : ℕ) (s : S) → length (read n s).0 ≤ n
  pub progress : (n : ℕ) (s : S) → 0 < n → (read n s).0 ≡ [] → remaining s ≡ []

-- The outcome of reading `k` more bytes after `buf`, when `xs` are still to come.
abbrev pub exact_outcome : ℕ → Bytes → Bytes → Outcome
exact_outcome k buf xs = if ltb (length xs) k then eof else bytes (buf ++ take k xs)

abbrev pub Meets : ℕ → Bytes → Bytes → Outcome → Bytes → Type 0
Meets k buf xs o rest = (o ≡ exact_outcome k buf xs) × (k ≤ length xs → rest ≡ drop k xs)

Meets-zero : (buf xs : Bytes) (k : ℕ) → k ≡ 0 → Meets k buf xs (bytes buf) xs
Meets-zero buf xs k e = rw (e, le→ltb (length xs) 0 (omega arith), append-nil) (refl, λ _. refl)

-- Nothing is to come, and something is wanted.
Meets-end : (buf xs rest : Bytes) (k : ℕ) → 0 < k → xs ≡ [] → Meets k buf xs eof rest
Meets-end buf xs rest k h e = rw (e, lt→ltb 0 k h) (refl, λ l. absurd (omega arith))

exact_outcome-append :
    (k : ℕ) (buf chunk xs : Bytes)
    → length chunk ≤ k
    → exact_outcome (k - length chunk) (buf ++ chunk) xs ≡ exact_outcome k buf (chunk ++ xs)
exact_outcome-append k buf chunk xs h = elim (Bool-cases (ltb (length xs) (k - length chunk))) [
  | inl short ↦
      let short' : ltb (length (chunk ++ xs)) k ≡ true =
        lt→ltb _ k (omega (arith, ltb→lt _ _ short, length-append chunk xs)) in
      rw (short, short')
  | inr long ↦
      let long' : ltb (length (chunk ++ xs)) k ≡ false =
        le→ltb _ k (omega (arith, not-ltb→le _ _ long, length-append chunk xs)) in
      rw (long, long', take-append_over k chunk xs h, append_assoc)
]

-- A portion that is no longer than what is wanted, and the rest of the way.
Meets-step :
    (k : ℕ) (buf chunk xs : Bytes) (o : Outcome) (rest : Bytes)
    → length chunk ≤ k
    → Meets (k - length chunk) (buf ++ chunk) xs o rest
    → Meets k buf (chunk ++ xs) o rest
Meets-step k buf chunk xs o rest h (e, f) = (
  e ∙ exact_outcome-append k buf chunk xs h,
  λ l. f (omega (arith, length-append chunk xs)) ∙ sym (drop-append_over k chunk xs h),
)

is_empty-cons : (xs : Bytes) → xs ≢ [] → is_empty xs ≡ false
is_empty-cons [] h = absurd (h refl)
is_empty-cons (x ∷ xs) h = refl

nonempty_length : (xs : Bytes) → xs ≢ [] → 0 < length xs
nonempty_length [] h = absurd (h refl)
nonempty_length (x ∷ xs) h = omega arith

module _ {S : Type 0} (read : ℕ → S → Bytes × S) (remaining : S → Bytes)
    (stream : IsStream read remaining) where
  read_loop-Meets :
      (fuel n : ℕ) (buf : Bytes) (s : S)
      → length buf ≤ n
      → n ≤ length buf + fuel
      → Meets
          (n - length buf)
          buf
          (remaining s)
          (read_loop read fuel n buf s).0
          (remaining (read_loop read fuel n buf s).1)
  unfolding read_loop
  read_loop-Meets zero n buf s h k =
      rw (le→ltb (length buf) n (omega arith)) (Meets-zero buf (remaining s) _ (omega arith))
  read_loop-Meets (suc fuel) n buf s h k = elim (Bool-cases (ltb (length buf) n)) [
    | inr done ↦
        rw done (Meets-zero buf (remaining s) _ (omega (arith, not-ltb→le (length buf) n done)))
    | inl more ↦
        let wanted = n - length buf in
        let some_wanted : 0 < wanted = omega (arith, ltb→lt (length buf) n more) in
        elim (List-cases (read wanted s).0) [
          | inl none_left ↦
              rw (more, none_left)
                (Meets-end buf (remaining s) _ wanted some_wanted
                  (stream.progress wanted s some_wanted none_left))
          | inr (c, cs, portion) ↦
              let chunk = (read wanted s).0 in
              let s' = (read wanted s).1 in
              let full : chunk ≢ [] = λ e. cc (portion, e) in
              let long = length-append buf chunk in
              let fits = stream.at_most wanted s in
              let same : n - length (buf ++ chunk) ≡ wanted - length chunk = omega (arith, long) in
              let ih =
                read_loop-Meets fuel n (buf ++ chunk) s' (omega (arith, long, fits))
                  (omega (arith, long, nonempty_length chunk full)) in
              rw (more, is_empty-cons chunk full, ← stream.front wanted s)
                (Meets-step wanted buf chunk (remaining s') _ _ fits (rw same at ih))
        ]
  ]

  -- On a stream that keeps the contract of `read`, `read_exact` returns the next `n` bytes,
  -- however they arrive, and `eof` exactly when fewer than `n` are to come; `n` rounds of its
  -- loop are enough.
  pub read_exact-Meets :
      (n : ℕ) (s : S)
      → Meets n [] (remaining s) (read_exact read n s).0 (remaining (read_exact read n s).1)
  unfolding read_exact
  read_exact-Meets n s =
      let same : n - 0 ≡ n = omega arith in
      rw same at (read_loop-Meets n n [] s (omega arith) (omega arith))
