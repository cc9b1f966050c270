-- ===== src/Registry/Laws.antt =====
-- What the registry promises: new ids, exact release, and `StaleReference` for everything else.
use nx_tinygrad.Base.{
  ℕ, ◌+◌, ◌-◌, ◌<◌, ◌≡◌, ◌≢◌, ap, ◌∙◌, none, some, List, [], ◌∷◌, length, arith, if◌then◌else◌,
  Bool-cases, inl, inr, Option-cases,
}
use nx_tinygrad.Json.{Value, Items}
use nx_tinygrad.Errors.{Result, ok, fail, stale_reference}
use nx_tinygrad.Dict.{Dict, lookup, insert, lookup-insert, lookup-insert_self}
use nx_tinygrad.Dict.Keys.{NodupKeys, insert-NodupKeys, length-insert_new}
use nx_tinygrad.Dict.PopAll.{
  contains, without, lookup-without, pop_all-without, without-NodupKeys, without-without,
}
use nx_tinygrad.Registry.{
  Buffer, TensorRegistry, init, put, found, get, release, count, sum_bytes, total_bytes, clear,
}

-- Each id once, each below the next one, each on the buffer that it names.
pub record IsWellFormed {T : Type 0} (r : TensorRegistry T) : Type 0 where
  pub unique : NodupKeys r.buffers
  pub below : (i : ℕ) (b : Buffer T) → lookup i r.buffers ≡ some b → i < r.next_id
  pub named : (i : ℕ) (b : Buffer T) → lookup i r.buffers ≡ some b → b.id ≡ i

abbrev pub stale : {T : Type 0} → Result (Buffer T)
stale = fail stale_reference "buffer is not resident in this worker generation"

module _ {T : Type 0} where
  pub init-IsWellFormed : IsWellFormed (init {T = T})
  unfolding lookup
  init-IsWellFormed = record { unique = tt; below = λ i b e. cc; named = λ i b e. cc }

  new_absent : (r : TensorRegistry T) → IsWellFormed r → lookup r.next_id r.buffers ≡ none
  new_absent r w = elim (Option-cases (lookup r.next_id r.buffers)) [
    | inl e ↦ e
    | inr (b, e) ↦ absurd (omega (arith, w.below r.next_id b e))
  ]

  sum_bytes-insert_new :
      (i : ℕ) (b : Buffer T) (d : Dict (Buffer T))
      → lookup i d ≡ none
      → sum_bytes (insert i b d) ≡ sum_bytes d + b.nbytes
  unfolding sum_bytes lookup insert
  sum_bytes-insert_new i b [] h = omega arith
  sum_bytes-insert_new i b ((j, c) ∷ d) h = ground (arith, sum_bytes-insert_new i b d)

  module _ (tensor : T) (shape : Items) (dtype : Value) (nbytes : ℕ) (r : TensorRegistry T) where
    abbrev entry : Buffer T
    entry = record {
      id = r.next_id;
      tensor = tensor;
      shape = shape;
      dtype = dtype;
      nbytes = nbytes;
    }

    abbrev after : TensorRegistry T
    after = (put tensor shape dtype nbytes none r).1

    pub put-IsWellFormed : IsWellFormed r → IsWellFormed after
    unfolding put
    put-IsWellFormed w = record {
      unique = insert-NodupKeys r.next_id entry r.buffers w.unique;
      below = λ i b e. ground (arith, lookup-insert i r.next_id entry r.buffers, w.below i b);
      named = λ i b e. ground (arith, lookup-insert i r.next_id entry r.buffers, w.named i b);
    }

    -- `put` without an id, in a well-formed registry, stores the buffer under an id that no
    -- buffer had; every other id reads as before, and the count and the bytes grow by this
    -- buffer alone.
    pub put_new :
        IsWellFormed r
        → (get (put tensor shape dtype nbytes none r).0 r ≡ stale)
          × (get (put tensor shape dtype nbytes none r).0 after ≡ ok entry)
          × ((j : ℕ) → j ≢ (put tensor shape dtype nbytes none r).0 → get j after ≡ get j r)
          × (count after ≡ count r + 1)
          × (total_bytes after ≡ total_bytes r + nbytes)
    unfolding put get
    put_new w =
        let absent = new_absent r w in
        (
          rw absent,
          rw lookup-insert_self,
          λ j h. rw (lookup-insert j r.next_id entry r.buffers) (ground arith),
          length-insert_new r.next_id entry r.buffers absent,
          sum_bytes-insert_new r.next_id entry r.buffers absent,
        )

  module _ (ids : List ℕ) (r : TensorRegistry T) (w : IsWellFormed r) where
    -- `release` in a well-formed registry keeps exactly the buffers whose ids are not listed,
    -- and returns how many went: unknown and repeated ids are ignored.
    pub release_lem : release ids r ≡ (
      length r.buffers - length (without ids r.buffers),
      record r { buffers = without ids r.buffers },
    )
    unfolding release
    release_lem =
        rw (pop_all-without ids 0 r.buffers w.unique)
          (ap (λ (n : ℕ). (n, record r { buffers = without ids r.buffers })) (omega arith))

    -- After a release in a well-formed registry, a listed id raises `StaleReference`, and any
    -- other reads as before.
    pub get-release :
        (i : ℕ) → get i (release ids r).1 ≡ (if contains i ids then stale else get i r)
    unfolding get
    get-release i = elim (Bool-cases (contains i ids)) [
      | inl gone ↦ rw (release_lem, lookup-without i ids r.buffers, gone, found)
      | inr kept ↦ rw (release_lem, lookup-without i ids r.buffers, kept)
    ]

    pub release-IsWellFormed : IsWellFormed (release ids r).1
    release-IsWellFormed = rw release_lem (record {
      unique = without-NodupKeys ids r.buffers w.unique;
      below = λ i b e. ground (arith, lookup-without i ids r.buffers, w.below i b);
      named = λ i b e. ground (arith, lookup-without i ids r.buffers, w.named i b);
    })

  pub clear-IsWellFormed : (r : TensorRegistry T) → IsWellFormed (clear r)
  unfolding clear lookup
  clear-IsWellFormed r = record { unique = tt; below = λ i b e. cc; named = λ i b e. cc }

  -- A second release of the same ids, in a well-formed registry, changes nothing and counts
  -- nothing.
  release-release :
      (ids : List ℕ) (r : TensorRegistry T)
      → IsWellFormed r
      → release ids (release ids r).1 ≡ (0, (release ids r).1)
  release-release ids r w =
      release_lem ids (release ids r).1 (release-IsWellFormed ids r w)
      ∙ rw (release_lem ids r w, without-without ids r.buffers)
          (ap (λ (n : ℕ). (n, record r { buffers = without ids r.buffers })) (omega arith))
