-- ===== src/Validate/Entities.antt =====
-- What one accepted entity of a graph adds to the ids that are known.
use nx_tinygrad.Base.{
  ℕ, ◌≡◌, refl, sym, ap, ◌∙◌, subst, String, true, not, ◌&&◌, Option, none, some, List, [], ◌∷◌,
  ◌++◌, arith, ◌==◌, Bool-cases, Option-cases, inl, inr, append_assoc, append-nil,
}
use nx_tinygrad.Errors.{Result, ok, >>=-eq-ok, guard-eq-ok, ok_inj}
use nx_tinygrad.Json.{Value, null, object, Items, nil, cons, get}
use nx_tinygrad.Wire.Integers.{Bytes}
use nx_tinygrad.Dtype.{Library}
use nx_tinygrad.Python.{get_value, get_or}
use nx_tinygrad.Dict.{lookup, lookup-insert}
use nx_tinygrad.Dict.PopAll.{contains}
use nx_tinygrad.Plan.Ids.{contains-append}
use nx_tinygrad.Validate.SubGraph.{value_of}
use nx_tinygrad.Validate.{
  is_some, Typing, Known, validate_constant, payload_of, validate_each, natural_int, required,
  define_id, define_entity, read_typing, with_spec, validate_input, all_distinct,
}

-- Each id is defined once, and has a shape and a dtype.
pub record IsKnown (k : Known) : Type 0 where
  pub distinct : all_distinct k.defined ≡ true
  pub typed : (i : ℕ) → contains i k.defined ≡ true → (t : Typing) × (lookup i k.specs ≡ some t)

-- `k'` knows `ids` on top of what `k` knows.
pub record Adds (k : Known) (ids : List ℕ) (k' : Known) : Type 0 where
  pub defined : k'.defined ≡ k.defined ++ ids
  pub keeps : IsKnown k → IsKnown k'

all_distinct-snoc :
    (xs : List ℕ) (n : ℕ) → all_distinct (xs ++ (n ∷ [])) ≡ (all_distinct xs && not (contains n xs))
unfolding all_distinct
all_distinct-snoc [] n = refl
all_distinct-snoc (x ∷ xs) n = ground (arith, all_distinct-snoc xs n, contains-append x xs (n ∷ []))

pub Adds-trans :
    {k k' k'' : Known} (xs ys : List ℕ) → Adds k xs k' → Adds k' ys k'' → Adds k (xs ++ ys) k''
Adds-trans {k} xs ys f g = record {
  defined = g.defined ∙ ap (λ (zs : List ℕ). zs ++ ys) f.defined ∙ append_assoc k.defined xs ys;
  keeps = λ h. g.keeps (f.keeps h);
}

pub Adds-nil : (k : Known) → Adds k [] k
Adds-nil k = record { defined = sym (append-nil k.defined); keeps = λ h. h }

required-eq-ok : {A : Type 0} (o : Option A) (m : String) {a : A} → required o m ≡ ok a → o ≡ some a
unfolding required
required-eq-ok none m h = cc
required-eq-ok (some a) m h = ap some (ok_inj h)

-- A new id with its spec.
define_id-Adds :
    (ident : Value) (k : Known) (n : ℕ) (k' : Known) (t : Typing)
    → define_id ident k ≡ ok (n, k')
    → (natural_int ident ≡ some n) × Adds k (n ∷ []) (with_spec n t k')
unfolding define_id
define_id-Adds ident k n k' t h =
    let (m, e, h1) = >>=-eq-ok (required (natural_int ident) "invalid id") _ h in
    let (new, h2) = guard-eq-ok (not (contains m k.defined)) _ _ _ h1 in
    let same : m ≡ n = ap (λ (p : ℕ × Known). p.0) (ok_inj h2) in
    let after : record k { defined = k.defined ++ (m ∷ []) } ≡ k' =
      ap (λ (p : ℕ × Known). p.1) (ok_inj h2) in
    let grown : Adds k (m ∷ []) (with_spec m t (record k { defined = k.defined ++ (m ∷ []) })) =
      record {
        defined = refl;
        keeps = λ known. record {
          distinct = ground (arith, all_distinct-snoc k.defined m, known.distinct);
          typed = λ i c. elim (Bool-cases (m == i)) [
            | inl here ↦ (t, rw (lookup-insert i m t k.specs, here) refl)
            | inr other ↦
                let (u, there) =
                  known.typed i (ground (arith, contains-append i k.defined (m ∷ []))) in
                (u, rw (lookup-insert i m t k.specs, other) there)
          ];
        };
      } in
    (
      required-eq-ok (natural_int ident) "invalid id" e ∙ ap some same,
      subst (λ (p : ℕ × Known). Adds k (p.0 ∷ []) (with_spec p.0 t p.1)) (ok_inj h2) grown,
    )

-- The id of an entity.
unfoldable pub entity_id : Value → Option ℕ
entity_id v = natural_int (value_of v "id")

pub get_or-value_of :
    (v : Value) (key : String) {w : Value} → get_or v key null ≡ ok w → value_of v key ≡ w
unfolding get_value
get_or-value_of (object d) key h = elim (Option-cases (get d key)) [
  | inl missing ↦ rw (value_of, missing) (ok_inj (rw missing at h))
  | inr (v, there) ↦ rw (value_of, there) (ok_inj (rw there at h))
]
get_or-value_of v key h = cc

pub define_entity-Adds :
    (v : Value) (k k' : Known)
    → define_entity v k ≡ ok k'
    → (n : ℕ) × (entity_id v ≡ some n) × Adds k (n ∷ []) k'
unfolding define_entity entity_id
define_entity-Adds v k k' h =
    let (ident, e, h1) = >>=-eq-ok (get_or v "id" null) _ h in
    let ((n, mid), e1, h2) = >>=-eq-ok (define_id ident k) _ h1 in
    let (t, e2, h3) = >>=-eq-ok (read_typing v) _ h2 in
    let (read, adds) = define_id-Adds ident k n mid t e1 in
    (n, rw (get_or-value_of v "id" e) read, subst (Adds k (n ∷ [])) (ok_inj h3) adds)

pub validate_input-Adds :
    (v : Value) (k k' : Known)
    → validate_input v k ≡ ok k'
    → (n : ℕ) × (entity_id v ≡ some n) × Adds k (n ∷ []) k'
unfolding validate_input entity_id
validate_input-Adds v k k' h =
    let (ident, e, h1) = >>=-eq-ok (get_or v "id" null) _ h in
    let ((n, mid), e1, h2) = >>=-eq-ok (define_id ident k) _ h1 in
    let (index, e2, h3) = >>=-eq-ok (get_or v "index" null) _ h2 in
    let (natural, h4) = guard-eq-ok (is_some (natural_int index)) _ _ _ h3 in
    let (t, e5, h5) = >>=-eq-ok (read_typing v) _ h4 in
    let (read, adds) = define_id-Adds ident k n mid t e1 in
    (n, rw (get_or-value_of v "id" e) read, subst (Adds k (n ∷ [])) (ok_inj h5) adds)

pub validate_constant-Adds :
    {A T : Type 0} (lib : Library A T) (blobs : List Bytes) (v : Value) (k k' : Known)
    → validate_constant lib blobs v k ≡ ok k'
    → (n : ℕ) × (entity_id v ≡ some n) × Adds k (n ∷ []) k'
unfolding validate_constant entity_id
validate_constant-Adds lib blobs v k k' h =
    let (ident, e, h1) = >>=-eq-ok (get_or v "id" null) _ h in
    let ((n, mid), e1, h2) = >>=-eq-ok (define_id ident k) _ h1 in
    let (t, e2, h3) = >>=-eq-ok (read_typing v) _ h2 in
    let (done, e3, h4) = >>=-eq-ok (payload_of lib blobs v t) _ h3 in
    let (read, adds) = define_id-Adds ident k n mid t e1 in
    (n, rw (get_or-value_of v "id" e) read, subst (Adds k (n ∷ [])) (ok_inj h4) adds)

-- The ids of several entities.
unfoldable pub entity_ids : Items → Option (List ℕ)
entity_ids nil = some []
entity_ids (cons v l) = elim (entity_id v) [
  | none ↦ none
  | some n ↦ elim (entity_ids l) [ none ↦ none | some ns ↦ some (n ∷ ns) ]
]

pub entity_ids-nil : entity_ids nil ≡ some []
unfolding entity_ids
entity_ids-nil = refl

pub entity_ids-cons :
    (v : Value) (l : Items) {n : ℕ} {ns : List ℕ}
    → entity_id v ≡ some n
    → entity_ids l ≡ some ns
    → entity_ids (cons v l) ≡ some (n ∷ ns)
unfolding entity_ids
entity_ids-cons v l e f = rw (entity_ids, e, f) refl

pub validate_each-Adds :
    (f : Value → Known → Result Known)
    → ((v : Value) (k k' : Known)
        → f v k ≡ ok k'
        → (n : ℕ) × (entity_id v ≡ some n) × Adds k (n ∷ []) k')
    → (l : Items) (k k' : Known) → validate_each f l k ≡ ok k'
    → (ns : List ℕ) × (entity_ids l ≡ some ns) × Adds k ns k'
unfolding validate_each
validate_each-Adds f one nil k k' h =
    ([], entity_ids-nil, subst (Adds k []) (ok_inj h) (Adds-nil k))
validate_each-Adds f one (cons v l) k k' h =
    let (mid, e, h1) = >>=-eq-ok (f v k) _ h in
    let (n, read, adds) = one v k mid e in
    let (ns, reads, more) = validate_each-Adds f one l mid k' h1 in
    (n ∷ ns, entity_ids-cons v l read reads, Adds-trans (n ∷ []) ns adds more)
