-- ===== src/Errors.antt =====
-- priv/worker/errors.py: the structured errors, and Python's exceptions as values.
use nx_tinygrad.Base.{String, ◌≡◌, refl, Bool, true, false, ◌⊎◌, inl, inr}

-- The `error_class` of each subclass of `WorkerError`; `python_error` is any other exception, by the
-- name of its type.
pub data ErrorClass : Type 0 where
  worker_error protocol_error unsupported_operation unsupported_dtype : ErrorClass
  graph_validation_error device_unavailable stale_reference compile_error : ErrorClass
  python_error : String → ErrorClass

-- An exception. The message is its constant text: what an f-string puts into it, and `details`, are
-- left out.
pub record Failure : Type 0 where
  pub error_class : ErrorClass
  pub message : String

pub data Result {ℓ} (T : Type ℓ) : Type ℓ where
  raise : Failure → Result T
  ok : T → Result T

-- An exception goes past everything that would have followed.
infixl 5 ◌>>=◌
abbrev pub ◌>>=◌ {ℓ₁ ℓ₂} : {T : Type ℓ₁} {U : Type ℓ₂} → Result T → (T → Result U) → Result U
raise failure >>= next = raise failure
ok result >>= next = next result

infixl 5 ◌>>◌
abbrev pub ◌>>◌ {ℓ} : {U : Type ℓ} → Result (Unit {0}) → Result U → Result U
first >> next = first >>= λ done. next

abbrev pub fail {ℓ} : {T : Type ℓ} → ErrorClass → String → Result T
fail c m = raise (record { error_class = c; message = m })

-- `if not test: raise ...`
abbrev pub guard : Bool → ErrorClass → String → Result (Unit {0})
guard test c m = elim test [ true ↦ ok tt | false ↦ fail c m ]

-- A successful sequence, taken apart.
pub >>=-eq-ok {ℓ₁ ℓ₂} :
    {T : Type ℓ₁} {U : Type ℓ₂} (first : Result T) (next : T → Result U) {u : U}
    → (first >>= next) ≡ ok u
    → (t : T) × (first ≡ ok t) × (next t ≡ ok u)
>>=-eq-ok (raise failure) next h = cc
>>=-eq-ok (ok t) next h = (t, refl, h)

pub guard-eq-ok {ℓ} :
    {B : Type ℓ} (t : Bool) (c : ErrorClass) (m : String) (k : Result B) {b : B}
    → (guard t c m >> k) ≡ ok b
    → (t ≡ true) × (k ≡ ok b)
guard-eq-ok true c m k h = (refl, h)
guard-eq-ok false c m k h = cc

pub Result-cases {ℓ} :
    {A : Type ℓ} (r : Result A) → ((a : A) × (r ≡ ok a)) ⊎ ((e : Failure) × (r ≡ raise e))
Result-cases (ok a) = inl (a, refl)
Result-cases (raise e) = inr (e, refl)

pub ok_inj {ℓ} : {A : Type ℓ} {a b : A} → ok a ≡ ok b → a ≡ b
ok_inj h = cc

pub >>=_assoc {ℓ} :
    {A B C : Type ℓ} (m : Result A) (f : A → Result B) (g : B → Result C)
    → (m >>= f >>= g) ≡ (m >>= λ a. f a >>= g)
>>=_assoc (ok a) f g = refl
>>=_assoc (raise e) f g = refl
