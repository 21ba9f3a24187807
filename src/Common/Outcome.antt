-- ===== src/Common/Outcome.antt =====
-- Go's `(value, error)` results.
use Prim.Native.String.{String, ◌++◌}
use mathlib.Core.Path.{◌≡◌, refl}
use mathlib.Core.Logic.{◌⊎◌, inl, inr}

-- An `error` value. The sentinels are those that the program compares with `==`.
pub data GoError : Type 0 where
  no_rows redis_nil : GoError
  failure : String → GoError

pub data Result {ℓ} (A : Type ℓ) : Type ℓ where
  ok : A → Result A
  err : GoError → Result A

pub Result-cases {ℓ} :
    {A : Type ℓ} (r : Result A) → ((a : A) × (r ≡ ok a)) ⊎ ((e : GoError) × (r ≡ err e))
Result-cases (ok a) = inl (a, refl)
Result-cases (err e) = inr (e, refl)

-- `err.Error()`. The texts of the sentinels are those of database/sql and go-redis.
abbrev pub error_text : GoError → String
error_text no_rows = "sql: no rows in result set"
error_text redis_nil = "redis: nil"
error_text (failure text) = text

-- `fmt.Errorf("<text>: %w", err)`. No caller unwraps such an error, so its text is all of it.
abbrev pub context {ℓ} : {A : Type ℓ} → String → Result A → Result A
context text (ok a) = ok a
context text (err e) = err (failure (text ++ ": " ++ error_text e))

infixl 5 ◌>>=◌
abbrev pub ◌>>=◌ {ℓ} : {A B : Type ℓ} → Result A → (A → Result B) → Result B
ok value >>= next = next value
err failed >>= next = err failed

-- A chain that succeeds has succeeded at its first call.
pub >>=-eq-ok {ℓ} :
    {A B : Type ℓ} (first : Result A) (next : A → Result B) {result : B}
    → (first >>= next) ≡ ok result
    → (value : A) × (first ≡ ok value) × (next value ≡ ok result)
>>=-eq-ok (ok value) next e = (value, refl, e)
>>=-eq-ok (err failed) next e = cc
