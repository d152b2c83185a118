-- ===== src/Py/Result.antt =====
-- Exceptions as values. One constructor for each class that the modelled code raises or catches.
use amarr.Prelude.{◌≡◌, refl, Bool, true, false}

pub data Exc : Type 0 where
  index_error struct_error type_error runtime_error recursion_error attribute_error : Exc
  value_error unicode_error overflow_error os_error timeout assertion_error key_error : Exc
  stop_iteration invalid_ec communication server_error not_found : Exc

pub data Result {ℓ} (A : Type ℓ) : Type ℓ where
  ok : A → Result A
  err : Exc → Result A

-- `OSError` and its subclass `TimeoutError`
abbrev pub is_os_error : Exc → Bool
is_os_error os_error = true
is_os_error timeout = true
is_os_error _ = false

abbrev unless_os_error : Exc → Bool → Result (Unit {0})
unless_os_error e true = ok tt
unless_os_error e false = err e

-- `except OSError`, where the handler does no more than log
abbrev pub ignore_os_error : Result (Unit {0}) → Result (Unit {0})
ignore_os_error (ok a) = ok a
ignore_os_error (err e) = unless_os_error e (is_os_error e)

-- `if not test: raise e`
abbrev pub guard : Bool → Exc → Result (Unit {0})
guard true e = ok tt
guard false e = err e

-- What follows a statement is not run after an exception.
infixl 5 ◌>>=◌
abbrev pub ◌>>=◌ {ℓ κ} : {A : Type ℓ} {B : Type κ} → Result A → (A → Result B) → Result B
ok a >>= next = next a
err e >>= next = err e

infixl 5 ◌>>◌
abbrev pub ◌>>◌ {κ} : {B : Type κ} → Result (Unit {0}) → Result B → Result B
first >> next = first >>= λ _. next

-- When a sequence succeeds, so does its first step, and the others on what that gives.
pub >>=-eq-ok {κ ℓ} :
    {B : Type κ} {A : Type ℓ} {result : B} (step : Result A) (next : A → Result B)
    → (step >>= next) ≡ ok result
    → (value : A) × (step ≡ ok value) × (next value ≡ ok result)
>>=-eq-ok (ok value) next done = (value, refl, done)
>>=-eq-ok (err raised) next done = cc

pub ok-injective {ℓ} : {A : Type ℓ} {a b : A} → ok a ≡ ok b → a ≡ b
ok-injective h = cc
