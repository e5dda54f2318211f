-- ===== src/Prelude/Results.antt =====
-- Python exceptions as values: a result is a value or the exception that was raised.
use mathlib.Core.Path.{◌≡◌, refl}
use mathlib.Core.Bool.{Bool, true, false}

-- The exception classes that the program raises itself, and one for all others.
pub data Error : Type 0 where
  value_error runtime_error key_error type_error assertion_error timeout_error index_error : Error

pub data Result {ℓ} (A : Type ℓ) : Type ℓ where
  ok : A → Result A
  raise : Error → Result A

infixl 5 ◌>>=◌ ◌>>◌
abbrev pub ◌>>=◌ {ℓ κ} : {A : Type ℓ} {B : Type κ} → Result A → (A → Result B) → Result B
ok a >>= f = f a
raise e >>= f = raise e

abbrev pub ◌>>◌ {ℓ} : {B : Type ℓ} → Result (Unit {0}) → Result B → Result B
m >> k = m >>= λ _. k

-- `if test: raise e`
abbrev pub raise_if : Bool → Error → Result (Unit {0})
raise_if true e = raise e
raise_if false e = ok tt

-- `assert test`
abbrev pub assert : Bool → Result (Unit {0})
assert true = ok tt
assert false = raise assertion_error

-- How a coroutine stands after a call: it returned, it raised, or it waits.
pub data Status : Type 0 where
  done : Status
  raised : Error → Status
  waiting : Status

abbrev pub is_ok {ℓ} : {A : Type ℓ} → Result A → Bool
is_ok (ok a) = true
is_ok (raise e) = false

pub ok_of_is_ok : (r : Result (Unit {0})) → is_ok r ≡ true → r ≡ ok tt
ok_of_is_ok (ok _) h = refl
ok_of_is_ok (raise e) h = cc

pub is_ok_of_eq : (r : Result (Unit {0})) → r ≡ ok tt → is_ok r ≡ true
is_ok_of_eq r h = rw h

-- A sequence returns only if its first part does, and then it is its second part.
pub >>-eq-ok : (r s : Result (Unit {0})) → (r >> s) ≡ ok tt → (r ≡ ok tt) × (s ≡ ok tt)
>>-eq-ok (ok _) s h = (refl, h)
>>-eq-ok (raise e) s h = cc

pub ok-injective {ℓ} : {A : Type ℓ} {a b : A} → ok a ≡ ok b → a ≡ b
ok-injective h = cc
