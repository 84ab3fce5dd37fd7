-- ===== src/Base/Faults.antt =====
-- How a call ends: with a value, or with the program stopped.
use mathlib.Core.Path.{◌≡◌, refl}
use mathlib.Core.Bool.{Bool, true, false}

-- `assertion`: a failed `assert`. `error`: Module::Error of BookSim, or `panic` of zsim, which
-- print a message and exit. `undefined`: a read or write that C++ leaves undefined.
pub data Fault : Type 0 where
  assertion error undefined : Fault

pub data Outcome {ℓ} (A : Type ℓ) : Type ℓ where
  ok : A → Outcome A
  stop : Fault → Outcome A

-- `assert(b)`.
abbrev pub check : Bool → Outcome (Unit {0})
check true = ok tt
check false = stop assertion

-- `if (b) Error(...)`.
abbrev pub error_if : Bool → Outcome (Unit {0})
error_if true = stop error
error_if false = ok tt

-- The program goes on only from a value.
module _ {κ} {B : Type κ} where
  infixl 5 ◌>>=◌ ◌>>◌
  abbrev pub ◌>>=◌ {ℓ} : {A : Type ℓ} (m : Outcome A) → (A → Outcome B) → Outcome B
  stop fault >>= next = stop fault
  ok value >>= next = next value

  abbrev pub ◌>>◌ : (m : Outcome (Unit {0})) → Outcome B → Outcome B
  stop fault >> next = stop fault
  ok done >> next = next

  -- Two calls in a row have succeeded only if each has.
  pub >>=-eq-ok {ℓ} :
      {A : Type ℓ} {b : B} (m : Outcome A) (next : A → Outcome B)
      → (m >>= next) ≡ ok b
      → (value : A) × (m ≡ ok value) × (next value ≡ ok b)
  >>=-eq-ok (stop fault) next e = cc
  >>=-eq-ok (ok value) next e = (value, refl, e)

  -- The program has passed an error's test.
  pub error_if-eq-ok :
      {b : B} (t : Bool) (next : Outcome B)
      → (error_if t >> next) ≡ ok b
      → (t ≡ false) × (next ≡ ok b)
  error_if-eq-ok true next e = cc
  error_if-eq-ok false next e = (refl, e)

  -- The program has passed an assertion.
  pub check-ok :
      {b : B} (t : Bool) (next : Outcome B) → (check t >> next) ≡ ok b → (t ≡ true) × (next ≡ ok b)
  check-ok true next e = (refl, e)
  check-ok false next e = cc

pub ok_inj {ℓ} : {A : Type ℓ} {a b : A} → ok a ≡ ok b → a ≡ b
ok_inj e = cc
