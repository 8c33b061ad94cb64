-- ===== src/Base/Outcome.antt =====
-- The outcome of an instruction. A failed instruction reverts the whole transaction, so a failure
-- carries no state.
use mathlib.Core.Path.{◌≡◌, refl}
use mathlib.Core.Bool.{Bool, true, false}
use mathlib.Core.Logic.{◌⊎◌, inl, inr}
use mathlib.Core.Option.{Option, none, some}

-- Solana's `ProgramError`, as far as the programs return it themselves
pub data ProgramError : Type 0 where
  not_enough_account_keys invalid_instruction_data : ProgramError

pub data Failure (E : Type 0) : Type 0 where
  -- an error code of the program
  custom : E → Failure E
  -- an Anchor account constraint that names no error code of the program
  constraint : Failure E
  program : ProgramError → Failure E
  -- a program or a library that was called returned an error
  cpi : Failure E
  -- a panic: `unwrap` of `None`, a division by zero, an overflow under overflow-checks
  panic : Failure E

pub data Result {ℓ} (E : Type 0) (A : Type ℓ) : Type ℓ where
  err : Failure E → Result E A
  ok : A → Result E A

infixl 5 ◌>>=◌ ◌>>◌
-- `?`: the first failure is the result.
abbrev pub ◌>>=◌ {ℓ κ} :
    {E : Type 0} {A : Type ℓ} {B : Type κ} → Result E A → (A → Result E B) → Result E B
err failure >>= k = err failure
ok a >>= k = k a

abbrev pub ◌>>◌ {ℓ} : {E : Type 0} {B : Type ℓ} → Result E (Unit {0}) → Result E B → Result E B
m >> k = m >>= λ _. k

module _ {E : Type 0} where
  -- `require!(test, e)`, and the constraint `test @ e`
  abbrev pub require : Bool → E → Result E (Unit {0})
  require true e = ok tt
  require false e = err (custom e)

  -- an Anchor constraint with no error code of its own
  abbrev pub constrain : Bool → Result E (Unit {0})
  constrain true = ok tt
  constrain false = err constraint

  -- what a called program returns
  abbrev pub called {ℓ} : {A : Type ℓ} → Option A → Result E A
  called none = err cpi
  called (some a) = ok a

  -- `unwrap`
  abbrev pub unwrap {ℓ} : {A : Type ℓ} → Option A → Result E A
  unwrap none = err panic
  unwrap (some a) = ok a

-- Where a sequence succeeds, its first part does, and the rest does on the value of that.
pub >>=-eq-ok {ℓ κ} :
    {E : Type 0} {A : Type ℓ} {B : Type κ} {result : B} (first : Result E A) (rest : A → Result E B)
    → (first >>= rest) ≡ ok result
    → (value : A) × (first ≡ ok value) × (rest value ≡ ok result)
>>=-eq-ok (err failure) rest h = cc
>>=-eq-ok (ok value) rest h = (value, refl, h)

pub Result-cases {ℓ} :
    {E : Type 0} {A : Type ℓ} (r : Result E A)
    → ((a : A) × (r ≡ ok a)) ⊎ ((e : Failure E) × (r ≡ err e))
Result-cases (ok a) = inl (a, refl)
Result-cases (err e) = inr (e, refl)

pub require-ok : {E : Type 0} (b : Bool) (e : E) → require b e ≡ ok tt → b ≡ true
require-ok true e h = refl
require-ok false e h = cc
