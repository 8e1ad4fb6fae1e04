-- ===== src/Base/Failure.antt =====
-- What a kernel routine ends in: a value, a call of `panic` (kern/panic.c, which halts the
-- machine), an access outside the object that it names, or a wait for a lock that nobody can give
-- back while the routine waits.

use Prim.Native.String.{String}
use mathlib.Core.Option.{Option, none, some}
use mathlib.Core.Bool.{Bool, true, false}

-- `panic` prints its message and stops the machine, so nothing follows it.
pub data Outcome {ℓ} (A : Type ℓ) : Type ℓ where
  ok : A → Outcome A
  panic : String → Outcome A
  fault : Outcome A
  spins : Outcome A

infixl 5 ◌>>=◌ ◌>>◌
abbrev pub ◌>>=◌ {ℓ κ} : {A : Type ℓ} {B : Type κ} → Outcome A → (A → Outcome B) → Outcome B
ok a >>= f = f a
panic s >>= f = panic s
fault >>= f = fault
spins >>= f = spins

abbrev pub ◌>>◌ {ℓ} : {B : Type ℓ} → Outcome (Unit {0}) → Outcome B → Outcome B
m >> k = m >>= λ _. k

-- `if (bad) panic(message);`
abbrev pub panic_if : Bool → String → Outcome (Unit {0})
panic_if true s = panic s
panic_if false s = ok tt

-- A read that the object may not hold.
abbrev pub checked {ℓ} : {A : Type ℓ} → Option A → Outcome A
checked none = fault
checked (some a) = ok a
