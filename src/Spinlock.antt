-- ===== src/Spinlock.antt =====
-- kern/utilities/spinlock.c and spinlock.h: the lock word, as one flow of control sees it.
pub mod Exclusion
mod Tests
use hoo.Base.{refl, arith, ◌≡◌, ℕ, ◌+◌, ◌%◌, Outcome, ok, spins, ◌==◌, if◌then◌else◌}

-- `spinlock_t`
abbrev pub Spinlock : Type 0
Spinlock = ℕ

unfoldable pub init : Spinlock
init = 0

-- `testl $1`: 1 if somebody holds the lock, else 0
unfoldable pub test : Spinlock → ℕ
test spin = spin % 2

-- It spins while the lock is held; `lock btsl $0` then sets bit 0.
unfoldable pub wait : Spinlock → Outcome Spinlock
unfolding test
wait spin = if test spin == 0 then ok (spin + 1) else spins

unfoldable pub signal : Spinlock → Spinlock
signal spin = 0

-- A free lock is taken at once; a lock that is held keeps the caller waiting.
pub test-free : (spin : Spinlock) → spin ≡ 0 → test spin ≡ 0
unfolding test
test-free spin e = omega arith

pub wait-free : (spin : Spinlock) → spin ≡ 0 → wait spin ≡ ok 1
unfolding wait
wait-free spin e = rw e refl

pub wait-held : (spin : Spinlock) → test spin ≡ 1 → wait spin ≡ spins
unfolding wait
wait-held spin e = ground arith
