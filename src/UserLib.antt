-- ===== src/UserLib.antt =====
-- user/lib.c: the byte and string routines that the kernel shares with the programs. A pointer is
-- an object (the list of its bytes) and an index into it; an access past the object is a `fault`.
pub mod Memory
pub mod Strings
use hoo.Base.{
  ℕ, zero, suc, ◌+◌, ◌≡◌, ◌<◌, ◌≢◌, Bool, true, false, List, [], ◌∷◌, Outcome, ok, fault, ◌>>=◌,
  checked, ◌==◌, ltb, if◌then◌else◌, length, get_elem?, get_or, set, arith, get_elem?-eq-get_or,
}

-- `buff[i]`
unfoldable pub load : List ℕ → ℕ → Outcome ℕ
load buff i = checked (get_elem? buff i)

-- `buff[i] = v`
unfoldable pub store : List ℕ → ℕ → ℕ → Outcome (List ℕ)
store buff i v = if ltb i (length buff) then ok (set buff i v) else fault

-- `memset(buff + i, fill, bufflen)`
unfoldable pub memset : List ℕ → ℕ → ℕ → ℕ → Outcome (List ℕ)
memset buff i fill zero = ok buff
memset buff i fill (suc n) = do b ← store buff i fill; memset b (i + 1) fill n

-- `bzero(buff, bufflen)`
unfoldable pub bzero : List ℕ → ℕ → Outcome (List ℕ)
bzero buff n = memset buff 0 0 n

-- `memmove(dst + i, src + j, size)`, forwards and a byte at a time, for two objects.
unfoldable pub memmove : List ℕ → ℕ → List ℕ → ℕ → ℕ → Outcome (List ℕ)
memmove dst i src j zero = ok dst
memmove dst i src j (suc n) = do c ← load src j; d ← store dst i c; memmove d (i + 1) src (j + 1) n

-- `strlen(str)`
unfoldable pub strlen : List ℕ → Outcome ℕ
strlen [] = fault
strlen (c ∷ s) = let rest = (strlen s >>= λ n. ok (n + 1)) in if c == 0 then ok 0 else rest

-- the loop of `strcmp`: `n` characters are left to compare from index `i`
unfoldable pub strcmp_loop : ℕ → ℕ → List ℕ → List ℕ → Outcome Bool
strcmp_loop zero i a b = ok true
strcmp_loop (suc n) i a b = do
  x ← load a i
  y ← load b i
  let rest = strcmp_loop n (i + 1) a b
  if x == y then rest else ok false

unfoldable pub strcmp : List ℕ → List ℕ → Outcome Bool
strcmp a b = do
  alen ← strlen a
  blen ← strlen b
  if alen == blen then strcmp_loop alen 0 a b else ok false

pub load-ok : (buff : List ℕ) (i : ℕ) → i < length buff → load buff i ≡ ok (get_or buff i 0)
unfolding load
load-ok buff i h = rw (get_elem?-eq-get_or buff i 0 h)

pub store-ok : (buff : List ℕ) (i v : ℕ) → i < length buff → store buff i v ≡ ok (set buff i v)
unfolding store
store-ok buff i v h = ground arith
