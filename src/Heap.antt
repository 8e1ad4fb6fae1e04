-- ===== src/Heap.antt =====
-- kern/utilities/node.h: the nodes of lists and queues, at addresses. A routine is a command over
-- the heap; to follow a pointer that leads to no node is a `fault`.
pub mod Access
pub mod Chain
pub mod Splice
use hoo.Base.{
  ℕ, Option, none, some, Outcome, ok, panic, fault, spins, ◌==◌, if◌then◌else◌, Bool, true, false,
  String,
}

abbrev pub Ptr : Type 0
Ptr = ℕ

-- `node_t`
pub record Node : Type 0 where
  pub payload : ℕ
  pub next : Ptr

abbrev pub node : ℕ → Ptr → Node
node v q = record { payload = v; next = q }

abbrev pub Heap : Type 0
Heap = Ptr → Option Node

unfoldable pub write : Heap → Ptr → Node → Heap
write h p n a = if a == p then some n else h a

abbrev pub Cmd : Type 0 → Type 0
Cmd A = Heap → Outcome (A × Heap)

abbrev pub pure : {A : Type 0} → A → Cmd A
pure a h = ok (a, h)

abbrev pub and_then : {A B : Type 0} → Outcome (A × Heap) → (A → Cmd B) → Outcome (B × Heap)
and_then (ok (a, h)) k = k a h
and_then (panic s) k = panic s
and_then fault k = fault
and_then spins k = spins

infixl 5 ◌>>=◌ ◌>>◌
abbrev pub ◌>>=◌ : {A B : Type 0} → Cmd A → (A → Cmd B) → Cmd B
m >>= k = λ h. and_then (m h) k

abbrev pub ◌>>◌ : {B : Type 0} → Cmd (Unit {0}) → Cmd B → Cmd B
m >> k = m >>= λ _. k

abbrev pub panic_if : Bool → String → Cmd (Unit {0})
panic_if true s h = panic s
panic_if false s h = ok (tt, h)

-- `*p`
unfoldable pub load : Ptr → Cmd Node
load p h = elim (h p) [ none ↦ fault | some n ↦ ok (n, h) ]

-- `*p = n`, where a node is
unfoldable pub store : Ptr → Node → Cmd (Unit {0})
store p n h = elim (h p) [ none ↦ fault | some _ ↦ ok (tt, write h p n) ]

-- `p->next_ = q`
unfoldable pub set_next : Ptr → Ptr → Cmd (Unit {0})
unfolding load store
set_next p q = do n ← load p; store p (record n { next = q })
