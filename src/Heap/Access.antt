-- ===== src/Heap/Access.antt =====
-- kern/utilities/node.h: reads and writes through a pointer that leads to a node.
use hoo.Base.{ℕ, ◌≡◌, false, some, ok, ◌==◌, arith}
use hoo.Heap.{Ptr, Node, node, Heap, write, load, set_next}

pub write_self : (h : Heap) (p : Ptr) (n : Node) → write h p n p ≡ some n
unfolding write
write_self h p n = ground arith

pub write-ne : (h : Heap) (p q : Ptr) (n : Node) → (q == p) ≡ false → write h p n q ≡ h q
unfolding write
write-ne h p q n ne = ground arith

pub load-some : (h : Heap) (p v q : ℕ) → h p ≡ some (node v q) → load p h ≡ ok (node v q, h)
unfolding load
load-some h p v q e = ground arith

pub set_next-some :
    (h : Heap) (p v q r : ℕ)
    → h p ≡ some (node v q)
    → set_next p r h ≡ ok (tt, write h p (node v r))
unfolding set_next
set_next-some h p v q r e = ground arith
