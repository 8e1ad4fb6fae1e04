-- ===== src/Heap/Chain.antt =====
-- kern/utilities/node.h: chains of nodes through `next_`.
use hoo.Base.{refl, ℕ, zero, suc, ◌≡◌, ◌≢◌, Bool, false, ◌||◌, some, List, [], ◌∷◌, ◌==◌, arith}
use hoo.Heap.{Ptr, Node, node, Heap, write}

-- address and payload of each node, in order
abbrev pub Cells : Type 0
Cells = List (Ptr × ℕ)

abbrev pub has : Ptr → Cells → Bool
has a [] = false
has a (x ∷ xs) = (a == x.0) || has a xs

-- the node `k` steps behind `p`
abbrev pub node_at : ℕ → Ptr → Cells → Ptr
node_at zero p xs = p
node_at (suc k) p [] = p
node_at (suc k) p ((q, _) ∷ xs) = node_at k q xs

abbrev pub last_of : Ptr → Cells → Ptr
last_of p [] = p
last_of p ((q, _) ∷ xs) = last_of q xs

abbrev pub insert_at : ℕ → Ptr × ℕ → Cells → Cells
insert_at zero c xs = c ∷ xs
insert_at (suc k) c [] = c ∷ []
insert_at (suc k) c (x ∷ xs) = x ∷ insert_at k c xs

abbrev pub remove_at : ℕ → Cells → Cells
remove_at k [] = []
remove_at zero (x ∷ xs) = xs
remove_at (suc k) (x ∷ xs) = x ∷ remove_at k xs

module _ (null : Ptr) where
  -- `p` is a node with payload `u`, and its `next_` pointers lead through the distinct nodes `xs`
  -- to `null`.
  abbrev pub Chain : Heap → Ptr → ℕ → Cells → Type 0
  Chain h p u [] = h p ≡ some (node u null)
  Chain h p u ((q, v) ∷ xs) =
      (h p ≡ some (node u q)) × (q ≢ null) × (has p ((q, v) ∷ xs) ≡ false) × Chain h q v xs

  -- A write elsewhere leaves a chain alone.
  pub Chain-write :
      (h : Heap) (a : Ptr) (n : Node) (p : Ptr) (u : ℕ) (xs : Cells)
      → Chain h p u xs
      → (a == p) ≡ false
      → has a xs ≡ false
      → Chain (write h a n) p u xs
  unfolding write
  Chain-write h a n p u [] c ne out = ground arith
  Chain-write h a n p u ((q, v) ∷ xs) c ne out =
      (ground arith, c.1, c.2, Chain-write h a n q v xs c.3 (ground arith) (ground arith))

  abbrev pub head_of : Cells → Ptr
  head_of [] = null
  head_of ((q, _) ∷ xs) = q

  pub Chain-head :
      (h : Heap) (p : Ptr) (u : ℕ) (xs : Cells) → Chain h p u xs → h p ≡ some (node u (head_of xs))
  Chain-head h p u [] c = c
  Chain-head h p u (x ∷ xs) c = c.0

  pub has-insert_at :
      (a k : ℕ) (c : Ptr × ℕ) (xs : Cells)
      → (a == c.0) ≡ false
      → has a xs ≡ false
      → has a (insert_at k c xs) ≡ false
  has-insert_at a zero c xs ne out = ground arith
  has-insert_at a (suc k) c [] ne out = ground arith
  has-insert_at a (suc k) c (x ∷ xs) ne out = ground (arith, has-insert_at a k c xs)

pub has-remove_at : (a k : ℕ) (xs : Cells) → has a xs ≡ false → has a (remove_at k xs) ≡ false
has-remove_at a zero [] out = out
has-remove_at a (suc k) [] out = out
has-remove_at a zero (x ∷ xs) out = ground arith
has-remove_at a (suc k) (x ∷ xs) out = ground (arith, has-remove_at a k xs)

-- A chain is no cycle.
pub Chain-out :
    (null : Ptr) (h : Heap) (p u : ℕ) (xs : Cells) → Chain null h p u xs → has p xs ≡ false
Chain-out null h p u [] c = refl
Chain-out null h p u (x ∷ xs) c = c.2
