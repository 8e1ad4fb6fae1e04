-- ===== src/LinkedList/Seq.antt =====
-- kern/utilities/list.c against the list of its nodes, in order.
use hoo.Base.{
  ==_ne, ltb, leb, ◌%◌, ◌||◌, ◌^◌, ℕ, zero, suc, ◌+◌, ◌-◌, ◌≤◌, ◌<◌, ◌≡◌, ◌≢◌, refl, false, some,
  [], ◌∷◌, ok, ◌==◌, arith, length, ◌∙◌, get_elem?,
}
use hoo.Heap.{Ptr, node, Heap, write}
use hoo.Heap.Access.{write_self, write-ne, load-some, set_next-some}
use hoo.Heap.Chain.{Cells, has, node_at, insert_at, remove_at, Chain}
use hoo.Heap.Splice.{Chain-insert, Chain-remove, Removed, node_at-ne, spliced, unlinked}
use hoo.LinkedList
use hoo.LinkedList.{LinkedList, walk}

length-insert_at :
    (k : ℕ) (c : Ptr × ℕ) (xs : Cells) → k ≤ length xs → length (insert_at k c xs) ≡ length xs + 1
length-insert_at zero c xs le = omega arith
length-insert_at (suc k) c [] le = absurd (omega arith)
length-insert_at (suc k) c (x ∷ xs) le = omega (arith, length-insert_at k c xs (omega arith))

length-remove_at : (k : ℕ) (xs : Cells) → k < length xs → length (remove_at k xs) + 1 ≡ length xs
length-remove_at k [] lt = absurd (omega arith)
length-remove_at zero (x ∷ xs) lt = omega arith
length-remove_at (suc k) (x ∷ xs) lt = omega (arith, length-remove_at k xs (omega arith))

module _ (null : Ptr) where
  -- The list holds the nodes `xs`, and counts them.
  pub record IsList (h : Heap) (l : LinkedList) (xs : Cells) : Type 0 where
    pub chain : Chain null h l.sentinel null xs
    pub size : l.size ≡ length xs
    pub small : length xs + 1 < 2 ^ 31

  -- Neighbours in a chain are two nodes.
  node_at-step :
      (k : ℕ) (h : Heap) (p u : ℕ) (xs : Cells)
      → Chain null h p u xs
      → k < length xs
      → (node_at (suc k) p xs == node_at k p xs) ≡ false
  node_at-step k h p u [] c lt = absurd (omega arith)
  node_at-step zero h p u ((q, v) ∷ xs) c lt = ground (arith, c.2)
  node_at-step (suc k) h p u ((q, v) ∷ xs) c lt = node_at-step k h q v xs c.3 (omega arith)

  walk_lem :
      (k : ℕ) (h : Heap) (p u : ℕ) (xs : Cells)
      → Chain null h p u xs
      → k ≤ length xs
      → walk k p h ≡ ok (node_at k p xs, h)
  unfolding walk
  walk_lem zero h p u xs c le = refl
  walk_lem (suc k) h p u [] c le = absurd (omega arith)
  walk_lem (suc k) h p u ((q, v) ∷ xs) c le =
      rw (load-some h p u q c.0) (walk_lem k h q v xs c.3 (omega arith))

  module _ (h : Heap) (l : LinkedList) (xs : Cells) (is : IsList h l xs) where
    -- list_find returns the node at an index up to the size, the head node for 0.
    pub find-node_at :
        (idx : ℕ)
        → idx ≤ length xs
        → LinkedList.find null l idx h ≡ ok (node_at idx l.sentinel xs, h)
    unfolding LinkedList.find
    find-node_at idx le =
        let inside : (idx == 0xffffffff || leb (2 ^ 31) idx || ltb l.size idx) ≡ false =
          ground (arith, is.size, is.small) in
        rw inside (walk_lem idx h l.sentinel null xs is.chain le)

    insert_run :
        (n w r k fu fq : ℕ)
        → n ≢ null
        → (n == l.sentinel) ≡ false
        → has n xs ≡ false
        → h n ≡ some (node w r)
        → k ≤ length xs
        → length xs + 2 < 2 ^ 31
        → h (node_at k l.sentinel xs) ≡ some (node fu fq)
        → LinkedList.insert null l n (k + 1) h
          ≡ ok (
            record l { size = (l.size + 1) % 2 ^ 32 },
            spliced null h n w (node_at k l.sentinel xs) fu fq,
          )
    unfolding LinkedList.insert
    insert_run n w r k fu fq nn ne out at le small at_f =
        let h₁ : Heap = write h n (node w fq) in
        let inside : (k + 1 == 0xffffffff
              || leb (2 ^ 31) (k + 1)
              || k + 1 == 0
              || ltb ((l.size + 1) % 2 ^ 32) (k + 1))
            ≡ false =
          ground (arith, is.size, is.small) in
        let back : k + 1 - 1 ≡ k = omega arith in
        let apart : (node_at k l.sentinel xs == n) ≡ false = node_at-ne k n l.sentinel xs ne out in
        rw (
          ==_ne n null nn,
          inside,
          back,
          find-node_at k le,
          load-some h (node_at k l.sentinel xs) fu fq at_f,
          set_next-some h n w r fq at,
          set_next-some h₁ (node_at k l.sentinel xs) fu fq n
              (write-ne h n (node_at k l.sentinel xs) (node w fq) apart ∙ at_f),
        )

    remove_run :
        (k fu du dq : ℕ)
        → k < length xs
        → Removed null h k l.sentinel null xs fu du dq
        → LinkedList.remove null l (k + 1) h
          ≡ ok (
            (node_at (suc k) l.sentinel xs, record l { size = l.size - 1 }),
            unlinked null h (node_at k l.sentinel xs) fu (node_at (suc k) l.sentinel xs) du dq,
          )
    unfolding LinkedList.remove
    remove_run k fu du dq lt r =
        let f : ℕ = node_at k l.sentinel xs in
        let d : ℕ = node_at (suc k) l.sentinel xs in
        let h₁ : Heap = write h f (node fu dq) in
        let inside : (k + 1 == 0xffffffff
              || leb (2 ^ 31) (k + 1)
              || k + 1 == 0
              || ltb l.size (k + 1))
            ≡ false =
          ground (arith, is.size, is.small) in
        let back : k + 1 - 1 ≡ k = omega arith in
        rw (
          inside,
          back,
          find-node_at k (omega arith),
          load-some h f fu d r.before,
          load-some h d du dq r.here,
          set_next-some h f fu d dq r.before,
          set_next-some h₁ d du dq null (
              write-ne h f d (node fu dq) (node_at-step k h l.sentinel null xs is.chain lt)
              ∙ r.here),
        )

    -- list_insert puts a node that is not in the list at the index that it is given, from 1 to
    -- one behind the last.
    pub insert-insert_at :
        (n w r k : ℕ)
        → n ≢ null
        → (n == l.sentinel) ≡ false
        → has n xs ≡ false
        → h n ≡ some (node w r)
        → k ≤ length xs
        → length xs + 2 < 2 ^ 31
        → (l' : LinkedList) × (h' : Heap) × (LinkedList.insert null l n (k + 1) h ≡ ok (l', h'))
          × IsList h' l' (insert_at k (n, w) xs)
    insert-insert_at n w r k nn ne out at le small =
        let (fu, fq, at_f, ch) =
          Chain-insert null h n w nn k l.sentinel null xs is.chain le ne out in
        (
          record l { size = (l.size + 1) % 2 ^ 32 },
          spliced null h n w (node_at k l.sentinel xs) fu fq,
          insert_run n w r k fu fq nn ne out at le small at_f,
          record {
            chain = ch;
            size = omega (arith, is.size, is.small, length-insert_at k (n, w) xs le);
            small = omega (arith, length-insert_at k (n, w) xs le);
          },
        )

    -- list_remove takes out the node at the index that it is given, returns it with its next
    -- pointer cleared, and keeps the order of the others.
    pub remove-remove_at :
        (k : ℕ)
        → k < length xs
        → (d : ℕ) × (v : ℕ) × (l' : LinkedList) × (h' : Heap) × (LinkedList.remove null l (k + 1) h
            ≡ ok ((d, l'), h'))
          × (get_elem? xs k ≡ some (d, v))
          × (h' d ≡ some (node v null))
          × (has d (remove_at k xs) ≡ false)
          × IsList h' l' (remove_at k xs)
    remove-remove_at k lt =
        let (fu, du, dq, r) = Chain-remove null h k l.sentinel null xs is.chain lt in
        (
          node_at (suc k) l.sentinel xs,
          du,
          record l { size = l.size - 1 },
          unlinked null h (node_at k l.sentinel xs) fu (node_at (suc k) l.sentinel xs) du dq,
          remove_run k fu du dq lt r,
          r.cell,
          write_self (write h (node_at k l.sentinel xs) (node fu dq))
              (node_at (suc k) l.sentinel xs) (node du null),
          r.gone,
          record {
            chain = r.rest;
            size = omega (arith, is.size, length-remove_at k xs lt);
            small = omega (arith, is.small, length-remove_at k xs lt);
          },
        )
