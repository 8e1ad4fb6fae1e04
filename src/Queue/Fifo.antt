-- ===== src/Queue/Fifo.antt =====
-- kern/utilities/queue.c against a first-in first-out list of nodes.
use hoo.Base.{
  if◌then◌else◌, true, sym, ℕ, ◌≡◌, ◌≢◌, refl, false, some, [], ◌∷◌, ◌++◌, ok, ◌==◌, arith, length,
  ap, ◌∙◌,
}
use hoo.Heap.{load, set_next, Ptr, node, Heap, write}
use hoo.Heap.Chain.{Chain-head, head_of, Cells, has, last_of, node_at, insert_at, Chain}
use hoo.Heap.Splice.{remove_here, unlinked, Chain-insert, spliced}
use mathlib.Core.Path.{subst, subst₃}
use hoo.Queue
use hoo.Queue.{Queue, tail_end, head_end}

node_at-length : (p : ℕ) (xs : Cells) → node_at (length xs) p xs ≡ last_of p xs
node_at-length p [] = refl
node_at-length p ((q, v) ∷ xs) = node_at-length q xs

insert_at-length : (c : Ptr × ℕ) (xs : Cells) → insert_at (length xs) c xs ≡ xs ++ c ∷ []
insert_at-length c [] = refl
insert_at-length c (x ∷ xs) = ap (λ t. x ∷ t) (insert_at-length c xs)

last_of-snoc : (p : ℕ) (c : Ptr × ℕ) (xs : Cells) → last_of p (xs ++ c ∷ []) ≡ c.0
last_of-snoc p c [] = refl
last_of-snoc p c ((q, v) ∷ xs) = last_of-snoc q c xs

module _ (null : Ptr) where
  -- The queue holds the nodes `xs`, oldest first.
  pub record IsQueue (h : Heap) (q : Queue) (xs : Cells) : Type 0 where
    pub chain : Chain null h q.head null xs
    pub tail : q.tail ≡ last_of q.head xs

  Chain-last :
      (h : Heap) (p u : ℕ) (xs : Cells)
      → Chain null h p u xs
      → (fu : ℕ) × (h (last_of p xs) ≡ some (node fu null))
  Chain-last h p u [] c = (u, c)
  Chain-last h p u ((q, v) ∷ xs) c = Chain-last h q v xs c.3

  push-tail_run :
      (h : Heap) (q : Queue) (n w r fu : ℕ)
      → n ≢ null
      → h n ≡ some (node w r)
      → h q.tail ≡ some (node fu null)
      → (n == q.tail) ≡ false
      → Queue.push null q n tail_end h
        ≡ ok (record q { tail = n }, spliced null h n w q.tail fu null)
  unfolding Queue.push load set_next write
  push-tail_run h q n w r fu nn at end ne = ground arith

  last-ne :
      (n p : ℕ) (xs : Cells) → (n == p) ≡ false → has n xs ≡ false → (n == last_of p xs) ≡ false
  last-ne n p [] ne out = ne
  last-ne n p ((q, v) ∷ xs) ne out = last-ne n q xs (ground arith) (ground arith)

  module _ (h : Heap) (q : Queue) (xs : Cells) (is : IsQueue h q xs) where
    -- queue_push at the tail puts a node that is not in the queue behind all others.
    pub push-append :
        (n w r : ℕ)
        → n ≢ null
        → (n == q.head) ≡ false
        → has n xs ≡ false
        → h n ≡ some (node w r)
        → (q' : Queue) × (h' : Heap) × (Queue.push null q n tail_end h ≡ ok (q', h'))
          × IsQueue h' q' (xs ++ (n, w) ∷ [])
    push-append n w r nn ne out at =
        let (fu, fq, at_f, ch) =
          Chain-insert null h n w nn (length xs) q.head null xs is.chain (omega arith) ne out in
        let (gu, end) = Chain-last h q.head null xs is.chain in
        let place : node_at (length xs) q.head xs ≡ q.tail =
          node_at-length q.head xs ∙ sym is.tail in
        let at_tail : h q.tail ≡ some (node gu null) = ap h is.tail ∙ end in
        let same : some (node fu fq) ≡ some (node gu null) = sym at_f ∙ (ap h place ∙ at_tail) in
        let fu_eq : fu ≡ gu = cc in
        let fq_eq : fq ≡ null = cc in
        (
          record q { tail = n },
          spliced null h n w q.tail gu null,
          push-tail_run h q n w r gu nn at at_tail (rw is.tail (last-ne n q.head xs ne out)),
          record {
            chain =
                subst₃
                  (λ f u x. Chain null (spliced null h n w f u x) q.head null (xs ++ (n, w) ∷ []))
                  place fu_eq fq_eq (rw (insert_at-length (n, w) xs) at ch);
            tail = sym (last_of-snoc q.head (n, w) xs);
          },
        )

  last-ne_cons :
      (p d v : ℕ) (xs : Cells)
      → has p ((d, v) ∷ xs) ≡ false
      → (p == last_of p ((d, v) ∷ xs)) ≡ false
  last-ne_cons p d v xs out = last-ne p d xs (ground arith) (ground arith)

  -- `queue_isempty` tells whether the queue holds a node.
  pub is_empty-nil : (h : Heap) (q : Queue) → IsQueue h q [] → Queue.is_empty q ≡ true
  unfolding Queue.is_empty
  is_empty-nil h q is = ground (arith, is.tail)

  pub is_empty-cons :
      (h : Heap) (q : Queue) (d v : ℕ) (xs : Cells)
      → IsQueue h q ((d, v) ∷ xs)
      → Queue.is_empty q ≡ false
  unfolding Queue.is_empty
  is_empty-cons h q d v xs is = rw is.tail (last-ne_cons q.head d v xs is.chain.2)

  pub pop_run :
      (h : Heap) (q : Queue) (d v fu dq : ℕ)
      → Queue.is_empty q ≡ false
      → h q.head ≡ some (node fu d)
      → h d ≡ some (node v dq)
      → (d == q.head) ≡ false
      → Queue.pop null q h
        ≡ ok (
          (d, if d == q.tail then record q { tail = q.head } else q),
          unlinked null h q.head fu d v dq,
        )
  unfolding Queue.pop load set_next write
  pop_run h q d v fu dq ne at here apart = ground arith

  abbrev pub after_pop : Queue → Ptr → Queue
  after_pop q d = if d == q.tail then record q { tail = q.head } else q

  head-after_pop : (q : Queue) (d : Ptr) → (after_pop q d).head ≡ q.head
  head-after_pop q d = ground arith

  tail-after_pop :
      (h : Heap) (q : Queue) (d v : ℕ) (xs : Cells)
      → IsQueue h q ((d, v) ∷ xs)
      → (after_pop q d).tail ≡ last_of (after_pop q d).head xs
  tail-after_pop h q d v [] is = ground (arith, is.tail)
  tail-after_pop h q d v ((e, w) ∷ xs) is =
      let ne : (d == last_of e xs) ≡ false = last-ne_cons d e w xs (is.chain.3.2) in
      let other : (d == q.tail) ≡ false = subst (λ t. (d == t) ≡ false) (sym is.tail) ne in
      rw other is.tail

  -- `queue_pop` takes the oldest node out and clears its `next_`.
  pub record Popped (d v : ℕ) (xs : Cells) (out : Ptr) (q' : Queue) (h' : Heap) : Type 0 where
    pub node_out : out ≡ d
    pub rest : IsQueue h' q' xs
    pub cleared : h' d ≡ some (node v null)

  -- queue_pop on a queue with nodes returns the oldest, leaves the others in their order and
  -- clears the next pointer of the node it returns.
  pub pop-cons :
      (h : Heap) (q : Queue) (d v : ℕ) (xs : Cells)
      → IsQueue h q ((d, v) ∷ xs)
      → (out : Ptr) × (q' : Queue) × (h' : Heap) × (Queue.pop null q h ≡ ok ((out, q'), h'))
        × Popped d v xs out q' h'
  unfolding write
  pop-cons h q d v xs is =
      let apart : (d == q.head) ≡ false = ground (arith, is.chain.2) in
      (
        d,
        after_pop q d,
        unlinked null h q.head null d v (head_of null xs),
        pop_run h q d v null (head_of null xs) (is_empty-cons h q d v xs is) is.chain.0
            (Chain-head null h d v xs is.chain.3) apart,
        record {
          node_out = refl;
          rest = record {
            chain =
                subst
                  (λ p. Chain null (unlinked null h q.head null d v (head_of null xs)) p null xs)
                  (sym (head-after_pop q d)) (remove_here null h q.head null d v xs is.chain);
            tail = tail-after_pop h q d v xs is;
          };
          cleared = ground arith;
        },
      )

  -- From an empty queue `queue_pop` and `queue_front` return the null pointer and change nothing.
  pub pop-nil :
      (h : Heap) (q : Queue)
      → IsQueue h q []
      → (Queue.pop null q h ≡ ok ((null, q), h)) × (Queue.front null q h ≡ ok (null, h))
  unfolding Queue.pop Queue.front
  pop-nil h q is = ground (arith, is_empty-nil h q is)

  pub front-cons :
      (h : Heap) (q : Queue) (d v : ℕ) (xs : Cells)
      → IsQueue h q ((d, v) ∷ xs)
      → Queue.front null q h ≡ ok (d, h)
  unfolding Queue.front load
  front-cons h q d v xs is = ground (arith, is_empty-cons h q d v xs is, is.chain.0)
