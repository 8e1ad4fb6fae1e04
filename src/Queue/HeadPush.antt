-- ===== src/Queue/HeadPush.antt =====
-- kern/utilities/queue.c: `queue_push` with `HEAD`, which links the node behind the first one.
use hoo.Base.{==_refl, ℕ, ◌≡◌, ◌≢◌, refl, false, true, some, [], ◌∷◌, ok, ◌==◌, arith, ap, ◌∙◌, sym}
use mathlib.Core.Path.{fun_ext, subst₂}
use hoo.Heap.{Ptr, Node, node, Heap, write}
use hoo.Heap.Access.{write_self, write-ne, load-some, set_next-some}
use hoo.Heap.Chain.{Cells, has, Chain, head_of, Chain-head}
use hoo.Heap.Splice.{Chain-insert, spliced, unlinked}
use hoo.Queue
use hoo.Queue.{Queue, head_end}
use hoo.Queue.Fifo.{IsQueue, is_empty-cons, pop_run}

write-write : (h : Heap) (p : Ptr) (a b : Node) → write (write h p a) p b ≡ write h p b
unfolding write
write-write h p a b = fun_ext λ q. ground arith

push-head_facts :
    (null : Ptr) (h : Heap) (q : Queue) (d v n w r dq : ℕ)
    → (n == null) ≡ false
    → (q.head == q.tail) ≡ false
    → (q.head == n) ≡ false
    → (d == n) ≡ false
    → (n == n) ≡ true
    → h n ≡ some (node w r)
    → h q.head ≡ some (node null d)
    → h d ≡ some (node v dq)
    → Queue.push null q n head_end h
      ≡ ok (q, write (write (write h n (node w null)) n (node w dq)) d (node v n))
unfolding Queue.push
push-head_facts null h q d v n w r dq nn full hn dn nn' at_n at_h at_d =
    let h₁ : Heap = write h n (node w null) in
    let h₂ : Heap = write h₁ n (node w dq) in
    rw (
      nn,
      set_next-some h n w r null at_n,
      full,
      load-some h₁ q.head null d (write-ne h n q.head (node w null) hn ∙ at_h),
      load-some h₁ d v dq (write-ne h n d (node w null) dn ∙ at_d),
      set_next-some h₁ n w null dq (write_self h n (node w null)),
      load-some h₂ q.head null d
          (write-ne h₁ n q.head (node w dq) hn ∙ (write-ne h n q.head (node w null) hn ∙ at_h)),
      set_next-some h₂ d v dq n
          (write-ne h₁ n d (node w dq) dn ∙ (write-ne h n d (node w null) dn ∙ at_d)),
    )

module _ (null : Ptr) (h : Heap) (q : Queue) (d v : ℕ) (xs : Cells)
    (is : IsQueue null h q ((d, v) ∷ xs)) where
  module _ (n w r : ℕ) (nn : n ≢ null) (ne : (n == q.head) ≡ false)
      (out : has n ((d, v) ∷ xs) ≡ false) (at : h n ≡ some (node w r)) where
    push-head_run :
        (dq : ℕ)
        → h d ≡ some (node v dq)
        → Queue.push null q n head_end h
          ≡ ok (q, write (write (write h n (node w null)) n (node w dq)) d (node v n))
    unfolding Queue.is_empty
    push-head_run dq here =
        push-head_facts null h q d v n w r dq (ground arith) (is_empty-cons null h q d v xs is)
          (ground arith) (ground arith) (==_refl n) at is.chain.0 here

    -- The new node stands second.
    push-head_chain :
        (h' : Heap) × (Queue.push null q n head_end h ≡ ok (q, h'))
        × Chain null h' q.head null ((d, v) ∷ (n, w) ∷ xs)
    push-head_chain =
        let (fu, fq, at_d, ch) =
          Chain-insert null h n w nn 1 q.head null ((d, v) ∷ xs) is.chain (omega arith) ne out in
        let here : h d ≡ some (node v (head_of null xs)) = Chain-head null h d v xs is.chain.3 in
        let same : some (node fu fq) ≡ some (node v (head_of null xs)) = sym at_d ∙ here in
        let fu_eq : fu ≡ v = cc in
        let fq_eq : fq ≡ head_of null xs = cc in
        (
          spliced null h n w d v (head_of null xs),
          push-head_run (head_of null xs) here
              ∙ ap (λ g. ok (q, write g d (node v n)))
                  (write-write h n (node w null) (node w (head_of null xs))),
          subst₂ (λ u x. Chain null (spliced null h n w d u x) q.head null ((d, v) ∷ (n, w) ∷ xs))
              fu_eq fq_eq ch,
        )

-- On a queue of two nodes or more, queue_push with HEAD puts the new node second.
pub push-head_second :
    (null : Ptr) (h : Heap) (q : Queue) (d v e y : ℕ) (xs : Cells)
    → IsQueue null h q ((d, v) ∷ (e, y) ∷ xs)
    → (n w r : ℕ) → n ≢ null
    → (n == q.head) ≡ false
    → has n ((d, v) ∷ (e, y) ∷ xs) ≡ false
    → h n ≡ some (node w r)
    → (h' : Heap) × (Queue.push null q n head_end h ≡ ok (q, h'))
      × IsQueue null h' q ((d, v) ∷ (n, w) ∷ (e, y) ∷ xs)
push-head_second null h q d v e y xs is n w r nn ne out at =
    let (h', run, ch) = push-head_chain null h q d v ((e, y) ∷ xs) is n w r nn ne out at in
    (h', run, record { chain = ch; tail = is.tail })

-- On a queue of one node, queue_push with HEAD loses the new node: the next queue_pop returns the
-- old node, and the queue is empty.
pub push-head_loses :
    (null : Ptr) (h : Heap) (q : Queue) (d v : ℕ)
    → IsQueue null h q ((d, v) ∷ [])
    → (n w r : ℕ) → n ≢ null
    → (n == q.head) ≡ false
    → (n == d) ≡ false
    → h n ≡ some (node w r)
    → (h' : Heap) × (h'' : Heap) × (q'' : Queue) × (Queue.push null q n head_end h ≡ ok (q, h'))
      × (Queue.pop null q h' ≡ ok ((d, q''), h''))
      × (Queue.is_empty q'' ≡ true)
unfolding Queue.is_empty
push-head_loses null h q d v is n w r nn ne nd at =
    let (h', run, ch) = push-head_chain null h q d v [] is n w r nn ne (ground arith) at in
    (
      h',
      unlinked null h' q.head null d v n,
      record q { tail = q.head },
      run,
      pop_run null h' q d v null n (is_empty-cons null h q d v [] is) ch.0 ch.3.0
            (ground (arith, ch.2))
          ∙ rw (is.tail, ==_refl d) refl,
      ==_refl q.head,
    )
