-- ===== src/Queue/Tests.antt =====
-- kern/utilities/queue.c on a heap of four nodes.
use hoo.Base.{refl, ◌≡◌, true, [], ◌∷◌, ok, arith, none, some, if◌then◌else◌, ◌==◌}
use hoo.Heap.{Heap, Ptr, node}
use hoo.Queue
use hoo.Queue.{Queue, tail_end, head_end}
use hoo.Queue.Fifo.{IsQueue, push-append, pop-cons, Popped}
use hoo.Queue.HeadPush.{push-head_loses}

-- The head node 1 and the nodes 2 and 3 in the queue; node 4 stands apart. The null pointer is 0.
abbrev two : Heap
two a =
    if a == 1
    then some (node 0 2)
    else if a == 2
    then some (node 20 3)
    else if a == 3
    then some (node 30 0)
    else if a == 4
    then some (node 40 9)
    else none

abbrev two_queue : Queue
two_queue = record { sentinel = 1; head = 1; tail = 3 }

two-IsQueue : IsQueue 0 two two_queue ((2, 20) ∷ (3, 30) ∷ [])
two-IsQueue = record {
  chain = (refl, omega arith, refl, (refl, omega arith, refl, refl));
  tail = refl;
}

abbrev one : Heap
one a =
    if a == 1
    then some (node 0 2)
    else if a == 2
    then some (node 20 0)
    else if a == 4
    then some (node 40 9)
    else none

abbrev one_queue : Queue
one_queue = record { sentinel = 1; head = 1; tail = 2 }

one-IsQueue : IsQueue 0 one one_queue ((2, 20) ∷ [])
one-IsQueue = record { chain = (refl, omega arith, refl, refl); tail = refl }

push-append_example :
    (q' : Queue) × (h' : Heap) × (Queue.push 0 two_queue 4 tail_end two ≡ ok (q', h'))
    × IsQueue 0 h' q' ((2, 20) ∷ (3, 30) ∷ (4, 40) ∷ [])
push-append_example =
    push-append 0 two two_queue ((2, 20) ∷ (3, 30) ∷ []) two-IsQueue 4 40 9 (omega arith) refl refl
      refl

pop-cons_example :
    (out : Ptr) × (q' : Queue) × (h' : Heap) × (Queue.pop 0 two_queue two ≡ ok ((out, q'), h'))
    × Popped 0 2 20 ((3, 30) ∷ []) out q' h'
pop-cons_example = pop-cons 0 two two_queue 2 20 ((3, 30) ∷ []) two-IsQueue

push-head_loses_run :
    (h' : Heap) × (h'' : Heap) × (q'' : Queue) × (Queue.push 0 one_queue 4 head_end one
      ≡ ok (one_queue, h'))
    × (Queue.pop 0 one_queue h' ≡ ok ((2, q''), h''))
    × (Queue.is_empty q'' ≡ true)
push-head_loses_run =
    push-head_loses 0 one one_queue 2 20 one-IsQueue 4 40 9 (omega arith) refl refl refl
