-- ===== src/Tasks/Wakeup.antt =====
-- kern/sched/tasks.c: `wakeup`, whose loop removes from the list that it walks.
use hoo.Base.{
  none, some, ℕ, zero, suc, ◌+◌, ◌<◌, ◌≡◌, List, [], ◌∷◌, ◌++◌, ok, ◌==◌, if◌then◌else◌, arith,
  length, get_elem?, Bool-cases, ap, ◌∙◌, refl, sym, inl, inr,
}
use mathlib.Core.List.{append_assoc, append-nil}
use mathlib.Core.Path.{ap₂}
use hoo.Tasks.{Tasks, Pcb, Tid, remove_from, task_ready, wakeup_loop, wakeup}

-- The tasks of a list that wait for the resource, and those that do not, each in order.
abbrev pub waiting : (Tid → Pcb) → ℕ → List Tid → List Tid
waiting f r [] = []
waiting f r (t ∷ ts) = if (f t).sleep == r then t ∷ waiting f r ts else waiting f r ts

abbrev pub others : (Tid → Pcb) → ℕ → List Tid → List Tid
others f r [] = []
others f r (t ∷ ts) = if (f t).sleep == r then others f r ts else t ∷ others f r ts

pub get_elem?-append :
    (xs : List Tid) (t : Tid) (ys : List Tid) → get_elem? (xs ++ t ∷ ys) (length xs) ≡ some t
get_elem?-append [] t ys = refl
get_elem?-append (x ∷ xs) t ys = get_elem?-append xs t ys

pub get_elem?-end : (xs : List Tid) → get_elem? (xs ++ []) (length xs) ≡ none
get_elem?-end [] = refl
get_elem?-end (x ∷ xs) = get_elem?-end xs

pub remove_from-append :
    (xs : List Tid) (t : Tid) (ys : List Tid) → remove_from (length xs) (xs ++ t ∷ ys) ≡ xs ++ ys
remove_from-append [] t ys = refl
remove_from-append (x ∷ xs) t ys = ap (λ z. x ∷ z) (remove_from-append xs t ys)

pub length-snoc : (xs : List Tid) (t : Tid) → length (xs ++ t ∷ []) ≡ length xs + 1
length-snoc [] t = omega arith
length-snoc (x ∷ xs) t = omega (arith, length-snoc xs t)

task_ready-free :
    (s : Tasks) (t : Tid)
    → task_ready (record s { lock = 0 }) t ≡ ok (record s { ready = s.ready ++ t ∷ []; lock = 0 })
unfolding task_ready
task_ready-free s t = refl

-- The loop behind the tasks `pre`, which it has passed.
loop_lem :
    (fuel : ℕ) (s : Tasks) (r : ℕ) (pre suf : List Tid)
    → length suf < fuel
    → wakeup_loop fuel (record s { sleeping = pre ++ suf; lock = 0 }) r (length pre)
      ≡ ok (record s {
        sleeping = pre ++ others s.pcbs r suf;
        ready = s.ready ++ waiting s.pcbs r suf;
        lock = 0;
      })
unfolding wakeup_loop
loop_lem zero s r pre suf h = absurd (omega arith)
loop_lem (suc fuel) s r pre [] h =
    rw (get_elem?-end pre, wakeup_loop) (rw (append-nil s.ready) refl)
loop_lem (suc fuel) s r pre (t ∷ suf) h = elim (Bool-cases ((s.pcbs t).sleep == r)) [
  | inl hit ↦
      rw (get_elem?-append pre t suf, wakeup_loop)
        (rw hit (
          rw (remove_from-append pre t suf) (
            loop_lem fuel (record s { ready = s.ready ++ t ∷ [] }) r pre suf (omega arith)
            ∙ ap (λ x. ok (record s { sleeping = pre ++ others s.pcbs r suf; ready = x; lock = 0 }))
                (append_assoc s.ready (t ∷ []) (waiting s.pcbs r suf)))))
  | inr miss ↦
      rw (get_elem?-append pre t suf, wakeup_loop)
        (rw miss (
          ap₂ (λ x i. wakeup_loop fuel (record s { sleeping = x; lock = 0 }) r i)
            (sym (append_assoc pre (t ∷ []) suf)) (sym (length-snoc pre t))
          ∙ (loop_lem fuel s r (pre ++ t ∷ []) suf (omega arith)
              ∙ ap
                  (λ x.
                    ok (record s {
                      sleeping = x;
                      ready = s.ready ++ waiting s.pcbs r suf;
                      lock = 0;
                    }))
                  (append_assoc pre (t ∷ []) (others s.pcbs r suf)))))
]

-- With the lock free, wakeup takes exactly the tasks that sleep on the resource out of the
-- sleepers and puts them behind the ready tasks, in their order.
pub wakeup-waiting :
    (s : Tasks) (resource : ℕ)
    → s.lock ≡ 0
    → wakeup s resource
      ≡ ok (record s {
        sleeping = others s.pcbs resource s.sleeping;
        ready = s.ready ++ waiting s.pcbs resource s.sleeping;
        lock = 0;
      })
unfolding wakeup
wakeup-waiting s resource free =
    ap (λ (l : ℕ). wakeup (record s { lock = l }) resource) free
    ∙ loop_lem (length s.sleeping + 1) s resource [] s.sleeping (omega arith)
