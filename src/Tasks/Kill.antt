-- ===== src/Tasks/Kill.antt =====
-- kern/sched/tasks.c: `kill`, whose loop steps on although it has removed the element.
use hoo.Base.{
  length-append, none, some, ℕ, zero, suc, ◌+◌, ◌≤◌, ◌<◌, ◌≡◌, ◌^◌, ◌*◌, List, [], ◌∷◌, ◌++◌, ok,
  Outcome, ◌>>=◌, arith, length, get_elem?, ap, ◌∙◌, refl, sym, get_elem?-none,
}
use mathlib.Core.List.{append_assoc}
use mathlib.Core.Path.{ap₂}
use native.Mathlib.Nat.{pow-suc}
use hoo.Tasks.{Tasks, Pcb, Tid, Freed, freed_of, update, zero_pcb, remove_from, kill_loop, kill}
use hoo.Tasks.Wakeup.{get_elem?-append, get_elem?-end, remove_from-append, length-snoc}

-- The first, third, … task of a list, and the second, fourth, ….
abbrev pub odds : List Tid → List Tid
odds [] = []
odds (t ∷ []) = t ∷ []
odds (t ∷ u ∷ ts) = t ∷ odds ts

abbrev pub evens : List Tid → List Tid
evens [] = []
evens (t ∷ []) = []
evens (t ∷ u ∷ ts) = u ∷ evens ts

-- The PCB table after the tasks were killed in turn, and what they gave back.
abbrev pub cleared : (Tid → Pcb) → List Tid → Tid → Pcb
cleared f [] = f
cleared f (t ∷ ts) = cleared (update f t zero_pcb) ts

abbrev pub freed : (Tid → Pcb) → List Tid → List Freed
freed f [] = []
freed f (t ∷ ts) = freed_of (f t) t ∷ freed (update f t zero_pcb) ts

-- What a round adds to the rest of the loop.
abbrev collect : Freed → Tasks × List Freed → Outcome (Tasks × List Freed)
collect f (s, fs) = ok (s, f ∷ fs)

kill_step :
    (fuel : ℕ) (s : Tasks) (i : ℕ) (t : Tid) (left : List Tid)
    → get_elem? s.expired i ≡ some t
    → remove_from i s.expired ≡ left
    → kill_loop (suc fuel) s i ≡ (
        kill_loop fuel (record s { expired = left; pcbs = update s.pcbs t zero_pcb }) (i + 1)
        >>= collect (freed_of (s.pcbs t) t))
unfolding kill_loop
kill_step fuel s i t left e r = rw (e, kill_loop) (rw r refl)

kill_stop :
    (fuel : ℕ) (s : Tasks) (i : ℕ)
    → get_elem? s.expired i ≡ none
    → kill_loop (suc fuel) s i ≡ ok (s, [])
unfolding kill_loop
kill_stop fuel s i e = rw (e, kill_loop) refl

-- The loop behind the tasks `pre`, which it has passed.
loop_lem :
    (fuel : ℕ) (s : Tasks) (pre suf : List Tid)
    → length suf < fuel
    → kill_loop fuel (record s { expired = pre ++ suf }) (length pre)
      ≡ ok (
        record s { expired = pre ++ evens suf; pcbs = cleared s.pcbs (odds suf) },
        freed s.pcbs (odds suf),
      )
loop_lem zero s pre suf h = absurd (omega arith)
loop_lem (suc fuel) s pre [] h =
    kill_stop fuel (record s { expired = pre ++ [] }) (length pre) (get_elem?-end pre)
loop_lem (suc zero) s pre (t ∷ suf) h = absurd (omega arith)
loop_lem (suc (suc fuel)) s pre (t ∷ []) h =
    kill_step (suc fuel) (record s { expired = pre ++ t ∷ [] }) (length pre) t (pre ++ [])
      (get_elem?-append pre t []) (remove_from-append pre t [])
    ∙ ap (λ o. o >>= collect (freed_of (s.pcbs t) t))
        (kill_stop fuel (record s { expired = pre ++ []; pcbs = update s.pcbs t zero_pcb })
          (length pre + 1)
          (get_elem?-none (pre ++ []) (length pre + 1) (omega (arith, length-append {0} pre []))))
loop_lem (suc (suc fuel)) s pre (t ∷ u ∷ suf) h =
    kill_step (suc fuel) (record s { expired = pre ++ t ∷ u ∷ suf }) (length pre) t (pre ++ u ∷ suf)
      (get_elem?-append pre t (u ∷ suf)) (remove_from-append pre t (u ∷ suf))
    ∙ ap (λ o. o >>= collect (freed_of (s.pcbs t) t))
        (ap₂
            (λ x i.
              kill_loop (suc fuel) (record s { expired = x; pcbs = update s.pcbs t zero_pcb }) i)
            (sym (append_assoc pre (u ∷ []) suf)) (sym (length-snoc pre u))
          ∙ (loop_lem (suc fuel) (record s { pcbs = update s.pcbs t zero_pcb }) (pre ++ u ∷ []) suf
                (omega arith)
              ∙ ap
                  (λ x. ok (
                    record s { expired = x; pcbs = cleared (update s.pcbs t zero_pcb) (odds suf) },
                    freed (update s.pcbs t zero_pcb) (odds suf),
                  ))
                  (append_assoc pre (u ∷ []) (evens suf))))

-- One call of kill frees the first, third and so on of the expired tasks and leaves the second,
-- fourth and so on.
pub kill-evens :
    (s : Tasks)
    → kill s
      ≡ ok (
        record s { expired = evens s.expired; pcbs = cleared s.pcbs (odds s.expired) },
        freed s.pcbs (odds s.expired),
      )
unfolding kill
kill-evens s = loop_lem (length s.expired + 1) s [] s.expired (omega arith)

-- `while (1) kill();` of kern/kern.c, for a number of rounds
unfoldable pub kill_rounds : ℕ → Tasks → Outcome Tasks
kill_rounds zero s = ok s
kill_rounds (suc n) s = do (s', freed) ← kill s; kill_rounds n s'

length-evens : (ts : List Tid) → 2 * length (evens ts) ≤ length ts
length-evens [] = omega arith
length-evens (t ∷ []) = omega arith
length-evens (t ∷ u ∷ ts) = omega (arith, length-evens ts)

nil_of_short : (ts : List Tid) → length ts < 1 → ts ≡ []
nil_of_short [] h = refl
nil_of_short (t ∷ ts) h = absurd (omega arith)

half : (n : ℕ) (ts : List Tid) → length ts < 2 ^ suc n → length (evens ts) < 2 ^ n
half n ts h = omega (arith, length-evens ts, pow-suc 2 n)

-- Fewer than 2 ^ n expired tasks are all gone after n calls of kill.
pub kill_rounds-empty :
    (n : ℕ) (s : Tasks)
    → length s.expired < 2 ^ n
    → (s' : Tasks) × (kill_rounds n s ≡ ok s') × (s'.expired ≡ [])
unfolding kill_rounds
kill_rounds-empty zero s h = (s, refl, nil_of_short s.expired (omega arith))
kill_rounds-empty (suc n) s h =
    let left : Tasks = record s {
      expired = evens s.expired;
      pcbs = cleared s.pcbs (odds s.expired);
    } in
    let (s', run, done) = kill_rounds-empty n left (half n s.expired h) in
    (s', rw (kill-evens s) run, done)
