-- ===== src/Tasks/Conserve.antt =====
-- kern/sched/tasks.c: no routine of the scheduler loses or doubles a task.
use hoo.Base.{
  ◌-◌, ltb, ap, none, some, Bool-cases, inr, inl, ok, Bool-cases, refl, some, Option, ℕ, ◌+◌, ◌≤◌,
  ◌≡◌, List, [], ◌∷◌, ◌++◌, ◌==◌, if◌then◌else◌, arith, length,
}
use hoo.Spinlock.{test-free, wait-free}
use hoo.Tasks.{
  timeticks, update, Switch, scheduler, dispatch_to, retire, rest, front, Tasks, Tid, dispatch,
}

-- How often `a` stands in a list.
abbrev pub tally : Tid → List Tid → ℕ
tally a [] = 0
tally a (t ∷ ts) = (if a == t then 1 else 0) + tally a ts

pub tally-append : (a : Tid) (xs ys : List Tid) → tally a (xs ++ ys) ≡ tally a xs + tally a ys
tally-append a [] ys = omega arith
tally-append a (x ∷ xs) ys = omega (arith, tally-append a xs ys)

-- How often `a` stands in the two queues and the two lists.
abbrev pub total : Tid → Tasks → ℕ
total a s = tally a s.ready + tally a s.running + tally a s.sleeping + tally a s.expired

-- The same tasks, as often; at most one of them runs; the lock is free.
pub record Kept (s s' : Tasks) : Type 0 where
  pub same : (a : Tid) → total a s' ≡ total a s
  pub one_runs : length s'.running ≤ 1
  pub unlocked : s'.lock ≡ 0

tally_front : Tid → Option Tid → ℕ
tally_front a none = 0
tally_front a (some t) = if a == t then 1 else 0

tally-front-rest :
    (a : Tid) (xs : List Tid) → tally a xs ≡ tally_front a (front xs) + tally a (rest xs)
unfolding tally_front
tally-front-rest a [] = refl
tally-front-rest a (x ∷ xs) = refl

length-rest : (xs : List Tid) → length xs ≤ 1 → rest xs ≡ []
length-rest [] h = refl
length-rest (x ∷ []) h = refl
length-rest (x ∷ y ∷ xs) h = absurd (omega arith)

module _ (null : ℕ) where
  total-retire :
      (a : Tid) (s : Tasks) (o : Option Tid)
      → total a (retire null s o) ≡ total a s + tally_front a o
  unfolding retire tally_front
  total-retire a s none = omega arith
  total-retire a s (some t) = elim (Bool-cases ((s.pcbs t).sleep == null)) [
    | inl e ↦ rw e (omega (arith, tally-append a s.ready (t ∷ [])))
    | inr e ↦ rw e (omega (arith, tally-append a s.sleeping (t ∷ [])))
  ]

  running-retire : (s : Tasks) (o : Option Tid) → (retire null s o).running ≡ s.running
  unfolding retire
  running-retire s none = refl
  running-retire s (some t) = ground arith

  dispatch_to-Kept :
      (s : Tasks) (r : List Tid)
      → s.ready ≡ r
      → length s.running ≤ 1
      → Kept s (dispatch_to null s r).0
  unfolding dispatch_to
  dispatch_to-Kept s [] e one = record { same = λ a. refl; one_runs = one; unlocked = refl }
  dispatch_to-Kept s (next ∷ ready) e one =
      let left : Tasks = record s { ready = ready; running = rest s.running } in
      record {
        same = λ a. omega (
          arith,
          total-retire a left (front s.running),
          tally-append a (retire null left (front s.running)).running (next ∷ []),
          tally-front-rest a s.running,
          ap (tally a) e,
        );
        one_runs =
            rw (running-retire left (front s.running), length-rest s.running one) (omega arith);
        unlocked = refl;
      }

  dispatch-Kept :
      (s t : Tasks)
      → length s.running ≤ 1
      → t.ready ≡ s.ready
      → t.running ≡ s.running
      → t.sleeping ≡ s.sleeping
      → t.expired ≡ s.expired
      → Kept s (dispatch null t).0
  unfolding dispatch
  dispatch-Kept s t one r₁ r₂ r₃ r₄ =
      let k : Kept t (dispatch_to null t t.ready).0 = dispatch_to-Kept t t.ready refl (rw r₂ one) in
      record {
        same = λ a.
            omega
              (arith, k.same a, ap (tally a) r₁, ap (tally a) r₂, ap (tally a) r₃, ap (tally a) r₄);
        one_runs = k.one_runs;
        unlocked = k.unlocked;
      }

  -- With the lock free and at most one task running, scheduler loses no task and doubles none
  -- over the two queues and the two lists, leaves at most one task running and gives the lock
  -- back.
  pub scheduler-Kept :
      (s : Tasks)
      → s.lock ≡ 0
      → length s.running ≤ 1
      → (s' : Tasks) × (sw : Option Switch) × (scheduler null s ≡ ok (s', sw)) × Kept s s'
  unfolding scheduler
  scheduler-Kept s free one = go (front s.running) refl
    where
      held : Tasks
      held = record s { lock = 1 }

      refill : Tid → Tasks
      refill cur = record held {
        pcbs = update s.pcbs cur (record (s.pcbs cur) { ticks = timeticks });
      }

      go :
          (o : Option Tid)
          → front s.running ≡ o
          → (s' : Tasks) × (sw : Option Switch) × (scheduler null s ≡ ok (s', sw)) × Kept s s'
      go none e = (
        (dispatch null held).0,
        (dispatch null held).1,
        rw (test-free s.lock free, wait-free s.lock free, e),
        dispatch-Kept s held one refl refl refl refl,
      )
      go (some cur) e = elim (Bool-cases ((s.pcbs cur).sleep == null)) [
        | inl awake ↦ elim (Bool-cases (ltb 0 (s.pcbs cur).ticks)) [
          | inl more ↦ (
            record s {
              pcbs = update s.pcbs cur (record (s.pcbs cur) { ticks = (s.pcbs cur).ticks - 1 });
              lock = 0;
            },
            none,
            rw (test-free s.lock free, wait-free s.lock free, e, awake, more),
            record { same = λ a. refl; one_runs = one; unlocked = refl },
          )
          | inr spent ↦ (
            (dispatch null (refill cur)).0,
            (dispatch null (refill cur)).1,
            rw (test-free s.lock free, wait-free s.lock free, e, awake, spent),
            dispatch-Kept s (refill cur) one refl refl refl refl,
          )
        ]
        | inr asleep ↦ (
          (dispatch null held).0,
          (dispatch null held).1,
          rw (test-free s.lock free, wait-free s.lock free, e, asleep),
          dispatch-Kept s held one refl refl refl refl,
        )
      ]
