-- ===== src/Tasks/Sleep.antt =====
-- kern/sched/tasks.c: `sleep` hands the processor over, and the next `wakeup` of the resource makes
-- the task ready.
use hoo.Base.{
  ℕ, ◌≡◌, ◌≢◌, ◌++◌, List, [], ◌∷◌, Option, some, ok, true, false, arith, refl, ◌==◌, ==_refl,
  ==_ne, ap,
}
use hoo.Spinlock
use hoo.Spinlock.{Spinlock, test-free, wait-free}
use hoo.Tasks.{
  Tasks, Tid, Pcb, Switch, front, rest, update, current, retire, dispatch, dispatch_to, scheduler,
  page_up, sleep_enter, wakeup,
}
use hoo.Tasks.Wakeup.{waiting, others, wakeup-waiting}

abbrev asleep : Tasks → Tid → ℕ → Tid → Pcb
asleep s cur resource = update s.pcbs cur (record (s.pcbs cur) { sleep = resource })

-- A task that waits for a resource is taken off the processor, whatever is left of its slice.
scheduler-waits :
    (null : ℕ) (s : Tasks) (cur x : Tid) (r : List Tid)
    → s.lock ≡ 0
    → s.running ≡ cur ∷ []
    → s.ready ≡ x ∷ r
    → ((s.pcbs cur).sleep == null) ≡ false
    → scheduler null s
      ≡ ok (
        record s {
          ready = r;
          running = x ∷ [];
          sleeping = s.sleeping ++ cur ∷ [];
          lock = 0;
          esp0 = page_up (s.pcbs x).stack0;
        },
        some (record { from = some cur; to = x }),
      )
unfolding scheduler dispatch dispatch_to retire
scheduler-waits null s cur x r free run rdy waits =
    rw
      (
        test-free s.lock free,
        wait-free s.lock free,
        ap front run,
        waits,
        rdy,
        ap front run,
        ap rest run,
      )
      (rw waits refl)

module _ (null : ℕ) (s : Tasks) (cur x : Tid) (r : List Tid) (free : s.lock ≡ 0)
    (run : s.running ≡ cur ∷ []) (rdy : s.ready ≡ x ∷ r) (resource : ℕ) (named : resource ≢ null)
    (spin : Spinlock) (held : Spinlock.test spin ≡ 1) where
  -- The state that `sleep` leaves to the task that runs next.
  abbrev pub slept : Tasks
  slept = record s {
    ready = r;
    running = x ∷ [];
    sleeping = s.sleeping ++ cur ∷ [];
    lock = 0;
    intr = false;
    pcbs = asleep s cur resource;
    esp0 = page_up (asleep s cur resource x).stack0;
  }

  -- `sleep` puts the running task behind the sleepers, gives the resource's lock back and switches
  -- to the oldest ready task.
  pub sleep_enter-slept :
      sleep_enter null s resource spin
      ≡ ok (slept, Spinlock.signal spin, some (record { from = some cur; to = x }))
  unfolding sleep_enter current
  sleep_enter-slept =
      rw
        (
          ==_ne resource null named,
          held,
          wait-free s.lock free,
          ap front run,
          scheduler-waits null (record s { intr = false; lock = 0; pcbs = asleep s cur resource })
              cur x r refl run rdy (ground (arith, ==_refl cur)),
        )
        refl

waiting-snoc :
    (f : Tid → Pcb) (k : ℕ) (ts : List Tid) (t : Tid)
    → ((f t).sleep == k) ≡ true
    → waiting f k (ts ++ t ∷ []) ≡ waiting f k ts ++ t ∷ []
waiting-snoc f k [] t h = ground arith
waiting-snoc f k (u ∷ ts) t h = ground (arith, waiting-snoc f k ts t h)

-- A task that holds the lock of a resource and sleeps on it, while another task is ready, gives
-- the lock back and leaves the processor to the oldest ready task, and the next wakeup of the
-- resource makes it ready, behind those that have slept on it for longer.
pub wakeup-sleep_enter :
    (null : ℕ) (s : Tasks) (cur x : Tid) (r : List Tid)
    → s.lock ≡ 0
    → s.running ≡ cur ∷ []
    → s.ready ≡ x ∷ r
    → (resource : ℕ) → resource ≢ null
    → (spin : Spinlock) → Spinlock.test spin ≡ 1
    → (s₁ : Tasks) × (s₂ : Tasks) × (sw : Option Switch) × (sleep_enter null s resource spin
        ≡ ok (s₁, 0, sw))
      × (wakeup s₁ resource ≡ ok s₂)
      × (s₂.ready ≡ r ++ (waiting s₁.pcbs resource s.sleeping ++ cur ∷ []))
      × (s₂.running ≡ x ∷ [])
unfolding Spinlock.signal
wakeup-sleep_enter null s cur x r free run rdy resource named spin held =
    let s₁ = slept null s cur x r free run rdy resource named spin held in
    let same : (asleep s cur resource cur).sleep == resource ≡ true =
      ground (arith, ==_refl cur, ==_refl resource) in
    (
      s₁,
      record s₁ {
        sleeping = others s₁.pcbs resource s₁.sleeping;
        ready = r ++ waiting s₁.pcbs resource s₁.sleeping;
        lock = 0;
      },
      some (record { from = some cur; to = x }),
      sleep_enter-slept null s cur x r free run rdy resource named spin held,
      wakeup-waiting s₁ resource refl,
      ap (λ (w : List Tid). r ++ w)
          (waiting-snoc (asleep s cur resource) resource s.sleeping cur same),
      refl,
    )
