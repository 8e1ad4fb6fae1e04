-- ===== src/Tasks/Tests.antt =====
-- kern/sched/tasks.c on four tasks.
use hoo.Base.{◌++◌, ◌==◌, if◌then◌else◌, refl, ℕ, ◌≡◌, ◌≤◌, [], ◌∷◌, ok, arith, Option, true}
use hoo.Tasks.{
  sleep_enter, Tasks, Pcb, Tid, Switch, scheduler, wakeup, kill, freed_of, update, zero_pcb,
}
use hoo.Tasks.Conserve.{Kept, scheduler-Kept}
use hoo.Tasks.Wakeup.{wakeup-waiting, waiting}
use hoo.Tasks.Kill.{kill-evens, kill_rounds, kill_rounds-empty}
use hoo.Tasks.Sleep.{wakeup-sleep_enter}
use hoo.Spinlock.{test}
use hoo.Tasks.Fair.{Turn, ticks, ready-runs}

-- Tasks 1 and 2 are ready, 0 runs; the null pointer is 0.
abbrev pcb : ℕ → Pcb
pcb r = record {
  stack0 = 8191;
  stack3 = 12288;
  pgdir_pa = 0x101000;
  ticks = 3;
  sleep = r;
  parent = 0;
}

abbrev pcbs : Tid → Pcb
pcbs t = if t == 5 then pcb 77 else if t == 6 then pcb 88 else if t == 7 then pcb 77 else pcb 0

abbrev four : Tasks
four = record {
  ready = 1 ∷ 2 ∷ [];
  running = 0 ∷ [];
  sleeping = 5 ∷ 6 ∷ 7 ∷ [];
  expired = 8 ∷ 9 ∷ 10 ∷ [];
  lock = 0;
  pcbs = pcbs;
  esp0 = 0;
  intr = true;
}

four-Turn : Turn 0 four 0 (1 ∷ 2 ∷ [])
four-Turn = record {
  running = refl;
  ready = refl;
  unlocked = refl;
  current = (refl, omega arith);
  awake = ((refl, omega arith), ((refl, omega arith), tt));
}

scheduler-Kept_example :
    (s' : Tasks) × (sw : Option Switch) × (scheduler 0 four ≡ ok (s', sw)) × Kept four s'
scheduler-Kept_example = scheduler-Kept 0 four refl (omega arith)

wakeup-waiting_example :
    wakeup four 77 ≡ ok (record four { sleeping = 6 ∷ []; ready = 1 ∷ 2 ∷ 5 ∷ 7 ∷ []; lock = 0 })
wakeup-waiting_example = wakeup-waiting four 77 refl

kill-evens_example :
    kill four
    ≡ ok (
      record four { expired = 9 ∷ []; pcbs = update (update pcbs 8 zero_pcb) 10 zero_pcb },
      freed_of (pcb 0) 8 ∷ freed_of (pcb 0) 10 ∷ [],
    )
kill-evens_example = kill-evens four

kill_rounds-empty_run : (s' : Tasks) × (kill_rounds 2 four ≡ ok s') × (s'.expired ≡ [])
kill_rounds-empty_run = kill_rounds-empty 2 four (omega arith)

ready-runs_example :
    (k : ℕ) × (s' : Tasks) × (k ≤ 34) × (ticks 0 k four ≡ ok s') × (s'.running ≡ 2 ∷ [])
ready-runs_example = ready-runs 0 (1 ∷ []) [] four 0 2 four-Turn

test_held : test 1 ≡ 1
unfolding test
test_held = refl

-- Task 0 holds the lock of the resource 77.
wakeup-sleep_enter_example :
    (s₁ : Tasks) × (s₂ : Tasks) × (sw : Option Switch) × (sleep_enter 0 four 77 1 ≡ ok (s₁, 0, sw))
    × (wakeup s₁ 77 ≡ ok s₂)
    × (s₂.ready ≡ 2 ∷ (waiting s₁.pcbs 77 (5 ∷ 6 ∷ 7 ∷ []) ++ 0 ∷ []))
    × (s₂.running ≡ 1 ∷ [])
wakeup-sleep_enter_example =
    wakeup-sleep_enter 0 four 0 1 (2 ∷ []) refl refl refl 77 (omega arith) 1 test_held
