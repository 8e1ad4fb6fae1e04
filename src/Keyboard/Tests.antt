-- ===== src/Keyboard/Tests.antt =====
-- kern/driver/8042/8042.c on a ring of four places.
use hoo.Base.{refl, ℕ, ◌≡◌, ◌<◌, [], ◌∷◌, ok, true, false, arith, zero, suc, inr, get_or, ◌%◌, ◌+◌}
use hoo.Ring.{Ring}
use hoo.Ring.Fifo.{IsRing}
use hoo.Tasks.{Tasks}
use hoo.Keyboard.{Keyboard, ps2_intr}
use hoo.Keyboard.Decode.{typed, ps2_intr-append, ps2_intr-control}

abbrev empty : Ring
empty = record { capacity = 4; buff = 0 ∷ 0 ∷ 0 ∷ 0 ∷ []; head = 2; tail = 2; lock = 0 }

empty-IsRing : IsRing empty []
empty-IsRing = record {
  size = refl;
  room = omega arith;
  tail = omega arith;
  head = refl;
  chars = λ k h. absurd (omega arith);
}

abbrev full : Ring
full = record { capacity = 2; buff = 97 ∷ 0 ∷ []; head = 1; tail = 0; lock = 0 }

full-chars : (k : ℕ) → k < 1 → get_or full.buff ((0 + k) % 2) 0 ≡ get_or (97 ∷ []) k 0
full-chars zero h = refl
full-chars (suc k) h = absurd (omega arith)

full-IsRing : IsRing full (97 ∷ [])
full-IsRing = record {
  size = refl;
  room = omega arith;
  tail = omega arith;
  head = refl;
  chars = full-chars;
}

-- Shift is held; the ring is at address 100, and task 5 sleeps on it.
abbrev shifted : Ring → Keyboard
shifted r = record { make_shift = true; make_caps = false; ring = r; ring_at = 100 }

abbrev tasks : Tasks
tasks = record {
  ready = 1 ∷ [];
  running = 0 ∷ [];
  sleeping = 5 ∷ [];
  expired = [];
  lock = 0;
  pcbs = λ t. record { stack0 = 0; stack3 = 0; pgdir_pa = 0; ticks = 1; sleep = 100; parent = 0 };
  esp0 = 0;
  intr = true;
}

-- The key of `a` gives an `A`.
ps2_intr-append_example :
    (r' : Ring) × (ps2_intr (shifted empty) 30 tasks
      ≡ ok (
        record (shifted empty) { ring = r' },
        record tasks { sleeping = []; ready = 1 ∷ 5 ∷ []; lock = 0 },
        false,
      ))
    × IsRing r' (65 ∷ [])
unfolding typed
ps2_intr-append_example =
    ps2_intr-append {k = shifted empty} empty-IsRing 30
      (omega arith, omega arith, omega arith, omega arith, omega arith) tasks refl (omega arith)

ps2_intr-control_run :
    ps2_intr (shifted empty) 58 tasks
    ≡ ok (record (shifted empty) { make_shift = true; make_caps = true }, tasks, false)
ps2_intr-control_run = ps2_intr-control (shifted empty) 58 tasks (inr (inr (inr (inr refl))))

-- Caps lock with shift gives a capital, and a mark is typed with shift alone.
typed_run : (typed true true 122 ≡ 90) × (typed false true 49 ≡ 49) × (typed true false 49 ≡ 33)
unfolding typed
typed_run = (refl, refl, refl)
