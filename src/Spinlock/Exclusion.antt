-- ===== src/Spinlock/Exclusion.antt =====
-- kern/utilities/spinlock.c: several flows of control that wait for one lock and give it back.
-- The test and the locked bit-test-and-set of `wait` are two steps, and others may come between.
use hoo.Base.{
  ℕ, ◌+◌, ◌≡◌, ◌≢◌, refl, sym, ◌∙◌, ap, ◌==◌, if◌then◌else◌, arith, ℕ_discrete, ==_refl, ==_ne,
}
use mathlib.Core.Path.{subst}
use hoo.Spinlock
use hoo.Spinlock.{Spinlock}

-- Where a flow of control is: not in `wait`, behind its test, or behind `wait` and before `signal`
pub data Phase : Type 0 where
  outside tested holding : Phase

pub record State : Type 0 where
  pub spin : Spinlock
  pub phase : ℕ → Phase

abbrev pub moved : State → ℕ → Phase → Spinlock → State
moved s t p v = record { spin = v; phase = λ u. if u == t then p else s.phase u }

pub data Step : State → State → Type 0 where
  -- `while (test(spin));` comes to its end.
  pass :
      (s : State) (t : ℕ)
      → s.phase t ≡ outside
      → Spinlock.test s.spin ≡ 0
      → Step s (moved s t tested s.spin)
  -- `lock btsl` finds the bit clear and sets it.
  win :
      (s : State) (t : ℕ)
      → s.phase t ≡ tested
      → Spinlock.test s.spin ≡ 0
      → Step s (moved s t holding (s.spin + 1))
  -- It finds the bit set: `jc 1b`.
  lose :
      (s : State) (t : ℕ)
      → s.phase t ≡ tested
      → Spinlock.test s.spin ≢ 0
      → Step s (moved s t outside s.spin)
  -- `signal(spin)`
  leave :
      (s : State) (t : ℕ)
      → s.phase t ≡ holding
      → Step s (moved s t outside (Spinlock.signal s.spin))

pub data Reached : State → Type 0 where
  start :
      (phase : ℕ → Phase)
      → ((t : ℕ) → phase t ≡ outside)
      → Reached (record { spin = Spinlock.init; phase = phase })
  next : (s s' : State) → Reached s → Step s s' → Reached s'

-- Nobody holds the lock and it is free, or one does and it is taken.
pub data Exclusive (s : State) : Type 0 where
  free : s.spin ≡ 0 → ((u : ℕ) → s.phase u ≢ holding) → Exclusive s
  held :
      (t : ℕ)
      → s.spin ≡ 1
      → s.phase t ≡ holding
      → ((u : ℕ) → s.phase u ≡ holding → u ≡ t)
      → Exclusive s

-- Who holds the lock after a move to a phase that does not hold it
still :
    (s : State) (t u : ℕ) (p : Phase) (v : Spinlock)
    → p ≢ holding
    → (moved s t p v).phase u ≡ holding
    → (u ≢ t) × (s.phase u ≡ holding)
still s t u p v np h = elim (ℕ_discrete u t) [
  | yes e ↦ absurd (np (sym (rw (ap (λ x. x == t) e ∙ ==_refl t)) ∙ h))
  | no ne ↦ (ne, sym (rw (==_ne u t ne)) ∙ h)
]

moved_self : (s : State) (t : ℕ) (p : Phase) (v : Spinlock) → (moved s t p v).phase t ≡ p
moved_self s t p v = rw (==_refl t) refl

-- A move to a phase that does not hold the lock, by one that did not hold it
free_moved :
    (s : State) (t : ℕ) (p : Phase)
    → p ≢ holding
    → s.phase t ≢ holding
    → Exclusive s
    → Exclusive (moved s t p s.spin)
free_moved s t p np nt (free z none) = free z (λ u h. none u ((still s t u p s.spin np h).1))
free_moved s t p np nt (held o z h only) =
    held o z (rw (==_ne o t (λ e. nt (subst (λ x. s.phase x ≡ holding) e h))) h)
      (λ u g. only u ((still s t u p s.spin np g).1))

outside_holds : outside ≢ holding
outside_holds h = cc

tested_holds : tested ≢ holding
tested_holds h = cc

step-Exclusive : (s s' : State) → Step s s' → Exclusive s → Exclusive s'
unfolding Spinlock.test Spinlock.signal
step-Exclusive s _ (pass _ t o z) e =
    free_moved s t tested tested_holds (λ h. outside_holds (sym o ∙ h)) e
step-Exclusive s _ (lose _ t o z) e =
    free_moved s t outside outside_holds (λ h. tested_holds (sym o ∙ h)) e
step-Exclusive s _ (win _ t o z) (free v none) =
    held t (omega arith) (moved_self s t holding (s.spin + 1)) (λ u h. elim (ℕ_discrete u t) [
      | yes e ↦ e
      | no ne ↦ absurd (none u (sym (rw (==_ne u t ne) refl) ∙ h))
    ])
step-Exclusive s _ (win _ t o z) (held o' v h only) = absurd (omega arith)
step-Exclusive s _ (leave _ t o) (free v none) = absurd (none t o)
step-Exclusive s _ (leave _ t o) (held o' v h only) =
    free refl (λ u g. leaves u (still s t u outside (Spinlock.signal s.spin) outside_holds g))
  where
    leaves : (u : ℕ) → (u ≢ t) × (s.phase u ≡ holding) → ⊥
    leaves u (ne, h') = ne (only u h' ∙ sym (only t o))

reached-Exclusive : (s : State) → Reached s → Exclusive s
unfolding Spinlock.init
reached-Exclusive _ (start phase out) = free refl (λ u h. outside_holds (sym (out u) ∙ h))
reached-Exclusive s' (next s _ r step) = step-Exclusive s s' step (reached-Exclusive s r)

holders : (s : State) → Exclusive s → (t u : ℕ) → s.phase t ≡ holding → s.phase u ≡ holding → t ≡ u
holders s (free _ none) t u ht hu = absurd (none t ht)
holders s (held o _ _ only) t u ht hu = only t ht ∙ sym (only u hu)

unheld : (s : State) → Exclusive s → ((u : ℕ) → s.phase u ≢ holding) → Spinlock.test s.spin ≡ 0
unheld s (free z none) f = Spinlock.test-free s.spin z
unheld s (held o _ h _) f = absurd (f o h)

-- However the steps of several flows of control interleave that wait for one lock and give back
-- what they hold, no two are ever behind wait at once, and when nobody is, the lock is free.
pub exclusion :
    (s : State)
    → Reached s
    → ((t u : ℕ) → s.phase t ≡ holding → s.phase u ≡ holding → t ≡ u)
      × (((u : ℕ) → s.phase u ≢ holding) → Spinlock.test s.spin ≡ 0)
exclusion s r = (holders s (reached-Exclusive s r), unheld s (reached-Exclusive s r))
