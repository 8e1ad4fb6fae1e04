-- ===== src/UserLib/Memory.antt =====
-- user/lib.c: what `memset` leaves in the object.
use hoo.Base.{
  ◌-◌, ap, refl, ◌∙◌, inl, ℕ_discrete, ◌⊎◌, ℕ, zero, suc, ◌+◌, ◌≤◌, ◌<◌, ◌≡◌, List, ok, arith,
  length, get_or, set, All, All-set, length-set, get_or-set_self, get_or-set_ne,
}
use hoo.UserLib.{load-ok, memmove, memset, store-ok}

pub record Filled (buff : List ℕ) (i fill n : ℕ) (b : List ℕ) : Type 0 where
  pub same_length : length b ≡ length buff
  pub inside : (j : ℕ) → i ≤ j → j < i + n → get_or b j 0 ≡ fill
  pub outside : (j : ℕ) → (j < i) ⊎ (i + n ≤ j) → get_or b j 0 ≡ get_or buff j 0
  pub bytes : fill < 256 → All (λ c. c < 256) buff → All (λ c. c < 256) b

-- Inside the object `memset` fills exactly the `n` bytes from `i` on.
pub memset-Filled :
    (n : ℕ) (buff : List ℕ) (i fill : ℕ)
    → i + n ≤ length buff
    → (b : List ℕ) × (memset buff i fill n ≡ ok b) × Filled buff i fill n b
unfolding memset
memset-Filled zero buff i fill h = (
  buff,
  refl,
  record {
    same_length = refl;
    inside = λ j lo hi. absurd (omega arith);
    outside = λ j o. refl;
    bytes = λ f a. a;
  },
)
memset-Filled (suc n) buff i fill h =
    let stored = set buff i fill in
    let len : length stored ≡ length buff = length-set buff i fill in
    let (b, run, filled) = memset-Filled n stored (i + 1) fill (omega arith) in
    (
      b,
      rw (store-ok buff i fill (omega arith)) run,
      record {
        same_length = omega (arith, filled.same_length);
        inside = λ j lo hi. elim (ℕ_discrete i j) [
          | yes e ↦
              filled.outside j (inl (omega arith))
              ∙ (rw (← e) (get_or-set_self buff i fill 0 (omega arith)))
          | no ne ↦ filled.inside j (omega arith) (omega arith)
        ];
        outside =
            λ j o. filled.outside j (omega arith) ∙ get_or-set_ne buff i j fill 0 (omega arith);
        bytes = λ f a. filled.bytes f (All-set (λ c. c < 256) buff i fill a f);
      },
    )

pub record Moved (dst : List ℕ) (i : ℕ) (src : List ℕ) (j n : ℕ) (b : List ℕ) : Type 0 where
  pub same_length : length b ≡ length dst
  pub inside : (k : ℕ) → k < n → get_or b (i + k) 0 ≡ get_or src (j + k) 0
  pub outside : (k : ℕ) → (k < i) ⊎ (i + n ≤ k) → get_or b k 0 ≡ get_or dst k 0

-- Inside two objects memmove copies exactly the bytes that it is told to, and the rest of the
-- target keeps its bytes.
pub memmove-Moved :
    (n : ℕ) (dst : List ℕ) (i : ℕ) (src : List ℕ) (j : ℕ)
    → i + n ≤ length dst
    → j + n ≤ length src
    → (b : List ℕ) × (memmove dst i src j n ≡ ok b) × Moved dst i src j n b
unfolding memmove
memmove-Moved zero dst i src j hd hs = (
  dst,
  refl,
  record { same_length = refl; inside = λ k lt. absurd (omega arith); outside = λ k o. refl },
)
memmove-Moved (suc n) dst i src j hd hs =
    let c : ℕ = get_or src j 0 in
    let stored : List ℕ = set dst i c in
    let len : length stored ≡ length dst = length-set dst i c in
    let (b, run, m) = memmove-Moved n stored (i + 1) src (j + 1) (omega arith) (omega arith) in
    (
      b,
      rw (load-ok src j (omega arith), store-ok dst i c (omega arith)) run,
      record {
        same_length = omega (arith, m.same_length);
        inside = λ k lt. elim (ℕ_discrete k 0) [
          | yes e ↦
              m.outside (i + k) (inl (omega arith))
              ∙ (ap (λ x. get_or stored x 0) (let s : i + k ≡ i = omega arith in s)
                  ∙ (get_or-set_self dst i c 0 (omega arith)
                      ∙ ap (λ x. get_or src x 0) (let s : j ≡ j + k = omega arith in s)))
          | no ne ↦
              ap (λ x. get_or b x 0) (let s : i + k ≡ i + 1 + (k - 1) = omega arith in s)
              ∙ (m.inside (k - 1) (omega arith)
                  ∙ ap (λ x. get_or src x 0) (let s : j + 1 + (k - 1) ≡ j + k = omega arith in s))
        ];
        outside = λ k o. m.outside k (omega arith) ∙ get_or-set_ne dst i k c 0 (omega arith);
      },
    )
