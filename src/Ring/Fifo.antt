-- ===== src/Ring/Fifo.antt =====
-- kern/utilities/circular_buffer.c against a bounded first-in first-out list of characters.
use hoo.Base.{
  ℕ, suc, ◌+◌, ◌-◌, ◌%◌, ◌<◌, ◌≤◌, ◌≡◌, ◌≢◌, true, false, List, [], ◌∷◌, ◌++◌, ok, arith, refl,
  length, get_or, set, length-set, length-append, get_or-set_self, get_or-set_ne,
  get_or-append_before, get_or-append_at, ◌∙◌, ap, sym, ◌⊎◌, inl, inr, dec_lt, ==_refl, ==_ne,
}
use native.Mathlib.Nat.{mod-eq_of_lt, mod-eq-sub-mod}
use hoo.UserLib.{load-ok, store-ok}
use hoo.Tasks.{Tasks}
use hoo.Tasks.Wakeup.{wakeup-waiting, waiting, others}
use hoo.Ring.{Ring, is_empty, is_full, put, take_char, get, char}

-- The index `k` places behind `t`
abbrev slot : ℕ → ℕ → ℕ → ℕ
slot cap t k = (t + k) % cap

slot-cases :
    (cap t k : ℕ)
    → t < cap
    → k ≤ cap
    → ((t + k < cap) × (slot cap t k ≡ t + k)) ⊎ ((cap ≤ t + k) × (slot cap t k ≡ t + k - cap))
slot-cases cap t k ht hk = elim (dec_lt (t + k) cap) [
  | yes lt ↦ inl (lt, mod-eq_of_lt lt)
  | no ge ↦
      inr (
        omega arith,
        mod-eq-sub-mod {n = t + k} {m = cap} (omega arith) ∙ mod-eq_of_lt (omega arith),
      )
]

slot-lt : (cap t k : ℕ) → t < cap → k ≤ cap → slot cap t k < cap
slot-lt cap t k ht hk = omega (arith, slot-cases cap t k ht hk)

-- Within a round the indices are different.
slot-ne : (cap t j k : ℕ) → t < cap → j < k → k < cap → slot cap t j ≢ slot cap t k
slot-ne cap t j k ht hj hk =
    let a = slot-cases cap t j ht (omega arith) in
    let b = slot-cases cap t k ht (omega arith) in omega (arith, a, b)

slot-suc : (cap t k : ℕ) → t < cap → k < cap → (slot cap t k + 1) % cap ≡ slot cap t (k + 1)
slot-suc cap t k ht hk = elim (slot-cases cap t k ht (omega arith)) [
  | inl (lt, e) ↦ ap (λ x. (x + 1) % cap) e ∙ ap (λ x. x % cap) (omega arith)
  | inr (ge, e) ↦
      ap (λ x. (x + 1) % cap) e
      ∙ (ap (λ x. x % cap) (omega arith)
          ∙ sym (mod-eq-sub-mod {n = t + (k + 1)} {m = cap} (omega arith)))
]

slot-next : (cap t k : ℕ) → t < cap → k + 1 ≤ cap → slot cap ((t + 1) % cap) k ≡ slot cap t (k + 1)
slot-next cap t k ht hk = elim (dec_lt (t + 1) cap) [
  | yes lt ↦ ap (λ x. (x + k) % cap) (mod-eq_of_lt lt) ∙ ap (λ x. x % cap) (omega arith)
  | no ge ↦
      let wrap : (t + 1) % cap ≡ 0 =
        mod-eq-sub-mod {n = t + 1} {m = cap} (omega arith)
        ∙ (mod-eq_of_lt (omega arith) ∙ omega arith) in
      ap (λ x. (x + k) % cap) wrap
      ∙ (ap (λ x. x % cap) (omega arith)
          ∙ sym (mod-eq-sub-mod {n = t + (k + 1)} {m = cap} (omega arith)))
]

-- The ring holds the characters `xs`, oldest first.
pub record IsRing (r : Ring) (xs : List ℕ) : Type 0 where
  pub size : length r.buff ≡ r.capacity
  pub room : length xs < r.capacity
  pub tail : r.tail < r.capacity
  pub head : r.head ≡ slot r.capacity r.tail (length xs)
  pub chars : (k : ℕ) → k < length xs → get_or r.buff (slot r.capacity r.tail k) 0 ≡ get_or xs k 0

-- The state after `cclbuff_put` has stored `c`.
abbrev pub stored : Ring → ℕ → Ring
stored r c = record r { buff = set r.buff r.head c; head = (r.head + 1) % r.capacity }

stored-IsRing :
    {r : Ring} {xs : List ℕ}
    → IsRing r xs
    → length xs + 1 < r.capacity
    → (c : ℕ) → IsRing (stored r c) (xs ++ c ∷ [])
stored-IsRing {r} {xs} is h c = record {
  size = omega (arith, length-set r.buff r.head c, is.size);
  room = omega (arith, length-append {0} xs (c ∷ []));
  tail = is.tail;
  head =
      ap (λ x. (x + 1) % r.capacity) is.head
      ∙ (slot-suc r.capacity r.tail (length xs) is.tail (omega arith)
          ∙ ap (λ n. slot r.capacity r.tail n) (omega (arith, length-append {0} xs (c ∷ []))));
  chars = λ k hk. elim (dec_lt k (length xs)) [
    | yes lt ↦
        let apart : slot r.capacity r.tail k ≢ r.head =
          λ e. slot-ne r.capacity r.tail k (length xs) is.tail lt (omega arith) (e ∙ is.head) in
        get_or-set_ne r.buff r.head (slot r.capacity r.tail k) c 0 (λ e. apart (sym e))
        ∙ (is.chars k lt ∙ sym (get_or-append_before xs (c ∷ []) k 0 lt))
    | no ge ↦
        let last : k ≡ length xs = omega (arith, length-append {0} xs (c ∷ [])) in
        let in_head : slot r.capacity r.tail k ≡ r.head =
          ap (λ n. slot r.capacity r.tail n) last ∙ sym is.head in
        let inside : r.head < length r.buff =
          omega (
            arith,
            is.head,
            is.size,
            slot-lt r.capacity r.tail (length xs) is.tail (omega arith),
          ) in
        ap (λ i. get_or (set r.buff r.head c) i 0) in_head
        ∙ (get_or-set_self r.buff r.head c 0 inside
            ∙ sym (ap (λ i. get_or (xs ++ c ∷ []) i 0) last ∙ get_or-append_at xs c [] 0))
  ];
}

is_full-length :
    {r : Ring} {xs : List ℕ}
    → IsRing r xs
    → (length xs + 1 < r.capacity → is_full r ≡ false)
      × (length xs + 1 ≡ r.capacity → is_full r ≡ true)
unfolding is_full
is_full-length {r} {xs} is =
    let next : (r.head + 1) % r.capacity ≡ slot r.capacity r.tail (length xs + 1) =
      ap (λ x. (x + 1) % r.capacity) is.head
      ∙ slot-suc r.capacity r.tail (length xs) is.tail is.room in
    let c = slot-cases r.capacity r.tail (length xs + 1) is.tail (omega (arith, is.room)) in
    (
      λ h. rw next (==_ne _ _ (omega (arith, c, is.tail))),
      λ h. rw next (
          let e : slot r.capacity r.tail (length xs + 1) ≡ r.tail = omega (arith, c, is.tail) in
          rw e (==_refl r.tail)),
    )

module _ {r : Ring} {xs : List ℕ} (is : IsRing r xs) where
  -- With room for one more and the scheduler's lock free, cclbuff_put appends the character,
  -- returns true and makes the tasks that sleep on the buffer ready.
  pub put-append :
      (self c : ℕ) (s : Tasks)
      → s.lock ≡ 0
      → length xs + 1 < r.capacity
      → (r' : Ring) × (put self r c s
          ≡ ok (
            true,
            r',
            record s {
              sleeping = others s.pcbs self s.sleeping;
              ready = s.ready ++ waiting s.pcbs self s.sleeping;
              lock = 0;
            },
          ))
        × IsRing r' (xs ++ c ∷ [])
  unfolding put
  put-append self c s free h =
      let inside : r.head < length r.buff =
        omega
          (arith, is.head, is.size, slot-lt r.capacity r.tail (length xs) is.tail (omega arith)) in
      (
        stored r c,
        rw ((is_full-length is).0 h, store-ok r.buff r.head c inside, wakeup-waiting s self free)
            refl,
        stored-IsRing is h c,
      )

  -- With one character less than the capacity in the buffer, cclbuff_put returns false and
  -- changes nothing.
  pub put-full :
      (self c : ℕ) (s : Tasks) → length xs + 1 ≡ r.capacity → put self r c s ≡ ok (false, r, s)
  unfolding put
  put-full self c s h = rw ((is_full-length is).1 h) refl

is_empty-cons : {r : Ring} {x : ℕ} {xs : List ℕ} → IsRing r (x ∷ xs) → is_empty r ≡ false
unfolding is_empty
is_empty-cons {r} {x} {xs} is =
    let c = slot-cases r.capacity r.tail (length (x ∷ xs)) is.tail (omega (arith, is.room)) in
    ==_ne _ _ (omega (arith, c, is.tail, is.head, is.room))

-- cclbuff_get on a buffer with characters returns the oldest and removes it.
pub get-oldest :
    {r : Ring} {x : ℕ} {xs : List ℕ}
    → IsRing r (x ∷ xs)
    → (null self : ℕ) (s : Tasks)
    → (r' : Ring) × (get null self r s ≡ ok (char x r')) × IsRing r' xs
unfolding get take_char
get-oldest {r} {x} {xs} is null self s =
    let t' : ℕ = (r.tail + 1) % r.capacity in
    let at_tail : slot r.capacity r.tail 0 ≡ r.tail =
      ap (λ n. n % r.capacity) (omega arith) ∙ mod-eq_of_lt is.tail in
    let first : get_or r.buff r.tail 0 ≡ x =
      ap (λ i. get_or r.buff i 0) (sym at_tail) ∙ is.chars 0 (omega arith) in
    (
      record r { tail = t' },
      rw (is_empty-cons is, load-ok r.buff r.tail (omega (arith, is.size, is.tail)), first) refl,
      record {
        size = is.size;
        room = omega (arith, is.room);
        tail = slot-lt r.capacity r.tail 1 is.tail (omega (arith, is.room));
        head =
            is.head
            ∙ (ap (λ n. slot r.capacity r.tail n) (omega arith)
                ∙ sym (slot-next r.capacity r.tail (length xs) is.tail (omega (arith, is.room))));
        chars = λ k hk.
            ap (λ i. get_or r.buff i 0)
              (slot-next r.capacity r.tail k is.tail (omega (arith, is.room)))
            ∙ (ap (λ n. get_or r.buff (slot r.capacity r.tail n) 0) (omega arith)
                ∙ is.chars (suc k) (omega arith));
      },
    )
