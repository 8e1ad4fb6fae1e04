-- ===== src/Bitmap/Scan.antt =====
-- kern/utilities/bitmap.c: the circular search of `bitmap_scan_empty`.
use hoo.Base.{
  ◌-◌, sym, refl, dec_lt, inr, inl, ◌∙◌, Bool-cases, ap, ℕ, zero, suc, ◌+◌, ◌%◌, ◌<◌, ◌≡◌, true,
  false, ok, panic, arith,
}
use native.Mathlib.Nat.{add-zero, mod-eq_of_lt, mod-eq-sub-mod, mod-lt, mod-add-mod}
use hoo.Bitmap.{Bitmap, scan, scan_empty}
use hoo.Bitmap.Invariant.{IsValid, bit, test-ok, test-bit}

-- The bit that the search tests in round `k`.
abbrev pub at : Bitmap → ℕ → ℕ → ℕ
at m start k = (start + k) % m.len_inbits

-- `scan_empty` found `b`: it is the first clear bit from `prev_free` on, going round, and the next
-- search starts behind it.
pub record Found (m : Bitmap) (b : ℕ) (m' : Bitmap) : Type 0 where
  pub inside : b < m.len_inbits
  pub is_clear : bit m b ≡ false
  pub rounds : ℕ
  pub rounds_in : rounds < m.len_inbits
  pub reached : b ≡ at m m.prev_free rounds
  pub first : (k : ℕ) → k < rounds → bit m (at m m.prev_free k) ≡ true
  pub state : m' ≡ record m { prev_free = (b + 1) % m.len_inbits }

module _ {m : Bitmap} (v : IsValid m) where
  scan-clear :
      (n b : ℕ)
      → b < m.len_inbits
      → bit m b ≡ false
      → scan (suc n) m b ≡ ok (b, record m { prev_free = (b + 1) % m.len_inbits })
  unfolding scan
  scan-clear n b h e = ground (arith, test-ok v b h, test-bit v b)

  scan-set :
      (n b : ℕ)
      → b < m.len_inbits
      → bit m b ≡ true
      → scan (suc n) m b ≡ scan n m ((b + 1) % m.len_inbits)
  unfolding scan
  scan-set n b h e = ground (arith, test-ok v b h, test-bit v b)

  at-suc : (s k : ℕ) → (at m s k + 1) % m.len_inbits ≡ at m s (suc k)
  at-suc s k = rw mod-add-mod (ap (λ t. t % m.len_inbits) (omega arith))

  at-lt : (s k : ℕ) → at m s k < m.len_inbits
  at-lt s k = mod-lt (s + k) {m = m.len_inbits} (omega (arith, v.next))

  stop_here :
      (n k : ℕ)
      → suc n + k ≡ m.len_inbits
      → ((j : ℕ) → j < k → bit m (at m m.prev_free j) ≡ true)
      → bit m (at m m.prev_free k) ≡ false
      → (b : ℕ) × (m' : Bitmap) × (scan (suc n) m (at m m.prev_free k) ≡ ok (b, m')) × Found m b m'
  stop_here n k e before clear = (
    at m m.prev_free k,
    record m { prev_free = (at m m.prev_free k + 1) % m.len_inbits },
    scan-clear n (at m m.prev_free k) (at-lt m.prev_free k) clear,
    record {
      inside = at-lt m.prev_free k;
      is_clear = clear;
      rounds = k;
      rounds_in = omega arith;
      reached = refl;
      first = before;
      state = refl;
    },
  )

  -- With a clear bit at distance `d`, the search stops at the first one.
  scan-first :
      (n d k : ℕ)
      → n + k ≡ m.len_inbits
      → d < n
      → ((j : ℕ) → j < k → bit m (at m m.prev_free j) ≡ true)
      → bit m (at m m.prev_free (k + d)) ≡ false
      → (b : ℕ) × (m' : Bitmap) × (scan n m (at m m.prev_free k) ≡ ok (b, m')) × Found m b m'
  scan-first zero d k e h before free = absurd (omega arith)
  scan-first (suc n) zero k e h before free = stop_here n k e before (rw add-zero at free)
  scan-first (suc n) (suc d) k e h before free = elim (Bool-cases (bit m (at m m.prev_free k))) [
    | inl taken ↦
        let (b, m', run, found) =
          scan-first n d (suc k) (omega arith) (omega arith)
            (λ j hj. elim (dec_lt j k) [
              | yes lt ↦ before j lt
              | no ge ↦ let same : j ≡ k = omega arith in rw same taken
            ])
            (let shift : suc k + d ≡ k + suc d = omega arith in rw shift free) in
        (
          b,
          m',
          scan-set n (at m m.prev_free k) (at-lt m.prev_free k) taken
              ∙ rw (at-suc m.prev_free k) run,
          found,
        )
    | inr clear ↦ stop_here n k e before clear
  ]

  -- With every bit set, it goes round once and panics.
  scan-full :
      (n b : ℕ)
      → b < m.len_inbits
      → ((j : ℕ) → j < m.len_inbits → bit m j ≡ true)
      → scan n m b ≡ panic "bitmap_scan_empty(): no more free bits"
  unfolding scan
  scan-full zero b h full = refl
  scan-full (suc n) b h full =
      scan-set n b h (full b h)
      ∙ scan-full n ((b + 1) % m.len_inbits) (mod-lt (b + 1) (omega arith)) full

-- Every index is met on the way round.
distance : (l p j : ℕ) → p < l → j < l → (d : ℕ) × (d < l) × ((p + (0 + d)) % l ≡ j)
distance l p j hp hj = elim (dec_lt j p) [
  | yes lt ↦ (
    j + l - p,
    omega arith,
    mod-eq-sub-mod {n = p + (0 + (j + l - p))} {m = l} (omega arith)
        ∙ (mod-eq_of_lt (omega arith) ∙ omega arith),
  )
  | no ge ↦ (j - p, omega arith, mod-eq_of_lt (omega arith) ∙ omega arith)
]

scan_empty-enter : {m : Bitmap} → IsValid m → scan_empty m ≡ scan m.len_inbits m m.prev_free
unfolding scan_empty
scan_empty-enter {m} v = ground arith

-- On a valid bitmap with a clear bit, bitmap_scan_empty returns the first clear bit from
-- prev_free on, going round the end, and sets prev_free behind it.
pub scan_empty-Found :
    {m : Bitmap}
    → IsValid m
    → (j : ℕ) → j < m.len_inbits
    → bit m j ≡ false
    → (b : ℕ) × (m' : Bitmap) × (scan_empty m ≡ ok (b, m')) × Found m b m'
scan_empty-Found {m} v j h free =
    let (d, lt, meets) = distance m.len_inbits m.prev_free j v.next h in
    let start : at m m.prev_free 0 ≡ m.prev_free =
      ap (λ t. t % m.len_inbits) (add-zero m.prev_free) ∙ mod-eq_of_lt v.next in
    let (b, m', run, found) =
      scan-first v m.len_inbits d 0 (omega arith) lt (λ k none_before. absurd (omega arith))
        (rw meets free) in
    (b, m', scan_empty-enter v ∙ (ap (λ t. scan m.len_inbits m t) (sym start) ∙ run), found)

-- On a valid bitmap with every bit set, bitmap_scan_empty ends in the panic on no more free bits.
pub scan_empty-full :
    {m : Bitmap}
    → IsValid m
    → ((j : ℕ) → j < m.len_inbits → bit m j ≡ true)
    → scan_empty m ≡ panic "bitmap_scan_empty(): no more free bits"
scan_empty-full {m} v full = scan_empty-enter v ∙ scan-full v m.len_inbits m.prev_free v.next full
