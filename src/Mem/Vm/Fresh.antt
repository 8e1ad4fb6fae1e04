-- ===== src/Mem/Vm/Fresh.antt =====
-- kern/mem/vm.c: the loop of `vir_alloc_pages` finds addresses that no range holds.
use hoo.Base.{
  ℕ, ◌+◌, ◌-◌, ◌/◌, ◌%◌, ◌^◌, ◌<◌, ◌≤◌, ◌≡◌, Bool, true, false, ◌&&◌, ◌||◌, List, [], ◌∷◌, ok, ltb,
  leb, Bool-cases, inl, inr, arith, refl, ap,
}
use mathlib.Core.Path.{subst}
use hoo.Mem.Vm.{Vaddr, Vspace, vaddr, bytes, place, alloc_loop}
use hoo.Mem.Vm.Cover.{inside, covered, Tiles, Ranges, top}

pub Tiles-cons :
    (xs : List Vaddr) (b e : ℕ)
    → Tiles xs b e
    → b < e
    → (x : Vaddr) × (ys : List Vaddr) × (xs ≡ x ∷ ys)
Tiles-cons [] b e t lt = absurd (omega arith)
Tiles-cons (x ∷ xs) b e t lt = (x, xs, refl)

pub lo-le-top : (lo : ℕ) (vs : List Vspace) → Ranges lo vs → lo ≤ top lo vs
lo-le-top lo [] r = omega arith
lo-le-top lo (w ∷ rest) (le, lt, t, r) = omega (arith, lo-le-top w.end rest r)

-- Below the first range nothing is held.
pub covered-below : (lo a : ℕ) (vs : List Vspace) → Ranges lo vs → a < lo → covered vs a ≡ false
covered-below lo a [] r lt = refl
covered-below lo a (w ∷ rest) (le, lt', t, r) lt =
    let e : covered rest a ≡ false = covered-below w.end a rest r (omega arith) in ground arith

extend-adds :
    (b e n a : ℕ) (c : Bool)
    → b < e
    → ((leb b a && ltb a (e + bytes n)) || c) ≡ (((leb b a && ltb a e) || c) || inside e n a)
extend-adds b e n a c lt = ground arith

inside_bounds : (va n a : ℕ) → inside va n a ≡ true → (va ≤ a) × (a < va + bytes n)
inside_bounds va n a h = ground arith

before : (b e a : ℕ) (c : Bool) → e ≤ a → c ≡ false → ((leb b a && ltb a e) || c) ≡ false
before b e a c le h = ground arith

-- The test of the loop finds room between two ranges.
pub room-le :
    (last_end begin n : ℕ)
    → last_end ≤ begin
    → begin < 2 ^ 32
    → ltb ((begin + 2 ^ 32 - last_end) % 2 ^ 32 / 4096) n ≡ false
    → last_end + bytes n ≤ begin
room-le last_end begin n le lt h = ground arith

pub place-full :
    (w : Vspace) (rest : List Vspace) (amount : ℕ) (x : Vaddr) (xs : List Vaddr)
    → w.items ≡ x ∷ xs
    → w.end + bytes amount < 2 ^ 32
    → place w rest amount w.end
      ≡ (w.end, record w { items = vaddr w.end amount ∷ x ∷ xs; end = w.end + bytes amount } ∷ rest)
unfolding place
place-full w rest amount x xs e lt =
    let m : (w.end + bytes amount) % 2 ^ 32 ≡ w.end + bytes amount = omega arith in
    rw (e, place, m) refl

-- What an allocation in the ranges `vs` is: the address, the ranges behind it
pub record Allocated (lo amount va : ℕ) (vs vs' : List Vspace) : Type 0 where
  pub ranges : Ranges lo vs'
  pub above : lo ≤ va
  pub adds : (a : ℕ) → covered vs' a ≡ (covered vs a || inside va amount a)
  pub fresh : (a : ℕ) → inside va amount a ≡ true → covered vs a ≡ false

module _ (amount max : ℕ) (pos : 0 < amount) (small : max ≤ 2 ^ 32) where
  -- The place behind a range that is not empty, below `bound`
  place-Allocated :
      (lo : ℕ) (w : Vspace) (rest : List Vspace)
      → lo ≤ w.begin
      → w.begin < w.end
      → Tiles w.items w.begin w.end
      → Ranges (w.end + bytes amount) rest
      → w.end + bytes amount < 2 ^ 32
      → (vs' : List Vspace) × (place w rest amount w.end ≡ (w.end, vs'))
        × Allocated lo amount w.end (w ∷ rest) vs'
  place-Allocated lo w rest le lt t r fits =
      let (x, xs, e) = Tiles-cons w.items w.begin w.end t lt in
      let t' : Tiles (x ∷ xs) w.begin w.end = subst (λ is. Tiles is w.begin w.end) e t in
      (
        record w { items = vaddr w.end amount ∷ x ∷ xs; end = w.end + bytes amount } ∷ rest,
        place-full w rest amount x xs e fits,
        record {
          ranges = (le, omega arith, (refl, pos, t'), r);
          above = omega arith;
          adds = λ a. extend-adds w.begin w.end amount a (covered rest a) lt;
          fresh = λ a h.
              let e : covered rest a ≡ false =
                covered-below (w.end + bytes amount) a rest r (inside_bounds w.end amount a h).1 in
              before w.begin w.end a (covered rest a) (inside_bounds w.end amount a h).0 e;
        },
      )

  skip-Allocated :
      (lo va : ℕ) (w : Vspace) (rest vs' : List Vspace)
      → lo ≤ w.begin
      → w.begin < w.end
      → Tiles w.items w.begin w.end
      → Allocated w.end amount va rest vs'
      → Allocated lo amount va (w ∷ rest) (w ∷ vs')
  skip-Allocated lo va w rest vs' le lt t al = record {
    ranges = (le, lt, t, al.ranges);
    above = omega (arith, al.above);
    adds = λ a. ground (arith, al.adds a);
    fresh = λ a h. ground (arith, al.fresh a h, al.above);
  }

  pub alloc_loop-Allocated :
      (lo : ℕ) (w : Vspace) (rest : List Vspace)
      → Ranges lo (w ∷ rest)
      → top lo (w ∷ rest) + bytes amount < max
      → (va : ℕ) × (vs' : List Vspace) × (alloc_loop (w ∷ rest) amount max w.end ≡ ok (va, vs'))
        × Allocated lo amount va (w ∷ rest) vs'
  unfolding alloc_loop
  alloc_loop-Allocated lo w [] (le, lt, t, r) fits =
      let (vs', run, al) = place-Allocated lo w [] le lt t tt (omega arith) in
      let m : leb max ((w.end + bytes amount) % 2 ^ 32) ≡ false = ground arith in
      (w.end, vs', rw m (ap ok run), al)
  alloc_loop-Allocated lo w (next ∷ rest) (le, lt, t, r) fits =
      elim (Bool-cases (ltb ((next.begin + 2 ^ 32 - w.end) % 2 ^ 32 / 4096) amount)) [
        | inl full ↦
            let (va, vs', run, al) = alloc_loop-Allocated w.end next rest r fits in
            (
              va,
              w ∷ vs',
              rw (full, alloc_loop, run) refl,
              skip-Allocated lo va w (next ∷ rest) vs' le lt t al,
            )
        | inr room ↦
            let b : next.begin < 2 ^ 32 = omega (arith, lo-le-top next.end rest r.3, r.1) in
            let g : w.end + bytes amount ≤ next.begin =
              room-le w.end next.begin amount r.0 b room in
            let (vs', run, al) =
              place-Allocated lo w (next ∷ rest) le lt t (g, r.1, r.2, r.3) (omega arith) in
            (w.end, vs', rw (room, alloc_loop) (ap ok run), al)
      ]
