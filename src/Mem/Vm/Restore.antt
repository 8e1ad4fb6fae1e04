-- ===== src/Mem/Vm/Restore.antt =====
-- kern/mem/vm.c: `vir_release_pages` takes back what `vir_alloc_pages` has handed out.
use hoo.Base.{
  ℕ, ◌+◌, ◌-◌, ◌/◌, ◌%◌, ◌^◌, ◌<◌, ◌≤◌, ◌≡◌, Bool, true, false, ◌&&◌, List, [], ◌∷◌, Option, some,
  none, ok, ◌==◌, ltb, leb, if◌then◌else◌, Bool-cases, inl, inr, arith, refl, ap, ◌∙◌, ==_refl, sym,
}
use hoo.Mem.Vm.{
  Vaddr, Vspace, vaddr, bytes, place, alloc_loop, alloc_pages, release_loop, release_pages,
  pages_from, split_at, unlink, with_prev,
}
use hoo.Mem.Vm.Cover.{Tiles, Ranges, top}
use hoo.Mem.Vm.Fresh.{Tiles-cons, lo-le-top, place-full, room-le}
use hoo.Mem.Vm.First.{max_end, max_end-le, Near, near-full}

module _ (rel : Bool) (amount max : ℕ) (pos : 0 < amount) (small : max ≤ 2 ^ 32) where
  abbrev given : ℕ → List ℕ
  given va = if rel then pages_from va amount else []

  -- An allocation at `va`, and its release from any object before the ranges
  abbrev Restores : List Vspace → ℕ → ℕ → List Vspace → Type 0
  Restores vs last_end va vs' =
      (alloc_loop vs amount max last_end ≡ ok (va, vs'))
      × (last_end ≤ va)
      × ((prev : Option Vspace) → release_loop prev vs' va rel ≡ ok (given va, with_prev prev vs))

  release_newest :
      (prev : Option Vspace) (w : Vspace) (rest : List Vspace) (x : Vaddr) (xs : List Vaddr)
      → w.items ≡ x ∷ xs
      → w.begin < w.end
      → w.end + bytes amount < 2 ^ 32
      → release_loop prev
          (record w { items = vaddr w.end amount ∷ x ∷ xs; end = w.end + bytes amount } ∷ rest)
          w.end
          rel
        ≡ ok (given w.end, with_prev prev (w ∷ rest))
  unfolding release_loop split_at
  release_newest prev w rest x xs e lt fits =
      let is_in : (leb w.begin w.end && ltb w.end (w.end + bytes amount)) ≡ true = ground arith in
      let back : (w.end + bytes amount + 2 ^ 32 - bytes amount) % 2 ^ 32 ≡ w.end = omega arith in
      rw (is_in, release_loop, ==_refl w.end, split_at, unlink, back)
        (ap (λ is. ok (given w.end, with_prev prev (record w { items = is } ∷ rest))) (sym e))

  release_skip :
      (prev : Option Vspace) (w : Vspace) (vs' vs : List Vspace) (va : ℕ)
      → w.end ≤ va
      → release_loop (some w) vs' va rel ≡ ok (given va, w ∷ vs)
      → release_loop prev (w ∷ vs') va rel ≡ ok (given va, with_prev prev (w ∷ vs))
  unfolding release_loop
  release_skip prev w vs' vs va le run =
      let out : (leb w.begin va && ltb va w.end) ≡ false = ground arith in
      rw (out, release_loop, run) refl

  place-Restores :
      (w : Vspace) (rest : List Vspace)
      → w.begin < w.end
      → Tiles w.items w.begin w.end
      → w.end + bytes amount < 2 ^ 32
      → alloc_loop (w ∷ rest) amount max w.end ≡ ok (place w rest amount w.end)
      → (vs' : List Vspace) × Restores (w ∷ rest) w.end w.end vs'
  place-Restores w rest lt t fits run =
      let (x, xs, e) = Tiles-cons w.items w.begin w.end t lt in
      (
        record w { items = vaddr w.end amount ∷ x ∷ xs; end = w.end + bytes amount } ∷ rest,
        (
          run ∙ ap ok (place-full w rest amount x xs e fits),
          omega arith,
          λ prev. release_newest prev w rest x xs e lt fits,
        ),
      )

  alloc_loop-Restores :
      (lo : ℕ) (w : Vspace) (rest : List Vspace)
      → Ranges lo (w ∷ rest)
      → top lo (w ∷ rest) + bytes amount < max
      → (va : ℕ) × (vs' : List Vspace) × Restores (w ∷ rest) w.end va vs'
  unfolding alloc_loop
  alloc_loop-Restores lo w [] (le, lt, t, r) fits =
      let m : leb max ((w.end + bytes amount) % 2 ^ 32) ≡ false = ground arith in
      let (vs', re) = place-Restores w [] lt t (omega arith) (rw m refl) in (w.end, vs', re)
  alloc_loop-Restores lo w (next ∷ rest) (le, lt, t, r) fits =
      elim (Bool-cases (ltb ((next.begin + 2 ^ 32 - w.end) % 2 ^ 32 / 4096) amount)) [
        | inl full ↦
            let (va, vs', (run, above, back)) = alloc_loop-Restores w.end next rest r fits in
            let le' : w.end ≤ va = omega (arith, r.0, r.1) in
            (
              va,
              w ∷ vs',
              (
                rw (full, alloc_loop, run) refl,
                le',
                λ prev. release_skip prev w vs' (next ∷ rest) va le' (back (some w)),
              ),
            )
        | inr room ↦
            let b : next.begin < 2 ^ 32 = omega (arith, lo-le-top next.end rest r.3, r.1) in
            let g : w.end + bytes amount ≤ next.begin =
              room-le w.end next.begin amount r.0 b room in
            let (vs', re) =
              place-Restores w (next ∷ rest) lt t (omega arith) (rw (room, alloc_loop) refl) in
            (w.end, vs', re)
      ]

-- In an address space with a range, an empty head and no room before that range, the address that
-- vir_alloc_pages returns can be given back: vir_release_pages then releases exactly the pages of
-- the allocation, if it is asked to, and leaves the ranges as they were.
pub release_pages-alloc_pages :
    (rel : Bool) (head w : Vspace) (rest : List Vspace) (amount begin : ℕ)
    → head.end ≤ begin
    → 0 < amount
    → Ranges begin (w ∷ rest)
    → Near begin amount (w ∷ rest)
    → top begin (w ∷ rest) + bytes amount < max_end begin
    → (va : ℕ) × (vs' : List Vspace) × (alloc_pages (head ∷ w ∷ rest) amount begin ≡ ok (va, vs'))
      × (release_pages vs' va rel ≡ ok (if rel then pages_from va amount else [], head ∷ w ∷ rest))
unfolding alloc_pages alloc_loop release_pages
release_pages-alloc_pages rel head w rest amount begin low pos r near fits =
    let b : w.begin < 2 ^ 32 = omega (arith, lo-le-top w.end rest r.3, r.1, max_end-le begin) in
    let full : ltb ((w.begin + 2 ^ 32 - begin) % 2 ^ 32 / 4096) amount ≡ true =
      near-full begin w.begin amount r.0 b near in
    let nonzero : (amount == 0) ≡ false = ground arith in
    let (va, vs', (run, above, back)) =
      alloc_loop-Restores rel amount (max_end begin) pos (max_end-le begin) begin w rest r fits in
    (
      va,
      head ∷ vs',
      rw (nonzero, full, alloc_loop, run) refl,
      release_skip rel amount (max_end begin) pos (max_end-le begin) none head vs' (w ∷ rest) va
          (omega (arith, r.0, r.1)) (back (some head)),
    )
