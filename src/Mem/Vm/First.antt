-- ===== src/Mem/Vm/First.antt =====
-- kern/mem/vm.c: `vir_alloc_pages` hands out addresses that no range holds.
use hoo.Base.{
  ℕ, ◌+◌, ◌-◌, ◌/◌, ◌%◌, ◌^◌, ◌<◌, ◌≤◌, ◌≡◌, true, false, List, [], ◌∷◌, ok, ◌==◌, ltb, leb,
  if◌then◌else◌, arith, refl, ap,
}
use hoo.Mem.VmKern.{kern_metadata}
use hoo.Mem.Vm.{kern_high_mapping, Vspace, vaddr, bytes, place, alloc_loop, alloc_pages}
use hoo.Mem.Vm.Fresh.{Allocated, lo-le-top, alloc_loop-Allocated}
use hoo.Mem.Vm.Cover.{inside, covered, Ranges, top}

-- `MAX_END`
abbrev pub max_end : ℕ → ℕ
max_end begin = if ltb begin kern_high_mapping then kern_high_mapping else kern_metadata

pub max_end-le : (begin : ℕ) → max_end begin ≤ 2 ^ 32
max_end-le begin = ground arith

-- There is no room for `amount` pages between `begin` and the first range.
abbrev pub Near : ℕ → ℕ → List Vspace → Type 0
Near begin amount [] = Unit
Near begin amount (w ∷ rest) = w.begin < begin + bytes amount

pub near-full :
    (last_end begin n : ℕ)
    → last_end ≤ begin
    → begin < 2 ^ 32
    → begin < last_end + bytes n
    → ltb ((begin + 2 ^ 32 - last_end) % 2 ^ 32 / 4096) n ≡ true
near-full last_end begin n le lt h = ground arith

far-room :
    (last_end begin n : ℕ)
    → begin < 2 ^ 32
    → last_end + bytes n ≤ begin
    → ltb ((begin + 2 ^ 32 - last_end) % 2 ^ 32 / 4096) n ≡ false
far-room last_end begin n lt h = ground arith

module _ (head : Vspace) (amount begin : ℕ) (empty : head.items ≡ []) (pos : 0 < amount) where
  abbrev first_range : Vspace
  first_range = record {
    items = vaddr begin amount ∷ [];
    begin = begin;
    end = begin + bytes amount;
  }

  -- The first range of an address space, or one that has lost what follows it
  place-first :
      (rest : List Vspace)
      → begin + bytes amount < 2 ^ 32
      → place head rest amount begin
        ≡ (begin, record head { items = []; end = begin } ∷ first_range ∷ [])
  unfolding place
  place-first rest lt =
      let m : (begin + bytes amount) % 2 ^ 32 ≡ begin + bytes amount = omega arith in
      rw (empty, place, m)
        (ap (λ is. (begin, record head { items = is; end = begin } ∷ first_range ∷ [])) empty)

  nonzero : (amount == 0) ≡ false
  nonzero = ground arith

  -- In an address space whose head is empty and has no room for the pages before its first range,
  -- and with room below the end, vir_alloc_pages of at least one page succeeds: its address is
  -- not before the one given, none of the pages was in a range, the ranges hold those pages and
  -- what they held before, and they still follow each other.
  pub alloc_pages-Allocated :
      (rs : List Vspace)
      → Ranges begin rs
      → Near begin amount rs
      → top begin rs + bytes amount < max_end begin
      → (va : ℕ) × (head' : Vspace) × (rs' : List Vspace) × (alloc_pages (head ∷ rs) amount begin
          ≡ ok (va, head' ∷ rs'))
        × (head'.items ≡ [])
        × Allocated begin amount va rs rs'
  unfolding alloc_pages alloc_loop
  alloc_pages-Allocated [] r near fits =
      let m : leb (max_end begin) ((begin + bytes amount) % 2 ^ 32) ≡ false =
        ground (arith, max_end-le begin) in
      (
        begin,
        record head { items = []; end = begin },
        first_range ∷ [],
        rw (nonzero, m) (ap ok (place-first [] (omega (arith, max_end-le begin)))),
        refl,
        record {
          ranges = (omega arith, omega arith, (refl, pos, refl), tt);
          above = omega arith;
          adds = λ a. ground arith;
          fresh = λ a h. refl;
        },
      )
  alloc_pages-Allocated (w ∷ rest) r near fits =
      let b : w.begin < 2 ^ 32 = omega (arith, lo-le-top w.end rest r.3, r.1, max_end-le begin) in
      let full : ltb ((w.begin + 2 ^ 32 - begin) % 2 ^ 32 / 4096) amount ≡ true =
        near-full begin w.begin amount r.0 b near in
      let (va, vs', run, al) =
        alloc_loop-Allocated amount (max_end begin) pos (max_end-le begin) begin w rest r fits in
      (va, head, vs', rw (nonzero, full, alloc_loop, run) refl, empty, al)

  -- With room for the pages before the first range of an address space with an empty head,
  -- vir_alloc_pages puts them there and drops every range behind them: the addresses of the new
  -- pages are all that the ranges still hold.
  pub alloc_pages-drops :
      (w : Vspace) (rest : List Vspace)
      → Ranges begin (w ∷ rest)
      → begin + bytes amount ≤ w.begin
      → w.begin < 2 ^ 32
      → (head' : Vspace) × (rs' : List Vspace) × (alloc_pages (head ∷ w ∷ rest) amount begin
          ≡ ok (begin, head' ∷ rs'))
        × ((a : ℕ) → covered rs' a ≡ inside begin amount a)
        × (covered (w ∷ rest) w.begin ≡ true)
        × (covered rs' w.begin ≡ false)
  unfolding alloc_pages alloc_loop
  alloc_pages-drops w rest r far b =
      let room : ltb ((w.begin + 2 ^ 32 - begin) % 2 ^ 32 / 4096) amount ≡ false =
        far-room begin w.begin amount b far in
      (
        record head { items = []; end = begin },
        first_range ∷ [],
        rw (nonzero, room, alloc_loop) (ap ok (place-first (w ∷ rest) (omega arith))),
        λ a. ground arith,
        ground (arith, r.1),
        ground arith,
      )
