-- ===== src/Mem/Fmtlist/Cut.antt =====
-- kern/mem/format_list.c: the objects that `fmtlist_init` cuts a page into.
use hoo.Base.{
  ◌^◌, ℕ, zero, suc, ◌+◌, ◌*◌, ◌/◌, ◌%◌, ◌<◌, ◌≤◌, ◌≡◌, ok, arith, refl, get_or, length, ==_ne,
  ==_refl,
}
use native.Mathlib.Nat.{suc-mul, mul-le-mul_right, div-mul-le_self, le-div_iff_mul-le}
use hoo.Mem.Page.{pg}
use hoo.Mem.Fmtlist.{Fmtlist, objects, init}

length-objects : (n p size : ℕ) → length (objects n p size) ≡ n
unfolding objects
length-objects zero p size = refl
length-objects (suc n) p size = omega (arith, length-objects n (p + size) size)

objects_at : (n p size i : ℕ) → i < n → get_or (objects n p size) i 0 ≡ p + i * size + 8
unfolding objects
objects_at zero p size i lt = absurd (omega arith)
objects_at (suc n) p size zero lt = omega arith
objects_at (suc n) p size (suc i) lt =
    omega (arith, objects_at n (p + size) size i (omega arith), suc-mul i size)

-- A page of objects of `size` bytes: each has its node before it, behind the head of the page and
-- before its end, and no two overlap.
pub record Cut (page size : ℕ) (f : Fmtlist) : Type 0 where
  pub at : f.page ≡ page
  pub count : length f.free ≡ f.capacity
  pub some_room : 0 < f.capacity
  pub inside :
      (i : ℕ)
      → i < f.capacity
      → (page + 36 ≤ get_or f.free i 0) × (get_or f.free i 0 + size ≤ page + 4096)
  pub apart : (i j : ℕ) → i < j → j < f.capacity → get_or f.free i 0 + size + 8 ≤ get_or f.free j 0

-- fmtlist_init cuts a page into objects of a size up to 4060, at least one and as many as its
-- capacity says: each lies with its node between the head and the end of the page, and no two
-- overlap.
pub init-Cut :
    (page size : ℕ)
    → page % 4096 ≡ 0
    → size ≤ 4060
    → (f : Fmtlist) × (init page size ≡ ok f) × Cut page size f
unfolding init
init-Cut page size aligned small =
    let e : ℕ = 8 + size in
    let n : ℕ = 4068 / e in
    let wrap : e % 2 ^ 32 ≡ e = omega arith in
    let own : pg page ≡ page = omega arith in
    let room : n * e ≤ 4068 = div-mul-le_self 4068 e in
    let pos : 0 < e = omega arith in
    let one : 1 ≤ n = (le-div_iff_mul-le {k = e} {x = 1} {y = 4068} pos).1 (omega arith) in
    let place : (i : ℕ) → i < n → get_or (objects n (page + 28) e) i 0 ≡ page + 28 + i * e + 8 =
      objects_at n (page + 28) e in
    let step : (i j : ℕ) → i < j → i * e + e ≤ j * e = λ i j lt.
      let le : suc i * e ≤ j * e = mul-le-mul_right e (omega arith) in
      omega (arith, suc-mul i e, le) in
    (
      record { page = page; type_size = size; free = objects n (page + 28) e; capacity = n },
      rw (own, ==_refl page, wrap, ==_ne e 0 (omega arith)) refl,
      record {
        at = refl;
        count = length-objects n (page + 28) e;
        some_room = omega arith;
        inside = λ i lt. (omega (arith, place i lt), omega (arith, place i lt, step i n lt));
        apart = λ i j lt lt'. omega (arith, place i (omega arith), place j lt', step i j lt);
      },
    )
