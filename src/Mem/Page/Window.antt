-- ===== src/Mem/Page/Window.antt =====
-- kern/page/page_stuff.h: the last entry of the page directory is the directory itself, so that
-- GET_PDE and GET_PTE are the addresses of the entries.
use hoo.Base.{ℕ, ◌+◌, ◌*◌, ◌/◌, ◌%◌, ◌^◌, ◌<◌, ◌≡◌, false, ok, arith, refl, ◌==◌, bit_or, ◌∙◌}
use hoo.Mem.Page.{Paging, pd_index, pt_index, pg, get_pde, get_pte, translate, writable}
use hoo.Mem.Page.Bits.{shifted, bit_or-low}

pub get_pde-value : (va : ℕ) → get_pde va ≡ 0xfffff000 + va / 2 ^ 22 % 1024 * 4
unfolding get_pde
get_pde-value va =
    let e : pd_index (pg va) ≡ va / 2 ^ 22 % 1024 = omega arith in
    rw e (bit_or-low 12 0xfffff (va / 2 ^ 22 % 1024 * 4) (omega arith))

pub get_pte-value :
    (va : ℕ) → get_pte va ≡ 0xffc00000 + va / 2 ^ 22 % 1024 * 4096 + va / 2 ^ 12 % 1024 * 4
unfolding get_pte
get_pte-value va =
    let d : ℕ = va / 2 ^ 22 % 1024 in
    let e : pd_index (pg va) ≡ d = omega arith in
    let e' : pt_index (pg va) ≡ va / 2 ^ 12 % 1024 = omega arith in
    let high : bit_or 0xffc00000 (d * 4096) ≡ shifted 12 (0xffc00 + d) =
      bit_or-low 22 0x3ff (d * 4096) (omega arith) ∙ omega arith in
    rw (e, e', high)
      (bit_or-low 12 (0xffc00 + d) (va / 2 ^ 12 % 1024 * 4) (omega arith) ∙ omega arith)

-- An entry that leads to the frame at `frame`, with all flags
abbrev pub entry : ℕ → ℕ
entry frame = frame + 7

module _ (s : Paging) (aligned : s.dir % 4096 ≡ 0) (self : s.ram (s.dir + 4092) ≡ entry s.dir) where
  pub translate_dir : (p : ℕ) → p < 1024 → translate s (0xfffff000 + p * 4) ≡ ok (s.dir + p * 4)
  unfolding translate
  translate_dir p lt =
      let a : (0xfffff000 + p * 4) / 2 ^ 22 % 2 ^ 10 * 4 ≡ 4092 = omega arith in
      let b : (0xfffff000 + p * 4) / 2 ^ 12 % 2 ^ 10 * 4 ≡ 4092 = omega arith in
      let c : pg (entry s.dir) ≡ s.dir = omega arith in
      let d : (entry s.dir % 2 == 0) ≡ false = ground arith in
      let f : (0xfffff000 + p * 4) % 2 ^ 12 ≡ p * 4 = omega arith in
      rw (a, b, self, c, self, c, d, f) refl

  pub window_dir : (p : ℕ) → p < 1024 → writable s (0xfffff000 + p * 4) ≡ ok (s.dir + p * 4)
  unfolding writable translate
  window_dir p lt =
      let a : (0xfffff000 + p * 4) / 2 ^ 22 % 2 ^ 10 * 4 ≡ 4092 = omega arith in
      let b : (0xfffff000 + p * 4) / 2 ^ 12 % 2 ^ 10 * 4 ≡ 4092 = omega arith in
      let c : pg (entry s.dir) ≡ s.dir = omega arith in
      let e : (entry s.dir / 2 % 2 == 0) ≡ false = ground arith in
      let d : (entry s.dir % 2 == 0) ≡ false = ground arith in
      let f : (0xfffff000 + p * 4) % 2 ^ 12 ≡ p * 4 = omega arith in
      rw (a, b, self, c, self, c, d, e, f) refl

  pub window_table :
      (d p table : ℕ)
      → d < 1024
      → p < 1024
      → table % 4096 ≡ 0
      → s.ram (s.dir + d * 4) ≡ entry table
      → writable s (0xffc00000 + d * 4096 + p * 4) ≡ ok (table + p * 4)
  unfolding writable translate
  window_table d p table ld lp ta there =
      let a : (0xffc00000 + d * 4096 + p * 4) / 2 ^ 22 % 2 ^ 10 * 4 ≡ 4092 = omega arith in
      let b : (0xffc00000 + d * 4096 + p * 4) / 2 ^ 12 % 2 ^ 10 ≡ d = omega arith in
      let c : pg (entry s.dir) ≡ s.dir = omega arith in
      let c' : pg (entry table) ≡ table = omega arith in
      let m : (entry s.dir % 2 == 0) ≡ false = ground arith in
      let n : (entry s.dir / 2 % 2 == 0) ≡ false = ground arith in
      let m' : (entry table % 2 == 0) ≡ false = ground arith in
      let n' : (entry table / 2 % 2 == 0) ≡ false = ground arith in
      let f : (0xffc00000 + d * 4096 + p * 4) % 2 ^ 12 ≡ p * 4 = omega arith in
      rw (a, b, self, c, there, c', m, n, m', n', f) refl
