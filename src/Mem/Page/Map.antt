-- ===== src/Mem/Page/Map.antt =====
-- kern/mem/pm.c: the translation of addresses after `set_mapping`.
use hoo.Base.{
  ℕ, ◌+◌, ◌*◌, ◌/◌, ◌%◌, ◌^◌, ◌<◌, ◌≡◌, ◌≢◌, false, ok, arith, refl, ◌==◌, ==_ne, ==_refl, bit_or,
  bit_and, ap, ◌∙◌, ℕ_discrete, sym,
}
use hoo.Mem.Pm
use hoo.Mem.Pm.{Pm}
use hoo.Mem.Page.{
  Paging, pg, get_pde, get_pte, translate, writable, read_word, write_word, put_word, open_table,
  set_mapping,
}
use hoo.Mem.Page.Bits.{shifted, bit_or-low, bit_and-seven}
use hoo.Mem.Page.Window.{
  entry, get_pde-value, get_pte-value, window_dir, window_table, translate_dir,
}

pub or-flags :
    (frame flags : ℕ) → frame % 4096 ≡ 0 → flags < 4096 → bit_or frame flags ≡ frame + flags
or-flags frame flags aligned small =
    let e : frame ≡ shifted 12 (frame / 4096) = omega arith in
    ap (λ f. bit_or f flags) e
    ∙ bit_or-low 12 (frame / 4096) flags small
    ∙ ap (λ f. f + flags) (sym e)

module _ (s : Paging) (va : ℕ) (aligned : s.dir % 4096 ≡ 0)
    (self : s.ram (s.dir + 4092) ≡ entry s.dir) where
  abbrev slot : ℕ → ℕ
  slot table = table + va / 2 ^ 12 % 1024 * 4

  write_entry :
      (table w : ℕ)
      → table % 4096 ≡ 0
      → s.ram (s.dir + va / 2 ^ 22 % 1024 * 4) ≡ entry table
      → write_word s (get_pte va) w ≡ ok (record s { ram = put_word s.ram (slot table) w })
  unfolding write_word
  write_entry table w ta there =
      let run : writable s (get_pte va) ≡ ok (slot table) = rw (get_pte-value va) (
        window_table s aligned self (va / 2 ^ 22 % 1024) (va / 2 ^ 12 % 1024) table (omega arith)
          (omega arith) ta there) in
      rw run refl

  -- What is translated when the slot of the page in its table is set
  mapped :
      (table pa flags : ℕ)
      → table % 4096 ≡ 0
      → table ≢ s.dir
      → s.ram (s.dir + va / 2 ^ 22 % 1024 * 4) ≡ entry table
      → pa % 4096 ≡ 0
      → flags < 4096
      → flags % 2 ≡ 1
      → translate (record s { ram = put_word s.ram (slot table) (pa + flags) }) va
        ≡ ok (pa + va % 4096)
  unfolding translate
  mapped table pa flags ta ne there pa_aligned small present =
      let other : (s.dir + va / 2 ^ 22 % 1024 * 4 == slot table) ≡ false =
        ==_ne (s.dir + va / 2 ^ 22 % 1024 * 4) (slot table) (omega arith) in
      let c : pg (entry table) ≡ table = omega arith in
      let m : (entry table % 2 == 0) ≡ false = ground arith in
      let n : ((pa + flags) % 2 == 0) ≡ false = ground arith in
      let f : pg (pa + flags) ≡ pa = omega arith in
      rw (other, there, c, ==_refl (slot table), m, n, f) refl

  kept :
      (table w : ℕ)
      → table % 4096 ≡ 0
      → table ≢ s.dir
      → s.ram (s.dir + va / 2 ^ 22 % 1024 * 4) ≡ entry table
      → ((i : ℕ) → i < 1024 → i ≢ va / 2 ^ 22 % 1024 → pg (s.ram (s.dir + i * 4)) ≢ table)
      → va < 2 ^ 32
      → (v : ℕ) → v < 2 ^ 32
      → v / 4096 ≢ va / 4096
      → translate (record s { ram = put_word s.ram (slot table) w }) v ≡ translate s v
  unfolding translate
  kept table w ta ne there apart small v v_small page =
      let i : ℕ = v / 2 ^ 22 % 1024 in
      let other : (s.dir + i * 4 == slot table) ≡ false =
        ==_ne (s.dir + i * 4) (slot table) (omega arith) in
      let away : pg (s.ram (s.dir + i * 4)) + v / 2 ^ 12 % 1024 * 4 ≢ slot table =
        elim (ℕ_discrete i (va / 2 ^ 22 % 1024)) [
          | yes e ↦
              let f : s.ram (s.dir + i * 4) ≡ entry table =
                ap (λ j. s.ram (s.dir + j * 4)) e ∙ there in
              omega arith
          | no d ↦ omega (arith, apart i (omega arith) d)
        ] in
      rw (other, ==_ne (pg (s.ram (s.dir + i * 4)) + v / 2 ^ 12 % 1024 * 4) (slot table) away) refl

  read_dir : read_word s (get_pde va) ≡ ok (s.ram (s.dir + va / 2 ^ 22 % 1024 * 4))
  unfolding read_word
  read_dir =
      rw (get_pde-value va, translate_dir s aligned self (va / 2 ^ 22 % 1024) (omega arith)) refl

  write_dir :
      (pm : Pm) (w : ℕ)
      → write_word (record s { pm = pm }) (get_pde va) w
        ≡ ok (record s { pm = pm; ram = put_word s.ram (s.dir + va / 2 ^ 22 % 1024 * 4) w })
  unfolding write_word
  write_dir pm w =
      rw
        (
          get_pde-value va,
          window_dir (record s { pm = pm }) aligned self (va / 2 ^ 22 % 1024) (omega arith),
        )
        refl

  -- With the directory reached through its own last entry and a table of its own for the address,
  -- set_mapping to a page with the present flag succeeds: the address is then translated into
  -- that page with its offset, and every address of another page is translated as before.
  pub set_mapping-translates :
      (table pa flags : ℕ)
      → table % 4096 ≡ 0
      → table ≢ s.dir
      → s.ram (s.dir + va / 2 ^ 22 % 1024 * 4) ≡ entry table
      → ((i : ℕ) → i < 1024 → i ≢ va / 2 ^ 22 % 1024 → pg (s.ram (s.dir + i * 4)) ≢ table)
      → va < 2 ^ 32
      → pa % 4096 ≡ 0
      → flags < 4096
      → flags % 2 ≡ 1
      → (s' : Paging) × (set_mapping s va pa flags ≡ ok s')
        × (translate s' va ≡ ok (pa + va % 4096))
        × ((v : ℕ) → v < 2 ^ 32 → v / 4096 ≢ va / 4096 → translate s' v ≡ translate s v)
  unfolding set_mapping open_table
  set_mapping-translates table pa flags ta ne there apart small pa_aligned flags_small present =
      let low : entry table % 2 ^ 12 ≡ 7 = omega arith in
      let w : bit_or pa flags ≡ pa + flags = or-flags pa flags pa_aligned flags_small in
      (
        record s { ram = put_word s.ram (slot table) (pa + flags) },
        rw (read_dir, there, low, w) (write_entry table (pa + flags) ta there),
        mapped table pa flags ta ne there pa_aligned flags_small present,
        kept table (pa + flags) ta ne there apart small,
      )

-- A page without a table gets one, the page that `phy_alloc_page` returns.
pub set_mapping-opens :
    (s : Paging) (va pa flags t : ℕ) (pm : Pm)
    → s.dir % 4096 ≡ 0
    → s.ram (s.dir + 4092) ≡ entry s.dir
    → s.ram (s.dir + va / 2 ^ 22 % 1024 * 4) % 8 ≢ 7
    → s.ram (s.dir + va / 2 ^ 22 % 1024 * 4) % 8 ≢ 5
    → Pm.alloc_page s.pm ≡ ok (t, pm)
    → t % 4096 ≡ 0
    → t ≢ s.dir
    → pa % 4096 ≡ 0
    → flags < 4096
    → flags % 2 ≡ 1
    → (s' : Paging) × (set_mapping s va pa flags ≡ ok s')
      × (s'.pm ≡ pm)
      × (s'.ram (s.dir + va / 2 ^ 22 % 1024 * 4) ≡ entry t)
      × (translate s' va ≡ ok (pa + va % 4096))
unfolding set_mapping open_table
set_mapping-opens s va pa flags t pm aligned self not7 not5 got ta ne pa_aligned small present =
    let d : ℕ = va / 2 ^ 22 % 1024 in
    let pde : ℕ = s.ram (s.dir + d * 4) in
    let opened : Paging = record s { pm = pm; ram = put_word s.ram (s.dir + d * 4) (entry t) } in
    let flags_of : bit_and (pde % 2 ^ 12) 7 ≡ pde % 8 =
      bit_and-seven (pde % 2 ^ 12) (omega arith) ∙ omega arith in
    let last : d ≢ 1023 = λ e.
      let f : pde ≡ entry s.dir = ap (λ j. s.ram (s.dir + j * 4)) e ∙ self in not7 (omega arith) in
    let self' : opened.ram (s.dir + 4092) ≡ entry s.dir =
      rw (==_ne (s.dir + 4092) (s.dir + d * 4) (omega (arith, last))) self in
    let there : opened.ram (s.dir + d * 4) ≡ entry t = rw (==_refl (s.dir + d * 4)) refl in
    let w : bit_or pa flags ≡ pa + flags = or-flags pa flags pa_aligned small in
    let w' : bit_or t 7 ≡ entry t = or-flags t 7 ta (omega arith) in
    (
      record opened { ram = put_word opened.ram (t + va / 2 ^ 12 % 1024 * 4) (pa + flags) },
      rw
          (
            read_dir s va aligned self,
            flags_of,
            ==_ne (pde % 8) 7 not7,
            ==_ne (pde % 8) 5 not5,
            got,
            w',
            w,
            write_dir s va aligned self pm (entry t),
          )
          (write_entry opened va aligned self' t (pa + flags) ta there),
      refl,
      rw (==_ne (s.dir + d * 4) (t + va / 2 ^ 12 % 1024 * 4) (omega arith), ==_refl (s.dir + d * 4))
          refl,
      mapped opened va aligned self' t pa flags ta ne there pa_aligned small present,
    )
