-- ===== src/Mem/Page.antt =====
-- kern/mem/pm.c, kern/page/page.c and kern/page/page_stuff.h: the page tables. Memory is the word
-- at each physical address; `translate` is what the processor makes of a virtual address, the page
-- directory at `dir` (cr3) given. A shift is a division, a mask of low bits a remainder. The cache
-- of translations, which `invlpg` clears, is not in the model, and a page fault is a `fault`.
pub mod Bits
pub mod Window
pub mod Map
pub mod Start
mod Tests
use hoo.Base.{
  ℕ, zero, suc, ◌+◌, ◌-◌, ◌*◌, ◌/◌, ◌%◌, ◌^◌, ◌||◌, bit_and, bit_or, Outcome, ok, fault, ◌>>=◌,
  ◌==◌, if◌then◌else◌,
}
use hoo.Mem.Pm
use hoo.Mem.Pm.{Pm, page_size, mm_base}
use hoo.Mem.Vm.{kern_high_mapping}

pub record Paging : Type 0 where
  pub pm : Pm
  pub ram : ℕ → ℕ
  pub dir : ℕ

abbrev pub pgflag_ps : ℕ
pgflag_ps = 1

abbrev pub pgflag_rw : ℕ
pgflag_rw = 2

abbrev pub pgflag_us : ℕ
pgflag_us = 4

-- `PGFLAG_US | PGFLAG_RW | PGFLAG_PS` and `PGFLAG_US | PGFLAG_PS`
abbrev pub all_flags : ℕ
all_flags = 7

abbrev pub read_flags : ℕ
read_flags = 5

-- `PD_INDEX`, `PT_INDEX`, `PG` and `PGDOWN(x, PGSIZE)`
abbrev pub pd_index : ℕ → ℕ
pd_index x = x / 2 ^ 22 % 2 ^ 10

abbrev pub pt_index : ℕ → ℕ
pt_index x = x / 2 ^ 12 % 2 ^ 10

abbrev pub pg : ℕ → ℕ
pg x = x - x % 2 ^ 12

-- `GET_PDE` and `GET_PTE`
unfoldable pub get_pde : ℕ → ℕ
get_pde va = bit_or 0xfffff000 (pd_index (pg va) * 4)

unfoldable pub get_pte : ℕ → ℕ
get_pte va = bit_or (bit_or 0xffc00000 (pd_index (pg va) * 2 ^ 12)) (pt_index (pg va) * 4)

-- What the processor does with an address: entries without `PGFLAG_PS` are not there, and with
-- write protection on, a write wants `PGFLAG_RW` in both.
unfoldable pub translate : Paging → ℕ → Outcome ℕ
translate s va = do
  let pde = s.ram (s.dir + pd_index va * 4)
  let pte = s.ram (pg pde + pt_index va * 4)
  if pde % 2 == 0 || pte % 2 == 0 then fault else ok (pg pte + va % 2 ^ 12)

unfoldable pub writable : Paging → ℕ → Outcome ℕ
unfolding translate
writable s va = do
  let pde = s.ram (s.dir + pd_index va * 4)
  let pte = s.ram (pg pde + pt_index va * 4)
  if pde / 2 % 2 == 0 || pte / 2 % 2 == 0 then fault else translate s va

unfoldable pub read_word : Paging → ℕ → Outcome ℕ
unfolding translate
read_word s va = do pa ← translate s va; ok (s.ram pa)

abbrev pub put_word : (ℕ → ℕ) → ℕ → ℕ → ℕ → ℕ
put_word ram pa w a = if a == pa then w else ram a

unfoldable pub write_word : Paging → ℕ → ℕ → Outcome Paging
unfolding writable
write_word s va w = do pa ← writable s va; ok (record s { ram = put_word s.ram pa w })

-- The `if` of `set_mapping`: a page table for `va`
unfoldable pub open_table : Paging → ℕ → Outcome Paging
unfolding read_word write_word
open_table s va = do
  pde ← read_word s (get_pde va)
  let pde_flags = bit_and (pde % 2 ^ 12) all_flags
  if pde_flags == all_flags || pde_flags == read_flags then ok s else (do
    (pgtbl, pm) ← Pm.alloc_page s.pm
    write_word (record s { pm = pm }) (get_pde va) (bit_or pgtbl all_flags))

-- `set_mapping(va, pa, flags)`
unfoldable pub set_mapping : Paging → ℕ → ℕ → ℕ → Outcome Paging
unfolding open_table write_word
set_mapping s va pa flags = do s' ← open_table s va; write_word s' (get_pte va) (bit_or pa flags)

-- `bzero(vir_addr, PGSIZE)`, `n` words from `va` on
unfoldable pub zero_words : ℕ → Paging → ℕ → Outcome Paging
unfolding write_word
zero_words zero s va = ok s
zero_words (suc n) s va = do s' ← write_word s va 0; zero_words n s' (va + 4)

-- `phy_release_vpage(vir_addr)`. `null` is the address that the kernel's linker chooses.
module _ (null : ℕ) where
  unfoldable pub release_vpage : Paging → ℕ → Outcome Paging
  unfolding zero_words read_word
  release_vpage s vir_addr = do
    s' ← zero_words (page_size / 4) s vir_addr
    pte ← read_word s' (get_pte vir_addr)
    pm ← Pm.release_page null s'.pm (pg pte)
    ok (record s' { pm = pm })

-- The loop of `paging()`: the first `n` entries from entry `i` of the table at `table`
unfoldable pub fill_table : ℕ → (ℕ → ℕ) → ℕ → ℕ → ℕ → ℕ
fill_table zero ram table i = ram
fill_table (suc n) ram table i =
    fill_table n (put_word ram (table + i * 4) (bit_or (i * page_size) all_flags)) table (i + 1)

-- The directory and the table of the boot sector, SEG_PDTABLE * 16 and SEG_PGTABLE * 16, and what
-- `paging()` makes of memory; the directory is reached through its high address.
abbrev pub boot_dir : ℕ
boot_dir = 0x7800 * 16

abbrev pub boot_table : ℕ
boot_table = 0x7900 * 16

unfoldable pub paging : Paging → Paging
unfolding fill_table
paging s = record s {
  ram =
      fill_table (mm_base / page_size)
        (put_word
          (put_word (put_word s.ram boot_dir (bit_or boot_table all_flags))
            (boot_dir + pd_index kern_high_mapping * 4) (bit_or boot_table all_flags))
          (boot_dir + 1023 * 4) (bit_or boot_dir all_flags))
        boot_table 0;
  dir = boot_dir;
}
