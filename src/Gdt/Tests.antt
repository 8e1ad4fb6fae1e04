-- ===== src/Gdt/Tests.antt =====
-- kern/desc: the descriptor of a code segment of 4 GB.
use hoo.Base.{◌≡◌, ◌<◌, arith}
use hoo.Gdt.{set_gdt}
use hoo.Gdt.Fields.{base_of, limit_of, byte_of, base_of-set_gdt}

base_of-set_gdt_run :
    (base_of (set_gdt 0xfffff 0x12345678 0 1 0 1 1 0 1 0 1 1) ≡ 0x12345678)
    × (limit_of (set_gdt 0xfffff 0x12345678 0 1 0 1 1 0 1 0 1 1) ≡ 0xfffff)
    × (byte_of (set_gdt 0xfffff 0x12345678 0 1 0 1 1 0 1 0 1 1).access < 256)
base_of-set_gdt_run =
    base_of-set_gdt 0xfffff 0x12345678 0 1 0 1 1 0 1 0 1 1 (omega arith) (omega arith)
