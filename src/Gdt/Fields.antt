-- ===== src/Gdt/Fields.antt =====
-- kern/desc: what the processor reads in a descriptor.
use hoo.Base.{ℕ, ◌+◌, ◌*◌, ◌^◌, ◌<◌, ◌≡◌, arith}
use hoo.Gdt.{Access, Desc, set_gdt}

-- The address and the limit that the parts of a descriptor stand for
abbrev pub base_of : Desc → ℕ
base_of d = d.base_15_0 + d.base_23_16 * 2 ^ 16 + d.base_31_24 * 2 ^ 24

abbrev pub limit_of : Desc → ℕ
limit_of d = d.limit_15_0 + d.limit_19_16 * 2 ^ 16

-- The access byte in memory
abbrev pub byte_of : Access → ℕ
byte_of f = f.a + f.rw * 2 + f.dc * 4 + f.e * 8 + f.sys * 16 + f.dpl * 32 + f.ps * 128

-- A descriptor that set_gdt has filled in from a 32-bit base and a 20-bit limit has that base and
-- that limit in its parts, and its access fields fit a byte.
pub base_of-set_gdt :
    (limit base a w dc exe sys dpl ps l db g : ℕ)
    → base < 2 ^ 32
    → limit < 2 ^ 20
    → (base_of (set_gdt limit base a w dc exe sys dpl ps l db g) ≡ base)
      × (limit_of (set_gdt limit base a w dc exe sys dpl ps l db g) ≡ limit)
      × (byte_of (set_gdt limit base a w dc exe sys dpl ps l db g).access < 256)
unfolding set_gdt
base_of-set_gdt limit base a w dc exe sys dpl ps l db g b h =
    (omega arith, omega arith, ground arith)
