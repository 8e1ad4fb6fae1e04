-- ===== src/Pic.antt =====
-- kern/driver/8259a/8259a.c: what the driver writes to the two interrupt controllers, and their
-- mask registers, which are read back from the port that they are written to.
pub mod Enabled
mod Tests
use hoo.Base.{ℕ, ◌+◌, ◌-◌, ◌*◌, ◌/◌, ◌%◌, ◌^◌, List, [], ◌∷◌, bit_and, bit_or, ltb, if◌then◌else◌}

abbrev pub mas_even : ℕ
mas_even = 0x20

abbrev pub sla_even : ℕ
sla_even = 0xa0

-- The ports and values that a routine writes, in order
abbrev pub Writes : Type 0
Writes = List (ℕ × ℕ)

-- `set_icw1(cmd)` to `set_icw4(cmd)`
unfoldable pub set_icw1 : ℕ → Writes
set_icw1 cmd = (mas_even, bit_or cmd 0x10) ∷ (sla_even, bit_or cmd 0x10) ∷ []

unfoldable pub set_icw2 : ℕ → ℕ → Writes
set_icw2 master slave =
    (mas_even + 1, bit_and master 0xf8) ∷ (sla_even + 1, bit_and slave 0xf8) ∷ []

unfoldable pub set_icw3 : ℕ → Writes
set_icw3 irq_pin = (mas_even + 1, 2 ^ irq_pin % 2 ^ 8) ∷ (sla_even + 1, irq_pin) ∷ []

unfoldable pub set_icw4 : ℕ → Writes
set_icw4 cmd = (mas_even + 1, bit_or cmd 0x01) ∷ (sla_even + 1, bit_or cmd 0x01) ∷ []

-- The mask registers of the two controllers
pub record Masks : Type 0 where
  pub master : ℕ
  pub slave : ℕ

-- `disable_mask_ocw1(irq_pin)`
unfoldable pub disable_mask_ocw1 : Masks → ℕ → Masks
disable_mask_ocw1 p irq_pin =
    if ltb irq_pin 8
    then record p { master = bit_or p.master (2 ^ irq_pin) % 2 ^ 8 }
    else record p { slave = bit_or p.slave (2 ^ (irq_pin - 8)) % 2 ^ 8 }

-- `enable_mask_ocw1(irq_pin)`; the complement is that of an `int`.
unfoldable pub enable_mask_ocw1 : Masks → ℕ → Masks
enable_mask_ocw1 p irq_pin =
    if ltb irq_pin 8
    then record p { master = bit_and p.master (0xffffffff - 2 ^ irq_pin) % 2 ^ 8 }
    else record p { slave = bit_and p.slave (0xffffffff - 2 ^ (irq_pin - 8)) % 2 ^ 8 }
