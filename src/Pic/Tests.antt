-- ===== src/Pic/Tests.antt =====
-- kern/driver/8259a/8259a.c with most interrupts masked.
use hoo.Base.{◌≡◌, true, arith}
use hoo.Pic.{Masks, disable_mask_ocw1}
use hoo.Pic.Enabled.{IsValid, masked, masked-disable}

abbrev most : Masks
most = record { master = 0xfc; slave = 0x3f }

most-IsValid : IsValid most
most-IsValid = record { master = omega arith; slave = omega arith }

masked-disable_run : masked (disable_mask_ocw1 most 15) 15 ≡ true
masked-disable_run = masked-disable most most-IsValid 15 15 (omega arith) (omega arith)
