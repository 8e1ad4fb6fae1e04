-- ===== src/Pic/Enabled.antt =====
-- kern/driver/8259a/8259a.c: which interrupts are masked.
use hoo.Base.{
  ℕ, ◌-◌, ◌%◌, ◌^◌, ◌<◌, ◌≡◌, Bool, true, false, bit_and, bit_or, ltb, ◌==◌, if◌then◌else◌, arith,
  ap, ◌∙◌,
}
use native.Mathlib.Nat.{mod-eq_of_lt}
use hoo.Bitmap.Bits.{bit_of, bit_of-or, bit_or-lt, bit_of-and, bit_and-lt}
use hoo.Pic.{Masks, disable_mask_ocw1, enable_mask_ocw1}

-- Whether interrupt `j` of the sixteen is masked
abbrev pub masked : Masks → ℕ → Bool
masked p j = if ltb j 8 then bit_of p.master j else bit_of p.slave (j - 8)

pub record IsValid (p : Masks) : Type 0 where
  pub master : p.master < 256
  pub slave : p.slave < 256

or_row :
    (v k j : ℕ)
    → v < 256
    → k < 8
    → j < 8
    → bit_of (bit_or v (2 ^ k) % 2 ^ 8) j ≡ (if k == j then true else bit_of v j)
or_row v k j byte k_lt j_lt =
    ap (λ w. bit_of w j) (mod-eq_of_lt (bit_or-lt v k byte k_lt j j_lt))
    ∙ bit_of-or v k byte k_lt j j_lt

and_row :
    (v k j : ℕ)
    → v < 256
    → k < 8
    → j < 8
    → bit_of (bit_and v (0xffffffff - 2 ^ k) % 2 ^ 8) j ≡ (if k == j then false else bit_of v j)
and_row v k j byte k_lt j_lt =
    ap (λ w. bit_of w j) (mod-eq_of_lt (bit_and-lt v k byte k_lt j j_lt))
    ∙ bit_of-and v k byte k_lt j j_lt

-- With byte masks, disable_mask_ocw1 of one of the sixteen interrupts masks that interrupt and
-- leaves the others as they were.
pub masked-disable :
    (p : Masks)
    → IsValid p
    → (irq j : ℕ) → irq < 16
    → j < 16
    → masked (disable_mask_ocw1 p irq) j ≡ (if irq == j then true else masked p j)
unfolding disable_mask_ocw1
masked-disable p v irq j irq_lt j_lt =
    ground (arith, or_row p.master irq j v.master, or_row p.slave (irq - 8) (j - 8) v.slave)

-- tbd
pub masked-enable :
    (p : Masks)
    → IsValid p
    → (irq j : ℕ) → irq < 16
    → j < 16
    → masked (enable_mask_ocw1 p irq) j ≡ (if irq == j then false else masked p j)
unfolding enable_mask_ocw1
masked-enable p v irq j irq_lt j_lt =
    ground (arith, and_row p.master irq j v.master, and_row p.slave (irq - 8) (j - 8) v.slave)
