-- ===== src/Ata/Registers.antt =====
-- kern/driver/ata/ata_device.c: what the registers hold after `ata_set_cmd`.
use hoo.Base.{
  ℕ, ◌+◌, ◌*◌, ◌/◌, ◌%◌, ◌^◌, ◌<◌, ◌≡◌, Bool, true, false, not, ◌&&◌, [], ◌∷◌, some, ok, arith,
  refl, bit_or, if◌then◌else◌, ◌==◌, leb, get_elem?, sym,
}
use mathlib.Core.Path.{subst}
use hoo.Pic.{Writes}
use hoo.Mem.Page.Bits.{bit_or-low}
use hoo.Ata.{AtaSpace, AtaDev, set_cmd}

-- The registers by port, `regs` before the writes: each holds the last value written to it.
abbrev pub after : Writes → (ℕ → ℕ) → ℕ → ℕ
after [] regs port = regs port
after ((p, v) ∷ ws) regs port = after ws (λ q. if q == p then v else regs q) port

-- Where the bus of a device has its ports
abbrev pub io_base : Bool → ℕ
io_base true = 0x1f0
io_base false = 0x170

-- What a device finds in its registers, whatever they held before: the 28 bits of the sector
-- number, the drive and the LBA mode, the count of sectors and the command
pub record Commands (base : ℕ) (low : Bool) (lba cr cmd : ℕ) (ws : Writes) : Type 0 where
  pub sector_no :
      (regs : ℕ → ℕ)
      → after ws regs (base + 3)
          + after ws regs (base + 4) * 2 ^ 8
          + after ws regs (base + 5) * 2 ^ 16
          + after ws regs (base + 6) % 2 ^ 4 * 2 ^ 24
        ≡ lba
  pub drive : (regs : ℕ → ℕ) → after ws regs (base + 6) / 2 ^ 4 ≡ (if low then 14 else 15)
  pub count : (regs : ℕ → ℕ) → after ws regs (base + 2) ≡ cr
  pub operation : (regs : ℕ → ℕ) → after ws regs (base + 7) ≡ cmd

drive_register :
    (low : Bool) (v : ℕ)
    → v < 16
    → bit_or (bit_or 0xe0 ((if low then 0 else 1) * 16)) v ≡ (if low then 0xe0 else 0xf0) + v
drive_register true v lt = bit_or-low 4 14 v lt
drive_register false v lt = bit_or-low 4 15 v lt

abbrev written : ℕ → Bool → ℕ → ℕ → ℕ → Writes
written base low lba cr cmd =
    (base + 6, bit_or (bit_or 0xe0 ((if low then 0 else 1) * 16)) (lba / 2 ^ 24 % 2 ^ 4))
    ∷ (base + 2, cr % 2 ^ 8)
    ∷ (base + 3, lba % 2 ^ 8)
    ∷ (base + 4, lba / 2 ^ 8 % 2 ^ 8)
    ∷ (base + 5, lba / 2 ^ 16 % 2 ^ 8)
    ∷ (base + 7, cmd % 2 ^ 8)
    ∷ []

written-Commands :
    (primary low : Bool) (lba cr cmd : ℕ)
    → Commands
        (io_base primary)
        low
        (lba % 2 ^ 28)
        (cr % 2 ^ 8)
        (cmd % 2 ^ 8)
        (written (io_base primary) low lba cr cmd)
written-Commands true true lba cr cmd =
    let d = drive_register true (lba / 2 ^ 24 % 2 ^ 4) (omega arith) in
    record {
      sector_no = λ regs. rw d (omega arith);
      drive = λ regs. rw d (omega arith);
      count = λ regs. refl;
      operation = λ regs. refl;
    }
written-Commands true false lba cr cmd =
    let d = drive_register false (lba / 2 ^ 24 % 2 ^ 4) (omega arith) in
    record {
      sector_no = λ regs. rw d (omega arith);
      drive = λ regs. rw d (omega arith);
      count = λ regs. refl;
      operation = λ regs. refl;
    }
written-Commands false true lba cr cmd =
    let d = drive_register true (lba / 2 ^ 24 % 2 ^ 4) (omega arith) in
    record {
      sector_no = λ regs. rw d (omega arith);
      drive = λ regs. rw d (omega arith);
      count = λ regs. refl;
      operation = λ regs. refl;
    }
written-Commands false false lba cr cmd =
    let d = drive_register false (lba / 2 ^ 24 % 2 ^ 4) (omega arith) in
    record {
      sector_no = λ regs. rw d (omega arith);
      drive = λ regs. rw d (omega arith);
      count = λ regs. refl;
      operation = λ regs. refl;
    }

-- For a device of the table that is on the primary or secondary bus, ata_set_cmd succeeds, and
-- whatever the registers held before, they then hold the low 28 bits of the sector number in
-- their parts, the drive by its wire with the LBA mode, and the low byte of the count and of the
-- command.
pub set_cmd-Commands :
    (space : AtaSpace) (d : AtaDev) (primary : Bool) (dev lba cr cmd : ℕ)
    → get_elem? space.devices dev ≡ some d
    → d.io_port ≡ io_base primary
    → dev < space.device_amount
    → (ws : Writes) × (set_cmd space dev lba cr cmd ≡ ok ws)
      × Commands d.io_port d.low (lba % 2 ^ 28) (cr % 2 ^ 8) (cmd % 2 ^ 8) ws
unfolding set_cmd
set_cmd-Commands space d primary dev lba cr cmd there base valid =
    let inside : (not (space.device_amount == 0) && leb space.device_amount dev) ≡ false =
      ground arith in
    (
      written d.io_port d.low lba cr cmd,
      rw (there, inside) refl,
      subst
          (λ p.
            Commands p d.low (lba % 2 ^ 28) (cr % 2 ^ 8) (cmd % 2 ^ 8) (written p d.low lba cr cmd))
          (sym base) (written-Commands primary d.low lba cr cmd),
    )
