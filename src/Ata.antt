-- ===== src/Ata.antt =====
-- kern/driver/ata: the requests to a disk and what the driver writes to its registers. The device
-- itself and the waits for it are hardware; a transfer is what is written for one sector and the
-- words that `insw` or `outsw` then move.
pub mod Registers
pub mod Polling
mod Tests
use hoo.Base.{
  ℕ, zero, suc, ◌+◌, ◌-◌, ◌*◌, ◌/◌, ◌%◌, ◌^◌, Bool, true, false, not, ◌&&◌, List, [], ◌∷◌, Outcome,
  ok, panic, ◌>>=◌, ◌>>◌, panic_if, ◌==◌, ltb, leb, if◌then◌else◌, bit_or, replicate, checked,
  get_elem?,
}
use hoo.UserLib.{load, store, memmove}
use hoo.Fs.Blocks.{bytes_sector}
use hoo.Pic.{Writes}

abbrev pub cmd_io_read : ℕ
cmd_io_read = 0x20

abbrev pub cmd_io_write : ℕ
cmd_io_write = 0x30

-- `atabuff_t`; the pointer is an offset into the object that the caller gives.
pub record AtaBuff : Type 0 where
  pub off : ℕ
  pub len : ℕ
  pub lba : ℕ
  pub cmd : ℕ
  pub finish : Bool

-- `atabuff_set(ibuff, buff, len, lba, cmd)`
unfoldable pub atabuff_set : ℕ → ℕ → ℕ → AtaBuff
atabuff_set len lba cmd = record { off = 0; len = len; lba = lba; cmd = cmd; finish = false }

-- `ata_check_invalid(dev_no)` with `device_amount_`
unfoldable pub check_invalid : ℕ → ℕ → Outcome (Unit {0})
check_invalid amount dev_no =
    panic_if (not (amount == 0) && leb amount dev_no) "ata_check_invalid(): device invalid"

-- `atadev_t`, of which `low` is ATA_TYPE_BUS_WIRE_LOW, and `ataspc_t` with the table of devices
pub record AtaDev : Type 0 where
  pub low : Bool
  pub io_port : ℕ

pub record AtaSpace : Type 0 where
  pub device_amount : ℕ
  pub current_select : ℕ
  pub devices : List AtaDev

-- What `ata_set_cmd(dev, lba, cr, cmd)` writes. A device behind the table is a `fault`.
unfoldable pub set_cmd : AtaSpace → ℕ → ℕ → ℕ → ℕ → Outcome Writes
unfolding check_invalid
set_cmd space dev lba cr cmd = do
  d ← checked (get_elem? space.devices dev)
  check_invalid space.device_amount dev
  let master : ℕ = if d.low then 0 else 1
  ok (
      (d.io_port + 6, bit_or (bit_or (bit_or 0xa0 0x40) (master * 2 ^ 4)) (lba / 2 ^ 24 % 2 ^ 4))
      ∷ (d.io_port + 2, cr % 2 ^ 8)
      ∷ (d.io_port + 3, lba % 2 ^ 8)
      ∷ (d.io_port + 4, lba / 2 ^ 8 % 2 ^ 8)
      ∷ (d.io_port + 5, lba / 2 ^ 16 % 2 ^ 8)
      ∷ (d.io_port + 7, cmd % 2 ^ 8)
      ∷ [])

-- What is written to the registers for a sector, and the words that then move from the device to
-- the object or back, from `off` on
pub data Transfer : Type 0 where
  sector_in : (command : Writes) (off words : ℕ) → Transfer
  sector_out : (command : Writes) (off words : ℕ) → Transfer

-- The words of a round, `rest_bytes`
abbrev pub words_of_round : ℕ → ℕ
words_of_round len = if leb bytes_sector len then bytes_sector / 2 else len / 2

abbrev pub next_sector : AtaBuff → AtaBuff
next_sector b = record b {
  lba = (b.lba + 1) % 2 ^ 32;
  len = (b.len + 2 ^ 32 - bytes_sector) % 2 ^ 32;
  off = b.off + bytes_sector;
}

-- The loop of `ata_polling_rw`, `n` rounds
unfoldable pub polling_loop : AtaSpace → ℕ → AtaBuff → Outcome (List Transfer × AtaBuff)
unfolding set_cmd
polling_loop space zero b = ok ([], b)
polling_loop space (suc n) b = do
  let words = words_of_round b.len
  let rest = polling_loop space n (next_sector b)
  if b.len == 0 then ok ([], b) else (do
    command ← set_cmd space space.current_select b.lba 1 b.cmd
    if b.cmd == cmd_io_read
        then (rest >>= λ (ts, b'). ok (sector_in command b.off words ∷ ts, b'))
        else if b.cmd == cmd_io_write
        then (rest >>= λ (ts, b'). ok (sector_out command b.off words ∷ ts, b'))
        else panic "ata_polling_rw(): bug")

-- `ata_polling_rw(buff)`
unfoldable pub polling_rw : AtaSpace → AtaBuff → Outcome (List Transfer × AtaBuff)
unfolding polling_loop
polling_rw space b = do
  panic_if (ltb b.len bytes_sector) "ata_polling_rw(): not meet a sector size"
  let sectors = b.len / bytes_sector
  let rounds = if b.len % bytes_sector == 0 then sectors else sectors + 1
  (ts, b') ← polling_loop space rounds b
  ok (ts, record b' { finish = true })

-- The loop of `ata_print_string`, `n` pairs from byte `i` on; the result is in `s`.
unfoldable pub swap_pairs : ℕ → List ℕ → List ℕ → ℕ → Outcome (List ℕ)
unfolding load store
swap_pairs zero p s i = ok s
swap_pairs (suc n) p s i = do
  a ← load p (i + 1)
  s₁ ← store s i a
  b ← load p i
  s₂ ← store s₁ (i + 1) b
  swap_pairs n p s₂ (i + 2)

abbrev pub size_ata_string_buff : ℕ
size_ata_string_buff = 1024

-- `ata_print_string(buff, bufflen)`
unfoldable pub print_string : List ℕ → ℕ → Outcome (List ℕ)
unfolding swap_pairs
print_string buff bufflen = do
  panic_if (not (bufflen % 2 == 0)) "ata_print_string(): bad buffer size"
  swap_pairs ((bufflen + 1) / 2) buff (replicate size_ata_string_buff 0) 0

-- `ata_get_device_type` of bit 15 of word 0, and `ata_get_sectors` of words 60 and 61
unfoldable pub device_type : ℕ → ℕ
device_type word0 = if word0 == 0 then 1 else 0

unfoldable pub sectors : ℕ → ℕ → ℕ
sectors word60 word61 = word60 + word61 * 2 ^ 16

-- The loop that cuts a name at two blanks, `n` bytes from byte `i` on. The byte behind the last
-- is read if the last is a blank.
unfoldable pub cut_blanks : ℕ → List ℕ → ℕ → Outcome (List ℕ)
unfolding load store
cut_blanks zero s i = ok s
cut_blanks (suc n) s i = do
  a ← load s i
  if a == 0x20
      then (do b ← load s (i + 1); if b == 0x20 then store s i 0 else cut_blanks n s (i + 1))
      else cut_blanks n s (i + 1)

-- `ata_get_serial_number` and `ata_get_model_number`, of 20 and 40 bytes
unfoldable pub name_of : ℕ → List ℕ → List ℕ → Outcome (List ℕ)
unfolding print_string memmove cut_blanks
name_of size words result = do
  s ← print_string words size
  r ← memmove result 0 s 0 size
  cut_blanks size r 0
