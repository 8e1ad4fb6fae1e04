-- ===== src/Ata/Tests.antt =====
-- kern/driver/ata on requests of a sector and a half, and on the names of a device.
use hoo.Base.{◌≡◌, true, false, inl, List, [], ◌∷◌, ok, fault, refl, arith, replicate}
use hoo.Pic.{Writes}
use hoo.Ata.{AtaSpace, AtaDev, set_cmd, AtaBuff, Transfer, polling_rw, cut_blanks, swap_pairs}
use hoo.Ata.Registers.{Commands, set_cmd-Commands}
use hoo.Ata.Polling.{Covers, polling_rw-Covers}
use hoo.UserLib.{load, store}

abbrev slave : AtaDev
slave = record { low = false; io_port = 0x1f0 }

abbrev space : AtaSpace
space = record { device_amount = 1; current_select = 0; devices = slave ∷ [] }

abbrev request : AtaBuff
request = record { off = 0; len = 768; lba = 67; cmd = 0x20; finish = false }

polling_rw-Covers_example :
    (ts : List Transfer) × (b' : AtaBuff) × (polling_rw space request ≡ ok (ts, b'))
    × (b'.finish ≡ true)
    × Covers slave 0x20 67 0 768 ts
polling_rw-Covers_example =
    polling_rw-Covers space slave true request refl refl (omega arith) (inl refl) (omega arith)
      (omega arith) (omega arith)

swap_run : swap_pairs 2 (1 ∷ 2 ∷ 3 ∷ 4 ∷ []) (replicate 4 0) 0 ≡ ok (2 ∷ 1 ∷ 4 ∷ 3 ∷ [])
unfolding swap_pairs load store
swap_run = refl

-- A blank at the end of the name makes the loop read the byte behind it.
cut_run : cut_blanks 2 (65 ∷ 0x20 ∷ []) 0 ≡ fault
unfolding cut_blanks load store
cut_run = refl

set_cmd-Commands_example :
    (ws : Writes) × (set_cmd space 0 0x1234567 1 0x20 ≡ ok ws)
    × Commands 0x1f0 false 0x1234567 1 0x20 ws
set_cmd-Commands_example =
    set_cmd-Commands space slave true 0 0x1234567 1 0x20 refl refl (omega arith)
