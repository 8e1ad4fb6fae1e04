-- ===== src/Ata/Polling.antt =====
-- kern/driver/ata/ata_polling.c: the sectors that a request covers.
use hoo.Base.{
  ℕ, zero, suc, ◌+◌, ◌-◌, ◌*◌, ◌/◌, ◌%◌, ◌^◌, ◌<◌, ◌≤◌, ◌≡◌, ◌≢◌, ◌⊎◌, inl, inr, true, false, List,
  [], ◌∷◌, ok, arith, refl, ◌==◌, ==_ne, ltb, leb, Bool-cases, ℕ_discrete, ap, if◌then◌else◌, Bool,
  some, get_elem?,
}
use mathlib.Core.Path.{subst}
use hoo.Pic.{Writes}
use hoo.Ata.Registers.{Commands, io_base, set_cmd-Commands}
use hoo.Ata.{
  AtaBuff, Transfer, sector_in, sector_out, cmd_io_read, cmd_io_write, words_of_round, next_sector,
  polling_loop, polling_rw, AtaSpace, AtaDev, set_cmd,
}

abbrev pub sector : ℕ → Writes → ℕ → ℕ → Transfer
sector cmd ws off words =
    if cmd == cmd_io_read then sector_in ws off words else sector_out ws off words

-- Sectors one after the other, of whose numbers the device gets 28 bits, each with the next 512
-- bytes of the object, the last one with what is left of `len`
abbrev pub Covers : AtaDev → ℕ → ℕ → ℕ → ℕ → List Transfer → Type 0
Covers d cmd lba off len [] = len ≡ 0
Covers d cmd lba off len (t ∷ ts) =
    (0 < len)
    × ((ws : Writes) × (t ≡ sector cmd ws off ((if leb 512 len then 512 else len) / 2))
        × Commands d.io_port d.low (lba % 2 ^ 28) 1 cmd ws)
    × Covers d cmd (lba + 1) (off + 512) (len - 512) ts

run_zero : (space : AtaSpace) (b : AtaBuff) → polling_loop space 0 b ≡ ok ([], b)
unfolding polling_loop
run_zero space b = refl

rounds_lem : (len : ℕ) → (if len % 512 == 0 then len / 512 else len / 512 + 1) ≡ (len + 511) / 512
rounds_lem len = elim (ℕ_discrete (len % 512) 0) [
  | yes z ↦ let e : (len % 512 == 0) ≡ true = rw z refl in rw e (omega arith)
  | no ne ↦ rw (==_ne (len % 512) 0 ne) (omega arith)
]

words_lem : (len : ℕ) → words_of_round len ≡ (if leb 512 len then 512 else len) / 2
words_lem len = elim (Bool-cases (leb 512 len)) [
  | inl whole ↦ rw whole refl
  | inr rest ↦ rw rest refl
]

module _ (space : AtaSpace) (d : AtaDev) (primary : Bool)
    (there : get_elem? space.devices space.current_select ≡ some d)
    (base : d.io_port ≡ io_base primary) (valid : space.current_select < space.device_amount) where
  polling_step :
      (n : ℕ) (b b' : AtaBuff) (ts : List Transfer) (ws : Writes)
      → (b.cmd ≡ cmd_io_read) ⊎ (b.cmd ≡ cmd_io_write)
      → b.len ≢ 0
      → set_cmd space space.current_select b.lba 1 b.cmd ≡ ok ws
      → polling_loop space n (next_sector b) ≡ ok (ts, b')
      → polling_loop space (suc n) b ≡ ok (sector b.cmd ws b.off (words_of_round b.len) ∷ ts, b')
  unfolding polling_loop
  polling_step n b b' ts ws (inl c) ne sent run =
      let e : (b.cmd == cmd_io_read) ≡ true = rw c refl in rw (==_ne b.len 0 ne, sent, e, run) refl
  polling_step n b b' ts ws (inr c) ne sent run =
      let e : (b.cmd == cmd_io_read) ≡ false = rw c refl in
      let e' : (b.cmd == cmd_io_write) ≡ true = rw c refl in
      rw (==_ne b.len 0 ne, sent, e, e', run) refl

  -- The sector number of the request is `lba` in 32 bits.
  sent_to :
      (b : AtaBuff) (lba : ℕ)
      → (b.cmd ≡ cmd_io_read) ⊎ (b.cmd ≡ cmd_io_write)
      → b.lba ≡ lba % 2 ^ 32
      → (ws : Writes) × (set_cmd space space.current_select b.lba 1 b.cmd ≡ ok ws)
        × Commands d.io_port d.low (lba % 2 ^ 28) 1 b.cmd ws
  sent_to b lba c is =
      let (ws, run, at) =
        set_cmd-Commands space d primary space.current_select b.lba 1 b.cmd there base valid in
      let e : b.lba % 2 ^ 28 ≡ lba % 2 ^ 28 = omega arith in
      let e' : b.cmd % 2 ^ 8 ≡ b.cmd = elim c [ inl r ↦ omega arith | inr w ↦ omega arith ] in
      (
        ws,
        run,
        subst (λ k. Commands d.io_port d.low (lba % 2 ^ 28) 1 k ws) e'
            (subst (λ l. Commands d.io_port d.low l 1 (b.cmd % 2 ^ 8) ws) e at),
      )

  polling_loop-Covers :
      (n : ℕ) (b : AtaBuff) (lba : ℕ)
      → (b.cmd ≡ cmd_io_read) ⊎ (b.cmd ≡ cmd_io_write)
      → b.len < 2 ^ 32
      → b.lba ≡ lba % 2 ^ 32
      → b.len ≤ n * 512
      → n * 512 < b.len + 512
      → (ts : List Transfer) × (b' : AtaBuff) × (polling_loop space n b ≡ ok (ts, b'))
        × Covers d b.cmd lba b.off b.len ts
  polling_loop-Covers zero b lba c small is le lt = ([], b, run_zero space b, omega arith)
  polling_loop-Covers (suc n) b lba c small is le lt =
      let pos : b.len ≢ 0 = omega arith in
      let (ws, sent, cmds) = sent_to b lba c is in
      let head : sector b.cmd ws b.off (words_of_round b.len)
          ≡ sector b.cmd ws b.off ((if leb 512 b.len then 512 else b.len) / 2) =
        ap (sector b.cmd ws b.off) (words_lem b.len) in
      elim (ℕ_discrete n 0) [
        | yes last ↦ (
          sector b.cmd ws b.off (words_of_round b.len) ∷ [],
          next_sector b,
          polling_step n b (next_sector b) [] ws c pos sent
              (rw last (run_zero space (next_sector b))),
          (omega arith, (ws, head, cmds), omega arith),
        )
        | no more ↦
            let e : (next_sector b).len ≡ b.len - 512 = omega arith in
            let e' : (next_sector b).lba ≡ (lba + 1) % 2 ^ 32 = omega (arith, is) in
            let (ts, b', run, cov) =
              polling_loop-Covers n (next_sector b) (lba + 1) c (omega arith) e' (omega (arith, e))
                (omega (arith, e)) in
            (
              sector b.cmd ws b.off (words_of_round b.len) ∷ ts,
              b',
              polling_step n b b' ts ws c pos sent run,
              (
                omega arith,
                (ws, head, cmds),
                subst (λ k. Covers d b.cmd (lba + 1) (b.off + 512) k ts) e cov,
              ),
            )
      ]

-- With a selected device that is in the table and on the primary or secondary bus, a request of
-- at least 512 bytes to read or to write, from a sector with a 32-bit number on, ends finished:
-- ata_polling_rw goes through the sectors from its first one on, with one command each that
-- leaves the low 28 bits of the sector's number, a count of 1 and the command in the device's
-- registers, and with the next 512 bytes of the object, the last sector with the words of the
-- bytes that are left.
pub polling_rw-Covers :
    (space : AtaSpace) (d : AtaDev) (primary : Bool) (b : AtaBuff)
    → get_elem? space.devices space.current_select ≡ some d
    → d.io_port ≡ io_base primary
    → space.current_select < space.device_amount
    → (b.cmd ≡ cmd_io_read) ⊎ (b.cmd ≡ cmd_io_write)
    → 512 ≤ b.len
    → b.len < 2 ^ 32
    → b.lba < 2 ^ 32
    → (ts : List Transfer) × (b' : AtaBuff) × (polling_rw space b ≡ ok (ts, b'))
      × (b'.finish ≡ true)
      × Covers d b.cmd b.lba b.off b.len ts
unfolding polling_rw
polling_rw-Covers space d primary b there base valid c whole small narrow =
    let enough : ltb b.len 512 ≡ false = ground arith in
    let (ts, b', run, cov) =
      polling_loop-Covers space d primary there base valid ((b.len + 511) / 512) b b.lba c small
        (omega arith) (omega arith) (omega arith) in
    (ts, record b' { finish = true }, rw (enough, rounds_lem b.len, run) refl, refl, cov)
