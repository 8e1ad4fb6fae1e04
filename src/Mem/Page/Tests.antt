-- ===== src/Mem/Page/Tests.antt =====
-- kern/mem/pm.c and kern/page/page.c on a directory at 0x5000 with one table at 0x6000.
use hoo.Base.{
  false, ℕ, ◌+◌, ◌*◌, ◌/◌, ◌^◌, ◌<◌, ◌≡◌, ◌≢◌, [], ◌∷◌, ok, arith, refl, ◌==◌, ==_ne, if◌then◌else◌,
  Bool-cases, inl, inr,
}
use hoo.Mem.Page.{Paging, pg, translate, set_mapping, paging}
use hoo.Mem.Page.Map.{set_mapping-translates}
use hoo.Mem.Page.Start.{paging-translates}

abbrev words : ℕ → ℕ
words a = if a == 0x5000 + 4 then 0x6007 else (if a == 0x5000 + 4092 then 0x5007 else 0)

abbrev small : Paging
small = record {
  pm = record { lock = 0; map = record { len_inbits = 8; buff = 1 ∷ []; prev_free = 0 } };
  ram = words;
  dir = 0x5000;
}

words-apart : (i : ℕ) → i < 1024 → i ≢ 1 → pg (words (0x5000 + i * 4)) ≢ 0x6000
words-apart i lt ne =
    let other : (0x5000 + i * 4 == 0x5000 + 4) ≡ false =
      ==_ne (0x5000 + i * 4) (0x5000 + 4) (omega arith) in
    elim (Bool-cases (0x5000 + i * 4 == 0x5000 + 4092)) [
      | inl last ↦ rw (other, last) (omega arith)
      | inr n ↦ rw (other, n) (omega arith)
    ]

set_mapping-translates_example :
    (s' : Paging) × (set_mapping small 0x412345 0x9000 7 ≡ ok s')
    × (translate s' 0x412345 ≡ ok 0x9345)
    × ((v : ℕ) → v < 2 ^ 32 → v / 4096 ≢ 0x412 → translate s' v ≡ translate small v)
set_mapping-translates_example =
    set_mapping-translates small 0x412345 refl refl 0x6000 0x9000 7 refl (omega arith) refl
      words-apart (omega arith) refl (omega arith) refl

paging-translates_example :
    (translate (paging small) 0x12345 ≡ ok 0x12345)
    × (translate (paging small) (0x80000000 + 0x12345) ≡ ok 0x12345)
    × ((paging small).ram ((paging small).dir + 4092) ≡ (paging small).dir + 7)
paging-translates_example = paging-translates small 0x12345 (omega arith)
