-- ===== src/Gdt.antt =====
-- kern/desc: a segment descriptor, with its bit fields as numbers.
pub mod Fields
mod Tests
use hoo.Base.{ℕ, ◌+◌, ◌*◌, ◌/◌, ◌%◌, ◌^◌, Bool, ◌==◌, if◌then◌else◌}

-- The two views of the access byte have the same fields in the same places: `dc_` and `e_` of the
-- one are `type3_` and `type4_` of the other.
pub record Access : Type 0 where
  pub a : ℕ
  pub rw : ℕ
  pub dc : ℕ
  pub e : ℕ
  pub sys : ℕ
  pub dpl : ℕ
  pub ps : ℕ

-- `Desc_t`
pub record Desc : Type 0 where
  pub limit_15_0 : ℕ
  pub base_15_0 : ℕ
  pub base_23_16 : ℕ
  pub access : Access
  pub limit_19_16 : ℕ
  pub avl : ℕ
  pub long : ℕ
  pub db : ℕ
  pub g : ℕ
  pub base_31_24 : ℕ

-- `set_gdt(d, …)`
unfoldable pub set_gdt : (limit base a w dc exe sys dpl ps l db g : ℕ) → Desc
set_gdt limit base a w dc exe sys dpl ps l db g = record {
  limit_15_0 = limit % 2 ^ 16;
  limit_19_16 = limit / 2 ^ 16 % 2 ^ 8 % 2 ^ 4;
  base_15_0 = base % 2 ^ 16;
  base_23_16 = base / 2 ^ 16 % 2 ^ 8;
  base_31_24 = base / 2 ^ 24 % 2 ^ 8;
  access =
      if sys == 0
      then record { a = 1; rw = w % 2; dc = 0; e = 1; sys = 0; dpl = dpl % 4; ps = ps % 2 }
      else record {
        a = a % 2;
        rw = w % 2;
        dc = dc % 2;
        e = exe % 2;
        sys = 1;
        dpl = dpl % 4;
        ps = ps % 2;
      };
  avl = 0;
  long = l % 2;
  db = db % 2;
  g = g % 2;
}
