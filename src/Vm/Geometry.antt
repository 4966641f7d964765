-- ===== src/Vm/Geometry.antt =====
-- The geometry of a disk, as d_data1 gives it, and the two ways in which the sources make a linear
-- sector number into cylinder, head and sector: one in phase3/vmSupport.c and phase3/initProc.c, one in
-- phase4/devSupport.c.
use operating_system_cs.Base.{ℕ, mul32, shr, bit_and}
use operating_system_cs.Support.Machine.{sdiv32, srem32}

pub record Chs : Type 0 where
  pub sect_no : ℕ
  pub head_no : ℕ
  pub cyl_no : ℕ

abbrev pub maxcyl : ℕ → ℕ
maxcyl data1 = bit_and (shr data1 16) 0xFFFF

abbrev pub maxhead : ℕ → ℕ
maxhead data1 = bit_and (shr data1 8) 0xFF

abbrev pub maxsect : ℕ → ℕ
maxsect data1 = bit_and data1 0xFF

-- `maxcyl * maxhead * maxsect`
abbrev pub disk_size : ℕ → ℕ
disk_size data1 = mul32 (mul32 (maxcyl data1) (maxhead data1)) (maxsect data1)

-- The pager's and the initialisation's: first the sectors of a head, then the heads of a cylinder.
unfoldable pub pager_chs : (heads sects : ℕ) → ℕ → Chs
pager_chs heads sects n = record {
  sect_no = srem32 (srem32 n (mul32 heads sects)) sects;
  head_no = sdiv32 (srem32 n (mul32 heads sects)) sects;
  cyl_no = sdiv32 n (mul32 heads sects);
}

-- The system calls': first the sectors of a head, then the cylinders.
unfoldable pub user_chs : (cyls heads sects : ℕ) → ℕ → Chs
user_chs cyls heads sects n = record {
  sect_no = srem32 n sects;
  head_no = srem32 (sdiv32 n (mul32 sects cyls)) heads;
  cyl_no = srem32 (sdiv32 n sects) cyls;
}
