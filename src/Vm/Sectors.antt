-- ===== src/Vm/Sectors.antt =====
-- The two decompositions of a sector number (phase3/vmSupport.c and phase4/devSupport.c) are inverse to
-- the numbering of the sectors.
use native.Mathlib.Omega.{div_any}
use native.Mathlib.Nat.{
  mod-lt, mod-le, mod-eq_of_lt, div-le_self, div-lt_iff_lt-mul, div-div-eq-div-mul,
}
use operating_system_cs.Base.{ℕ, zero, suc, ◌+◌, ◌*◌, ◌/◌, ◌%◌, ◌<◌, ◌≡◌, arith, mul32}
use operating_system_cs.Support.Machine.{sdiv32, srem32}
use operating_system_cs.Vm.Geometry.{Chs, pager_chs, user_chs}

positive : (c h s n : ℕ) → n < c * (h * s) → (0 < h * s) × (0 < s) × (0 < h)
positive c zero s n lt = absurd (grind arith)
positive c (suc h) zero n lt = absurd (grind arith)
positive c (suc h) (suc s) n lt = (grind arith, omega arith, omega arith)

-- The numbers of the pager's formula, without bounds of words.
split_pager :
    (c h s n : ℕ)
    → n < c * (h * s)
    → (n % (h * s) % s < s)
      × (n % (h * s) / s < h)
      × (n / (h * s) < c)
      × ((n / (h * s) * h + n % (h * s) / s) * s + n % (h * s) % s ≡ n)
split_pager c h s n lt =
    let pos = positive c h s n lt in
    (
      mod-lt (n % (h * s)) pos.1,
      (div-lt_iff_lt-mul pos.1).1 (mod-lt n pos.0),
      (div-lt_iff_lt-mul pos.0).1 lt,
      grind (arith, div_any n (h * s), div_any (n % (h * s)) s),
    )

small_product : (h s : ℕ) → h < 0x100 → s < 0x100 → h * s < 0x1_0000
small_product h s lh ls = grind arith

-- The numbers of the system calls' formula.
split_user :
    (c h s n : ℕ)
    → n < h * (s * c)
    → (n % s < s)
      × (n / (s * c) % h < h)
      × (n / s % c < c)
      × ((n / (s * c) % h * c + n / s % c) * s + n % s ≡ n)
split_user c h s n lt =
    let pos = positive h s c n lt in
    let below : n / (s * c) < h = (div-lt_iff_lt-mul pos.0).1 lt in
    (
      mod-lt n pos.2,
      mod-lt (n / (s * c)) (omega arith),
      mod-lt (n / s) pos.1,
      grind (arith, mod-eq_of_lt below, div-div-eq-div-mul n s c, div_any n s, div_any (n / s) c),
    )

-- Words that stand for small numbers.
mul-small : (a b : ℕ) → a * b < 0x8000_0000 → mul32 a b ≡ a * b
mul-small a b h = mod-eq_of_lt (omega arith)

sdiv-small : (a b : ℕ) → a < 0x8000_0000 → sdiv32 a b ≡ a / b
sdiv-small a b h = ground arith

srem-small : (a b : ℕ) → a < 0x8000_0000 → srem32 a b ≡ a % b
srem-small a b h = ground arith

-- The place lies on the disk.
pub record OnDisk (cyls heads sects : ℕ) (at : Chs) : Type 0 where
  pub sect_bound : at.sect_no < sects
  pub head_bound : at.head_no < heads
  pub cyl_bound : at.cyl_no < cyls

-- The pager's formula on a sector number of the disk gives a place on the disk, from which the number
-- can be computed.
pub pager_chs-OnDisk :
    (cyls heads sects n : ℕ)
    → cyls < 0x1_0000
    → heads < 0x100
    → sects < 0x100
    → n < cyls * (heads * sects)
    → n < 0x8000_0000
    → OnDisk cyls heads sects (pager_chs heads sects n)
      × (((pager_chs heads sects n).cyl_no * heads + (pager_chs heads sects n).head_no) * sects
            + (pager_chs heads sects n).sect_no
          ≡ n)
unfolding pager_chs
pager_chs-OnDisk cyls heads sects n hc hh hs hn lt =
    let p = split_pager cyls heads sects n hn in
    simp
      (
        mul-small heads sects (omega (arith, small_product heads sects hh hs)),
        sdiv-small n (heads * sects) lt,
        srem-small n (heads * sects) lt,
        sdiv-small (n % (heads * sects)) sects (omega (arith, mod-le n (heads * sects))),
        srem-small (n % (heads * sects)) sects (omega (arith, mod-le n (heads * sects))),
      )
      (record { sect_bound = p.0; head_bound = p.1; cyl_bound = p.2 }, p.3)

-- The same for the system calls' formula, which numbers the heads before the cylinders: with it
-- consecutive numbers go through the cylinders of one head.
pub user_chs-OnDisk :
    (cyls heads sects n : ℕ)
    → cyls < 0x1_0000
    → heads < 0x100
    → sects < 0x100
    → n < heads * (sects * cyls)
    → n < 0x8000_0000
    → OnDisk cyls heads sects (user_chs cyls heads sects n)
      × (((user_chs cyls heads sects n).head_no * cyls + (user_chs cyls heads sects n).cyl_no)
              * sects
            + (user_chs cyls heads sects n).sect_no
          ≡ n)
unfolding user_chs
user_chs-OnDisk cyls heads sects n hc hh hs hn lt =
    let p = split_user cyls heads sects n hn in
    simp
      (
        mul-small sects cyls (grind arith),
        sdiv-small n (sects * cyls) lt,
        srem-small n sects lt,
        sdiv-small n sects lt,
        srem-small (n / (sects * cyls)) heads (omega (arith, div-le_self n (sects * cyls))),
        srem-small (n / sects) cyls (omega (arith, div-le_self n sects)),
      )
      (record { sect_bound = p.0; head_bound = p.1; cyl_bound = p.2 }, p.3)
