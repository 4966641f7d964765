-- ===== src/Kernel/Const.antt =====
-- Constants of h/const.h and of the modules that define their own, and the macros over them.
use operating_system_cs.Base.{ℕ, ◌+◌, ◌*◌, add32, sub32, mul32, shr, bit_and}
use operating_system_cs.Ring.{Ptr}

abbrev pub maxproc : ℕ
maxproc = 20

abbrev pub state_reg_num : ℕ
state_reg_num = 31

-- `sizeof` of `pcb_t`, `semd_t` and `int`.
abbrev pub pcb_size : ℕ
pcb_size = 176

abbrev pub semd_size : ℕ
semd_size = 12

abbrev pub wordlen : ℕ
wordlen = 4

-- Indices into `s_reg`: `s_v0`, `s_a0` to `s_a3`, `s_t9`, `s_sp`.
abbrev pub v0 : ℕ
v0 = 1

abbrev pub a0 : ℕ
a0 = 3

abbrev pub a1 : ℕ
a1 = 4

abbrev pub a2 : ℕ
a2 = 5

abbrev pub a3 : ℕ
a3 = 6

abbrev pub t9 : ℕ
t9 = 24

abbrev pub sp : ℕ
sp = 26

abbrev pub pagesize : ℕ
pagesize = 4096

abbrev pub ramstart : ℕ
ramstart = 0x2000_0000

abbrev pub passupvector : Ptr
passupvector = 0x0FFF_F900

abbrev pub rambaseaddr : Ptr
rambaseaddr = 0x1000_0000

abbrev pub rambasesize : Ptr
rambasesize = 0x1000_0004

abbrev pub intervaltmr : Ptr
intervaltmr = 0x1000_0020

abbrev pub timescaleaddr : Ptr
timescaleaddr = 0x1000_0024

abbrev pub clockinterval : ℕ
clockinterval = 100000

-- The time slice that scheduler.c loads on the processor local timer.
abbrev pub time_slice : ℕ
time_slice = 5000

abbrev pub devintnum : ℕ
devintnum = 5

abbrev pub devperint : ℕ
devperint = 8

-- The length of `device_sem`.
abbrev pub device_sem_num : ℕ
device_sem_num = 49

abbrev pub pseudo_clock_idx : ℕ
pseudo_clock_idx = 48

abbrev pub pgfaultexcept : ℕ
pgfaultexcept = 0

abbrev pub generalexcept : ℕ
generalexcept = 1

abbrev pub ack : ℕ
ack = 1

abbrev pub iepbiton : ℕ
iepbiton = 0x4

abbrev pub tebiton : ℕ
tebiton = 0x0800_0000

abbrev pub kupbitoff : ℕ
kupbitoff = 0xFFFF_FFF7

abbrev pub execcodebits : ℕ
execcodebits = 0x7C

abbrev pub ipbits : ℕ
ipbits = 0xFF00

-- `CauseExcCode`
abbrev pub cause_exc_code : ℕ → ℕ
cause_exc_code cause = shr (bit_and execcodebits cause) 2

-- `devAddrBase`, `intDevBitMap` and `devSemIdx`, on `int`.
abbrev pub dev_addr_base : ℕ → ℕ → Ptr
dev_addr_base line dev = add32 (add32 0x1000_0054 (mul32 (sub32 line 3) 0x80)) (mul32 dev 0x10)

abbrev pub int_dev_bit_map : ℕ → Ptr
int_dev_bit_map line = add32 0x1000_0040 (mul32 4 (sub32 line 3))

abbrev pub dev_sem_idx : ℕ → ℕ → ℕ → ℕ
dev_sem_idx line dev term_read = add32 (add32 (mul32 (sub32 line 3) 8) (mul32 term_read 8)) dev

-- `&a[i]` for an array of `int` at `a`.
abbrev pub int_elem : Ptr → ℕ → Ptr
int_elem a i = add32 a (mul32 wordlen i)

abbrev pub array_elem : Ptr → ℕ → ℕ → Ptr
array_elem a size i = a + i * size
