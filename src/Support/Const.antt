-- ===== src/Support/Const.antt =====
-- Constants of h/const.h for phases 3 to 5, the layout of `support_t`, and macros. `SWAP_POOL_START`
-- and `FLASK_DMA_BUFFER_BASE_ADDR` are sums without parentheses, and stand only in sums.
use operating_system_cs.Base.{ℕ, ◌+◌, ◌*◌, add32, mul32}
use operating_system_cs.Ring.{Ptr}

abbrev pub blocksize : ℕ
blocksize = 4096

abbrev pub vpn_shift : ℕ
vpn_shift = 12

abbrev pub vpn_mask : ℕ
vpn_mask = 0x000F_FFFF

abbrev pub swap_pool_size : ℕ
swap_pool_size = 32

abbrev pub swap_pool_start : ℕ
swap_pool_start = 0x2002_0000 + blocksize * 16

abbrev pub page_table_size : ℕ
page_table_size = 32

abbrev pub asid_shift : ℕ
asid_shift = 6

abbrev pub uproc_num : ℕ
uproc_num = 1

abbrev pub uproc_stack_area : ℕ
uproc_stack_area = 0xBFFF_F000

abbrev pub last_user_page : ℕ
last_user_page = 0x8001_E000

abbrev pub kuseg : ℕ
kuseg = 0x8000_0000

abbrev pub dbiton : ℕ
dbiton = 0x0400

abbrev pub vbiton : ℕ
vbiton = 0x0200

abbrev pub gbitoff : ℕ
gbitoff = 0xFFFF_FEFF

abbrev pub vbitoff : ℕ
vbitoff = 0xFFFF_FDFF

-- `~(PFN_MASK + VBITON)`
abbrev pub pfn_vbit_off : ℕ
pfn_vbit_off = 0x0000_0DFF

abbrev pub startvpn : ℕ
startvpn = 0x8_0000

abbrev pub uproc_stack_vpn : ℕ
uproc_stack_vpn = 0xB_FFFF

abbrev pub uprocstartaddr : ℕ
uprocstartaddr = 0x8000_00B0

abbrev pub uprocstack : ℕ
uprocstack = 0xC000_0000

abbrev pub str_max : ℕ
str_max = 128

abbrev pub new_line : ℕ
new_line = 10

abbrev pub ready : ℕ
ready = 1

abbrev pub iecbiton : ℕ
iecbiton = 1

abbrev pub iecbitoff : ℕ
iecbitoff = 0xFFFF_FFFE

-- -1 as an `int`, and the largest `int`.
abbrev pub minus_one : ℕ
minus_one = 0xFFFF_FFFF

abbrev pub maxsignedint : ℕ
maxsignedint = 0x7FFF_FFFF

-- Interrupt lines.
abbrev pub diskint : ℕ
diskint = 3

abbrev pub flashint : ℕ
flashint = 4

abbrev pub prntint : ℕ
prntint = 6

abbrev pub termint : ℕ
termint = 7

abbrev pub disk_dma_buffer_base_addr : ℕ
disk_dma_buffer_base_addr = 0x2002_0000

abbrev pub flask_dma_buffer_base_addr : ℕ
flask_dma_buffer_base_addr = 0x2002_0000 + blocksize * 8

abbrev pub seekcyl : ℕ
seekcyl = 2

abbrev pub readblk_dsk : ℕ
readblk_dsk = 3

abbrev pub writeblk_dsk : ℕ
writeblk_dsk = 4

abbrev pub readblk_flash : ℕ
readblk_flash = 2

abbrev pub writeblk_flash : ℕ
writeblk_flash = 3

-- `&d->d_command` and so on for a `device_t` at `d`, with the names that terminals give them.
abbrev pub d_command : Ptr → Ptr
d_command d = add32 d 4

abbrev pub d_data0 : Ptr → Ptr
d_data0 d = add32 d 8

abbrev pub d_data1 : Ptr → Ptr
d_data1 d = add32 d 12

abbrev pub t_recv_command : Ptr → Ptr
t_recv_command = d_command

abbrev pub t_transm_command : Ptr → Ptr
t_transm_command = d_data1

-- `sizeof` of `support_t` and `delayd_t`, and the addresses of parts of a `support_t`.
abbrev pub support_size : ℕ
support_size = 4568

abbrev pub delayd_size : ℕ
delayd_size = 12

-- `&(sup->sup_privatePgTbl[i])`
abbrev pub pte_elem : Ptr → ℕ → Ptr
pte_elem sup i = add32 sup (add32 308 (mul32 8 i))

-- `&(sup->sup_stackTlb[499])` and `&(sup->sup_stackGen[499])`
abbrev pub stack_tlb_top : Ptr → Ptr
stack_tlb_top sup = add32 sup (564 + 4 * 499)

abbrev pub stack_gen_top : Ptr → Ptr
stack_gen_top sup = add32 sup (2564 + 4 * 499)

abbrev pub delay_sem : Ptr → Ptr
delay_sem sup = add32 sup 4564
