-- ===== src/Kernel/Machine.antt =====
-- The processor's services (libumps) and the cells of `int`, as commands. `LDST`, `LDCXT`, `HALT`,
-- `PANIC` and `WAIT` end the run. The nucleus runs with interrupts off and its own time is not
-- modelled: `getTIMER` gives the value that the timer holds.
use operating_system_cs.Base.{ℕ, upd, mul32}
use operating_system_cs.Ring.{Ptr}
use operating_system_cs.Kernel.{State}
use operating_system_cs.Kernel.Const.{intervaltmr, timescaleaddr}
use operating_system_cs.Kernel.Run.{Exit, Cmd, ldst, leave, load, store, read, modify, ◌>>=◌}

abbrev pub exit : {A : Type 0} → Exit → Cmd A
exit = leave

abbrev pub get_word : Ptr → Cmd ℕ
get_word = load (λ k. k.words)

abbrev pub set_word : Ptr → ℕ → Cmd (Unit {0})
set_word a v = store a (λ k. record k { words = upd k.words a v })

abbrev pub set_timer : ℕ → Cmd (Unit {0})
set_timer t = modify (λ k. record k { timer = t })

abbrev pub get_timer : Cmd ℕ
get_timer = read (λ k. k.timer)

abbrev pub set_status : ℕ → Cmd (Unit {0})
set_status s = modify (λ k. record k { status = s })

-- `LDIT(T)`
abbrev pub ldit : ℕ → Cmd (Unit {0})
ldit t = do scale ← get_word timescaleaddr; set_word intervaltmr (mul32 t scale)

-- The saved exception state at BIOSDATAPAGE.
abbrev pub set_reg : State → ℕ → ℕ → State
set_reg s i v = record s { s_reg = upd s.s_reg i v }

abbrev pub get_bios : Cmd State
get_bios = read (λ k. k.bios)

abbrev pub get_bios_reg : ℕ → Cmd ℕ
get_bios_reg i = read (λ k. k.bios.s_reg i)

abbrev pub set_bios_reg : ℕ → ℕ → Cmd (Unit {0})
set_bios_reg i v = modify (λ k. record k { bios = set_reg k.bios i v })

-- `LDST((state_PTR)BIOSDATAPAGE)`
abbrev pub ldst_bios : {A : Type 0} → Cmd A
ldst_bios k = leave (ldst k.bios) k

-- Fields of pcbs and globals.
abbrev pub get_state : Ptr → Cmd State
get_state = load (λ k. k.p_s)

abbrev pub set_state : Ptr → State → Cmd (Unit {0})
set_state p s = store p (λ k. record k { p_s = upd k.p_s p s })

abbrev pub get_time : Ptr → Cmd ℕ
get_time = load (λ k. k.p_time)

abbrev pub set_time : Ptr → ℕ → Cmd (Unit {0})
set_time p t = store p (λ k. record k { p_time = upd k.p_time p t })

abbrev pub get_support : Ptr → Cmd Ptr
get_support = load (λ k. k.p_support_struct)

abbrev pub set_support : Ptr → Ptr → Cmd (Unit {0})
set_support p v = store p (λ k. record k { p_support_struct = upd k.p_support_struct p v })

abbrev pub current : Cmd Ptr
current = read (λ k. k.current_p)
