-- ===== src/Adl/List.antt =====
-- The active delay list of phase5/delayDaemon.c in memory, as a list sorted by wake time.
use operating_system_cs.Base.{
  ℕ, ◌+◌, ◌≤◌, ◌<◌, ◌≡◌, ◌≢◌, ◌∙◌, sym, List, [], ◌∷◌, true, false, arith, has, length, Distinct,
  if◌then◌else◌, ltb,
}
use mathlib.Core.Path.{subst}
use operating_system_cs.Ring.{Ptr, null, Field}
use operating_system_cs.Chain.{Chain}
use operating_system_cs.Kernel.Const.{maxproc}
use operating_system_cs.Support.{Store}
use operating_system_cs.Support.Const.{maxsignedint}

-- A descriptor: its address, the wake time and the support structure of the process.
pub record Sleeper : Type 0 where
  pub addr : Ptr
  pub wake : ℕ
  pub sup : Ptr

abbrev pub places : List Sleeper → List Ptr
places [] = []
places (d ∷ ds) = d.addr ∷ places ds

-- One descriptor in memory.
pub record IsSleeper (wake_time sup_struct : Field) (d : Sleeper) : Type 0 where
  pub not_null : d.addr ≢ null
  pub wake_at : wake_time d.addr ≡ d.wake
  pub sup_at : sup_struct d.addr ≡ d.sup
  pub early : d.wake < maxsignedint

-- From `h` the links lead through the descriptors to the tail dummy `t`, and the wake times do not
-- fall, from `lo` on.
abbrev pub Sleeping : (next wake_time sup_struct : Field) → (t lo h : Ptr) → List Sleeper → Type 0
Sleeping n w p t lo h [] = h ≡ t
Sleeping n w p t lo h (d ∷ ds) =
    (h ≡ d.addr) × (lo ≤ d.wake) × IsSleeper w p d × Sleeping n w p t d.wake (n d.addr) ds

-- The list with its dummies, and the free descriptors.
pub record IsAdl (s : Store) (t : Ptr) (ds : List Sleeper) (free : List Ptr) : Type 0 where
  pub head_not_null : s.delayd_h ≢ null
  pub tail_not_null : t ≢ null
  pub tail_wake : s.d_wake_time t ≡ maxsignedint
  pub active : Sleeping s.d_next s.d_wake_time s.d_sup_struct t 0 (s.d_next s.delayd_h) ds
  pub distinct : Distinct (s.delayd_h ∷ t ∷ places ds)
  pub free_chain : Chain s.d_next s.delayd_free_h free
  pub apart : (d : Ptr) → has d free ≡ true → has d (s.delayd_h ∷ t ∷ places ds) ≡ false
  pub count : length ds + length free ≤ maxproc

-- The list where a new sleeper goes: before the first that does not wake earlier.
unfoldable pub insert_sleeper : Sleeper → List Sleeper → List Sleeper
insert_sleeper d [] = d ∷ []
insert_sleeper d (x ∷ xs) =
    let rest = insert_sleeper d xs in if ltb x.wake d.wake then x ∷ rest else d ∷ x ∷ xs

-- The address of the last descriptor that wakes before `w`, `c` if there is none.
unfoldable pub pred_at : (w : ℕ) → (c : Ptr) → List Sleeper → Ptr
pred_at w c [] = c
pred_at w c (d ∷ ds) = let rest = pred_at w d.addr ds in if ltb d.wake w then rest else c

-- The list in other fields that agree on its descriptors.
pub Sleeping-frame :
    {n w p n' w' p' : Field} (t lo h : Ptr) (ds : List Sleeper)
    → Sleeping n w p t lo h ds
    → ((c : Ptr) → has c (places ds) ≡ true → (n' c ≡ n c) × ((w' c ≡ w c) × (p' c ≡ p c)))
    → Sleeping n' w' p' t lo h ds
Sleeping-frame t lo h [] a same = a
Sleeping-frame {n} {w} {p} {n'} {w'} {p'} t lo h (d ∷ ds) a same =
    let e = same d.addr (ground arith) in
    (
      a.0,
      a.1,
      record {
        not_null = a.2.not_null;
        wake_at = e.1.0 ∙ a.2.wake_at;
        sup_at = e.1.1 ∙ a.2.sup_at;
        early = a.2.early;
      },
      subst (λ h. Sleeping n' w' p' t d.wake h ds) (sym e.0)
          (Sleeping-frame t d.wake (n d.addr) ds a.3 (λ c m. same c (ground arith))),
    )
