-- ===== src/Asl/List.antt =====
-- The active semaphore list in memory, and its view as a sorted list of semaphores with the
-- queues of the pcbs that are blocked on them.
use operating_system_cs.Base.{
  ◌+◌, ◌<◌, ◌≡◌, ◌≢◌, List, [], ◌∷◌, ◌++◌, true, false, has, length, if◌then◌else◌, ◌==◌,
}
use operating_system_cs.Ring.{Ptr, null, Ring}
use operating_system_cs.Chain.{Chain}
use operating_system_cs.Kernel.{Kernel}
use operating_system_cs.Kernel.Const.{maxproc}
use operating_system_cs.Asl.Defs.{sentinel}

-- A descriptor: its address, its semaphore and the pcbs blocked there, the longest first.
pub record Desc : Type 0 where
  pub addr : Ptr
  pub sem : Ptr
  pub queue : List Ptr

abbrev pub addrs : List Desc → List Ptr
addrs [] = []
addrs (d ∷ ds) = d.addr ∷ addrs ds

abbrev pub sems : List Desc → List Ptr
sems [] = []
sems (d ∷ ds) = d.sem ∷ sems ds

-- All blocked pcbs.
abbrev pub blocked : List Desc → List Ptr
blocked [] = []
blocked (d ∷ ds) = d.queue ++ blocked ds

-- The pcbs blocked on the semaphore `a`.
abbrev pub queue_of : Ptr → List Desc → List Ptr
queue_of a [] = []
queue_of a (d ∷ ds) = if d.sem == a then d.queue else queue_of a ds

-- One descriptor in memory.
pub record IsDesc (k : Kernel) (d : Desc) : Type 0 where
  pub not_null : d.addr ≢ null
  pub sem_add : k.s_sem_add d.addr ≡ d.sem
  pub not_sentinel : d.sem ≢ sentinel k
  pub ring : Ring k.p_next k.p_prev (k.s_proc_q d.addr) d.queue
  pub waiting : (c : Ptr) → has c d.queue ≡ true → k.p_sem_add c ≡ d.sem

-- From `h` the links lead through the descriptors to the tail dummy `t`; their semaphores rise
-- strictly, from above `lo`.
abbrev pub Active : Kernel → (t lo h : Ptr) → List Desc → Type 0
Active k t lo h [] = h ≡ t
Active k t lo h (d ∷ ds) =
    (h ≡ d.addr) × (lo < d.sem) × IsDesc k d × Active k t d.sem (k.s_next d.addr) ds

-- The list, with its dummies, and the free descriptors.
pub record IsAsl (k : Kernel) (t : Ptr) (ds : List Desc) (free : List Ptr) : Type 0 where
  pub head_not_null : k.semd_h ≢ null
  pub head_sem : k.s_sem_add k.semd_h ≡ 0
  pub tail_not_null : t ≢ null
  pub tail_sem : k.s_sem_add t ≡ sentinel k
  pub sentinel_pos : 0 < sentinel k
  pub active : Active k t 0 (k.s_next k.semd_h) ds
  pub free_chain : Chain k.s_next k.semd_free_h free
  pub apart : (c : Ptr) → has c free ≡ true → has c (k.semd_h ∷ t ∷ addrs ds) ≡ false
  pub count : length ds + length free ≡ maxproc
