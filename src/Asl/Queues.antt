-- ===== src/Asl/Queues.antt =====
-- The queues of the semaphores under the changes that the operations make to the list.
use operating_system_cs.Base.{
  ◌<◌, ◌≡◌, ◌≢◌, refl, ap, ==-refl, List, [], ◌∷◌, ◌++◌, true, false, ◌||◌, arith, has, has-append,
  if◌then◌else◌, ◌==◌, ltb, Bool-cases, inl, inr, eq_of_==,
}
use operating_system_cs.Ring.{Ptr, null}
use operating_system_cs.Asl.Defs.{sentinel}
use operating_system_cs.Kernel.{Kernel}
use operating_system_cs.Pcb.Queue.{first, rest}
use operating_system_cs.Asl.List.{Desc, sems, blocked, queue_of, Active}
use operating_system_cs.Asl.Traverse.{below, from}

-- `d` with the queue `q`.
abbrev pub with_queue : Desc → List Ptr → Desc
with_queue d q = record d { queue = q }

pub not-has-below : (a : Ptr) (ds : List Desc) → has a (sems (below a ds)) ≡ false
unfolding below
not-has-below a [] = refl
not-has-below a (d ∷ ds) = ground (arith, not-has-below a ds)

-- Replacing the queue of one semaphore.
pub queue_of-with_queue :
    (a b : Ptr) (d : Desc) (q : List Ptr) (xs vs : List Desc)
    → has a (sems xs) ≡ false
    → d.sem ≡ a
    → queue_of b (xs ++ with_queue d q ∷ vs) ≡ (if b == a then q else queue_of b (xs ++ d ∷ vs))
queue_of-with_queue a b d q [] vs h is = ground arith
queue_of-with_queue a b d q (x ∷ xs) vs h is = ground (arith, queue_of-with_queue a b d q xs vs)

pub queue_of-at :
    (a : Ptr) (d : Desc) (xs vs : List Desc)
    → has a (sems xs) ≡ false
    → d.sem ≡ a
    → queue_of a (xs ++ d ∷ vs) ≡ d.queue
queue_of-at a d [] vs h is = ground arith
queue_of-at a d (x ∷ xs) vs h is = ground (arith, queue_of-at a d xs vs)

pub queue_of-absent : (a : Ptr) (ds : List Desc) → has a (sems ds) ≡ false → queue_of a ds ≡ []
queue_of-absent a [] h = refl
queue_of-absent a (d ∷ ds) h = ground (arith, queue_of-absent a ds)

pub sems-append :
    (a : Ptr) (xs ys : List Desc) → has a (sems (xs ++ ys)) ≡ (has a (sems xs) || has a (sems ys))
sems-append a [] ys = refl
sems-append a (x ∷ xs) ys = ground (arith, sems-append a xs ys)

-- A descriptor with an empty queue adds nothing, and so may be left out.
pub queue_of-empty :
    (b : Ptr) (d : Desc) (xs vs : List Desc)
    → has d.sem (sems (xs ++ vs)) ≡ false
    → d.queue ≡ []
    → queue_of b (xs ++ d ∷ vs) ≡ queue_of b (xs ++ vs)
queue_of-empty b d [] vs h e =
    ground (arith, queue_of-absent b vs, ap (λ s. has s (sems vs)) {x = d.sem} {y = b})
queue_of-empty b d (x ∷ xs) vs h e = ground (arith, queue_of-empty b d xs vs)

pub blocked-append :
    (c : Ptr) (xs ys : List Desc)
    → has c (blocked (xs ++ ys)) ≡ (has c (blocked xs) || has c (blocked ys))
blocked-append c [] ys = refl
blocked-append c (x ∷ xs) ys = ground (
  arith,
  has-append c x.queue (blocked (xs ++ ys)),
  has-append c x.queue (blocked xs),
  blocked-append c xs ys,
)

-- The semaphores of a list rise strictly.
pub Active-lt :
    (k : Kernel) (t lo h a : Ptr) (ds : List Desc)
    → Active k t lo h ds
    → has a (sems ds) ≡ true
    → lo < a
Active-lt k t lo h a [] act m = cc
Active-lt k t lo h a (d ∷ ds) act m =
    ground (arith, eq_of_== a d.sem, Active-lt k t d.sem (k.s_next d.addr) a ds act.3)

pub data Found (a : Ptr) (ds fs : List Desc) : Type 0 where
  found : (d : Desc) (vs : List Desc) → fs ≡ d ∷ vs → d.sem ≡ a → Found a ds fs

-- The search for a semaphore that is on the list ends at its descriptor.
pub from-Found :
    (k : Kernel) (t lo h a : Ptr) (ds : List Desc)
    → Active k t lo h ds
    → has a (sems ds) ≡ true
    → Found a ds (from a ds)
unfolding from
from-Found k t lo h a [] act m = cc
from-Found k t lo h a (d ∷ ds) act m = elim (Bool-cases (ltb d.sem a)) [
  | inl e ↦ elim (from-Found k t d.sem (k.s_next d.addr) a ds act.3 (ground arith)) [
    | found x vs at is ↦ simp e (found x vs at is)
  ]
  | inr e ↦
      simp e (found d ds refl (ground (arith, Active-lt k t d.sem (k.s_next d.addr) a ds act.3)))
]

-- Behind the place of a semaphore that is not on the list stands another descriptor or the tail
-- dummy.
pub Active-other :
    (k : Kernel) (t lo h a : Ptr) (fs : List Desc)
    → Active k t lo h fs
    → t ≢ null
    → k.s_sem_add t ≡ sentinel k
    → a ≢ sentinel k
    → has a (sems fs) ≡ false
    → (h ≢ null) × ((k.s_sem_add h == a) ≡ false)
Active-other k t lo h a [] act tne ts ns m = ground (arith, ap k.s_sem_add act)
Active-other k t lo h a (d ∷ ds) act tne ts ns m =
    ground (arith, ap k.s_sem_add act.0, act.2.not_null, act.2.sem_add)

pub not-has-from :
    (a : Ptr) (ds : List Desc) → has a (sems ds) ≡ false → has a (sems (from a ds)) ≡ false
unfolding from
not-has-from a [] h = refl
not-has-from a (d ∷ ds) h = ground (arith, not-has-from a ds)

-- What `removeBlocked` makes of the descriptor `d` with the queue `q`, in front of `ds`: without its only
-- pcb it leaves the list.
abbrev pub shortened : List Ptr → Desc → List Desc → List Desc
shortened [] d ds = d ∷ ds
shortened (x ∷ []) d ds = ds
shortened (x ∷ y ∷ q) d ds = with_queue d (y ∷ q) ∷ ds

-- The list behind `removeBlocked` on the semaphore `a`.
abbrev pub dequeued : Ptr → List Desc → List Desc
dequeued a [] = []
dequeued a (d ∷ ds) =
    let later = dequeued a ds in if d.sem == a then shortened d.queue d ds else d ∷ later

-- The descriptor that loses its only pcb.
abbrev pub emptied : List Ptr → Ptr → List Ptr
emptied [] e = []
emptied (x ∷ []) e = e ∷ []
emptied (x ∷ y ∷ q) e = []

-- The descriptors that `removeBlocked` on the semaphore `a` frees: one or none.
abbrev pub vacated : Ptr → List Desc → List Ptr
vacated a [] = []
vacated a (d ∷ ds) = if d.sem == a then emptied d.queue d.addr else vacated a ds

pub dequeued-at :
    (a : Ptr) (d : Desc) (xs vs : List Desc)
    → has a (sems xs) ≡ false
    → d.sem ≡ a
    → (dequeued a (xs ++ d ∷ vs) ≡ xs ++ shortened d.queue d vs)
      × (vacated a (xs ++ d ∷ vs) ≡ emptied d.queue d.addr)
dequeued-at a d [] vs h is = simp (is, ==-refl a) (refl, refl)
dequeued-at a d (x ∷ xs) vs h is =
    let apart : (x.sem == a) ≡ false = ground arith in
    let r = dequeued-at a d xs vs (ground arith) is in simp apart (ap (λ l. x ∷ l) r.0, r.1)

pub dequeued-absent :
    (a : Ptr) (ds : List Desc)
    → has a (sems ds) ≡ false
    → (dequeued a ds ≡ ds) × (vacated a ds ≡ [])
dequeued-absent a [] h = (refl, refl)
dequeued-absent a (x ∷ xs) h =
    let apart : (x.sem == a) ≡ false = ground arith in
    let r = dequeued-absent a xs (ground arith) in simp apart (ap (λ l. x ∷ l) r.0, r.1)

-- The three cases of the queue of `d`.
pub shortened-none :
    (q : List Ptr) (d : Desc) (ds : List Desc)
    → d.queue ≡ q
    → has null q ≡ false
    → first q ≡ null
    → (shortened q d ds ≡ with_queue d (rest q) ∷ ds) × (emptied q d.addr ≡ [])
shortened-none [] d ds is h e = (ap (λ l. with_queue d l ∷ ds) is, refl)
shortened-none (x ∷ q) d ds is h e = ground (arith, h, e)

pub shortened-last :
    (q : List Ptr) (d : Desc) (ds : List Desc)
    → q ≢ []
    → rest q ≡ []
    → (shortened q d ds ≡ ds) × (emptied q d.addr ≡ d.addr ∷ [])
shortened-last [] d ds ne e = absurd (ne refl)
shortened-last (x ∷ []) d ds ne e = (refl, refl)
shortened-last (x ∷ y ∷ q) d ds ne e = cc

pub shortened-more :
    (q : List Ptr) (d : Desc) (ds : List Desc) (x : Ptr) (xs : List Ptr)
    → rest q ≡ x ∷ xs
    → (shortened q d ds ≡ with_queue d (rest q) ∷ ds) × (emptied q d.addr ≡ [])
shortened-more [] d ds x xs e = cc
shortened-more (z ∷ []) d ds x xs e = cc
shortened-more (z ∷ y ∷ q) d ds x xs e = (refl, refl)
