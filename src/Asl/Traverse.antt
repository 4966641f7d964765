-- ===== src/Asl/Traverse.antt =====
-- `traverseASL` of phase1/asl.c ends, at the last descriptor below the semaphore.
use operating_system_cs.Base.{
  ℕ, zero, suc, ◌+◌, ◌<◌, ◌≤◌, ◌≡◌, ◌≢◌, refl, List, [], ◌∷◌, ◌++◌, true, false, arith, has, length,
  if◌then◌else◌, ◌==◌, ltb, ltb→lt, Bool-cases, inl, inr, ==-refl,
}
use operating_system_cs.Ring.{Ptr, null}
use operating_system_cs.Kernel.{Kernel}
use operating_system_cs.Kernel.Const.{maxproc}
use operating_system_cs.Kernel.Run.{ok, ne_null}
use operating_system_cs.Asl.Defs.{sentinel, traverse_asl_loop, traverse_asl}
use operating_system_cs.Asl.List.{Desc, addrs, Active, IsAsl, queue_of}

-- The descriptors below the semaphore `a`, those from `a` on, and the address of the last one
-- below, `c` if there is none.
unfoldable pub below : Ptr → List Desc → List Desc
below a [] = []
below a (d ∷ ds) = if ltb d.sem a then d ∷ below a ds else []

unfoldable pub from : Ptr → List Desc → List Desc
from a [] = []
from a (d ∷ ds) = if ltb d.sem a then from a ds else d ∷ ds

unfoldable pub pred_of : Ptr → Ptr → List Desc → Ptr
pred_of a c [] = c
pred_of a c (d ∷ ds) = if ltb d.sem a then pred_of a d.addr ds else c

pub traverse_asl_loop-pred :
    (fuel : ℕ) (k : Kernel) (a c t lo : Ptr) (ds : List Desc)
    → c ≢ null
    → t ≢ null
    → k.s_sem_add t ≡ sentinel k
    → Active k t lo (k.s_next c) ds
    → length ds < fuel
    → traverse_asl_loop fuel a c k ≡ ok (pred_of a c ds) k
unfolding traverse_asl_loop pred_of
traverse_asl_loop-pred zero k a c t lo ds cne tne ts act h = absurd (omega arith)
traverse_asl_loop-pred (suc fuel) k a c t lo [] cne tne ts act h =
    simp (ne_null c cne, act, ne_null t tne, ts, ==-refl (sentinel k))
traverse_asl_loop-pred (suc fuel) k a c t lo (d ∷ ds) cne tne ts act h =
    simp (ne_null c cne, act.0, ne_null d.addr act.2.not_null, act.2.sem_add, other)
      (elim (Bool-cases (ltb d.sem a)) [
        | inl e ↦ simp e (
            traverse_asl_loop-pred fuel k a d.addr t d.sem ds act.2.not_null tne ts act.3
              (omega arith))
        | inr e ↦ simp e
      ])
  where
    other : (d.sem == sentinel k) ≡ false
    other = ground (arith, act.2.not_sentinel)

-- The semaphore of `pred_of`, `lo` if no descriptor is below.
unfoldable pub lo_of : Ptr → Ptr → List Desc → Ptr
lo_of a lo [] = lo
lo_of a lo (d ∷ ds) = if ltb d.sem a then lo_of a d.sem ds else lo

pub below-append-from : (a : Ptr) (ds : List Desc) → below a ds ++ from a ds ≡ ds
unfolding below from
below-append-from a [] = refl
below-append-from a (d ∷ ds) = elim (Bool-cases (ltb d.sem a)) [
  | inl e ↦ simp (e, below-append-from a ds)
  | inr e ↦ simp e
]

pub queue_of-from : (a : Ptr) (ds : List Desc) → queue_of a (from a ds) ≡ queue_of a ds
unfolding from
queue_of-from a [] = refl
queue_of-from a (d ∷ ds) = ground (arith, queue_of-from a ds)

-- What is known of the place `(p, l, fs)` that the search finds.
pub record IsPlace (k : Kernel) (t lo a c : Ptr) (ds : List Desc) (p l : Ptr) (fs : List Desc)
    : Type 0 where
  pub not_null : p ≢ null
  pub sem_add : k.s_sem_add p ≡ l
  pub lo-le : lo ≤ l
  pub lo-lt : l < a
  pub rest : Active k t l (k.s_next p) fs
  pub known : has p (c ∷ addrs ds) ≡ true

abbrev pub Place : Kernel → (t lo a c : Ptr) → List Desc → Type 0
Place k t lo a c ds = IsPlace k t lo a c ds (pred_of a c ds) (lo_of a lo ds) (from a ds)

pub Active-Place :
    (k : Kernel) (t lo a c : Ptr) (ds : List Desc)
    → c ≢ null
    → k.s_sem_add c ≡ lo
    → lo < a
    → Active k t lo (k.s_next c) ds
    → Place k t lo a c ds
unfolding pred_of lo_of from
Active-Place k t lo a c [] cne cs lt act = record {
  not_null = cne;
  sem_add = cs;
  lo-le = omega arith;
  lo-lt = lt;
  rest = act;
  known = ground arith;
}
Active-Place k t lo a c (d ∷ ds) cne cs lt act = elim (Bool-cases (ltb d.sem a)) [
  | inl e ↦
      let r =
        Active-Place k t d.sem a d.addr ds act.2.not_null act.2.sem_add (ltb→lt d.sem a e) act.3 in
      simp e (record {
        not_null = r.not_null;
        sem_add = r.sem_add;
        lo-le = omega (arith, r.lo-le);
        lo-lt = r.lo-lt;
        rest = r.rest;
        known = ground (arith, r.known);
      })
  | inr e ↦ simp e (record {
    not_null = cne;
    sem_add = cs;
    lo-le = omega arith;
    lo-lt = lt;
    rest = act;
    known = ground arith;
  })
]

-- `traverseASL` ends, changes nothing, and returns the last descriptor below the semaphore, the
-- head dummy if there is none.
pub traverse_asl-pred :
    (k : Kernel) (t a : Ptr) (ds : List Desc) (free : List Ptr)
    → IsAsl k t ds free
    → traverse_asl a k ≡ ok (pred_of a k.semd_h ds) k
unfolding traverse_asl
traverse_asl-pred k t a ds free A =
    traverse_asl_loop-pred (maxproc + 2) k a k.semd_h t 0 ds A.head_not_null A.tail_not_null
      A.tail_sem A.active (omega (arith, A.count))
