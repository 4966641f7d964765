-- ===== src/Adl/Empty.antt =====
-- `initADL` of phase5/delayDaemon.c makes an empty list.
use native.Mathlib.Numerals.{add-one}
use operating_system_cs.Base.{
  ℕ, zero, suc, ◌+◌, ◌<◌, ◌≡◌, refl, ap, List, [], ◌∷◌, arith, has, upd, upd-same, ==-refl, length,
}
use operating_system_cs.Ring.{Ptr, null, Field}
use operating_system_cs.Chain.{Chain, Chain-upd, Chain-rest, elems, linked, array-Chain}
use operating_system_cs.Kernel.Const.{maxproc}
use operating_system_cs.Kernel.Run.{ne_null}
use operating_system_cs.Support.{Store}
use operating_system_cs.Support.Const.{delayd_size, maxsignedint, minus_one}
use operating_system_cs.Support.Logic.{Finishes}
use operating_system_cs.Adl.Init.{delayd_elem, link_table, make_adl}
use operating_system_cs.Adl.List.{IsAdl}
use operating_system_cs.Adl.Enlist.{allotted, alloc_delayd-allotted}

link_table-linked :
    (n : ℕ) (s : Store)
    → link_table n s ≡ record s { d_next = linked s.statics.delayd_table delayd_size n s.d_next }
unfolding link_table linked
link_table-linked zero s = refl
link_table-linked (suc n) s = simp (link_table-linked n s, add-one)

-- The memory with the two dummies `e0` and `e1`, and the links `n` of the free descriptors.
built :
    (s : Store) (n : Field) (e0 e1 : Ptr) (fs : List Ptr)
    → Chain n e0 (e0 ∷ e1 ∷ fs)
    → length fs ≡ maxproc
    → IsAdl
        (record s {
          d_next = upd (upd (upd n e0 null) e1 null) e0 e1;
          d_wake_time = upd (upd s.d_wake_time e0 minus_one) e1 maxsignedint;
          delayd_free_h = upd n e0 null e1;
          delayd_h = e0;
        })
        e1
        []
        fs
built s n e0 e1 fs c count = record {
  head_not_null = c.links.1;
  tail_not_null = c.links.2.1;
  tail_wake = ground (arith, ==-refl e1);
  active = ground (arith, ==-refl e0);
  distinct = (ground (arith, c.distinct.0), (refl, tt));
  free_chain =
      Chain-upd {n = upd (upd n e0 null) e1 null} e0 e1 fs
        (Chain-rest {n = upd n e0 null} {h = n e0} e1 fs
          (Chain-rest {n = n} {h = e0} e0 (e1 ∷ fs) c))
        (ground (arith, c.distinct.0));
  apart = λ d m. ground (
    arith,
    m,
    c.distinct.0,
    c.distinct.1,
    ap (λ d. has d fs) {x = d} {y = e0},
    ap (λ d. has d fs) {x = d} {y = e1},
  );
  count = omega (arith, count);
}

-- The descriptors of the table behind the two dummies.
abbrev pub free_delayds : Store → List Ptr
free_delayds s = elems s.statics.delayd_table delayd_size 2 maxproc

-- `initADL` makes an empty, well-formed delay list with MAXPROC free descriptors, and its semaphore
-- free, if the table lies below `NULL`.
pub make_adl-IsAdl :
    (s : Store)
    → delayd_elem s (maxproc + 1) < null
    → Finishes
        (λ _ s'.
          IsAdl s' (delayd_elem s 1) [] (free_delayds s) × (s'.words s.statics.adl_mutex ≡ 1))
        (make_adl s)
unfolding make_adl elems
make_adl-IsAdl s fits =
    let base = s.statics.delayd_table in
    let n =
      upd (linked base delayd_size (maxproc + 1) s.d_next) (delayd_elem s (maxproc + 1)) null in
    let e0 = delayd_elem s 0 in
    let e1 = delayd_elem s 1 in
    let c : Chain n e0 (e0 ∷ e1 ∷ free_delayds s) =
      array-Chain base delayd_size (ground arith) s.d_next (maxproc + 1) fits in
    let k0 : Store = record s {
      delayd_h = null;
      words = upd s.words s.statics.adl_mutex 1;
      delayd_free_h = e0;
      d_next = n;
    } in
    let k1 : Store = allotted k0 e0 minus_one null in
    let c1 : Chain k1.d_next k1.delayd_free_h (e1 ∷ free_delayds s) =
      Chain-rest {n = n} {h = e0} e0 (e1 ∷ free_delayds s) c in
    simp
      (
        link_table-linked (maxproc + 1) (record s {
          delayd_h = null;
          words = upd s.words s.statics.adl_mutex 1;
          delayd_free_h = e0;
        }),
        alloc_delayd-allotted k0 e0 minus_one null (e1 ∷ free_delayds s) c,
        alloc_delayd-allotted k1 e1 maxsignedint null (free_delayds s) c1,
        ne_null e0 c.links.1,
      )
      (
        built
            (record s {
              d_sup_struct = upd (upd s.d_sup_struct e0 null) e1 null;
              words = upd s.words s.statics.adl_mutex 1;
            })
            n e0 e1 (free_delayds s) c refl,
        upd-same s.words s.statics.adl_mutex 1,
      )
