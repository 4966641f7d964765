-- ===== src/Asl/Init.antt =====
-- `initASL` of phase1/asl.c.
use native.Mathlib.Numerals.{add-one}
use operating_system_cs.Base.{
  ℕ, zero, suc, ◌+◌, ◌<◌, ◌≡◌, refl, ap, List, [], ◌∷◌, arith, has, upd, ==-refl, length,
}
use operating_system_cs.Ring.{Ptr, null, Field}
use operating_system_cs.Chain.{Chain, Chain-upd, Chain-rest, elems, linked, array-Chain}
use operating_system_cs.Kernel.{Kernel}
use operating_system_cs.Kernel.Const.{maxproc, semd_size}
use operating_system_cs.Kernel.Run.{Returns, ok, ne_null}
use operating_system_cs.Asl.Defs.{init_asl, init_asl_loop, semd_elem, sentinel}
use operating_system_cs.Asl.List.{IsAsl}
use operating_system_cs.Asl.Insert.Link.{alloc_semd-first}

init_asl_loop-linked :
    (n : ℕ) (k : Kernel)
    → init_asl_loop n k
      ≡ ok tt (record k { s_next = linked k.layout.semd_table semd_size n k.s_next })
unfolding init_asl_loop linked
init_asl_loop-linked zero k = refl
init_asl_loop-linked (suc n) k = simp (init_asl_loop-linked n k, add-one)

-- The memory with the two dummies `e0` and `e1`, and the links `s` of the free descriptors.
built :
    (k : Kernel) (s : Field) (e0 e1 : Ptr) (fs : List Ptr)
    → Chain s e0 (e0 ∷ e1 ∷ fs)
    → 0 < sentinel k
    → length fs ≡ maxproc
    → IsAsl
        (record k {
          s_next = upd (upd (upd s e0 null) e1 null) e0 e1;
          s_sem_add = upd (upd k.s_sem_add e0 0) e1 (sentinel k);
          s_proc_q = upd (upd k.s_proc_q e0 null) e1 null;
          semd_free_h = upd s e0 null e1;
          semd_h = e0;
        })
        e1
        []
        fs
built k s e0 e1 fs c pos n = record {
  head_not_null = c.links.1;
  head_sem = ground (arith, c.distinct.0);
  tail_not_null = c.links.2.1;
  tail_sem = ground (arith, ==-refl e1);
  sentinel_pos = pos;
  active = ground (arith, ==-refl e0);
  free_chain =
      Chain-upd {n = upd (upd s e0 null) e1 null} e0 e1 fs
        (Chain-rest {n = upd s e0 null} {h = s e0} e1 fs
          (Chain-rest {n = s} {h = e0} e0 (e1 ∷ fs) c))
        (ground (arith, c.distinct.0));
  apart = λ d m. ground (
    arith,
    m,
    c.distinct.0,
    c.distinct.1,
    ap (λ d. has d fs) {x = d} {y = e0},
    ap (λ d. has d fs) {x = d} {y = e1},
  );
  count = omega (arith, n);
}

-- The descriptors of the table behind the two dummies.
abbrev pub free_table : Kernel → List Ptr
free_table k = elems k.layout.semd_table semd_size 2 maxproc

-- `initASL` makes an empty active list with MAXPROC free descriptors, if the table lies below
-- `NULL`, and writes only descriptors and the heads of the two lists.
pub init_asl-IsAsl :
    (k : Kernel)
    → semd_elem k (maxproc + 1) < null
    → Returns
        (λ _ k'.
          IsAsl k' (semd_elem k 1) [] (free_table k)
          × (k' ≡ record k {
            s_next = k'.s_next;
            s_sem_add = k'.s_sem_add;
            s_proc_q = k'.s_proc_q;
            semd_free_h = k'.semd_free_h;
            semd_h = k'.semd_h;
          }))
        (init_asl k)
unfolding init_asl elems
init_asl-IsAsl k fits =
    let base = k.layout.semd_table in
    let s = upd (linked base semd_size (maxproc + 1) k.s_next) (semd_elem k (maxproc + 1)) null in
    let e0 = semd_elem k 0 in
    let e1 = semd_elem k 1 in
    let c : Chain s e0 (e0 ∷ e1 ∷ free_table k) =
      array-Chain base semd_size (ground arith) k.s_next (maxproc + 1) fits in
    let k0 = record k { semd_free_h = e0; s_next = s } in
    let k1 = record k0 {
      semd_free_h = s e0;
      s_next = upd s e0 null;
      s_sem_add = upd k.s_sem_add e0 0;
      s_proc_q = upd k.s_proc_q e0 null;
    } in
    let c1 : Chain k1.s_next k1.semd_free_h (e1 ∷ free_table k) =
      Chain-rest e0 (e1 ∷ free_table k) c in
    simp
      (
        init_asl_loop-linked (maxproc + 1) (record k { semd_free_h = e0 }),
        alloc_semd-first k0 0 e0 (e1 ∷ free_table k) c,
        alloc_semd-first k1 (sentinel k) e1 (free_table k) c1,
        ne_null e0 c.links.1,
      )
      (built k s e0 e1 (free_table k) c (ground arith) refl, refl)
