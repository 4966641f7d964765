-- ===== src/Adl/Enlist.antt =====
-- `DELAY` of phase5/delayDaemon.c puts the process into the active delay list.
use operating_system_cs.Base.{
  ◌<◌, ◌≡◌, refl, ◌∙◌, sym, List, ◌∷◌, true, false, arith, has, ◌==◌, ==-refl, upd, upd-same,
  upd-other, Bool-cases, inl, inr,
}
use operating_system_cs.Ring.{Ptr, null}
use mathlib.Core.Path.{subst}
use operating_system_cs.Chain.{Chain, Chain-upd, Chain-rest}
use operating_system_cs.Kernel.Run.{ne_null}
use operating_system_cs.Support.{Store}
use operating_system_cs.Support.Const.{maxsignedint}
use operating_system_cs.Support.Code.{Nucleus, done}
use operating_system_cs.Support.Logic.{Finishes}
use operating_system_cs.Adl.{alloc_delayd, enlist}
use operating_system_cs.Adl.List.{
  Sleeper, places, Sleeping, IsAdl, insert_sleeper, pred_at, Sleeping-frame,
}
use operating_system_cs.Adl.Insert.{
  linked_in, link_delayd-linked_in, length-insert_sleeper, has-insert_sleeper,
  Distinct-insert_sleeper, splice, not_in, has-pred_at,
}

-- The memory after `allocDelayd` with the free descriptor `f`.
abbrev pub allotted : Store → (f w sup : Ptr) → Store
allotted s f w sup = record s {
  delayd_free_h = s.d_next f;
  d_next = upd s.d_next f null;
  d_wake_time = upd s.d_wake_time f w;
  d_sup_struct = upd s.d_sup_struct f sup;
}

pub alloc_delayd-allotted :
    (s : Store) (f w sup : Ptr) (fs : List Ptr)
    → Chain s.d_next s.delayd_free_h (f ∷ fs)
    → alloc_delayd w sup s ≡ done f (allotted s f w sup)
unfolding alloc_delayd
alloc_delayd-allotted s f w sup fs c = simp (c.links.0, ne_null f c.links.1)

module _ (s : Store) (t f w sup : Ptr) (ds : List Sleeper) (fs : List Ptr)
    (A : IsAdl s t ds (f ∷ fs)) (early : w < maxsignedint) where
  abbrev s1 : Store
  s1 = allotted s f w sup

  -- No descriptor of the list is the new one.
  list_apart : has f (s.delayd_h ∷ t ∷ places ds) ≡ false
  list_apart = A.apart f (ground (arith, ==-refl f))

  other : (c : Ptr) → has c (s.delayd_h ∷ t ∷ places ds) ≡ true → (c == f) ≡ false
  other c m = not_in c f (s.delayd_h ∷ t ∷ places ds) m list_apart

  same :
      (c : Ptr)
      → has c (s.delayd_h ∷ t ∷ places ds) ≡ true
      → (s1.d_next c ≡ s.d_next c)
        × ((s1.d_wake_time c ≡ s.d_wake_time c) × (s1.d_sup_struct c ≡ s.d_sup_struct c))
  same c m = (
    upd-other s.d_next f c null (other c m),
    (upd-other s.d_wake_time f c w (other c m), upd-other s.d_sup_struct f c sup (other c m)),
  )

  allotted-IsAdl : IsAdl s1 t ds fs
  allotted-IsAdl = record {
    head_not_null = A.head_not_null;
    tail_not_null = A.tail_not_null;
    tail_wake = upd-other s.d_wake_time f t w (other t (ground (arith, ==-refl t))) ∙ A.tail_wake;
    active =
        subst (λ h. Sleeping s1.d_next s1.d_wake_time s1.d_sup_struct t 0 h ds)
          (sym (
            upd-other s.d_next f s.delayd_h null
              (other s.delayd_h (ground (arith, ==-refl s.delayd_h)))))
          (Sleeping-frame t 0 (s.d_next s.delayd_h) ds A.active
            (λ c m. same c (ground (arith, m))));
    distinct = A.distinct;
    free_chain = Chain-rest {n = s.d_next} {h = s.delayd_free_h} f fs A.free_chain;
    apart = λ d m. A.apart d (ground (arith, m));
    count = omega (arith, A.count);
  }

  abbrev new : Sleeper
  new = record { addr = f; wake = w; sup = sup }

  abbrev s2 : Store
  s2 = linked_in s1 f w ds

  abbrev place : Ptr
  place = pred_at w s.delayd_h ds

  place_in_list : has place (s.delayd_h ∷ t ∷ places ds) ≡ true
  place_in_list = ground (arith, has-pred_at w s.delayd_h ds)

  place_not_free : has place fs ≡ false
  place_not_free = elim (Bool-cases (has place fs)) [
    | inl e ↦ ground (arith, A.apart place (ground (arith, e)), place_in_list)
    | inr e ↦ e
  ]

  linked_in-IsAdl : IsAdl s2 t (insert_sleeper new ds) fs
  linked_in-IsAdl = record {
    head_not_null = A.head_not_null;
    tail_not_null = A.tail_not_null;
    tail_wake = allotted-IsAdl.tail_wake;
    active =
        splice s1.d_next s1.d_wake_time s1.d_sup_struct t new
          (record {
            not_null = A.free_chain.links.1;
            wake_at = upd-same s.d_wake_time f w;
            sup_at = upd-same s.d_sup_struct f sup;
            early = early;
          })
          s.delayd_h 0 ds allotted-IsAdl.active (ground (arith, A.distinct.0), A.distinct.1.1)
          (ground (arith, list_apart)) (omega arith);
    distinct = (
      ground (arith, A.distinct.0, list_apart, has-insert_sleeper s.delayd_h new ds),
      (
        ground (arith, A.distinct.1.0, list_apart, has-insert_sleeper t new ds),
        Distinct-insert_sleeper new ds A.distinct.1.1 (ground (arith, list_apart)),
      ),
    );
    free_chain =
        Chain-upd {n = upd s1.d_next f (s1.d_next place)} place f fs
          (Chain-upd {n = s1.d_next} f (s1.d_next place) fs allotted-IsAdl.free_chain
            A.free_chain.distinct.0)
          place_not_free;
    apart = λ d m. ground (
      arith,
      A.apart d (ground (arith, m)),
      not_in d f fs m A.free_chain.distinct.0,
      has-insert_sleeper d new ds,
    );
    count = omega (arith, A.count, length-insert_sleeper new ds);
  }

-- With a free descriptor `DELAY` puts the process before those that wake at the same time or later
-- and behind all others; the list stays sorted and well formed, and apart from the fields of
-- descriptors and the head of the free list nothing changes. The wake time is below the tail
-- dummy's.
pub enlist-IsAdl :
    (nucleus : Nucleus) (s : Store) (m t f w sup : Ptr) (ds : List Sleeper) (fs : List Ptr)
    → IsAdl s t ds (f ∷ fs)
    → w < maxsignedint
    → Finishes
        (λ _ s'.
          IsAdl s' t (insert_sleeper (record { addr = f; wake = w; sup = sup }) ds) fs
          × (s' ≡ record s {
            d_next = s'.d_next;
            d_wake_time = s'.d_wake_time;
            d_sup_struct = s'.d_sup_struct;
            delayd_free_h = s'.delayd_free_h;
          }))
        (enlist nucleus m w sup s)
unfolding enlist
enlist-IsAdl nucleus s m t f w sup ds fs A early =
    simp
      (
        alloc_delayd-allotted s f w sup fs A.free_chain,
        ne_null f A.free_chain.links.1,
        link_delayd-linked_in (s1 s t f w sup ds fs A early) t f w ds fs
            (allotted-IsAdl s t f w sup ds fs A early) A.free_chain.links.1 early,
      )
      (linked_in-IsAdl s t f w sup ds fs A early, refl)
