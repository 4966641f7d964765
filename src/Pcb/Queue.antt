-- ===== src/Pcb/Queue.antt =====
-- The process queues of phase1/pcb.c refine lists of pcbs, the head first.
pub mod Out
pub mod Explicit
use operating_system_cs.Base.{
  ◌≡◌, ◌≢◌, refl, ap, List, [], ◌∷◌, ◌++◌, false, arith, has, has-last, eq_of_==, ==-refl, ◌==◌,
}
use operating_system_cs.Ring.{Ptr, null, Field, Ring}
use operating_system_cs.Ring.Edit.{insert_first, insert_last, remove_head, head-ne-tail}
use operating_system_cs.Kernel.{Kernel}
use operating_system_cs.Kernel.Run.{Returns, ok, ne_null}
use operating_system_cs.Pcb.Defs.{insert_proc_q, remove_proc_q, head_proc_q}

-- Only the queue links of the pcbs `s` change.
pub record LinksOnly (s : List Ptr) (k k' : Kernel) : Type 0 where
  pub same : k' ≡ record k { p_next = k'.p_next; p_prev = k'.p_prev }
  pub outside :
      (c : Ptr) → has c s ≡ false → (k'.p_next c ≡ k.p_next c) × (k'.p_prev c ≡ k.p_prev c)

abbrev pub IsProcQ : Kernel → Ptr → List Ptr → Type 0
IsProcQ k = Ring k.p_next k.p_prev

module _ {n p : Field} {t : Ptr} (x : Ptr) (xs : List Ptr) (r : Ring n p t (x ∷ xs)) where
  pub tail_ne : t ≢ null
  tail_ne = ground (arith, r.tail, r.no_null, has-last x xs)

  pub head_ne : x ≢ null
  head_ne = ground (arith, r.no_null)

-- `insertProcQ` appends a pcb that is not in the queue and not `NULL`, which becomes the tail,
-- and changes only the queue links of these pcbs.
pub insert_proc_q-append :
    (k : Kernel) (tp q : Ptr) (xs : List Ptr)
    → IsProcQ k tp xs
    → has q xs ≡ false
    → q ≢ null
    → Returns
        (λ tp' k'. IsProcQ k' tp' (xs ++ q ∷ []) × (tp' ≡ q) × LinksOnly (q ∷ xs) k k')
        (insert_proc_q tp q k)
unfolding insert_proc_q
insert_proc_q-append k tp q [] r new ne =
    simp (r.tail, ne_null q ne)
      (
        insert_first q ne (ground arith) (ground arith),
        refl,
        record { same = refl; outside = λ c h. ground arith },
      )
insert_proc_q-append k tp q (x ∷ xs) r new ne =
    simp (ne_null tp (tail_ne x xs r), ne_null q ne, apart, r.links.0, ne_null x (head_ne x xs r))
      (
        insert_last x xs _ _ r new ne (λ c. ground (arith, r.links.0))
            (λ c. ground (arith, r.links.0, apart)),
        refl,
        record {
          same = refl;
          outside = λ c h. ground (arith, r.tail, has-last x xs, eq_of_== c tp);
        },
      )
  where
    apart : (tp == q) ≡ false
    apart = ground (arith, r.tail, has-last x xs, eq_of_== tp q)

-- The head of a queue, `NULL` if it is empty, and the elements behind the head.
abbrev pub first : List Ptr → Ptr
first [] = null
first (x ∷ xs) = x

abbrev pub rest : List Ptr → List Ptr
rest [] = []
rest (x ∷ xs) = xs

-- `removeProcQ` returns the head of the queue, `NULL` if it is empty, and leaves the rest; it
-- changes only the queue links of the queue.
pub remove_proc_q-rest :
    (k : Kernel) (tp : Ptr) (xs : List Ptr)
    → IsProcQ k tp xs
    → Returns
        (λ (rm, tp') k'. (rm ≡ first xs) × IsProcQ k' tp' (rest xs) × LinksOnly xs k k')
        (remove_proc_q tp k)
unfolding remove_proc_q
remove_proc_q-rest k tp [] r = simp r.tail (
  refl,
  record { tail = refl; links = tt; distinct = tt; no_null = refl },
  record { same = refl; outside = λ c h. (refl, refl) },
)
remove_proc_q-rest k tp (x ∷ []) r =
    simp (r.tail, ne_null x (head_ne x [] r), loop, ==-refl x)
      (
        refl,
        record { tail = refl; links = tt; distinct = tt; no_null = refl },
        record { same = refl; outside = λ c h. ground arith },
      )
  where
    loop : k.p_next x ≡ x
    loop = ground (arith, r.links.0, ap k.p_next r.tail)
remove_proc_q-rest k tp (x ∷ y ∷ ys) r =
    simp
      (
        ne_null tp (tail_ne x (y ∷ ys) r),
        r.links.0,
        ne_null x (head_ne x (y ∷ ys) r),
        apart,
        r.links.2.0,
        ne_null y y_ne,
      )
      (
        refl,
        remove_head x y ys _ _ r (λ c. ground (arith, r.links.2.0))
            (λ c. ground (arith, r.links.2.0)),
        record {
          same = refl;
          outside = λ c h. ground (arith, r.tail, has-last y ys, eq_of_== c tp);
        },
      )
  where
    apart : (x == tp) ≡ false
    apart = ground (arith, head-ne-tail x y ys r)

    y_ne : y ≢ null
    y_ne = ground (arith, r.no_null)

-- `headProcQ` returns the head and changes nothing.
pub head_proc_q-first :
    (k : Kernel) (tp : Ptr) (xs : List Ptr) → IsProcQ k tp xs → head_proc_q tp k ≡ ok (first xs) k
unfolding head_proc_q
head_proc_q-first k tp [] r = simp r.tail
head_proc_q-first k tp (x ∷ xs) r = simp (ne_null tp (tail_ne x xs r), r.links.0)
