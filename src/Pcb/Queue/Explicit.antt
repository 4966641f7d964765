-- ===== src/Pcb/Queue/Explicit.antt =====
-- The queue operations with their final memory written out: only `p_next` and `p_prev` differ.
use operating_system_cs.Base.{
  ◌≡◌, ◌≢◌, ◌≤◌, ap, List, [], ◌∷◌, ◌++◌, true, false, has, erase, length,
}
use operating_system_cs.Ring.{Ptr, null, Field, Ring}
use operating_system_cs.Kernel.{Kernel}
use operating_system_cs.Kernel.Const.{maxproc}
use operating_system_cs.Kernel.Run.{Run, Returns, Returns-mono, ok, leave, fault, out_of_fuel}
use operating_system_cs.Pcb.Defs.{insert_proc_q, remove_proc_q, out_proc_q}
use operating_system_cs.Pcb.Queue.{
  IsProcQ, LinksOnly, insert_proc_q-append, remove_proc_q-rest, first, rest,
}
use operating_system_cs.Pcb.Queue.Out.{out_proc_q-erase}

abbrev pub with_links : Kernel → Field → Field → Kernel
with_links k n p = record k { p_next = n; p_prev = p }

-- `n` and `p` are the links of `k` outside `s`.
abbrev pub Outside : List Ptr → Kernel → Field → Field → Type 0
Outside s k n p = (c : Ptr) → has c s ≡ false → (n c ≡ k.p_next c) × (p c ≡ k.p_prev c)

pub data LinksRun {A : Type 0} (s : List Ptr) (k : Kernel) (P : A → Field → Field → Type 0)
    (m : Run A) : Type 0 where
  links_run :
      (a : A) (n p : Field)
      → m ≡ ok a (with_links k n p)
      → P a n p
      → Outside s k n p
      → LinksRun s k P m

Returns-LinksRun :
    {A : Type 0} (s : List Ptr) (k : Kernel) (P : A → Field → Field → Type 0) (m : Run A)
    → Returns (λ a k'. P a k'.p_next k'.p_prev × LinksOnly s k k') m
    → LinksRun s k P m
Returns-LinksRun s k P (ok a k') r =
    links_run a k'.p_next k'.p_prev (ap (ok a) r.1.same) r.0 r.1.outside
Returns-LinksRun s k P (leave e k') r = absurd r
Returns-LinksRun s k P fault r = absurd r
Returns-LinksRun s k P out_of_fuel r = absurd r

module _ (k : Kernel) (tp : Ptr) where
  pub insert_proc_q-run :
      (q : Ptr) (xs : List Ptr)
      → IsProcQ k tp xs
      → has q xs ≡ false
      → q ≢ null
      → LinksRun
          (q ∷ xs)
          k
          (λ tp' n p. Ring n p tp' (xs ++ q ∷ []) × (tp' ≡ q))
          (insert_proc_q tp q k)
  insert_proc_q-run q xs r new ne =
      Returns-LinksRun (q ∷ xs) k (λ tp' n p. Ring n p tp' (xs ++ q ∷ []) × (tp' ≡ q))
        (insert_proc_q tp q k)
        (Returns-mono _ _ (insert_proc_q tp q k) (insert_proc_q-append k tp q xs r new ne)
          λ a k' h. ((h.0, h.1), h.2))

  pub remove_proc_q-run :
      (xs : List Ptr)
      → IsProcQ k tp xs
      → LinksRun xs k (λ o n p. (o.0 ≡ first xs) × Ring n p o.1 (rest xs)) (remove_proc_q tp k)
  remove_proc_q-run xs r =
      Returns-LinksRun xs k (λ o n p. (o.0 ≡ first xs) × Ring n p o.1 (rest xs))
        (remove_proc_q tp k)
        (Returns-mono _ _ (remove_proc_q tp k) (remove_proc_q-rest k tp xs r)
          λ a k' h. ((h.0, h.1), h.2))

  pub out_proc_q-run :
      (q : Ptr) (xs : List Ptr)
      → IsProcQ k tp xs
      → length xs ≤ maxproc
      → has q xs ≡ true
      → LinksRun xs k (λ o n p. (o.0 ≡ q) × Ring n p o.1 (erase q xs)) (out_proc_q tp q k)
  out_proc_q-run q xs r fits h =
      Returns-LinksRun xs k (λ o n p. (o.0 ≡ q) × Ring n p o.1 (erase q xs)) (out_proc_q tp q k)
        (Returns-mono _ _ (out_proc_q tp q k) (out_proc_q-erase k tp q xs r fits h)
          λ a k' e. ((e.result, e.queue), e.links_only))
