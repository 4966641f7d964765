-- ===== src/Pcb/Free.antt =====
-- The list of free pcbs of phase1/pcb.c.
use operating_system_cs.Base.{
  ℕ, zero, suc, ◌-◌, ◌<◌, ◌≡◌, ◌≢◌, refl, List, [], ◌∷◌, false, arith, has, upd, eq_of_==, ==-refl,
  ◌==◌,
}
use native.Mathlib.Numerals.{add-one}
use operating_system_cs.Ring.{Ptr, null}
use operating_system_cs.Chain
use operating_system_cs.Chain.{Chain, Chain-cons, elems, linked, array-Chain}
use operating_system_cs.Kernel.{Kernel}
use operating_system_cs.Kernel.Const.{maxproc, state_reg_num, pcb_size, array_elem}
use operating_system_cs.Kernel.Run.{Returns, ok, ne_null}
use operating_system_cs.Pcb.Defs.{free_pcb, alloc_pcb, clear_regs, init_pcbs, init_pcbs_loop}

abbrev pub IsFree : Kernel → List Ptr → Type 0
IsFree k = Chain k.p_next k.pcb_free_h

-- `freePcb` puts a pcb that is not free and not `NULL` in front of the free list, and changes
-- nothing else.
pub free_pcb-cons :
    (k : Kernel) (p : Ptr) (xs : List Ptr)
    → IsFree k xs
    → has p xs ≡ false
    → p ≢ null
    → Returns
        (λ _ k'.
          IsFree k' (p ∷ xs)
          × (k' ≡ record k { p_next = upd k.p_next p k.pcb_free_h; pcb_free_h = p }))
        (free_pcb p k)
unfolding free_pcb
free_pcb-cons k p xs f new ne = simp (ne_null p ne) (Chain-cons p xs f new ne, refl)

-- Nothing of an earlier use is left in the pcb.
pub record IsBlank (k : Kernel) (p : Ptr) : Type 0 where
  pub next : k.p_next p ≡ null
  pub prev : k.p_prev p ≡ null
  pub prnt : k.p_prnt p ≡ null
  pub child : k.p_child p ≡ null
  pub next_sib : k.p_next_sib p ≡ null
  pub prev_sib : k.p_prev_sib p ≡ null
  pub entry_hi : (k.p_s p).s_entry_hi ≡ 0
  pub cause : (k.p_s p).s_cause ≡ 0
  pub status : (k.p_s p).s_status ≡ 0
  pub pc : (k.p_s p).s_pc ≡ 0
  pub regs : (i : ℕ) → i < state_reg_num → (k.p_s p).s_reg i ≡ 0
  pub time : k.p_time p ≡ 0
  pub sem_add : k.p_sem_add p ≡ null
  pub support : k.p_support_struct p ≡ null

-- Only fields of the pcb `p` and the head of the free list change.
pub record PcbOnly (p : Ptr) (k k' : Kernel) : Type 0 where
  pub same : k' ≡ record k {
    p_next = k'.p_next;
    p_prev = k'.p_prev;
    p_prnt = k'.p_prnt;
    p_child = k'.p_child;
    p_next_sib = k'.p_next_sib;
    p_prev_sib = k'.p_prev_sib;
    p_s = k'.p_s;
    p_time = k'.p_time;
    p_sem_add = k'.p_sem_add;
    p_support_struct = k'.p_support_struct;
    pcb_free_h = k'.pcb_free_h;
  }
  pub links :
      (c : Ptr)
      → c ≢ p
      → (k'.p_next c ≡ k.p_next c)
        × (k'.p_prev c ≡ k.p_prev c)
        × (k'.p_prnt c ≡ k.p_prnt c)
        × (k'.p_child c ≡ k.p_child c)
        × (k'.p_next_sib c ≡ k.p_next_sib c)
        × (k'.p_prev_sib c ≡ k.p_prev_sib c)
  pub values :
      (c : Ptr)
      → c ≢ p
      → (k'.p_s c ≡ k.p_s c)
        × (k'.p_time c ≡ k.p_time c)
        × (k'.p_sem_add c ≡ k.p_sem_add c)
        × (k'.p_support_struct c ≡ k.p_support_struct c)

clear_regs-zero : (n : ℕ) (regs : ℕ → ℕ) (i : ℕ) → i < n → clear_regs n regs i ≡ 0
unfolding clear_regs
clear_regs-zero zero regs i h = absurd (omega arith)
clear_regs-zero (suc n) regs i h = ground (arith, clear_regs-zero n regs i)

-- `allocPcb` returns `NULL` and changes nothing when no pcb is free.
pub alloc_pcb-none : (k : Kernel) → IsFree k [] → alloc_pcb k ≡ ok null k
unfolding alloc_pcb
alloc_pcb-none k f = simp f.links

-- `allocPcb` takes the first free pcb and clears all of it.
pub alloc_pcb-first :
    (k : Kernel) (x : Ptr) (xs : List Ptr)
    → IsFree k (x ∷ xs)
    → Returns (λ p k'. (p ≡ x) × IsFree k' xs × IsBlank k' x × PcbOnly x k k') (alloc_pcb k)
unfolding alloc_pcb
alloc_pcb-first k x xs f =
    simp (f.links.0, ne_null x f.links.1)
      (
        refl,
        record {
          links =
              Chain.Links-frame (k.p_next x) xs f.links.2
                (λ c m. ground (arith, f.distinct.0, eq_of_== c x));
          distinct = f.distinct.1;
        },
        record {
          next = ground arith;
          prev = ground arith;
          prnt = ground arith;
          child = ground arith;
          next_sib = ground arith;
          prev_sib = ground arith;
          entry_hi = simp (==-refl x);
          cause = simp (==-refl x);
          status = simp (==-refl x);
          pc = simp (==-refl x);
          regs = λ i h. simp (==-refl x) (clear_regs-zero state_reg_num (k.p_s x).s_reg i h);
          time = ground arith;
          sem_add = ground arith;
          support = ground arith;
        },
        record {
          same = refl;
          links = λ c ne. ground arith;
          values = λ c ne. simp (other c ne) (refl, refl, refl, refl);
        },
      )
  where
    other : (c : Ptr) → c ≢ x → (c == x) ≡ false
    other c ne = ground arith

abbrev pub pcb_list : Kernel → List Ptr
pcb_list k = elems k.layout.maxproc_pcbs pcb_size 0 maxproc

init_pcbs_loop-linked :
    (n : ℕ) (k : Kernel)
    → init_pcbs_loop n k
      ≡ ok tt (record k { p_next = linked k.layout.maxproc_pcbs pcb_size n k.p_next })
unfolding init_pcbs_loop linked
init_pcbs_loop-linked zero k = refl
init_pcbs_loop-linked (suc n) k = simp (init_pcbs_loop-linked n k, add-one)

-- `initPcbs` puts all MAXPROC pcbs of the table on the free list, and changes nothing else, if
-- the table lies below `NULL`.
pub init_pcbs-pcb_list :
    (k : Kernel)
    → array_elem k.layout.maxproc_pcbs pcb_size maxproc < null
    → Returns
        (λ _ k'.
          IsFree k' (pcb_list k)
          × (k' ≡ record k {
            p_next = k'.p_next;
            pcb_free_h = array_elem k.layout.maxproc_pcbs pcb_size 0;
          }))
        (init_pcbs k)
unfolding init_pcbs
init_pcbs-pcb_list k fits =
    simp
      (init_pcbs_loop-linked (maxproc - 1)
        (record k { pcb_free_h = array_elem k.layout.maxproc_pcbs pcb_size 0 }))
      (
        array-Chain k.layout.maxproc_pcbs pcb_size (omega arith) k.p_next (maxproc - 1)
            (omega arith),
        refl,
      )
