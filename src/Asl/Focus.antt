-- ===== src/Asl/Focus.antt =====
-- How a change at one place of the active semaphore list changes the whole list.
use operating_system_cs.Base.{
  ◌<◌, ◌≤◌, ◌≡◌, ◌≢◌, ◌⊎◌, refl, sym, ap, ◌∙◌, List, [], ◌∷◌, ◌++◌, true, false, arith, has,
  has-append, length, length-append, ◌+◌, ltb, ltb→lt, Bool-cases, inl, inr,
}
use mathlib.Core.Path.{subst}
use operating_system_cs.Ring.{Ptr, null}
use operating_system_cs.Kernel.{Kernel}
use operating_system_cs.Asl.List.{Desc, addrs, blocked, IsDesc, Active}
use operating_system_cs.Asl.Traverse.{below, from, pred_of, lo_of, Active-Place, below-append-from}

abbrev pub In : Desc → List Desc → Type 0
In d [] = ⊥
In d (e ∷ es) = (d ≡ e) ⊎ In d es

pub In-addrs : (d : Desc) (ds : List Desc) → In d ds → has d.addr (addrs ds) ≡ true
In-addrs d [] i = absurd i
In-addrs d (e ∷ es) (inl i) = ground (arith, ap (λ (x : Desc). x.addr) i)
In-addrs d (e ∷ es) (inr i) = ground (arith, In-addrs d es i)

pub In-blocked :
    (d : Desc) (ds : List Desc) (q : Ptr)
    → In d ds
    → has q (blocked ds) ≡ false
    → has q d.queue ≡ false
In-blocked d [] q i h = absurd i
In-blocked d (e ∷ es) q (inl i) h =
    ground (arith, has-append q e.queue (blocked es), ap (λ (x : Desc). has q x.queue) i)
In-blocked d (e ∷ es) q (inr i) h =
    In-blocked d es q i (ground (arith, has-append q e.queue (blocked es)))

-- A lower bound may be lowered.
pub Active-weaken :
    (k : Kernel) (t lo lo' h : Ptr) (ds : List Desc)
    → Active k t lo h ds
    → lo' ≤ lo
    → Active k t lo' h ds
Active-weaken k t lo lo' h [] act le = act
Active-weaken k t lo lo' h (d ∷ ds) act le = (act.0, omega arith, act.2, act.3)

-- A part of the list survives a change that keeps its descriptors and their links.
pub Active-frame :
    (k k' : Kernel) (t lo h : Ptr) (ds : List Desc)
    → Active k t lo h ds
    → ((e : Desc) → In e ds → lo < e.sem → IsDesc k e → IsDesc k' e)
    → ((e : Ptr) → has e (addrs ds) ≡ true → k'.s_next e ≡ k.s_next e)
    → Active k' t lo h ds
Active-frame k k' t lo h [] act keep next = act
Active-frame k k' t lo h (d ∷ ds) act keep next = (
  act.0,
  act.1,
  keep d (inl refl) act.1 act.2,
  subst (λ p. Active k' t d.sem p ds) (sym (next d.addr (ground arith)))
      (Active-frame k k' t d.sem (k.s_next d.addr) ds act.3 (λ e i lt. keep e (inr i) (omega arith))
        (λ e m. next e (ground arith))),
)

-- A change at the place where the search ends.
pub Active-rebuild :
    (k k' : Kernel) (t lo a c : Ptr) (ds ws : List Desc)
    → c ≢ null
    → k.s_sem_add c ≡ lo
    → lo < a
    → Active k t lo (k.s_next c) ds
    → ((e : Desc) → In e ds → e.sem < a → IsDesc k e → IsDesc k' e)
    → ((e : Ptr)
        → has e (c ∷ addrs (below a ds)) ≡ true
        → e ≢ pred_of a c ds
        → k'.s_next e ≡ k.s_next e)
    → Active k' t (lo_of a lo ds) (k'.s_next (pred_of a c ds)) ws
    → Active k' t lo (k'.s_next c) (below a ds ++ ws)
unfolding below pred_of lo_of
Active-rebuild k k' t lo a c [] ws cne cs lt act keep next = λ w. w
Active-rebuild k k' t lo a c (d ∷ ds) ws cne cs lt act keep next = elim (Bool-cases (ltb d.sem a)) [
  | inr e ↦ simp e (λ w. w)
  | inl e ↦
      let p =
        Active-Place k t d.sem a d.addr ds act.2.not_null act.2.sem_add (ltb→lt d.sem a e) act.3 in
      simp e λ w. (
        next c (ground arith)
              (simp e (λ i. absurd (omega (arith, ap k.s_sem_add i, p.sem_add, p.lo-le))))
            ∙ act.0,
        act.1,
        keep d (inl refl) (ltb→lt d.sem a e) act.2,
        Active-rebuild k k' t d.sem a d.addr ds ws act.2.not_null act.2.sem_add (ltb→lt d.sem a e)
            act.3 (λ x i. keep x (inr i)) (λ x m ne. next x (simp e (ground arith)) (simp e ne)) w,
      )
]

pub In-from : (a : Ptr) (e : Desc) (ds : List Desc) → In e (from a ds) → In e ds
unfolding from
In-from a e [] = λ i. i
In-from a e (d ∷ ds) = elim (Bool-cases (ltb d.sem a)) [
  | inl h ↦ simp h (λ i. inr (In-from a e ds i))
  | inr h ↦ simp h (λ i. i)
]

-- The lists of addresses of the two parts make up that of the whole.
pub addrs-append : (ds es : List Desc) → addrs (ds ++ es) ≡ addrs ds ++ addrs es
addrs-append [] es = refl
addrs-append (d ∷ ds) es = ap (λ l. d.addr ∷ l) (addrs-append ds es)

pub addrs-below-from :
    (a : Ptr) (ds : List Desc) → addrs (below a ds) ++ addrs (from a ds) ≡ addrs ds
addrs-below-from a ds =
    sym (addrs-append (below a ds) (from a ds)) ∙ ap addrs (below-append-from a ds)

pub length-below-from :
    (a : Ptr) (ds : List Desc) → length (below a ds) + length (from a ds) ≡ length ds
length-below-from a ds =
    sym (length-append (below a ds) (from a ds)) ∙ ap length (below-append-from a ds)

-- An address with a semaphore that is not above `lo` is none of those on the list.
pub Active-not-has :
    (k : Kernel) (t lo h p : Ptr) (ds : List Desc)
    → Active k t lo h ds
    → k.s_sem_add p ≤ lo
    → has p (addrs ds) ≡ false
Active-not-has k t lo h p [] act le = refl
Active-not-has k t lo h p (d ∷ ds) act le = ground (
  arith,
  Active-not-has k t d.sem (k.s_next d.addr) p ds act.3,
  act.2.sem_add,
  ap k.s_sem_add {x = p} {y = d.addr},
)

-- The search in a list whose part from `a` on was replaced.
module _ (a : Ptr) (w : Desc) (ws : List Desc) (ge : ltb w.sem a ≡ false) where
  pub from-replaced : (ds : List Desc) → from a (below a ds ++ w ∷ ws) ≡ w ∷ ws
  unfolding from below
  from-replaced [] = simp ge
  from-replaced (d ∷ ds) = elim (Bool-cases (ltb d.sem a)) [
    | inl e ↦ simp (e, from-replaced ds)
    | inr e ↦ simp (e, ge)
  ]

  pub below-replaced : (ds : List Desc) → below a (below a ds ++ w ∷ ws) ≡ below a ds
  unfolding below
  below-replaced [] = simp ge
  below-replaced (d ∷ ds) = elim (Bool-cases (ltb d.sem a)) [
    | inl e ↦ simp (e, below-replaced ds)
    | inr e ↦ simp (e, ge)
  ]

pub pred_of-replaced :
    (a : Ptr) (w : Desc) (ws : List Desc) (ge : ltb w.sem a ≡ false) (c : Ptr) (ds : List Desc)
    → pred_of a c (below a ds ++ w ∷ ws) ≡ pred_of a c ds
unfolding below pred_of
pred_of-replaced a w ws ge c [] = simp ge
pred_of-replaced a w ws ge c (d ∷ ds) = elim (Bool-cases (ltb d.sem a)) [
  | inl e ↦ simp (e, pred_of-replaced a w ws ge d.addr ds)
  | inr e ↦ simp (e, ge)
]

-- An address with a semaphore from `a` on is none of those below `a`.
pub below-not-has :
    (k : Kernel) (t lo h a p : Ptr) (ds : List Desc)
    → Active k t lo h ds
    → a ≤ k.s_sem_add p
    → has p (addrs (below a ds)) ≡ false
unfolding below
below-not-has k t lo h a p [] act le = refl
below-not-has k t lo h a p (d ∷ ds) act le = ground (
  arith,
  below-not-has k t d.sem (k.s_next d.addr) a p ds act.3,
  act.2.sem_add,
  ap k.s_sem_add {x = p} {y = d.addr},
)
