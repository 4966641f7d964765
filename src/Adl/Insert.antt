-- ===== src/Adl/Insert.antt =====
-- `traverseADL` and the insertion by `DELAY` (phase5/delayDaemon.c).
use operating_system_cs.Base.{
  ℕ, zero, suc, ◌+◌, ◌≤◌, ◌<◌, ◌≡◌, ◌≢◌, refl, ap, ◌∙◌, sym, List, [], ◌∷◌, true, false, arith, has,
  length, Distinct, ltb, ltb→lt, ◌==◌, ==-refl, eq_of_==, upd, upd-same, upd-other, Bool-cases, inl,
  inr,
}
use mathlib.Core.Path.{subst}
use operating_system_cs.Ring.{Ptr, null, Field}
use operating_system_cs.Kernel.Const.{maxproc}
use operating_system_cs.Kernel.Run.{ne_null}
use operating_system_cs.Support.{Store}
use operating_system_cs.Support.Const.{maxsignedint}
use operating_system_cs.Support.Code.{done}
use operating_system_cs.Support.Machine.{slt}
use operating_system_cs.Adl.{link_delayd, traverse_adl_loop, traverse_adl}
use operating_system_cs.Adl.List.{
  Sleeper, places, IsSleeper, Sleeping, IsAdl, insert_sleeper, pred_at, Sleeping-frame,
}

slt-small : (a b : ℕ) → a < 0x8000_0000 → b < 0x8000_0000 → slt a b ≡ ltb a b
slt-small a b ha hb = ground (arith, ha, hb)

traverse_adl_loop-pred :
    (fuel : ℕ) (s : Store) (w c t lo : Ptr) (ds : List Sleeper)
    → w < maxsignedint
    → c ≢ null
    → t ≢ null
    → s.d_wake_time t ≡ maxsignedint
    → Sleeping s.d_next s.d_wake_time s.d_sup_struct t lo (s.d_next c) ds
    → length ds < fuel
    → traverse_adl_loop fuel w c s ≡ done (pred_at w c ds) s
unfolding traverse_adl_loop pred_at
traverse_adl_loop-pred zero s w c t lo ds early cne tne tw act h = absurd (omega arith)
traverse_adl_loop-pred (suc fuel) s w c t lo [] early cne tne tw act h =
    simp (ne_null c cne, act, ne_null t tne, tw)
traverse_adl_loop-pred (suc fuel) s w c t lo (d ∷ ds) early cne tne tw act h =
    simp
      (
        ne_null c cne,
        act.0,
        ne_null d.addr act.2.not_null,
        act.2.wake_at,
        other,
        slt-small d.wake w (omega (arith, act.2.early)) (omega arith),
      )
      (elim (Bool-cases (ltb d.wake w)) [
        | inl e ↦ simp e (
            traverse_adl_loop-pred fuel s w d.addr t d.wake ds early act.2.not_null tne tw act.3
              (omega arith))
        | inr e ↦ simp e
      ])
  where
    other : (d.wake == maxsignedint) ≡ false
    other = ground (arith, act.2.early)

-- `traverseADL` ends within MAXPROC + 2 rounds, changes nothing and returns the last descriptor that
-- wakes before the time given, the head dummy if there is none.
pub traverse_adl-pred :
    (s : Store) (t w : Ptr) (ds : List Sleeper) (free : List Ptr)
    → IsAdl s t ds free
    → w < maxsignedint
    → traverse_adl w s ≡ done (pred_at w s.delayd_h ds) s
unfolding traverse_adl
traverse_adl-pred s t w ds free A early =
    traverse_adl_loop-pred (maxproc + 2) s w s.delayd_h t 0 ds early A.head_not_null A.tail_not_null
      A.tail_wake A.active (omega (arith, A.count))

pub has-pred_at : (w c : Ptr) (ds : List Sleeper) → has (pred_at w c ds) (c ∷ places ds) ≡ true
unfolding pred_at
has-pred_at w c [] = ground (arith, ==-refl c)
has-pred_at w c (d ∷ ds) = elim (Bool-cases (ltb d.wake w)) [
  | inl e ↦ simp e (ground (arith, has-pred_at w d.addr ds))
  | inr e ↦ simp e (ground (arith, ==-refl c))
]

-- The links behind the insertion of `f` behind `p`.
abbrev pub spliced : Field → (f p : Ptr) → Field
spliced n f p = upd (upd n f (n p)) p f

spliced-new : (n : Field) (f p : Ptr) → (f == p) ≡ false → spliced n f p f ≡ n p
spliced-new n f p h = upd-other (upd n f (n p)) p f f h ∙ upd-same n f (n p)

pub spliced-else :
    (n : Field) (f p c : Ptr) → (c == p) ≡ false → (c == f) ≡ false → spliced n f p c ≡ n c
spliced-else n f p c hp hf = upd-other (upd n f (n p)) p c f hp ∙ upd-other n f c (n p) hf

-- An element of a list, and an address that is not in it.
pub not_in : (a b : Ptr) (xs : List Ptr) → has a xs ≡ true → has b xs ≡ false → (a == b) ≡ false
not_in a b xs m out = elim (Bool-cases (a == b)) [
  | inl e ↦ ground (arith, m, out, ap (λ z. has z xs) (eq_of_== a b e))
  | inr e ↦ e
]

flip : (a b : ℕ) → (a == b) ≡ false → (b == a) ≡ false
flip a b h = ground (arith, h)

module _ (n w p : Field) (t : Ptr) (new : Sleeper) (ok : IsSleeper w p new) where
  -- The links behind `x` are as before, when `x` follows the place of the insertion.
  behind :
      (x lo c : Ptr) (xs : List Sleeper)
      → Distinct (c ∷ x ∷ places xs)
      → has new.addr (c ∷ x ∷ places xs) ≡ false
      → Sleeping n w p t lo (n x) xs
      → Sleeping (spliced n new.addr c) w p t lo (spliced n new.addr c x) xs
  behind x lo c xs d fresh a =
      let f = new.addr in
      let keep : (y : Ptr) → has y (x ∷ places xs) ≡ true → spliced n f c y ≡ n y = λ y m.
        spliced-else n f c y (not_in y c (x ∷ places xs) m d.0)
          (not_in y f (x ∷ places xs) m (ground (arith, fresh))) in
      subst (λ h. Sleeping (spliced n f c) w p t lo h xs) (sym (keep x (ground (arith, ==-refl x))))
        (Sleeping-frame t lo (n x) xs a (λ y m. (keep y (ground (arith, m)), (refl, refl))))

  -- Behind `c`, the new sleeper goes to its place among those that follow.
  pub splice :
      (c lo : Ptr) (ds : List Sleeper)
      → Sleeping n w p t lo (n c) ds
      → Distinct (c ∷ places ds)
      → has new.addr (c ∷ places ds) ≡ false
      → lo ≤ new.wake
      → Sleeping
          (spliced n new.addr (pred_at new.wake c ds))
          w
          p
          t
          lo
          (spliced n new.addr (pred_at new.wake c ds) c)
          (insert_sleeper new ds)
  unfolding pred_at insert_sleeper
  splice c lo [] a d fresh le = (
    upd-same (upd n new.addr (n c)) c new.addr,
    le,
    ok,
    spliced-new n new.addr c (ground (arith, fresh)) ∙ a,
  )
  splice c lo (x ∷ xs) a d fresh le = elim (Bool-cases (ltb x.wake new.wake)) [
    | inl e ↦
        let q = pred_at new.wake x.addr xs in
        let inside = has-pred_at new.wake x.addr xs in
        let f = new.addr in
        let c_q : (c == q) ≡ false = flip q c (not_in q c (x.addr ∷ places xs) inside d.0) in
        let c_f : (c == f) ≡ false = ground (arith, fresh) in
        simp e (
          spliced-else n f q c c_q c_f ∙ a.0,
          a.1,
          a.2,
          splice x.addr x.wake xs a.3 d.1 (ground (arith, fresh)) (omega (arith, ltb→lt _ _ e)),
        )
    | inr e ↦
        let f = new.addr in
        let f_c : (f == c) ≡ false = ground (arith, fresh) in
        simp e (
          upd-same (upd n f (n c)) c f,
          le,
          ok,
          (
            spliced-new n f c f_c ∙ a.0,
            ground (arith, e),
            a.2,
            behind x.addr x.wake c xs d fresh a.3,
          ),
        )
  ]

-- `link_delayd`: the new descriptor `f` goes behind its predecessor.
abbrev pub linked_in : Store → (f w : ℕ) → List Sleeper → Store
linked_in s f w ds = record s { d_next = spliced s.d_next f (pred_at w s.delayd_h ds) }

pred_at-not_null :
    (n w p : Field) (t lo h v c : Ptr) (ds : List Sleeper)
    → c ≢ null
    → Sleeping n w p t lo h ds
    → pred_at v c ds ≢ null
unfolding pred_at
pred_at-not_null n w p t lo h v c [] ne a = ne
pred_at-not_null n w p t lo h v c (d ∷ ds) ne a = elim (Bool-cases (ltb d.wake v)) [
  | inl e ↦ simp e (pred_at-not_null n w p t d.wake (n d.addr) v d.addr ds a.2.not_null a.3)
  | inr e ↦ simp e ne
]

pub link_delayd-linked_in :
    (s : Store) (t f w : Ptr) (ds : List Sleeper) (fs : List Ptr)
    → IsAdl s t ds fs
    → f ≢ null
    → w < maxsignedint
    → link_delayd w f s ≡ done tt (linked_in s f w ds)
unfolding link_delayd
link_delayd-linked_in s t f w ds fs A ne early = simp (
  traverse_adl-pred s t w ds fs A early,
  ne_null _ (
      pred_at-not_null s.d_next s.d_wake_time s.d_sup_struct t 0 _ w s.delayd_h ds A.head_not_null
        A.active),
  ne_null f ne,
)

pub length-insert_sleeper :
    (d : Sleeper) (ds : List Sleeper) → length (insert_sleeper d ds) ≡ suc (length ds)
unfolding insert_sleeper
length-insert_sleeper d [] = refl
length-insert_sleeper d (x ∷ xs) = ground (arith, length-insert_sleeper d xs)

pub has-insert_sleeper :
    (a : Ptr) (d : Sleeper) (ds : List Sleeper)
    → has a (places (insert_sleeper d ds)) ≡ has a (d.addr ∷ places ds)
unfolding insert_sleeper
has-insert_sleeper a d [] = refl
has-insert_sleeper a d (x ∷ xs) = ground (arith, has-insert_sleeper a d xs)

pub Distinct-insert_sleeper :
    (d : Sleeper) (ds : List Sleeper)
    → Distinct (places ds)
    → has d.addr (places ds) ≡ false
    → Distinct (places (insert_sleeper d ds))
unfolding insert_sleeper
Distinct-insert_sleeper d [] h out = (refl, tt)
Distinct-insert_sleeper d (x ∷ xs) h out = elim (Bool-cases (ltb x.wake d.wake)) [
  | inl e ↦ simp e (
    ground (arith, has-insert_sleeper x.addr d xs, h.0, out, flip d.addr x.addr),
    Distinct-insert_sleeper d xs h.1 (ground (arith, out)),
  )
  | inr e ↦ simp e (out, h)
]
