-- ===== src/Xpio/Proc/Unlink.antt =====
-- luau/xpio_c.c: SLL_DEQUEUE takes an object off the list of process objects.
use flake.Common.{
  ℕ, zero, suc, ◌<◌, ◌≡◌, refl, ◌∙◌, subst, true, false, some, List, [], ◌∷◌, arith, ◌==◌,
  if◌then◌else◌, length, Option-cases, Bool-cases, inl, inr,
}
use flake.Xpio.Proc.{
  XpProc, Cells, Procs, Slot, head_slot, next_slot, load, store, update, dequeue_proc,
}
use flake.Xpio.Proc.Chain.{Chain, mem}

abbrev pub NoDup : List ℕ → Type 0
NoDup [] = Unit {0}
NoDup (a ∷ objs) = (mem a objs ≡ false) × NoDup objs

-- `gpHeadProc` starts a list of distinct objects.
pub record IsList (ps : Procs) (objs : List ℕ) : Type 0 where
  pub chain : Chain ps.cells ps.head objs
  pub nodup : NoDup objs

abbrev pub remove : ℕ → List ℕ → List ℕ
remove me [] = []
remove me (a ∷ objs) = if a == me then objs else a ∷ remove me objs

-- The pointer that leads to `me`, from `pp` on.
abbrev pub pred_slot : Slot → ℕ → List ℕ → Slot
pred_slot pp me [] = pp
pred_slot pp me (a ∷ objs) = if a == me then pp else pred_slot (next_slot a) me objs

abbrev pub IsApart : Slot → List ℕ → Type 0
IsApart head_slot objs = Unit {0}
IsApart (next_slot a) objs = mem a objs ≡ false

pub Chain-agree :
    (cells cells' : Cells) (p : ℕ) (objs : List ℕ)
    → ((b : ℕ) → mem b objs ≡ true → cells' b ≡ cells b)
    → Chain cells p objs
    → Chain cells' p objs
Chain-agree cells cells' p [] same h = h
Chain-agree cells cells' p (a ∷ objs) same (e, ne, c, at, rest) = (
  e,
  ne,
  c,
  same a (ground arith) ∙ at,
  Chain-agree cells cells' c.next objs (λ b m. same b (ground arith)) rest,
)

load-store :
    (ps : Procs) (pp : Slot) (p v : ℕ) → load ps pp ≡ some p → load (store ps pp v) pp ≡ some v
unfolding load store update
load-store ps head_slot p v e = refl
load-store ps (next_slot a) p v e = elim (Option-cases (ps.cells a)) [
  | inl gone ↦ ground arith
  | inr (c, there) ↦ ground arith
]

store-apart :
    (ps : Procs) (pp : Slot) (v : ℕ) (objs : List ℕ) (b : ℕ)
    → IsApart pp objs
    → mem b objs ≡ true
    → (store ps pp v).cells b ≡ ps.cells b
unfolding store update
store-apart ps head_slot v objs b h m = refl
store-apart ps (next_slot a) v objs b h m = elim (Option-cases (ps.cells a)) [
  | inl gone ↦ ground arith
  | inr (c, there) ↦ elim (Bool-cases (b == a)) [ inl e ↦ ground arith | inr e ↦ ground arith ]
]

load-next_slot :
    (ps : Procs) (a : ℕ) (c : XpProc) → ps.cells a ≡ some c → load ps (next_slot a) ≡ some c.next
unfolding load
load-next_slot ps a c there = ground arith

next-load :
    (ps : Procs) (a p : ℕ)
    → load ps (next_slot a) ≡ some p
    → (c : XpProc) × (ps.cells a ≡ some c) × (c.next ≡ p)
unfolding load
next-load ps a p e = elim (Option-cases (ps.cells a)) [
  | inl gone ↦ absurd (ground arith)
  | inr (c, there) ↦ (c, there, ground arith)
]

load-store_next :
    (ps : Procs) (pp : Slot) (a v : ℕ)
    → IsApart pp (a ∷ [])
    → load (store ps (next_slot a) v) pp ≡ load ps pp
unfolding load store update
load-store_next ps head_slot a v h = elim (Option-cases (ps.cells a)) [
  | inl gone ↦ ground arith
  | inr (c, there) ↦ ground arith
]
load-store_next ps (next_slot b) a v h = elim (Option-cases (ps.cells a)) [
  | inl gone ↦ ground arith
  | inr (c, there) ↦ ground arith
]

IsApart-head : (pp : Slot) (a : ℕ) (objs : List ℕ) → IsApart pp (a ∷ objs) → IsApart pp (a ∷ [])
IsApart-head head_slot a objs h = tt
IsApart-head (next_slot b) a objs h = ground arith

IsApart-tail : (pp : Slot) (a : ℕ) (objs : List ℕ) → IsApart pp (a ∷ objs) → IsApart pp objs
IsApart-tail head_slot a objs h = tt
IsApart-tail (next_slot b) a objs h = ground arith

load-store_pred :
    (ps : Procs) (pp : Slot) (me v a : ℕ) (objs : List ℕ)
    → IsApart pp (a ∷ objs)
    → load (store ps (pred_slot (next_slot a) me objs) v) pp ≡ load ps pp
load-store_pred ps pp me v a [] h = load-store_next ps pp a v h
load-store_pred ps pp me v a (b ∷ objs) h = elim (Bool-cases (b == me)) [
  | inl e ↦ rw e (load-store_next ps pp a v (IsApart-head pp a (b ∷ objs) h))
  | inr e ↦ rw e (load-store_pred ps pp me v b objs (IsApart-tail pp a (b ∷ objs) h))
]

pub load-head_slot : (ps : Procs) → load ps head_slot ≡ some ps.head
unfolding load
load-head_slot ps = refl

pub head-load : (ps : Procs) (q : ℕ) → load ps head_slot ≡ some q → ps.head ≡ q
unfolding load
head-load ps q e = ground arith

pub dequeue_proc-store :
    (fuel me after : ℕ) (pp : Slot) (ps : Procs) (p : ℕ) (objs : List ℕ)
    → load ps pp ≡ some p
    → Chain ps.cells p objs
    → length objs < fuel
    → dequeue_proc fuel me after pp ps
      ≡ some (if mem me objs then store ps (pred_slot pp me objs) after else ps)
unfolding dequeue_proc
dequeue_proc-store zero me after pp ps p objs at h lt = elim lt [ ]
dequeue_proc-store (suc fuel) me after pp ps p [] at h lt = ground arith
dequeue_proc-store (suc fuel) me after pp ps p (a ∷ objs) at (e, ne, c, there, rest) lt = ground (
  arith,
  dequeue_proc-store fuel me after (next_slot a) ps c.next objs (load-next_slot ps a c there) rest,
)

-- After the store the list goes on past `me`.
pub Chain-store :
    (ps : Procs) (me : ℕ) (cm : XpProc) (pp : Slot) (p : ℕ) (objs : List ℕ)
    → load ps pp ≡ some p
    → Chain ps.cells p objs
    → NoDup objs
    → IsApart pp objs
    → mem me objs ≡ true
    → ps.cells me ≡ some cm
    → (q : ℕ) × (load (store ps (pred_slot pp me objs) cm.next) pp ≡ some q)
      × Chain (store ps (pred_slot pp me objs) cm.next).cells q (remove me objs)
Chain-store ps me cm pp p [] at h nd ap m here = absurd (ground arith)
Chain-store ps me cm pp p (a ∷ objs) at (e, ne, c, there, rest) (na, nd) ap m here =
    elim (Bool-cases (a == me)) [
      | inl hit ↦ rw hit (
        cm.next,
        load-store ps pp p cm.next at,
        Chain-agree ps.cells (store ps pp cm.next).cells cm.next objs
            (λ b mb. store-apart ps pp cm.next objs b (IsApart-tail pp a objs ap) mb)
            (let same : c ≡ cm = ground arith in
              subst (λ (t : XpProc). Chain ps.cells t.next objs) same rest),
      )
      | inr miss ↦
          let (q, ld, tail) =
            Chain-store ps me cm (next_slot a) c.next objs (load-next_slot ps a c there) rest nd na
              (ground arith) here in
          let link = next-load (store ps (pred_slot (next_slot a) me objs) cm.next) a q ld in
          rw miss (
            a,
            load-store_pred ps pp me cm.next a objs ap ∙ rw (← e) at,
            (refl, ne, link.0, link.1, rw link.2 tail),
          )
    ]

-- A store leaves the rest of every object.
pub store-Keeps :
    (ps : Procs) (pp : Slot) (v : ℕ) (b : ℕ) (c : XpProc)
    → ps.cells b ≡ some c
    → (c' : XpProc) × ((store ps pp v).cells b ≡ some c')
      × (c'.pid ≡ c.pid)
      × (c'.status ≡ c.status)
unfolding store update
store-Keeps ps head_slot v b c e = (c, e, refl, refl)
store-Keeps ps (next_slot a) v b c e = elim (Option-cases (ps.cells a)) [
  | inl gone ↦ (c, ground arith, refl, refl)
  | inr (d, there) ↦ elim (Bool-cases (b == a)) [
    | inl hit ↦ (record c { next = v }, ground arith, refl, refl)
    | inr miss ↦ (c, ground arith, refl, refl)
  ]
]
