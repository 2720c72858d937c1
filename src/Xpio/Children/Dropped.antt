-- ===== src/Xpio/Children/Dropped.antt =====
-- luau/xpio_c.c, `xpproc_dtor`: an object leaves the list.
use flake.Common.{
  ℕ, ◌<◌, ◌≡◌, refl, ◌∙◌, ap, sym, subst, true, false, List, [], ◌∷◌, arith, some, none, ◌==◌, All,
  Bool-cases, inl, inr, length, is_positive, if◌then◌else◌, ℤ, pos, eq_ℤ, Option,
}
use flake.Xpio.Proc.{XpProc, Procs, proc_dtor}
use flake.Xpio.Proc.Chain.{mem, Distinct}
use flake.Xpio.Proc.Unlink.{IsList, NoDup, remove}
use flake.Xpio.Proc.Destroy.{proc_dtor-IsList}
use flake.Xpio.Children.{ProcView, objects, Held, Implements, drops, without, killed, run_op}
use flake.Xpio.Children.Found.{object-found, same_cell}

without_absent : (me : ℕ) (os : List ProcView) → mem me (objects os) ≡ false → without me os ≡ os
without_absent me [] h = refl
without_absent me (o ∷ os) h = ground (arith, without_absent me os)

-- The objects are distinct, so that one is taken out.
objects-without :
    (me : ℕ) (os : List ProcView)
    → NoDup (objects os)
    → objects (without me os) ≡ remove me (objects os)
objects-without me [] h = refl
objects-without me (o ∷ os) (new, h) = elim (Bool-cases (o.object == me)) [
  | inl hit ↦ rw (without, remove, hit) (ap objects (without_absent me os (ground arith)))
  | inr miss ↦ rw (without, remove, miss) (ap (λ objs. o.object ∷ objs) (objects-without me os h))
]

mem-remove_self : (me : ℕ) (objs : List ℕ) → NoDup objs → mem me (remove me objs) ≡ false
mem-remove_self me [] h = refl
mem-remove_self me (a ∷ objs) (new, h) = ground (arith, mem-remove_self me objs h)

mem-remove_mem : (b me : ℕ) (objs : List ℕ) → mem b (remove me objs) ≡ true → mem b objs ≡ true
mem-remove_mem b me [] h = h
mem-remove_mem b me (a ∷ objs) h = ground (arith, mem-remove_mem b me objs)

killed-found :
    (ps : Procs) (me : ℕ) (os : List ProcView) (c : XpProc)
    → All (Held ps) os
    → mem me (objects os) ≡ true
    → ps.cells me ≡ some c
    → killed me os ≡ (if eq_ℤ c.pid (pos 0) then [] else c.pid ∷ [])
killed-found ps me [] c h m there = absurd (ground arith)
killed-found ps me (o ∷ os) c ((d, here, p, s), h) m there = elim (Bool-cases (o.object == me)) [
  | inl hit ↦
      let at : ps.cells me ≡ some d = ground arith in
      let same : o.pid ≡ c.pid = sym p ∙ ap (λ (x : XpProc). x.pid) (same_cell (sym at ∙ there)) in
      rw (killed, hit) (rw same refl)
  | inr miss ↦ rw (killed, miss) (killed-found ps me os c h (ground arith) there)
]

-- The destructor keeps the other objects.
abbrev Keeps : (me : ℕ) → Procs → Procs → Type 0
Keeps me ps ps' =
    (b : ℕ) (d : XpProc)
    → ps.cells b ≡ some d
    → (d' : XpProc) × (ps'.cells b ≡ some d')
      × (d'.status ≡ d.status)
      × (d'.pid ≡ (if b == me then pos 0 else d.pid))

same_result : {A : Type 0} {a b : A} {o : Option A} → o ≡ some a → o ≡ some b → a ≡ b
same_result {a = a} h k = ap (λ o. elim o [ none ↦ a | some x ↦ x ]) (sym h ∙ k)

proc_dtor-Keeps :
    (fuel me : ℕ) (ps : Procs) (objs : List ℕ) (c : XpProc)
    → IsList ps objs
    → mem me objs ≡ true
    → ps.cells me ≡ some c
    → length objs < fuel
    → (ps' : Procs) × (proc_dtor fuel me ps
        ≡ some (ps', (if eq_ℤ c.pid (pos 0) then [] else c.pid ∷ [])))
      × IsList ps' (remove me objs)
      × Keeps me ps ps'
proc_dtor-Keeps fuel me ps objs c l m here lt =
    let (ps', done, l', c', at_me, status_me, pid_me) =
      proc_dtor-IsList fuel me me ps objs c c l m here here lt in
    (
      ps',
      done,
      l',
      λ b d there.
          let (ps'', done', l'', d', at, s, p) =
            proc_dtor-IsList fuel me b ps objs c d l m here there lt in
          let same : ps'' ≡ ps' = ap (λ (x : Procs × List ℤ). x.0) (same_result done' done) in
          (d', subst (λ (x : Procs). x.cells b ≡ some d') same at, s, p),
    )

without-Held :
    (me : ℕ) (ps ps' : Procs) (os : List ProcView)
    → Keeps me ps ps'
    → All (Held ps) os
    → All (Held ps') (without me os)
without-Held me ps ps' [] keep h = tt
without-Held me ps ps' (o ∷ os) keep ((d, there, p, s), h) = elim (Bool-cases (o.object == me)) [
  | inl hit ↦ rw (without, hit) (without-Held me ps ps' os keep h)
  | inr miss ↦
      let (d', at, ds, dp) = keep o.object d there in
      rw (without, miss) ((d', at, dp ∙ rw miss p, ds ∙ s), without-Held me ps ps' os keep h)
]

without-Distinct :
    (me : ℕ) (ps ps' : Procs) (os : List ProcView)
    → Keeps me ps ps'
    → Implements ps os
    → Distinct ps'.cells (remove me (objects os))
without-Distinct me ps ps' os keep i a b c d ma mb ca cb e p =
    let (old_a, at_a, pid_a) = old a c ma ca in
    let (old_b, at_b, pid_b) = old b d mb cb in
    i.distinct a b old_a old_b (mem-remove_mem a me (objects os) ma)
      (mem-remove_mem b me (objects os) mb) at_a at_b (sym pid_a ∙ e ∙ pid_b)
      (subst (λ x. is_positive x ≡ true) pid_a p)
  where
    old :
        (x : ℕ) (y : XpProc)
        → mem x (remove me (objects os)) ≡ true
        → ps'.cells x ≡ some y
        → (z : XpProc) × (ps.cells x ≡ some z) × (y.pid ≡ z.pid)
    old x y m there =
        let (z, here) = object-found ps x os i.held (mem-remove_mem x me (objects os) m) in
        let (z', at, s, p) = keep x z here in
        let other : (x == me) ≡ false =
          ground (arith, mem-remove_self me (objects os) i.list.nodup) in
        (z, here, ap (λ (t : XpProc). t.pid) (same_cell (sym there ∙ at)) ∙ p ∙ rw other refl)

pub drops-Implements :
    (fuel me : ℕ) (ps : Procs) (os : List ProcView)
    → Implements ps os
    → mem me (objects os) ≡ true
    → length (objects os) < fuel
    → (ps' : Procs) × (run_op fuel (drops me) ps ≡ some (ps', killed me os))
      × Implements ps' (without me os)
unfolding run_op
drops-Implements fuel me ps os i m lt =
    let (c, here) = object-found ps me os i.held m in
    let (ps', done, l, keep) = proc_dtor-Keeps fuel me ps (objects os) c i.list m here lt in
    let same = objects-without me os i.list.nodup in
    (
      ps',
      done ∙ rw (killed-found ps me os c i.held m here) refl,
      record {
        list = rw same l;
        held = without-Held me ps ps' os keep i.held;
        distinct = rw same (without-Distinct me ps ps' os keep i);
      },
    )
