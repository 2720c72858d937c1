-- ===== src/Xpio/Proc/Destroy.antt =====
-- luau/xpio_c.c: `xpproc_new` and `xpproc_dtor` keep the list of process objects.
use flake.Common.{
  ℕ, ◌<◌, ◌≡◌, ◌≢◌, refl, ◌∙◌, true, false, some, List, [], ◌∷◌, arith, ◌==◌, if◌then◌else◌, pos,
  eq_ℤ, eq_ℤ_iff, length, Bool-cases, inl, inr,
}
use flake.Xpio.Proc.{
  XpProc, Procs, head_slot, store, update, dequeue_proc, kill_if_running, proc_dtor, proc_new,
}
use flake.Xpio.Proc.Chain.{Chain-keep, mem}
use flake.Xpio.Proc.Unlink.{
  NoDup, IsList, remove, pred_slot, load-head_slot, head-load, dequeue_proc-store, Chain-store,
  store-Keeps, Chain-agree,
}

kill_if_running_lem :
    (me : ℕ) (ps : Procs) (c : XpProc)
    → ps.cells me ≡ some c
    → (ps' : Procs) × (kill_if_running me ps
        ≡ some (ps', (if eq_ℤ c.pid (pos 0) then [] else c.pid ∷ [])))
      × (ps'.head ≡ ps.head)
      × ((b : ℕ) (d : XpProc)
          → ps.cells b ≡ some d
          → (d' : XpProc) × (ps'.cells b ≡ some d')
            × (d'.next ≡ d.next)
            × (d'.status ≡ d.status)
            × (d'.pid ≡ (if b == me then pos 0 else d.pid)))
unfolding kill_if_running update
kill_if_running_lem me ps c here = elim (Bool-cases (eq_ℤ c.pid (pos 0))) [
  | inl idle ↦
      (ps, ground arith, refl, λ b d e. (d, e, refl, refl, ground (arith, eq_ℤ_iff c.pid (pos 0))))
  | inr live ↦ (
    record ps { cells = update ps.cells me (record c { pid = pos 0 }) },
    ground arith,
    refl,
    λ b d e. (
      (if b == me then record d { pid = pos 0 } else d),
      ground arith,
      ground arith,
      ground arith,
      ground arith,
    ),
  )
]

mem-remove : (b me : ℕ) (objs : List ℕ) → mem b objs ≡ false → mem b (remove me objs) ≡ false
mem-remove b me [] h = refl
mem-remove b me (a ∷ objs) h = ground (arith, mem-remove b me objs)

NoDup-remove : (me : ℕ) (objs : List ℕ) → NoDup objs → NoDup (remove me objs)
NoDup-remove me [] h = tt
NoDup-remove me (a ∷ objs) h = ground (arith, NoDup-remove me objs h.1, mem-remove a me objs)

proc_dtor_steps :
    (fuel me : ℕ) (ps ps' : Procs) (c : XpProc)
    → ps.cells me ≡ some c
    → dequeue_proc fuel me c.next head_slot ps ≡ some ps'
    → proc_dtor fuel me ps ≡ kill_if_running me ps'
unfolding proc_dtor
proc_dtor_steps fuel me ps ps' c here e = rw (here, e, proc_dtor)

-- `xpproc_dtor` takes an object off the list and leaves a list of the others. It calls `kill` once,
-- with the PID, exactly when the PID is not 0, and sets the PID to 0; the PIDs of the other objects
-- and every status stay. The fuel exceeds the length of the list.
pub proc_dtor-IsList :
    (fuel me b : ℕ) (ps : Procs) (objs : List ℕ) (c d : XpProc)
    → IsList ps objs
    → mem me objs ≡ true
    → ps.cells me ≡ some c
    → ps.cells b ≡ some d
    → length objs < fuel
    → (ps' : Procs) × (proc_dtor fuel me ps
        ≡ some (ps', (if eq_ℤ c.pid (pos 0) then [] else c.pid ∷ [])))
      × IsList ps' (remove me objs)
      × (d' : XpProc) × (ps'.cells b ≡ some d')
      × (d'.status ≡ d.status)
      × (d'.pid ≡ (if b == me then pos 0 else d.pid))
unfolding store
proc_dtor-IsList fuel me b ps objs c d l m here there lt =
    let ps1 = store ps (pred_slot head_slot me objs) c.next in
    let (q, ld, tail) =
      Chain-store ps me c head_slot ps.head objs (load-head_slot ps) l.chain l.nodup tt m here in
    let (c1, here1, cp, cs) = store-Keeps ps (pred_slot head_slot me objs) c.next me c here in
    let (d1, there1, dp, ds) = store-Keeps ps (pred_slot head_slot me objs) c.next b d there in
    let (ps2, killed, hd, keep) = kill_if_running_lem me ps1 c1 here1 in
    let (d2, there2, dn, ds2, dp2) = keep b d1 there1 in
    let unlinked : dequeue_proc fuel me c.next head_slot ps ≡ some ps1 =
      dequeue_proc-store fuel me c.next head_slot ps ps.head objs (load-head_slot ps) l.chain lt
      ∙ rw m refl in
    (
      ps2,
      proc_dtor_steps fuel me ps ps1 c here unlinked ∙ killed ∙ rw cp refl,
      record {
        chain =
            rw (hd, head-load ps1 q ld)
              (Chain-keep ps1.cells ps2.cells q (remove me objs)
                (λ a x e. let k = keep a x e in (k.0, k.1, k.2)) tail);
        nodup = NoDup-remove me objs l.nodup;
      },
      d2,
      there2,
      ds2 ∙ ds,
      dp2 ∙ rw dp refl,
    )

-- `xpproc_new` puts the new object, whose memory no object of the list has, at the front.
pub proc_new-IsList :
    (fresh : ℕ) (ps : Procs) (objs : List ℕ)
    → IsList ps objs
    → fresh ≢ 0
    → mem fresh objs ≡ false
    → IsList (proc_new fresh ps) (fresh ∷ objs)
unfolding proc_new update
proc_new-IsList fresh ps objs l ne new = record {
  chain = (
    refl,
    ne,
    record { next = ps.head; pid = pos 0; status = 0 },
    ground arith,
    Chain-agree ps.cells _ ps.head objs (λ b m. ground arith) l.chain,
  );
  nodup = (new, l.nodup);
}
