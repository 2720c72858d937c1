-- ===== src/Xpio/Spawn/Fork.antt =====
-- luau/xpio_c.c: the process object that `xpio__spawn` makes in the parent.
use flake.Common.{
  ℕ, ◌+◌, ◌<◌, ◌≡◌, ◌≢◌, ap, subst, ◌∙◌, true, false, some, List, [], ◌∷◌, arith, ◌==◌,
  if◌then◌else◌, ℤ, pos, eq_ℤ, eq_ℤ_iff, length,
}
use flake.Xpio.Proc.{XpProc, Procs, update, proc_new, proc_dtor}
use flake.Xpio.Proc.Chain.{mem, Chain-keep}
use flake.Xpio.Proc.Unlink.{IsList, remove}
use flake.Xpio.Proc.Destroy.{proc_dtor-IsList, proc_new-IsList}
use flake.Xpio.Spawn.{spawn_parent}

spawn_parent-IsList :
    (fresh : ℕ) (pid : ℤ) (ps : Procs) (objs : List ℕ)
    → IsList ps objs
    → fresh ≢ 0
    → mem fresh objs ≡ false
    → IsList (spawn_parent fresh pid ps) (fresh ∷ objs)
unfolding spawn_parent proc_new update
spawn_parent-IsList fresh pid ps objs l ne new =
    let v = proc_new-IsList fresh ps objs l ne new in
    record {
      chain =
          Chain-keep (proc_new fresh ps).cells (spawn_parent fresh pid ps).cells fresh
            (fresh ∷ objs)
            (λ a c at. (
              (if a == fresh then record { next = ps.head; pid = pid; status = 0 } else c),
              ground arith,
              ground arith,
            ))
            v.chain;
      nodup = v.nodup;
    }

-- If the parent drops the object of a child before it has been reaped, `xpproc_dtor` calls `kill` once,
-- with the value that `fork` returned, and the list is again what it was. A failed `fork` is no
-- exception: `kill` is then called with -1, which stands for every process.
pub proc_dtor-spawn_parent :
    (fuel fresh : ℕ) (pid : ℤ) (ps : Procs) (objs : List ℕ)
    → IsList ps objs
    → fresh ≢ 0
    → mem fresh objs ≡ false
    → pid ≢ pos 0
    → length objs + 1 < fuel
    → (ps' : Procs) × (proc_dtor fuel fresh (spawn_parent fresh pid ps) ≡ some (ps', pid ∷ []))
      × IsList ps' objs
unfolding spawn_parent update
proc_dtor-spawn_parent fuel fresh pid ps objs l ne new alive lt =
    let c : XpProc = record { next = ps.head; pid = pid; status = 0 } in
    let spawned : Procs = spawn_parent fresh pid ps in
    let here : spawned.cells fresh ≡ some c = ground arith in
    let first : (fresh == fresh) ≡ true = ground arith in
    let running : eq_ℤ pid (pos 0) ≡ false = ground (arith, (eq_ℤ_iff pid (pos 0)).0) in
    let (ps', done, left, _, _, _, _) =
      proc_dtor-IsList fuel fresh fresh spawned (fresh ∷ objs) c c
        (spawn_parent-IsList fresh pid ps objs l ne new) (ground arith) here here (omega arith) in
    (
      ps',
      done ∙ ap (λ b. some (ps', (if b then [] else pid ∷ []))) running,
      subst (IsList ps') (ap (λ b. if b then objs else fresh ∷ remove fresh objs) first) left,
    )
