-- ===== src/Xpio/Children/Refines.antt =====
-- luau/xpio_c.c: spawning, destroying and reaping, one after another, against the abstract view.
use flake.Common.{ℕ, ◌<◌, ◌≡◌, refl, List, [], ◌∷◌, some, length}
use flake.Xpio.Proc.{Procs}
use flake.Xpio.Children.{
  ProcView, objects, Implements, Op, spawns, drops, reaps, Allowed, AllowedOps, apply, kills,
  run_op, run_ops, apply_ops, kills_ops,
}
use flake.Xpio.Children.Spawned.{spawn_parent-Implements}
use flake.Xpio.Children.Dropped.{drops-Implements}
use flake.Xpio.Children.Reaped.{reaps-Implements}
use flake.Xpio.Spawn.{spawn_parent}

run_op-Implements :
    (fuel : ℕ) (op : Op) (ps : Procs) (os : List ProcView)
    → Implements ps os
    → Allowed op os
    → length (objects os) < fuel
    → (ps' : Procs) × (run_op fuel op ps ≡ some (ps', kills op os)) × Implements ps' (apply op os)
unfolding run_op
run_op-Implements fuel (spawns fresh pid) ps os i a lt =
    (spawn_parent fresh pid ps, refl, spawn_parent-Implements fresh pid ps os i a)
run_op-Implements fuel (drops me) ps os i a lt = drops-Implements fuel me ps os i a lt
run_op-Implements fuel (reaps reads ws) ps os i a lt = reaps-Implements fuel reads ws ps os i a lt

-- The list of process objects implements the abstract view: any sequence of spawns, destructions and
-- reaps, each done when it may be, returns, and the objects left have the addresses, PIDs and
-- statuses of the abstract ones. A reap gives each object the first status that is reported for its
-- PID, and the PID 0. A destruction takes one object away, and calls `kill` with the PID it holds,
-- unless that is 0: the calls are those of the abstract operations, in their order. Memory is new,
-- no running child has the PID that `fork` returns, an object is dropped while it is in the list,
-- `waitpid` reports positive PIDs, and the fuel exceeds the length of the list at each operation.
pub run_ops-Implements :
    (fuel : ℕ) (ops : List Op) (ps : Procs) (os : List ProcView)
    → Implements ps os
    → AllowedOps fuel ops os
    → (ps' : Procs) × (run_ops fuel ops ps ≡ some (ps', kills_ops ops os))
      × Implements ps' (apply_ops ops os)
unfolding run_ops
run_ops-Implements fuel [] ps os i a = (ps, refl, i)
run_ops-Implements fuel (op ∷ ops) ps os i (a, lt, rest) =
    let (ps1, done, i1) = run_op-Implements fuel op ps os i a lt in
    let (ps2, done2, i2) = run_ops-Implements fuel ops ps1 (apply op os) i1 rest in
    (ps2, rw (run_ops, done) (rw done2 refl), i2)
