-- ===== src/Xpio/Children.antt =====
-- luau/xpio_c.c: what the process objects promise. The abstract view is the list of the objects with
-- their PIDs and statuses; the operations are those that change the global list.
pub mod Reported
pub mod Found
pub mod Spawned
pub mod Dropped
pub mod Reaped
pub mod Refines
mod Tests
use flake.Common.{
  ℕ, ◌<◌, ◌≡◌, ◌≢◌, Bool, true, false, ◌&&◌, Option, none, some, List, [], ◌∷◌, ◌++◌, map, ◌==◌,
  if◌then◌else◌, ℤ, pos, eq_ℤ, is_positive, All, length,
}
use flake.Xpio.Proc.{
  XpProc, Procs, WaitResult, child, running, interrupted, failed, drain_pipe, reap, proc_dtor,
}
use flake.Xpio.Proc.Chain.{mem, Distinct}
use flake.Xpio.Proc.Reap.{Pids}
use flake.Xpio.Proc.Unlink.{IsList}
use flake.Xpio.Spawn.{spawn_parent}

-- A process object by its address, with what it says of the child.
pub record ProcView : Type 0 where
  pub object : ℕ
  pub pid : ℤ
  pub status : ℕ

abbrev pub objects : List ProcView → List ℕ
objects [] = []
objects (o ∷ os) = o.object ∷ objects os

-- What is done to the list: `xpio__spawn` in the parent with what `fork` returned, the destructor, and
-- `xpproc_reap` with what `read` and `waitpid` return.
pub data Op : Type 0 where
  spawns : (fresh : ℕ) → (pid : ℤ) → Op
  drops : (me : ℕ) → Op
  reaps : (reads : List ℤ) → (ws : List WaitResult) → Op

-- A child takes the first status that is reported for its PID, and is then known as exited.
abbrev pub reported : List WaitResult → ProcView → ProcView
reported [] o = o
reported (child pid status ∷ ws) o =
    let rest = reported ws o in
    if eq_ℤ o.pid (pos pid) then record o { pid = pos 0; status = status } else rest
reported (interrupted ∷ ws) o = reported ws o
reported (running ∷ ws) o = o
reported (failed ∷ ws) o = o

abbrev pub without : (me : ℕ) → List ProcView → List ProcView
without me [] = []
without me (o ∷ os) = let rest = without me os in if o.object == me then rest else o ∷ rest

-- The argument of `kill` when an object is dropped, if it is called.
abbrev pub killed : (me : ℕ) → List ProcView → List ℤ
killed me [] = []
killed me (o ∷ os) =
    let rest = killed me os in
    if o.object == me then if eq_ℤ o.pid (pos 0) then [] else o.pid ∷ [] else rest

-- The operations on the abstract view, and the arguments of `kill`.
abbrev pub apply : Op → List ProcView → List ProcView
apply (spawns fresh pid) os = record { object = fresh; pid = pid; status = 0 } ∷ os
apply (drops me) os = without me os
apply (reaps reads ws) os = if drain_pipe reads false then map (reported ws) os else os

abbrev pub kills : Op → List ProcView → List ℤ
kills (spawns fresh pid) os = []
kills (drops me) os = killed me os
kills (reaps reads ws) os = []

-- When the system and Lua do them: memory is new, no running child has the PID that `fork` returns, an
-- object is dropped while it is there, and `waitpid` reports positive PIDs.
abbrev pub Allowed : Op → List ProcView → Type 0
Allowed (spawns fresh pid) os =
    (fresh ≢ 0)
    × (mem fresh (objects os) ≡ false)
    × All (λ o. (is_positive pid && eq_ℤ o.pid pid) ≡ false) os
Allowed (drops me) os = mem me (objects os) ≡ true
Allowed (reaps reads ws) os = Pids ws

-- The code of an operation: the objects, and the arguments of `kill`.
unfoldable pub run_op : (fuel : ℕ) → Op → Procs → Option (Procs × List ℤ)
unfolding spawn_parent proc_dtor reap
run_op fuel (spawns fresh pid) ps = some (spawn_parent fresh pid ps, [])
run_op fuel (drops me) ps = proc_dtor fuel me ps
run_op fuel (reaps reads ws) ps = elim (reap fuel reads ws ps) [
  | none ↦ none
  | some (ps', updated) ↦ some (ps', [])
]

-- A sequence of them.
unfoldable pub run_ops : (fuel : ℕ) → List Op → Procs → Option (Procs × List ℤ)
unfolding run_op
run_ops fuel [] ps = some (ps, [])
run_ops fuel (op ∷ ops) ps = elim (run_op fuel op ps) [
  | none ↦ none
  | some (ps', sent) ↦ elim (run_ops fuel ops ps') [
    | none ↦ none
    | some (ps'', more) ↦ some (ps'', sent ++ more)
  ]
]

abbrev pub apply_ops : List Op → List ProcView → List ProcView
apply_ops [] os = os
apply_ops (op ∷ ops) os = apply_ops ops (apply op os)

abbrev pub kills_ops : List Op → List ProcView → List ℤ
kills_ops [] os = []
kills_ops (op ∷ ops) os = kills op os ++ kills_ops ops (apply op os)

-- Every operation comes when it may, and the fuel is enough for the list at each.
abbrev pub AllowedOps : (fuel : ℕ) → List Op → List ProcView → Type 0
AllowedOps fuel [] os = Unit {0}
AllowedOps fuel (op ∷ ops) os =
    Allowed op os × (length (objects os) < fuel) × AllowedOps fuel ops (apply op os)

-- How the objects and the abstract view are related.
abbrev pub Held : Procs → ProcView → Type 0
Held ps o = (c : XpProc) × (ps.cells o.object ≡ some c) × (c.pid ≡ o.pid) × (c.status ≡ o.status)

pub record Implements (ps : Procs) (os : List ProcView) : Type 0 where
  pub list : IsList ps (objects os)
  pub held : All (Held ps) os
  pub distinct : Distinct ps.cells (objects os)
