-- ===== src/Xpio/Children/Tests.antt =====
-- Tests of the process objects of luau/xpio_c.c over sequences of operations, and the theorem at a
-- concrete input.
use flake.Common.{◌≡◌, refl, none, some, List, [], ◌∷◌, arith, pos, minus_one}
use flake.Xpio.Proc.{
  Procs, proc_new, update, child, reap, drain_pipe, reap_children, mark_exited, proc_dtor,
  dequeue_proc, load, store, kill_if_running, Cells,
}
use flake.Xpio.Spawn.{spawn_parent}
use flake.Xpio.Children.{Op, spawns, drops, reaps, Implements, run_op, run_ops, apply_ops}
use flake.Xpio.Children.Refines.{run_ops-Implements}

abbrev no_cells : Cells
no_cells a = none

abbrev no_procs : Procs
no_procs = record { head = 0; cells = no_cells }

-- Two children start, the first exits with 1 and is reaped, and the objects go.
abbrev two_children : List Op
two_children =
    spawns 100 (pos 7)
    ∷ spawns 200 (pos 8)
    ∷ reaps (pos 1 ∷ []) (child 7 256 ∷ [])
    ∷ drops 100
    ∷ drops 200
    ∷ []

two_children-kills :
    (ps' : Procs) × (run_ops 3 two_children no_procs ≡ some (ps', pos 8 ∷ [])) × (ps'.head ≡ 0)
unfolding run_ops run_op spawn_parent proc_new update reap drain_pipe reap_children mark_exited
    proc_dtor dequeue_proc load store kill_if_running
two_children-kills = (_, refl, refl)

-- A `fork` that failed, and an object dropped while a later one stays.
failed_fork :
    apply_ops (spawns 100 minus_one ∷ spawns 200 (pos 8) ∷ drops 100 ∷ []) []
    ≡ record { object = 200; pid = pos 8; status = 0 } ∷ []
failed_fork = refl

no_procs-Implements : Implements no_procs []
no_procs-Implements = record {
  list = record { chain = refl; nodup = tt };
  held = tt;
  distinct = λ a b c d ma mb ca cb e p. absurd (ground (arith, ma));
}

run_ops-Implements_example :
    (ps' : Procs) × (run_ops 3 two_children no_procs ≡ some (ps', pos 8 ∷ [])) × Implements ps' []
unfolding drain_pipe
run_ops-Implements_example = run_ops-Implements 3 two_children no_procs [] no_procs-Implements (
  (omega arith, refl, tt),
  omega arith,
  (
    (omega arith, refl, (refl, tt)),
    omega arith,
    ((omega arith, tt), omega arith, (refl, omega arith, (refl, omega arith, tt))),
  ),
)
