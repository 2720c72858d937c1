-- ===== src/Xpio/Proc/Tests.antt =====
-- Tests of luau/xpio_c.c's process objects, and the theorems at concrete inputs.
use flake.Common.{
  ℕ, ◌≡◌, refl, Bool, true, false, none, some, [], ◌∷◌, arith, ◌==◌, if◌then◌else◌, pos,
}
use flake.Lua.{integer, string}
use flake.Xpio.Proc.{
  XpProc, Cells, Procs, child, reap_children, mark_exited, drain_pipe, reap, update, proc_try_wait,
}
use flake.Xpio.Proc.Chain.{Chain}
use flake.Xpio.Proc.Unlink.{IsList}
use flake.Xpio.Proc.Status.{killed, encode, proc_try_wait-encode}
use flake.Xpio.Proc.Signals.{Pc, Sys, Steps, IsQuiet, no_lost_exit, early_exit-lost}
use flake.Xpio.Proc.Signals

abbrev proc : ℕ → ℕ → XpProc
proc next pid = record { next = next; pid = pos pid; status = 0 }

-- Two objects, at 200 and 100, whose children have the PIDs 8 and 7.
abbrev two_cells : Cells
two_cells a = if a == 200 then some (proc 100 8) else if a == 100 then some (proc 0 7) else none

abbrev two : Procs
two = record { head = 200; cells = two_cells }

two-Chain : Chain two_cells 200 (200 ∷ 100 ∷ [])
two-Chain = (refl, omega arith, proc 100 8, refl, (refl, omega arith, proc 0 7, refl, refl))

two-IsList : IsList two (200 ∷ 100 ∷ [])
two-IsList = record { chain = two-Chain; nodup = (refl, (refl, tt)) }

reap-two :
    (n : ℕ) × (reap 3 (pos 32 ∷ pos 1 ∷ []) (child 7 256 ∷ []) two
      ≡ some (
        record {
          head = 200;
          cells = update two_cells 100 (record { next = 0; pid = pos 0; status = 256 });
        },
        n,
      ))
unfolding reap drain_pipe reap_children mark_exited
reap-two = (1, refl)

proc_try_wait-encode_example :
    proc_try_wait (record { next = 0; pid = pos 0; status = 9 })
    ≡ string "signal" ∷ integer (pos 0) ∷ []
unfolding encode
proc_try_wait-encode_example =
    proc_try_wait-encode (record { next = 0; pid = pos 0; status = 9 }) (killed 9 false)
      (omega arith) refl

abbrev started : Bool → Pc → ℕ → Sys
started on pc alive = record {
  alive = alive;
  zombies = 0;
  installed = on;
  pending = false;
  handling = false;
  pipe = 0;
  pc = pc;
}

no_lost_exit_example : (started true Pc.outside 0).zombies ≡ 0
unfolding Signals.after_read
no_lost_exit_example =
    no_lost_exit (started true Pc.outside 1) (started true Pc.outside 0) refl refl
      (Signals.next
        (Signals.next
          (Signals.next
            (Signals.next
              (Signals.next
                (Signals.next (Signals.next Signals.here (Signals.ends (omega arith)))
                  (Signals.deliver refl refl))
                (Signals.write refl))
              (Signals.reap refl (omega arith)))
            (Signals.read {received = false} refl))
          (Signals.waitpid refl (omega arith)))
        (Signals.no_child refl refl))
      (record { idle = refl; unsignalled = refl; unhandled = refl; dry = refl })

early_exit-lost_example :
    (t : Sys) × Steps (started false Pc.forked 1) t
    × IsQuiet t
    × (t.installed ≡ true)
    × (t.zombies ≡ 1)
early_exit-lost_example =
    early_exit-lost (started false Pc.forked 1) refl refl refl refl refl (omega arith)
