-- ===== src/Xpio/Tasks/Tests.antt =====
-- The refinement of the task queues at a concrete run: two tasks wait for a descriptor, the one to read
-- and the other to write; `poll` says that it can be written to.
use flake.Common.{ℕ, ◌≡◌, refl, true, false, none, some, List, [], ◌∷◌, arith, pos}
use flake.Lua.{Result, ok}
use flake.Lua.Table.{Key}
use flake.Lua.Assoc.{assoc}
use flake.Xpio.GrowArray.{grow_array}
use flake.Xpio.Proc.{Procs}
use flake.Xpio.Queue.{Mode, reader, writer, child_waiter, put_entry, put_task}
use flake.Xpio.Queue.Registry.{registered}
use flake.Xpio.Queue.Sample.{calm, reading, both, calm-IsValid, enqueue-reading, enqueue-both}
use flake.Xpio.Queue.PollSet.{Revents, no_events, poll_set, collect, add_slot, ensure_fds, modify}
use flake.Xpio.Queue.Wake.{wake_sockets, wake_if, wake_one, clear_dequeue, wake_children}
use flake.Xpio.Queue.Wait.{
  World, polled, interrupted, seconds, whole, timeout_of, Waited, wait, poll_and_wake, poll_loop,
  set_revents, add_sig_pipe, is_signalled, shorten,
}
use flake.Xpio.Methods.{when_read, when_write}
use flake.Xpio.Tasks.{
  Abstract, Event, scheduled_on, returned, Implements, Environment, Run, SpecRun, when_read_step,
  when_write_step, wait_step,
}
use flake.Xpio.Tasks.Refines.{Run-Implements}

abbrev nobody : Abstract
nobody = record { waits = λ q mode key. none; scheduled = λ t. false }

calm-registered : (q : ℕ) (mode : Mode) (key : Key) → registered assoc calm q mode key ≡ none
calm-registered q reader key = refl
calm-registered q writer key = refl
calm-registered q child_waiter key = refl

calm-Implements : Implements assoc calm nobody
calm-Implements = record {
  valid = calm-IsValid;
  waits = calm-registered;
  kinds = λ q mode key e. ground (arith, calm-registered q mode key);
  scheduled = λ t. refl;
}

abbrev no_procs : Procs
no_procs = record { head = 0; cells = λ a. none }

abbrev flags : ℕ → Revents
flags i = record no_events { out_ready = true }

abbrev world : World
world = record {
  poll = λ fds timeout. interrupted ∷ polled flags ∷ [];
  reads = [];
  waits = [];
  malloc = λ n. true;
  sig_pipe = pos 4;
}

both-Environment : Environment assoc 9 1 world no_procs both (λ fds t. flags)
unfolding put_task put_entry
both-Environment = record {
  children = λ k e. cc;
  memory = λ n. refl;
  objects = record {
    objs = [];
    chain = refl;
    distinct = λ a b c d ma mb ca cb e p. ground arith;
    pids = tt;
    enough = omega arith;
  };
  answers = λ fds timeout asks. (1, refl);
}

abbrev value : Waited assoc → Result (Waited assoc) → Waited assoc
value w (ok v) = v
value w _ = w

abbrev waited : Waited assoc
waited =
    value (record { state = calm; procs = no_procs; pfds = []; ready = none })
      (wait assoc 1 world 9 (seconds (whole 1000)) [] no_procs both)

wait-both : wait assoc 1 world 9 (seconds (whole 1000)) [] no_procs both ≡ ok waited
unfolding wait timeout_of poll_set collect add_slot ensure_fds modify grow_array wake_children
    add_sig_pipe shorten poll_and_wake poll_loop set_revents wake_sockets wake_if wake_one
    clear_dequeue put_entry put_task is_signalled
wait-both = refl

writer_ready : waited.ready ≡ some (2 ∷ [])
unfolding wait timeout_of poll_set collect add_slot ensure_fds modify grow_array wake_children
    add_sig_pipe shorten poll_and_wake poll_loop set_revents wake_sockets wake_if wake_one
    clear_dequeue put_entry put_task is_signalled
writer_ready = refl

one_second : timeout_of (seconds (whole 1000)) ≡ ok (pos 1000)
unfolding timeout_of
one_second = refl

-- The events, the last one first.
abbrev three_events : List Event
three_events =
    returned 9 (2 ∷ [])
    ∷ scheduled_on 9 2 writer (Key.fd (pos 5))
    ∷ scheduled_on 9 1 reader (Key.fd (pos 5))
    ∷ []

calm-Run : Run assoc three_events calm waited.state
unfolding when_read when_write put_task put_entry
calm-Run =
    Run.then_step _ _ calm both waited.state
      (Run.then_step _ _ calm reading both
        (Run.then_step _ _ calm calm reading (Run.ends calm)
          (when_read_step calm reading 9 (pos 5) 1 refl enqueue-reading))
        (when_write_step reading both 9 (pos 5) 2 refl enqueue-both))
      (wait_step both 9 1 world (seconds (whole 1000)) (pos 1000) [] no_procs (λ fds t. flags)
        waited (2 ∷ []) both-Environment one_second refl wait-both writer_ready)

Run-Implements_example :
    (b : Abstract) × SpecRun three_events nobody b × Implements assoc waited.state b
Run-Implements_example =
    Run-Implements assoc three_events calm waited.state nobody calm-Implements calm-Run
