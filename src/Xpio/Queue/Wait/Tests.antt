-- ===== src/Xpio/Queue/Wait/Tests.antt =====
-- Tests of luau/xpio_c.c's `xpqueue_wait`, and the theorems at concrete inputs.
use flake.Common.{
  length, ◌⊎◌, ℕ, ℤ, ◌≡◌, refl, true, false, none, some, List, [], ◌∷◌, arith, pos, minus_one, ◌==◌,
  if◌then◌else◌, subst, ==_iff,
}
use flake.Lua.{Result, ok}
use flake.Lua.Table.{Key}
use flake.Lua.Assoc.{assoc}
use flake.Xpio.GrowArray.{grow_array}
use flake.Xpio.Proc.{
  Procs, child, update, reap, drain_pipe, reap_children, mark_exited, proc_is_exited,
}
use flake.Xpio.Proc.Chain.{mem}
use flake.Xpio.Queue.{child_waiter, State, enqueue, queue_from_task, put_entry, put_task, is_empty}
use flake.Xpio.Queue.Registry.{registered, IsValid, enqueued}
use flake.Xpio.Queue.Schedule.{enqueue-IsValid}
use flake.Xpio.Queue.Sample.{calm, both, both-IsValid}
use flake.Xpio.Queue.PollSet.{
  PollFd, Revents, no_events, poll_set, collect, add_slot, ensure_fds, modify,
}
use flake.Xpio.Queue.Wake.{wake_sockets, wake_if, wake_one, clear_dequeue, wake_children}
use flake.Xpio.Queue.Wait.{
  World, polled, interrupted, absent, seconds, whole, timeout_of, Waited, wait, poll_and_wake,
  poll_loop, set_revents, add_sig_pipe, is_signalled, shorten, wake_reaped,
}
use flake.Xpio.Queue.Wait.Stages.{Wakes}
use flake.Xpio.Queue.Wait.Reaped.{ProcsKnown}
use flake.Xpio.Queue.Wait.Polled.{Replies, Asks, CanWait}
use flake.Xpio.Proc.Reap.{outcome}
use flake.Xpio.Queue.Wait.Children.{is_exited_key}
use flake.Xpio.Queue.Wait.Signalled.{Prepared}
use flake.Xpio.Queue.Wait.Ended.{PipeReadable, wait-ended}
use flake.Xpio.Queue.Wait.Complete.{wait-Wakes, wait-mem}

-- The task 3 waits for the child 7, whose object is at 100; the tasks 1 and 2 wait for the descriptor 5.
abbrev three : State assoc
three = enqueued assoc both 9 3 (Key.proc 100) child_waiter

enqueue-three : enqueue assoc both 3 (Key.proc 100) child_waiter ≡ ok three
unfolding enqueue queue_from_task put_task put_entry
enqueue-three = refl

three-IsValid : IsValid assoc three
three-IsValid =
    enqueue-IsValid assoc both three 3 (Key.proc 100) child_waiter both-IsValid enqueue-three

abbrev one : Procs
one = record {
  head = 100;
  cells = λ a. if a == 100 then some (record { next = 0; pid = pos 7; status = 0 }) else none;
}

-- `poll` is interrupted once; then the descriptor can be written to, and the signal pipe be read.
abbrev flags : ℕ → Revents
flags i =
    if i == 0 then record no_events { out_ready = true } else record no_events { in_ready = true }

abbrev replies : Replies
replies fds t = flags

abbrev world : World
world = record {
  poll = λ fds timeout. interrupted ∷ polled flags ∷ [];
  reads = pos 1 ∷ [];
  waits = child 7 256 ∷ [];
  malloc = λ n. true;
  sig_pipe = pos 4;
}

three-ProcsKnown : ProcsKnown assoc 9 three one
unfolding put_task put_entry proc_is_exited
three-ProcsKnown (Key.fd f) e = cc
three-ProcsKnown (Key.proc p) e =
    (false, subst (λ a. proc_is_exited one a ≡ some false) ((==_iff 100 p).0 (ground arith)) refl)

three-CanWait : CanWait assoc 9 2 world one three replies
unfolding put_task put_entry
three-CanWait = record {
  valid = three-IsValid;
  readers = tt;
  writers = tt;
  children = three-ProcsKnown;
  memory = λ n. refl;
  objects = record {
    objs = 100 ∷ [];
    chain = (refl, omega arith, record { next = 0; pid = pos 7; status = 0 }, refl, refl);
    distinct = λ a b c d ma mb ca cb e p. ground arith;
    pids = (omega arith, tt);
    enough = omega arith;
  };
  answers = λ fds timeout asks. (1, refl);
}

three_waits : is_empty assoc three 9 ≡ false
unfolding is_empty put_task put_entry
three_waits = refl

one_second : timeout_of (seconds (whole 1000)) ≡ ok (pos 1000)
unfolding timeout_of
one_second = refl

no_timeout : timeout_of absent ≡ ok minus_one
unfolding timeout_of
no_timeout = refl

wait-Wakes_example :
    (r : Waited assoc) × (ready : List ℕ) × (asked : List PollFd) × (t : ℤ) × ((t ≡ pos 1000)
      ⊎ (t ≡ pos 0))
    × (asks : Asks assoc 9 world three asked) × (wait assoc 2 world 9
          (seconds (whole 1000))
          []
          one
          three
        ≡ ok r)
    × (r.ready ≡ some ready)
    × Wakes assoc 9 three r.procs
        (set_revents (replies asked t) 0 (length asks.sockets) asks.sockets)
        r.state
        ready
wait-Wakes_example =
    wait-Wakes assoc 9 2 world (seconds (whole 1000)) (pos 1000) [] one three replies three-CanWait
      one_second refl

abbrev value : Waited assoc → Result (Waited assoc) → Waited assoc
value w (ok v) = v
value w _ = w

abbrev waited : Waited assoc
waited =
    value (record { state = calm; procs = one; pfds = []; ready = none })
      (wait assoc 2 world 9 (seconds (whole 1000)) [] one three)

wait-three : wait assoc 2 world 9 (seconds (whole 1000)) [] one three ≡ ok waited
unfolding wait timeout_of poll_set collect add_slot ensure_fds modify grow_array wake_children
    add_sig_pipe shorten poll_and_wake poll_loop set_revents wake_sockets wake_if wake_one
    clear_dequeue put_entry put_task is_signalled wake_reaped reap drain_pipe reap_children
    mark_exited update proc_is_exited
wait-three = refl

-- The task 2 can write, and the child of the task 3 has been reaped; the task 1 still waits.
three_ready : waited.ready ≡ some (2 ∷ 3 ∷ [])
unfolding wait timeout_of poll_set collect add_slot ensure_fds modify grow_array wake_children
    add_sig_pipe shorten poll_and_wake poll_loop set_revents wake_sockets wake_if wake_one
    clear_dequeue put_entry put_task is_signalled wake_reaped reap drain_pipe reap_children
    mark_exited update proc_is_exited
three_ready = refl

three_tables :
    (registered assoc three 9 child_waiter (Key.proc 100) ≡ some 3)
    × (registered assoc waited.state 9 child_waiter (Key.proc 100) ≡ none)
unfolding wait timeout_of poll_set collect add_slot ensure_fds modify grow_array wake_children
    add_sig_pipe shorten poll_and_wake poll_loop set_revents wake_sockets wake_if wake_one
    clear_dequeue put_entry put_task is_signalled wake_reaped reap drain_pipe reap_children
    mark_exited update proc_is_exited
three_tables = (refl, refl)

wait-mem_example : mem 3 (2 ∷ 3 ∷ []) ≡ true
wait-mem_example =
    wait-mem assoc 9 2 world (seconds (whole 1000)) (pos 1000) [] one three replies waited
      (2 ∷ 3 ∷ []) child_waiter (Key.proc 100) 3 three-CanWait one_second refl wait-three
      three_ready three_tables.0 three_tables.1

calm-is_empty : is_empty assoc calm 9 ≡ true
unfolding is_empty
calm-is_empty = refl

-- All that `poll` watches can be read.
abbrev all_readable : World
all_readable = record world {
  poll = λ fds timeout. interrupted ∷ polled (λ i. record no_events { in_ready = true }) ∷ [];
}

all-PipeReadable : PipeReadable all_readable
all-PipeReadable fds t watched =
    (λ i. record no_events { in_ready = true }, (1, refl), λ i p at same. refl)

abbrev three-Prepared : Prepared assoc 9 2 all_readable one three
three-Prepared = record {
  valid = three-CanWait.valid;
  readers = three-CanWait.readers;
  writers = three-CanWait.writers;
  children = three-ProcsKnown;
  memory = λ n. refl;
  objects = record {
    objs = 100 ∷ [];
    chain = (refl, omega arith, record { next = 0; pid = pos 7; status = 0 }, refl, refl);
    distinct = λ a b c d ma mb ca cb e p. ground arith;
    pids = (omega arith, tt);
    enough = omega arith;
  };
}

three_registered : registered assoc three 9 child_waiter (Key.proc 100) ≡ some 3
unfolding put_task put_entry
three_registered = refl

three_runs : is_exited_key one (Key.proc 100) ≡ false
unfolding proc_is_exited
three_runs = refl

pipe_drained : drain_pipe all_readable.reads false ≡ true
unfolding drain_pipe
pipe_drained = refl

child_reported :
    (outcome all_readable.waits (record { next = 0; pid = pos 7; status = 0 })).pid ≡ pos 0
child_reported = refl

wait-ended_example :
    (r : Waited assoc) × (ready : List ℕ) × (wait assoc 2 all_readable 9
        (seconds (whole 1000))
        []
        one
        three
      ≡ ok r)
    × (r.ready ≡ some ready)
    × (mem 3 ready ≡ true)
wait-ended_example =
    wait-ended assoc 9 2 all_readable (seconds (whole 1000)) (pos 1000) [] one three 100 3
      (record { next = 0; pid = pos 7; status = 0 }) three-Prepared all-PipeReadable one_second
      three_registered three_runs pipe_drained refl refl child_reported
