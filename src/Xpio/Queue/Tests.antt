-- ===== src/Xpio/Queue/Tests.antt =====
-- Tests of luau/xpio_c.c's queues, and the theorems at concrete inputs.
use flake.Common.{
  length, ℕ, ◌≡◌, ◌≢◌, ◌↔◌, refl, Bool, true, none, some, List, [], ◌∷◌, ◌≤◌, ℤ, eq_ℤ, pos, ◌++◌,
  ◌&&◌, ◌==◌, if◌then◌else◌,
}
use flake.Lua.{ok}
use flake.Lua.Table.{Key}
use flake.Lua.Assoc.{assoc}
use flake.Xpio.Proc.Chain.{mem}
use flake.Xpio.Queue.{
  Mode, reader, writer, State, enqueue, queue_from_task, put_entry, put_task, dequeue_task,
  is_empty,
}
use flake.Xpio.Queue.Registry.{registered, IsValid, enqueued}
use flake.Xpio.Queue.Schedule.{dequeue_task-enqueue, enqueue-displaces, is_empty_iff}
use flake.Xpio.Queue.PollSet.{
  PollFd, Build, no_events, poll_set, collect, add_slot, ensure_fds, modify, zero_fd,
}
use flake.Xpio.Queue.PollSet.Index.{watch, NoDupFd}
use flake.Xpio.Queue.PollSet.Watch.{in_use, FdKeys, is_some}
use flake.Xpio.Queue.PollSet.Collect.{wanted, poll_set-watch, poll_set-total}
use flake.Xpio.Queue.Wake.{wake_sockets}
use flake.Xpio.Queue.Wake.Sockets.{AllHeld}
use flake.Xpio.Queue.Wake.Events.{is_ready}
use flake.Xpio.Queue.Wake.Ready.{wake_sockets-is_ready, wake_sockets-woken}
use flake.Xpio.GrowArray.{grow_array}
use flake.Xpio.Queue.Sample.{
  calm, reading, enqueue-reading, reading-IsValid, reading_other, reading_table, both, both-IsValid,
  both_tables,
}

-- Where the task 2 waits to read, too, the task 1 is lost.
abbrev displaced : State assoc
displaced = enqueued assoc reading 9 2 (Key.fd (pos 5)) reader

enqueue-displaced : enqueue assoc reading 2 (Key.fd (pos 5)) reader ≡ ok displaced
unfolding enqueue queue_from_task put_task put_entry
enqueue-displaced = refl

dequeue_task-enqueue_example :
    (u : State assoc) × (dequeue_task assoc reading 1 reader ≡ ok u)
    × (registered assoc u 9 reader (Key.fd (pos 5)) ≡ none)
    × ((u.tasks 1).dequeue ≡ none)
dequeue_task-enqueue_example =
    dequeue_task-enqueue assoc calm reading 9 1 9 (Key.fd (pos 5)) (Key.fd (pos 5)) reader reader
      refl refl enqueue-reading

enqueue-displaces_example :
    (registered assoc displaced 9 reader (Key.fd (pos 5)) ≢ some 1)
    × ((displaced.tasks 1).dequeue ≡ some reader)
enqueue-displaces_example =
    enqueue-displaces assoc reading displaced 9 2 1 9 (Key.fd (pos 5)) (Key.fd (pos 5)) reader
      reader reading-IsValid reading_other reading_table enqueue-displaced

is_empty_iff_example :
    (is_empty assoc both 9 ≡ true)
    ↔ ((mode : Mode) (key : Key) → registered assoc both 9 mode key ≡ none)
is_empty_iff_example = is_empty_iff assoc both 9

-- One element for the descriptor, with both flags, and one that is not in use.
abbrev memory : ℕ → Bool
memory n = true

abbrev watched : PollFd
watched = record { fd = pos 5; want_in = true; want_out = true; revents = no_events }

abbrev built : Build
built = record {
  pfds = watched ∷ zero_fd ∷ [];
  used = 1;
  slots = λ g. if eq_ℤ g (pos 5) then some 0 else none;
}

poll_set-both : poll_set assoc memory [] (both.queues 9) ≡ ok built
unfolding poll_set collect add_slot ensure_fds modify grow_array put_task put_entry
poll_set-both = refl

both_keys :
    FdKeys (assoc.entries (both.queues 9).readers) × FdKeys (assoc.entries (both.queues 9).writers)
unfolding put_task put_entry
both_keys = (tt, tt)

poll_set-watch_example :
    (1 ≤ 2)
    × NoDupFd (in_use built)
    × (watch (pos 5) (in_use built)
        ≡ wanted
            (is_some (assoc.get (both.queues 9).readers (Key.fd (pos 5))))
            (is_some (assoc.get (both.queues 9).writers (Key.fd (pos 5)))))
poll_set-watch_example =
    poll_set-watch assoc memory [] (both.queues 9) built (pos 5) both_keys.0 both_keys.1
      poll_set-both

poll_set-total_example :
    (b : Build) × (poll_set assoc memory [] (both.queues 9) ≡ ok b)
    × (b.used ≤ length b.pfds)
    × NoDupFd (in_use b)
    × ((f : ℤ)
        → watch f (in_use b)
          ≡ wanted
              (is_some (assoc.get (both.queues 9).readers (Key.fd f)))
              (is_some (assoc.get (both.queues 9).writers (Key.fd f))))
unfolding put_task put_entry
poll_set-total_example = poll_set-total assoc memory [] (both.queues 9) (λ n. refl) tt tt

-- `poll` says that the descriptor can be written to.
abbrev polled : List PollFd
polled = record watched { revents = record no_events { out_ready = true } } ∷ []

polled-AllHeld : AllHeld assoc 9 both polled
unfolding put_task put_entry
polled-AllHeld = (refl, refl, tt)

wake_sockets-is_ready_example :
    (t : State assoc) × (ws : List ℕ) × (wake_sockets assoc 9 polled both [] ≡ ok (t, [] ++ ws))
    × IsValid assoc t
    × ((r : ℕ) (mode : Mode) (f : ℤ)
        → registered assoc t r mode (Key.fd f) ≡ (
            if (r == 9) && is_ready mode f polled
            then none
            else registered assoc both r mode (Key.fd f)))
    × ((i : ℕ)
        → t.tasks i ≡ (if mem i ws then record (both.tasks i) { dequeue = none } else both.tasks i))
wake_sockets-is_ready_example =
    wake_sockets-is_ready assoc 9 both polled [] both-IsValid (refl, tt) polled-AllHeld

wake_sockets-woken_example :
    (t : State assoc) × (ws : List ℕ) × (wake_sockets assoc 9 polled both [] ≡ ok (t, [] ++ ws))
    × (mem 2 ws ≡ true)
    × ((t.tasks 2).dequeue ≡ none)
wake_sockets-woken_example =
    wake_sockets-woken assoc 9 both polled [] writer (pos 5) 2 (refl, tt) polled-AllHeld
      both_tables.1 refl
