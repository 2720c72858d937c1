-- ===== src/Xpio/Tasks.antt =====
-- luau/xpio_c.c: what the task queues promise. The abstract view knows which task waits where, and which
-- tasks are scheduled; the steps are those of a program that uses the library.
pub mod Changes
pub mod Refines
mod Tests
use flake.Common.{
  ℕ, ◌≡◌, ◌≢◌, Bool, true, false, ◌&&◌, Option, none, some, List, [], ◌∷◌, ◌==◌, if◌then◌else◌, ℤ,
  minus_one, eq_ℤ,
}
use flake.Lua.{ok}
use flake.Lua.Table.{Key, key_eq, TableApi}
use flake.Xpio.Proc.{Procs}
use flake.Xpio.Proc.Chain.{mem}
use flake.Xpio.Queue.{
  Mode, reader, writer, child_waiter, Task, State, put_task, dequeue_task, tqueue, is_empty,
}
use flake.Xpio.Queue.Registry.{mode_eq, registered, IsValid}
use flake.Xpio.Queue.PollSet.{PollFd, Revents}
use flake.Xpio.Queue.PollSet.Watch.{is_some}
use flake.Xpio.Queue.Wait.{Timeout, timeout_of, World, Waited, wait}
use flake.Xpio.Queue.Wait.Held.{Answers}
use flake.Xpio.Queue.Wait.Polled.{Replies, Asks}
use flake.Xpio.Queue.Wait.Reaped.{InOrder, ProcsKnown}
use flake.Xpio.Methods.{when_read, when_write, when_wait}

-- The task that waits on a queue in a mode for a key, if one does.
abbrev pub Waits : Type 0
Waits = (q : ℕ) → Mode → Key → Option ℕ

pub record Abstract : Type 0 where
  pub waits : Waits
  pub scheduled : ℕ → Bool

-- One entry changed.
abbrev pub with_wait : Waits → (q : ℕ) → Mode → Key → Option ℕ → Waits
with_wait waits q mode key v r n j =
    if (r == q) && (mode_eq mode n && key_eq key j) then v else waits r n j

abbrev pub with_scheduled : (ℕ → Bool) → (task : ℕ) → Bool → ℕ → Bool
with_scheduled scheduled task b t = if t == task then b else scheduled t

-- What is done: a queue is made; Lua code writes to a task; a task is scheduled on a queue, by
-- `when_read`, `when_write` or `when_wait`; a task is taken back, by its `_dequeue`; or
-- `xpqueue_wait` for a queue returns an array.
pub data Event : Type 0 where
  opened : (fresh : ℕ) → Event
  written : (task : ℕ) → Event
  scheduled_on : (q task : ℕ) → Mode → Key → Event
  taken_back : (q task : ℕ) → Mode → Key → Event
  returned : (q : ℕ) → (ready : List ℕ) → Event

-- The steps of the abstract view.
pub data Spec : Event → Abstract → Abstract → Type 0 where
  -- nothing that it knows of
  idles : (a : Abstract) (task : ℕ) → Spec (written task) a a
  -- a new queue
  opens :
      (a : Abstract) (fresh : ℕ)
      → Spec
          (opened fresh)
          a
          (record a { waits = λ r n j. if r == fresh then none else a.waits r n j })
  -- a task is scheduled that was not; it takes the place of another one
  schedules :
      (a : Abstract) (q task : ℕ) (mode : Mode) (key : Key)
      → a.scheduled task ≡ false
      → Spec (scheduled_on q task mode key) a (record {
        waits = with_wait a.waits q mode key (some task);
        scheduled = with_scheduled a.scheduled task true;
      })
  -- a task that is scheduled is not any more, and nobody waits in its place
  takes_back :
      (a : Abstract) (q task : ℕ) (mode : Mode) (key : Key)
      → a.scheduled task ≡ true
      → Spec (taken_back q task mode key) a (record {
        waits = with_wait a.waits q mode key none;
        scheduled = with_scheduled a.scheduled task false;
      })
  -- some tasks of a queue wait no longer; they are in the array that is returned, and just the tasks in
  -- it are no longer scheduled
  wakes :
      (a : Abstract) (q : ℕ) (ready : List ℕ) (gone : Mode → Key → Bool)
      → ((mode : Mode) (key : Key) (task : ℕ)
          → gone mode key ≡ true
          → a.waits q mode key ≡ some task
          → mem task ready ≡ true)
      → Spec (returned q ready) a (record {
        waits = λ r n j. if (r == q) && gone n j then none else a.waits r n j;
        scheduled = λ t. if mem t ready then false else a.scheduled t;
      })

-- Descriptors are waited for to read and to write, processes to end.
abbrev pub fits : Mode → Key → Bool
fits reader (Key.fd f) = true
fits reader (Key.proc p) = false
fits writer (Key.fd f) = true
fits writer (Key.proc p) = false
fits child_waiter (Key.fd f) = false
fits child_waiter (Key.proc p) = true

abbrev pub is_scheduled : Option Mode → Bool
is_scheduled none = false
is_scheduled (some mode) = true

module _ (T : TableApi) where
  -- What `xpqueue_wait` relies on: memory is had, process objects are in order and cover the waiters of
  -- the queue, and `poll` answers with `rs`, after any number of interruptions.
  pub record Environment (q fuel : ℕ) (w : World) (ps : Procs) (s : State T) (rs : Replies)
      : Type 0 where
    pub children : ProcsKnown T q s ps
    pub memory : (n : ℕ) → w.malloc n ≡ true
    pub objects : InOrder fuel w ps
    pub answers :
        (fds : List PollFd) (timeout : ℤ)
        → Asks T q w s fds
        → Answers (rs fds timeout) (w.poll fds timeout)

  -- The steps of a program: the functions of the library that succeed, and Lua code that writes the
  -- fields of a task that is not scheduled.
  pub data Step : Event → State T → State T → Type 0 where
    tqueue_step : (s : State T) (fresh : ℕ) → Step (opened fresh) s (tqueue T fresh s)
    sets_task :
        (s : State T) (task : ℕ) (f : Task)
        → (s.tasks task).dequeue ≡ none
        → f.dequeue ≡ none
        → Step (written task) s (put_task T s task f)
    when_read_step :
        (s t : State T) (q : ℕ) (fd : ℤ) (task : ℕ)
        → (s.tasks task).queue ≡ some q
        → when_read T s fd task ≡ ok t
        → Step (scheduled_on q task reader (Key.fd fd)) s t
    when_write_step :
        (s t : State T) (q : ℕ) (fd : ℤ) (task : ℕ)
        → (s.tasks task).queue ≡ some q
        → when_write T s fd task ≡ ok t
        → Step (scheduled_on q task writer (Key.fd fd)) s t
    when_wait_step :
        (s t : State T) (q : ℕ) (process task : ℕ)
        → (s.tasks task).queue ≡ some q
        → when_wait T s process task ≡ ok t
        → Step (scheduled_on q task child_waiter (Key.proc process)) s t
    dequeue_step :
        (s t : State T) (q task : ℕ) (mode : Mode) (key : Key)
        → s.tasks task ≡ record { queue = some q; dequeue = some mode; dequeuedata = some key }
        → dequeue_task T s task mode ≡ ok t
        → Step (taken_back q task mode key) s t
    wait_step :
        (s : State T) (q fuel : ℕ) (w : World) (arg : Timeout) (timeout : ℤ) (pfds : List PollFd)
        (ps : Procs) (rs : Replies) (r : Waited T) (ready : List ℕ)
        → Environment q fuel w ps s rs
        → timeout_of arg ≡ ok timeout
        → (eq_ℤ timeout minus_one && is_empty T s q) ≡ false
        → wait T fuel w q arg pfds ps s ≡ ok r
        → r.ready ≡ some ready
        → Step (returned q ready) s r.state

  -- How a state and the abstract view are related.
  pub record Implements (s : State T) (a : Abstract) : Type 0 where
    pub valid : IsValid T s
    pub waits : (q : ℕ) (mode : Mode) (key : Key) → registered T s q mode key ≡ a.waits q mode key
    pub kinds :
        (q : ℕ) (mode : Mode) (key : Key)
        → is_some (registered T s q mode key) ≡ true
        → fits mode key ≡ true
    pub scheduled : (t : ℕ) → is_scheduled (s.tasks t).dequeue ≡ a.scheduled t

  -- Any number of steps, the last event first.
  pub data Run : List Event → State T → State T → Type 0 where
    ends : (s : State T) → Run [] s s
    then_step :
        (e : Event) (es : List Event) (s t u : State T) → Run es s t → Step e t u → Run (e ∷ es) s u

-- The same, of the abstract view.
pub data SpecRun : List Event → Abstract → Abstract → Type 0 where
  ends : (a : Abstract) → SpecRun [] a a
  then_step :
      (e : Event) (es : List Event) (a b c : Abstract)
      → SpecRun es a b
      → Spec e b c
      → SpecRun (e ∷ es) a c
