-- ===== src/Xpio/Tasks/Refines.antt =====
-- luau/xpio_c.c: programs that use the task queues run as the abstract view says.
use flake.Common.{
  ℕ, ◌≡◌, refl, ap, ◌∙◌, sym, subst, Bool, true, false, ◌&&◌, none, some, List, [], ◌∷◌, length,
  arith, ◌==◌, ==_iff, if◌then◌else◌, ℤ, minus_one, eq_ℤ, Bool-cases, inl, inr,
}
use flake.Lua.{ok}
use flake.Lua.Table.{Key, key_eq, key_eq_iff, TableApi, Entries, find}
use flake.Xpio.Proc.{Procs}
use flake.Xpio.Proc.Chain.{mem}
use flake.Xpio.Queue.{
  Mode, reader, writer, child_waiter, Task, State, table, enqueue, dequeue_task, is_empty,
}
use flake.Xpio.Queue.Registry.{mode_eq, registered, enqueued, dequeued, dequeue_task-dequeued}
use flake.Xpio.Queue.Schedule.{enqueue_ok}
use flake.Xpio.Queue.PollSet.{PollFd}
use flake.Xpio.Queue.PollSet.Watch.{FdKeys, is_some}
use flake.Xpio.Queue.Wake.Events.{is_ready}
use flake.Xpio.Queue.Wait.{Timeout, timeout_of, World, Waited, wait, set_revents}
use flake.Xpio.Queue.Wait.Children.{is_exited_key}
use flake.Xpio.Queue.Wait.Stages.{Wakes}
use flake.Xpio.Queue.Wait.Polled.{Replies, CanWait}
use flake.Xpio.Queue.Wait.Complete.{wait-Wakes}
use flake.Xpio.Methods.{when_read, when_write, when_wait}
use flake.Xpio.Tasks.{
  Abstract, Event, scheduled_on, taken_back, returned, with_wait, with_scheduled, Spec, idles,
  opens, schedules, takes_back, wakes, fits, is_scheduled, Environment, Step, tqueue_step,
  sets_task, when_read_step, when_write_step, when_wait_step, dequeue_step, wait_step, Implements,
  Run, SpecRun,
}
use flake.Xpio.Tasks.Changes.{
  tqueue-Implements, enqueued-Implements, dequeued-Implements, put_task-Implements,
}

abbrev is_fd : Key → Bool
is_fd (Key.fd f) = true
is_fd (Key.proc p) = false

entries-FdKeys :
    (es : Entries) → ((k : Key) → is_some (find k es) ≡ true → is_fd k ≡ true) → FdKeys es
entries-FdKeys [] h = tt
entries-FdKeys ((Key.fd f, t) ∷ es) h = entries-FdKeys es (λ k e.
    elim (Bool-cases (key_eq (Key.fd f) k)) [ inl c ↦ h k (rw c refl) | inr c ↦ h k (rw c e) ])
entries-FdKeys ((Key.proc p, t) ∷ es) h =
    absurd (ground (arith, h (Key.proc p), (key_eq_iff (Key.proc p) (Key.proc p)).1))

fits_fd :
    (mode : Mode) (key : Key)
    → mode_eq child_waiter mode ≡ false
    → fits mode key ≡ true
    → is_fd key ≡ true
fits_fd reader (Key.fd f) m h = refl
fits_fd writer (Key.fd f) m h = refl
fits_fd reader (Key.proc p) m h = ground arith
fits_fd writer (Key.proc p) m h = ground arith
fits_fd child_waiter key m h = ground arith

-- Which entries of the queue go when `xpqueue_wait` returns.
abbrev gone : (fds : List PollFd) → Procs → Mode → Key → Bool
gone fds ps mode (Key.fd f) = is_ready mode f fds
gone fds ps mode (Key.proc p) = mode_eq child_waiter mode && is_exited_key ps (Key.proc p)

module _ (T : TableApi) where
  table-FdKeys :
      (s : State T) (a : Abstract) (q : ℕ) (mode : Mode)
      → mode_eq child_waiter mode ≡ false
      → Implements T s a
      → FdKeys (T.entries (table T (s.queues q) mode))
  table-FdKeys s a q mode m h = entries-FdKeys (T.entries (table T (s.queues q) mode)) λ k e.
      fits_fd mode k m
        (h.kinds q mode k (ap is_some (sym (T.find-entries (table T (s.queues q) mode) k)) ∙ e))

  registered-gone :
      (s t : State T) (q : ℕ) (ps : Procs) (fds : List PollFd) (ready : List ℕ) (r : ℕ) (n : Mode)
      (j : Key)
      → Wakes T q s ps fds t ready
      → registered T t r n j ≡ (if (r == q) && gone fds ps n j then none else registered T s r n j)
  registered-gone s t q ps fds ready r n (Key.fd f) wk = wk.descriptors r n f
  registered-gone s t q ps fds ready r n (Key.proc p) wk = wk.children r n p

  -- The abstract state after tasks have been woken.
  abbrev after_wait : Abstract → (q : ℕ) → Procs → List PollFd → List ℕ → Abstract
  after_wait a q ps fds ready = record {
    waits = λ r n j. if (r == q) && gone fds ps n j then none else a.waits r n j;
    scheduled = λ t. if mem t ready then false else a.scheduled t;
  }

  Wakes-Implements :
      (s t : State T) (a : Abstract) (q : ℕ) (ps : Procs) (fds : List PollFd) (ready : List ℕ)
      → Wakes T q s ps fds t ready
      → Implements T s a
      → Spec (returned q ready) a (after_wait a q ps fds ready)
        × Implements T t (after_wait a q ps fds ready)
  Wakes-Implements s t a q ps fds ready wk h = (
    wakes a q ready (gone fds ps) (λ mode key task went at. elim (Bool-cases (mem task ready)) [
      | inl there ↦ there
      | inr missing ↦ absurd (
          ground (
            arith,
            registered-gone s t q ps fds ready q mode key wk,
            wk.unlisted mode key task (h.waits q mode key ∙ at) missing,
            (==_iff q q).1,
          ))
    ]),
    record {
      valid = wk.valid;
      waits = λ r n j.
          registered-gone s t q ps fds ready r n j wk
          ∙ ap (λ v. if (r == q) && gone fds ps n j then none else v) (h.waits r n j);
      kinds =
          λ r n j e. h.kinds r n j (ground (arith, registered-gone s t q ps fds ready r n j wk));
      scheduled = λ i. ground (arith, wk.tasks i, h.scheduled i);
    },
  )

  Environment-CanWait :
      (s : State T) (a : Abstract) (q fuel : ℕ) (w : World) (ps : Procs) (rs : Replies)
      → Environment T q fuel w ps s rs
      → Implements T s a
      → CanWait T q fuel w ps s rs
  Environment-CanWait s a q fuel w ps rs e h = record {
    valid = h.valid;
    readers = table-FdKeys s a q reader refl h;
    writers = table-FdKeys s a q writer refl h;
    children = e.children;
    memory = e.memory;
    objects = e.objects;
    answers = e.answers;
  }

  -- A successful `xpqueue_enqueue` schedules the task on its queue.
  enqueue-Implements :
      (s t : State T) (a : Abstract) (q task : ℕ) (mode : Mode) (key : Key)
      → fits mode key ≡ true
      → (s.tasks task).queue ≡ some q
      → enqueue T s task key mode ≡ ok t
      → Implements T s a
      → (b : Abstract) × Spec (scheduled_on q task mode key) a b × Implements T t b
  enqueue-Implements s t a q task mode key fit at done h =
      let (q', home, idle, same') = enqueue_ok T s t task key mode done in
      let here : q' ≡ q = ground (arith, sym home ∙ at) in
      let same : enqueued T s q task key mode ≡ t =
        ap (λ x. enqueued T s x task key mode) (sym here) ∙ same' in
      (
        record {
          waits = with_wait a.waits q mode key (some task);
          scheduled = with_scheduled a.scheduled task true;
        },
        schedules a q task mode key (sym (h.scheduled task) ∙ ap is_scheduled idle),
        subst
            (λ (u : State T). Implements T u (record {
              waits = with_wait a.waits q mode key (some task);
              scheduled = with_scheduled a.scheduled task true;
            }))
            same (enqueued-Implements T s a q task mode key fit idle h),
      )

  dequeue-Implements :
      (s t : State T) (a : Abstract) (q task : ℕ) (mode : Mode) (key : Key)
      → s.tasks task ≡ record { queue = some q; dequeue = some mode; dequeuedata = some key }
      → dequeue_task T s task mode ≡ ok t
      → Implements T s a
      → (b : Abstract) × Spec (taken_back q task mode key) a b × Implements T t b
  dequeue-Implements s t a q task mode key at done h =
      let same : dequeued T s q task key mode ≡ t =
        ground (arith, dequeue_task-dequeued T s q task key mode mode at) in
      (
        record {
          waits = with_wait a.waits q mode key none;
          scheduled = with_scheduled a.scheduled task false;
        },
        takes_back a q task mode key
            (sym (h.scheduled task) ∙ ap (λ (f : Task). is_scheduled f.dequeue) at),
        subst
            (λ (u : State T). Implements T u (record {
              waits = with_wait a.waits q mode key none;
              scheduled = with_scheduled a.scheduled task false;
            }))
            same (dequeued-Implements T s a q task mode key at h),
      )

  wait-Implements :
      (s : State T) (a : Abstract) (q fuel : ℕ) (w : World) (arg : Timeout) (timeout : ℤ)
      (pfds : List PollFd) (ps : Procs) (rs : Replies) (r : Waited T) (ready : List ℕ)
      → Environment T q fuel w ps s rs
      → timeout_of arg ≡ ok timeout
      → (eq_ℤ timeout minus_one && is_empty T s q) ≡ false
      → wait T fuel w q arg pfds ps s ≡ ok r
      → r.ready ≡ some ready
      → Implements T s a
      → (b : Abstract) × Spec (returned q ready) a b × Implements T r.state b
  wait-Implements s a q fuel w arg timeout pfds ps rs r ready e timed some_wait done is_ready h =
      let (r', ready', asked, t, time, asks, done', is_ready', wk) =
        wait-Wakes T q fuel w arg timeout pfds ps s rs (Environment-CanWait s a q fuel w ps rs e h)
          timed some_wait in
      let same : r' ≡ r = ground arith in
      let same_ready : ready' ≡ ready =
        ground (arith, sym is_ready' ∙ ap (λ (x : Waited T). x.ready) same ∙ is_ready) in
      let fds : List PollFd = set_revents (rs asked t) 0 (length asks.sockets) asks.sockets in
      let wk' : Wakes T q s r'.procs fds r'.state ready =
        subst (Wakes T q s r'.procs fds r'.state) same_ready wk in
      let (step, after) = Wakes-Implements s r'.state a q r'.procs fds ready wk' h in
      (
        after_wait a q r'.procs fds ready,
        step,
        subst (λ (x : Waited T). Implements T x.state (after_wait a q r'.procs fds ready)) same
            after,
      )

  Step-Implements :
      (e : Event) (s t : State T) (a : Abstract)
      → Implements T s a
      → Step T e s t
      → (b : Abstract) × Spec e a b × Implements T t b
  unfolding when_read when_write when_wait
  Step-Implements _ s _ a h (tqueue_step _ fresh) = (
    record a { waits = λ r n j. if r == fresh then none else a.waits r n j },
    opens a fresh,
    tqueue-Implements T s a fresh h,
  )
  Step-Implements _ s _ a h (sets_task _ task f idle still) =
      (a, idles a task, put_task-Implements T s a task f idle still h)
  Step-Implements _ s t a h (when_read_step _ _ q fd task at done) =
      enqueue-Implements s t a q task reader (Key.fd fd) refl at done h
  Step-Implements _ s t a h (when_write_step _ _ q fd task at done) =
      enqueue-Implements s t a q task writer (Key.fd fd) refl at done h
  Step-Implements _ s t a h (when_wait_step _ _ q process task at done) =
      enqueue-Implements s t a q task child_waiter (Key.proc process) refl at done h
  Step-Implements _ s t a h (dequeue_step _ _ q task mode key at done) =
      dequeue-Implements s t a q task mode key at done h
  Step-Implements _ s _ a h
        (wait_step _ q fuel w arg timeout pfds ps rs r ready e timed some_wait done is_ready) =
      wait-Implements s a q fuel w arg timeout pfds ps rs r ready e timed some_wait done is_ready h

  -- Each run of a program on the task queues is a run of the abstract view with the same events, in the
  -- same order: the same tasks are scheduled on the same queues for the same keys, the same are taken
  -- back, and each `xpqueue_wait` returns the same array. An event changes the abstract view thus: to
  -- schedule a task sets one entry, to take it back clears one, and an array that is returned ends
  -- waits of its queue only, of tasks in it, and unschedules just the tasks in it. The calls are
  -- those that succeed; where `xpqueue_wait` is called, memory is had, there is a time-out or a task
  -- that waits, `poll` answers where it is asked about the descriptors for which tasks wait, and the
  -- process objects are in order and cover the waiters.
  pub Run-Implements :
      (es : List Event) (s t : State T) (a : Abstract)
      → Implements T s a
      → Run T es s t
      → (b : Abstract) × SpecRun es a b × Implements T t b
  Run-Implements _ s _ a h (Run.ends _) = (a, SpecRun.ends a, h)
  Run-Implements _ s _ a h (Run.then_step e es _ t u before step) =
      let (b, run, there) = Run-Implements es s t a h before in
      let (c, next, after) = Step-Implements e t u b there step in
      (c, SpecRun.then_step e es a b c run next, after)
