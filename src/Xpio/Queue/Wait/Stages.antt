-- ===== src/Xpio/Queue/Wait/Stages.antt =====
-- luau/xpio_c.c: the three places where `xpqueue_wait` wakes tasks, one after the other.
use flake.Common.{
  ℕ, ◌≡◌, refl, ap, ◌∙◌, Bool, true, false, ◌&&◌, ◌||◌, Option, none, some, List, [], ◌∷◌, ◌++◌,
  arith, ◌==◌, if◌then◌else◌, ℤ,
}
use flake.Lua.Table.{Key, TableApi}
use flake.Xpio.Proc.{Procs}
use flake.Xpio.Proc.Chain.{mem}
use flake.Xpio.Queue.{Mode, reader, writer, child_waiter, State}
use flake.Xpio.Queue.Registry.{mode_eq, registered, IsValid}
use flake.Xpio.Queue.PollSet.{PollFd}
use flake.Xpio.Queue.PollSet.Index.{NoDupFd}
use flake.Xpio.Queue.Wake.{wakes}
use flake.Xpio.Queue.Wake.Wakings.{
  Waking, woken, wakes_entry, woke_all, registered-woke_all, tasks-woke_all, woke_all-IsValid,
  registered-unlisted,
}
use flake.Xpio.Queue.Wake.Sockets.{AllHeld, wakings, waking_if, waking_of}
use flake.Xpio.Queue.Wake.Events.{is_ready}
use flake.Xpio.Queue.Wake.Ready.{
  mem-append, wakings-AllWait, wakes_entry-append, wakes_entry-is_ready,
}
use flake.Xpio.Queue.Wait.Children.{
  is_exited_key, child_wakings, registered-child_wakings, table-AllWait,
}

module _ (T : TableApi) (q : ℕ) where
  -- From the state `s` to the state `t` the tasks in `ready` have been woken: those of the queue `q`
  -- that wait for descriptors that are ready in `fds`, or for processes of `ps` that have exited. The
  -- tables of the other queues, and the other tasks, are the same, and the state is valid.
  pub record Wakes (s : State T) (ps : Procs) (fds : List PollFd) (t : State T) (ready : List ℕ)
      : Type 0 where
    pub valid : IsValid T t
    pub descriptors :
        (r : ℕ) (mode : Mode) (f : ℤ)
        → registered T t r mode (Key.fd f)
          ≡ (if (r == q) && is_ready mode f fds then none else registered T s r mode (Key.fd f))
    pub children :
        (r : ℕ) (mode : Mode) (p : ℕ)
        → registered T t r mode (Key.proc p) ≡ (
            if (r == q) && (mode_eq child_waiter mode && is_exited_key ps (Key.proc p))
            then none
            else registered T s r mode (Key.proc p))
    -- A task that is not woken waits as before.
    pub unlisted :
        (mode : Mode) (key : Key) (task : ℕ)
        → registered T s q mode key ≡ some task
        → mem task ready ≡ false
        → registered T t q mode key ≡ some task
    pub tasks :
        (i : ℕ)
        → t.tasks i ≡ (if mem i ready then record (s.tasks i) { dequeue = none } else s.tasks i)

  -- More tasks are woken after the first ones.
  more_tasks :
      (s t : State T) (ready : List ℕ) (ws : List Waking) (i : ℕ)
      → t.tasks i ≡ (if mem i ready then record (s.tasks i) { dequeue = none } else s.tasks i)
      → (woke_all T q t ws).tasks i
        ≡ (if mem i (ready ++ woken ws) then record (s.tasks i) { dequeue = none } else s.tasks i)
  more_tasks s t ready ws i e =
      tasks-woke_all T q t ws i ∙ ground (arith, mem-append i ready (woken ws), e)

  -- The children that had exited before.
  pub first_children :
      (s : State T) (ps : Procs)
      → IsValid T s
      → Wakes s ps []
          (woke_all T q s (child_wakings ps (T.entries (s.queues q).children)))
          (woken (child_wakings ps (T.entries (s.queues q).children)))
  first_children s ps valid =
      let ws : List Waking = child_wakings ps (T.entries (s.queues q).children) in
      record {
        valid = woke_all-IsValid T q s ws valid (table-AllWait T q ps s);
        descriptors =
            λ r mode f. registered-child_wakings T q ps s r mode (Key.fd f) ∙ ground arith;
        children = λ r mode p. registered-child_wakings T q ps s r mode (Key.proc p);
        unlisted = λ mode key i at h.
            registered-unlisted T q s mode key i ws (table-AllWait T q ps s) at h;
        tasks = tasks-woke_all T q s ws;
      }

  -- Sockets do not wake a task that waits for a child.
  wakes_entry-proc :
      (s : State T) (mode : Mode) (p : ℕ) (fds : List PollFd)
      → wakes_entry mode (Key.proc p) (wakings T q s fds) ≡ false
  wakes_entry-proc s mode p [] = refl
  wakes_entry-proc s mode p (o ∷ fds) =
      wakes_entry-append mode (Key.proc p) (waking_if T q s reader o)
        (waking_if T q s writer o ++ wakings T q s fds)
      ∙ ap (λ b. wakes_entry mode (Key.proc p) (waking_if T q s reader o) || b)
          (wakes_entry-append mode (Key.proc p) (waking_if T q s writer o) (wakings T q s fds))
      ∙ rw
          (
            neither reader (wakes reader o) (registered T s q reader (Key.fd o.fd)),
            neither writer (wakes writer o) (registered T s q writer (Key.fd o.fd)),
            wakes_entry-proc s mode p fds,
          )
          refl
    where
      neither :
          (m : Mode) (w : Bool) (t : Option ℕ)
          → wakes_entry mode (Key.proc p) (if w then waking_of T q m o.fd t else []) ≡ false
      neither m false t = refl
      neither m true none = refl
      neither m true (some t) = ground arith

  -- Then the sockets.
  pub then_sockets :
      (s t : State T) (ps : Procs) (fds : List PollFd) (ready : List ℕ)
      → Wakes s ps [] t ready
      → NoDupFd fds
      → AllHeld T q t fds
      → Wakes s ps fds (woke_all T q t (wakings T q t fds)) (ready ++ woken (wakings T q t fds))
  then_sockets s t ps fds ready v nd h =
      let ws : List Waking = wakings T q t fds in
      record {
        valid = woke_all-IsValid T q t ws v.valid (wakings-AllWait T q t fds nd h);
        descriptors = λ r mode f.
            registered-woke_all T q t ws r mode (Key.fd f)
            ∙ ground (arith, wakes_entry-is_ready T q t mode f fds h, v.descriptors r mode f);
        children = λ r mode p.
            registered-woke_all T q t ws r mode (Key.proc p)
            ∙ ground (arith, wakes_entry-proc t mode p fds, v.children r mode p);
        unlisted = λ mode key i at e.
            registered-unlisted T q t mode key i ws (wakings-AllWait T q t fds nd h)
              (v.unlisted mode key i at (ground (arith, mem-append i ready (woken ws))))
              (ground (arith, mem-append i ready (woken ws)));
        tasks = λ i. more_tasks s t ready ws i (v.tasks i);
      }

  -- Then the children that have been reaped.
  pub then_children :
      (s t : State T) (ps ps' : Procs) (fds : List PollFd) (ready : List ℕ)
      → Wakes s ps fds t ready
      → ((k : Key) → is_exited_key ps k ≡ true → is_exited_key ps' k ≡ true)
      → Wakes s ps' fds
          (woke_all T q t (child_wakings ps' (T.entries (t.queues q).children)))
          (ready ++ woken (child_wakings ps' (T.entries (t.queues q).children)))
  then_children s t ps ps' fds ready v grows =
      let ws : List Waking = child_wakings ps' (T.entries (t.queues q).children) in
      record {
        valid = woke_all-IsValid T q t ws v.valid (table-AllWait T q ps' t);
        descriptors = λ r mode f.
            registered-child_wakings T q ps' t r mode (Key.fd f)
            ∙ ground (arith, v.descriptors r mode f);
        children = λ r mode p.
            registered-child_wakings T q ps' t r mode (Key.proc p)
            ∙ ground (arith, v.children r mode p, grows (Key.proc p));
        unlisted = λ mode key i at h.
            registered-unlisted T q t mode key i ws (table-AllWait T q ps' t)
              (v.unlisted mode key i at (ground (arith, mem-append i ready (woken ws))))
              (ground (arith, mem-append i ready (woken ws)));
        tasks = λ i. more_tasks s t ready ws i (v.tasks i);
      }
