-- ===== src/Xpio/Queue/Wait/Complete.antt =====
-- luau/xpio_c.c: `xpqueue_wait` as a whole.
use flake.Common.{
  ℕ, ◌+◌, ◌-◌, ◌≡◌, refl, ap, ◌∙◌, sym, subst, length, true, false, ◌&&◌, none, some, List, [], ◌∷◌,
  ◌++◌, arith, ◌==◌, if◌then◌else◌, ℤ, pos, minus_one, eq_ℤ, take, Bool-cases, inl, inr, ◌⊎◌,
}
use flake.Lua.{ok}
use flake.Lua.Table.{Key, TableApi, Entries}
use flake.Xpio.Proc.{Procs}
use flake.Xpio.Proc.Chain.{mem}
use flake.Xpio.Queue.{Mode, State, is_empty, no_entries}
use flake.Xpio.Queue.Registry.{registered}
use flake.Xpio.Queue.PollSet.{PollFd, Revents, Build, poll_set, collect}
use flake.Xpio.Queue.PollSet.Index.{watch}
use flake.Xpio.Queue.PollSet.Watch.{in_use}
use flake.Xpio.Queue.PollSet.Collect.{poll_set-watch, poll_set_total}
use flake.Xpio.Queue.Wake.{wake_sockets, wake_children}
use flake.Xpio.Queue.Wake.Wakings.{woken, woke_all}
use flake.Xpio.Queue.Wake.Sockets.{AllHeld, wakings, wake_sockets-wakings}
use flake.Xpio.Queue.Wait.{
  Timeout, timeout_of, World, Waited, wait, poll_and_wake, poll_loop, add_sig_pipe, set_revents,
  shorten, is_signalled,
}
use flake.Xpio.Queue.Wait.Children.{child_wakings, num_running}
use flake.Xpio.Queue.Wait.Held.{Answers, poll_loop-Answers, add_sig_pipe-in_use, wanted_in}
use flake.Xpio.Queue.Wait.Stages.{Wakes, first_children, then_sockets}
use flake.Xpio.Queue.Wait.Reaped.{wake_children-known, then_reaped}
use flake.Xpio.Queue.Wait.Polled.{
  Replies, Asks, CanWait, IsPolled, Asks-IsPolled, take-set_revents-in_use, nothing_used,
  Wakes-ProcsKnown, IsPolled-AllHeld,
}

shorten_cases :
    (ready : List ℕ) (timeout : ℤ)
    → (shorten ready timeout ≡ timeout) ⊎ (shorten ready timeout ≡ pos 0)
unfolding shorten
shorten_cases [] timeout = inl refl
shorten_cases (t ∷ ready) timeout = inr refl

module _ (T : TableApi) (q : ℕ) where
  -- From `poll` on.
  poll_and_wake-Wakes :
      (fuel : ℕ) (w : World) (timeout : ℤ) (num : ℕ) (c : Build) (used : ℕ) (ps : Procs)
      (s t : State T) (ready : List ℕ) (replies : Replies) (rs : ℕ → Revents)
      → CanWait T q fuel w ps s replies
      → Wakes T q s ps [] t ready
      → c.used ≡ used + (if num == 0 then 0 else 1)
      → IsPolled T q s (take used (set_revents rs 0 c.used c.pfds))
      → Answers rs (w.poll (take c.used c.pfds) timeout)
      → (r : Waited T) × (ready' : List ℕ) × (poll_and_wake T fuel w q timeout num c.used c.pfds ps
            t ready
          ≡ ok r)
        × (r.ready ≡ some ready')
        × Wakes T q s r.procs (take used (set_revents rs 0 c.used c.pfds)) r.state ready'
  unfolding poll_and_wake
  poll_and_wake-Wakes fuel w timeout num c used ps s t ready replies rs v wk n polled (k, got) =
      let pfds : List PollFd = set_revents rs 0 c.used c.pfds in
      let fds : List PollFd = take used pfds in
      let looped : poll_loop (w.poll (take c.used c.pfds) timeout) c.used c.pfds ≡ ok pfds =
        ap (λ a. poll_loop a c.used c.pfds) got ∙ poll_loop-Answers rs k c.used c.pfds in
      let held : AllHeld T q t fds = IsPolled-AllHeld T q s t ps fds ready polled wk in
      let count : c.used - (if num == 0 then 0 else 1) ≡ used = ground arith in
      let t' : State T = woke_all T q t (wakings T q t fds) in
      let ready' : List ℕ = ready ++ woken (wakings T q t fds) in
      let woke : wake_sockets T q (take (c.used - (if num == 0 then 0 else 1)) pfds) t ready
          ≡ ok (t', ready') =
        ap (λ m. wake_sockets T q (take m pfds) t ready) count
        ∙ wake_sockets-wakings T q fds t ready polled.distinct held in
      let wk' : Wakes T q s ps fds t' ready' =
        then_sockets T q s t ps fds ready wk polled.distinct held in
      elim (Bool-cases (if num == 0 then false else is_signalled pfds (c.used - 1))) [
        | inl signalled ↦
            let (r, last, done, is_ready, same, wk'') =
              then_reaped T q fuel w pfds ps s t' fds ready' v.objects
                (Wakes-ProcsKnown T q s t' ps fds ready' wk' v.children) wk' in
            (r, last, rw (looped, poll_and_wake) (rw woke (rw signalled done)), is_ready, wk'')
        | inr quiet ↦ (
          record { state = t'; procs = ps; pfds = pfds; ready = some ready' },
          ready',
          rw (looped, poll_and_wake) (rw woke (rw quiet refl)),
          refl,
          wk',
        )
      ]

  -- `xpqueue_wait` with a time-out, or on a queue that is not empty, returns an array of tasks where
  -- `poll` answers, after any number of interruptions, arrays of this kind only: each descriptor for
  -- which a task waits, once, with the flags that are wanted, and then at most one element, for the
  -- signal pipe. It is asked with the time-out or with 0. By the flags that it writes for the array
  -- that it is asked about, an entry of
  -- the queue goes exactly if its descriptor is ready (what is waited for, or POLLERR, POLLHUP or
  -- POLLNVAL) or its process object has exited by the end of the call, and no other; `_dequeue` is
  -- cleared of exactly the tasks in the array; tables and tasks agree afterwards. Tables and tasks
  -- agree before, readers and writers wait for descriptors and the others for process objects,
  -- memory is had, and the process objects are in order.
  pub wait-Wakes :
      (fuel : ℕ) (w : World) (arg : Timeout) (timeout : ℤ) (pfds : List PollFd) (ps : Procs)
      (s : State T) (rs : Replies)
      → CanWait T q fuel w ps s rs
      → timeout_of arg ≡ ok timeout
      → (eq_ℤ timeout minus_one && is_empty T s q) ≡ false
      → (r : Waited T) × (ready : List ℕ) × (asked : List PollFd) × (t : ℤ) × ((t ≡ timeout)
          ⊎ (t ≡ pos 0))
        × (asks : Asks T q w s asked) × (wait T fuel w q arg pfds ps s ≡ ok r)
        × (r.ready ≡ some ready)
        × Wakes T q s r.procs
            (set_revents (rs asked t) 0 (length asks.sockets) asks.sockets)
            r.state
            ready
  unfolding wait shorten
  wait-Wakes fuel w arg timeout pfds ps s rs v timed some_wait =
      let es : Entries = T.entries (s.queues q).children in
      let s1 : State T = woke_all T q s (child_wakings ps es) in
      let ready1 : List ℕ = woken (child_wakings ps es) in
      let num : ℕ = num_running ps es in
      let (b, built) = poll_set_total T w.malloc pfds (s.queues q) v.memory in
      let (fits, nd, _) =
        poll_set-watch T w.malloc pfds (s.queues q) b (pos 0) v.readers v.writers built in
      let watched : (f : ℤ) → watch f (in_use b) ≡ wanted_in T q s f =
        λ f. (poll_set-watch T w.malloc pfds (s.queues q) b f v.readers v.writers built).2 in
      let (c, piped, used, kept, last, split, only) = add_sig_pipe-in_use w num b v.memory fits in
      let first : wake_children T q ps es s [] 0 ≡ ok (s1, ready1, num) =
        wake_children-known T q s ps [] v.children in
      let polls : (eq_ℤ (shorten ready1 timeout) minus_one && (c.used == 0)) ≡ false =
        ground (arith, nothing_used T q ps s b v.readers v.writers watched) in
      let asks : Asks T q w s (take c.used c.pfds) = record {
        sockets = in_use b;
        pipe = last;
        split = split;
        distinct = nd;
        watched = watched;
        only = only;
      } in
      let asked : List PollFd = take c.used c.pfds in
      let t : ℤ = shorten ready1 timeout in
      let same = take-set_revents-in_use T q b c (rs asked t) fits (ground arith) kept in
      let polled : IsPolled T q s (take b.used (set_revents (rs asked t) 0 c.used c.pfds)) =
        subst (IsPolled T q s) (sym same) (Asks-IsPolled T q w s asked (rs asked t) asks) in
      let (r, ready, done, is_ready, wk) =
        poll_and_wake-Wakes fuel w t num c b.used ps s s1 ready1 rs (rs asked t) v
          (first_children T q s ps v.valid) used polled (v.answers asked t asks) in
      (
        r,
        ready,
        asked,
        t,
        shorten_cases ready1 timeout,
        asks,
        rw (timed, wait) (rw built (rw first (rw piped (rw polls done)))),
        is_ready,
        subst (λ fds. Wakes T q s r.procs fds r.state ready) same wk,
      )

  -- In the array that `xpqueue_wait` returns is each task that waited on the queue and that the queue
  -- no longer holds after it.
  pub wait-mem :
      (fuel : ℕ) (w : World) (arg : Timeout) (timeout : ℤ) (pfds : List PollFd) (ps : Procs)
      (s : State T) (rs : Replies) (r : Waited T) (ready : List ℕ) (mode : Mode) (key : Key)
      (task : ℕ)
      → CanWait T q fuel w ps s rs
      → timeout_of arg ≡ ok timeout
      → (eq_ℤ timeout minus_one && is_empty T s q) ≡ false
      → wait T fuel w q arg pfds ps s ≡ ok r
      → r.ready ≡ some ready
      → registered T s q mode key ≡ some task
      → registered T r.state q mode key ≡ none
      → mem task ready ≡ true
  wait-mem fuel w arg timeout pfds ps s rs r ready mode key task v timed some_wait done is_ready at
        gone =
      let (r', ready', asked, t, time, asks, done', is_ready', wk) =
        wait-Wakes fuel w arg timeout pfds ps s rs v timed some_wait in
      let same : r' ≡ r = ground arith in
      let same_ready : ready' ≡ ready = ground (arith, ap (λ (x : Waited T). x.ready) same) in
      let still : mem task ready ≡ false → registered T r.state q mode key ≡ some task = λ h.
        ap (λ (x : Waited T). registered T x.state q mode key) (sym same)
        ∙ wk.unlisted mode key task at (ap (mem task) same_ready ∙ h) in
      elim (Bool-cases (mem task ready)) [
        | inl there ↦ there
        | inr missing ↦ absurd (ground (arith, still missing))
      ]

  -- Without a time-out, and with no task on the queue, `xpqueue_wait` calls no `poll`: it returns nil
  -- and changes nothing.
  wait-is_empty :
      (fuel : ℕ) (w : World) (arg : Timeout) (pfds : List PollFd) (ps : Procs) (s : State T)
      → timeout_of arg ≡ ok minus_one
      → is_empty T s q ≡ true
      → wait T fuel w q arg pfds ps s
        ≡ ok (record { state = s; procs = ps; pfds = pfds; ready = none })
  unfolding wait is_empty poll_set collect wake_children add_sig_pipe shorten
  wait-is_empty fuel w arg pfds ps s timed nobody =
      let r : T.entries (s.queues q).readers ≡ [] =
        nil (T.entries (s.queues q).readers) (ground arith) in
      let x : T.entries (s.queues q).writers ≡ [] =
        nil (T.entries (s.queues q).writers) (ground arith) in
      let c : T.entries (s.queues q).children ≡ [] =
        nil (T.entries (s.queues q).children) (ground arith) in
      rw (timed, wait) (rw (r, poll_set) (rw (x, c) refl))
    where
      nil : (es : Entries) → no_entries T es ≡ true → es ≡ []
      nil [] h = refl
      nil (e ∷ es) h = cc
