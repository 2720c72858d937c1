-- ===== src/Xpio/Queue/Wait/Ended.antt =====
-- luau/xpio_c.c: a task that waits for a child that has ended is handed back by `xpqueue_wait`.
use flake.Common.{
  ℕ, ◌+◌, ◌-◌, ◌<◌, ◌≡◌, refl, ap, ◌∙◌, sym, subst, true, false, none, some, List, arith, ==_iff, ℤ,
  pos, take, get_elem?, Bool-cases, inl, inr,
}
use flake.Lua.{ok}
use flake.Lua.Table.{Key, TableApi, Entries}
use flake.Xpio.Proc.{XpProc, Procs, drain_pipe}
use flake.Xpio.Proc.Chain.{mem}
use flake.Xpio.Proc.Reap.{outcome, settled, reap-drain_pipe}
use flake.Xpio.Queue.{Mode, child_waiter, State, is_empty}
use flake.Xpio.Queue.Registry.{registered}
use flake.Xpio.Queue.Schedule.{is_empty_iff}
use flake.Xpio.Queue.PollSet.{PollFd, Revents}
use flake.Xpio.Queue.Wake.Wakings.{woken, woke_all}
use flake.Xpio.Queue.Wait.{
  Timeout, timeout_of, World, Waited, PollResult, wait, poll_and_wake, poll_loop, wake_reaped,
  set_revents, is_signalled, shorten,
}
use flake.Xpio.Queue.Wait.Children.{child_wakings, num_running, is_exited_key}
use flake.Xpio.Queue.Wait.Held.{Answers, poll_loop-Answers}
use flake.Xpio.Queue.Wait.Stages.{Wakes}
use flake.Xpio.Queue.Wait.Polled.{CanWait}
use flake.Xpio.Queue.Wait.Complete.{wait-Wakes}
use flake.Xpio.Queue.Wait.Signalled.{
  watches_in, watches_in-get_elem?, num_running-find, Prepared, Asked, wait-Asked,
}
use flake.Xpio.Queue.Wait.Answered.{
  get_elem?-set_revents, get_elem?-take, is_signalled-get_elem?, is_exited_key-settled,
  InOrder-poll, poll_and_wake-procs,
}

-- After any number of interruptions `poll` answers whenever it watches the signal pipe, and it says that
-- the pipe can be read.
abbrev pub PipeReadable : World → Type 0
PipeReadable w =
    (fds : List PollFd) (t : ℤ)
    → watches_in w.sig_pipe fds ≡ true
    → (rs : ℕ → Revents) × Answers rs (w.poll fds t)
      × ((i : ℕ) (p : PollFd)
          → get_elem? fds i ≡ some p
          → p.fd ≡ w.sig_pipe
          → (rs i).in_ready ≡ true)

module _ (T : TableApi) (q : ℕ) where
  -- The call when `poll` gives these answers to what it is asked.
  answered-CanWait :
      (fuel : ℕ) (w : World) (ps : Procs) (s : State T) (rs : ℕ → Revents)
      (answers : List PollResult)
      → Prepared T q fuel w ps s
      → Answers rs answers
      → CanWait T q fuel (record w { poll = λ fds t. answers }) ps s (λ fds t. rs)
  answered-CanWait fuel w ps s rs answers v got = record {
    valid = v.valid;
    readers = v.readers;
    writers = v.writers;
    children = v.children;
    memory = v.memory;
    objects = InOrder-poll fuel w ps (λ fds t. answers) v.objects;
    answers = λ fds t asks. got;
  }

  registered_not-is_empty :
      (s : State T) (mode : Mode) (key : Key) (task : ℕ)
      → registered T s q mode key ≡ some task
      → is_empty T s q ≡ false
  registered_not-is_empty s mode key task at = elim (Bool-cases (is_empty T s q)) [
    | inl empty ↦ absurd (ground (arith, (is_empty_iff T s q).0 empty mode key))
    | inr more ↦ more
  ]

  -- The same call in a world whose `poll` always gives the answers that it gives to this array.
  same_answers :
      (fuel : ℕ) (w : World) (fds : List PollFd) (t timeout : ℤ) (num nfds : ℕ) (pfds : List PollFd)
      (ps : Procs) (s : State T) (ready : List ℕ)
      → take nfds pfds ≡ fds
      → timeout ≡ t
      → poll_and_wake T fuel
          (record w { poll = λ a b. w.poll fds t })
          q
          timeout
          num
          nfds
          pfds
          ps
          s
          ready
        ≡ poll_and_wake T fuel w q timeout num nfds pfds ps s ready
  unfolding poll_and_wake wake_reaped
  same_answers fuel w fds t timeout num nfds pfds ps s ready a b = rw (← a, ← b) refl

  -- A task whose process object has exited by the end of the call is in the array.
  Wakes-mem :
      (s t : State T) (ps : Procs) (fds : List PollFd) (ready : List ℕ) (p task : ℕ)
      → Wakes T q s ps fds t ready
      → registered T s q child_waiter (Key.proc p) ≡ some task
      → is_exited_key ps (Key.proc p) ≡ true
      → mem task ready ≡ true
  Wakes-mem s t ps fds ready p task wk at exited =
      let gone : registered T t q child_waiter (Key.proc p) ≡ none =
        wk.children q child_waiter p ∙ rw ((==_iff q q).1 refl) (rw exited refl) in
      elim (Bool-cases (mem task ready)) [
        | inl there ↦ there
        | inr missing ↦
            absurd (ground (arith, wk.unlisted child_waiter (Key.proc p) task at missing))
      ]

  -- The objects after the call, where the pipe can be read.
  answered-procs :
      (fuel : ℕ) (w : World) (arg : Timeout) (timeout : ℤ) (pfds : List PollFd) (ps : Procs)
      (s : State T) (rs : ℕ → Revents) (r : Waited T)
      → (v : Prepared T q fuel w ps s) → (asked : Asked T q fuel w arg pfds ps s timeout)
      → 0 < num_running ps (T.entries (s.queues q).children)
      → let fds = take asked.build.used asked.build.pfds in
        let answers =
          w.poll fds
            (shorten (woken (child_wakings ps (T.entries (s.queues q).children))) timeout) in
        Answers rs answers
        → ((i : ℕ) (p : PollFd)
            → get_elem? fds i ≡ some p
            → p.fd ≡ w.sig_pipe
            → (rs i).in_ready ≡ true)
        → drain_pipe w.reads false ≡ true
        → wait T fuel (record w { poll = λ a b. answers }) q arg pfds ps s ≡ ok r
        → r.procs ≡ record ps { cells = settled v.objects.objs w.waits ps.cells }
  answered-procs fuel w arg timeout pfds ps s rs r v asked counted got signals drained done =
      let es : Entries = T.entries (s.queues q).children in
      let nfds : ℕ = asked.build.used in
      let fds : List PollFd = take nfds asked.build.pfds in
      let t : ℤ = shorten (woken (child_wakings ps es)) timeout in
      let lt : nfds - 1 < nfds = omega (arith, asked.used) in
      let (k, e) = got in
      let looped : poll_loop (w.poll fds t) nfds asked.build.pfds
          ≡ ok (set_revents rs 0 nfds asked.build.pfds) =
        ap (λ a. poll_loop a nfds asked.build.pfds) e
        ∙ poll_loop-Answers rs k nfds asked.build.pfds in
      let index : nfds - 1 ≡ 0 + (nfds - 1) = omega arith in
      let signalled : is_signalled (set_revents rs 0 nfds asked.build.pfds) (nfds - 1) ≡ true =
        is_signalled-get_elem? (set_revents rs 0 nfds asked.build.pfds) (nfds - 1)
          (record asked.pipe { revents = rs (0 + (nfds - 1)) })
          (get_elem?-set_revents rs 0 nfds (nfds - 1) asked.build.pfds asked.pipe lt asked.last)
          asked.wanted
          (subst (λ i. (rs i).in_ready ≡ true) index
            (signals (nfds - 1) asked.pipe
              (get_elem?-take asked.build.pfds (nfds - 1) nfds lt ∙ asked.last) asked.fd)) in
      let (n, reaped, _) =
        reap-drain_pipe fuel w.reads w.waits ps v.objects.objs v.objects.chain v.objects.distinct
          v.objects.pids v.objects.enough in
      poll_and_wake-procs T q fuel (record w { poll = λ a b. w.poll fds t }) t (num_running ps es)
        nfds asked.build.pfds (set_revents rs 0 nfds asked.build.pfds) ps
        (record ps { cells = settled v.objects.objs w.waits ps.cells }) n
        (woke_all T q s (child_wakings ps es)) (woken (child_wakings ps es)) r looped counted
        signalled (reaped ∙ rw drained refl) (sym (asked.rest (λ a b. w.poll fds t)) ∙ done)

  -- A task waits on the queue for a child. The child has ended: the signal pipe can be read, and
  -- `waitpid` reports the PID. Then `xpqueue_wait` returns, with the task in the array.
  pub wait-ended :
      (fuel : ℕ) (w : World) (arg : Timeout) (timeout : ℤ) (pfds : List PollFd) (ps : Procs)
      (s : State T) (p task : ℕ) (c : XpProc)
      → (v : Prepared T q fuel w ps s) → PipeReadable w
      → timeout_of arg ≡ ok timeout
      → registered T s q child_waiter (Key.proc p) ≡ some task
      → is_exited_key ps (Key.proc p) ≡ false
      → drain_pipe w.reads false ≡ true
      → ps.cells p ≡ some c
      → mem p v.objects.objs ≡ true
      → (outcome w.waits c).pid ≡ pos 0
      → (r : Waited T) × (ready : List ℕ) × (wait T fuel w q arg pfds ps s ≡ ok r)
        × (r.ready ≡ some ready)
        × (mem task ready ≡ true)
  wait-ended fuel w arg timeout pfds ps s p task c v readable timed at runs drained there member
        ended =
      let es : Entries = T.entries (s.queues q).children in
      let asked = wait-Asked T q fuel w arg timeout pfds ps s p task v timed at runs in
      let nfds : ℕ = asked.build.used in
      let fds : List PollFd = take nfds asked.build.pfds in
      let t : ℤ = shorten (woken (child_wakings ps es)) timeout in
      let watched : watches_in w.sig_pipe fds ≡ true =
        subst (λ f. watches_in f fds ≡ true) asked.fd
          (watches_in-get_elem? asked.build.pfds (nfds - 1) nfds asked.pipe asked.last asked.wanted
            (omega (arith, asked.used))) in
      let counted : 0 < num_running ps es =
        num_running-find ps (Key.proc p) task es
          (T.find-entries (s.queues q).children (Key.proc p) ∙ at) runs in
      let waits : is_empty T s q ≡ false =
        registered_not-is_empty s child_waiter (Key.proc p) task at in
      let (rs, got, signals) = readable fds t watched in
      let wc : World = record w { poll = λ a b. w.poll fds t } in
      let (r, ready, asked_fds, t', time, asks, done, is_ready', wk) =
        wait-Wakes T q fuel wc arg timeout pfds ps s (λ a b. rs)
          (answered-CanWait fuel w ps s rs (w.poll fds t) v got) timed (ground arith) in
      let whole : wait T fuel w q arg pfds ps s ≡ ok r =
        asked.rest w.poll
        ∙ sym (
            same_answers fuel w fds t t (num_running ps es) nfds asked.build.pfds ps
              (woke_all T q s (child_wakings ps es)) (woken (child_wakings ps es)) refl refl)
        ∙ sym (asked.rest (λ a b. w.poll fds t))
        ∙ done in
      let procs : r.procs ≡ record ps { cells = settled v.objects.objs w.waits ps.cells } =
        answered-procs fuel w arg timeout pfds ps s rs r v asked counted got signals drained done in
      let exited : is_exited_key r.procs (Key.proc p) ≡ true =
        ap (λ x. is_exited_key x (Key.proc p)) procs
        ∙ is_exited_key-settled v.objects.objs w.waits ps p c there member ended in
      (r, ready, whole, is_ready', Wakes-mem s r.state r.procs _ ready p task wk at exited)
