-- ===== src/Xpio/Queue/Wait/Answered.antt =====
-- luau/xpio_c.c: what `xpqueue_wait` does with the answer of `poll` for the signal pipe.
use flake.Common.{
  ℕ, zero, suc, ◌+◌, ◌-◌, ◌<◌, ◌≡◌, refl, ap, ap₂, ◌∙◌, sym, true, false, some, List, [], ◌∷◌,
  arith, ◌==◌, if◌then◌else◌, ℤ, pos, take, get_elem?, Bool-cases, inl, inr,
}
use flake.Lua.{ok, >>=-eq-ok}
use flake.Lua.Table.{Key, TableApi}
use flake.Xpio.Proc.{XpProc, Procs, WaitResult, reap, proc_is_exited}
use flake.Xpio.Proc.Chain.{mem}
use flake.Xpio.Proc.Reap.{outcome, settled}
use flake.Xpio.Queue.{State}
use flake.Xpio.Queue.PollSet.{PollFd, Revents}
use flake.Xpio.Queue.Wake.{wake_sockets, wake_children}
use flake.Xpio.Queue.Wait.Reaped.{InOrder}
use flake.Xpio.Queue.Wait.{
  World, Waited, PollResult, poll_and_wake, poll_loop, wake_reaped, set_revents, is_signalled,
}
use flake.Xpio.Queue.Wait.Children.{is_exited_key}

-- `poll` fills in the flags by index.
pub get_elem?-set_revents :
    (rs : ℕ → Revents) (i n k : ℕ) (ps : List PollFd) (p : PollFd)
    → k < n
    → get_elem? ps k ≡ some p
    → get_elem? (set_revents rs i n ps) k ≡ some (record p { revents = rs (i + k) })
unfolding set_revents
get_elem?-set_revents rs i zero k ps p lt at = absurd (omega arith)
get_elem?-set_revents rs i (suc n) k [] p lt at = ground arith
get_elem?-set_revents rs i (suc n) zero (p' ∷ ps) p lt at =
    let same : p' ≡ p = ground arith in
    let index : i ≡ i + 0 = omega arith in
    ap₂ (λ (x : PollFd) j. some (record x { revents = rs j })) same index
get_elem?-set_revents rs i (suc n) (suc k) (p' ∷ ps) p lt at =
    let index : i + 1 + k ≡ i + suc k = omega arith in
    get_elem?-set_revents rs (i + 1) n k ps p (omega arith) at
    ∙ ap (λ j. some (record p { revents = rs j })) index

-- The object has a status after `waitpid` has reported its PID.
pub is_exited_key-settled :
    (objs : List ℕ) (ws : List WaitResult) (ps : Procs) (p : ℕ) (c : XpProc)
    → ps.cells p ≡ some c
    → mem p objs ≡ true
    → (outcome ws c).pid ≡ pos 0
    → is_exited_key (record ps { cells = settled objs ws ps.cells }) (Key.proc p) ≡ true
unfolding settled proc_is_exited
is_exited_key-settled objs ws ps p c there member ended = ground arith

pub get_elem?-take : (ps : List PollFd) (i n : ℕ) → i < n → get_elem? (take n ps) i ≡ get_elem? ps i
get_elem?-take ps i zero lt = absurd (omega arith)
get_elem?-take [] i (suc n) lt = refl
get_elem?-take (p ∷ ps) zero (suc n) lt = refl
get_elem?-take (p ∷ ps) (suc i) (suc n) lt = get_elem?-take ps i n (omega arith)

pub is_signalled-get_elem? :
    (fds : List PollFd) (i : ℕ) (p : PollFd)
    → get_elem? fds i ≡ some p
    → p.want_in ≡ true
    → p.revents.in_ready ≡ true
    → is_signalled fds i ≡ true
unfolding is_signalled
is_signalled-get_elem? fds i p at wanted readable = rw (at, is_signalled) (ground arith)

-- The answers of `poll` do not matter for the process objects.
pub InOrder-poll :
    (fuel : ℕ) (w : World) (ps : Procs) (poll : List PollFd → ℤ → List PollResult)
    → InOrder fuel w ps
    → InOrder fuel (record w { poll = poll }) ps
InOrder-poll fuel w ps poll v = record {
  objs = v.objs;
  chain = v.chain;
  distinct = v.distinct;
  pids = v.pids;
  enough = v.enough;
}

module _ (T : TableApi) (q : ℕ) where
  -- The process objects that the call leaves.
  wake_reaped-procs :
      (fuel : ℕ) (w : World) (pfds : List PollFd) (ps ps' : Procs) (n : ℕ) (s : State T)
      (ready : List ℕ) (r : Waited T)
      → reap fuel w.reads w.waits ps ≡ some (ps', n)
      → wake_reaped T fuel w q pfds ps s ready ≡ ok r
      → r.procs ≡ ps'
  unfolding wake_reaped
  wake_reaped-procs fuel w pfds ps ps' n s ready r reaped done =
      let opened = rw (reaped, wake_reaped) at done in
      elim (Bool-cases (n == 0)) [
        | inl none_updated ↦
            let same : record { state = s; procs = ps'; pfds = pfds; ready = some ready } ≡ r =
              ground (arith, rw none_updated at opened) in
            ap (λ (x : Waited T). x.procs) (sym same)
        | inr some_updated ↦
            let ((s', ready', num), _, e) =
              >>=-eq-ok (wake_children T q ps' (T.entries (s.queues q).children) s ready 0)
                (λ x. ok (record { state = x.0; procs = ps'; pfds = pfds; ready = some x.1 }))
                (rw some_updated at opened) in
            let same : record { state = s'; procs = ps'; pfds = pfds; ready = some ready' } ≡ r =
              ground arith in
            ap (λ (x : Waited T). x.procs) (sym same)
      ]

  pub poll_and_wake-procs :
      (fuel : ℕ) (w : World) (timeout : ℤ) (num nfds : ℕ) (pfds fds : List PollFd) (ps ps' : Procs)
      (n : ℕ) (s : State T) (ready : List ℕ) (r : Waited T)
      → poll_loop (w.poll (take nfds pfds) timeout) nfds pfds ≡ ok fds
      → 0 < num
      → is_signalled fds (nfds - 1) ≡ true
      → reap fuel w.reads w.waits ps ≡ some (ps', n)
      → poll_and_wake T fuel w q timeout num nfds pfds ps s ready ≡ ok r
      → r.procs ≡ ps'
  unfolding poll_and_wake
  poll_and_wake-procs fuel w timeout num nfds pfds fds ps ps' n s ready r looped some_run signalled
        reaped done =
      let running : (num == 0) ≡ false = ground arith in
      let ((s', ready'), _, e) =
        >>=-eq-ok (wake_sockets T q (take (nfds - (if num == 0 then 0 else 1)) fds) s ready)
          (λ x.
            if (if num == 0 then false else is_signalled fds (nfds - 1))
            then wake_reaped T fuel w q fds ps x.0 x.1
            else ok (record { state = x.0; procs = ps; pfds = fds; ready = some x.1 }))
          (rw (looped, poll_and_wake) at done) in
      wake_reaped-procs fuel w fds ps ps' n s' ready' r reaped (rw signalled at (rw running at e))
