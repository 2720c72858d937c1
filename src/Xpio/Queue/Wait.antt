-- ===== src/Xpio/Queue/Wait.antt =====
-- luau/xpio_c.c: `xpqueue_wait`.
pub mod Children
pub mod Held
pub mod Stages
pub mod Reaped
pub mod Polled
pub mod Complete
pub mod Signalled
pub mod Answered
pub mod Ended
mod Tests
use Prim.Native.String.{◌++◌}
use flake.Common.{
  ℕ, zero, suc, ◌+◌, ◌-◌, ◌^◌, Bool, true, false, ◌&&◌, ◌||◌, Option, none, some, List, [], ◌∷◌,
  String, ltb, ◌==◌, if◌then◌else◌, ℤ, pos, minus_one, eq_ℤ, take, get_elem?,
}
use flake.Lua.{Result, ok, raised, blocked, ◌>>=◌}
use flake.Lua.Table.{TableApi}
use flake.Xpio.Proc.{Procs, WaitResult, reap}
use flake.Xpio.Queue.{Mode, reader, State}
use flake.Xpio.Queue.PollSet.{PollFd, Revents, Build, ensure_fds, modify, start_watch, poll_set}
use flake.Xpio.Queue.Wake.{wakes, wake_sockets, wake_children}

-- `num * 1000.0`, for a double that is a number: its integral part where it is not negative.
pub data Millis : Type 0 where
  below_zero : Millis
  whole : ℕ → Millis

-- The argument `timeout`: nil or false; a value that is no number; or a number of seconds.
pub data Timeout : Type 0 where
  absent : Timeout
  not_number : Timeout
  seconds : (scaled : Millis) → Timeout

-- INT_MAX
abbrev pub int_max : ℕ
int_max = 2 ^ 31 - 1

-- The first statement of `xpqueue_wait`.
unfoldable pub timeout_of : Timeout → Result ℤ
timeout_of absent = ok minus_one
timeout_of not_number = raised "number expected"
timeout_of (seconds below_zero) = ok (pos 0)
timeout_of (seconds (whole num)) = ok (pos (if ltb int_max num then int_max else num))

-- What `poll` returns: a count that is not negative, with the `revents` that it has written, by
-- index; -1 with EINTR; or -1 with another error.
pub data PollResult : Type 0 where
  polled : (revents : ℕ → Revents) → PollResult
  interrupted : PollResult
  failed : (strerror : String) → PollResult

-- What the system answers: `poll` for the array and the time-out, call by call; `read` from the
-- signal pipe and `waitpid`, call by call; `malloc`. And the end of the pipe that is read.
pub record World : Type 0 where
  pub poll : List PollFd → ℤ → List PollResult
  pub reads : List ℤ
  pub waits : List WaitResult
  pub malloc : ℕ → Bool
  pub sig_pipe : ℤ

-- The first `n` elements get their `revents`; the first of them has the index `i`.
unfoldable pub set_revents : (ℕ → Revents) → (i n : ℕ) → List PollFd → List PollFd
set_revents revents i zero pfds = pfds
set_revents revents i (suc n) [] = []
set_revents revents i (suc n) (p ∷ pfds) =
    record p { revents = revents i } ∷ set_revents revents (i + 1) n pfds

-- The `do … while` loop around `poll`, and the test of its result. Past the end of the list `poll`
-- does not return.
unfoldable pub poll_loop : List PollResult → (nfds : ℕ) → List PollFd → Result (List PollFd)
poll_loop [] nfds pfds = blocked
poll_loop (polled revents ∷ rs) nfds pfds = ok (set_revents revents 0 nfds pfds)
poll_loop (interrupted ∷ rs) nfds pfds = poll_loop rs nfds pfds
poll_loop (failed strerror ∷ rs) nfds pfds = raised ("xpio: poll error (" ++ strerror ++ ")")

-- `if (numChildWaiters) { … }`
unfoldable pub add_sig_pipe : World → (num_child_waiters : ℕ) → Build → Result Build
add_sig_pipe w num b = if num == 0 then ok b else do
  grown ← ensure_fds w.malloc b.pfds b.used
  ok (record b { pfds = modify grown b.used (start_watch reader w.sig_pipe); used = b.used + 1 })

-- `pfds[i].revents & (POLLIN | POLLERR | POLLHUP | POLLNVAL)`, where `events` is POLLIN
unfoldable pub is_signalled : List PollFd → (i : ℕ) → Bool
is_signalled pfds i = elim (get_elem? pfds i) [ none ↦ false | some p ↦ wakes reader p ]

abbrev pub is_nil : List ℕ → Bool
is_nil [] = true
is_nil (t ∷ ts) = false

-- `lengthOf(L, -1) ? 0 : timeout`
unfoldable pub shorten : List ℕ → ℤ → ℤ
shorten ready timeout = if is_nil ready then timeout else pos 0

module _ (T : TableApi) where
  -- What the call leaves: the tasks and tables, the process objects, `me->pfds`, and the result, which
  -- is nil or the array of ready tasks.
  pub record Waited : Type 0 where
    pub state : State T
    pub procs : Procs
    pub pfds : List PollFd
    pub ready : Option (List ℕ)

  -- `xpproc_reap()` and `XPQueue_wakeChildWaiters`, where the signal pipe is ready. A walk through
  -- the list of objects that does not end does not return.
  unfoldable pub wake_reaped :
      ℕ → World → (q : ℕ) → (pfds : List PollFd) → Procs → State T → List ℕ → Result Waited
  wake_reaped fuel w q pfds ps s ready = elim (reap fuel w.reads w.waits ps) [
    | none ↦ blocked
    | some (ps', updated) ↦
        if updated == 0
        then ok (record { state = s; procs = ps'; pfds = pfds; ready = some ready })
        else do
          (s', ready', num) ← wake_children T q ps' (T.entries (s.queues q).children) s ready 0
          ok (record { state = s'; procs = ps'; pfds = pfds; ready = some ready' })
  ]

  -- From the call of `poll` on, with `nfds` elements in use.
  unfoldable pub poll_and_wake :
      ℕ
      → World
      → (q : ℕ) → (timeout : ℤ) → (num nfds : ℕ) → List PollFd
      → Procs
      → State T
      → List ℕ
      → Result Waited
  poll_and_wake fuel w q timeout num nfds pfds ps s ready = do
    pfds' ← poll_loop (w.poll (take nfds pfds) timeout) nfds pfds
    (s', ready') ← wake_sockets T q (take (nfds - (if num == 0 then 0 else 1)) pfds') s ready
    if (if num == 0 then false else is_signalled pfds' (nfds - 1))
        then wake_reaped fuel w q pfds' ps s' ready'
        else ok (record { state = s'; procs = ps; pfds = pfds'; ready = some ready' })

  -- `xpqueue_wait`; `pfds` is `me->pfds`.
  unfoldable pub wait :
      ℕ → World → (q : ℕ) → Timeout → List PollFd → Procs → State T → Result Waited
  wait fuel w q arg pfds ps s = do
    timeout ← timeout_of arg
    b ← poll_set T w.malloc pfds (s.queues q)
    (s', ready, num) ← wake_children T q ps (T.entries (s.queues q).children) s [] 0
    b' ← add_sig_pipe w num b
    if eq_ℤ (shorten ready timeout) minus_one && (b'.used == 0)
        then ok (record { state = s'; procs = ps; pfds = b'.pfds; ready = none })
        else poll_and_wake fuel w q (shorten ready timeout) num b'.used b'.pfds ps s' ready
