-- ===== src/Xpio/Queue/Wake.antt =====
-- luau/xpio_c.c: moving tasks from the tables of a queue to the array of ready tasks.
pub mod Wakings
pub mod Sockets
pub mod Events
pub mod Ready
use flake.Common.{
  ℕ, zero, suc, ◌+◌, ◌≡◌, Bool, true, false, ◌&&◌, ◌||◌, Option, none, some, List, [], ◌∷◌, ◌++◌,
  if◌then◌else◌, ℤ, length,
}
use flake.Lua.{Result, ok, raised, ◌>>=◌}
use flake.Lua.Table.{Key, Entries, TableApi}
use flake.Xpio.Proc.{Procs, proc_is_exited}
use flake.Xpio.Queue.{
  Mode, reader, writer, child_waiter, Task, Tables, State, table, put_entry, put_task,
}
use flake.Xpio.Queue.PollSet.{PollFd, Revents}

-- revents & (POLLIN | POLLERR | POLLHUP | POLLNVAL), and with POLLOUT in place of POLLIN
abbrev pub wakes : Mode → PollFd → Bool
wakes reader p =
    p.want_in
    && (p.revents.in_ready || (p.revents.error || (p.revents.hangup || p.revents.invalid)))
wakes writer p =
    p.want_out
    && (p.revents.out_ready || (p.revents.error || (p.revents.hangup || p.revents.invalid)))
wakes child_waiter p = false

module _ (T : TableApi) (q : ℕ) where
  -- `_dequeue = nil`
  unfoldable pub clear_dequeue : State T → (task : ℕ) → State T
  unfolding put_task
  clear_dequeue s task = put_task T s task (record (s.tasks task) { dequeue = none })

  -- The body of either `if` in `XPQueue_wakeSockets`: the state, and the array of ready tasks. Lua
  -- raises an error where there is no task for the descriptor.
  unfoldable pub wake_one : Mode → ℤ → State T → List ℕ → Result (State T × List ℕ)
  unfolding put_entry clear_dequeue
  wake_one mode f s ready = elim (T.get (table T (s.queues q) mode) (Key.fd f)) [
    | none ↦ raised "attempt to index a nil value"
    | some task ↦ ok (put_entry T (clear_dequeue s task) q mode (Key.fd f) none, ready ++ task ∷ [])
  ]

  -- One of the two `if` statements, and both.
  unfoldable pub wake_if : Mode → PollFd → State T → List ℕ → Result (State T × List ℕ)
  unfolding wake_one
  wake_if mode p s ready = if wakes mode p then wake_one mode p.fd s ready else ok (s, ready)

  -- The loop of `XPQueue_wakeSockets`.
  unfoldable pub wake_sockets : List PollFd → State T → List ℕ → Result (State T × List ℕ)
  wake_sockets [] s ready = ok (s, ready)
  wake_sockets (p ∷ ps) s ready = do
    (s', ready') ← wake_if reader p s ready
    (s'', ready'') ← wake_if writer p s' ready'
    wake_sockets ps s'' ready''

  -- The first loop of `XPQueue_wakeChildWaiters`, over the entries that `lua_next` meets, with
  -- `numWaiting`. Clearing an entry during the traversal is allowed.
  unfoldable pub wake_children :
      Procs → Entries → State T → List ℕ → (num_waiting : ℕ) → Result (State T × List ℕ × ℕ)
  wake_children ps [] s ready num_waiting = ok (s, ready, num_waiting)
  wake_children ps ((Key.fd f, task) ∷ es) s ready num_waiting = raised "XPProc object expected"
  wake_children ps ((Key.proc p, task) ∷ es) s ready num_waiting = elim (proc_is_exited ps p) [
    | none ↦ raised "XPProc object expected"
    | some true ↦
        wake_children ps es (put_entry T (clear_dequeue s task) q child_waiter (Key.proc p) none)
          (ready ++ task ∷ []) num_waiting
    | some false ↦ wake_children ps es s ready (num_waiting + 1)
  ]
