-- ===== src/Xpio/Queue.antt =====
-- luau/xpio_c.c, XPQueue: tasks that wait for descriptors and processes, and `poll`.
-- Lua tables come through the interface of Lua/Table.antt. Tasks, queues and process objects are
-- known by their addresses.
pub mod Registry
pub mod Schedule
pub mod PollSet
pub mod Wake
pub mod Wait
pub mod Sample
mod Tests
use flake.Common.{
  ℕ, zero, suc, ◌+◌, ◌≡◌, Bool, true, false, ◌&&◌, ◌||◌, not, Option, none, some, List, [], ◌∷◌,
  ◌++◌, String, ltb, ◌==◌, if◌then◌else◌, ℤ, pos, minus_one, length, set, get_elem?,
}
use flake.Lua.{Result, ok, raised, ◌>>=◌}
use flake.Lua.Table.{Key, fd, proc, Entries, TableApi}

-- XPQUEUE_READ, XPQUEUE_WRITE, XPQUEUE_CHILD
pub data Mode : Type 0 where
  reader : Mode
  writer : Mode
  child_waiter : Mode

-- The fields of a task: `_queue`, where it holds an XPQueue; `_dequeue`, which is nil or one of
-- `xpqueue_dequeueR`, `W`, `C`; and `_dequeuedata`.
pub record Task : Type 0 where
  pub queue : Option ℕ
  pub dequeue : Option Mode
  pub dequeuedata : Option Key

module _ (T : TableApi) where
  open T use {Table, empty, get, put, entries}

  -- The uservalue of a queue.
  pub record Tables : Type 0 where
    pub readers : Table
    pub writers : Table
    pub children : Table

  pub record State : Type 0 where
    pub tasks : ℕ → Task
    pub queues : ℕ → Tables

  -- lua_rawgeti(L, uservalue, mode)
  abbrev pub table : Tables → Mode → Table
  table ts reader = ts.readers
  table ts writer = ts.writers
  table ts child_waiter = ts.children

  abbrev pub with_table : Tables → Mode → Table → Tables
  with_table ts reader t = record ts { readers = t }
  with_table ts writer t = record ts { writers = t }
  with_table ts child_waiter t = record ts { children = t }

  unfoldable pub put_entry : State → (q : ℕ) → Mode → Key → Option ℕ → State
  put_entry s q mode k v = record s {
    queues = λ r.
        if r == q
        then with_table (s.queues q) mode (put (table (s.queues q) mode) k v)
        else s.queues r;
  }

  unfoldable pub put_task : State → (task : ℕ) → Task → State
  put_task s task f = record s { tasks = λ t. if t == task then f else s.tasks t }

  -- `xpqueue_tableFromTask`: the queue of the task, checked by XLUA_CAST.
  unfoldable pub queue_from_task : State → (task : ℕ) → Result ℕ
  queue_from_task s task = elim (s.tasks task).queue [
    | none ↦ raised "XPQueue object expected"
    | some q ↦ ok q
  ]

  -- `xpqueue_enqueue`
  unfoldable pub enqueue : State → (task : ℕ) → Key → Mode → Result State
  unfolding queue_from_task put_entry put_task
  enqueue s task key mode = elim (s.tasks task).dequeue [
    | some _ ↦ raised "xpio: task scheduled twice"
    | none ↦ do
      q ← queue_from_task s task
      ok (
          put_task (put_entry s q mode key (some task)) task
            (record (s.tasks task) { dequeue = some mode; dequeuedata = some key }))
  ]

  -- `xpqueue_dequeue`. Lua refuses nil as a key.
  unfoldable pub dequeue_task : State → (task : ℕ) → Mode → Result State
  unfolding queue_from_task put_entry put_task
  dequeue_task s task mode = do
    q ← queue_from_task s task
    elim (s.tasks task).dequeuedata [
      | none ↦ raised "table index is nil"
      | some key ↦
          ok
            (put_task (put_entry s q mode key none) task (record (s.tasks task) { dequeue = none }))
    ]

  -- `lua_next` finds no entry.
  abbrev pub no_entries : Entries → Bool
  no_entries [] = true
  no_entries (e ∷ es) = false

  -- `xpqueue_isEmpty`
  unfoldable pub is_empty : State → (q : ℕ) → Bool
  is_empty s q =
      no_entries (entries (s.queues q).readers)
      && (no_entries (entries (s.queues q).writers) && no_entries (entries (s.queues q).children))

  -- `xpio_tqueue`; `fresh` is the address of the new userdata.
  unfoldable pub tqueue : (fresh : ℕ) → State → State
  tqueue fresh s = record s {
    queues = λ r.
        if r == fresh
        then record { readers = empty; writers = empty; children = empty }
        else s.queues r;
  }
