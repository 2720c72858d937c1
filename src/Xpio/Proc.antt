-- ===== src/Xpio/Proc.antt =====
-- luau/xpio_c.c, XPProc: the process objects, their global list, and the reaping of children.
-- Objects lie at addresses; 0 is NULL. A function that walks the list takes fuel, and `none` means
-- that the fuel ran out or that the walk met an address with no object.
pub mod Chain
pub mod Walk
pub mod Reap
pub mod Unlink
pub mod Destroy
pub mod Status
pub mod Signals
mod Tests
use flake.Common.{
  ℕ, zero, suc, ◌+◌, ◌/◌, ◌%◌, ◌≡◌, Bool, true, false, ◌||◌, Option, none, some, List, [], ◌∷◌,
  String, ltb, ◌==◌, if◌then◌else◌, ℤ, pos, minus_one, eq_ℤ, is_positive,
}
use flake.Lua.{LuaValue, nil, boolean, integer, string}

-- `struct XPProc`
pub record XpProc : Type 0 where
  pub next : ℕ
  pub pid : ℤ  -- PID until reaped; 0 after reaping
  pub status : ℕ

abbrev pub Cells : Type 0
Cells = ℕ → Option XpProc

unfoldable pub update : Cells → ℕ → XpProc → Cells
update cells a c b = if b == a then some c else cells b

-- The memory of the process objects and `gpHeadProc`.
pub record Procs : Type 0 where
  pub head : ℕ
  pub cells : Cells

-- `xpproc_new` without `xpproc_init`; `fresh` is the address of the new userdata.
unfoldable pub proc_new : (fresh : ℕ) → Procs → Procs
proc_new fresh ps = record {
  head = fresh;
  cells = update ps.cells fresh (record { next = ps.head; pid = pos 0; status = 0 });
}

-- `xpproc_isExited`; `none` where XLUA_CAST raises an error.
unfoldable pub proc_is_exited : Procs → ℕ → Option Bool
proc_is_exited ps me = elim (ps.cells me) [ none ↦ none | some c ↦ some (eq_ℤ c.pid (pos 0)) ]

-- The body of `if (p->pid == pid)` in `xpproc_reap`.
abbrev pub exited : ℕ → XpProc → XpProc
exited status c = record c { pid = pos 0; status = status }

-- The loop over the list in `xpproc_reap`; the Boolean is whether `numUpdated` is incremented.
unfoldable pub mark_exited : ℕ → (p : ℕ) → (pid : ℤ) → (status : ℕ) → Cells → Option (Cells × Bool)
mark_exited zero p pid status cells = none
mark_exited (suc fuel) p pid status cells = if p == 0 then some (cells, false) else elim (cells p) [
  | none ↦ none
  | some c ↦
      let rest = mark_exited fuel c.next pid status cells in
      if eq_ℤ c.pid pid then some (update cells p (exited status c), true) else rest
]

-- What `waitpid(-1, &status, WNOHANG)` returns: a child with its status, 0, -1 with EINTR, or -1
-- with another error, such as ECHILD.
pub data WaitResult : Type 0 where
  child : (pid : ℕ) → (status : ℕ) → WaitResult
  running : WaitResult
  interrupted : WaitResult
  failed : WaitResult

-- The second loop of `xpproc_reap`, over the results of the calls in turn. Past the end of the
-- list there is no child left to wait for.
unfoldable pub reap_children : ℕ → List WaitResult → Procs → (num_updated : ℕ) → Option (Procs × ℕ)
reap_children fuel [] ps num = some (ps, num)
reap_children fuel (child pid status ∷ ws) ps num =
    elim (mark_exited fuel ps.head (pos pid) status ps.cells) [
      | none ↦ none
      | some (cells, found) ↦
          reap_children fuel ws (record ps { cells = cells }) (if found then num + 1 else num)
    ]
reap_children fuel (interrupted ∷ ws) ps num = reap_children fuel ws ps num
reap_children fuel (running ∷ ws) ps num = some (ps, num)
reap_children fuel (failed ∷ ws) ps num = some (ps, num)

-- sizeof buf
abbrev pub buf_size : ℕ
buf_size = 32

-- The first loop of `xpproc_reap`, over the results `n` of the calls of `read` in turn, which give
-- `bReceived`. Past the end of the list the pipe is empty, and `read` returns -1.
unfoldable pub drain_pipe : List ℤ → (received : Bool) → Bool
drain_pipe [] received = received
drain_pipe (n ∷ ns) received =
    let received' = received || is_positive n in
    let rest = drain_pipe ns received' in if eq_ℤ n (pos buf_size) then rest else received'

-- `xpproc_reap`
unfoldable pub reap : ℕ → List ℤ → List WaitResult → Procs → Option (Procs × ℕ)
reap fuel reads ws ps = if drain_pipe reads false then reap_children fuel ws ps 0 else some (ps, 0)

-- The pointer to a pointer of SLL_DEQUEUE: `&gpHeadProc` or `&p->next`.
pub data Slot : Type 0 where
  head_slot : Slot
  next_slot : ℕ → Slot

unfoldable pub load : Procs → Slot → Option ℕ
load ps head_slot = some ps.head
load ps (next_slot a) = elim (ps.cells a) [ none ↦ none | some c ↦ some c.next ]

unfoldable pub store : Procs → Slot → ℕ → Procs
store ps head_slot p = record ps { head = p }
store ps (next_slot a) p = elim (ps.cells a) [
  | none ↦ ps
  | some c ↦ record ps { cells = update ps.cells a (record c { next = p }) }
]

-- SLL_DEQUEUE(me, gpHeadProc, XPProc, next), where `after` is `me->next`
unfoldable pub dequeue_proc : ℕ → (me after : ℕ) → Slot → Procs → Option Procs
dequeue_proc zero me after pp ps = none
dequeue_proc (suc fuel) me after pp ps = elim (load ps pp) [
  | none ↦ none
  | some p ↦
      let rest = dequeue_proc fuel me after (next_slot p) ps in
      if p == 0 then some ps else if p == me then some (store ps pp after) else rest
]

-- `if (me->pid) { kill(me->pid, SIGKILL); me->pid = 0; }`; the list has the calls of `kill`.
unfoldable pub kill_if_running : ℕ → Procs → Option (Procs × List ℤ)
kill_if_running me ps = elim (ps.cells me) [
  | none ↦ none
  | some c ↦
      if eq_ℤ c.pid (pos 0)
      then some (ps, [])
      else some (record ps { cells = update ps.cells me (record c { pid = pos 0 }) }, c.pid ∷ [])
]

-- `xpproc_dtor`
unfoldable pub proc_dtor : ℕ → (me : ℕ) → Procs → Option (Procs × List ℤ)
proc_dtor fuel me ps = elim (ps.cells me) [
  | none ↦ none
  | some c ↦ elim (dequeue_proc fuel me c.next head_slot ps) [
    | none ↦ none
    | some ps' ↦ kill_if_running me ps'
  ]
]

-- `xpproc_kill`: the values returned and the calls of `kill`, whose result is the argument: the
-- message for `errno` where it fails.
unfoldable pub proc_kill : (killed : Option String) → XpProc → List LuaValue × List ℤ
proc_kill killed c =
    if is_positive c.pid
    then (elim killed [ none ↦ boolean true ∷ [] | some e ↦ nil ∷ string e ∷ [] ], c.pid ∷ [])
    else (nil ∷ string "process not running" ∷ [], [])

-- The macros of <sys/wait.h>, as Linux encodes a status.
abbrev pub wtermsig : ℕ → ℕ
wtermsig status = status % 128

abbrev pub wexitstatus : ℕ → ℕ
wexitstatus status = status / 256 % 256

abbrev pub wifexited : ℕ → Bool
wifexited status = wtermsig status == 0

abbrev pub wifsignaled : ℕ → Bool
wifsignaled status =
    if wtermsig status == 0 then false else if wtermsig status == 127 then false else true

abbrev pub wstopsig : ℕ → ℕ
wstopsig status = wexitstatus status

-- `xpproc_try_wait`
unfoldable pub proc_try_wait : XpProc → List LuaValue
proc_try_wait c =
    if is_positive c.pid
    then nil ∷ string "retry" ∷ []
    else if wifexited c.status
    then string "exit" ∷ integer (pos (wexitstatus c.status)) ∷ []
    else if wifsignaled c.status
    then string "signal" ∷ integer (pos (wstopsig c.status)) ∷ []
    else nil ∷ string "retry" ∷ []
