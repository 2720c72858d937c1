-- ===== src/Xpio/Queue/PollSet.antt =====
-- luau/xpio_c.c: the array that `xpqueue_wait` hands to `poll`.
pub mod Index
pub mod Watch
pub mod Collect
use flake.Common.{
  ℕ, zero, suc, ◌+◌, ◌≡◌, Bool, true, false, ◌||◌, Option, none, some, List, [], ◌∷◌, ltb,
  if◌then◌else◌, ℤ, pos, eq_ℤ, length,
}
use flake.Lua.{Result, ok, raised, ◌>>=◌}
use flake.Lua.Table.{Key, fd, proc, Entries, TableApi}
use flake.Xpio.GrowArray.{grow_array}
use flake.Xpio.Queue.{Mode, reader, writer, child_waiter, Tables}

-- The flags of `revents`.
pub record Revents : Type 0 where
  pub in_ready : Bool  -- POLLIN
  pub out_ready : Bool  -- POLLOUT
  pub error : Bool  -- POLLERR
  pub hangup : Bool  -- POLLHUP
  pub invalid : Bool  -- POLLNVAL

-- `struct pollfd`, with the flags POLLIN and POLLOUT of `events`.
pub record PollFd : Type 0 where
  pub fd : ℤ
  pub want_in : Bool
  pub want_out : Bool
  pub revents : Revents

abbrev pub no_events : Revents
no_events = record {
  in_ready = false;
  out_ready = false;
  error = false;
  hangup = false;
  invalid = false;
}

abbrev pub zero_fd : PollFd
zero_fd = record { fd = pos 0; want_in = false; want_out = false; revents = no_events }

-- sizeof(struct pollfd)
abbrev pub pollfd_size : ℕ
pollfd_size = 8

-- `XPQueue_ensureFDs`: the new `me->pfds`, of `me->nfds` elements.
unfoldable pub ensure_fds : (malloc : ℕ → Bool) → List PollFd → ℕ → Result (List PollFd)
ensure_fds malloc pfds ndx =
    let grown = grow_array malloc pfds pollfd_size (ndx + 1) zero_fd in
    if ltb ndx (length grown) then ok grown else raised "xpio: allocation failure"

-- An assignment to fields of `pfds[i]`.
unfoldable pub modify : List PollFd → ℕ → (PollFd → PollFd) → List PollFd
modify [] i f = []
modify (p ∷ ps) zero f = f p ∷ ps
modify (p ∷ ps) (suc i) f = p ∷ modify ps i f

-- lua_tointeger(L, -2)
abbrev pub key_fd : Key → ℤ
key_fd (Key.fd f) = f
key_fd (Key.proc p) = pos 0

-- `me->pfds`, `nfdsUsed` and the table `slots`, which is only read and written by key.
pub record Build : Type 0 where
  pub pfds : List PollFd
  pub used : ℕ
  pub slots : ℤ → Option ℕ

abbrev pub is_reader : Mode → Bool
is_reader reader = true
is_reader _ = false

-- `bAllocated` and `ndxFD`
abbrev pub slot_of : Mode → Build → ℤ → Option ℕ
slot_of writer b f = b.slots f
slot_of reader b f = none
slot_of child_waiter b f = none

-- `.fd = fd; .events = (mode == XPQUEUE_READ ? POLLIN : POLLOUT)`
abbrev pub start_watch : Mode → ℤ → PollFd → PollFd
start_watch mode f p = record p {
  fd = f;
  want_in = is_reader mode;
  want_out = if is_reader mode then false else true;
}

-- `.events |= POLLOUT`
abbrev pub also_out : PollFd → PollFd
also_out p = record p { want_out = true }

-- The body of the loop over readers or writers.
unfoldable pub add_slot : (malloc : ℕ → Bool) → Mode → Build → ℤ → Result Build
add_slot malloc mode b f = elim (slot_of mode b f) [
  | some i ↦ ok (record b { pfds = modify b.pfds i also_out })
  | none ↦ do
    grown ← ensure_fds malloc b.pfds b.used
    ok (record {
      pfds = modify grown b.used (start_watch mode f);
      used = b.used + 1;
      slots =
          λ g. if is_reader mode then if eq_ℤ g f then some b.used else b.slots g else b.slots g;
    })
]

unfoldable pub collect : (malloc : ℕ → Bool) → Mode → Entries → Build → Result Build
collect malloc mode [] b = ok b
collect malloc mode ((k, task) ∷ es) b = do
  b' ← add_slot malloc mode b (key_fd k)
  collect malloc mode es b'

abbrev pub start_build : List PollFd → Build
start_build pfds = record { pfds = pfds; used = 0; slots = λ f. none }

-- The two rounds of the loop `for (mode = XPQUEUE_READ; mode <= XPQUEUE_WRITE; ++mode)`.
unfoldable pub poll_set :
    (T : TableApi) → (malloc : ℕ → Bool) → List PollFd → Tables T → Result Build
poll_set T malloc pfds ts = do
  b ← collect malloc reader (T.entries ts.readers) (start_build pfds)
  collect malloc writer (T.entries ts.writers) b
