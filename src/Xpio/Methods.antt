-- ===== src/Xpio/Methods.antt =====
-- luau/xpio_c.c: the functions that join the components: names of sockets, waiting for sockets and
-- processes, and the functions that make sockets.
pub mod Init
mod Tests
use flake.Common.{
  ℕ, Bool, true, false, Option, none, some, List, [], ◌∷◌, String, if◌then◌else◌, ℤ, minus_one,
}
use flake.Lua.{LuaValue, Result, ok, raised, ◌>>=◌, nil, integer, string, bytes, userdata}
use flake.Lua.Table.{TableApi, Key}
use flake.Xpio.Address.{SockAddr, get_xname}
use flake.Xpio.Spawn.{FileApi, set_non_blocking}
use flake.Xpio.Options.{str_eq, Checked, check_uint, to_int}
use flake.Xpio.Socket.{
  Errno, Call, done, fails, push_error, Opened, OpenedPair, open_socket, open_pair,
}
use flake.Xpio.Queue.PollSet.{PollFd}
use flake.Xpio.Queue.{Mode, reader, writer, child_waiter, State, enqueue}

-- `xpsocket_fileno`
unfoldable pub fileno : (s : ℤ) → List LuaValue
fileno s = integer s ∷ []

-- `xpsocket_getXname` with its error; `unknown` is the text that `lua_pushfstring` makes there.
unfoldable pub push_xname : (fmt : ℕ → List ℕ) → (unknown : String) → SockAddr → List LuaValue
unfolding get_xname
push_xname fmt unknown sin = elim (get_xname fmt sin) [
  | some name ↦ bytes name ∷ []
  | none ↦ nil ∷ string unknown ∷ []
]

-- `xpsocket_when_read`, `xpsocket_when_write` and `xpproc_when_wait`: what is done to the queue of the
-- task.
module _ (T : TableApi) where
  unfoldable pub when_read : State T → (s : ℤ) → (task : ℕ) → Result (State T)
  unfolding enqueue
  when_read q s task = enqueue T q task (Key.fd s) reader

  unfoldable pub when_write : State T → (s : ℤ) → (task : ℕ) → Result (State T)
  unfolding enqueue
  when_write q s task = enqueue T q task (Key.fd s) writer

  unfoldable pub when_wait : State T → (process : ℕ) → (task : ℕ) → Result (State T)
  unfolding enqueue
  when_wait q process task = enqueue T q task (Key.proc process) child_waiter

-- `initialized` in `xpproc_init`, `sigchldPipe`, and whether `handleSIGCHLD` is installed.
pub record SigChild : Type 0 where
  pub initialized : Bool
  pub read_end : ℤ
  pub write_end : ℤ
  pub handler : Bool

-- `xpproc_getSigPipe`
unfoldable pub get_sig_pipe : SigChild → ℤ
get_sig_pipe g = g.read_end

-- What `xpproc_init` leaves: the variables, the kernel, and whether it prints an error.
pub record InitResult (Kernel : Type 0) : Type 0 where
  pub globals : SigChild
  pub kernel : Kernel
  pub prints : Bool

-- `xpproc_init`; `pipe` makes the descriptors and gives the kernel with them, or fails.
unfoldable pub proc_init :
    (F : FileApi)
    → (pipe : F.Kernel → Option (F.Kernel × ℤ × ℤ)) → (sigaction_fails : Bool) → SigChild
    → F.Kernel
    → InitResult F.Kernel
unfolding set_non_blocking
proc_init F pipe sigaction_fails g k =
    if g.initialized
    then record { globals = g; kernel = k; prints = false }
    else (let started = record g { initialized = true } in
        elim (pipe k) [
          | none ↦ record { globals = started; kernel = k; prints = true }
          | some (k', a, b) ↦
              let piped = record started { read_end = a; write_end = b } in
              let set = set_non_blocking F k' a true in
              if set.1
              then record { globals = piped; kernel = set.0; prints = true }
              else if sigaction_fails
              then record { globals = piped; kernel = set.0; prints = true }
              else record {
                globals = record piped { handler = true };
                kernel = set.0;
                prints = false;
              }
        ])

-- `xpqueue_dtor`: `me->pfds` and `me->nfds`, where `none` is NULL, and whether `free` is called.
unfoldable pub queue_dtor :
    (pfds : Option (List PollFd)) → (nfds : ℕ) → Option (List PollFd) × ℕ × Bool
queue_dtor none nfds = (none, nfds, false)
queue_dtor (some pfds) nfds = (none, 0, true)

-- SOCK_STREAM, SOCK_DGRAM
pub data SockType : Type 0 where
  sock_stream : SockType
  sock_dgram : SockType

-- The type that `xpio_socket` takes from its name.
unfoldable pub sock_type : (type_name : String) → Option SockType
sock_type type_name =
    if str_eq type_name "TCP"
    then some sock_stream
    else if str_eq type_name "UDP"
    then some sock_dgram
    else none

-- PAIR_PIPE, PAIR_SOCKET
pub data PairType : Type 0 where
  pair_pipe : PairType
  pair_socket : PairType

module _ (strerror : Errno → String) where
  -- `xpsocket_getsockname` and `xpsocket_getpeername`, by the system call of that name
  unfoldable pub get_name :
      (fmt : ℕ → List ℕ) → (unknown : String) → (call : Call SockAddr) → List LuaValue
  unfolding push_error push_xname
  get_name fmt unknown (fails errno) = push_error strerror none errno
  get_name fmt unknown (done sin) = push_xname fmt unknown sin

  module _ (F : FileApi) where
    open F use {Kernel}

    -- `xpio_socket`
    unfoldable pub socket :
        (fresh : ℕ)
        → (fl_errno : Errno) → Kernel
        → (socket_call : SockType → Call ℤ) → (type_name : String) → Opened strerror F
    unfolding sock_type open_socket
    socket fresh fl_errno k socket_call type_name = elim (sock_type type_name) [
      | none ↦ record {
        kernel = k;
        s = minus_one;
        values = nil ∷ string "xpio: unsupported socket type" ∷ [];
      }
      | some type ↦ open_socket strerror F fresh fl_errno k (socket_call type)
    ]

    -- `xpio_pair` with the call that the type asks for; `xpio_pipe` and `xpio_socketpair` pass the type.
    unfoldable pub pair :
        (fresh_a fresh_b : ℕ)
        → (fl_errno : Errno) → Kernel
        → (pipe socketpair : Call (ℤ × ℤ)) → PairType
        → OpenedPair strerror F
    unfolding open_pair
    pair fresh_a fresh_b fl_errno k pipe socketpair pair_pipe =
        open_pair strerror F fresh_a fresh_b fl_errno k pipe
    pair fresh_a fresh_b fl_errno k pipe socketpair pair_socket =
        open_pair strerror F fresh_a fresh_b fl_errno k socketpair

    -- `xpio_fdopen`; `dup` gives the kernel with the new descriptor.
    unfoldable pub fdopen :
        (fresh : ℕ)
        → Kernel
        → (dup : ℤ → Call (ℤ × Kernel)) → (num : Checked) → Result (Opened strerror F)
    unfolding check_uint to_int push_error
    fdopen fresh k dup num = do
      n ← check_uint num
      elim (dup (to_int n)) [
        | fails errno ↦
            ok (record { kernel = k; s = minus_one; values = push_error strerror none errno })
        | done (fd, copied) ↦ ok (record { kernel = copied; s = fd; values = userdata fresh ∷ [] })
      ]
