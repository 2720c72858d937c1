-- ===== src/Xpio/Socket.antt =====
-- luau/xpio_c.c, XPSocket: the calls that may have to be tried again, opening, and closing. A system
-- call is an argument; it gives a result, or fails with `errno`.
pub mod Retry
pub mod Open
pub mod Close
mod Tests
use flake.Common.{
  ℕ, zero, suc, ◌≡◌, Bool, true, false, ◌&&◌, ◌||◌, not, Option, none, some, List, [], ◌∷◌, ◌++◌,
  String, ◌==◌, if◌then◌else◌, ℤ, pos, minus_one, eq_ℤ,
}
use flake.Lua.{LuaValue, nil, boolean, integer, string, bytes, userdata}
use flake.Xpio.Address.{SockAddr, addr_from_string}
use flake.Xpio.Spawn.{FileApi, set_non_blocking}

-- The values of `errno` that the code names, and the others. EAGAIN and EWOULDBLOCK may be equal.
pub data Errno : Type 0 where
  again : Errno
  would_block : Errno
  intr : Errno
  in_progress : Errno
  already : Errno
  is_conn : Errno
  other : ℕ → Errno

-- `isRetry`
unfoldable pub is_retry : Errno → Bool
is_retry again = true
is_retry would_block = true
is_retry intr = true
is_retry in_progress = true
is_retry already = true
is_retry is_conn = false
is_retry (other n) = false

pub data Call (A : Type 0) : Type 0 where
  done : A → Call A
  fails : Errno → Call A

-- `pushError` with a format, none of which has a directive, or with NULL; `strerror` is an argument.
unfoldable pub push_error :
    (strerror : Errno → String) → (fmt : Option String) → (errno : Errno) → List LuaValue
push_error strerror none errno = nil ∷ string (strerror errno) ∷ []
push_error strerror (some fmt) errno = nil ∷ string fmt ∷ []

-- isRetry(errno) ? "retry" : NULL
unfoldable pub retry_or_null : Errno → Option String
unfolding is_retry
retry_or_null errno = if is_retry errno then some "retry" else none

-- errno == EISCONN
abbrev pub connected : Errno → Bool
connected is_conn = true
connected _ = false

-- SHUT_RD, SHUT_WR, SHUT_RDWR
pub data Shut : Type 0 where
  shut_rd : Shut
  shut_wr : Shut
  shut_rdwr : Shut

-- strchr(flags, ch) != NULL
abbrev pub has_char : ℕ → List ℕ → Bool
has_char ch [] = false
has_char ch (c ∷ flags) = c == ch || has_char ch flags

-- What `xpsocket_shutdown` passes to `shutdown`, if it calls it.
unfoldable pub shut_of : (flags : List ℕ) → Option Shut
shut_of flags =
    let shutr = has_char b'r' flags in
    let shutw = has_char b'w' flags in
    if shutr || shutw
    then some (if shutr && shutw then shut_rdwr else if shutr then shut_rd else shut_wr)
    else none

-- `xpsocket_close` and `xpsocket_dtor`: `me->s` after them, the results, and the argument of `close`,
-- if it is called.
pub data SocketOp : Type 0 where
  close_op : SocketOp
  dtor_op : SocketOp

unfoldable pub close_socket : ℤ → ℤ × List LuaValue × List ℤ
close_socket s =
    if eq_ℤ s minus_one
    then (minus_one, nil ∷ string "already closed" ∷ [], [])
    else (minus_one, boolean true ∷ [], s ∷ [])

unfoldable pub socket_dtor : ℤ → ℤ × List LuaValue × List ℤ
socket_dtor s = if eq_ℤ s (pos 0) then (s, [], []) else (minus_one, [], s ∷ [])

unfoldable pub socket_op : SocketOp → ℤ → ℤ × List LuaValue × List ℤ
unfolding close_socket socket_dtor
socket_op close_op s = close_socket s
socket_op dtor_op s = socket_dtor s

-- All arguments of `close`, over calls in turn.
unfoldable pub closes : List SocketOp → ℤ → List ℤ
unfolding socket_op
closes [] s = []
closes (op ∷ ops) s = (socket_op op s).2 ++ closes ops (socket_op op s).0

module _ (strerror : Errno → String) where
  -- `xpsocket_try_read`, for a size that `checkUInt` has read; `read` gives the bytes that it stores.
  unfoldable pub try_read : (size : ℕ) → (read : Call (List ℕ)) → List LuaValue
  unfolding push_error retry_or_null
  try_read zero read = integer (pos 0) ∷ []
  try_read (suc size) (done (b ∷ bs)) = bytes (b ∷ bs) ∷ []
  try_read (suc size) (done []) = nil ∷ []
  try_read (suc size) (fails errno) = push_error strerror (retry_or_null errno) errno

  -- `xpsocket_try_write`
  unfoldable pub try_write : (write : Call ℕ) → List LuaValue
  unfolding push_error retry_or_null
  try_write (done n) = integer (pos n) ∷ []
  try_write (fails errno) = push_error strerror (retry_or_null errno) errno

  -- `xpsocket_try_connect`
  unfoldable pub try_connect :
      (connect : SockAddr → Call (Unit {0})) → (addr : List ℕ) → List LuaValue
  unfolding push_error retry_or_null
  try_connect connect addr = elim (addr_from_string addr) [
    | none ↦ nil ∷ string "xpio: mal-formed address" ∷ []
    | some sin ↦ elim (connect sin) [
      | done _ ↦ boolean true ∷ []
      | fails errno ↦
          if connected errno
          then boolean true ∷ []
          else push_error strerror (retry_or_null errno) errno
    ]
  ]

  -- `xpsocket_bind`
  unfoldable pub bind : (bind_call : SockAddr → Call (Unit {0})) → (addr : List ℕ) → List LuaValue
  unfolding push_error
  bind bind_call addr = elim (addr_from_string addr) [
    | none ↦ nil ∷ string "xpio: mal-formed address argument" ∷ []
    | some sin ↦ elim (bind_call sin) [
      | done _ ↦ boolean true ∷ []
      | fails errno ↦ push_error strerror none errno
    ]
  ]

  -- `xpsocket_shutdown`
  unfoldable pub shutdown :
      (shutdown_call : Shut → Call (Unit {0})) → (flags : List ℕ) → List LuaValue
  unfolding push_error shut_of
  shutdown shutdown_call flags = elim (shut_of flags) [
    | none ↦ boolean true ∷ []
    | some how ↦ elim (shutdown_call how) [
      | done _ ↦ boolean true ∷ []
      | fails errno ↦ push_error strerror none errno
    ]
  ]

  -- What a call leaves: the kernel, the field `s` of the sockets that it makes, and its results.
  module _ (F : FileApi) where
    open F use {Kernel, close}

    pub record Opened : Type 0 where
      pub kernel : Kernel
      pub s : ℤ
      pub values : List LuaValue

    pub record OpenedPair : Type 0 where
      pub kernel : Kernel
      pub a : ℤ
      pub b : ℤ
      pub values : List LuaValue

    -- `xpsocket_try_accept`; `fresh` is the new userdata, `accept` gives the descriptor, and `fl_errno`
    -- is `errno` where `fcntl` fails.
    unfoldable pub try_accept :
        (fresh : ℕ) → (fl_errno : Errno) → Kernel → (accept : Call ℤ) → Opened
    unfolding push_error retry_or_null set_non_blocking
    try_accept fresh fl_errno k (fails errno) = record {
      kernel = k;
      s = minus_one;
      values = push_error strerror (retry_or_null errno) errno;
    }
    try_accept fresh fl_errno k (done fd) =
        let set = set_non_blocking F k fd true in
        if set.1
        then record {
          kernel = close set.0 fd;
          s = minus_one;
          values = push_error strerror none fl_errno;
        }
        else record { kernel = set.0; s = fd; values = userdata fresh ∷ [] }

    -- `xpio_socket`, for a type that it knows.
    unfoldable pub open_socket :
        (fresh : ℕ) → (fl_errno : Errno) → Kernel → (socket : Call ℤ) → Opened
    unfolding push_error set_non_blocking
    open_socket fresh fl_errno k (fails errno) = record {
      kernel = k;
      s = minus_one;
      values = push_error strerror none errno;
    }
    open_socket fresh fl_errno k (done fd) =
        let set = set_non_blocking F k fd true in
        record {
          kernel = set.0;
          s = fd;
          values = if set.1 then push_error strerror none fl_errno else userdata fresh ∷ [];
        }

    -- `xpio_pair`, where `pair` is the call of `pipe` or `socketpair`.
    unfoldable pub open_pair :
        (fresh_a fresh_b : ℕ) → (fl_errno : Errno) → Kernel → (pair : Call (ℤ × ℤ)) → OpenedPair
    unfolding push_error set_non_blocking
    open_pair fresh_a fresh_b fl_errno k (fails errno) = record {
      kernel = k;
      a = minus_one;
      b = minus_one;
      values = push_error strerror none errno;
    }
    open_pair fresh_a fresh_b fl_errno k (done (a, b)) =
        let set_a = set_non_blocking F k a true in
        let set_b = set_non_blocking F set_a.0 b true in
        if set_a.1
        then record { kernel = set_a.0; a = a; b = b; values = push_error strerror none fl_errno }
        else record {
          kernel = set_b.0;
          a = a;
          b = b;
          values =
              if set_b.1
              then push_error strerror none fl_errno
              else userdata fresh_a ∷ userdata fresh_b ∷ [];
        }
