-- ===== src/Xpio/Module.antt =====
-- luau/xpio_c.c: the arrays of functions, `luaopen_xpio_c`, and `xpio_newObject`, on the Lua states of
-- luau/xlua.h.
pub mod Objects
pub mod Casts
mod Tests
use flake.Common.{ℕ, Option, none, some, List, [], ◌∷◌, String}
use flake.Xlua.{
  Reg, Field, table, closure, strings, Store, set_field, create_table, register, new_object, CType,
  newmt,
}

abbrev reg : String → String → Reg
reg name func = record { name = name; func = func }

abbrev pub xpproc_regs : List Reg
xpproc_regs =
    reg "__gc" "xpproc_dtor"
    ∷ reg "kill" "xpproc_kill"
    ∷ reg "try_wait" "xpproc_try_wait"
    ∷ reg "when_wait" "xpproc_when_wait"
    ∷ []

abbrev pub xpqueue_regs : List Reg
xpqueue_regs =
    reg "__gc" "xpqueue_dtor" ∷ reg "wait" "xpqueue_wait" ∷ reg "isEmpty" "xpqueue_isEmpty" ∷ []

abbrev pub xpsocket_regs : List Reg
xpsocket_regs =
    reg "__gc" "xpsocket_dtor"
    ∷ reg "try_connect" "xpsocket_try_connect"
    ∷ reg "try_accept" "xpsocket_try_accept"
    ∷ reg "try_read" "xpsocket_try_read"
    ∷ reg "try_write" "xpsocket_try_write"
    ∷ reg "when_read" "xpsocket_when_read"
    ∷ reg "when_write" "xpsocket_when_write"
    ∷ reg "bind" "xpsocket_bind"
    ∷ reg "listen" "xpsocket_listen"
    ∷ reg "getsockname" "xpsocket_getsockname"
    ∷ reg "getpeername" "xpsocket_getpeername"
    ∷ reg "getsockopt" "xpsocket_getsockopt"
    ∷ reg "setsockopt" "xpsocket_setsockopt"
    ∷ reg "shutdown" "xpsocket_shutdown"
    ∷ reg "close" "xpsocket_close"
    ∷ reg "fileno" "xpsocket_fileno"
    ∷ []

abbrev pub xpio_regs : List Reg
xpio_regs =
    reg "socket" "xpio_socket"
    ∷ reg "tqueue" "xpio_tqueue"
    ∷ reg "gettime" "xpio_gettime"
    ∷ reg "socketpair" "xpio_socketpair"
    ∷ reg "pipe" "xpio_pipe"
    ∷ reg "fdopen" "xpio_fdopen"
    ∷ reg "_spawn" "xpio__spawn"
    ∷ reg "_nextfd" "xpio__nextfd"
    ∷ []

-- The addresses of the arrays, and the sizes of the C structures.
pub record Linked : Type 0 where
  pub proc_regs : ℕ
  pub queue_regs : ℕ
  pub socket_regs : ℕ
  pub proc_size : ℕ
  pub queue_size : ℕ
  pub socket_size : ℕ

abbrev pub xpproc : Linked → CType
xpproc l = record {
  name = "XPProc";
  regs = l.proc_regs;
  functions = xpproc_regs;
  size = l.proc_size;
}

abbrev pub xpqueue : Linked → CType
xpqueue l = record {
  name = "XPQueue";
  regs = l.queue_regs;
  functions = xpqueue_regs;
  size = l.queue_size;
}

abbrev pub xpsocket : Linked → CType
xpsocket l = record {
  name = "XPSocket";
  regs = l.socket_regs;
  functions = xpsocket_regs;
  size = l.socket_size;
}

-- XLUA_NEWMT for a type, and `lua_setfield` of the new metatable in the table `t`.
unfoldable pub add_type : Store → (t : ℕ) → CType → (name : String) → Store
unfolding newmt set_field
add_type s t type name = set_field (newmt s type) t name (table s.next)

-- The same for XPSocket, with a closure for `try_accept`, which makes a socket.
unfoldable pub add_socket_type : Store → (t : ℕ) → CType → Store
unfolding newmt set_field
add_socket_type s t type =
    let with_accept =
      set_field (newmt s type) s.next "try_accept" (closure "xpsocket_try_accept" (some t)) in
    set_field with_accept t "_XPSocket" (table s.next)

-- `luaopen_xpio_c`: the state; the new table has the address `s.next`. `env` is what `xpio_getenv`
-- gives. The call of `signal` does not concern the state.
unfoldable pub luaopen_xpio_c : Linked → (env : List (List ℕ × List ℕ)) → Store → Store
unfolding create_table register add_type add_socket_type set_field
luaopen_xpio_c l env s =
    let t = s.next in
    let functions = register (create_table s) t xpio_regs (some t) in
    let procs = add_type functions t (xpproc l) "_XPProc" in
    let queues = add_type procs t (xpqueue l) "_XPQueue" in
    let sockets = add_socket_type queues t (xpsocket l) in set_field sockets t "env" (strings env)

-- lua_setmetatable takes a table, or nil.
abbrev pub metatable_of : Option Field → Option ℕ
metatable_of (some (table t)) = some t
metatable_of _ = none

-- XPIO_NEWOBJECT in a closure with the upvalue `t`: the new userdata has the address `s.next`.
unfoldable pub xpio_new_object : Store → (t : ℕ) → CType → (mt_name : String) → Store
unfolding new_object
xpio_new_object s t type mt_name = new_object s (metatable_of (s.fields t mt_name)) type.size

-- The three types, and the name of the metatable that XPIO_NEWOBJECT looks up for each.
pub data Kind : Type 0 where
  proc_kind : Kind
  queue_kind : Kind
  socket_kind : Kind

abbrev pub type_for : Linked → Kind → CType
type_for l proc_kind = xpproc l
type_for l queue_kind = xpqueue l
type_for l socket_kind = xpsocket l

abbrev pub mt_name : Kind → String
mt_name proc_kind = "_XPProc"
mt_name queue_kind = "_XPQueue"
mt_name socket_kind = "_XPSocket"
