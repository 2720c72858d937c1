-- ===== src/Xpio/Module/Tests.antt =====
-- Tests of the registration of xpio with Lua, and the theorem at a concrete input.
use flake.Common.{ℕ, ◌≡◌, refl, none, some, [], String}
use flake.Lua.{raised}
use flake.Xlua.{closure, Store, set_field, create_table, register, new_mt, newmt, full, cast}
use flake.Xlua.Typed.{initial}
use flake.Xpio.Module.{
  Linked, add_type, add_socket_type, luaopen_xpio_c, xpio_new_object, xpsocket, xpqueue, queue_kind,
  socket_kind,
}
use flake.Xpio.Module.Casts.{cast-xpio_new_object}

abbrev linked : Linked
linked = record {
  proc_regs = 1;
  queue_regs = 2;
  socket_regs = 3;
  proc_size = 24;
  queue_size = 16;
  socket_size = 4;
}

abbrev lua : Store
lua = initial 10 (λ t n. none)

abbrev opened : Store
opened = luaopen_xpio_c linked [] lua

socket_function : opened.fields 10 "socket" ≡ some (closure "xpio_socket" (some 10))
unfolding luaopen_xpio_c add_socket_type add_type newmt new_mt create_table register set_field
socket_function = refl

try_accept_method : opened.fields 13 "try_accept" ≡ some (closure "xpsocket_try_accept" (some 10))
unfolding luaopen_xpio_c add_socket_type add_type newmt new_mt create_table register set_field
try_accept_method = refl

close_method : opened.fields 13 "close" ≡ some (closure "xpsocket_close" none)
unfolding luaopen_xpio_c add_socket_type add_type newmt new_mt create_table register set_field
close_method = refl

abbrev argerror : ℕ → String → String
argerror narg message = message

abbrev expected : String → String → String
expected type got = type

cast-xpio_new_object_example :
    cast argerror expected
      (xpio_new_object opened 10 (xpsocket linked) "_XPSocket")
      1
      (full opened.next)
      (xpqueue linked)
    ≡ raised "XPQueue"
cast-xpio_new_object_example =
    cast-xpio_new_object argerror expected linked [] lua 1 socket_kind queue_kind
