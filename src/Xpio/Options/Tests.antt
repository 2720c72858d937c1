-- ===== src/Xpio/Options/Tests.antt =====
-- Tests of luau/xpio_c.c's socket options, and the theorems at concrete inputs.
use flake.Common.{◌≡◌, refl, true, false, none, [], ◌∷◌, String, pos, minus_one}
use flake.Lua.{ok, nil, boolean, string}
use flake.Xpio.Spawn.Sample.{tables, four_open}
use flake.Xpio.Socket.{Errno, again, done}
use flake.Xpio.Options.{
  not_number, whole, Header, SockApi, SockOpt, bool_opt, size_opt, so, nb, check_uint, to_int,
  find_sock_opt, Arg, n_opt, setsockopt, listen,
}

-- The numbers of Linux.
abbrev linux : Header
linux = record {
  ipproto_tcp = pos 6;
  sol_socket = pos 1;
  tcp_nodelay = pos 1;
  so_keepalive = pos 9;
  so_reuseaddr = pos 2;
  so_rcvbuf = pos 8;
  so_sndbuf = pos 7;
}

-- No option can be set.
abbrev refusing : SockApi tables
refusing = record { set_opt = λ k s level name value. (k, true); get_opt = λ k s level name. none }

abbrev failure : Errno → String
failure e = "failure"

abbrev nonblock : SockOpt
nonblock = record {
  str = "O_NONBLOCK";
  type = bool_opt;
  category = nb;
  level = pos 0;
  name = pos 0;
}

abbrev off : Arg
off = record { truth = false; checked = not_number }

-- Every option can be set.
abbrev accepting : SockApi tables
accepting = record {
  set_opt = λ k s level name value. (k, false);
  get_opt = λ k s level name. none;
}

abbrev rcvbuf : SockOpt
rcvbuf = record { str = "SO_RCVBUF"; type = size_opt; category = so; level = pos 1; name = pos 8 }

huge-n_opt : n_opt size_opt (record { truth = true; checked = whole 4294967295 }) ≡ ok minus_one
unfolding n_opt check_uint to_int
huge-n_opt = refl

unknown-setsockopt :
    setsockopt tables failure refusing linux again four_open (pos 5) "SO_LINGER" off
    ≡ ok (four_open, nil ∷ string "xpio: unknown socket option" ∷ [])
unfolding setsockopt find_sock_opt
unknown-setsockopt = refl

default-listen : listen failure (λ backlog. done tt) none ≡ ok (boolean true ∷ [])
unfolding listen
default-listen = refl
