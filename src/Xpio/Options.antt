-- ===== src/Xpio/Options.antt =====
-- luau/xpio_c.c: `checkUInt`, the table of socket options, `findSockOpt`, `xpsocket_getsockopt`,
-- `xpsocket_setsockopt` and `xpsocket_listen`.
pub mod RoundTrip
pub mod Bounds
mod Tests
use Prim.Native.Nat.{Ordering}
use Prim.Native.String.{compare}
use flake.Common.{
  ℕ, ◌+◌, ◌-◌, ◌^◌, Bool, true, false, Option, none, some, List, [], ◌∷◌, String, ltb, ◌==◌,
  if◌then◌else◌, ℤ, pos, negsuc, eq_ℤ,
}
use flake.Lua.{Result, ok, raised, ◌>>=◌, LuaValue, nil, boolean, number, string}
use flake.Xpio.Spawn.{FileApi, set_non_blocking, get_non_blocking}
use flake.Xpio.Socket.{Errno, Call, done, fails, push_error}

-- What `luaL_checknumber` makes of an argument: an error; a double below 0, or no number; or a double
-- with its integral part.
pub data Checked : Type 0 where
  not_number : Checked
  below_zero : Checked
  whole : ℕ → Checked

-- UINT_MAX
abbrev pub uint_max : ℕ
uint_max = 2 ^ 32 - 1

-- `checkUInt`
unfoldable pub check_uint : Checked → Result ℕ
check_uint not_number = raised "number expected"
check_uint below_zero = raised "xpio: invalid argument"
check_uint (whole num) = ok (if ltb uint_max num then uint_max else num)

-- The conversion of an unsigned number to int.
unfoldable pub to_int : ℕ → ℤ
to_int n = if ltb n (2 ^ 31) then pos n else negsuc (2 ^ 32 - 1 - n)

-- SOCKOPT_BOOL, SOCKOPT_SIZE
pub data OptType : Type 0 where
  bool_opt : OptType
  size_opt : OptType

-- SOCKOPT_SO, SOCKOPT_NB
pub data Category : Type 0 where
  so : Category
  nb : Category

pub record SockOpt : Type 0 where
  pub str : String
  pub type : OptType
  pub category : Category
  pub level : ℤ
  pub name : ℤ

-- The constants of the system's header files.
pub record Header : Type 0 where
  pub ipproto_tcp : ℤ
  pub sol_socket : ℤ
  pub tcp_nodelay : ℤ
  pub so_keepalive : ℤ
  pub so_reuseaddr : ℤ
  pub so_rcvbuf : ℤ
  pub so_sndbuf : ℤ

abbrev pub opts : Header → List SockOpt
opts h =
    record {
      str = "TCP_NODELAY";
      type = bool_opt;
      category = so;
      level = h.ipproto_tcp;
      name = h.tcp_nodelay;
    }
    ∷ record {
      str = "SO_KEEPALIVE";
      type = bool_opt;
      category = so;
      level = h.sol_socket;
      name = h.so_keepalive;
    }
    ∷ record {
      str = "SO_REUSEADDR";
      type = bool_opt;
      category = so;
      level = h.sol_socket;
      name = h.so_reuseaddr;
    }
    ∷ record {
      str = "SO_RCVBUF";
      type = size_opt;
      category = so;
      level = h.sol_socket;
      name = h.so_rcvbuf;
    }
    ∷ record {
      str = "SO_SNDBUF";
      type = size_opt;
      category = so;
      level = h.sol_socket;
      name = h.so_sndbuf;
    }
    ∷ record { str = "O_NONBLOCK"; type = bool_opt; category = nb; level = pos 0; name = pos 0 }
    ∷ []

-- 0 == strcmp(a, b)
abbrev pub str_eq : String → String → Bool
str_eq a b = elim (compare a b) [ Ordering.eq ↦ true | _ ↦ false ]

-- `findSockOpt`, over the table.
unfoldable pub find_sock_opt : String → List SockOpt → Option SockOpt
find_sock_opt psz [] = none
find_sock_opt psz (po ∷ pos') =
    let rest = find_sock_opt psz pos' in if str_eq psz po.str then some po else rest

-- The third argument: `lua_toboolean` of it, and as `checkUInt` sees it.
pub record Arg : Type 0 where
  pub truth : Bool
  pub checked : Checked

-- The value of `nOpt`
unfoldable pub n_opt : OptType → Arg → Result ℤ
unfolding check_uint to_int
n_opt bool_opt arg = ok (if arg.truth then pos 1 else pos 0)
n_opt size_opt arg = check_uint arg.checked >>= λ n. ok (to_int n)

module _ (F : FileApi) where
  open F use {Kernel}

  -- The system calls `setsockopt` and `getsockopt` for the socket, the level, the name and the value.
  pub record SockApi : Type 0 where
    pub set_opt : Kernel → (s level name value : ℤ) → Kernel × Bool
    pub get_opt : Kernel → (s level name : ℤ) → Option ℤ

  module _ (strerror : Errno → String) (A : SockApi) (h : Header) where
    open A use {set_opt, get_opt}

    -- The call in `xpsocket_setsockopt`, and whether it fails.
    unfoldable pub set_by : Category → Kernel → (s level name value : ℤ) → Kernel × Bool
    unfolding set_non_blocking
    set_by so k s level name value = set_opt k s level name value
    set_by nb k s level name value =
        set_non_blocking F k s (if eq_ℤ value (pos 0) then false else true)

    -- `xpsocket_setsockopt`; `errno` is that of the call.
    unfoldable pub setsockopt :
        (errno : Errno)
        → Kernel
        → (s : ℤ) → (opt_name : String) → Arg
        → Result (Kernel × List LuaValue)
    unfolding find_sock_opt n_opt set_by push_error
    setsockopt errno k s opt_name arg = elim (find_sock_opt opt_name (opts h)) [
      | none ↦ ok (k, nil ∷ string "xpio: unknown socket option" ∷ [])
      | some po ↦ n_opt po.type arg >>= λ value.
          let set = set_by po.category k s po.level po.name value in
          ok (set.0, if set.1 then push_error strerror none errno else boolean true ∷ [])
    ]

    -- The call in `xpsocket_getsockopt`; `none` where it fails.
    unfoldable pub get_by : Category → Kernel → (s level name : ℤ) → Option ℤ
    unfolding get_non_blocking
    get_by so k s level name = get_opt k s level name
    get_by nb k s level name =
        let got = get_non_blocking F k s in
        if got.1 then none else some (if got.0 then pos 1 else pos 0)

    -- lua_pushboolean or lua_pushnumber
    abbrev pub push_opt : OptType → ℤ → List LuaValue
    push_opt bool_opt value = boolean (if eq_ℤ value (pos 0) then false else true) ∷ []
    push_opt size_opt value = number value ∷ []

    -- `xpsocket_getsockopt`
    unfoldable pub getsockopt : (errno : Errno) → Kernel → (s : ℤ) → (psz : String) → List LuaValue
    unfolding find_sock_opt get_by push_error
    getsockopt errno k s psz = elim (find_sock_opt psz (opts h)) [
      | none ↦ nil ∷ string "xpio: unknown socket option" ∷ []
      | some po ↦ elim (get_by po.category k s po.level po.name) [
        | none ↦ push_error strerror none errno
        | some value ↦ push_opt po.type value
      ]
    ]

-- `xpsocket_listen`; the argument is absent where there is none.
unfoldable pub listen :
    (strerror : Errno → String)
    → (listen_call : ℤ → Call (Unit {0})) → (backlog : Option Checked) → Result (List LuaValue)
unfolding check_uint to_int push_error
listen strerror listen_call backlog = do
  n ← elim backlog [ none ↦ ok 10 | some b ↦ check_uint b ]
  elim (listen_call (to_int n)) [
    | done _ ↦ ok (boolean true ∷ [])
    | fails errno ↦ ok (push_error strerror none errno)
  ]
