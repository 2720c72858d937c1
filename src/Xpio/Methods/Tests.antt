-- ===== src/Xpio/Methods/Tests.antt =====
-- Tests of the functions of xpio that join the components.
use flake.Common.{
  true, false, Option, ℤ, ◌⊎◌, minus_one, ℕ, ◌+◌, ◌≡◌, refl, none, some, List, [], ◌∷◌, String, pos,
}
use flake.Lua.{bytes, userdata, ok}
use flake.Lua.Assoc.{assoc}
use flake.Xpio.Address.{get_xname}
use flake.Xpio.Methods.Init.{proc_init-proc_init}
use flake.Xpio.Spawn.{get_non_blocking, set_non_blocking, fcntl_mod_fl}
use flake.Xpio.Spawn.Sample.{tables, four_open}
use flake.Xpio.Socket.{Errno, other, done, open_socket}
use flake.Xpio.Queue.{enqueue, queue_from_task}
use flake.Xpio.Queue.Sample.{calm, reading}
use flake.Xpio.Methods.{
  SigChild, proc_init, get_sig_pipe, sock_dgram, sock_type, socket, get_name, push_xname, when_read,
}

abbrev failure : Errno → String
failure e = "failure"

-- Digits of numbers below ten
abbrev digit : ℕ → List ℕ
digit n = (b'0' + n) ∷ []

named_socket :
    get_name failure digit "" (done (record { family = 2; port = (0, 8); addr = (1, 2, 3, 4) }))
    ≡ bytes (b'1' ∷ b'.' ∷ b'2' ∷ b'.' ∷ b'3' ∷ b'.' ∷ b'4' ∷ b':' ∷ b'8' ∷ []) ∷ []
unfolding get_name push_xname get_xname
named_socket = refl

udp : sock_type "UDP" ≡ some sock_dgram
unfolding sock_type
udp = refl

lower_case : sock_type "tcp" ≡ none
unfolding sock_type
lower_case = refl

tcp_socket :
    (socket failure tables 40 (other 9) four_open (λ type. done (pos 5)) "TCP").values
    ≡ userdata 40 ∷ []
unfolding socket sock_type open_socket set_non_blocking fcntl_mod_fl
tcp_socket = refl

waits_for_socket : when_read assoc calm (pos 5) 1 ≡ ok reading
unfolding when_read enqueue queue_from_task
waits_for_socket = refl

abbrev unset : SigChild
unset = record { initialized = false; read_end = minus_one; write_end = minus_one; handler = false }

abbrev pipe_call : tables.Kernel → Option (tables.Kernel × ℤ × ℤ)
pipe_call k = some (k, pos 5, pos 6)

installs_handler : (proc_init tables pipe_call false unset four_open).globals.handler ≡ true
unfolding proc_init set_non_blocking fcntl_mod_fl
installs_handler = refl

proc_init-proc_init_example :
    let first = proc_init tables pipe_call false unset four_open in
    (((first.prints ≡ true) × (first.globals.handler ≡ false))
      ⊎ ((first.globals.handler ≡ true)
          × (get_non_blocking tables first.kernel (get_sig_pipe first.globals) ≡ (true, false))))
    × (proc_init tables (λ k. none) true first.globals four_open
        ≡ record { globals = first.globals; kernel = four_open; prints = false })
proc_init-proc_init_example =
    proc_init-proc_init tables pipe_call false unset four_open (λ k. none) true four_open refl
