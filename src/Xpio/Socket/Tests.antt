-- ===== src/Xpio/Socket/Tests.antt =====
-- Tests of luau/xpio_c.c's sockets, and the theorems at concrete inputs.
use flake.Common.{◌≡◌, refl, true, false, some, [], ◌∷◌, ◌⊎◌, ◌↔◌, String, pos, minus_one}
use flake.Lua.{nil, userdata}
use flake.Xpio.Address.{
  SockAddr, addr_from_string, sock_addr, scan_fields, scan_num, scan_digits, is_digit, skip_dot,
  htonl, htons, host_addr,
}
use flake.Xpio.Spawn.{set_non_blocking, fcntl_mod_fl, get_non_blocking}
use flake.Xpio.Spawn.Sample.{tables, four_open}
use flake.Xpio.Socket.{
  Errno, is_retry, again, intr, other, done, fails, try_read, try_write, try_connect, try_accept,
  open_pair, shut_rdwr, shut_of, close_op, dtor_op, closes,
}
use flake.Xpio.Socket.Retry.{retry, retry_iff}
use flake.Xpio.Socket.Open.{try_accept-non_blocking, open_pair-non_blocking}
use flake.Xpio.Socket.Close.{descriptors, closes-first}

-- One text for every error.
abbrev failure : Errno → String
failure e = "failure"

abbrev loopback : SockAddr
loopback = record { family = 2; port = (0, 80); addr = (127, 0, 0, 1) }

loopback-addr_from_string :
    addr_from_string (b'1' ∷ b'2' ∷ b'7' ∷ b'.' ∷ b'1' ∷ b':' ∷ b'8' ∷ b'0' ∷ []) ≡ some loopback
unfolding addr_from_string sock_addr scan_fields scan_num scan_digits is_digit skip_dot htonl htons
    host_addr
loopback-addr_from_string = refl

retry_iff_example :
    ((try_read failure 1 (fails again) ≡ retry) ↔ (true ≡ true))
    × ((try_write failure (done 3) ≡ retry) ↔ (false ≡ true))
    × ((try_connect failure
            (λ sin. fails intr)
            (b'1' ∷ b'2' ∷ b'7' ∷ b'.' ∷ b'1' ∷ b':' ∷ b'8' ∷ b'0' ∷ [])
          ≡ retry)
        ↔ (true ≡ true))
unfolding is_retry
retry_iff_example =
    retry_iff failure (λ e same. cc) 0 (fails again) (done 3) (λ sin. fails intr)
      (b'1' ∷ b'2' ∷ b'7' ∷ b'.' ∷ b'1' ∷ b':' ∷ b'8' ∷ b'0' ∷ []) loopback
      loopback-addr_from_string

try_accept-non_blocking_example :
    ((try_accept failure tables 40 (other 9) four_open (done (pos 5))).s ≡ minus_one)
    ⊎ (((try_accept failure tables 40 (other 9) four_open (done (pos 5))).values ≡ userdata 40 ∷ [])
        × (get_non_blocking tables
              (try_accept failure tables 40 (other 9) four_open (done (pos 5))).kernel
              (try_accept failure tables 40 (other 9) four_open (done (pos 5))).s
            ≡ (true, false)))
try_accept-non_blocking_example =
    try_accept-non_blocking failure tables 40 (other 9) four_open (done (pos 5))

pair-open_pair :
    (open_pair failure tables 40 41 (other 9) four_open (done (pos 5, pos 6))).values
    ≡ userdata 40 ∷ userdata 41 ∷ []
unfolding open_pair set_non_blocking fcntl_mod_fl
pair-open_pair = refl

open_pair-non_blocking_example :
    (get_non_blocking tables
        (open_pair failure tables 40 41 (other 9) four_open (done (pos 5, pos 6))).kernel
        (open_pair failure tables 40 41 (other 9) four_open (done (pos 5, pos 6))).a
      ≡ (true, false))
    × (get_non_blocking tables
          (open_pair failure tables 40 41 (other 9) four_open (done (pos 5, pos 6))).kernel
          (open_pair failure tables 40 41 (other 9) four_open (done (pos 5, pos 6))).b
        ≡ (true, false))
open_pair-non_blocking_example =
    open_pair-non_blocking failure tables 40 41 (other 9) four_open (done (pos 5, pos 6))
      pair-open_pair

closes-first_example :
    descriptors (closes (close_op ∷ close_op ∷ dtor_op ∷ []) (pos 5)) ≡ pos 5 ∷ []
closes-first_example = closes-first close_op (close_op ∷ dtor_op ∷ []) (pos 5) refl

both-shut_of : shut_of (b'w' ∷ b'r' ∷ []) ≡ some shut_rdwr
unfolding shut_of
both-shut_of = refl

read-end : try_read failure 8 (done []) ≡ nil ∷ []
unfolding try_read
read-end = refl
