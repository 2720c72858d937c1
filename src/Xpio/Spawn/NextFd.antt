-- ===== src/Xpio/Spawn/NextFd.antt =====
-- luau/xpio_c.c: `xpio__nextfd` finds the next descriptor that a child inherits.
use flake.Common.{ℕ, ◌+◌, ◌*◌, Bool, true, false, not, ℤ, pos, minus_one}

-- A descriptor is closed, or open with the flag that `execve` closes it, and other flags.
pub data Descriptor : Type 0 where
  closed : Descriptor
  opened : (close_on_exec : Bool) → (others : ℕ) → Descriptor

-- What `fcntl` with F_GETFD returns.
abbrev pub f_getfd : Descriptor → ℤ
f_getfd closed = minus_one
f_getfd (opened true others) = pos (2 * others + 1)
f_getfd (opened false others) = pos (2 * others)

abbrev pub is_inherited : Descriptor → Bool
is_inherited closed = false
is_inherited (opened close_on_exec others) = not close_on_exec
