-- ===== src/Xpio/Options/Bounds.antt =====
-- luau/xpio_c.c: the size that `xpsocket_setsockopt` gives to the system call.
use flake.Common.{ℕ, ◌-◌, ◌^◌, ◌<◌, ltb, if◌then◌else◌, ℤ, pos, negsuc}

-- The range of an int, and what it is as an unsigned number.
abbrev pub IsInt : ℤ → Type 0
IsInt (pos n) = n < 2 ^ 31
IsInt (negsuc n) = n < 2 ^ 31

abbrev pub unsigned : ℤ → ℕ
unsigned (pos n) = n
unsigned (negsuc n) = 2 ^ 32 - 1 - n

-- A size above the range of an unsigned number is brought down to its end.
abbrev pub clamped : ℕ → ℕ
clamped size = if ltb size (2 ^ 32) then size else 2 ^ 32 - 1
