-- ===== src/Xpio/Spawn.antt =====
-- luau/xpio_c.c: `fcntl_mod_FL`, `setNonBlocking`, `getNonBlocking`, `xpio_getAction`, `xpio__nextfd` and
-- the two branches of `xpio__spawn`. The kernel's table of descriptors is an interface.
pub mod NonBlocking
pub mod Actions
pub mod Blocking
pub mod NextFd
pub mod Fork
pub mod Sample
mod Tests
use flake.Common.{
  ℕ, zero, suc, ◌+◌, ◌-◌, ◌≡◌, Bool, true, false, ◌&&◌, ◌||◌, not, Option, none, some, List, [],
  ◌∷◌, ◌≢◌, ◌%◌, ◌^◌, ltb, ◌==◌, if◌then◌else◌, ℤ, pos, negsuc, minus_one, eq_ℤ, is_negative,
}
use flake.Lua.{LuaValue}
use flake.Xpio.Proc.{XpProc, Procs, proc_new, update}

-- The flags of an open file: O_NONBLOCK, and the others.
pub record Flags : Type 0 where
  pub nonblock : Bool
  pub others : ℕ

abbrev pub is_open : Option ℕ → Bool
is_open none = false
is_open (some i) = true

-- `dup2`, `close`, and `fcntl` with F_GETFL and F_SETFL, as POSIX describes them; the Boolean of a call
-- says whether it returns -1. A descriptor refers to an open file; the flags are of the file. A call
-- that fails changes nothing.
pub record FileApi : Type 1 where
  pub Kernel : Type 0
  pub file : Kernel → ℤ → Option ℕ
  pub flags : Kernel → ℕ → Flags
  pub dup2 : Kernel → (old new : ℤ) → Kernel × Bool
  pub close : Kernel → ℤ → Kernel
  pub getfl : Kernel → ℤ → Option Flags
  pub setfl : Kernel → ℤ → Flags → Kernel × Bool
  pub file-dup2 :
      (k : Kernel) (old new g : ℤ)
      → (dup2 k old new).1 ≡ false
      → file (dup2 k old new).0 g ≡ (if eq_ℤ new g then file k old else file k g)
  pub flags-dup2 : (k : Kernel) (old new : ℤ) (i : ℕ) → flags (dup2 k old new).0 i ≡ flags k i
  pub file-close :
      (k : Kernel) (fd g : ℤ) → file (close k fd) g ≡ (if eq_ℤ fd g then none else file k g)
  pub flags-close : (k : Kernel) (fd : ℤ) (i : ℕ) → flags (close k fd) i ≡ flags k i
  pub getfl-file :
      (k : Kernel) (fd : ℤ)
      → getfl k fd ≡ elim (file k fd) [ none ↦ none | some i ↦ some (flags k i) ]
  pub file-setfl : (k : Kernel) (fd g : ℤ) (f : Flags) → file (setfl k fd f).0 g ≡ file k g
  pub flags-setfl_self :
      (k : Kernel) (fd : ℤ) (f : Flags) (i : ℕ)
      → file k fd ≡ some i
      → (setfl k fd f).1 ≡ false
      → (flags (setfl k fd f).0 i).nonblock ≡ f.nonblock
  pub flags-setfl_ne :
      (k : Kernel) (fd : ℤ) (f : Flags) (i j : ℕ)
      → file k fd ≡ some i
      → i ≢ j
      → flags (setfl k fd f).0 j ≡ flags k j
  pub flags-setfl_fails :
      (k : Kernel) (fd : ℤ) (f : Flags) (i : ℕ)
      → (setfl k fd f).1 ≡ true
      → flags (setfl k fd f).0 i ≡ flags k i

-- An element of the array `fdActions`: no table, or a table with its first two elements.
pub data Entry : Type 0 where
  not_table : Entry
  table : (to : LuaValue) → (from : LuaValue) → Entry

-- The conversion to int, which keeps the low 32 bits.
abbrev pub signed : ℕ → ℤ
signed n = if ltb n (2 ^ 31) then pos n else negsuc (2 ^ 32 - 1 - n)

unfoldable pub int_of : ℤ → ℤ
int_of (pos n) = signed (n % 2 ^ 32)
int_of (negsuc n) = signed (2 ^ 32 - 1 - n % 2 ^ 32)

-- `tointegerDefault`, where `lua_tointegerx` is an argument.
unfoldable pub tointeger_default : (LuaValue → Option ℤ) → LuaValue → (dflt : ℤ) → ℤ
unfolding int_of
tointeger_default tointegerx v dflt = elim (tointegerx v) [
  | none ↦ dflt
  | some value ↦ int_of value
]

-- `fdTo` and `fdFrom`
pub record Action : Type 0 where
  pub to : ℤ
  pub from : ℤ

-- `xpio_getAction`; `none` is the return value 0.
unfoldable pub get_action : (LuaValue → Option ℤ) → Entry → Option Action
unfolding tointeger_default
get_action tointegerx not_table = none
get_action tointegerx (table to from) =
    let fd_to = tointeger_default tointegerx to minus_one in
    if eq_ℤ fd_to minus_one
    then none
    else some (record { to = fd_to; from = tointeger_default tointegerx from minus_one })

-- The actions that the loop in `xpio__spawn` meets.
unfoldable pub get_actions : (LuaValue → Option ℤ) → List Entry → List Action
get_actions tointegerx [] = []
get_actions tointegerx (e ∷ es) =
    let rest = get_actions tointegerx es in
    elim (get_action tointegerx e) [ none ↦ [] | some a ↦ a ∷ rest ]

module _ (F : FileApi) where
  open F use {Kernel, dup2, close, getfl, setfl}

  -- `fcntl_mod_FL`, where `add` and `remove` are 0 or O_NONBLOCK; and whether it returns -1.
  unfoldable pub fcntl_mod_fl : Kernel → ℤ → (add remove : Bool) → Kernel × Bool
  fcntl_mod_fl k fd add remove = elim (getfl k fd) [
    | none ↦ (k, true)
    | some flags ↦ setfl k fd (record flags { nonblock = (flags.nonblock && not remove) || add })
  ]

  -- `setNonBlocking`
  unfoldable pub set_non_blocking : Kernel → ℤ → (on : Bool) → Kernel × Bool
  set_non_blocking k fd on = fcntl_mod_fl k fd on (not on)

  -- `getNonBlocking`: what `*pbOn` is set to, and whether it returns -1.
  unfoldable pub get_non_blocking : Kernel → ℤ → Bool × Bool
  get_non_blocking k fd = elim (getfl k fd) [
    | none ↦ (false, true)
    | some flags ↦ (flags.nonblock, false)
  ]

  -- The body of the loop over the actions.
  unfoldable pub act : Kernel → Action → Kernel
  act k a =
      if is_negative a.from
      then close k a.to
      else (set_non_blocking (if eq_ℤ a.from a.to then k else (dup2 k a.from a.to).0) a.to false).0

  -- The loop.
  unfoldable pub perform : Kernel → List Action → Kernel
  perform k [] = k
  perform k (a ∷ as') = perform (act k a) as'

-- `fdMax`, from the members of `struct rlimit` as numbers of type int.
unfoldable pub fd_max : (rlim_max rlim_cur : ℤ) → ℤ
fd_max rlim_max rlim_cur =
    let pred = λ (n : ℤ). elim n as (λ _. ℤ) [
      | pos zero ↦ minus_one
      | pos (suc m) ↦ pos m
      | negsuc m ↦ negsuc (m + 1)
    ] in
    if is_negative (pred rlim_max) then pred rlim_cur else pred rlim_max

-- `flags >= 0 && (flags & FD_CLOEXEC) == 0`, where FD_CLOEXEC is 1
unfoldable pub is_kept : (flags : ℤ) → Bool
is_kept (pos flags) = flags % 2 == 0
is_kept (negsuc n) = false

-- `fd + 1` in an int, as it wraps around at INT_MAX.
unfoldable pub next_int : ℤ → ℤ
next_int (pos n) = if n == 2 ^ 31 - 1 then negsuc n else pos (n + 1)
next_int (negsuc zero) = pos 0
next_int (negsuc (suc n)) = negsuc n

-- How often the loop of `xpio__nextfd` is entered from `fd` on.
unfoldable pub descriptors : (fd fd_max : ℤ) → ℕ
descriptors (pos n) (pos m) = m + 1 - n
descriptors (pos n) (negsuc m) = 0
descriptors (negsuc n) (pos m) = m + 1 + (n + 1)
descriptors (negsuc n) (negsuc m) = n + 1 - m

-- The loop; `getfd` is `fcntl` with F_GETFD.
unfoldable pub next_fd_loop : (getfd : ℤ → ℤ) → (count : ℕ) → (fd : ℤ) → Option ℤ
unfolding is_kept next_int
next_fd_loop getfd zero fd = none
next_fd_loop getfd (suc count) fd =
    let rest = next_fd_loop getfd count (next_int fd) in
    if is_kept (getfd fd) then some fd else rest

-- `xpio__nextfd` where `getrlimit` succeeds, for its second argument.
unfoldable pub next_fd :
    (tointegerx : LuaValue → Option ℤ) → (getfd : ℤ → ℤ) → (fd_max : ℤ) → LuaValue → Option ℤ
unfolding next_fd_loop next_int descriptors tointeger_default
next_fd tointegerx getfd fd_max v =
    let fd = next_int (tointeger_default tointegerx v minus_one) in
    next_fd_loop getfd (descriptors fd fd_max) fd

-- The parent in `xpio__spawn`: `fork` has returned `pid`, which is not 0. It is -1 where `fork` failed.
unfoldable pub spawn_parent : (fresh : ℕ) → (pid : ℤ) → Procs → Procs
unfolding proc_new update
spawn_parent fresh pid ps =
    let made = proc_new fresh ps in
    record made {
      cells = update made.cells fresh (record { next = ps.head; pid = pid; status = 0 });
    }
