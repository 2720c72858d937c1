-- ===== src/Xpio/Spawn/Tests.antt =====
-- Tests of luau/xpio_c.c's spawning, and the theorems at concrete inputs.
use flake.Common.{
  ◌≡◌, refl, true, false, Option, none, some, List, [], ◌∷◌, arith, ◌==◌, ℤ, pos, negsuc, minus_one,
  if◌then◌else◌, ◌⊎◌,
}
use flake.Lua.{LuaValue, nil, integer}
use flake.Xpio.Proc.{Procs, proc_dtor}
use flake.Xpio.Proc.Unlink.{IsList}
use flake.Xpio.Spawn.{
  table, not_table, get_actions, get_action, tointeger_default, Action, set_non_blocking,
  get_non_blocking, perform, act, fcntl_mod_fl, next_int, next_fd, next_fd_loop, is_kept,
  descriptors, int_of, spawn_parent, fd_max,
}
use flake.Xpio.Spawn.NonBlocking.{get_non_blocking-set_non_blocking}
use flake.Xpio.Spawn.Actions.{CanGrant, perform-grant}
use flake.Xpio.Spawn.Blocking.{CanSet, perform-blocking}
use flake.Xpio.Spawn.NextFd.{Descriptor, closed, opened, f_getfd}
use flake.Xpio.Spawn.Fork.{proc_dtor-spawn_parent}
use flake.Xpio.Spawn.Sample.{tables, four_open}

abbrev to_integer : LuaValue → Option ℤ
to_integer (integer n) = some n
to_integer _ = none

-- {1, 5}, {6, 6}, {0, nil}
abbrev actions : List Action
actions =
    record { to = pos 1; from = pos 5 }
    ∷ record { to = pos 6; from = pos 6 }
    ∷ record { to = pos 0; from = minus_one }
    ∷ []

actions-get_actions :
    get_actions to_integer (
      table (integer (pos 1)) (integer (pos 5))
      ∷ table (integer (pos 6)) (integer (pos 6))
      ∷ table (integer (pos 0)) nil
      ∷ not_table
      ∷ [])
    ≡ actions
unfolding get_actions get_action tointeger_default int_of
actions-get_actions = refl

get_non_blocking-set_non_blocking_example :
    (((set_non_blocking tables four_open (pos 5) false).1 ≡ true)
      × (get_non_blocking tables (set_non_blocking tables four_open (pos 5) false).0 (pos 5)
          ≡ get_non_blocking tables four_open (pos 5)))
    ⊎ (((set_non_blocking tables four_open (pos 5) false).1 ≡ false)
        × (get_non_blocking tables (set_non_blocking tables four_open (pos 5) false).0 (pos 5)
            ≡ (false, false)))
get_non_blocking-set_non_blocking_example =
    get_non_blocking-set_non_blocking tables four_open (pos 5) (pos 5) 11 false refl refl

-- A file that refuses F_SETFL, and a descriptor past the limit.
refused : (set_non_blocking tables four_open (pos 8) false).1 ≡ true
unfolding set_non_blocking fcntl_mod_fl
refused = refl

past_limit :
    (perform tables four_open (record { to = pos 2000; from = pos 5 } ∷ [])).file (pos 2000) ≡ none
unfolding perform act set_non_blocking fcntl_mod_fl
past_limit = refl

actions-CanGrant : CanGrant tables four_open actions
unfolding act set_non_blocking fcntl_mod_fl
actions-CanGrant = (λ e. refl, refl, (λ e. refl, refl, (λ e. absurd (ground arith), refl, tt)))

actions-CanSet : CanSet tables four_open actions
unfolding act set_non_blocking fcntl_mod_fl
actions-CanSet = (λ e. refl, (λ e. refl, (λ e. absurd (ground arith), tt)))

perform-grant_example : (perform tables four_open actions).file (pos 1) ≡ some 11
perform-grant_example = perform-grant tables four_open actions (pos 1) actions-CanGrant

actions-perform : (perform tables four_open actions).file (pos 6) ≡ some 12
actions-perform = perform-grant tables four_open actions (pos 6) actions-CanGrant

perform-blocking_example : ((perform tables four_open actions).flags 12).nonblock ≡ false
perform-blocking_example =
    perform-blocking tables four_open actions (pos 6) 12 actions-CanGrant actions-CanSet refl
      actions-perform

-- 5 is closed by `execve`, 7 is not.
abbrev fds : ℤ → Descriptor
fds (pos n) = if n == 5 then opened true 0 else if n == 7 then opened false 0 else closed
fds (negsuc n) = closed

-- From nil, from below -1, and from INT_MAX.
next_fd-starts :
    (next_fd to_integer (λ fd. f_getfd (fds fd)) (pos 9) nil ≡ some (pos 7))
    × (next_fd to_integer (λ fd. f_getfd (fds fd)) (pos 9) (integer (negsuc 4)) ≡ some (pos 7))
    × (next_fd to_integer (λ fd. f_getfd (fds fd)) (pos 9) (integer (pos 7)) ≡ none)
    × (next_int (pos 2147483647) ≡ negsuc 2147483647)
unfolding next_fd next_fd_loop is_kept next_int descriptors tointeger_default int_of
next_fd-starts = (refl, refl, refl, refl)

fd_max-limit : fd_max (pos 1024) (pos 256) ≡ pos 1023
unfolding fd_max
fd_max-limit = refl

abbrev nobody : Procs
nobody = record { head = 0; cells = λ a. none }

nobody-IsList : IsList nobody []
nobody-IsList = record { chain = refl; nodup = tt }

proc_dtor-spawn_parent_example :
    (ps' : Procs) × (proc_dtor 2 100 (spawn_parent 100 minus_one nobody)
      ≡ some (ps', minus_one ∷ []))
    × IsList ps' []
proc_dtor-spawn_parent_example =
    proc_dtor-spawn_parent 2 100 minus_one nobody [] nobody-IsList (omega arith) refl (ground arith)
      (omega arith)
