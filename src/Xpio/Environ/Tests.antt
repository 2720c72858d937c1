-- ===== src/Xpio/Environ/Tests.antt =====
-- Tests of the environment and of the child of `xpio__spawn`, and the theorem at a concrete input.
use flake.Common.{ℕ, ◌≡◌, refl, true, false, Option, none, some, List, [], ◌∷◌}
use flake.Lua.{LuaValue, c_string, bytes, nil}
use flake.Xpio.Spawn.{get_actions, perform}
use flake.Xpio.Spawn.Sample.{tables, four_open}
use flake.Xpio.Environ.{
  read_strings, read_string_array, SpawnArgs, ChildCalls, exits, executes, spawn_child, split_eq,
  getenv_loop, getenv, Strings,
}
use flake.Xpio.Environ.Table.{find}
use flake.Xpio.Environ.Exec.{value_of, getenv-spawn_child}

abbrev tolstring : LuaValue → Option (List ℕ)
tolstring (bytes str) = some str
tolstring _ = none

abbrev calls : ChildCalls
calls = record {
  tointegerx = λ v. none;
  tolstring = tolstring;
  sigprocmask_fails = false;
  calloc_args = true;
  calloc_env = true;
  has_memory = λ str. true;
  execve_fails = λ path argv envp. false;
}

abbrev env : Strings
env = (b'A' ∷ [], b'1' ∷ []) ∷ (b'B' ∷ [], b'=' ∷ b'2' ∷ []) ∷ []

abbrev args : SpawnArgs
args = record {
  path = b'/' ∷ b'x' ∷ [];
  args = bytes (b'x' ∷ []) ∷ nil ∷ bytes (b'y' ∷ []) ∷ [];
  env_strings = bytes (b'A' ∷ b'=' ∷ b'1' ∷ []) ∷ bytes (b'B' ∷ b'=' ∷ b'=' ∷ b'2' ∷ []) ∷ [];
  fd_actions = [];
}

-- An array ends at an element that is no string.
holes_in_args : read_string_array tolstring true (λ str. true) args.args ≡ some ((b'x' ∷ []) ∷ [])
unfolding read_string_array read_strings
holes_in_args = refl

-- A string without an equals sign is passed over; a later value replaces an earlier one.
later_value :
    getenv ((b'A' ∷ b'=' ∷ b'1' ∷ []) ∷ (b'C' ∷ []) ∷ (b'A' ∷ b'=' ∷ b'=' ∷ []) ∷ [])
    ≡ (b'A' ∷ [], b'=' ∷ []) ∷ []
unfolding getenv getenv_loop split_eq
later_value = refl

no_program :
    spawn_child tables (record calls { execve_fails = λ path argv envp. true }) four_open args
    ≡ exits 127
unfolding spawn_child read_string_array read_strings
no_program = refl

getenv-spawn_child_example :
    (environ : List (List ℕ)) × (spawn_child tables calls four_open args
      ≡ executes
          (c_string args.path)
          (read_string_array tolstring true (λ str. true) args.args)
          (some environ)
          (perform tables four_open (get_actions (λ v. none) [])))
    × ((name : List ℕ) → find name (getenv environ) ≡ value_of name env)
getenv-spawn_child_example =
    getenv-spawn_child tables calls four_open args env (λ str. refl) (λ str. refl) refl refl
      (λ path argv envp. refl) refl
      (
        (((refl, tt)), ((refl, tt)), ((refl, tt))),
        ((((refl, tt)), ((refl, tt)), ((refl, (refl, tt)))), tt),
      )
