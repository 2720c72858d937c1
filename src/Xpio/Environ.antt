-- ===== src/Xpio/Environ.antt =====
-- luau/xpio_c.c: `readStringArray`, the child in `xpio__spawn`, and `xpio_getenv`. A string is the list
-- of its bytes.
pub mod Table
pub mod Exec
mod Tests
use flake.Common.{
  ℕ, Bool, true, false, ◌&&◌, Option, none, some, List, [], ◌∷◌, ◌==◌, if◌then◌else◌, ℤ,
}
use flake.Lua.{LuaValue, c_string}
use flake.Xpio.Spawn.{FileApi, Entry, get_actions, perform}

-- The loop of `readStringArray` over the elements of an array: it ends at an element that is no string
-- and no number, by `lua_tolstring`, or for which `strdup` finds no memory.
unfoldable pub read_strings :
    (tolstring : LuaValue → Option (List ℕ))
    → (has_memory : List ℕ → Bool) → List LuaValue
    → List (List ℕ)
read_strings tolstring has_memory [] = []
read_strings tolstring has_memory (v ∷ vs) =
    let rest = read_strings tolstring has_memory vs in
    elim (tolstring v) [
      | none ↦ []
      | some pc ↦ if has_memory (c_string pc) then c_string pc ∷ rest else []
    ]

-- `readStringArray` for an array that is shorter than 2^31 - 1; `none` is NULL.
unfoldable pub read_string_array :
    (tolstring : LuaValue → Option (List ℕ))
    → (calloc : Bool) → (has_memory : List ℕ → Bool) → List LuaValue
    → Option (List (List ℕ))
unfolding read_strings
read_string_array tolstring calloc has_memory vs =
    if calloc then some (read_strings tolstring has_memory vs) else none

-- What Lua gives to `xpio._spawn`.
pub record SpawnArgs : Type 0 where
  pub path : List ℕ
  pub args : List LuaValue
  pub env_strings : List LuaValue
  pub fd_actions : List Entry

-- What the child gets from the C library and from Lua. `execve_fails` says that `execve` returns, and
-- `sigprocmask_fails` that it does not return 0.
pub record ChildCalls : Type 0 where
  pub tointegerx : LuaValue → Option ℤ
  pub tolstring : LuaValue → Option (List ℕ)
  pub sigprocmask_fails : Bool
  pub calloc_args : Bool
  pub calloc_env : Bool
  pub has_memory : List ℕ → Bool
  pub execve_fails : (path : List ℕ) → (argv envp : Option (List (List ℕ))) → Bool

-- How the child ends: it executes another program with the descriptors that it has, or it exits.
pub data Child (Kernel : Type 0) : Type 0 where
  executes : (path : List ℕ) → (argv envp : Option (List (List ℕ))) → Kernel → Child Kernel
  exits : (status : ℕ) → Child Kernel

-- The child in `xpio__spawn`, where `fork` has returned 0.
unfoldable pub spawn_child : (F : FileApi) → ChildCalls → F.Kernel → SpawnArgs → Child F.Kernel
unfolding read_string_array perform get_actions
spawn_child F c k a =
    if c.sigprocmask_fails
    then exits 127
    else (let granted = perform F k (get_actions c.tointegerx a.fd_actions) in
        let argv = read_string_array c.tolstring c.calloc_args c.has_memory a.args in
        let envp = read_string_array c.tolstring c.calloc_env c.has_memory a.env_strings in
        if c.execve_fails (c_string a.path) argv envp
        then exits 127
        else executes (c_string a.path) argv envp granted)

-- A table of strings.
abbrev pub Strings : Type 0
Strings = List (List ℕ × List ℕ)

abbrev pub bytes_eq : List ℕ → List ℕ → Bool
bytes_eq [] [] = true
bytes_eq [] (b ∷ bs) = false
bytes_eq (a ∷ as') [] = false
bytes_eq (a ∷ as') (b ∷ bs) = a == b && bytes_eq as' bs

-- lua_rawset
abbrev pub raw_set : (name value : List ℕ) → Strings → Strings
raw_set name value [] = (name, value) ∷ []
raw_set name value ((n, v) ∷ t) =
    let rest = raw_set name value t in if bytes_eq n name then (n, value) ∷ t else (n, v) ∷ rest

-- strchr(str, '='): the bytes before it, and those after it.
unfoldable pub split_eq : List ℕ → Option (List ℕ × List ℕ)
split_eq [] = none
split_eq (ch ∷ str) =
    let rest = split_eq str in
    if ch == b'='
    then some ([], str)
    else elim rest [ none ↦ none | some (name, value) ↦ some (ch ∷ name, value) ]

-- The loop of `xpio_getenv`.
unfoldable pub getenv_loop : Strings → (environ : List (List ℕ)) → Strings
unfolding split_eq
getenv_loop t [] = t
getenv_loop t (str ∷ environ) = elim (split_eq str) [
  | none ↦ getenv_loop t environ
  | some (name, value) ↦ getenv_loop (raw_set name value t) environ
]

-- `xpio_getenv`
unfoldable pub getenv : (environ : List (List ℕ)) → Strings
unfolding getenv_loop
getenv environ = getenv_loop [] environ
