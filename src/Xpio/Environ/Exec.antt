-- ===== src/Xpio/Environ/Exec.antt =====
-- luau/xpio_c.c: a child finds the environment that the parent has asked for.
use flake.Common.{
  ℕ, ◌≡◌, refl, ap, ap₂, ◌∙◌, Bool, true, false, Option, none, some, List, [], ◌∷◌, ◌++◌, map, ◌==◌,
  All, All-append,
}
use flake.Lua.{LuaValue, c_string, bytes}
use flake.Xpio.Spawn.{FileApi, get_actions, perform}
use flake.Xpio.Environ.{
  read_strings, read_string_array, SpawnArgs, ChildCalls, executes, spawn_child, Strings, split_eq,
  getenv,
}
use flake.Xpio.Environ.Table.{find, or_else, value_in, last_value, find-getenv}

-- NAME=VALUE
abbrev pub env_string : List ℕ × List ℕ → List ℕ
env_string (name, value) = name ++ b'=' ∷ value

-- A name has no equals sign, and neither a name nor a value has a NUL.
abbrev pub NoNul : List ℕ → Type 0
NoNul = All (λ ch. (ch == 0) ≡ false)

abbrev pub Name : List ℕ → Type 0
Name = All (λ ch. (ch == b'=') ≡ false)

abbrev pub Valid : List ℕ × List ℕ → Type 0
Valid (name, value) = Name name × NoNul name × NoNul value

-- The value of the last pair with the name.
abbrev pub value_of : (name : List ℕ) → Strings → Option (List ℕ)
value_of name [] = none
value_of name ((n, v) ∷ env) = or_else (value_of name env) (value_in name (some (n, v)))

c_string-NoNul : (str : List ℕ) → NoNul str → c_string str ≡ str
c_string-NoNul [] h = refl
c_string-NoNul (ch ∷ str) (ne, h) = rw ne (ap (◌∷◌ ch) (c_string-NoNul str h))

split_eq-env_string :
    (name value : List ℕ) → Name name → split_eq (env_string (name, value)) ≡ some (name, value)
unfolding split_eq
split_eq-env_string [] value h = refl
split_eq-env_string (ch ∷ name) value (ne, h) = rw ne (rw (split_eq-env_string name value h) refl)

env_string-NoNul : (p : List ℕ × List ℕ) → Valid p → NoNul (env_string p)
env_string-NoNul (name, value) (n, a, b) =
    All-append (λ ch. (ch == 0) ≡ false) name (b'=' ∷ value) a (refl, b)

last_value-env_string :
    (env : Strings) (name : List ℕ)
    → All Valid env
    → last_value name (map env_string env) ≡ value_of name env
last_value-env_string [] name h = refl
last_value-env_string ((n, v) ∷ env) name ((named, a, b), h) =
    ap₂ or_else (last_value-env_string env name h)
      (ap (value_in name) (split_eq-env_string n v named))

-- The strings that Lua passes arrive whole.
read_strings-env_string :
    (tolstring : LuaValue → Option (List ℕ)) (has_memory : List ℕ → Bool) (env : Strings)
    → ((str : List ℕ) → tolstring (bytes str) ≡ some str)
    → ((str : List ℕ) → has_memory str ≡ true)
    → All Valid env
    → read_strings tolstring has_memory (map (λ p. bytes (env_string p)) env) ≡ map env_string env
unfolding read_strings
read_strings-env_string tolstring has_memory [] is_string memory h = refl
read_strings-env_string tolstring has_memory (p ∷ env) is_string memory (valid, h) =
    rw (is_string (env_string p)) (
      rw (memory (c_string (env_string p))) (
        ap₂ ◌∷◌ (c_string-NoNul (env_string p) (env_string-NoNul p valid))
          (read_strings-env_string tolstring has_memory env is_string memory h)))

-- A child that is given the pairs of `env` as strings finds them by `xpio_getenv`.
pub getenv-spawn_child :
    (F : FileApi) (c : ChildCalls) (k : F.Kernel) (a : SpawnArgs) (env : Strings)
    → ((str : List ℕ) → c.tolstring (bytes str) ≡ some str)
    → ((str : List ℕ) → c.has_memory str ≡ true)
    → c.calloc_env ≡ true
    → c.sigprocmask_fails ≡ false
    → ((path : List ℕ) (argv envp : Option (List (List ℕ))) → c.execve_fails path argv envp ≡ false)
    → a.env_strings ≡ map (λ p. bytes (env_string p)) env
    → All Valid env
    → (environ : List (List ℕ)) × (spawn_child F c k a
        ≡ executes
            (c_string a.path)
            (read_string_array c.tolstring c.calloc_args c.has_memory a.args)
            (some environ)
            (perform F k (get_actions c.tointegerx a.fd_actions)))
      × ((name : List ℕ) → find name (getenv environ) ≡ value_of name env)
unfolding spawn_child read_string_array
getenv-spawn_child F c k a env is_string memory calloc unmasked runs asked valid =
    let read = read_strings-env_string c.tolstring c.has_memory env is_string memory valid in
    (
      map env_string env,
      rw unmasked (rw calloc (rw (runs (c_string a.path)) (rw asked (rw read refl)))),
      λ name. find-getenv (map env_string env) name ∙ last_value-env_string env name valid,
    )
