-- ===== src/Xpfs/Calls/Tests.antt =====
-- Tests of luau/xpfs.c's calls, on a system that is a list of names of directories.
use flake.Common.{
  ℕ, ◌+◌, ◌≡◌, refl, get_elem?, arith, true, Option, none, some, List, [], ◌∷◌, String,
}
use flake.Lua.{LuaValue, ok, raised, nil, boolean, string, bytes}
use flake.Xlua.{closure, set_field, create_table, register}
use flake.Xlua.Typed.{initial}
use flake.Xpfs.Calls.{
  Stream, ends, breaks, entry, done, fails, SystemApi, Names, success, table, read_names,
  check_string, mkdir, rename, list_dir, dir, luaopen_xpfs,
}
use flake.Xpfs.Calls.Listing.{value_at, dir-names}
use flake.Xpfs.Calls.Listing

abbrev stream_of : List (List ℕ) → Stream
stream_of [] = ends
stream_of (name ∷ names) = entry name (stream_of names)

abbrev rest_of : List (List ℕ) → List (List ℕ)
rest_of [] = []
rest_of (name ∷ names) = names

-- `rmdir` and `remove` take the newest directory; the others fail.
abbrev names : SystemApi
names = record {
  System = List (List ℕ);
  remove = λ path w. (rest_of w, done tt);
  mkdir = λ path mode w. (path ∷ w, done tt);
  rmdir = λ path w. (rest_of w, done tt);
  chdir = λ path w. (w, fails "No such file or directory");
  rename = λ from to w. (w, fails "Permission denied");
  getcwd = λ w. done (b'/' ∷ []);
  opendir = λ path w. done (stream_of w);
}

abbrev tolstring : LuaValue → Option (List ℕ)
tolstring (bytes str) = some str
tolstring _ = none

abbrev bad_argument : ℕ → String
bad_argument n = "bad argument"

made :
    mkdir tolstring bad_argument names (bytes (b'a' ∷ []) ∷ []) []
    ≡ ok ((b'a' ∷ []) ∷ [], boolean true ∷ [])
unfolding mkdir check_string success
made = refl

not_renamed :
    rename tolstring bad_argument names (bytes (b'a' ∷ []) ∷ bytes (b'b' ∷ []) ∷ []) []
    ≡ ok ([], nil ∷ string "Permission denied" ∷ [])
unfolding rename check_string success
not_renamed = refl

second_missing :
    rename tolstring bad_argument names (bytes (b'a' ∷ []) ∷ []) [] ≡ raised "bad argument"
unfolding rename check_string
second_missing = refl

abbrev two_names : List (List ℕ)
two_names = (b'a' ∷ []) ∷ (b'b' ∷ []) ∷ []

listed :
    dir tolstring bad_argument names (bytes (b'.' ∷ []) ∷ []) two_names
    ≡ ok (table ((1, b'a' ∷ []) ∷ (2, b'b' ∷ []) ∷ []))
unfolding dir check_string list_dir read_names
listed = refl

-- An error of `readdir` ends the list like the end of the directory.
broken : read_names 0 (entry (b'a' ∷ []) (breaks "Input/output error")) ≡ (1, b'a' ∷ []) ∷ []
unfolding read_names
broken = refl

stat_function :
    (luaopen_xpfs (initial 10 (λ t n. none))).fields 10 "stat" ≡ some (closure "xpfs_stat" none)
unfolding luaopen_xpfs create_table register set_field
stat_function = refl

dir-names_example :
    (t : Names) × (dir tolstring bad_argument names (bytes (b'.' ∷ []) ∷ []) two_names
      ≡ ok (table t))
    × (value_at 0 t ≡ none)
    × ((k : ℕ) → value_at (k + 1) t ≡ get_elem? (Listing.names (stream_of two_names)) k)
unfolding check_string
dir-names_example =
    dir-names tolstring bad_argument names (bytes (b'.' ∷ []) ∷ []) (b'.' ∷ [])
      (stream_of two_names) two_names refl (λ e. absurd (ground arith)) refl
