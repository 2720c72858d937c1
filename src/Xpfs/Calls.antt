-- ===== src/Xpfs/Calls.antt =====
-- luau/xpfs.c, on POSIX systems: the functions around one call of the C library each, `xpfs_dir`, and
-- the registration with Lua. The calls act on a system, which is an interface.
pub mod Listing
mod Tests
use flake.Common.{
  ℕ, ◌+◌, Bool, true, false, Option, none, some, List, [], ◌∷◌, String, length, get_elem?, ltb,
  if◌then◌else◌,
}
use flake.Lua.{LuaValue, Result, ok, raised, ◌>>=◌, c_string, nil, boolean, string, bytes}
use flake.Xlua.{Reg, Store, create_table, register}

-- What the calls of `readdir` on an open directory give until the first NULL, and whether that stands
-- for an error.
pub data Stream : Type 0 where
  ends : Stream
  breaks : (message : String) → Stream
  entry : (name : List ℕ) → Stream → Stream

-- A call, with the message for `errno` where it fails.
pub data Answer (A : Type 0) : Type 0 where
  done : A → Answer A
  fails : (message : String) → Answer A

pub record SystemApi : Type 1 where
  pub System : Type 0
  pub remove : List ℕ → System → System × Answer (Unit {0})
  pub mkdir : List ℕ → (mode : ℕ) → System → System × Answer (Unit {0})
  pub rmdir : List ℕ → System → System × Answer (Unit {0})
  pub chdir : List ℕ → System → System × Answer (Unit {0})
  pub rename : (from to : List ℕ) → System → System × Answer (Unit {0})
  pub getcwd : System → Answer (List ℕ)
  pub opendir : List ℕ → System → Answer Stream

-- `true`, or nil and the message
unfoldable pub success : Answer (Unit {0}) → List LuaValue
success (done _) = boolean true ∷ []
success (fails message) = nil ∷ string message ∷ []

-- A table of strings with numbers as keys, by its entries.
abbrev pub Names : Type 0
Names = List (ℕ × List ℕ)

-- The results of `xpfs_dir`: a table, or nil and the message.
pub data DirReply : Type 0 where
  table : Names → DirReply
  nil_and : (message : String) → DirReply

-- The loop of `xpfs_dir`; `ndx` is the number of entries so far.
unfoldable pub read_names : (ndx : ℕ) → Stream → Names
read_names ndx ends = []
read_names ndx (breaks message) = []
read_names ndx (entry name rest) = (ndx + 1, c_string name) ∷ read_names (ndx + 1) rest

-- 0777
abbrev pub all_access : ℕ
all_access = 511

-- `lua_tolstring` on an argument, and the message of `luaL_checkstring`.
module _ (tolstring : LuaValue → Option (List ℕ)) (bad_argument : ℕ → String) where
  -- `luaL_checkstring` for the argument at `index`, from 0 on
  unfoldable pub check_string : List LuaValue → (index : ℕ) → Result (List ℕ)
  check_string args index = elim (get_elem? args index) [
    | none ↦ raised (bad_argument (index + 1))
    | some v ↦ elim (tolstring v) [
      | none ↦ raised (bad_argument (index + 1))
      | some str ↦ ok (c_string str)
    ]
  ]

  module _ (S : SystemApi) where
    open S use {System}

    -- What a function returns, and the system after it. Where it raises an error it has called nothing.
    abbrev pub Returned : Type 0
    Returned = Result (System × List LuaValue)

    -- `xpfs_remove`
    unfoldable pub remove : List LuaValue → System → Returned
    unfolding check_string success
    remove args w = do
      filename ← check_string args 0
      let called = S.remove filename w in ok (called.0, success called.1)

    -- `xpfs_mkdir`
    unfoldable pub mkdir : List LuaValue → System → Returned
    unfolding check_string success
    mkdir args w = do
      dirname ← check_string args 0
      let called = S.mkdir dirname all_access w in ok (called.0, success called.1)

    -- `xpfs_rmdir`
    unfoldable pub rmdir : List LuaValue → System → Returned
    unfolding check_string success
    rmdir args w = do
      dirname ← check_string args 0
      let called = S.rmdir dirname w in ok (called.0, success called.1)

    -- `xpfs_chdir`
    unfoldable pub chdir : List LuaValue → System → Returned
    unfolding check_string success
    chdir args w = do
      dirname ← check_string args 0
      let called = S.chdir dirname w in ok (called.0, success called.1)

    -- `xpfs_rename`
    unfoldable pub rename : List LuaValue → System → Returned
    unfolding check_string success
    rename args w = do
      from ← check_string args 0
      to ← check_string args 1
      let called = S.rename from to w in ok (called.0, success called.1)

    -- `xpfs_getcwd`
    unfoldable pub getcwd : System → List LuaValue
    getcwd w = elim (S.getcwd w) [
      | done dir ↦ bytes dir ∷ []
      | fails message ↦ nil ∷ string message ∷ []
    ]

    -- `xpfs_dir`, after its arguments have been read
    unfoldable pub list_dir : (dirname : List ℕ) → System → DirReply
    unfolding read_names
    list_dir dirname w = elim (S.opendir dirname w) [
      | fails message ↦ nil_and message
      | done stream ↦ table (read_names 0 stream)
    ]

    -- `xpfs_dir`
    unfoldable pub dir : List LuaValue → System → Result DirReply
    unfolding check_string list_dir
    dir args w = do
      dirname ← check_string args 0
      if ltb 1 (length args)
          then (check_string args 1 >>= λ second. ok (list_dir dirname w))
          else ok (list_dir dirname w)

abbrev reg : String → String → Reg
reg name func = record { name = name; func = func }

abbrev pub xpfs_regs : List Reg
xpfs_regs =
    reg "chmod" "xpfs_chmod"
    ∷ reg "stat" "xpfs_stat"
    ∷ reg "remove" "xpfs_remove"
    ∷ reg "mkdir" "xpfs_mkdir"
    ∷ reg "chdir" "xpfs_chdir"
    ∷ reg "rmdir" "xpfs_rmdir"
    ∷ reg "getcwd" "xpfs_getcwd"
    ∷ reg "rename" "xpfs_rename"
    ∷ reg "dir" "xpfs_dir"
    ∷ []

-- `luaopen_xpfs`: the new table has the address `s.next`.
unfoldable pub luaopen_xpfs : Store → Store
unfolding create_table register
luaopen_xpfs s = register (create_table s) s.next xpfs_regs none
