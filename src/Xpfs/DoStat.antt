-- ===== src/Xpfs/DoStat.antt =====
-- luau/xpfs.c, on POSIX systems: `do_stat` and `xpfs_stat`. A C string is the list of its bytes.
pub mod Kinds
pub mod Fields
mod Tests
use text.Mathlib.Text.{◌==◌ as str_eq}
use flake.Common.{
  ℕ, zero, suc, ◌+◌, ◌/◌, ◌%◌, Bool, true, false, ◌||◌, Option, none, some, List, [], ◌∷◌, String,
  ltb, ◌==◌, if◌then◌else◌, ℤ, pos, negsuc,
}
use flake.Lua.{LuaValue, number, string, bytes}
use flake.Xpfs.{perm}

-- `struct stat`, as far as it is used.
pub record Info : Type 0 where
  pub mode : ℕ
  pub size : ℤ
  pub mtime : ℤ
  pub atime : ℤ
  pub ctime : ℤ
  pub ino : ℕ
  pub dev : ℕ
  pub uid : ℕ
  pub gid : ℕ

-- The type of a file in a mode: S_IFMT is 0170000.
abbrev pub file_type : ℕ → ℕ
file_type mode = mode / 4096 % 16

-- The field `kind`, by S_ISREG and the others in turn.
unfoldable pub kind : ℕ → String
kind mode =
    if file_type mode == 8
    then "f"
    else if file_type mode == 4
    then "d"
    else if file_type mode == 10
    then "l"
    else if file_type mode == 6
    then "b"
    else if file_type mode == 2
    then "c"
    else if file_type mode == 12
    then "s"
    else if file_type mode == 1
    then "p"
    else "o"

-- The table that is built.
abbrev pub StatTable : Type 0
StatTable = String → Option LuaValue

-- lua_setfield
abbrev pub store_field : StatTable → String → LuaValue → StatTable
store_field t name v n = if str_eq n name then some v else t n

-- a > b
abbrev pub gtb_ℤ : ℤ → ℤ → Bool
gtb_ℤ (pos a) (pos b) = ltb b a
gtb_ℤ (pos a) (negsuc b) = true
gtb_ℤ (negsuc a) (pos b) = false
gtb_ℤ (negsuc a) (negsuc b) = ltb a b

-- MAX
abbrev pub max_ℤ : ℤ → ℤ → ℤ
max_ℤ a b = if gtb_ℤ a b then a else b

-- ch == '*' || ch == letter
abbrev pub wants : (ch letter : ℕ) → Bool
wants ch letter = ch == b'*' || ch == letter

-- The body of an `if` of the loop, and its condition.
abbrev pub set_if : Bool → String → LuaValue → StatTable → StatTable
set_if test name v t = if test then store_field t name v else t

-- What `stat` and `lstat` give: the members, or the message for `errno`.
pub data InfoCall : Type 0 where
  info : Info → InfoCall
  fails : (message : String) → InfoCall

-- The table, or nil and the message.
pub data StatReply : Type 0 where
  table : StatTable → StatReply
  nil_and : (message : String) → StatReply

-- *mask == 'L'
abbrev pub is_lstat : List ℕ → Bool
is_lstat [] = false
is_lstat (ch ∷ mask) = ch == b'L'

-- The conversion of an integer to a double is an argument.
module _ (double : ℤ → ℤ) where
  -- The body of the loop of `do_stat`.
  unfoldable pub set_fields : Info → (ch : ℕ) → StatTable → StatTable
  unfolding perm kind
  set_fields i ch t0 =
      let t1 = set_if (wants ch b'p') "perm" (bytes (perm i.mode)) t0 in
      let t2 = set_if (wants ch b'k') "kind" (string (kind i.mode)) t1 in
      let t3 = set_if (wants ch b's') "size" (number (double i.size)) t2 in
      let t4 =
        set_if (wants ch b't') "time" (number (max_ℤ (double i.mtime) (double i.ctime))) t3 in
      let t5 = set_if (wants ch b'm') "mtime" (number (double i.mtime)) t4 in
      let t6 = set_if (wants ch b'a') "atime" (number (double i.atime)) t5 in
      let t7 = set_if (wants ch b'c') "ctime" (number (double i.ctime)) t6 in
      let t8 = set_if (wants ch b'i') "inode" (number (double (pos i.ino))) t7 in
      let t9 = set_if (wants ch b'd') "dev" (number (double (pos i.dev))) t8 in
      let t10 = set_if (wants ch b'u') "uid" (number (double (pos i.uid))) t9 in
      set_if (wants ch b'g') "gid" (number (double (pos i.gid))) t10

  -- The loop.
  unfoldable pub mask_loop : Info → (mask : List ℕ) → StatTable → StatTable
  mask_loop i [] t = t
  mask_loop i (ch ∷ mask) t = mask_loop i mask (set_fields i ch t)

  -- `do_stat`
  unfoldable pub do_stat : (lstat stat : InfoCall) → (mask : List ℕ) → StatReply
  unfolding mask_loop
  do_stat lstat stat mask = elim (if is_lstat mask then lstat else stat) [
    | fails message ↦ nil_and message
    | info i ↦ table (mask_loop i mask (λ n. none))
  ]

  -- `xpfs_stat`, where the mask may be missing
  unfoldable pub stat : (lstat stat : InfoCall) → (mask : Option (List ℕ)) → StatReply
  unfolding do_stat
  stat lstat_call stat_call none = do_stat lstat_call stat_call (b'*' ∷ [])
  stat lstat_call stat_call (some mask) = do_stat lstat_call stat_call mask
