-- ===== src/Xpfs.antt =====
-- luau/xpfs.c, on POSIX systems: the modes of files in `xpfs_chmod` and `do_stat`. A mode is a number;
-- its bits are taken by division.
pub mod Chmod
pub mod Perm
pub mod DoStat
pub mod Calls
mod Tests
use flake.Common.{
  ℕ, zero, suc, ◌+◌, ◌-◌, ◌*◌, ◌/◌, ◌%◌, Bool, true, false, Option, none, some, List, [], ◌∷◌, ◌++◌,
  ◌==◌, if◌then◌else◌, String,
}
use flake.Lua.{LuaValue, nil, boolean, string}

-- m & bit, where `bit` is a power of 2
abbrev pub has_bit : (m bit : ℕ) → Bool
has_bit m bit = m / bit % 2 == 1

-- S_IRUSR, S_IWUSR, S_IXUSR
abbrev pub s_irusr : ℕ
s_irusr = 256

abbrev pub s_iwusr : ℕ
s_iwusr = 128

abbrev pub s_ixusr : ℕ
s_ixusr = 64

-- MMM & ~S_IRWXU
unfoldable pub clear_user : ℕ → ℕ
clear_user m = m - m / 64 % 8 * 64

-- The body of the loop in `xpfs_chmod`, where `bit` is not 0: MMM &= ~bit, or MMM |= bit
unfoldable pub change_bit : (minus : Bool) → (m bit : ℕ) → ℕ
change_bit true m bit = if has_bit m bit then m - bit else m
change_bit false m bit = if has_bit m bit then m else m + bit

-- The body of the loop: the value of `bit` for the character, and the change.
unfoldable pub change : (minus : Bool) → (m ch : ℕ) → ℕ
unfolding change_bit
change minus m ch =
    if ch == b'r'
    then change_bit minus m s_irusr
    else if ch == b'w'
    then change_bit minus m s_iwusr
    else if ch == b'x'
    then change_bit minus m s_ixusr
    else m

-- The loop.
unfoldable pub changes : (minus : Bool) → (m : ℕ) → (szmode : List ℕ) → ℕ
changes minus m [] = m
changes minus m (ch ∷ szmode) = changes minus (change minus m ch) szmode

-- The mode that `xpfs_chmod` passes to `chmod`.
unfoldable pub chmod_mode : (m : ℕ) → (szmode : List ℕ) → ℕ
unfolding changes clear_user
chmod_mode m [] = clear_user m
chmod_mode m (pm ∷ szmode) =
    if pm == b'+'
    then changes false m szmode
    else if pm == b'-'
    then changes true m szmode
    else changes false (clear_user m) (pm ∷ szmode)

-- `xpfs_chmod`: `stat` gives the mode, or the message for `errno`; `chmod` gives a message where it fails.
pub data Stat : Type 0 where
  mode : ℕ → Stat
  fails : String → Stat

unfoldable pub chmod :
    (stat : Stat) → (chmod_call : ℕ → Option String) → (szmode : List ℕ) → List LuaValue
unfolding chmod_mode
chmod (fails message) chmod_call szmode = nil ∷ string message ∷ []
chmod (mode m) chmod_call szmode = elim (chmod_call (chmod_mode m szmode)) [
  | none ↦ boolean true ∷ []
  | some message ↦ nil ∷ string message ∷ []
]

-- The three characters for the lowest three bits.
abbrev pub letters : ℕ → List ℕ
letters m =
    (if has_bit m 4 then b'r' else b'-')
    ∷ (if has_bit m 2 then b'w' else b'-')
    ∷ (if has_bit m 1 then b'x' else b'-')
    ∷ []

-- The loop over the groups in `do_stat`, with so many groups to go: the last one is written first.
unfoldable pub perm_groups : (group : ℕ) → (m : ℕ) → List ℕ
perm_groups zero m = []
perm_groups (suc group) m = perm_groups group (m / 8) ++ letters m

-- The field `perm`.
unfoldable pub perm : ℕ → List ℕ
unfolding perm_groups
perm m = perm_groups 3 m
