-- ===== src/Xpfs/DoStat/Fields.antt =====
-- luau/xpfs.c: the fields that the mask of `do_stat` asks for.
use text.Mathlib.Text.{◌==◌ as str_eq}
use flake.Common.{
  ℕ, Bool, true, false, ◌||◌, ◌&&◌, not, Option, none, some, List, [], ◌∷◌, String, if◌then◌else◌,
  ℤ, pos,
}
use flake.Lua.{LuaValue, number, string, bytes}
use flake.Xpfs.{perm}
use flake.Xpfs.DoStat.{Info, kind, StatTable, max_ℤ, wants, set_if}

-- A field by its letter, its name and its value.
pub record Described : Type 0 where
  pub letter : ℕ
  pub name : String
  pub value : LuaValue

abbrev apply : List Described → (ch : ℕ) → StatTable → StatTable
apply [] ch t = t
apply (e ∷ es) ch t = apply es ch (set_if (wants ch e.letter) e.name e.value t)

abbrev lacks : String → List Described → Bool
lacks n [] = true
lacks n (e ∷ es) = not (str_eq n e.name) && lacks n es

abbrev once : String → List Described → Bool
once n [] = false
once n (e ∷ es) = if str_eq n e.name then lacks n es else once n es

abbrev entry : String → List Described → Option Described
entry n [] = none
entry n (e ∷ es) = if str_eq n e.name then some e else entry n es

-- The fields of the table.
pub data StatField : Type 0 where
  perm_field : StatField
  kind_field : StatField
  size_field : StatField
  time_field : StatField
  mtime_field : StatField
  atime_field : StatField
  ctime_field : StatField
  inode_field : StatField
  dev_field : StatField
  uid_field : StatField
  gid_field : StatField

-- Whether a mask asks for a field: it has the letter of the field or a star.
abbrev pub asks_for : (mask : List ℕ) → (letter : ℕ) → Bool
asks_for [] letter = false
asks_for (ch ∷ mask) letter = wants ch letter || asks_for mask letter

module _ (double : ℤ → ℤ) where
  -- What the documentation says of each field, with the kind of the file and the later one of its times.
  abbrev pub described : (kind_name : String) → (latest : ℤ) → Info → StatField → Described
  described kind_name latest i perm_field = record {
    letter = b'p';
    name = "perm";
    value = bytes (perm i.mode);
  }
  described kind_name latest i kind_field = record {
    letter = b'k';
    name = "kind";
    value = string kind_name;
  }
  described kind_name latest i size_field = record {
    letter = b's';
    name = "size";
    value = number (double i.size);
  }
  described kind_name latest i time_field = record {
    letter = b't';
    name = "time";
    value = number latest;
  }
  described kind_name latest i mtime_field = record {
    letter = b'm';
    name = "mtime";
    value = number (double i.mtime);
  }
  described kind_name latest i atime_field = record {
    letter = b'a';
    name = "atime";
    value = number (double i.atime);
  }
  described kind_name latest i ctime_field = record {
    letter = b'c';
    name = "ctime";
    value = number (double i.ctime);
  }
  described kind_name latest i inode_field = record {
    letter = b'i';
    name = "inode";
    value = number (double (pos i.ino));
  }
  described kind_name latest i dev_field = record {
    letter = b'd';
    name = "dev";
    value = number (double (pos i.dev));
  }
  described kind_name latest i uid_field = record {
    letter = b'u';
    name = "uid";
    value = number (double (pos i.uid));
  }
  described kind_name latest i gid_field = record {
    letter = b'g';
    name = "gid";
    value = number (double (pos i.gid));
  }

  -- As the code computes them.
  abbrev entry_of : Info → StatField → Described
  entry_of i = described (kind i.mode) (max_ℤ (double i.mtime) (double i.ctime)) i

  abbrev all_entries : Info → List Described
  all_entries i =
      entry_of i perm_field
      ∷ entry_of i kind_field
      ∷ entry_of i size_field
      ∷ entry_of i time_field
      ∷ entry_of i mtime_field
      ∷ entry_of i atime_field
      ∷ entry_of i ctime_field
      ∷ entry_of i inode_field
      ∷ entry_of i dev_field
      ∷ entry_of i uid_field
      ∷ entry_of i gid_field
      ∷ []
