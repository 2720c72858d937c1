-- ===== src/Lua/Table.antt =====
-- Lua tables as the queues use them: an interface, for the Lua library is not modelled. Its laws are
-- what the Lua manual says of `lua_rawget`, `lua_rawset` and `lua_next`.
use flake.Common.{
  ℕ, ◌≡◌, Bool, true, false, Option, none, some, List, [], ◌∷◌, arith, ◌==◌, ◌↔◌, if◌then◌else◌, ℤ,
  eq_ℤ, eq_ℤ_iff,
}

-- A key of a table of waiting tasks: a descriptor, or the userdata of a process.
pub data Key : Type 0 where
  fd : ℤ → Key
  proc : ℕ → Key

abbrev pub key_eq : Key → Key → Bool
key_eq (fd a) (fd b) = eq_ℤ a b
key_eq (fd a) (proc b) = false
key_eq (proc a) (fd b) = false
key_eq (proc a) (proc b) = a == b

pub key_eq_iff : (a b : Key) → (key_eq a b ≡ true) ↔ (a ≡ b)
key_eq_iff (fd a) (fd b) = ground (arith, eq_ℤ_iff a b)
key_eq_iff (fd a) (proc b) = ground arith
key_eq_iff (proc a) (fd b) = ground arith
key_eq_iff (proc a) (proc b) = ground arith

-- A Lua table or userdata that is a task, by its address.
abbrev pub Entries : Type 0
Entries = List (Key × ℕ)

abbrev pub find : Key → Entries → Option ℕ
find k [] = none
find k ((j, t) ∷ es) = if key_eq j k then some t else find k es

abbrev pub DistinctKeys : Entries → Type 0
DistinctKeys [] = Unit {0}
DistinctKeys ((j, t) ∷ es) = (find j es ≡ none) × DistinctKeys es

pub record TableApi : Type 1 where
  pub Table : Type 0
  pub empty : Table
  -- t[k]
  pub get : Table → Key → Option ℕ
  -- t[k] = v, where `none` is nil
  pub put : Table → Key → Option ℕ → Table
  -- what a loop by `lua_next` meets, in its order
  pub entries : Table → Entries
  pub get-empty : (k : Key) → get empty k ≡ none
  pub get-put_self : (t : Table) (k : Key) (v : Option ℕ) → get (put t k v) k ≡ v
  pub get-put_ne :
      (t : Table) (k j : Key) (v : Option ℕ) → key_eq k j ≡ false → get (put t k v) j ≡ get t j
  pub find-entries : (t : Table) (k : Key) → find k (entries t) ≡ get t k
  pub entries_distinct : (t : Table) → DistinctKeys (entries t)
