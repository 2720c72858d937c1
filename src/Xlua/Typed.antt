-- ===== src/Xlua/Typed.antt =====
-- luau/xlua.h: the type check of XLUA_CAST finds the type with which a userdata was made.
use flake.Common.{ℕ, ◌≤◌, ◌<◌, ◌≡◌, Option, none, some, String, ◌==◌, if◌then◌else◌}
use flake.Xlua.{
  Field, Udata, Store, set_field, create_table, new_mt, new_object, full, get_metatable,
}

-- What the abstract view keeps of a state: the type of each userdata that the modules made, by the
-- address of the type's array of functions.
abbrev pub Types : Type 0
Types = ℕ → Option ℕ

abbrev pub no_types : Types
no_types u = none

abbrev pub with_type : Types → (u tptr : ℕ) → Types
with_type types u tptr v = if v == u then some tptr else types v

-- A state in which nothing has been made; the registry and the tables of Lua itself have addresses below
-- `next`.
abbrev pub initial : (next : ℕ) → (fields : ℕ → String → Option Field) → Store
initial next fields = record {
  next = next;
  fields = fields;
  registry = λ t. none;
  udatas = λ u. none;
}

-- What C modules and Lua code do, for C types with sizes that `size_of` gives by their arrays of functions.
-- A userdata of another module has no metatable, or one that it made as a plain table.
pub data History (size_of : ℕ → ℕ) : Store → Types → Type 0 where
  start :
      (next : ℕ) (fields : ℕ → String → Option Field)
      → History size_of (initial next fields) no_types
  sets :
      (s : Store) (types : Types) (t : ℕ) (name : String) (v : Field)
      → History size_of s types
      → History size_of (set_field s t name v) types
  creates :
      (s : Store) (types : Types) → History size_of s types → History size_of (create_table s) types
  makes_type :
      (s : Store) (types : Types) (tptr : ℕ)
      → History size_of s types
      → History size_of (new_mt s tptr) types
  makes_object :
      (s : Store) (types : Types) (mt tptr : ℕ)
      → s.registry mt ≡ some tptr
      → History size_of s types
      → History size_of (new_object s (some mt) (size_of tptr)) (with_type types s.next tptr)
  makes_plain :
      (s : Store) (types : Types) (size : ℕ)
      → History size_of s types
      → History size_of (new_object s none size) types
  makes_foreign :
      (s : Store) (types : Types) (mt size : ℕ)
      → mt < s.next
      → s.registry mt ≡ none
      → History size_of s types
      → History size_of (new_object s (some mt) size) types

-- The type that the registry gives for a userdata.
abbrev pub named : (registry : ℕ → Option ℕ) → (metatable : Option ℕ) → Option ℕ
named registry none = none
named registry (some mt) = registry mt

unfoldable pub type_of : Store → ℕ → Option ℕ
type_of s u = named s.registry (get_metatable s (full u))

-- How a state and its abstract view are related.
pub record Agrees (size_of : ℕ → ℕ) (s : Store) (types : Types) : Type 0 where
  pub registry_new : (t : ℕ) → s.next ≤ t → s.registry t ≡ none
  pub udatas_new : (u : ℕ) → s.next ≤ u → s.udatas u ≡ none
  pub metatable_old : (u mt : ℕ) → get_metatable s (full u) ≡ some mt → mt < s.next
  pub types_eq : (u : ℕ) → type_of s u ≡ types u
  pub sizes :
      (u tptr : ℕ)
      → types u ≡ some tptr
      → (d : Udata) × (s.udatas u ≡ some d) × (d.size ≡ size_of tptr)
