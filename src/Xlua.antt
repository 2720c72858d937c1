-- ===== src/Xlua.antt =====
-- luau/xlua.h: the tables, metatables and userdata of a Lua state, as far as the type check of userdata
-- uses them. The Lua API functions that the code calls are written out on this state.
pub mod Fields
pub mod Typed
pub mod Agreement
pub mod Cast
mod Tests
use text.Mathlib.Text.{◌==◌ as str_eq}
use flake.Common.{
  ℕ, zero, suc, ◌+◌, Bool, true, false, Option, none, some, List, [], ◌∷◌, String, ◌==◌,
  if◌then◌else◌,
}
use flake.Lua.{Result, ok, raised}

-- `luaL_Reg`: a name, and a C function, by its name in the source. The arrays end with {0, 0}, here
-- the end of the list.
pub record Reg : Type 0 where
  pub name : String
  pub func : String

-- What is found at a string key of a table: a table, by its address; a C closure, with the table that
-- is its upvalue, if it has one; or a table of strings that nothing else refers to.
pub data Field : Type 0 where
  table : ℕ → Field
  closure : (func : String) → (up_value : Option ℕ) → Field
  strings : List (List ℕ × List ℕ) → Field

-- A full userdata: its metatable, and the size of its block.
pub record Udata : Type 0 where
  pub metatable : Option ℕ
  pub size : ℕ

-- A Lua state. Objects are known by addresses that are given out in turn; an object that Lua has
-- collected stays, for nothing refers to it.
pub record Store : Type 0 where
  pub next : ℕ
  -- the fields of the table at an address
  pub fields : ℕ → String → Option Field
  -- REGISTRY[t] for a table t, where it is a light userdata
  pub registry : ℕ → Option ℕ
  pub udatas : ℕ → Option Udata

unfoldable pub set_field : Store → (t : ℕ) → String → Field → Store
set_field s t name v = record s {
  fields = λ u n. if u == t then if str_eq n name then some v else s.fields u n else s.fields u n;
}

-- lua_createtable
unfoldable pub create_table : Store → Store
create_table s = record s {
  next = s.next + 1;
  fields = λ u n. if u == s.next then none else s.fields u n;
}

-- `xlua_register`; `ndxUpValue` is 0, or refers to a table.
unfoldable pub register : Store → (t : ℕ) → (regs : List Reg) → (up_value : Option ℕ) → Store
unfolding set_field
register s t [] up_value = s
register s t (preg ∷ regs) up_value =
    register (set_field s t preg.name (closure preg.func up_value)) t regs up_value

-- `xlua_newMT`: the state, and the new table, which has the address `s.next`.
unfoldable pub new_mt : Store → (tptr : ℕ) → Store
unfolding create_table set_field
new_mt s tptr =
    let mt = s.next in
    let created = create_table s in
    set_field (record created { registry = λ t. if t == mt then some tptr else s.registry t }) mt
      "__index" (table mt)

-- `xlua_newObject`: the new userdata has the address `s.next`.
unfoldable pub new_object : Store → (mt : Option ℕ) → (size : ℕ) → Store
new_object s mt size = record s {
  next = s.next + 1;
  udatas = λ u. if u == s.next then some (record { metatable = mt; size = size }) else s.udatas u;
}

-- An argument of a C function: a full userdata, a light one, which has no metatable, or another value
-- by what `luaL_typename` says of it.
pub data Passed : Type 0 where
  full : ℕ → Passed
  light : ℕ → Passed
  other : (typename : String) → Passed

unfoldable pub typename : Passed → String
typename (full u) = "userdata"
typename (light p) = "userdata"
typename (other name) = name

-- lua_getmetatable
unfoldable pub get_metatable : Store → Passed → Option ℕ
get_metatable s (full u) = elim (s.udatas u) [ none ↦ none | some d ↦ d.metatable ]
get_metatable s (light p) = none
get_metatable s (other name) = none

-- lua_touserdata; `none` is NULL.
unfoldable pub to_userdata : Passed → Option ℕ
to_userdata (full u) = some u
to_userdata (light zero) = none
to_userdata (light (suc p)) = some (suc p)
to_userdata (other name) = none

-- The test of `xlua_checkudata`: the pointer that it returns.
unfoldable pub checked : Store → Passed → (regs : ℕ) → Option ℕ
unfolding to_userdata get_metatable
checked s v regs = elim (to_userdata v) [
  | none ↦ none
  | some me ↦ elim (get_metatable s v) [
    | none ↦ none
    | some mt ↦ elim (s.registry mt) [
      | none ↦ none
      | some tptr ↦ if tptr == regs then some me else none
    ]
  ]
]

-- `xlua_checkudata`; `argerror` is the message that `luaL_argerror` raises, and `expected` is what
-- `lua_pushfstring` makes of the format "%s object expected, got %s".
unfoldable pub check_udata :
    (argerror : ℕ → String → String)
    → (expected : String → String → String) → Store
    → (narg : ℕ) → Passed
    → (regs : ℕ) → (type_name : String) → Result ℕ
unfolding checked typename
check_udata argerror expected s narg v regs type_name = elim (checked s v regs) [
  | some me ↦ ok me
  | none ↦ raised (argerror narg (expected type_name (typename v)))
]

-- A C type with its array `Type_regs`.
pub record CType : Type 0 where
  pub name : String
  pub regs : ℕ
  pub functions : List Reg
  pub size : ℕ

-- XLUA_NEWMT
unfoldable pub newmt : Store → CType → Store
unfolding new_mt register
newmt s type = register (new_mt s type.regs) s.next type.functions none

-- XLUA_CAST
unfoldable pub cast :
    (argerror : ℕ → String → String)
    → (expected : String → String → String) → Store
    → (narg : ℕ) → Passed
    → CType
    → Result ℕ
unfolding check_udata
cast argerror expected s narg v type = check_udata argerror expected s narg v type.regs type.name
