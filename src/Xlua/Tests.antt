-- ===== src/Xlua/Tests.antt =====
-- Tests of luau/xlua.h, and the theorems at concrete inputs: a state with two types and an object.
use flake.Common.{ℕ, ◌/◌, ◌*◌, ◌-◌, ◌≡◌, refl, none, some, [], ◌∷◌, String}
use flake.Lua.{ok, raised}
use flake.Xlua.{
  table, closure, Store, set_field, create_table, register, new_mt, new_object, full, light,
  get_metatable, to_userdata, checked, check_udata, CType, newmt, cast,
}
use flake.Xlua.Typed.{with_type, no_types, initial, History, start, makes_object}
use flake.Xlua.Cast.{newmt-History, cast-typed_cast}

abbrev point : CType
point = record {
  name = "Point";
  regs = 500;
  functions = record { name = "move"; func = "point_move" } ∷ [];
  size = 16;
}

abbrev line : CType
line = record { name = "Line"; regs = 600; functions = []; size = 32 }

abbrev sizes : ℕ → ℕ
sizes n = n / 100 * 16 - 64

abbrev two_types : Store
two_types = newmt (newmt (initial 10 (λ t n. none)) point) line

abbrev with_point : Store
with_point = new_object two_types (some 10) (sizes 500)

abbrev argerror : ℕ → String → String
argerror narg message = message

abbrev expected : String → String → String
expected type got = type

method : with_point.fields 10 "move" ≡ some (closure "point_move" none)
unfolding new_object newmt new_mt create_table register set_field
method = refl

index : with_point.fields 10 "__index" ≡ some (table 10)
unfolding new_object newmt new_mt create_table register set_field
index = refl

light_refused : cast argerror expected with_point 1 (light 12) point ≡ raised "Point"
unfolding cast check_udata checked to_userdata get_metatable
light_refused = refl

with_point-History : History sizes with_point (with_type no_types 12 500)
unfolding newmt new_mt create_table register set_field
with_point-History = makes_object two_types no_types 10 500 refl (
    newmt-History sizes (newmt (initial 10 (λ t n. none)) point) no_types line
      (newmt-History sizes (initial 10 (λ t n. none)) no_types point (start 10 (λ t n. none))))

point_is_point : cast argerror expected with_point 1 (full 12) point ≡ ok 12
unfolding cast check_udata checked to_userdata get_metatable new_object newmt new_mt create_table
    register set_field
point_is_point = refl

cast-typed_cast_example : cast argerror expected with_point 1 (full 12) line ≡ raised "Line"
cast-typed_cast_example =
    cast-typed_cast argerror expected sizes with_point (with_type no_types 12 500) 1 (full 12) line
      with_point-History
