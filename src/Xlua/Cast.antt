-- ===== src/Xlua/Cast.antt =====
-- luau/xlua.h: XLUA_CAST finds the type with which a userdata was made.
use flake.Common.{
  ℕ, ◌≡◌, refl, ap, Bool, false, Option, none, some, List, [], ◌∷◌, String, arith, ◌==◌,
  if◌then◌else◌,
}
use flake.Lua.{ok, raised}
use flake.Xlua.{
  Store, Passed, full, light, other, typename, get_metatable, to_userdata, checked, check_udata,
  CType, cast, Reg, closure, set_field, register, new_mt, newmt,
}
use flake.Xlua.Typed.{Types, History, sets, makes_type, type_of}
use flake.Xlua.Agreement.{History-Agrees}

abbrev pub is_type : Option ℕ → ℕ → Bool
is_type none regs = false
is_type (some tptr) regs = tptr == regs

-- What the abstract view says of a cast.
abbrev pub typed_cast : Types → Passed → ℕ → Option ℕ
typed_cast types (full u) regs = if is_type (types u) regs then some u else none
typed_cast types (light p) regs = none
typed_cast types (other name) regs = none

checked-typed_cast :
    (s : Store) (types : Types) (v : Passed) (regs : ℕ)
    → ((u : ℕ) → type_of s u ≡ types u)
    → checked s v regs ≡ typed_cast types v regs
unfolding checked to_userdata type_of get_metatable
checked-typed_cast s types (full u) regs same = ground (arith, same u)
checked-typed_cast s types (light p) regs same = ground arith
checked-typed_cast s types (other name) regs same = refl

typed_cast-some :
    (types : Types) (v : Passed) (regs me : ℕ)
    → typed_cast types v regs ≡ some me
    → (v ≡ full me) × (types me ≡ some regs)
typed_cast-some types (full u) regs me h = ground (arith, ap types)
typed_cast-some types (light p) regs me h = ground arith
typed_cast-some types (other name) regs me h = ground arith

module _ (argerror : ℕ → String → String) (expected : String → String → String)
    (size_of : ℕ → ℕ) where
  -- After every history, XLUA_CAST gives the userdata where it was made for the type, and raises
  -- otherwise.
  pub cast-typed_cast :
      (s : Store) (types : Types) (narg : ℕ) (v : Passed) (type : CType)
      → History size_of s types
      → cast argerror expected s narg v type ≡ elim (typed_cast types v type.regs) [
        | some me ↦ ok me
        | none ↦ raised (argerror narg (expected type.name (typename v)))
      ]
  unfolding cast check_udata
  cast-typed_cast s types narg v type h =
      ap
        (λ (found : Option ℕ). elim found [
          | some me ↦ ok me
          | none ↦ raised (argerror narg (expected type.name (typename v)))
        ])
        (checked-typed_cast s types v type.regs (History-Agrees size_of s types h).types_eq)

-- XLUA_NEWMT is one step of making a type, and steps of setting fields.
pub register-History :
    (size_of : ℕ → ℕ) (s : Store) (types : Types) (t : ℕ) (regs : List Reg) (up : Option ℕ)
    → History size_of s types
    → History size_of (register s t regs up) types
unfolding register
register-History size_of s types t [] up h = h
register-History size_of s types t (preg ∷ regs) up h =
    register-History size_of (set_field s t preg.name (closure preg.func up)) types t regs up
      (sets s types t preg.name (closure preg.func up) h)

pub newmt-History :
    (size_of : ℕ → ℕ) (s : Store) (types : Types) (type : CType)
    → History size_of s types
    → History size_of (newmt s type) types
unfolding newmt
newmt-History size_of s types type h =
    register-History size_of (new_mt s type.regs) types s.next type.functions none
      (makes_type s types type.regs h)
