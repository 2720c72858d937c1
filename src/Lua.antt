-- ===== src/Lua.antt =====
-- What the C functions hand to Lua. The Lua library itself (lua/lua-5.3.1) is not modelled: a
-- function of the program returns the list of the values that it leaves for its caller.
pub mod Table
pub mod Assoc
use flake.Common.{ℕ, Bool, List, String, ℤ, ◌≡◌, refl, [], ◌∷◌, ◌==◌, if◌then◌else◌}

-- `number` is a float with an integral value. A Lua string stands as a text, where the source writes it, or as bytes. A userdata or a table
-- is its address.
pub data LuaValue : Type 0 where
  nil : LuaValue
  boolean : Bool → LuaValue
  integer : ℤ → LuaValue
  number : ℤ → LuaValue
  string : String → LuaValue
  bytes : List ℕ → LuaValue
  userdata : ℕ → LuaValue

-- A function returns, or raises an error by `luaL_error`. `blocked` is a `poll` that never returns.
pub data Result {κ} (V : Type κ) : Type κ where
  blocked : Result V
  raised : (message : String) → Result V
  ok : V → Result V

infixl 5 ◌>>=◌
abbrev pub ◌>>=◌ {κ ℓ} : {V : Type κ} {W : Type ℓ} (first : Result V) → (V → Result W) → Result W
blocked >>= then_do = blocked
raised message >>= then_do = raised message
ok v >>= then_do = then_do v

-- What a successful sequence did.
pub >>=-eq-ok {κ ℓ} :
    {V : Type κ} {W : Type ℓ} (first : Result V) (then_do : V → Result W) {w : W}
    → (first >>= then_do) ≡ ok w
    → (v : V) × (first ≡ ok v) × (then_do v ≡ ok w)
>>=-eq-ok blocked then_do h = cc
>>=-eq-ok (raised message) then_do h = cc
>>=-eq-ok (ok v) then_do h = (v, refl, h)

-- What a C function reads of a string with a length: the bytes before the first NUL.
abbrev pub c_string : List ℕ → List ℕ
c_string [] = []
c_string (ch ∷ str) = let rest = c_string str in if ch == 0 then [] else ch ∷ rest
