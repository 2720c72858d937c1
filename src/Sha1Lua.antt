-- ===== src/Sha1Lua.antt =====
-- sha1/sha1_lua.c: the binding of the hash function SHA-1 to Lua. The hash itself (sha1/sha1.c) is an
-- argument.
pub mod RoundTrip
mod Tests
use flake.Common.{
  ℕ, zero, suc, ◌+◌, ◌-◌, ◌/◌, ◌%◌, ◌≡◌, ◌<◌, List, [], ◌∷◌, ◌++◌, ltb, if◌then◌else◌, none, All,
  length,
}
use flake.Lua.{LuaValue, bytes}
use flake.Xlua.{Reg, Store, create_table, register}

-- SHA1_DIGEST_SIZE
abbrev pub digest_size : ℕ
digest_size = 20

-- `SHA1_Init`, `SHA1_Update` and `SHA1_Final`: a digest is twenty bytes.
pub record Sha1Api : Type 1 where
  pub Ctx : Type 0
  pub init : Ctx
  pub update : Ctx → List ℕ → Ctx
  pub final : Ctx → List ℕ
  pub final-length : (ctx : Ctx) → length (final ctx) ≡ digest_size
  pub final_bytes : (ctx : Ctx) → All (λ b. b < 256) (final ctx)

-- A digit of "%x"
abbrev pub hex_digit : ℕ → ℕ
hex_digit n = if ltb n 10 then b'0' + n else b'a' + (n - 10)

-- sprintf(c, "%02x", b) for a byte
abbrev pub hex_byte : ℕ → List ℕ
hex_byte b = hex_digit (b / 16) ∷ hex_digit (b % 16) ∷ []

-- `digest_to_string`, the terminating NUL left out
unfoldable pub digest_to_string : List ℕ → List ℕ
digest_to_string [] = []
digest_to_string (b ∷ digest) = hex_byte b ++ digest_to_string digest

-- `sha1_digest`
unfoldable pub sha1_digest : Sha1Api → (input : List ℕ) → List LuaValue
unfolding digest_to_string
sha1_digest api input = bytes (digest_to_string (api.final (api.update api.init input))) ∷ []

abbrev pub sha1_regs : List Reg
sha1_regs = record { name = "digest"; func = "sha1_digest" } ∷ []

-- `luaopen_sha1`: the new table has the address `s.next`.
unfoldable pub luaopen_sha1 : Store → Store
unfolding create_table register
luaopen_sha1 s = register (create_table s) s.next sha1_regs none
