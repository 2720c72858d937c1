-- ===== src/Sha1Lua/Tests.antt =====
-- Tests of the binding of SHA-1, and the theorem at a concrete input. The stand-in for the hash gives
-- the first byte of the input twenty times.
use flake.Common.{
  ℕ, zero, suc, ◌%◌, ◌<◌, ◌≡◌, refl, List, [], ◌∷◌, arith, length, All, replicate, none, some,
}
use flake.Lua.{bytes}
use flake.Xlua.{closure, set_field, create_table, register}
use flake.Xlua.Typed.{initial}
use flake.Sha1Lua.{Sha1Api, digest_to_string, sha1_digest, luaopen_sha1}
use flake.Sha1Lua.RoundTrip.{string_to_digest, HexDigit, sha1_digest-string_to_digest}

abbrev first_byte : List ℕ → ℕ
first_byte [] = 0
first_byte (b ∷ input) = b % 256

first_byte_small : (input : List ℕ) → first_byte input < 256
first_byte_small [] = omega arith
first_byte_small (b ∷ input) = omega arith

replicate_small : (n b : ℕ) → b < 256 → All (λ c. c < 256) (replicate n b)
replicate_small zero b h = tt
replicate_small (suc n) b h = (h, replicate_small n b h)

abbrev repeat : Sha1Api
repeat = record {
  Ctx = List ℕ;
  init = [];
  update = λ ctx input. input;
  final = λ ctx. replicate 20 (first_byte ctx);
  final-length = λ ctx. refl;
  final_bytes = λ ctx. replicate_small 20 (first_byte ctx) (first_byte_small ctx);
}

two_bytes : digest_to_string (10 ∷ 255 ∷ []) ≡ b'0' ∷ b'a' ∷ b'f' ∷ b'f' ∷ []
unfolding digest_to_string
two_bytes = refl

digest_function :
    (luaopen_sha1 (initial 10 (λ t n. none))).fields 10 "digest" ≡ some (closure "sha1_digest" none)
unfolding luaopen_sha1 create_table register set_field
digest_function = refl

sha1_digest-string_to_digest_example :
    (text : List ℕ) × (sha1_digest repeat (b'a' ∷ []) ≡ bytes text ∷ [])
    × (length text ≡ 40)
    × All HexDigit text
    × (string_to_digest text ≡ replicate 20 b'a')
sha1_digest-string_to_digest_example = sha1_digest-string_to_digest repeat (b'a' ∷ [])
