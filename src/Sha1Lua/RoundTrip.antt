-- ===== src/Sha1Lua/RoundTrip.antt =====
-- sha1/sha1_lua.c: the text of a digest gives the digest back.
use flake.Common.{
  ℕ, ◌+◌, ◌-◌, ◌*◌, ◌/◌, ◌%◌, ◌<◌, ◌≡◌, refl, ap, ap₂, ◌∙◌, true, ◌||◌, ◌&&◌, List, [], ◌∷◌, ltb,
  leb, if◌then◌else◌, arith, All, length,
}
use flake.Lua.{bytes}
use flake.Sha1Lua.{Sha1Api, hex_digit, digest_to_string, sha1_digest}

-- The value of a hexadecimal digit in lower case, and the bytes that a text stands for.
abbrev pub digit_value : ℕ → ℕ
digit_value ch = if ltb ch b'a' then ch - b'0' else ch - b'a' + 10

abbrev pub string_to_digest : List ℕ → List ℕ
string_to_digest [] = []
string_to_digest (h ∷ []) = []
string_to_digest (h ∷ l ∷ text) = (digit_value h * 16 + digit_value l) ∷ string_to_digest text

abbrev pub HexDigit : ℕ → Type 0
HexDigit ch = (leb b'0' ch && leb ch b'9') || (leb b'a' ch && leb ch b'f') ≡ true

digit_value-hex_digit : (n : ℕ) → n < 16 → digit_value (hex_digit n) ≡ n
digit_value-hex_digit n h = ground arith

hex_digit-HexDigit : (n : ℕ) → n < 16 → HexDigit (hex_digit n)
hex_digit-HexDigit n h = ground arith

string_to_digest-digest_to_string :
    (digest : List ℕ)
    → All (λ b. b < 256) digest
    → string_to_digest (digest_to_string digest) ≡ digest
unfolding digest_to_string
string_to_digest-digest_to_string [] h = refl
string_to_digest-digest_to_string (b ∷ digest) (small, rest) =
    ap₂ ◌∷◌
      (omega (
        arith,
        digit_value-hex_digit (b / 16) (omega arith),
        digit_value-hex_digit (b % 16) (omega arith),
      ))
      (string_to_digest-digest_to_string digest rest)

digest_to_string-HexDigit :
    (digest : List ℕ) → All (λ b. b < 256) digest → All HexDigit (digest_to_string digest)
unfolding digest_to_string
digest_to_string-HexDigit [] h = tt
digest_to_string-HexDigit (b ∷ digest) (small, rest) = (
  hex_digit-HexDigit (b / 16) (omega arith),
  (hex_digit-HexDigit (b % 16) (omega arith), digest_to_string-HexDigit digest rest),
)

digest_to_string-length : (digest : List ℕ) → length (digest_to_string digest) ≡ 2 * length digest
unfolding digest_to_string
digest_to_string-length [] = refl
digest_to_string-length (b ∷ digest) = omega (arith, digest_to_string-length digest)

-- The result is a string of forty hexadecimal digits that stands for the digest.
pub sha1_digest-string_to_digest :
    (api : Sha1Api) (input : List ℕ)
    → (text : List ℕ) × (sha1_digest api input ≡ bytes text ∷ [])
      × (length text ≡ 40)
      × All HexDigit text
      × (string_to_digest text ≡ api.final (api.update api.init input))
unfolding sha1_digest
sha1_digest-string_to_digest api input =
    let digest = api.final (api.update api.init input) in
    (
      digest_to_string digest,
      refl,
      digest_to_string-length digest
          ∙ ap (λ n. 2 * n) (api.final-length (api.update api.init input)),
      digest_to_string-HexDigit digest (api.final_bytes (api.update api.init input)),
      string_to_digest-digest_to_string digest (api.final_bytes (api.update api.init input)),
    )
