-- ===== src/Xpio/Address/RoundTrip.antt =====
-- luau/xpio_c.c: `addrFromString` reads back what `xpsocket_getXname` prints.
use flake.Common.{ℕ, ◌+◌, ◌*◌, ◌^◌, ◌<◌, ◌≡◌, refl, ◌∙◌, some, List, [], ◌∷◌, arith}
use flake.Xpio.Address.{SockAddr, af_inet, htonl, htons, Format, addr_from_string, get_xname}
use flake.Xpio.Address.Fields.{addr_text, addr_from_string-addr_text}

-- Every part of the address is a byte.
pub record IsWire (sin : SockAddr) : Type 0 where
  pub a : sin.addr.0 < 256
  pub b : sin.addr.1 < 256
  pub c : sin.addr.2 < 256
  pub d : sin.addr.3 < 256
  pub hi : sin.port.0 < 256
  pub lo : sin.port.1 < 256

abbrev wire : (a b c d hi lo : ℕ) → SockAddr
wire a b c d hi lo = record { family = af_inet; port = (hi, lo); addr = (a, b, c, d) }

get_xname-addr_text :
    (f : Format) (a b c d hi lo : ℕ)
    → get_xname f.fmt (wire a b c d hi lo)
      ≡ some (addr_text f (a ∷ b ∷ c ∷ d ∷ []) (some (hi * 256 + lo)))
unfolding get_xname
get_xname-addr_text f a b c d hi lo = refl

wire_bytes :
    (a b c d hi lo : ℕ)
    → IsWire (wire a b c d hi lo)
    → (htons (hi * 256 + lo) ≡ (hi, lo))
      × (htonl (a * 2 ^ 24 + b * 2 ^ 16 + c * 2 ^ 8 + d) ≡ (a, b, c, d))
unfolding htonl htons
wire_bytes a b c d hi lo w = (ground arith, ground arith)

-- An AF_INET address is printed, and `addrFromString` reads the text back as the same address.
pub addr_from_string-get_xname :
    (f : Format) (sin : SockAddr)
    → IsWire sin
    → sin.family ≡ af_inet
    → (text : List ℕ) × (get_xname f.fmt sin ≡ some text) × (addr_from_string text ≡ some sin)
addr_from_string-get_xname f sin w e =
    let (a, b, c, d) = sin.addr in
    let (hi, lo) = sin.port in
    let text : List ℕ = addr_text f (a ∷ b ∷ c ∷ d ∷ []) (some (hi * 256 + lo)) in
    let bytes =
      wire_bytes a b c d hi lo
        (record { a = w.a; b = w.b; c = w.c; d = w.d; hi = w.hi; lo = w.lo }) in
    (
      text,
      rw e (get_xname-addr_text f a b c d hi lo),
      addr_from_string-addr_text f (a ∷ b ∷ c ∷ d ∷ []) (some (hi * 256 + lo))
          ∙ rw (bytes.0, bytes.1, ← e) refl,
    )
