-- ===== src/Xpio/Address.antt =====
-- luau/xpio_c.c: the textual addresses of sockets, `scanNum`, `addrFromString` and
-- `xpsocket_getXname`. A C string is the list of its bytes before the terminating NUL.
pub mod Scan
pub mod Fields
pub mod RoundTrip
mod Tests
use flake.Common.{
  ℕ, zero, suc, ◌+◌, ◌-◌, ◌*◌, ◌/◌, ◌%◌, ◌^◌, ◌<◌, ◌≡◌, Bool, Option, none, some, List, [], ◌∷◌,
  ◌++◌, ltb, leb, ◌==◌, if◌then◌else◌, set, All,
}

abbrev pub u32_mod : ℕ
u32_mod = 2 ^ 32

-- `(unsigned) ch` for a byte `ch` of a `char` string, which is signed: bytes from 128 on extend
pub unsigned_char : ℕ → ℕ
unsigned_char ch = if ltb ch 128 then ch else ch + u32_mod - 256

-- `((unsigned) (ch) - (unsigned) '0') <= (unsigned) 9`
unfoldable pub is_digit : ℕ → Bool
unfolding unsigned_char
is_digit ch = leb ((unsigned_char ch + u32_mod - b'0') % u32_mod) 9

-- The loop of `scanNum` over `psz`, with the accumulator `n`; the result holds what `*pn` is set to
-- and the string that is left.
unfoldable pub scan_digits : ℕ → List ℕ → ℕ × List ℕ
scan_digits n [] = (n, [])
scan_digits n (ch ∷ psz) =
    let rest = scan_digits ((n * 10 + (ch - b'0')) % u32_mod) psz in
    if is_digit ch then rest else (n, ch ∷ psz)

unfoldable pub scan_num : List ℕ → ℕ × List ℕ
unfolding scan_digits
scan_num psz = scan_digits 0 psz

-- The variables of the loop in `addrFromString` where it breaks: `i`, `nums` and `port`.
pub record Scanned : Type 0 where
  pub fields : ℕ
  pub nums : List ℕ
  pub port : ℕ

-- `if (*psz == '.') ++psz;`
unfoldable pub skip_dot : List ℕ → List ℕ
skip_dot [] = []
skip_dot (ch ∷ psz) = if ch == b'.' then psz else ch ∷ psz

-- The loop of `addrFromString` at index `i`, where `left` is ARRAY_LENGTH(nums) - i. `none` is the
-- `return -1`.
unfoldable pub scan_fields : (left i : ℕ) → List ℕ → List ℕ → Option Scanned
scan_fields left i nums [] = some (record { fields = i; nums = nums; port = 0 })
scan_fields zero i nums (ch ∷ psz) =
    if ch == b':' then some (record { fields = i; nums = nums; port = (scan_num psz).0 }) else none
scan_fields (suc left) i nums (ch ∷ psz) =
    let (num, rest) = scan_num (ch ∷ psz) in
    let next = scan_fields left (i + 1) (set nums i num) (skip_dot rest) in
    if ch == b':' then some (record { fields = i; nums = nums; port = (scan_num psz).0 }) else next

-- `struct sockaddr_in`: the bytes of `sin_port` and `sin_addr` as they lie in memory, that is in
-- network order.
pub record SockAddr : Type 0 where
  pub family : ℕ
  pub port : ℕ × ℕ
  pub addr : ℕ × ℕ × ℕ × ℕ

abbrev pub af_inet : ℕ
af_inet = 2

-- `htonl` and `htons`, by the bytes of their result in memory; `htons` takes a `uint16_t`.
unfoldable pub htonl : ℕ → ℕ × ℕ × ℕ × ℕ
htonl n = (n / 2 ^ 24 % 256, n / 2 ^ 16 % 256, n / 2 ^ 8 % 256, n % 256)

unfoldable pub htons : ℕ → ℕ × ℕ
htons n = (n / 256 % 256, n % 256)

-- `if (i > k) num *= factor;` in unsigned arithmetic
abbrev pub scale : (i k factor num : ℕ) → ℕ
scale i k factor num = if ltb k i then num * factor % u32_mod else num

-- What the code passes to `htonl`.
unfoldable pub host_addr : ℕ → List ℕ → ℕ
host_addr i (a ∷ b ∷ c ∷ d ∷ []) =
    (scale i 1 0x1000000 a + scale i 2 0x10000 b + scale i 3 0x100 c + d) % u32_mod
host_addr i nums = 0

unfoldable pub sock_addr : Scanned → SockAddr
sock_addr s = record {
  family = af_inet;
  port = htons s.port;
  addr = htonl (host_addr s.fields s.nums);
}

unfoldable pub addr_from_string : List ℕ → Option SockAddr
addr_from_string psz = elim (scan_fields 4 0 (0 ∷ 0 ∷ 0 ∷ 0 ∷ []) psz) [
  | none ↦ none
  | some s ↦ some (sock_addr s)
]

-- `lua_pushfstring(L, "%d", n)` of the Lua library at a number that is not negative: its decimal
-- digits.
abbrev pub Digit : ℕ → Type 0
Digit ch = (b'0' - 1 < ch) × (ch < b'9' + 1)

abbrev pub decimal : ℕ → List ℕ → ℕ
decimal n [] = n
decimal n (ch ∷ psz) = decimal (n * 10 + (ch - b'0')) psz

pub record Format : Type 0 where
  pub fmt : ℕ → List ℕ
  pub fmt_digits : (n : ℕ) → All Digit (fmt n)
  pub fmt_value : (n : ℕ) → decimal 0 (fmt n) ≡ n
  pub fmt_starts : (n : ℕ) → (d : ℕ) × (ds : List ℕ) × (fmt n ≡ d ∷ ds)

-- `xpsocket_getXname`; `none` is the reply for an address family other than AF_INET.
unfoldable pub get_xname : (ℕ → List ℕ) → SockAddr → Option (List ℕ)
get_xname fmt sin =
    let (a, b, c, d) = sin.addr in
    let (hi, lo) = sin.port in
    if sin.family == af_inet
    then some (
        fmt a ++ (b'.' ∷ fmt b ++ (b'.' ∷ fmt c ++ (b'.' ∷ fmt d ++ (b':' ∷ fmt (hi * 256 + lo))))))
    else none
