-- ===== src/Xpio/Address/Tests.antt =====
-- Tests of luau/xpio_c.c's addresses, after luau/xpio_c_q.c, and the theorems at concrete inputs.
use Prim.Native.Char.{code}
use flake.Common.{
  ℕ, zero, suc, ◌+◌, ◌-◌, ◌*◌, ◌/◌, ◌%◌, ◌^◌, ◌≤◌, ◌≡◌, refl, some, List, [], ◌∷◌, ◌++◌, arith, ltb,
  if◌then◌else◌, All, All-append, String, Bool-cases, inl, inr,
}
use flake.Xpio.Address.{
  SockAddr, af_inet, Format, Digit, decimal, is_digit, scan_num, scan_fields, skip_dot, sock_addr,
  host_addr, addr_from_string, get_xname, htonl, htons,
}
use flake.Xpio.Address.Fields.{addr_text, addr_from_string-addr_text}
use flake.Xpio.Address.RoundTrip.{addr_from_string-get_xname}

abbrev codes : String → List ℕ
codes String.[] = []
codes (String.◌∷◌ c s) = code c ∷ codes s

print_fuel : ℕ → ℕ → List ℕ
print_fuel zero n = (b'0' + n % 10) ∷ []
print_fuel (suc fuel) n =
    let more = print_fuel fuel (n / 10) ++ ((b'0' + n % 10) ∷ []) in
    if ltb n 10 then (b'0' + n) ∷ [] else more

decimal-append :
    (m : ℕ) (ds : List ℕ) (ch : ℕ) → decimal m (ds ++ ch ∷ []) ≡ decimal m ds * 10 + (ch - b'0')
decimal-append m [] ch = refl
decimal-append m (d ∷ ds) ch = decimal-append (m * 10 + (d - b'0')) ds ch

print_digits : (fuel n : ℕ) → All Digit (print_fuel fuel n)
unfolding print_fuel
print_digits zero n = omega arith
print_digits (suc fuel) n = elim (Bool-cases (ltb n 10)) [
  | inl e ↦ rw e (ground arith)
  | inr e ↦
      rw e
        (All-append Digit (print_fuel fuel (n / 10)) _ (print_digits fuel (n / 10)) (omega arith))
]

print_value : (fuel n : ℕ) → n ≤ fuel → decimal 0 (print_fuel fuel n) ≡ n
unfolding print_fuel
print_value zero n h = omega arith
print_value (suc fuel) n h = elim (Bool-cases (ltb n 10)) [
  | inl e ↦ rw e (omega arith)
  | inr e ↦ rw e (
      rw (decimal-append 0 (print_fuel fuel (n / 10)) (b'0' + n % 10))
        (ground (arith, print_value fuel (n / 10))))
]

print_starts : (fuel n : ℕ) → (d : ℕ) × (ds : List ℕ) × (print_fuel fuel n ≡ d ∷ ds)
unfolding print_fuel
print_starts zero n = (_, _, refl)
print_starts (suc fuel) n = elim (Bool-cases (ltb n 10)) [
  | inl e ↦ rw e (_, _, refl)
  | inr e ↦ let (d, ds, q) = print_starts fuel (n / 10) in rw (e, q) (_, _, refl)
]

-- A printer of decimal numbers, so that the theorems can be applied.
abbrev decimals : Format
decimals = record {
  fmt = λ n. print_fuel n n;
  fmt_digits = λ n. print_digits n n;
  fmt_value = λ n. print_value n n (omega arith);
  fmt_starts = λ n. print_starts n n;
}

sockaddr : (a b c d hi lo : ℕ) → SockAddr
sockaddr a b c d hi lo = record { family = af_inet; port = (hi, lo); addr = (a, b, c, d) }

scan_num_dot : scan_num (codes "123.") ≡ (123, codes ".")
unfolding scan_num is_digit
scan_num_dot = refl

scan_num_max : scan_num (codes "2147483647") ≡ (2147483647, [])
unfolding scan_num is_digit
scan_num_max = refl

addr_from_string_full : addr_from_string (codes "123.4.5.255:258") ≡ some (sockaddr 123 4 5 255 1 2)
unfolding addr_from_string scan_fields skip_dot scan_num sock_addr host_addr htonl htons sockaddr
    is_digit
addr_from_string_full = refl

addr_from_string_port : addr_from_string (codes ":123") ≡ some (sockaddr 0 0 0 0 0 123)
unfolding addr_from_string scan_fields skip_dot scan_num sock_addr host_addr htonl htons sockaddr
    is_digit
addr_from_string_port = refl

print_port : decimals.fmt 8080 ≡ codes "8080"
unfolding print_fuel
print_port = refl

addr_from_string-addr_text_example :
    addr_from_string (addr_text decimals (127 ∷ 1 ∷ []) (some 65537))
    ≡ some (record { family = af_inet; port = htons 65537; addr = htonl (127 * 2 ^ 24 + 1) })
addr_from_string-addr_text_example = addr_from_string-addr_text decimals (127 ∷ 1 ∷ []) (some 65537)

addr_from_string-get_xname_example :
    (text : List ℕ) × (get_xname decimals.fmt (sockaddr 192 168 1 1 0 80) ≡ some text)
    × (addr_from_string text ≡ some (sockaddr 192 168 1 1 0 80))
unfolding sockaddr
addr_from_string-get_xname_example =
    addr_from_string-get_xname decimals (sockaddr 192 168 1 1 0 80) (omega arith) refl
